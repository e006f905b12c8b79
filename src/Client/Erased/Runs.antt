-- ===== src/Client/Erased/Runs.antt =====
-- Runs of the handlers, in any order, in the two copies of the program.
use wrk_offloadenginesupport.Prelude.{
  ℕ, ◌≡◌, refl, ap, ◌∙◌, false, Option, none, some, ◌>>=◌, List, [], ◌∷◌,
}
use wrk_offloadenginesupport.Net.{Outcome}
use wrk_offloadenginesupport.Connection.{
  World, Config, with_conn, create_file_event, writable, socket_writeable,
}
use wrk_offloadenginesupport.Connection.Socket.{ConnectReply}
use wrk_offloadenginesupport.Connection.Events
use wrk_offloadenginesupport.Connection.Events.{WriteReply, ReadRound, delay_request}
use wrk_offloadenginesupport.Client.Handlers as ClientHandlers
use wrk_offloadenginesupport.Client.Erased.{erased, erased_some, erased-emit}
use wrk_offloadenginesupport.Client.Erased.Handlers.{
  handle_connected-erased, handle_writeable-erased,
}
use wrk_offloadenginesupport.Client.Erased.Reading.{handle_readable-erased}

-- A handler that the event loop calls, with what it learns from outside.
pub data Step : Type 0 where
  connected_step : ℕ → Outcome → ConnectReply → Step
  writeable_step : ℕ → WriteReply → Step
  readable_step : ConnectReply → List ReadRound → Step
  delay_step : Step

module _ (junk : ℕ → ℕ) (cfg : Config) where
  abbrev pub step : Step → World → Option World
  step (connected_step fd answer reply) w = some (Events.handle_connected cfg fd answer reply w)
  step (writeable_step fd r) w = some (Events.handle_writeable cfg fd r w)
  step (readable_step reply rs) w = Events.handle_readable junk cfg reply rs w
  step delay_step w = some (delay_request w)

  abbrev pub client_step : Step → World → Option World
  client_step (connected_step fd answer reply) w =
      some (ClientHandlers.handle_connected cfg fd answer reply w)
  client_step (writeable_step fd r) w = some (ClientHandlers.handle_writeable cfg fd r w)
  client_step (readable_step reply rs) w = ClientHandlers.handle_readable junk cfg reply rs w
  client_step delay_step w = some (delay_request w)

  abbrev pub steps : List Step → World → Option World
  steps [] w = some w
  steps (s ∷ ss) w = step s w >>= steps ss

  abbrev pub client_steps : List Step → World → Option World
  client_steps [] w = some w
  client_steps (s ∷ ss) w = client_step s w >>= client_steps ss

  delay_request-erased : (w : World) → erased (delay_request w) ≡ delay_request (erased w)
  unfolding delay_request
  delay_request-erased w =
      erased-emit (with_conn w (record (w.conn) { delayed = false }))
        (create_file_event w.conn.fd writable socket_writeable ∷ [])

  step-erased : (s : Step) (w : World) → erased_some (step s w) ≡ client_step s (erased w)
  step-erased (connected_step fd answer reply) w =
      ap some (handle_connected-erased cfg fd answer reply w)
  step-erased (writeable_step fd r) w = ap some (handle_writeable-erased cfg fd r w)
  step-erased (readable_step reply rs) w = handle_readable-erased junk cfg reply rs w
  step-erased delay_step w = ap some (delay_request-erased w)

  bind-erased :
      (o : Option World) (f g : World → Option World)
      → ((w : World) → erased_some (f w) ≡ g (erased w))
      → erased_some (o >>= f) ≡ (erased_some o >>= g)
  bind-erased none f g h = refl
  bind-erased (some w) f g h = h w

  -- Whichever of socket_connected, socket_writeable, socket_readable and delay_request run, in whatever
  -- order, and whatever they learn from outside, the copy of the program under client_wrks does the
  -- same as src does: the same thread, connection and histograms, and the same calls but for those of
  -- SSL_set_options.
  pub steps-erased :
      (ss : List Step) (w : World) → erased_some (steps ss w) ≡ client_steps ss (erased w)
  steps-erased [] w = refl
  steps-erased (s ∷ ss) w =
      bind-erased (step s w) (steps ss) (client_steps ss) (steps-erased ss)
      ∙ ap (λ o. o >>= client_steps ss) (step-erased s w)
