-- ===== src/Client/Erased/Reading.antt =====
-- socket_readable and the callbacks of the parser, of src/wrk.c against those of client_wrks.
use wrk_offloadenginesupport.Prelude.{
  ℕ, ◌≡◌, refl, ap, ◌∙◌, Bool, true, false, not, ◌&&◌, Option, none, some, List, [], ◌∷◌,
  if◌then◌else◌, ltb, ◌==◌,
}
use wrk_offloadenginesupport.Net.{Status, ok, error, retry}
use wrk_offloadenginesupport.Connection.{World, Config, with_conn}
use wrk_offloadenginesupport.Connection.Socket.{ConnectReply}
use wrk_offloadenginesupport.Connection.Callbacks.{header_field, header_value, response_body}
use wrk_offloadenginesupport.Connection.Events
use wrk_offloadenginesupport.Connection.Events.{
  WriteReply, begin_batch, wrote, ParserEvent, on_header_field, on_header_value, on_body,
  on_message_complete, ReadRound, recvbuf,
}
use wrk_offloadenginesupport.Client.Handlers as ClientHandlers
use wrk_offloadenginesupport.Client.Erased.{erased, erased_some, reconnect_socket-erased}
use wrk_offloadenginesupport.Client.Erased.Handlers.{if-erased, response_complete-erased}

module _ (junk : ℕ → ℕ) where
  parser_event-erased :
      (cfg : Config) (e : ParserEvent) (w : World)
      → erased (Events.parser_event junk cfg e w)
        ≡ ClientHandlers.parser_event junk cfg e (erased w)
  unfolding Events.parser_event ClientHandlers.parser_event
  parser_event-erased cfg (on_header_field at) w =
      if-erased cfg.want_response (with_conn w (header_field junk at w.conn)) w refl refl
  parser_event-erased cfg (on_header_value at) w =
      if-erased cfg.want_response (with_conn w (header_value junk at w.conn)) w refl refl
  parser_event-erased cfg (on_body at) w =
      if-erased cfg.want_response (with_conn w (response_body junk at w.conn)) w refl refl
  parser_event-erased cfg (on_message_complete k) w = response_complete-erased cfg k w

  parser_events-erased :
      (cfg : Config) (es : List ParserEvent) (w : World)
      → erased (Events.parser_events junk cfg es w)
        ≡ ClientHandlers.parser_events junk cfg es (erased w)
  unfolding Events.parser_events ClientHandlers.parser_events
  parser_events-erased cfg [] w = refl
  parser_events-erased cfg (e ∷ es) w =
      parser_events-erased cfg es (Events.parser_event junk cfg e w)
      ∙ ap (ClientHandlers.parser_events junk cfg es) (parser_event-erased cfg e w)

  read_failed-erased :
      (reply : ConnectReply) (w : World)
      → erased (Events.read_failed junk reply w) ≡ ClientHandlers.read_failed junk reply (erased w)
  unfolding Events.read_failed ClientHandlers.read_failed
  read_failed-erased reply w = reconnect_socket-erased reply _

  abbrev erased_first : World × Bool → World × Bool
  erased_first (w, b) = (erased w, b)

  if-erased_first :
      (b : Bool) (x y : World × Bool) {x' y' : World × Bool}
      → erased_first x ≡ x'
      → erased_first y ≡ y'
      → erased_first (if b then x else y) ≡ (if b then x' else y')
  if-erased_first true x y p q = p
  if-erased_first false x y p q = q

  count_bytes-erased :
      (n : ℕ) (w : World)
      → erased (Events.count_bytes junk n w) ≡ ClientHandlers.count_bytes junk n (erased w)
  unfolding Events.count_bytes ClientHandlers.count_bytes
  count_bytes-erased n w = refl

  read_result-erased :
      (cfg : Config) (reply : ConnectReply) (r : ReadRound) (w : World) (a : Status × Option ℕ)
      → erased_first (Events.read_result junk cfg reply r w a)
        ≡ ClientHandlers.read_result junk cfg reply r (erased w) a
  unfolding Events.read_result ClientHandlers.read_result
  read_result-erased cfg reply r w (ok, some n) =
      let w' = Events.parser_events junk cfg r.events w in
      let failed : World × Bool = (Events.read_failed junk reply w', false) in
      let again = (n == recvbuf) && ltb 0 (cfg.sock.readable r.more) in
      let counted : World × Bool = (Events.count_bytes junk n w', again) in
      let e = parser_events-erased cfg r.events w in
      let f =
        ap (λ v. (v, false))
          (read_failed-erased reply w' ∙ ap (ClientHandlers.read_failed junk reply) e) in
      let c =
        ap (λ v. (v, again)) (count_bytes-erased n w' ∙ ap (ClientHandlers.count_bytes junk n) e) in
      if-erased_first (not (r.parsed == n)) failed
        (if (n == 0) && not r.final then failed else counted) f
        (if-erased_first ((n == 0) && not r.final) failed counted f c)
  read_result-erased cfg reply r w (ok, none) = refl
  read_result-erased cfg reply r w (error, n) = ap (λ v. (v, false)) (read_failed-erased reply w)
  read_result-erased cfg reply r w (retry, n) = refl

  -- What is left of the loop after one round.
  going_on :
      (cfg : Config) (reply : ConnectReply) (rs : List ReadRound) (p : World × Bool)
      → ((v : World)
          → erased_some (Events.handle_readable junk cfg reply rs v)
            ≡ ClientHandlers.handle_readable junk cfg reply rs (erased v))
      → erased_some (if p.1 then Events.handle_readable junk cfg reply rs p.0 else some p.0) ≡ (
          if p.1
          then ClientHandlers.handle_readable junk cfg reply rs (erased p.0)
          else some (erased p.0))
  going_on cfg reply rs (v, true) rest = rest v
  going_on cfg reply rs (v, false) rest = refl

  pub handle_readable-erased :
      (cfg : Config) (reply : ConnectReply) (rs : List ReadRound) (w : World)
      → erased_some (Events.handle_readable junk cfg reply rs w)
        ≡ ClientHandlers.handle_readable junk cfg reply rs (erased w)
  unfolding Events.handle_readable ClientHandlers.handle_readable
  handle_readable-erased cfg reply [] w = refl
  handle_readable-erased cfg reply (r ∷ rs) w =
      going_on cfg reply rs (Events.read_result junk cfg reply r w (cfg.sock.read r.answer))
        (handle_readable-erased cfg reply rs)
      ∙ ap (λ q. if q.1 then ClientHandlers.handle_readable junk cfg reply rs q.0 else some q.0)
          (read_result-erased cfg reply r w (cfg.sock.read r.answer))
