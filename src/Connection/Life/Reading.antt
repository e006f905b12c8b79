-- ===== src/Connection/Life/Reading.antt =====
-- The callbacks of the parser in src/wrk.c: how they move a connection between its phases.
pub mod Loop
use wrk_offloadenginesupport.Prelude.{
  eq_self, ℕ, ◌≡◌, ◌⊎◌, inl, inr, refl, ap, sym, subst, ◌∙◌, Bool, true, false, not, ◌&&◌, Option,
  none, some, List, [], ◌∷◌, ◌++◌, if◌then◌else◌, ◌==◌, arith, ltb,
}
use wrk_offloadenginesupport.Net.{Status, ok, error, retry}
use wrk_offloadenginesupport.Connection.{
  World, Config, parser_init, emit, read_error, create_file_event, writable, socket_writeable,
}
use wrk_offloadenginesupport.Connection.Registry.{Watch, watch, watch-append, unwatched}
use wrk_offloadenginesupport.Connection.Socket.{ConnectReply, reconnect_socket}
use wrk_offloadenginesupport.Connection.Callbacks.{
  Completion, count_response, hand_over, finish_batch, response_complete,
}
use wrk_offloadenginesupport.Connection.Callbacks.Complete.{alive-lem}
use wrk_offloadenginesupport.Connection.Callbacks.Silent.{
  Silent, count_response-Silent, hand_over-Silent, header_field-Silent, header_value-Silent,
  response_body-Silent,
}
use wrk_offloadenginesupport.Connection.Events.{
  recvbuf, ParserEvent, on_header_field, on_header_value, on_body, on_message_complete, ReadRound,
  parser_event, parser_events, read_result, read_failed, count_bytes, handle_readable,
}
use wrk_offloadenginesupport.Connection.Life.{
  view, Taken, Keeps, Closes, Orderly, OrderlyRound, OrderlyRounds,
}
use wrk_offloadenginesupport.Connection.Life.Phases.{
  Phase, connecting, sending, waiting, lost, handlers, IsOpen, stay, answered, InPhase, After,
  Ended, Ended-After, reconnect_socket-Ended,
}

-- What reading does while the connection is open: it stays as it is, or writes again.
data Turn : Phase → Phase → Type 0 where
  same : {p : Phase} → Turn p p
  turn : Turn waiting sending

Turn-trans : {p q r : Phase} → Turn p q → Turn q r → Turn p r
Turn-trans same t = t
Turn-trans turn same = turn

abbrev Open : Phase → World → Type 0
Open p w = (q : Phase) × Turn p q × IsOpen q × InPhase q w

-- Reading leaves the connection open, or has it made again.
abbrev Read : Phase → World → Type 0
Read p w = Open p w ⊎ Ended w

writes-Open : (p : Phase) (w : World) → IsOpen p → InPhase sending w → Open p w
writes-Open sending w live at = (sending, same, tt, at)
writes-Open waiting w live at = (sending, turn, tt, at)
writes-Open connecting w live at = absurd live
writes-Open lost w live at = absurd live

InPhase-Silent : (p : Phase) (w v : World) → Silent w v → InPhase p w → InPhase p v
InPhase-Silent p w v s (seen, free) =
    (s.handlers v.conn.fd ∙ ap (λ fd. watch fd w.calls unwatched) s.fd ∙ seen, s.delayed ∙ free)

-- The writing handler is set, in addition to the reading one.
with_writing :
    (p : Phase)
    → IsOpen p
    → record (handlers p) { on_write = some socket_writeable } ≡ handlers sending
with_writing sending live = refl
with_writing waiting live = refl
with_writing connecting live = absurd live
with_writing lost live = absurd live

-- Either it writes again, or nothing has changed.
if-Open :
    (p : Phase) (b : Bool) (u v : World)
    → IsOpen p
    → InPhase sending u
    → InPhase p v
    → Open p (if b then u else v)
if-Open p true u v live a b = writes-Open p u live a
if-Open p false u v live a b = (p, same, live, b)

writable-view :
    (p : Phase) (w : World)
    → IsOpen p
    → view w ≡ handlers p
    → watch w.conn.fd
        (w.calls ++ create_file_event w.conn.fd writable socket_writeable ∷ [])
        unwatched
      ≡ handlers sending
writable-view p w live seen =
    watch-append w.conn.fd w.calls _ unwatched
    ∙ rw (eq_self w.conn.fd) (
        ap (λ (x : Watch). record x { on_write = some socket_writeable }) seen
        ∙ with_writing p live)

finish_batch-Open :
    (cfg : Config) (k : Completion) (p : Phase) (w : World)
    → cfg.delay ≡ false
    → IsOpen p
    → InPhase p w
    → Open p (finish_batch cfg k w)
unfolding finish_batch
finish_batch-Open cfg k p w quick live (seen, free) =
    if-Open p _ _ _ live (writable-view p w live seen, quick) (seen, free)

finished-Open :
    (cfg : Config) (k : Completion) (p : Phase) (w : World)
    → cfg.delay ≡ false
    → IsOpen p
    → InPhase p w
    → Open p (finish_batch cfg k (hand_over k (count_response k w)))
finished-Open cfg k p w quick live at =
    let u : World = count_response k w in
    finish_batch-Open cfg k p (hand_over k u) quick live (
      InPhase-Silent p u (hand_over k u) (hand_over-Silent k u)
        (InPhase-Silent p w u (count_response-Silent k w) at))

response_complete-Open :
    (cfg : Config) (k : Completion) (p : Phase) (w : World)
    → cfg.delay ≡ false
    → k.keep_alive ≡ true
    → IsOpen p
    → InPhase p w
    → Open p (response_complete cfg k w)
response_complete-Open cfg k p w quick alive live at =
    let v : World = finish_batch cfg k (hand_over k (count_response k w)) in
    let (q, t, live', (seen, free)) = finished-Open cfg k p w quick live at in
    subst (Open p) (sym (alive-lem cfg k w alive))
      (q, t, live', (watch-append v.conn.fd v.calls _ unwatched ∙ seen, free))

response_complete-Ended :
    (cfg : Config) (k : Completion) (p : Phase) (w : World)
    → cfg.delay ≡ false
    → k.keep_alive ≡ false
    → Taken k.reply
    → IsOpen p
    → InPhase p w
    → Ended (response_complete cfg k w)
unfolding response_complete
response_complete-Ended cfg k p w quick closing taken live at =
    let v : World = finish_batch cfg k (hand_over k (count_response k w)) in
    let (q, t, live', (seen, free)) = finished-Open cfg k p w quick live at in
    subst (λ b. Ended (if b then emit v (parser_init ∷ []) else (reconnect_socket k.reply v).1))
      (sym closing) (reconnect_socket-Ended k.reply v taken free)
