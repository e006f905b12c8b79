-- ===== src/Connection/Events/Ending.antt =====
-- socket_readable of src/wrk.c at the end of a response that lasts until the server closes.
use wrk_offloadenginesupport.Prelude.{
  ℕ, Option, ◌≡◌, refl, ap, sym, subst, ◌∙◌, Bool, true, false, some, List, [], ◌∷◌, ◌++◌,
  append_assoc, arith, if◌then◌else◌,
}
use wrk_offloadenginesupport.Net.{ok, Outcome}
use wrk_offloadenginesupport.Connection.{
  World, Config, Call, Connection, Thread, inc32, inc64, read_error, connect_error, timeout_error,
  delete_file_event, sock_close, close_fd, both, emit, parser_init,
}
use wrk_offloadenginesupport.Connection.Socket.{
  ConnectReply, ConnectAnswer, connected, in_progress, failed, connect_socket, register,
  connect_failed, reconnect_socket,
}
use wrk_offloadenginesupport.Connection.Socket.Reconnect.{
  gets_under_way, reconnect_socket-thread, Reconnected, connect_socket-Reconnected,
}
use wrk_offloadenginesupport.Connection.Callbacks.{
  Completion, count_response, hand_over, finish_batch, response_complete,
}
use wrk_offloadenginesupport.Connection.Callbacks.Complete.{count_response-same, hand_over-same}
use wrk_offloadenginesupport.Connection.Events.Reading.{response_complete-Same}
use wrk_offloadenginesupport.Connection.Events.{
  ReadRound, on_message_complete, parser_event, parser_events, read_result, read_failed,
  handle_readable,
}

-- The last read: no bytes, on which the parser completes the message. http_body_is_final is false then.
abbrev pub at_end : Outcome → Completion → ReadRound
at_end o k = record {
  answer = o;
  events = on_message_complete k ∷ [];
  parsed = 0;
  final = false;
  more = o;
}

-- The calls have closed this descriptor.
abbrev pub HasClosed : ℕ → List Call → Type 0
HasClosed fd cs =
    (before : List Call) × (after : List Call) × (cs
      ≡ before ++ sock_close fd ∷ close_fd fd ∷ after)

ends_as :
    (junk : ℕ → ℕ) (cfg : Config) (reply : ConnectReply) (o : Outcome) (k : Completion) (w : World)
    → cfg.sock.read o ≡ (ok, some 0)
    → handle_readable junk cfg reply (at_end o k ∷ []) w
      ≡ some (read_failed junk reply (response_complete cfg k w))
unfolding handle_readable read_result parser_events parser_event
ends_as junk cfg reply o k w e = rw e refl

-- The calls that are made are behind those that have been made.
abbrev Appends : World → World → Type 0
Appends w v = (cs : List Call) × (v.calls ≡ w.calls ++ cs)

thrice : (a b c d : List Call) → ((a ++ b) ++ c) ++ d ≡ a ++ (b ++ (c ++ d))
thrice a b c d = append_assoc (a ++ b) c d ∙ append_assoc a b (c ++ d)

connect-Appends :
    (fd : ℕ) (answer : ConnectAnswer) (ok : Bool) (w : World)
    → Appends w (connect_socket (record { fd = fd; answer = answer; registered = ok }) w).1
unfolding connect_socket register connect_failed
connect-Appends fd connected true w = (_, append_assoc w.calls _ _)
connect-Appends fd in_progress true w = (_, append_assoc w.calls _ _)
connect-Appends fd failed b w = (_, append_assoc w.calls _ _)
connect-Appends fd connected false w = (_, thrice w.calls _ _ _)
connect-Appends fd in_progress false w = (_, thrice w.calls _ _ _)

connect-complete :
    (fd : ℕ) (answer : ConnectAnswer) (ok : Bool) (w : World)
    → (connect_socket (record { fd = fd; answer = answer; registered = ok }) w).1.thread.complete
      ≡ w.thread.complete
unfolding connect_socket connect_error
connect-complete fd connected true w = refl
connect-complete fd in_progress true w = refl
connect-complete fd connected false w = refl
connect-complete fd in_progress false w = refl
connect-complete fd failed b w = refl

pub reconnect-HasClosed :
    (r : ConnectReply) (w : World) → HasClosed w.conn.fd (reconnect_socket r w).1.calls
unfolding reconnect_socket
reconnect-HasClosed r w =
    let old = w.conn.fd in
    let (cs, e) =
      connect-Appends r.fd r.answer r.registered
        (emit w (delete_file_event old both ∷ sock_close old ∷ close_fd old ∷ [])) in
    (
      w.calls ++ delete_file_event old both ∷ [],
      cs,
      e
          ∙ append_assoc w.calls _ cs
          ∙ sym (append_assoc w.calls (delete_file_event old both ∷ []) _),
    )

reconnect-complete :
    (r : ConnectReply) (w : World) → (reconnect_socket r w).1.thread.complete ≡ w.thread.complete
unfolding reconnect_socket
reconnect-complete r w = connect-complete r.fd r.answer r.registered (emit w _)

finish_batch-complete :
    (cfg : Config) (k : Completion) (w : World)
    → (finish_batch cfg k w).thread.complete ≡ w.thread.complete
unfolding finish_batch timeout_error
finish_batch-complete cfg k w = ground arith

-- The world in which response_complete connects again.
abbrev batched : Config → Completion → World → World
batched cfg k w = finish_batch cfg k (hand_over k (count_response k w))

batched-complete :
    (cfg : Config) (k : Completion) (w : World)
    → (batched cfg k w).thread.complete ≡ inc64 w.thread.complete
batched-complete cfg k w =
    let v = count_response k w in
    finish_batch-complete cfg k (hand_over k v)
    ∙ ap (λ (t : Thread). t.complete) (hand_over-same k v).0
    ∙ (count_response-same k w).0

closing-lem :
    (cfg : Config) (k : Completion) (w : World)
    → k.keep_alive ≡ false
    → response_complete cfg k w ≡ (reconnect_socket k.reply (batched cfg k w)).1
unfolding response_complete
closing-lem cfg k w closing =
    let v = batched cfg k w in
    ap (λ (b : Bool). if b then emit v (parser_init ∷ []) else (reconnect_socket k.reply v).1)
      closing

moved :
    (r : ConnectReply) (w : World)
    → gets_under_way r ≡ true
    → (reconnect_socket r w).1.conn.fd ≡ r.fd
unfolding reconnect_socket
moved r w goes =
    let v =
      emit w (delete_file_event w.conn.fd both ∷ sock_close w.conn.fd ∷ close_fd w.conn.fd ∷ []) in
    took (connect_socket r v)
      (subst (λ b. Reconnected b r v (connect_socket r v)) goes (connect_socket-Reconnected r v))
  where
    took :
        (out : Option ℕ × World)
        → Reconnected true r
            (emit w
              (delete_file_event w.conn.fd both ∷ sock_close w.conn.fd ∷ close_fd w.conn.fd ∷ []))
            out
        → out.1.conn.fd ≡ r.fd
    took (ret, w') (e, conn, thread, watched) = ap (λ (c : Connection). c.fd) conn

-- A response that ends where the server closes is counted as complete and as a read error, and the
-- connection is made twice: the loop ends with its second descriptor, having closed the first, which was
-- just on its way. The parser completes the message on the empty read, and is not in the state that
-- http_body_is_final asks for.
pub end_of_body-twice :
    (junk : ℕ → ℕ) (cfg : Config) (reply : ConnectReply) (o : Outcome) (k : Completion) (w : World)
    → cfg.sock.read o ≡ (ok, some 0)
    → k.keep_alive ≡ false
    → gets_under_way k.reply ≡ true
    → gets_under_way reply ≡ true
    → (w' : World) × (handle_readable junk cfg reply (at_end o k ∷ []) w ≡ some w')
      × (w'.thread.complete ≡ inc64 w.thread.complete)
      × (w'.thread.errors.read ≡ inc32 w.thread.errors.read)
      × (w'.conn.fd ≡ reply.fd)
      × HasClosed k.reply.fd w'.calls
unfolding read_failed read_error
end_of_body-twice junk cfg reply o k w answer closing first second =
    let u = response_complete cfg k w in
    let v = record u { thread = read_error u.thread } in
    let e = closing-lem cfg k w closing in
    let made : u.conn.fd ≡ k.reply.fd =
      ap (λ (x : World). x.conn.fd) e ∙ moved k.reply (batched cfg k w) first in
    (
      (reconnect_socket reply v).1,
      ends_as junk cfg reply o k w answer,
      reconnect-complete reply v
          ∙ ap (λ (x : World). x.thread.complete) e
          ∙ reconnect-complete k.reply (batched cfg k w)
          ∙ batched-complete cfg k w,
      (reconnect_socket-thread reply v).1 ∙ ap inc32 (response_complete-Same cfg k w).read,
      moved reply v second,
      subst (λ fd. HasClosed fd (reconnect_socket reply v).1.calls) made
          (reconnect-HasClosed reply v),
    )
