-- ===== src/Connection/Events/Tests.antt =====
-- Runs of the handlers of src/wrk.c, and the theorems about them at concrete inputs.
use wrk_offloadenginesupport.Prelude.{
  ℕ, ◌≡◌, refl, true, false, Option, none, some, List, [], ◌∷◌, ◌++◌, codes, arith, inl, inr,
}
use wrk_offloadenginesupport.Buffers.{buffer_append, push_nul, buffer_reset, buffer_pushlstring}
use wrk_offloadenginesupport.Floating.Hundredths.{hundredths}
use wrk_offloadenginesupport.Net.{Outcome, other, want_read, plain_sock, tls_sock, sock_read, ok}
use wrk_offloadenginesupport.Connection.{
  World, Call, connect_error, read_error, write_error, script_response, parser_init,
}
use wrk_offloadenginesupport.Connection.HeaderTable.{new_header_table, raw_set_string}
use wrk_offloadenginesupport.Connection.Events.{
  WriteReply, ReadRound, on_header_field, on_header_value, on_body, on_message_complete,
  handle_connected, handle_writeable, handle_readable, record_rate, begin_batch, wrote,
}
use wrk_offloadenginesupport.Connection.Socket.{reconnect_socket}
use wrk_offloadenginesupport.Connection.Callbacks.{
  Completion, count_response, hand_over, finish_batch, response_complete, header_field,
  header_value, response_body, call_response,
}
use wrk_offloadenginesupport.Connection.Events.Progress.{sent}
use wrk_offloadenginesupport.Connection.Events.Writing.{Sends, write_all, request_sent}
use wrk_offloadenginesupport.Connection.Events.Ending.{at_end, HasClosed, end_of_body-twice}
use wrk_offloadenginesupport.Connection.Events.Blocking.{blocked, again, handle_readable-blocked}
use wrk_offloadenginesupport.Connection.Events.Reading.{
  Reads, next, drained, Tallied, handle_readable-Tallied,
}
use wrk_offloadenginesupport.Connection.Samples.{
  conn, world, config, thread, gave, reply, completion,
}

abbrev wrote_bytes : ℕ → WriteReply
wrote_bytes n = record {
  delay = 5;
  next_request = codes "PUT";
  now = 2000;
  answer = gave n;
  reply = reply;
}

abbrev delayed_world : World
delayed_world = record world { conn = record conn { delayed = true } }

abbrev refused : Outcome
refused = record { value = none; code = other }

-- A response of 9 bytes: one header, a body, the end.
abbrev round : ReadRound
round = record {
  answer = gave 9;
  events =
      on_header_field (codes "A")
      ∷ on_header_value (codes "b")
      ∷ on_body (codes "c")
      ∷ on_message_complete (completion 3000)
      ∷ [];
  parsed = 9;
  final = true;
  more = gave 0;
}

abbrev bytes_of : Option World → ℕ
bytes_of none = 0
bytes_of (some w) = w.thread.bytes

abbrev calls_of : Option World → List Call
calls_of none = []
calls_of (some w) = w.calls

connected_runs : (handle_connected config 5 refused reply world).conn.written ≡ 0
unfolding handle_connected plain_sock
connected_runs = refl

connect_error_runs : (connect_error thread).errors.connect ≡ 1
unfolding connect_error
connect_error_runs = refl

begin_runs : (begin_batch config (wrote_bytes 1) conn).start ≡ 2000
unfolding begin_batch
begin_runs = refl

write_runs : (handle_writeable config 5 (wrote_bytes 1) world).conn.written ≡ 1
unfolding handle_writeable plain_sock wrote begin_batch
write_runs = refl

write_error_runs :
    (handle_writeable config 5
      (record (wrote_bytes 1) { answer = refused })
      world).thread.errors.write
    ≡ 1
unfolding handle_writeable write_error plain_sock reconnect_socket
write_error_runs = refl

read_runs : bytes_of (handle_readable (λ i. 7) config reply (round ∷ []) world) ≡ 9
unfolding handle_readable plain_sock count_response hand_over finish_batch response_complete
    header_field header_value response_body call_response buffer_append push_nul
read_runs = refl

-- The response of `round` reaches the script whole, and the parser starts again.
read_calls :
    calls_of (handle_readable (λ i. 7) config reply (round ∷ []) world)
    ≡ script_response 200
        (some (raw_set_string (codes "A") (codes "b") new_header_table))
        (codes "c")
      ∷ parser_init
      ∷ []
unfolding handle_readable plain_sock count_response hand_over finish_batch response_complete
    header_field header_value response_body call_response buffer_append push_nul buffer_reset
    buffer_pushlstring
read_calls = refl

read_error_runs : (read_error thread).errors.read ≡ 1
unfolding read_error
read_error_runs = refl

rate_runs :
    (record_rate hundredths 1000000 1000001 false
      (record world { thread = record thread { requests = 7000 } })).1.thread.start
    ≡ 1000001
unfolding record_rate
rate_runs = refl

Sends-both : Sends config (wrote_bytes 1 ∷ wrote_bytes 2 ∷ []) (1 ∷ 2 ∷ [])
unfolding plain_sock
Sends-both = (refl, omega arith, (refl, omega arith, tt))

request_sent_example :
    let rs = wrote_bytes 1 ∷ wrote_bytes 2 ∷ [] in
    let w' = write_all config 5 rs world in
    (sent w'.calls ≡ [] ++ codes "GET")
    × (w'.conn.written ≡ 0)
    × (w'.conn.start ≡ 2000)
    × (w'.conn.pending ≡ 2)
request_sent_example =
    request_sent config 5 (wrote_bytes 1) (wrote_bytes 2 ∷ []) (1 ∷ 2 ∷ []) world Sends-both refl
      refl refl (omega arith)

answered : config.sock.connect (gave 0) ≡ ok
unfolding plain_sock
answered = refl

-- A read that fills the buffer with a part of a body, and says that more is waiting.
abbrev full : ReadRound
full = record {
  answer = gave 8192;
  events = on_body (codes "c") ∷ [];
  parsed = 8192;
  final = false;
  more = gave 9;
}

two-Reads : Reads config (full ∷ round ∷ []) (8192 ∷ 9 ∷ []) false
unfolding plain_sock
two-Reads = next (refl, refl, inl (omega arith)) refl (drained (refl, refl, inl (omega arith)) refl)

handle_readable-Tallied_example :
    (w' : World) × (handle_readable (λ i. 7) config reply (full ∷ round ∷ []) world ≡ some w')
    × Tallied (λ i. 7) (8192 ∷ 9 ∷ []) false world w'
handle_readable-Tallied_example =
    handle_readable-Tallied (λ i. 7) config reply (full ∷ round ∷ []) (8192 ∷ 9 ∷ []) false world
      two-Reads (omega arith)

-- A response whose body lasts until the server closes.
abbrev last : Completion
last = record { now = 2500; status = 200; keep_alive = false; reply = reply }

end_of_body-twice_example :
    (w' : World) × (handle_readable
        (λ i. 7)
        config
        (record reply { fd = 9 })
        (at_end (gave 0) last ∷ [])
        world
      ≡ some w')
    × (w'.thread.complete ≡ 1)
    × (w'.thread.errors.read ≡ 1)
    × (w'.conn.fd ≡ 9)
    × HasClosed 6 w'.calls
unfolding plain_sock sock_read
end_of_body-twice_example =
    end_of_body-twice (λ i. 7) config (record reply { fd = 9 }) (gave 0) last world refl refl refl
      refl

-- Over TLS nothing can be read before OpenSSL has read more.
abbrev not_yet : Outcome
not_yet = record { value = some 0; code = want_read }

handle_readable-blocked_example :
    ((v : World) × (handle_readable
          (λ i. 7)
          (record config { sock = plain_sock })
          reply
          (blocked again ∷ [])
          world
        ≡ some v)
      × (v ≡ (reconnect_socket reply (record world { thread = read_error thread })).1)
      × (v.thread.errors.read ≡ 1)
      × HasClosed 5 v.calls)
    × (handle_readable
          (λ i. 7)
          (record config { sock = tls_sock })
          reply
          (blocked not_yet ∷ [])
          world
        ≡ some world)
handle_readable-blocked_example =
    handle_readable-blocked (λ i. 7) config reply not_yet world (inr refl) (inl refl)
