-- ===== src/Client/Handlers.antt =====
-- client_wrks/wrk_offload_engine/src/wrk.c: the handlers that can connect again.
use wrk_offloadenginesupport.Prelude.{
  ℕ, ◌+◌, ◌%◌, Bool, false, not, ◌&&◌, Option, none, some, List, [], ◌∷◌, if◌then◌else◌, ltb, ◌==◌,
  u64,
}
use wrk_offloadenginesupport.Net.{Status, ok, error, retry, Outcome}
use wrk_offloadenginesupport.Connection.{
  World, Config, Connection, Thread, create_file_event, delete_file_event, create_delay_event,
  readable, writable, socket_writeable, socket_readable, parser_init, emit, with_conn,
  connect_error, read_error, write_error,
}
use wrk_offloadenginesupport.Connection.Socket.{ConnectReply}
use wrk_offloadenginesupport.Connection.Callbacks.{
  Completion, count_response, hand_over, finish_batch, header_field, header_value, response_body,
}
use wrk_offloadenginesupport.Connection.Events.{
  WriteReply, begin_batch, wrote, ParserEvent, on_header_field, on_header_value, on_body,
  on_message_complete, ReadRound, recvbuf,
}
use wrk_offloadenginesupport.Client.Socket.{reconnect_socket}

unfoldable pub response_complete : Config → Completion → World → World
response_complete cfg k w =
    let w' = finish_batch cfg k (hand_over k (count_response k w)) in
    if k.keep_alive then emit w' (parser_init ∷ []) else (reconnect_socket k.reply w').1

unfoldable pub handle_connected : Config → ℕ → Outcome → ConnectReply → World → World
handle_connected cfg fd answer reply w = elim (cfg.sock.connect answer) [
  | ok ↦ emit (with_conn w (record c { written = 0 })) (
      parser_init
      ∷ create_file_event fd readable socket_readable
      ∷ create_file_event fd writable socket_writeable
      ∷ [])
  | error ↦ (reconnect_socket reply (record w { thread = connect_error w.thread })).1
  | retry ↦ w
]
  where
    c : Connection
    c = w.conn

unfoldable pub write_result : ℕ → ConnectReply → World → Status × Option ℕ → World
write_result fd reply w (ok, some n) = wrote fd n w
write_result fd reply w (ok, none) = w
write_result fd reply w (error, n) =
    (reconnect_socket reply (record w { thread = write_error w.thread })).1
write_result fd reply w (retry, n) = w

unfoldable pub handle_writeable : Config → ℕ → WriteReply → World → World
unfolding write_result
handle_writeable cfg fd r w =
    let sending =
      write_result fd r.reply (with_conn w (begin_batch cfg r w.conn)) (cfg.sock.write r.answer) in
    if w.conn.delayed
    then emit w (delete_file_event fd writable ∷ create_delay_event r.delay ∷ [])
    else sending

module _ (junk : ℕ → ℕ) where
  unfoldable pub parser_event : Config → ParserEvent → World → World
  unfolding response_complete
  parser_event cfg (on_header_field at) w =
      if cfg.want_response then with_conn w (header_field junk at w.conn) else w
  parser_event cfg (on_header_value at) w =
      if cfg.want_response then with_conn w (header_value junk at w.conn) else w
  parser_event cfg (on_body at) w =
      if cfg.want_response then with_conn w (response_body junk at w.conn) else w
  parser_event cfg (on_message_complete k) w = response_complete cfg k w

  unfoldable pub parser_events : Config → List ParserEvent → World → World
  unfolding parser_event
  parser_events cfg [] w = w
  parser_events cfg (e ∷ es) w = parser_events cfg es (parser_event cfg e w)

  unfoldable pub read_failed : ConnectReply → World → World
  read_failed reply w = (reconnect_socket reply (record w { thread = read_error w.thread })).1

  unfoldable pub count_bytes : ℕ → World → World
  count_bytes n w = record w { thread = record t { bytes = (t.bytes + n) % u64 } }
    where
      t : Thread
      t = w.thread

  unfoldable pub read_result :
      Config → ConnectReply → ReadRound → World → Status × Option ℕ → World × Bool
  unfolding parser_events read_failed count_bytes
  read_result cfg reply r w (ok, some n) =
      let w' = parser_events cfg r.events w in
      if not (r.parsed == n)
      then (read_failed reply w', false)
      else if (n == 0) && not r.final
      then (read_failed reply w', false)
      else (count_bytes n w', (n == recvbuf) && ltb 0 (cfg.sock.readable r.more))
  read_result cfg reply r w (ok, none) = (w, false)
  read_result cfg reply r w (error, n) = (read_failed reply w, false)
  read_result cfg reply r w (retry, n) = (w, false)

  unfoldable pub handle_readable : Config → ConnectReply → List ReadRound → World → Option World
  unfolding read_result
  handle_readable cfg reply [] w = none
  handle_readable cfg reply (r ∷ rs) w =
      let (w', again) = read_result cfg reply r w (cfg.sock.read r.answer) in
      let rest = handle_readable cfg reply rs w' in if again then rest else some w'
