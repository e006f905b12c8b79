-- ===== src/Client/Socket.antt =====
-- client_wrks/wrk_offload_engine/src: connect_socket and reconnect_socket of wrk.c, ssl_init of ssl.c.
use wrk_offloadenginesupport.Prelude.{ℕ, Bool, Option, none, some, List, [], ◌∷◌, if◌then◌else◌}
use wrk_offloadenginesupport.Connection.{
  World, Connection, open_socket, set_nonblock, start_connect, set_nodelay, create_file_event,
  delete_file_event, sock_close, close_fd, both, socket_connected, emit, with_conn, connect_error,
}
use wrk_offloadenginesupport.Connection.Socket.{ConnectReply, connected, in_progress, failed}
use wrk_offloadenginesupport.Net.Context.{
  SslAnswers, SslCall, with_context, prelude, verify_none, verify_depth_zero, mode_auto_retry,
  cache_client,
}

unfoldable pub connect_failed : ℕ → World → Option ℕ × World
connect_failed fd w = (none, emit (record w { thread = connect_error w.thread }) (close_fd fd ∷ []))

-- The part after a `connect` that has not failed.
unfoldable pub register : ConnectReply → World → Option ℕ × World
unfolding connect_failed
register r w =
    let w' = emit w (set_nodelay r.fd ∷ create_file_event r.fd both socket_connected ∷ []) in
    if r.registered
    then (some r.fd, with_conn w' (record c { fd = r.fd }))
    else connect_failed r.fd w'
  where
    c : Connection
    c = w.conn

unfoldable pub connect_socket : ConnectReply → World → Option ℕ × World
unfolding register connect_failed
connect_socket r w =
    let w' = emit w (open_socket r.fd ∷ set_nonblock r.fd ∷ start_connect r.fd ∷ []) in
    elim r.answer [
      | connected ↦ register r w'
      | in_progress ↦ register r w'
      | failed ↦ connect_failed r.fd w'
    ]

unfoldable pub reconnect_socket : ConnectReply → World → Option ℕ × World
unfolding connect_socket
reconnect_socket r w =
    connect_socket r
      (emit w (delete_file_event w.conn.fd both ∷ sock_close w.conn.fd ∷ close_fd w.conn.fd ∷ []))

unfoldable pub ssl_init : SslAnswers → Bool × List SslCall
ssl_init a =
    with_context a.context prelude
      (verify_none ∷ verify_depth_zero ∷ mode_auto_retry ∷ cache_client ∷ [])
