-- ===== src/Connection/Socket.antt =====
-- src/wrk.c, connect_socket and reconnect_socket.
pub mod Reconnect
mod Tests
use wrk_offloadenginesupport.Prelude.{
  ℕ, ◌≡◌, ◌≢◌, Bool, true, false, Option, none, some, List, [], ◌∷◌, ◌++◌, if◌then◌else◌, arith,
  append_assoc,
}
use wrk_offloadenginesupport.Connection.{
  World, Connection, Thread, Call, open_socket, set_nonblock, start_connect, ssl_set_options,
  set_nodelay, create_file_event, delete_file_event, sock_close, close_fd, both, socket_connected,
  emit, with_conn, connect_error, Mask, Handler, Errors, inc32,
}

-- What `connect` answers: success, EINPROGRESS, or another error.
pub data ConnectAnswer : Type 0 where
  connected in_progress failed : ConnectAnswer

-- The descriptor that `socket` gives, what `connect` answers, and whether aeCreateFileEvent
-- answers AE_OK.
pub record ConnectReply : Type 0 where
  pub fd : ℕ
  pub answer : ConnectAnswer
  pub registered : Bool

unfoldable pub connect_failed : ℕ → World → Option ℕ × World
connect_failed fd w = (none, emit (record w { thread = connect_error w.thread }) (close_fd fd ∷ []))

-- The part after a `connect` that has not failed.
unfoldable pub register : ConnectReply → World → Option ℕ × World
unfolding connect_failed
register r w =
    let w' = emit w (
      ssl_set_options w.conn.ssl
      ∷ set_nodelay r.fd
      ∷ create_file_event r.fd both socket_connected
      ∷ []) in
    if r.registered
    then (some r.fd, with_conn w' (record c { fd = r.fd }))
    else connect_failed r.fd w'
  where
    c : Connection
    c = w.conn

-- The result is the return value, `none` for -1.
unfoldable pub connect_socket : ConnectReply → World → Option ℕ × World
unfolding register connect_failed
connect_socket r w =
    let w' = emit w (open_socket r.fd ∷ set_nonblock r.fd ∷ start_connect r.fd ∷ []) in
    elim r.answer [
      | connected ↦ register r w'
      | in_progress ↦ register r w'
      | failed ↦ connect_failed r.fd w'
    ]

unfoldable pub reconnect_socket : ConnectReply → World → Option ℕ × World
unfolding connect_socket
reconnect_socket r w =
    connect_socket r
      (emit w (delete_file_event w.conn.fd both ∷ sock_close w.conn.fd ∷ close_fd w.conn.fd ∷ []))
