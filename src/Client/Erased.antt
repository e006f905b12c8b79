-- ===== src/Client/Erased.antt =====
-- The two copies of the program against each other: src/wrk.c and that of client_wrks do the same
-- up to the calls of SSL_set_options. Here connecting; Erased/Handlers and Erased/Reading: the
-- handlers; Erased/Runs: runs of them; Erased/Opened: thread_main;
-- Erased/Nulls: the calls that differ, on plain connections.
pub mod Handlers
pub mod Reading
pub mod Runs
pub mod Opened
pub mod Nulls
use wrk_offloadenginesupport.Prelude.{
  ℕ, ◌≡◌, refl, ap, ap₂, sym, ◌∙◌, Bool, true, false, Option, none, some, List, [], ◌∷◌, ◌++◌,
  Bytes, if◌then◌else◌, arith, ◌==◌, ◌%◌, ◌+◌, u64, length, drop, take,
}
use wrk_offloadenginesupport.Net.{Status, ok, error, retry, Outcome}
use wrk_offloadenginesupport.Connection.{
  World, Config, Connection, Thread, Call, ssl_set_options, emit, with_conn, sock_close, close_fd,
  both, delete_file_event, open_socket, set_nonblock, start_connect, set_nodelay, create_file_event,
  socket_connected, connect_error,
}
use wrk_offloadenginesupport.Connection.Socket
use wrk_offloadenginesupport.Connection.Socket.{
  ConnectReply, ConnectAnswer, connected, in_progress, failed,
}
use wrk_offloadenginesupport.Client.Socket as ClientSocket

-- The calls, without those of SSL_set_options.
abbrev pub erase : List Call → List Call
erase [] = []
erase (ssl_set_options s ∷ cs) = erase cs
erase (c ∷ cs) = c ∷ erase cs

abbrev pub erased : World → World
erased w = record w { calls = erase w.calls }

abbrev pub erased_some : Option World → Option World
erased_some none = none
erased_some (some w) = some (erased w)

pub erase-append : (cs ds : List Call) → erase (cs ++ ds) ≡ erase cs ++ erase ds
erase-append [] ds = refl
erase-append (ssl_set_options s ∷ cs) ds = erase-append cs ds
erase-append (c ∷ cs) ds = ap (λ es. c ∷ es) (erase-append cs ds)

pub erased-emit : (w : World) (cs : List Call) → erased (emit w cs) ≡ emit (erased w) (erase cs)
erased-emit w cs = ap (λ ds. record w { calls = ds }) (erase-append w.calls cs)

abbrev pub erased_pair : Option ℕ × World → Option ℕ × World
erased_pair (ret, w) = (ret, erased w)

connect_failed-erased :
    (fd : ℕ) (w : World)
    → erased_pair (Socket.connect_failed fd w) ≡ ClientSocket.connect_failed fd (erased w)
unfolding Socket.connect_failed ClientSocket.connect_failed
connect_failed-erased fd w =
    ap (λ v. (none, v))
      (erased-emit (record w { thread = connect_error w.thread }) (close_fd fd ∷ []))

module _ (fd : ℕ) (answer : ConnectAnswer) where
  abbrev gives : Bool → ConnectReply
  gives b = record { fd = fd; answer = answer; registered = b }

  register-erased :
      (b : Bool) (w : World)
      → erased_pair (Socket.register (gives b) w) ≡ ClientSocket.register (gives b) (erased w)
  unfolding Socket.register ClientSocket.register
  register-erased true w =
      ap (λ cs. (some fd, record w { calls = cs; conn = record (w.conn) { fd = fd } }))
        (erase-append w.calls (
          ssl_set_options w.conn.ssl
          ∷ set_nodelay fd
          ∷ create_file_event fd both socket_connected
          ∷ []))
  register-erased false w =
      let cs =
        ssl_set_options w.conn.ssl
        ∷ set_nodelay fd
        ∷ create_file_event fd both socket_connected
        ∷ [] in
      connect_failed-erased fd (emit w cs) ∙ ap (ClientSocket.connect_failed fd) (erased-emit w cs)

abbrev opening : ℕ → List Call
opening fd = open_socket fd ∷ set_nonblock fd ∷ start_connect fd ∷ []

connect-erased :
    (fd : ℕ) (answer : ConnectAnswer) (b : Bool) (w : World)
    → let r : ConnectReply = record { fd = fd; answer = answer; registered = b } in
      erased_pair (Socket.connect_socket r w) ≡ ClientSocket.connect_socket r (erased w)
unfolding Socket.connect_socket ClientSocket.connect_socket
connect-erased fd connected b w =
    register-erased fd connected b (emit w (opening fd))
    ∙ ap (ClientSocket.register (gives fd connected b)) (erased-emit w (opening fd))
connect-erased fd in_progress b w =
    register-erased fd in_progress b (emit w (opening fd))
    ∙ ap (ClientSocket.register (gives fd in_progress b)) (erased-emit w (opening fd))
connect-erased fd failed b w =
    connect_failed-erased fd (emit w (opening fd))
    ∙ ap (ClientSocket.connect_failed fd) (erased-emit w (opening fd))

pub connect_socket-erased :
    (r : ConnectReply) (w : World)
    → erased_pair (Socket.connect_socket r w) ≡ ClientSocket.connect_socket r (erased w)
connect_socket-erased r w = connect-erased r.fd r.answer r.registered w

pub reconnect_socket-erased :
    (r : ConnectReply) (w : World)
    → erased (Socket.reconnect_socket r w).1 ≡ (ClientSocket.reconnect_socket r (erased w)).1
unfolding Socket.reconnect_socket ClientSocket.reconnect_socket
reconnect_socket-erased r w =
    let cs = delete_file_event w.conn.fd both ∷ sock_close w.conn.fd ∷ close_fd w.conn.fd ∷ [] in
    ap (λ p. p.1)
      (connect-erased r.fd r.answer r.registered (emit w cs)
        ∙ ap (ClientSocket.connect_socket r) (erased-emit w cs))
