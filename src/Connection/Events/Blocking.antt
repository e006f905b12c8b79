-- ===== src/Connection/Events/Blocking.antt =====
-- socket_readable of src/wrk.c where there is nothing to read yet, over src/net.c and over src/ssl.c.
use wrk_offloadenginesupport.Prelude.{ℕ, ◌≡◌, ◌⊎◌, refl, true, none, some, [], ◌∷◌}
use wrk_offloadenginesupport.Net.{
  Outcome, eagain, want_read, want_write, retry, plain_sock, tls_sock, sock_read, ssl_read,
  ssl_read-retry,
}
use wrk_offloadenginesupport.Connection.{World, Config, inc32, read_error}
use wrk_offloadenginesupport.Connection.Socket.{ConnectReply, reconnect_socket}
use wrk_offloadenginesupport.Connection.Socket.Reconnect.{reconnect_socket-thread}
use wrk_offloadenginesupport.Connection.Events.{
  ReadRound, read_result, read_failed, handle_readable,
}
use wrk_offloadenginesupport.Connection.Events.Ending.{HasClosed, reconnect-HasClosed}

-- One pass of the loop, of which the parser gets nothing.
abbrev pub blocked : Outcome → ReadRound
blocked o = record { answer = o; events = []; parsed = 0; final = true; more = o }

-- read gives -1 with EAGAIN.
abbrev pub again : Outcome
again = record { value = none; code = eagain }

plain_fails :
    (junk : ℕ → ℕ) (cfg : Config) (reply : ConnectReply) (w : World)
    → handle_readable junk (record cfg { sock = plain_sock }) reply (blocked again ∷ []) w
      ≡ some (read_failed junk reply w)
unfolding handle_readable read_result plain_sock sock_read
plain_fails junk cfg reply w = refl

read_failed-read :
    (junk : ℕ → ℕ) (reply : ConnectReply) (w : World)
    → (read_failed junk reply w).thread.errors.read ≡ inc32 w.thread.errors.read
unfolding read_failed read_error
read_failed-read junk reply w =
    (reconnect_socket-thread reply (record w { thread = read_error w.thread })).1

read_failed-HasClosed :
    (junk : ℕ → ℕ) (reply : ConnectReply) (w : World)
    → HasClosed w.conn.fd (read_failed junk reply w).calls
unfolding read_failed
read_failed-HasClosed junk reply w =
    reconnect-HasClosed reply (record w { thread = read_error w.thread })

retried :
    (junk : ℕ → ℕ) (cfg : Config) (reply : ConnectReply) (o : Outcome) (w : World)
    → ssl_read o ≡ (retry, none)
    → handle_readable junk (record cfg { sock = tls_sock }) reply (blocked o ∷ []) w ≡ some w
unfolding handle_readable read_result tls_sock
retried junk cfg reply o w e = rw e refl

-- socket_readable on a descriptor with nothing to read: on a plain connection, where read fails with
-- EAGAIN, it counts a read error, closes the descriptor and connects again; over TLS, where SSL_read
-- gives 0 or -1 and asks for more to be read or written first, it changes nothing and calls nothing.
pub handle_readable-blocked :
    (junk : ℕ → ℕ) (cfg : Config) (reply : ConnectReply) (o : Outcome) (w : World)
    → (o.value ≡ none) ⊎ (o.value ≡ some 0)
    → (o.code ≡ want_read) ⊎ (o.code ≡ want_write)
    → ((v : World) × (handle_readable junk
            (record cfg { sock = plain_sock })
            reply
            (blocked again ∷ [])
            w
          ≡ some v)
        × (v ≡ (reconnect_socket reply (record w { thread = read_error w.thread })).1)
        × (v.thread.errors.read ≡ inc32 w.thread.errors.read)
        × HasClosed w.conn.fd v.calls)
      × (handle_readable junk (record cfg { sock = tls_sock }) reply (blocked o ∷ []) w ≡ some w)
unfolding read_failed
handle_readable-blocked junk cfg reply o w nothing waits = (
  (
    read_failed junk reply w,
    plain_fails junk cfg reply w,
    refl,
    read_failed-read junk reply w,
    read_failed-HasClosed junk reply w,
  ),
  retried junk cfg reply o w (ssl_read-retry o nothing waits),
)
