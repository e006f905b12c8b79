-- ===== src/Connection/Socket/Reconnect.antt =====
-- What connect_socket and reconnect_socket of src/wrk.c leave behind.
use wrk_offloadenginesupport.Prelude.{
  eq_self, ℕ, ◌≡◌, ◌≢◌, refl, ◌∙◌, Bool, true, false, Option, none, some, List, [], ◌∷◌, ◌++◌,
  arith, ◌==◌,
}
use wrk_offloadenginesupport.Connection.{
  World, Call, both, socket_connected, open_socket, set_nonblock, start_connect, ssl_set_options,
  set_nodelay, create_file_event, delete_file_event, sock_close, close_fd, emit, connect_error,
}
use wrk_offloadenginesupport.Connection.Registry.{Watch, watch, watch-append, unwatched}
use wrk_offloadenginesupport.Connection.Socket.{
  ConnectAnswer, ConnectReply, connected, in_progress, failed, connect_socket, reconnect_socket,
}

-- Whether a new connection gets under way: `connect` succeeds or is in progress, and the loop takes
-- the descriptor.
abbrev pub gets_under_way : ConnectReply → Bool
gets_under_way r = elim r.answer [ failed ↦ false | _ ↦ r.registered ]

-- What a reconnect leaves: either the new descriptor waits for its connection in both directions,
-- or an error is counted, the descriptor is closed and the connection keeps its old one.
abbrev pub Reconnected : Bool → ConnectReply → World → Option ℕ × World → Type 0
Reconnected true r w (ret, w') =
    (ret ≡ some r.fd)
    × (w'.conn ≡ (record (w.conn) { fd = r.fd }))
    × (w'.thread ≡ w.thread)
    × ((a : Watch)
        → watch r.fd w'.calls a
          ≡ record { on_read = some socket_connected; on_write = some socket_connected })
Reconnected false r w (ret, w') =
    (ret ≡ none)
    × (w'.conn ≡ w.conn)
    × (w'.thread ≡ connect_error w.thread)
    × ((cs : List Call) × (w'.calls ≡ cs ++ close_fd r.fd ∷ []))

-- The connection is registered after its calls, whatever was registered before.
registered-watch :
    (fd : ℕ) (ssl : Option ℕ) (cs : List Call) (a : Watch)
    → watch fd
        (cs
          ++ ssl_set_options ssl ∷ set_nodelay fd ∷ create_file_event fd both socket_connected ∷ [])
        a
      ≡ record { on_read = some socket_connected; on_write = some socket_connected }
registered-watch fd ssl cs a = watch-append fd cs _ a ∙ rw (eq_self fd)

connect-Reconnected :
    (fd : ℕ) (answer : ConnectAnswer) (ok : Bool) (w : World)
    → let r : ConnectReply = record { fd = fd; answer = answer; registered = ok } in
      Reconnected (gets_under_way r) r w (connect_socket r w)
unfolding connect_socket
connect-Reconnected fd connected true w = (
  refl,
  refl,
  refl,
  registered-watch fd w.conn.ssl
      (w.calls ++ open_socket fd ∷ set_nonblock fd ∷ start_connect fd ∷ []),
)
connect-Reconnected fd connected false w = (refl, refl, refl, (_, refl))
connect-Reconnected fd in_progress true w = (
  refl,
  refl,
  refl,
  registered-watch fd w.conn.ssl
      (w.calls ++ open_socket fd ∷ set_nonblock fd ∷ start_connect fd ∷ []),
)
connect-Reconnected fd in_progress false w = (refl, refl, refl, (_, refl))
connect-Reconnected fd failed true w = (refl, refl, refl, (_, refl))
connect-Reconnected fd failed false w = (refl, refl, refl, (_, refl))

-- connect_socket either leaves the new descriptor waiting for its connection in both directions, or
-- counts one connect error, closes the descriptor and leaves the connection as it was; which one is
-- decided by whether `connect` fails at once and whether the loop takes the descriptor.
pub connect_socket-Reconnected :
    (r : ConnectReply) (w : World) → Reconnected (gets_under_way r) r w (connect_socket r w)
connect_socket-Reconnected r w = connect-Reconnected r.fd r.answer r.registered w

-- A descriptor that none of the calls names stays as it was.
ne_self : (a b : ℕ) → a ≢ b → (a == b) ≡ false
ne_self a b h = ground arith

close-watch :
    (old : ℕ) (cs : List Call) (a : Watch)
    → watch old (cs ++ delete_file_event old both ∷ sock_close old ∷ close_fd old ∷ []) a
      ≡ unwatched
close-watch old cs a = watch-append old cs _ a ∙ rw (eq_self old)

connect_old-watch :
    (fd old : ℕ) (answer : ConnectAnswer) (ok : Bool) (w : World) (a : Watch)
    → fd ≢ old
    → watch old w.calls a ≡ unwatched
    → watch old (connect_socket (record { fd = fd; answer = answer; registered = ok }) w).1.calls a
      ≡ unwatched
unfolding connect_socket
connect_old-watch fd old failed ok w a ne e = simp (watch-append, e)
connect_old-watch fd old connected true w a ne e = simp (watch-append, e, ne_self fd old ne)
connect_old-watch fd old connected false w a ne e = simp (watch-append, e, ne_self fd old ne)
connect_old-watch fd old in_progress true w a ne e = simp (watch-append, e, ne_self fd old ne)
connect_old-watch fd old in_progress false w a ne e = simp (watch-append, e, ne_self fd old ne)

-- reconnect_socket takes the old descriptor off the event loop, where the new one has another
-- number, and then does what connect_socket does.
pub reconnect_socket-Reconnected :
    (r : ConnectReply) (w : World) (a : Watch)
    → r.fd ≢ w.conn.fd
    → Reconnected (gets_under_way r) r w (reconnect_socket r w)
      × (watch w.conn.fd (reconnect_socket r w).1.calls a ≡ unwatched)
unfolding reconnect_socket
reconnect_socket-Reconnected r w a ne = (
  same (gets_under_way r) (connect_socket r v) (connect_socket-Reconnected r v),
  connect_old-watch r.fd w.conn.fd r.answer r.registered v a ne (close-watch w.conn.fd w.calls a),
)
  where
    v : World
    v = emit w (delete_file_event w.conn.fd both ∷ sock_close w.conn.fd ∷ close_fd w.conn.fd ∷ [])

    same : (b : Bool) (out : Option ℕ × World) → Reconnected b r v out → Reconnected b r w out
    same true out q = q
    same false out q = q

-- Of the thread's counters only that of connect errors may grow.
connect-thread :
    (fd : ℕ) (answer : ConnectAnswer) (ok : Bool) (w : World)
    → let t = (connect_socket (record { fd = fd; answer = answer; registered = ok }) w).1.thread in
      (t.bytes ≡ w.thread.bytes) × (t.errors.read ≡ w.thread.errors.read)
unfolding connect_socket connect_error
connect-thread fd connected true w = (refl, refl)
connect-thread fd connected false w = (refl, refl)
connect-thread fd in_progress true w = (refl, refl)
connect-thread fd in_progress false w = (refl, refl)
connect-thread fd failed ok w = (refl, refl)

pub reconnect_socket-thread :
    (r : ConnectReply) (w : World)
    → let t = (reconnect_socket r w).1.thread in
      (t.bytes ≡ w.thread.bytes) × (t.errors.read ≡ w.thread.errors.read)
unfolding reconnect_socket
reconnect_socket-thread r w = connect-thread r.fd r.answer r.registered (emit w _)
