-- ===== src/Connection/Life/Stale.antt =====
-- src/wrk.c, a delay that outlives its connection: neither reconnect_socket nor delay_request looks
-- whether a call of delay_request is due or whose descriptor it was meant for.
use wrk_offloadenginesupport.Prelude.{
  eq_self, ℕ, suc, ◌≡◌, refl, ap, subst, ◌∙◌, true, false, Option, some, [], ◌∷◌, if◌then◌else◌,
}
use wrk_offloadenginesupport.Floating.{LongDouble}
use wrk_offloadenginesupport.Net.{error, Outcome}
use wrk_offloadenginesupport.Connection.{
  World, Config, Connection, both, delete_file_event, sock_close, close_fd, socket_connected,
  socket_writeable, socket_readable, emit, read_error,
}
use wrk_offloadenginesupport.Connection.Registry.{Watch, watch, watch-append, unwatched}
use wrk_offloadenginesupport.Connection.Socket.{ConnectReply, connect_socket, reconnect_socket}
use wrk_offloadenginesupport.Connection.Socket.Reconnect.{
  Reconnected, gets_under_way, connect_socket-Reconnected,
}
use wrk_offloadenginesupport.Connection.Events.{
  WriteReply, ReadRound, handle_writeable, handle_readable, read_result, read_failed, delay_request,
}
use wrk_offloadenginesupport.Connection.Events.Watching.{held_as}
use wrk_offloadenginesupport.Connection.Life.{
  view, Taken, OrderlyRounds, System, Reach, here, later, writeable_step, readable_step, delay_step,
}
use wrk_offloadenginesupport.Connection.Life.Phases.{handlers, connecting, sending}

under_way :
    (r : ConnectReply) (w : World) (out : Option ℕ × World)
    → Reconnected true r w out
    → (view out.1 ≡ handlers connecting) × (out.1.conn.fd ≡ r.fd)
under_way r w (ret, w') (e, conn, thread, watched) = (
  ap (λ (c : Connection). watch c.fd w'.calls unwatched) conn ∙ watched unwatched,
  ap (λ (c : Connection). c.fd) conn,
)

reconnected :
    (r : ConnectReply) (w : World)
    → gets_under_way r ≡ true
    → let w' = (reconnect_socket r w).1 in (view w' ≡ handlers connecting) × (w'.conn.fd ≡ r.fd)
unfolding reconnect_socket
reconnected r w goes =
    let v : World =
      emit w (delete_file_event w.conn.fd both ∷ sock_close w.conn.fd ∷ close_fd w.conn.fd ∷ []) in
    under_way r v (connect_socket r v)
      (subst (λ b. Reconnected b r v (connect_socket r v)) goes (connect_socket-Reconnected r v))

-- The read that fails.
abbrev pub failing : Outcome → ReadRound
failing o = record { answer = o; events = []; parsed = 0; final = true; more = o }

pub read_fails :
    (junk : ℕ → ℕ) (cfg : Config) (c : ConnectReply) (o : Outcome) (n : Option ℕ) (w : World)
    → cfg.sock.read o ≡ (error, n)
    → handle_readable junk cfg c (failing o ∷ []) w ≡ some (read_failed junk c w)
unfolding handle_readable read_result
read_fails junk cfg c o n w e = rw e refl

delays :
    (w : World)
    → view w ≡ handlers connecting
    → view (delay_request w)
      ≡ record { on_read = some socket_connected; on_write = some socket_writeable }
unfolding delay_request
delays w seen =
    watch-append w.conn.fd w.calls _ unwatched
    ∙ rw (eq_self w.conn.fd)
        (ap (λ (v : Watch). record v { on_write = some socket_writeable }) seen)

delayed-fd : (w : World) → (delay_request w).conn.fd ≡ w.conn.fd
unfolding delay_request
delayed-fd w = refl

still_reads :
    (cfg : Config) (r : WriteReply) (w : World)
    → w.conn.delayed ≡ true
    → view w ≡ handlers sending
    → (view (handle_writeable cfg w.conn.fd r w)).on_read ≡ some socket_readable
still_reads cfg r w d seen =
    ap (λ (v : World). (view v).on_read) (held_as cfg r w d)
    ∙ ap (λ (a : Watch). a.on_read) (watch-append w.conn.fd w.calls _ unwatched)
    ∙ rw (eq_self w.conn.fd) (ap (λ (a : Watch). a.on_read) seen)

read_failed-connecting :
    (junk : ℕ → ℕ) (c : ConnectReply) (w : World)
    → gets_under_way c ≡ true
    → (view (read_failed junk c w) ≡ handlers connecting) × ((read_failed junk c w).conn.fd ≡ c.fd)
unfolding read_failed
read_failed-connecting junk c w goes =
    reconnected c (record w { thread = read_error w.thread }) goes

-- With a script delay the event loop can come to call socket_writeable on a descriptor that is still
-- connecting: from a connection that is to write but is delayed, a call of socket_writeable starts the
-- timer, a failed read makes the connection again on another descriptor, and the timer then takes the
-- place of socket_connected as the writing handler of that one.
pub stale_timer :
    (F : LongDouble) (junk : ℕ → ℕ) (cfg : Config) (r : WriteReply) (c : ConnectReply) (o : Outcome)
    (n : Option ℕ) (s : System)
    → s.world.conn.delayed ≡ true
    → view s.world ≡ handlers sending
    → cfg.sock.read o ≡ (error, n)
    → gets_under_way c ≡ true
    → Taken r.reply
    → Taken c
    → (t : System) × Reach F junk cfg s t
      × (t.world.conn.fd ≡ c.fd)
      × (view t.world
          ≡ record { on_read = some socket_connected; on_write = some socket_writeable })
stale_timer F junk cfg r c o n s d seen e goes taken taken' =
    let v : World = handle_writeable cfg s.world.conn.fd r s.world in
    let u : World = read_failed junk c v in
    let (connects, fd) = read_failed-connecting junk c v goes in
    let orderly : OrderlyRounds cfg (failing o ∷ []) = ((false, refl, λ q. cc), tt) in
    (
      record { world = delay_request u; timers = s.timers },
      later
          (later
            (later here
              (writeable_step r (ap (λ (a : Watch). a.on_write) seen) taken (λ free. absurd (cc))))
            (readable_step c (failing o ∷ []) u (still_reads cfg r s.world d seen) taken' orderly
              (read_fails junk cfg c o n v e)))
          (delay_step s.timers (ap (λ b. if b then suc s.timers else s.timers) d)),
      delayed-fd u ∙ fd,
      delays u connects,
    )
