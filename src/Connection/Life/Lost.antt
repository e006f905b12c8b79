-- ===== src/Connection/Life/Lost.antt =====
-- src/wrk.c, a reconnect that fails at once: no caller of reconnect_socket looks at its result.
use wrk_offloadenginesupport.Prelude.{
  eq_self, ℕ, ◌≡◌, refl, ap, ◌∙◌, true, false, Option, some, [], ◌∷◌,
}
use wrk_offloadenginesupport.Floating.{LongDouble}
use wrk_offloadenginesupport.Net.{error, Outcome}
use wrk_offloadenginesupport.Connection.{
  World, Config, inc32, read_error, connect_error, socket_readable,
}
use wrk_offloadenginesupport.Connection.Registry.{Watch, watch-append}
use wrk_offloadenginesupport.Connection.Socket.{
  ConnectReply, failed, connect_socket, connect_failed, reconnect_socket,
}
use wrk_offloadenginesupport.Connection.Events.{read_failed}
use wrk_offloadenginesupport.Connection.Life.{
  OrderlyRounds, System, Reach, here, later, readable_step,
}
use wrk_offloadenginesupport.Connection.Life.Phases.{
  Phase, connecting, sending, waiting, lost, handlers, IsOpen, InPhase,
}
use wrk_offloadenginesupport.Connection.Life.Reached.{At, lost_for_good}
use wrk_offloadenginesupport.Connection.Life.Stale.{failing, read_fails}

-- A socket on which `connect` fails at once.
abbrev pub refused : ℕ → ConnectReply
refused fd = record { fd = fd; answer = failed; registered = true }

refused-lost :
    (fd : ℕ) (w : World) → w.conn.delayed ≡ false → InPhase lost (reconnect_socket (refused fd) w).1
unfolding reconnect_socket connect_socket connect_failed
refused-lost fd w free = (simp (watch-append, eq_self w.conn.fd), free)

refused-counts :
    (fd : ℕ) (w : World)
    → let t = (reconnect_socket (refused fd) w).1.thread in
      (t.errors.read ≡ w.thread.errors.read) × (t.errors.connect ≡ inc32 w.thread.errors.connect)
unfolding reconnect_socket connect_socket connect_failed connect_error
refused-counts fd w = (refl, refl)

read_failed-lost :
    (junk : ℕ → ℕ) (fd : ℕ) (w : World)
    → w.conn.delayed ≡ false
    → let v = read_failed junk (refused fd) w in
      InPhase lost v
      × (v.thread.errors.read ≡ inc32 w.thread.errors.read)
      × (v.thread.errors.connect ≡ inc32 w.thread.errors.connect)
unfolding read_failed read_error
read_failed-lost junk fd w free =
    let v = record w { thread = read_error w.thread } in
    let (reads, connects) = refused-counts fd v in (refused-lost fd v free, reads, connects)

open_reads : (p : Phase) → IsOpen p → (handlers p).on_read ≡ some socket_readable
open_reads sending live = refl
open_reads waiting live = refl
open_reads connecting live = absurd live
open_reads lost live = absurd live

-- Without script delays, a connection whose reconnect fails at once is lost for good: from one that is
-- open (sending or waiting, no timer due) the event loop comes, by a read that fails and a `connect`
-- that then fails at once, to a state in which one read error and one connect error have been counted
-- and no handler is registered for the connection; and in every state that it can reach from there, by
-- any handlers and any answers, none is registered and the connection is as it was.
pub failed_reconnect-lost :
    (F : LongDouble) (junk : ℕ → ℕ) (cfg : Config) (fd : ℕ) (o : Outcome) (n : Option ℕ) (p : Phase)
    (s : System)
    → cfg.delay ≡ false
    → IsOpen p
    → At p s
    → cfg.sock.read o ≡ (error, n)
    → (t : System) × Reach F junk cfg s t
      × (t.world.thread.errors.read ≡ inc32 s.world.thread.errors.read)
      × (t.world.thread.errors.connect ≡ inc32 s.world.thread.errors.connect)
      × At lost t
      × ((u : System) → Reach F junk cfg t u → At lost u × (u.world.conn ≡ t.world.conn))
failed_reconnect-lost F junk cfg fd o n p s quick live ((seen, free), idle) e =
    let v = read_failed junk (refused fd) s.world in
    let (gone, reads, connects) = read_failed-lost junk fd s.world free in
    let watched = ap (λ (a : Watch). a.on_read) seen ∙ open_reads p live in
    let orderly : OrderlyRounds cfg (failing o ∷ []) = ((false, refl, λ q. cc), tt) in
    let t : System = record s { world = v } in
    (
      t,
      later here (
          readable_step (refused fd) (failing o ∷ []) v watched refl orderly
            (read_fails junk cfg (refused fd) o n s.world e)),
      reads,
      connects,
      (gone, idle),
      λ u reach. lost_for_good F junk cfg quick t u (gone, idle) reach,
    )
