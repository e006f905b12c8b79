-- ===== src/Connection/Life/Phases.antt =====
-- The phases of a connection, by the handlers that are registered for it, and how connecting again,
-- writing and the callbacks move between them.
use wrk_offloadenginesupport.Prelude.{
  eq_self, ℕ, ◌≡◌, ◌⊎◌, inl, inr, refl, ap, sym, ◌∙◌, Bool, true, false, Option, none, some, List,
  [], ◌∷◌, if◌then◌else◌, arith,
}
use wrk_offloadenginesupport.Net.{Status, ok, error, retry, Outcome}
use wrk_offloadenginesupport.Connection.{
  World, Config, Call, Connection, readable, writable, both, socket_connected, socket_writeable,
  socket_readable, emit, with_conn, parser_init, create_file_event, delete_file_event, sock_close,
  close_fd, connect_error, write_error,
}
use wrk_offloadenginesupport.Connection.Registry.{Watch, watch, watch-append, unwatched}
use wrk_offloadenginesupport.Connection.Socket.{
  ConnectReply, ConnectAnswer, connected, in_progress, failed, connect_socket, register,
  connect_failed, reconnect_socket,
}
use wrk_offloadenginesupport.Connection.Events.{
  WriteReply, begin_batch, wrote, write_result, handle_connected, handle_writeable,
}
use wrk_offloadenginesupport.Connection.Life.{view, Taken}

pub data Phase : Type 0 where
  connecting sending waiting lost : Phase

abbrev pub handlers : Phase → Watch
handlers connecting = record { on_read = some socket_connected; on_write = some socket_connected }
handlers sending = record { on_read = some socket_readable; on_write = some socket_writeable }
handlers waiting = record { on_read = some socket_readable; on_write = none }
handlers lost = unwatched

abbrev pub IsAlive : Phase → Type 0
IsAlive lost = ⊥
IsAlive _ = Unit {0}

abbrev pub IsOpen : Phase → Type 0
IsOpen sending = Unit {0}
IsOpen waiting = Unit {0}
IsOpen _ = ⊥

infix 40 ◌⟶◌
pub data ◌⟶◌ : Phase → Phase → Type 0 where
  stay : {p : Phase} → p ⟶ p
  ready : connecting ⟶ sending
  sent : sending ⟶ waiting
  answered : waiting ⟶ sending
  again : {p : Phase} → IsAlive p → p ⟶ connecting
  lose : {p : Phase} → IsAlive p → p ⟶ lost

-- The connection is in this phase, and no delay holds it.
abbrev pub InPhase : Phase → World → Type 0
InPhase p w = (view w ≡ handlers p) × (w.conn.delayed ≡ false)

-- The next phase.
abbrev pub After : Phase → World → Type 0
After p w = (q : Phase) × (p ⟶ q) × InPhase q w

pub emit-view : (w : World) (cs : List Call) → view (emit w cs) ≡ watch w.conn.fd cs (view w)
emit-view w cs = watch-append w.conn.fd w.calls cs unwatched

-- The connection has been made again, or is lost.
abbrev pub Ended : World → Type 0
Ended w = InPhase connecting w ⊎ InPhase lost w

pub Ended-After : (p : Phase) (w : World) → IsAlive p → Ended w → After p w
Ended-After p w alive (inl at) = (connecting, again alive, at)
Ended-After p w alive (inr at) = (lost, lose alive, at)

connect-Ended :
    (fd : ℕ) (answer : ConnectAnswer) (w : World)
    → view w ≡ unwatched
    → w.conn.delayed ≡ false
    → Ended (connect_socket (record { fd = fd; answer = answer; registered = true }) w).1
unfolding connect_socket register connect_failed
connect-Ended fd connected w off free = inl (simp (watch-append, eq_self fd), free)
connect-Ended fd in_progress w off free = inl (simp (watch-append, eq_self fd), free)
connect-Ended fd failed w off free = inr (simp (watch-append, off), free)

reconnect-Ended :
    (fd : ℕ) (answer : ConnectAnswer) (ok : Bool) (w : World)
    → ok ≡ true
    → w.conn.delayed ≡ false
    → Ended (reconnect_socket (record { fd = fd; answer = answer; registered = ok }) w).1
unfolding reconnect_socket
reconnect-Ended fd answer true w taken free =
    connect-Ended fd answer (emit w (closing w.conn.fd)) (simp (watch-append, eq_self w.conn.fd))
      free
  where
    closing : ℕ → List Call
    closing old = delete_file_event old both ∷ sock_close old ∷ close_fd old ∷ []
reconnect-Ended fd answer false w taken free = cc

pub reconnect_socket-Ended :
    (r : ConnectReply) (w : World)
    → Taken r
    → w.conn.delayed ≡ false
    → Ended (reconnect_socket r w).1
reconnect_socket-Ended r w taken free = reconnect-Ended r.fd r.answer r.registered w taken free

reconnect_socket-After :
    (r : ConnectReply) (p : Phase) (w : World)
    → IsAlive p
    → Taken r
    → w.conn.delayed ≡ false
    → After p (reconnect_socket r w).1
reconnect_socket-After r p w alive taken free =
    Ended-After p (reconnect_socket r w).1 alive (reconnect_socket-Ended r w taken free)

connected-After :
    (s : Status) (fd : ℕ) (r : ConnectReply) (w : World)
    → fd ≡ w.conn.fd
    → Taken r
    → InPhase connecting w
    → After connecting (elim s [
      | ok ↦ emit (with_conn w (record (w.conn) { written = 0 })) (
          parser_init
          ∷ create_file_event fd readable socket_readable
          ∷ create_file_event fd writable socket_writeable
          ∷ [])
      | error ↦ (reconnect_socket r (record w { thread = connect_error w.thread })).1
      | retry ↦ w
    ])
connected-After ok fd r w same taken (v, free) =
    (sending, ready, (simp (watch-append, same, eq_self w.conn.fd), free))
connected-After error fd r w same taken (v, free) =
    reconnect_socket-After r connecting (record w { thread = connect_error w.thread }) tt taken free
connected-After retry fd r w same taken (v, free) = (connecting, stay, (v, free))

pub handle_connected-After :
    (cfg : Config) (o : Outcome) (r : ConnectReply) (w : World)
    → Taken r
    → InPhase connecting w
    → After connecting (handle_connected cfg w.conn.fd o r w)
unfolding handle_connected
handle_connected-After cfg o r w taken at =
    connected-After (cfg.sock.connect o) w.conn.fd r w refl taken at

pub if-After :
    (p : Phase) (b : Bool) (u v : World) → After p u → After p v → After p (if b then u else v)
if-After p true u v a b = a
if-After p false u v a b = b

wrote-After :
    (n fd : ℕ) (w : World) → fd ≡ w.conn.fd → InPhase sending w → After sending (wrote fd n w)
unfolding wrote
wrote-After n fd w same (v, free) =
    if-After sending _ _ _ (waiting, sent, (simp (watch-append, same, v, eq_self w.conn.fd), free))
      (sending, stay, (simp (watch-append, v), free))

write_result-After :
    (fd : ℕ) (r : ConnectReply) (w : World) (s : Status) (n : Option ℕ)
    → fd ≡ w.conn.fd
    → Taken r
    → InPhase sending w
    → After sending (write_result fd r w (s, n))
unfolding write_result
write_result-After fd r w ok (some n) same taken at = wrote-After n fd w same at
write_result-After fd r w ok none same taken at = (sending, stay, at)
write_result-After fd r w error n same taken (v, free) =
    reconnect_socket-After r sending (record w { thread = write_error w.thread }) tt taken free
write_result-After fd r w retry n same taken at = (sending, stay, at)

batch-same :
    (cfg : Config) (r : WriteReply) (c : Connection)
    → ((begin_batch cfg r c).fd ≡ c.fd) × ((begin_batch cfg r c).delayed ≡ c.delayed)
unfolding begin_batch
batch-same cfg r c = ground arith

free-After :
    (p : Phase) (b : Bool) (u v : World) → b ≡ false → After p v → After p (if b then u else v)
free-After p true u v free a = cc
free-After p false u v free a = a

pub handle_writeable-After :
    (cfg : Config) (r : WriteReply) (w : World)
    → Taken r.reply
    → InPhase sending w
    → After sending (handle_writeable cfg w.conn.fd r w)
unfolding handle_writeable
handle_writeable-After cfg r w taken (seen, free) =
    let v : World = with_conn w (begin_batch cfg r w.conn) in
    let (fd, delayed) = batch-same cfg r w.conn in
    free-After sending w.conn.delayed _ _ free (
      write_result-After w.conn.fd r.reply v (cfg.sock.write r.answer).0 (cfg.sock.write r.answer).1
        (sym fd) taken (ap (λ g. watch g w.calls unwatched) fd ∙ seen, delayed ∙ free))
