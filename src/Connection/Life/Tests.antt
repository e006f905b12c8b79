-- ===== src/Connection/Life/Tests.antt =====
-- The life of a connection of src/wrk.c at concrete inputs.
use wrk_offloadenginesupport.Prelude.{
  ◌+◌, ◌≤◌, length, arith, ℕ, ◌≡◌, refl, true, none, some, [], ◌∷◌, inl, u64_max,
}
use wrk_offloadenginesupport.Floating.Hundredths.{hundredths}
use wrk_offloadenginesupport.Net.{ok, Outcome, eagain, plain_sock, sock_read}
use wrk_offloadenginesupport.Connection.{
  create_file_event, both, readable, writable, socket_connected, socket_writeable, socket_readable,
}
use wrk_offloadenginesupport.Connection.Events.{
  WriteReply, begin_batch, handle_connected, handle_writeable,
}
use wrk_offloadenginesupport.Connection.Life.{
  view, System, Step, Reach, here, later, connected_step, writeable_step,
}
use wrk_offloadenginesupport.Connection.Life.Phases.{Phase, connecting, waiting, lost}
use wrk_offloadenginesupport.Connection.Life.Reached.{At, Next, reached_phase}
use wrk_offloadenginesupport.Connection.Life.Lost.{failed_reconnect-lost}
use wrk_offloadenginesupport.Connection.Life.Bounds.{InBounds, reached-InBounds}
use wrk_offloadenginesupport.Connection.Life.Stale.{stale_timer}
use wrk_offloadenginesupport.Connection.Samples.{world, conn, config, reply, gave}

abbrev junk : ℕ → ℕ
junk n = 170

abbrev start : System
start = record {
  world = record world { calls = create_file_event 5 both socket_connected ∷ [] };
  timers = 0;
}

abbrev up : System
up = record { world = handle_connected config 5 (gave 0) reply start.world; timers = 0 }

abbrev write : WriteReply
write = record { delay = 0; next_request = []; now = 7; answer = gave 3; reply = reply }

abbrev sent : System
sent = record { world = handle_writeable config 5 write up.world; timers = 0 }

fits :
    (n : ℕ)
    → config.sock.write write.answer ≡ (ok, some n)
    → (begin_batch config write up.world.conn).written + n
      ≤ length (begin_batch config write up.world.conn).request
unfolding handle_connected plain_sock begin_batch
fits n e = let three : n ≡ 3 = cc in omega (arith, three)

runs : Reach hundredths junk config start sent
unfolding handle_connected handle_writeable plain_sock begin_batch
runs =
    later (later here (connected_step (gave 0) reply (inl refl) refl))
      (writeable_step write refl refl (λ free. (omega arith, fits)))

reached_phase_example :
    (q : Phase) × At q sent × ((u : System) → Step hundredths junk config sent u → Next q u)
reached_phase_example =
    reached_phase hundredths junk config refl connecting start sent ((refl, refl), refl) runs

abbrev broken : Outcome
broken = record { value = none; code = eagain }

-- A connection that waits for its response.
abbrev open_conn : System
open_conn = record {
  world = record world { calls = create_file_event 5 readable socket_readable ∷ [] };
  timers = 0;
}

failed_reconnect-lost_example :
    (t : System) × Reach hundredths junk config open_conn t
    × (t.world.thread.errors.read ≡ 1)
    × (t.world.thread.errors.connect ≡ 1)
    × At lost t
    × ((u : System) → Reach hundredths junk config t u → At lost u × (u.world.conn ≡ t.world.conn))
unfolding plain_sock sock_read
failed_reconnect-lost_example =
    failed_reconnect-lost hundredths junk config 6 broken (some u64_max) waiting open_conn refl tt
      ((refl, refl), refl) refl

abbrev held : System
held = record {
  world = record world {
    conn = record conn { delayed = true };
    calls =
        create_file_event 5 readable socket_readable
        ∷ create_file_event 5 writable socket_writeable
        ∷ [];
  };
  timers = 0;
}

stale_timer_example :
    (t : System) × Reach hundredths junk config held t
    × (t.world.conn.fd ≡ 6)
    × (view t.world ≡ record { on_read = some socket_connected; on_write = some socket_writeable })
unfolding plain_sock sock_read
stale_timer_example =
    stale_timer hundredths junk config write reply broken (some u64_max) held refl refl refl refl
      refl refl

reached-InBounds_example : InBounds sent.world.conn
reached-InBounds_example =
    reached-InBounds hundredths junk config start sent (omega arith, inl refl) runs
