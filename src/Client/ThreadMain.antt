-- ===== src/Client/ThreadMain.antt =====
-- client_wrks/wrk_offload_engine/src/wrk.c, thread_main.
use wrk_offloadenginesupport.Prelude.{ℕ, zero, suc, ◌+◌, List, [], ◌∷◌, Bytes, if◌then◌else◌}
use wrk_offloadenginesupport.Connection.{
  World, Config, Connection, create_rate_event, ae_main, ae_delete_loop, emit, with_conn,
}
use wrk_offloadenginesupport.Connection.Events.{record_interval_ms}
use wrk_offloadenginesupport.Connection.ThreadMain.{Opening, new_connection}
use wrk_offloadenginesupport.Client.Socket.{connect_socket}

-- The loop, of `n` rounds from connection `i` on: the connections and the world after it.
unfoldable pub open_connections : Config → Bytes → Opening → ℕ → ℕ → World → List Connection × World
open_connections cfg request o zero i w = ([], w)
open_connections cfg request o (suc n) i w =
    let w' = (connect_socket (o.reply i) (with_conn w (new_connection cfg request (o.ssl i)))).1 in
    let (cs, w'') = open_connections cfg request o n (i + 1) w' in (w'.conn ∷ cs, w'')

unfoldable pub thread_main : Config → Bytes → Opening → ℕ → World → List Connection × World
unfolding open_connections
thread_main cfg request o now w =
    let first = if cfg.dynamic then [] else request in
    let (cs, w') = open_connections cfg first o w.thread.connections 0 w in
    let w'' = emit w' (create_rate_event record_interval_ms ∷ []) in
    (
      cs,
      emit (record w'' { thread = record (w''.thread) { start = now } })
          (ae_main ∷ ae_delete_loop ∷ []),
    )
