-- ===== src/Connection/ThreadMain.antt =====
-- src/wrk.c, thread_main: a thread opens its connections and runs its loop.
pub mod Opened
mod Tests
use wrk_offloadenginesupport.Prelude.{
  ℕ, zero, suc, ◌+◌, ◌%◌, ◌≡◌, refl, ◌∙◌, ap, Bool, true, false, Option, none, some, List, [], ◌∷◌,
  ◌++◌, Bytes, length, if◌then◌else◌, u32, arith,
}
use wrk_offloadenginesupport.Buffers.{no_buffer}
use wrk_offloadenginesupport.Connection.{
  World, Config, Connection, Thread, Errors, field, Call, create_rate_event, ae_main,
  ae_delete_loop, emit, with_conn,
}
use wrk_offloadenginesupport.Connection.Socket.{
  ConnectReply, connect_socket, connected, in_progress, failed, ConnectAnswer,
}
use wrk_offloadenginesupport.Connection.Socket.Reconnect.{
  gets_under_way, Reconnected, connect_socket-Reconnected,
}
use wrk_offloadenginesupport.Connection.Events.{record_interval_ms}

-- What a thread reads from outside for its `i`-th connection: SSL_new, where there is a context, and
-- the answers of connect_socket.
pub record Opening : Type 0 where
  pub ssl : ℕ → Option ℕ
  pub reply : ℕ → ConnectReply

-- A zeroed connection with what the loop sets.
unfoldable pub new_connection : Config → Bytes → Option ℕ → Connection
new_connection cfg request ssl = record {
  state = field;
  fd = 0;
  ssl = ssl;
  delayed = cfg.delay;
  start = 0;
  request = request;
  written = 0;
  pending = 0;
  headers = no_buffer;
  body = no_buffer;
}

-- The loop, of `n` rounds from connection `i` on: the connections and the world after it.
unfoldable pub open_connections : Config → Bytes → Opening → ℕ → ℕ → World → List Connection × World
unfolding new_connection
open_connections cfg request o zero i w = ([], w)
open_connections cfg request o (suc n) i w =
    let w' = (connect_socket (o.reply i) (with_conn w (new_connection cfg request (o.ssl i)))).1 in
    let (cs, w'') = open_connections cfg request o n (i + 1) w' in (w'.conn ∷ cs, w'')

-- thread_main; `request` is what script_request gives, which is not asked where the requests are
-- dynamic, and `now` the clock. What the loop runs is not part of the result.
unfoldable pub thread_main : Config → Bytes → Opening → ℕ → World → List Connection × World
unfolding open_connections
thread_main cfg request o now w =
    let first = if cfg.dynamic then [] else request in
    let (cs, w') = open_connections cfg first o w.thread.connections 0 w in
    let w'' = emit w' (create_rate_event record_interval_ms ∷ []) in
    (
      cs,
      emit (record w'' { thread = record (w''.thread) { start = now } })
          (ae_main ∷ ae_delete_loop ∷ []),
    )
