-- ===== src/Connection.antt =====
-- src/wrk.h and the state of src/wrk.c: the connection, its thread, the configuration, and the
-- calls that the handlers make of the event loop, the sockets and the script.
pub mod Registry
pub mod Socket
pub mod ThreadMain
pub mod Life
pub mod Batch
pub mod HeaderTable
pub mod Callbacks
pub mod Events
pub mod Samples
use wrk_offloadenginesupport.Prelude.{
  ℕ, ◌+◌, ◌%◌, Bool, Option, List, [], ◌∷◌, ◌++◌, u32, u64, Bytes,
}
use wrk_offloadenginesupport.Buffers.{Buffer}
use wrk_offloadenginesupport.Stats.{Stats}
use wrk_offloadenginesupport.Net.{Sock}

-- A Lua table with strings as keys and values; it has no order.
abbrev pub HeaderTable : Type 0
HeaderTable = Bytes → Option Bytes

-- `c->state`, which part of a header came last.
pub data HeaderState : Type 0 where
  field value : HeaderState

pub record Connection : Type 0 where
  pub state : HeaderState
  pub fd : ℕ
  -- `c->ssl`, which is NULL on plain connections
  pub ssl : Option ℕ
  pub delayed : Bool
  pub start : ℕ
  pub request : Bytes
  -- the request's length is `c->length`
  pub written : ℕ
  pub pending : ℕ
  pub headers : Buffer
  pub body : Buffer

-- `errors` of src/stats.h; its fields are 32 bits wide.
pub record Errors : Type 0 where
  pub connect : ℕ
  pub read : ℕ
  pub write : ℕ
  pub status : ℕ
  pub timeout : ℕ

pub record Thread : Type 0 where
  pub connections : ℕ
  pub complete : ℕ
  pub requests : ℕ
  pub bytes : ℕ
  pub start : ℕ
  pub errors : Errors

-- The part of `struct config` that the handlers read, the transport, and whether the callbacks for
-- headers and body are set in `parser_settings`.
pub record Config : Type 0 where
  pub pipeline : ℕ
  pub delay : Bool
  pub dynamic : Bool
  pub want_response : Bool
  pub sock : Sock

-- AE_READABLE, AE_WRITABLE, and both.
pub data Mask : Type 0 where
  readable writable both : Mask

pub data Handler : Type 0 where
  socket_connected socket_writeable socket_readable : Handler

-- What a handler asks of the code around it.
pub data Call : Type 0 where
  open_socket : ℕ → Call
  set_nonblock : ℕ → Call
  start_connect : ℕ → Call
  ssl_set_options : Option ℕ → Call
  set_nodelay : ℕ → Call
  create_file_event : ℕ → Mask → Handler → Call
  delete_file_event : ℕ → Mask → Call
  create_delay_event : ℕ → Call
  sock_close : ℕ → Call
  close_fd : ℕ → Call
  parser_init : Call
  send : Bytes → Call
  -- the status, the table of the headers (`none` where a string runs past its block), the body
  script_response : ℕ → Option HeaderTable → Bytes → Call
  ae_stop : Call
  -- the timer that calls record_rate, the event loop, and its end
  create_rate_event : ℕ → Call
  ae_main ae_delete_loop : Call

-- All that a handler can change, and the calls that it has made, oldest first.
pub record World : Type 0 where
  pub thread : Thread
  pub conn : Connection
  pub latency : Stats
  pub rate : Stats
  pub calls : List Call

abbrev pub emit : World → List Call → World
emit w cs = record w { calls = w.calls ++ cs }

abbrev pub with_conn : World → Connection → World
with_conn w c = record w { conn = c }

-- `uint32_t` and `uint64_t` counters.
abbrev pub inc32 : ℕ → ℕ
inc32 n = (n + 1) % u32

abbrev pub inc64 : ℕ → ℕ
inc64 n = (n + 1) % u64

pub connect_error : Thread → Thread
connect_error t = record t { errors = record e { connect = inc32 e.connect } }
  where
    e : Errors
    e = t.errors

pub read_error : Thread → Thread
read_error t = record t { errors = record e { read = inc32 e.read } }
  where
    e : Errors
    e = t.errors

pub write_error : Thread → Thread
write_error t = record t { errors = record e { write = inc32 e.write } }
  where
    e : Errors
    e = t.errors

pub timeout_error : Thread → Thread
timeout_error t = record t { errors = record e { timeout = inc32 e.timeout } }
  where
    e : Errors
    e = t.errors

pub status_error : Thread → Thread
status_error t = record t { errors = record e { status = inc32 e.status } }
  where
    e : Errors
    e = t.errors
