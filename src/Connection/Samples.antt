-- ===== src/Connection/Samples.antt =====
-- A connection and its surroundings, for the tests.
use wrk_offloadenginesupport.Prelude.{ℕ, true, false, none, some, [], ◌∷◌, codes}
use wrk_offloadenginesupport.Buffers.{no_buffer}
use wrk_offloadenginesupport.Stats.{Stats}
use wrk_offloadenginesupport.Net.{Outcome, eagain, plain_sock}
use wrk_offloadenginesupport.Connection.{Connection, Thread, Errors, World, Config, field}
use wrk_offloadenginesupport.Connection.Socket.{ConnectReply, in_progress}
use wrk_offloadenginesupport.Connection.Callbacks.{Completion}

abbrev pub conn : Connection
conn = record {
  state = field;
  fd = 5;
  ssl = none;
  delayed = false;
  start = 1000;
  request = codes "GET";
  written = 0;
  pending = 2;
  headers = no_buffer;
  body = no_buffer;
}

abbrev pub errors : Errors
errors = record { connect = 0; read = 0; write = 0; status = 0; timeout = 0 }

abbrev pub thread : Thread
thread = record {
  connections = 1;
  complete = 0;
  requests = 0;
  bytes = 0;
  start = 0;
  errors = errors;
}

abbrev pub empty_stats : Stats
empty_stats = record {
  count = 0;
  limit = 4;
  min = 18446744073709551615;
  max = 0;
  buckets = 0 ∷ 0 ∷ 0 ∷ 0 ∷ [];
}

abbrev pub world : World
world = record {
  thread = thread;
  conn = conn;
  latency = empty_stats;
  rate = empty_stats;
  calls = [];
}

abbrev pub config : Config
config = record {
  pipeline = 2;
  delay = false;
  dynamic = false;
  want_response = true;
  sock = plain_sock;
}

abbrev pub gave : ℕ → Outcome
gave n = record { value = some n; code = eagain }

abbrev pub reply : ConnectReply
reply = record { fd = 6; answer = in_progress; registered = true }

abbrev pub completion : ℕ → Completion
completion now = record { now = now; status = 200; keep_alive = true; reply = reply }
