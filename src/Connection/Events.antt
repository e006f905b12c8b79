-- ===== src/Connection/Events.antt =====
-- src/wrk.c, the handlers that the event loop calls: socket_connected, socket_writeable,
-- socket_readable, delay_request and record_rate.
pub mod Progress
pub mod Writing
pub mod Watching
pub mod Reading
pub mod Ending
pub mod Blocking
mod Tests
use wrk_offloadenginesupport.Prelude.{
  ℕ, zero, suc, ◌+◌, ◌-◌, ◌/◌, ◌%◌, Bool, true, false, not, ◌&&◌, Option, none, some, List, [], ◌∷◌,
  ◌++◌, Bytes, if◌then◌else◌, ltb, ◌==◌, u64, take, drop, length,
}
use wrk_offloadenginesupport.Floating.{LongDouble}
use wrk_offloadenginesupport.Stats.{Stats, stats_record}
use wrk_offloadenginesupport.Net.{Status, ok, error, retry, Outcome, Sock}
use wrk_offloadenginesupport.Connection.{
  World, Config, Connection, Thread, Call, create_file_event, delete_file_event, create_delay_event,
  readable, writable, socket_writeable, socket_readable, parser_init, send, ae_stop, emit,
  with_conn, connect_error, read_error, write_error,
}
use wrk_offloadenginesupport.Connection.Socket.{ConnectReply, reconnect_socket}
use wrk_offloadenginesupport.Connection.Callbacks.{
  Completion, header_field, header_value, response_body, response_complete,
}

abbrev pub recvbuf : ℕ
recvbuf = 8192

abbrev pub record_interval_ms : ℕ
record_interval_ms = 100

-- `fd` is the descriptor of the event, and `answer` that of `sock.connect`.
unfoldable pub handle_connected : Config → ℕ → Outcome → ConnectReply → World → World
handle_connected cfg fd answer reply w = elim (cfg.sock.connect answer) [
  | ok ↦ emit (with_conn w (record c { written = 0 })) (
      parser_init
      ∷ create_file_event fd readable socket_readable
      ∷ create_file_event fd writable socket_writeable
      ∷ [])
  | error ↦ (reconnect_socket reply (record w { thread = connect_error w.thread })).1
  | retry ↦ w
]
  where
    c : Connection
    c = w.conn

-- What socket_writeable reads from outside: the script's delay and its next request, the clock, the
-- answer of the write, and those of a reconnect.
pub record WriteReply : Type 0 where
  pub delay : ℕ
  pub next_request : Bytes
  pub now : ℕ
  pub answer : Outcome
  pub reply : ConnectReply

-- `if (!c->written)`: a new batch of requests begins.
unfoldable pub begin_batch : Config → WriteReply → Connection → Connection
begin_batch cfg r c =
    if c.written == 0
    then record c {
      request = if cfg.dynamic then r.next_request else c.request;
      start = r.now;
      pending = cfg.pipeline;
    }
    else c

-- `c->written += n`, and the end of the request.
unfoldable pub wrote : ℕ → ℕ → World → World
wrote fd n w =
    let total = (w.conn.written + n) % u64 in
    let w' = emit w (send (take n (drop w.conn.written w.conn.request)) ∷ []) in
    if total == length w.conn.request
    then emit (with_conn w' (record c { written = 0 })) (delete_file_event fd writable ∷ [])
    else with_conn w' (record c { written = total })
  where
    c : Connection
    c = w.conn

unfoldable pub write_result : ℕ → ConnectReply → World → Status × Option ℕ → World
write_result fd reply w (ok, some n) = wrote fd n w
write_result fd reply w (ok, none) = w
write_result fd reply w (error, n) =
    (reconnect_socket reply (record w { thread = write_error w.thread })).1
write_result fd reply w (retry, n) = w

unfoldable pub handle_writeable : Config → ℕ → WriteReply → World → World
unfolding write_result
handle_writeable cfg fd r w =
    let sending =
      write_result fd r.reply (with_conn w (begin_batch cfg r w.conn)) (cfg.sock.write r.answer) in
    if w.conn.delayed
    then emit w (delete_file_event fd writable ∷ create_delay_event r.delay ∷ [])
    else sending

pub data ParserEvent : Type 0 where
  on_header_field on_header_value on_body : Bytes → ParserEvent
  on_message_complete : Completion → ParserEvent

-- One pass of the loop of socket_readable: the answer of the read, the events of
-- http_parser_execute and the number that it returns, http_body_is_final, and the answer of the
-- question whether more can be read.
pub record ReadRound : Type 0 where
  pub answer : Outcome
  pub events : List ParserEvent
  pub parsed : ℕ
  pub final : Bool
  pub more : Outcome

module _ (junk : ℕ → ℕ) where
  -- The callbacks that are set: those for headers and body only where the script wants responses.
  unfoldable pub parser_event : Config → ParserEvent → World → World
  parser_event cfg (on_header_field at) w =
      if cfg.want_response then with_conn w (header_field junk at w.conn) else w
  parser_event cfg (on_header_value at) w =
      if cfg.want_response then with_conn w (header_value junk at w.conn) else w
  parser_event cfg (on_body at) w =
      if cfg.want_response then with_conn w (response_body junk at w.conn) else w
  parser_event cfg (on_message_complete k) w = response_complete cfg k w

  unfoldable pub parser_events : Config → List ParserEvent → World → World
  unfolding parser_event
  parser_events cfg [] w = w
  parser_events cfg (e ∷ es) w = parser_events cfg es (parser_event cfg e w)

  unfoldable pub read_failed : ConnectReply → World → World
  read_failed reply w = (reconnect_socket reply (record w { thread = read_error w.thread })).1

  unfoldable pub count_bytes : ℕ → World → World
  count_bytes n w = record w { thread = record t { bytes = (t.bytes + n) % u64 } }
    where
      t : Thread
      t = w.thread

  -- What follows a read: the state, and whether the loop goes on.
  unfoldable pub read_result :
      Config → ConnectReply → ReadRound → World → Status × Option ℕ → World × Bool
  unfolding parser_events read_failed count_bytes
  read_result cfg reply r w (ok, some n) =
      let w' = parser_events cfg r.events w in
      if not (r.parsed == n)
      then (read_failed reply w', false)
      else if (n == 0) && not r.final
      then (read_failed reply w', false)
      else (count_bytes n w', (n == recvbuf) && ltb 0 (cfg.sock.readable r.more))
  read_result cfg reply r w (ok, none) = (w, false)
  read_result cfg reply r w (error, n) = (read_failed reply w, false)
  read_result cfg reply r w (retry, n) = (w, false)

  -- The loop, over what each pass gets from outside; `none` where it would go on past the list.
  unfoldable pub handle_readable : Config → ConnectReply → List ReadRound → World → Option World
  unfolding read_result
  handle_readable cfg reply [] w = none
  handle_readable cfg reply (r ∷ rs) w =
      let (w', again) = read_result cfg reply r w (cfg.sock.read r.answer) in
      let rest = handle_readable cfg reply rs w' in if again then rest else some w'

-- `delay_request`; it returns AE_NOMORE.
unfoldable pub delay_request : World → World
delay_request w =
    emit (with_conn w (record c { delayed = false }))
      (create_file_event w.conn.fd writable socket_writeable ∷ [])
  where
    c : Connection
    c = w.conn

-- `record_rate`, with the two readings of the clock and the flag `stop`; it returns
-- RECORD_INTERVAL_MS, after which the loop calls it again.
module _ (F : LongDouble) where
  open F use {ratio, over, times, to_u64}

  -- `(thread->requests / (double) elapsed_ms) * 1000`, as `uint64_t`.
  pub rate_of : ℕ → ℕ → ℕ
  rate_of requests elapsed_ms =
      to_u64 (times (over (ratio requests 1) (ratio elapsed_ms 1)) (ratio 1000 1))

  unfoldable pub record_rate : ℕ → ℕ → Bool → World → ℕ × World
  unfolding rate_of
  record_rate now later stop w =
      let elapsed_ms = ((now + u64 - w.thread.start) % u64) / 1000 in
      let recorded = record w {
        rate = (stats_record w.rate (rate_of w.thread.requests elapsed_ms)).1;
        thread = record t { requests = 0; start = later };
      } in
      let w' = if ltb 0 w.thread.requests then recorded else w in
      (record_interval_ms, if stop then emit w' (ae_stop ∷ []) else w')
    where
      t : Thread
      t = w.thread
