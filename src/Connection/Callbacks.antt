-- ===== src/Connection/Callbacks.antt =====
-- src/wrk.c, the callbacks of the HTTP parser, and src/script.c, script_response.
pub mod Headers
pub mod Roundtrip
pub mod Decode
pub mod Complete
pub mod Schedule
pub mod Silent
mod Tests
use wrk_offloadenginesupport.Prelude.{
  ℕ, zero, suc, ◌+◌, ◌-◌, ◌%◌, Bool, true, false, not, Option, none, some, ◌>>=◌, List, [], ◌∷◌,
  ◌++◌, Bytes, if◌then◌else◌, ltb, ◌==◌, u64, take,
}
use wrk_offloadenginesupport.Buffers.{
  Buffer, buffer_append, buffer_reset, buffer_pushlstring, push_nul,
}
use wrk_offloadenginesupport.Stats.{Stats, stats_record}
use wrk_offloadenginesupport.Connection.{
  World, Config, Connection, Thread, HeaderState, field, value, Call, create_file_event, writable,
  socket_writeable, script_response, parser_init, emit, with_conn, inc64, status_error,
  timeout_error, HeaderTable,
}
use wrk_offloadenginesupport.Connection.HeaderTable.{new_header_table, raw_set_string}
use wrk_offloadenginesupport.Connection.Socket.{ConnectReply, reconnect_socket}

-- `for (char *c = headers->buffer; c < headers->cursor; )` of script_response, from index `c` on:
-- each name and content goes into the table by lua_rawset. Two strings take at least two bytes, so
-- `used + 1` rounds are enough.
pub header_loop : ℕ → Buffer → ℕ → HeaderTable → Option HeaderTable
unfolding raw_set_string
header_loop zero b c t = none
header_loop (suc fuel) b c t =
    let more = (do
      (name, c') ← buffer_pushlstring b c
      (content, c'') ← buffer_pushlstring b c'
      header_loop fuel b c'' (raw_set_string name content t)) in
    if ltb c b.used then more else some t

pub response_headers : Buffer → Option HeaderTable
unfolding header_loop new_header_table
response_headers b = header_loop (b.used + 1) b 0 new_header_table

-- `script_response`, up to the call of the Lua function, which is recorded.
unfoldable pub call_response : ℕ → World → World
unfolding response_headers
call_response status w =
    emit (with_conn w (record c { headers = buffer_reset c.headers; body = buffer_reset c.body }))
      (script_response status (response_headers c.headers) (take c.body.used c.body.bytes) ∷ [])
  where
    c : Connection
    c = w.conn

-- `if (c->state == VALUE)` of header_field, and `if (c->state == FIELD)` of header_value.
enter_field : HeaderState → Connection → Connection
enter_field value c = record c { headers = push_nul c.headers; state = field }
enter_field field c = c

enter_value : HeaderState → Connection → Connection
enter_value field c = record c { headers = push_nul c.headers; state = value }
enter_value value c = c

module _ (junk : ℕ → ℕ) where
  append_headers : Bytes → Connection → Connection
  append_headers at c = record c { headers = buffer_append junk c.headers at }

  unfoldable pub header_field : Bytes → Connection → Connection
  unfolding append_headers enter_field
  header_field at c = append_headers at (enter_field c.state c)

  unfoldable pub header_value : Bytes → Connection → Connection
  unfolding append_headers enter_value
  header_value at c = append_headers at (enter_value c.state c)

  unfoldable pub response_body : Bytes → Connection → Connection
  response_body at c = record c { body = buffer_append junk c.body at }

-- `if (c->headers.buffer)`: the pointer is NULL until the first append.
pub has_buffer : Buffer → Bool
has_buffer b = not (b.size == 0)

-- What response_complete reads from outside: the clock, the parser, and the answers to a reconnect.
pub record Completion : Type 0 where
  pub now : ℕ
  pub status : ℕ
  pub keep_alive : Bool
  pub reply : ConnectReply

-- `thread->complete++; thread->requests++;` and the count of statuses above 399.
unfoldable pub count_response : Completion → World → World
count_response k w = record w { thread = if ltb 399 k.status then status_error t else t }
  where
    t : Thread
    t = record (w.thread) { complete = inc64 w.thread.complete; requests = inc64 w.thread.requests }

start_headers : Connection → Connection
start_headers c = record c { state = field }

-- The headers and the body go to the script.
unfoldable pub hand_over : Completion → World → World
unfolding has_buffer call_response start_headers
hand_over k w =
    let w' = call_response k.status (with_conn w (record c { headers = push_nul c.headers })) in
    if has_buffer c.headers then with_conn w' (start_headers w'.conn) else w
  where
    c : Connection
    c = w.conn

-- `if (--c->pending == 0)`: the latency is recorded and the next request scheduled.
unfoldable pub finish_batch : Config → Completion → World → World
finish_batch cfg k w =
    let pending' = (w.conn.pending + u64 - 1) % u64 in
    let r = stats_record w.latency ((k.now + u64 - w.conn.start) % u64) in
    let w' = with_conn w (record c { pending = pending' }) in
    let done =
      emit
        (record w {
          latency = r.1;
          thread = if r.0 == 0 then timeout_error w.thread else w.thread;
          conn = record c { pending = pending'; delayed = cfg.delay };
        })
        (create_file_event w.conn.fd writable socket_writeable ∷ []) in
    if pending' == 0 then done else w'
  where
    c : Connection
    c = w.conn

unfoldable pub response_complete : Config → Completion → World → World
response_complete cfg k w =
    let w' = finish_batch cfg k (hand_over k (count_response k w)) in
    if k.keep_alive then emit w' (parser_init ∷ []) else (reconnect_socket k.reply w').1
