-- ===== src/Connection/Batch.antt =====
-- What src/wrk.c counts and times of the batches of one connection, as an abstract machine: the
-- responses that are due, the request and the bytes of it that are written, the start of the batch,
-- the latencies and the completed requests. The handlers of the model implement it.
pub mod Reading
pub mod Exchange
mod Tests
use wrk_offloadenginesupport.Prelude.{
  Bytes, ℕ, ◌+◌, ◌-◌, ◌%◌, ◌≡◌, refl, ap, sym, subst, ◌∙◌, Bool, true, false, List, [], ◌∷◌, ◌++◌,
  u64, arith, if◌then◌else◌, ◌==◌,
}
use wrk_offloadenginesupport.Stats.{Stats, stats_record}
use wrk_offloadenginesupport.Connection.{
  World, Config, Connection, Thread, inc64, connect_error, read_error, timeout_error, status_error,
  emit, parser_init,
}
use wrk_offloadenginesupport.Connection.Socket.{
  ConnectReply, ConnectAnswer, connected, in_progress, failed, connect_socket, reconnect_socket,
}
use wrk_offloadenginesupport.Connection.Callbacks.{
  Completion, count_response, hand_over, finish_batch, response_complete,
}

pub record Batch : Type 0 where
  pub due : ℕ
  pub written : ℕ
  pub request : Bytes
  pub start : ℕ
  pub latency : Stats
  pub complete : ℕ

abbrev pub batch_of : World → Batch
batch_of w = record {
  due = w.conn.pending;
  written = w.conn.written;
  request = w.conn.request;
  start = w.conn.start;
  latency = w.latency;
  complete = w.thread.complete;
}

-- A response: one is due no more, and the last one gives the latency of the batch.
abbrev pub respond : Completion → Batch → Batch
respond k b = record b {
  due = (b.due + u64 - 1) % u64;
  complete = inc64 b.complete;
  latency =
      if (b.due + u64 - 1) % u64 == 0
      then (stats_record b.latency ((k.now + u64 - b.start) % u64)).1
      else b.latency;
}

abbrev pub respond_all : List Completion → Batch → Batch
respond_all [] b = b
respond_all (k ∷ ks) b = respond_all ks (respond k b)

connect-batch :
    (fd : ℕ) (answer : ConnectAnswer) (ok : Bool) (w : World)
    → batch_of (connect_socket (record { fd = fd; answer = answer; registered = ok }) w).1
      ≡ batch_of w
unfolding connect_socket connect_error
connect-batch fd connected true w = refl
connect-batch fd connected false w = refl
connect-batch fd in_progress true w = refl
connect-batch fd in_progress false w = refl
connect-batch fd failed ok w = refl

-- A connection that is made again keeps its batch.
pub reconnect_socket-batch :
    (r : ConnectReply) (w : World) → batch_of (reconnect_socket r w).1 ≡ batch_of w
unfolding reconnect_socket
reconnect_socket-batch r w = connect-batch r.fd r.answer r.registered (emit w _)

count_response-batch :
    (k : Completion) (w : World)
    → batch_of (count_response k w) ≡ record (batch_of w) { complete = inc64 w.thread.complete }
unfolding count_response status_error
count_response-batch k w = ground arith

hand_over-batch : (k : Completion) (w : World) → batch_of (hand_over k w) ≡ batch_of w
unfolding hand_over
hand_over-batch k w = ground arith

-- finish_batch, on what it reads of the world.
abbrev finished : Completion → Batch → Batch
finished k b = record (respond k b) { complete = b.complete }

finish_batch-batch :
    (cfg : Config) (k : Completion) (w : World)
    → batch_of (finish_batch cfg k w) ≡ finished k (batch_of w)
unfolding finish_batch timeout_error
finish_batch-batch cfg k w = ground arith

pub either-batch :
    (c : Bool) (u v : World) (b : Batch)
    → batch_of u ≡ b
    → batch_of v ≡ b
    → batch_of (if c then u else v) ≡ b
either-batch true u v b p q = p
either-batch false u v b p q = q

pub response_complete-respond :
    (cfg : Config) (k : Completion) (w : World)
    → batch_of (response_complete cfg k w) ≡ respond k (batch_of w)
unfolding response_complete
response_complete-respond cfg k w =
    let u = hand_over k (count_response k w) in
    let v = finish_batch cfg k u in
    let e : batch_of v ≡ respond k (batch_of w) =
      finish_batch-batch cfg k u
      ∙ ap (finished k) (hand_over-batch k (count_response k w) ∙ count_response-batch k w) in
    either-batch k.keep_alive (emit v (parser_init ∷ [])) (reconnect_socket k.reply v).1 _ e
      (reconnect_socket-batch k.reply v ∙ e)
