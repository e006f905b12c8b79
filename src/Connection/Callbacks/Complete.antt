-- ===== src/Connection/Callbacks/Complete.antt =====
-- response_complete of src/wrk.c: the counters, and one latency sample for each batch of requests.
use wrk_offloadenginesupport.Prelude.{
  ℕ, zero, suc, ◌+◌, ◌-◌, ◌%◌, ◌<◌, ◌≡◌, ap, ap₂, sym, subst, ◌∙◌, Bool, true, List, [], ◌∷◌, ◌++◌,
  u64, length, arith, ltb, if◌then◌else◌, ◌==◌,
}
use wrk_offloadenginesupport.Stats.{stats_record}
use wrk_offloadenginesupport.Connection.{
  World, Config, Connection, Thread, Call, emit, parser_init, inc64, inc32, status_error,
  timeout_error,
}
use wrk_offloadenginesupport.Connection.Socket.{reconnect_socket}
use wrk_offloadenginesupport.Connection.Callbacks.{
  Completion, count_response, hand_over, finish_batch, response_complete,
}

-- The time from the start of the batch, as the code computes it.
abbrev pub elapsed : Completion → ℕ → ℕ
elapsed k start = (k.now + u64 - start) % u64

-- What one response on a connection that is kept alive does to the counters, when `p` more are due.
pub record Counted (k : Completion) (p : ℕ) (w w' : World) : Type 0 where
  pub complete : w'.thread.complete ≡ inc64 w.thread.complete
  pub requests : w'.thread.requests ≡ inc64 w.thread.requests
  pub status :
      w'.thread.errors.status
      ≡ (if ltb 399 k.status then inc32 w.thread.errors.status else w.thread.errors.status)
  pub pending : w'.conn.pending ≡ p
  pub start : w'.conn.start ≡ w.conn.start
  pub fd : w'.conn.fd ≡ w.conn.fd
  pub bytes : w'.thread.bytes ≡ w.thread.bytes
  pub rate : w'.rate ≡ w.rate

-- The latency histogram and the count of timeouts, when no response is due any more and when one is.
abbrev pub Sampled : Completion → ℕ → World → World → Type 0
Sampled k zero w w' =
    (w'.latency ≡ (stats_record w.latency (elapsed k w.conn.start)).1)
    × (w'.thread.errors.timeout ≡ (
        if (stats_record w.latency (elapsed k w.conn.start)).0 == 0
        then inc32 w.thread.errors.timeout
        else w.thread.errors.timeout))
Sampled k (suc p) w w' =
    (w'.latency ≡ w.latency) × (w'.thread.errors.timeout ≡ w.thread.errors.timeout)

pub hand_over-same :
    (k : Completion) (w : World)
    → ((hand_over k w).thread ≡ w.thread)
      × ((hand_over k w).latency ≡ w.latency)
      × ((hand_over k w).rate ≡ w.rate)
      × ((hand_over k w).conn.pending ≡ w.conn.pending)
      × ((hand_over k w).conn.start ≡ w.conn.start)
      × ((hand_over k w).conn.fd ≡ w.conn.fd)
unfolding hand_over
hand_over-same k w = ground arith

-- What finish_batch leaves of the counters: only the errors of timeout may grow.
record Kept (p : ℕ) (w w' : World) : Type 0 where
  complete : w'.thread.complete ≡ w.thread.complete
  requests : w'.thread.requests ≡ w.thread.requests
  status : w'.thread.errors.status ≡ w.thread.errors.status
  pending : w'.conn.pending ≡ p
  start : w'.conn.start ≡ w.conn.start
  fd : w'.conn.fd ≡ w.conn.fd
  bytes : w'.thread.bytes ≡ w.thread.bytes
  rate : w'.rate ≡ w.rate

finish_batch-Kept :
    (cfg : Config) (k : Completion) (w : World) (p : ℕ)
    → w.conn.pending ≡ suc p
    → suc p < u64
    → Kept p w (finish_batch cfg k w)
unfolding finish_batch timeout_error
finish_batch-Kept cfg k w p e room = ground arith

finish_batch-Sampled :
    (cfg : Config) (k : Completion) (w : World) (p : ℕ)
    → w.conn.pending ≡ suc p
    → suc p < u64
    → Sampled k p w (finish_batch cfg k w)
unfolding finish_batch timeout_error
finish_batch-Sampled cfg k w zero e room = ground arith
finish_batch-Sampled cfg k w (suc p) e room = ground arith

pub count_response-same :
    (k : Completion) (w : World)
    → let v = count_response k w in
      (v.thread.complete ≡ inc64 w.thread.complete)
      × (v.thread.requests ≡ inc64 w.thread.requests)
      × (v.thread.errors.status
          ≡ (if ltb 399 k.status then inc32 w.thread.errors.status else w.thread.errors.status))
      × (v.thread.errors.timeout ≡ w.thread.errors.timeout)
      × (v.thread.bytes ≡ w.thread.bytes)
      × (v.conn ≡ w.conn)
      × (v.latency ≡ w.latency)
      × (v.rate ≡ w.rate)
unfolding count_response status_error
count_response-same k w = ground arith

-- What the steps before finish_batch leave alone of what it reads.
record Before (k : Completion) (w v : World) : Type 0 where
  latency : v.latency ≡ w.latency
  timeout : v.thread.errors.timeout ≡ w.thread.errors.timeout
  start : v.conn.start ≡ w.conn.start

Sampled-Before :
    (k : Completion) (p : ℕ) (w v u : World) → Before k w v → Sampled k p v u → Sampled k p w u
Sampled-Before k zero w v u b (lat, out) = (
  lat ∙ ap₂ (λ l s. (stats_record l (elapsed k s)).1) b.latency b.start,
  out
      ∙ ap₂
          (λ l s.
            if (stats_record l (elapsed k s)).0 == 0
            then inc32 v.thread.errors.timeout
            else v.thread.errors.timeout)
          b.latency b.start
      ∙ ap
          (λ (t : ℕ).
            if (stats_record w.latency (elapsed k w.conn.start)).0 == 0 then inc32 t else t)
          b.timeout,
)
Sampled-Before k (suc p) w v u b (lat, out) = (lat ∙ b.latency, out ∙ b.timeout)

emit-Counted :
    (k : Completion) (p : ℕ) (w v : World) (cs : List Call)
    → Counted k p w v
    → Counted k p w (emit v cs)
emit-Counted k p w v cs c = record {
  complete = c.complete;
  requests = c.requests;
  status = c.status;
  pending = c.pending;
  start = c.start;
  fd = c.fd;
  bytes = c.bytes;
  rate = c.rate;
}

emit-Sampled :
    (k : Completion) (p : ℕ) (w v : World) (cs : List Call)
    → Sampled k p w v
    → Sampled k p w (emit v cs)
emit-Sampled k zero w v cs s = s
emit-Sampled k (suc p) w v cs s = s

pub alive-lem :
    (cfg : Config) (k : Completion) (w : World)
    → k.keep_alive ≡ true
    → response_complete cfg k w
      ≡ emit (finish_batch cfg k (hand_over k (count_response k w))) (parser_init ∷ [])
unfolding response_complete
alive-lem cfg k w alive =
    let v : World = finish_batch cfg k (hand_over k (count_response k w)) in
    ap (λ (b : Bool). if b then emit v (parser_init ∷ []) else (reconnect_socket k.reply v).1) alive

-- A response on a connection that is kept alive, with `p` more (fewer than 2^64 - 1) due after it:
-- the completed and the pending requests are counted, a status above 399 is an error, and the
-- latency of the batch is recorded exactly when none is due any more (a sample out of range is a
-- timeout).
pub response_complete-Counted :
    (cfg : Config) (k : Completion) (w : World) (p : ℕ)
    → k.keep_alive ≡ true
    → w.conn.pending ≡ suc p
    → suc p < u64
    → Counted k p w (response_complete cfg k w) × Sampled k p w (response_complete cfg k w)
response_complete-Counted cfg k w p alive e room =
    let v : World = hand_over k (count_response k w) in
    let (c, r, s, t, b, conn, lat, rate) = count_response-same k w in
    let (same, lat', rate', pend, start, fd) = hand_over-same k (count_response k w) in
    let due : v.conn.pending ≡ suc p = pend ∙ ap (λ (x : Connection). x.pending) conn ∙ e in
    let kept = finish_batch-Kept cfg k v p due room in
    let before : Before k w v = record {
      latency = lat' ∙ lat;
      timeout = ap (λ (x : Thread). x.errors.timeout) same ∙ t;
      start = start ∙ ap (λ (x : Connection). x.start) conn;
    } in
    let counted : Counted k p w (finish_batch cfg k v) = record {
      complete = kept.complete ∙ ap (λ (x : Thread). x.complete) same ∙ c;
      requests = kept.requests ∙ ap (λ (x : Thread). x.requests) same ∙ r;
      status = kept.status ∙ ap (λ (x : Thread). x.errors.status) same ∙ s;
      pending = kept.pending;
      start = kept.start ∙ start ∙ ap (λ (x : Connection). x.start) conn;
      fd = kept.fd ∙ fd ∙ ap (λ (x : Connection). x.fd) conn;
      bytes = kept.bytes ∙ ap (λ (x : Thread). x.bytes) same ∙ b;
      rate = kept.rate ∙ rate' ∙ rate;
    } in
    let u : World = emit (finish_batch cfg k v) (parser_init ∷ []) in
    let sampled : Sampled k p w (finish_batch cfg k v) =
      Sampled-Before k p w v (finish_batch cfg k v) before
        (finish_batch-Sampled cfg k v p due room) in
    subst (λ (x : World). Counted k p w x × Sampled k p w x) (sym (alive-lem cfg k w alive))
      (
        emit-Counted k p w (finish_batch cfg k v) (parser_init ∷ []) counted,
        emit-Sampled k p w (finish_batch cfg k v) (parser_init ∷ []) sampled,
      )

-- The responses of a batch, one after another.
pub complete_all : Config → List Completion → World → World
complete_all cfg [] w = w
complete_all cfg (k ∷ ks) w = complete_all cfg ks (response_complete cfg k w)

abbrev pub AllAlive : List Completion → Type 0
AllAlive [] = Unit {0}
AllAlive (k ∷ ks) = (k.keep_alive ≡ true) × AllAlive ks

-- On a connection that is kept alive throughout, a batch of requests (fewer than 2^64) gives one
-- latency sample, however many responses it has: the time from its start to its last response. All
-- its responses are counted, and none is due at its end.
pub batch_one_sample :
    (cfg : Config) (ks : List Completion) (k : Completion) (w : World)
    → AllAlive ks
    → k.keep_alive ≡ true
    → w.conn.pending ≡ suc (length ks)
    → suc (length ks) < u64
    → w.thread.complete < u64
    → let w' = complete_all cfg (ks ++ k ∷ []) w in
      (w'.latency ≡ (stats_record w.latency (elapsed k w.conn.start)).1)
      × (w'.conn.pending ≡ 0)
      × (w'.thread.complete ≡ (w.thread.complete + suc (length ks)) % u64)
unfolding complete_all
batch_one_sample cfg [] k w alive last due room small =
    let (c, s) = response_complete-Counted cfg k w 0 last due room in (s.0, c.pending, c.complete)
batch_one_sample cfg (j ∷ ks) k w alive last due room small =
    let w' : World = response_complete cfg j w in
    let (c, s) = response_complete-Counted cfg j w (suc (length ks)) alive.0 due room in
    let ih =
      batch_one_sample cfg ks k w' alive.1 last c.pending (omega arith)
        (omega (arith, c.complete)) in
    (
      ih.0 ∙ ap₂ (λ l t. (stats_record l (elapsed k t)).1) s.0 c.start,
      ih.1,
      omega (arith, ih.2, c.complete),
    )
