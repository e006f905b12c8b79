-- ===== src/Main.antt =====
-- src/wrk.c, main: what it makes of the threads' counters and of the latency histogram when they have
-- ended.
pub mod Chains
pub mod Start
pub mod Run
mod Tests
use wrk_offloadenginesupport.Prelude.{
  ℕ, ◌+◌, ◌*◌, ◌/◌, ◌%◌, ◌≤◌, ◌<◌, ◌≡◌, refl, ◌∙◌, Option, some, List, [], ◌∷◌, u32, u64, ltb,
  length, arith, if◌then◌else◌, Bool-cases, inl, inr, ◌⊎◌, true, false, dec_lt, lt→ltb,
}
use native.Mathlib.Nat.{div-eq-sub-div}
use wrk_offloadenginesupport.Stats.{Stats, bucket, stats_correct}
use wrk_offloadenginesupport.Stats.Backfill.{Corrected, stats_correct-Corrected}
use wrk_offloadenginesupport.Connection.{Thread, Errors}

-- The variables `complete`, `bytes` and `errors` of main.
pub record Totals : Type 0 where
  pub complete : ℕ
  pub bytes : ℕ
  pub errors : Errors

abbrev pub zeros : Totals
zeros = record {
  complete = 0;
  bytes = 0;
  errors = record { connect = 0; read = 0; write = 0; status = 0; timeout = 0 };
}

add_errors : Errors → Errors → Errors
add_errors a e = record {
  connect = (a.connect + e.connect) % u32;
  read = (a.read + e.read) % u32;
  write = (a.write + e.write) % u32;
  status = (a.status + e.status) % u32;
  timeout = (a.timeout + e.timeout) % u32;
}

-- One round of the loop over the threads.
add_thread : Totals → Thread → Totals
unfolding add_errors
add_thread a t = record {
  complete = (a.complete + t.complete) % u64;
  bytes = (a.bytes + t.bytes) % u64;
  errors = add_errors a.errors t.errors;
}

pub add_threads : Totals → List Thread → Totals
unfolding add_thread
add_threads a [] = a
add_threads a (t ∷ ts) = add_threads (add_thread a t) ts

-- `time_us`, of what gettimeofday gives.
unfoldable pub time_us : ℕ → ℕ → ℕ
time_us seconds microseconds = (seconds * 1000000 + microseconds) % u64

-- `if (complete / cfg.connections > 0)` and what follows; parse_args refuses 0 connections.
pub correct_latency : ℕ → Stats → ℕ → ℕ → ℕ → Option Stats
correct_latency fuel latency complete connections runtime_us =
    let corrected = stats_correct fuel latency (runtime_us / (complete / connections)) in
    if ltb 0 (complete / connections) then corrected else some latency

-- The sum of a counter over all threads.
abbrev pub over_all : (Thread → ℕ) → List Thread → ℕ
over_all f [] = 0
over_all f (t ∷ ts) = f t + over_all f ts

pub record Summed (a : Totals) (ts : List Thread) (b : Totals) : Type 0 where
  pub complete : b.complete ≡ (a.complete + over_all (λ t. t.complete) ts) % u64
  pub bytes : b.bytes ≡ (a.bytes + over_all (λ t. t.bytes) ts) % u64
  pub connect : b.errors.connect ≡ (a.errors.connect + over_all (λ t. t.errors.connect) ts) % u32
  pub read : b.errors.read ≡ (a.errors.read + over_all (λ t. t.errors.read) ts) % u32
  pub write : b.errors.write ≡ (a.errors.write + over_all (λ t. t.errors.write) ts) % u32
  pub status : b.errors.status ≡ (a.errors.status + over_all (λ t. t.errors.status) ts) % u32
  pub timeout : b.errors.timeout ≡ (a.errors.timeout + over_all (λ t. t.errors.timeout) ts) % u32

record Small (a : Totals) : Type 0 where
  complete : a.complete < u64
  bytes : a.bytes < u64
  connect : a.errors.connect < u32
  read : a.errors.read < u32
  write : a.errors.write < u32
  status : a.errors.status < u32
  timeout : a.errors.timeout < u32

add_thread-Small : (a : Totals) (t : Thread) → Small (add_thread a t)
unfolding add_thread
add_thread-Small a t = record {
  complete = omega arith;
  bytes = omega arith;
  connect = omega arith;
  read = omega arith;
  write = omega arith;
  status = omega arith;
  timeout = omega arith;
}

add_threads-Summed_from : (a : Totals) (ts : List Thread) → Small a → Summed a ts (add_threads a ts)
unfolding add_threads
add_threads-Summed_from a [] s = record {
  complete = omega (arith, s.complete);
  bytes = omega (arith, s.bytes);
  connect = omega (arith, s.connect);
  read = omega (arith, s.read);
  write = omega (arith, s.write);
  status = omega (arith, s.status);
  timeout = omega (arith, s.timeout);
}
add_threads-Summed_from a (t ∷ ts) s =
    let q = add_threads-Summed_from (add_thread a t) ts (add_thread-Small a t) in
    record {
      complete = q.complete ∙ omega arith;
      bytes = q.bytes ∙ omega arith;
      connect = q.connect ∙ omega arith;
      read = q.read ∙ omega arith;
      write = q.write ∙ omega arith;
      status = q.status ∙ omega arith;
      timeout = q.timeout ∙ omega arith;
    }

-- The totals that main prints are the sums of the threads' counters: of the responses and the bytes
-- modulo 2^64, of each kind of error modulo 2^32.
pub add_threads-Summed : (ts : List Thread) → Summed zeros ts (add_threads zeros ts)
add_threads-Summed ts = add_threads-Summed_from zeros ts (record {
  complete = omega arith;
  bytes = omega arith;
  connect = omega arith;
  read = omega arith;
  write = omega arith;
  status = omega arith;
  timeout = omega arith;
})

-- What main's correction is: none where a connection has completed less than one request, and else
-- that for the mean time between two requests on a connection.
abbrev pub Adjusted : Stats → ℕ → ℕ → Option Stats → Type 0
Adjusted latency each runtime_us out =
    ((each ≡ 0) × (out ≡ some latency)) ⊎ ((0 < each) × Corrected latency (runtime_us / each) out)

interval-pos : (runtime_us each : ℕ) → 0 < each → each ≤ runtime_us → 0 < runtime_us / each
interval-pos runtime_us each p h = omega (arith, div-eq-sub-div {m = each} {n = runtime_us} p h)

-- The correction of the latencies in main ends, and does what stats_correct promises, on a histogram
-- whose largest sample is in range and whose counts are below 2^64, with as much fuel as it has
-- buckets, provided that no connection has completed more than one request in each microsecond of
-- the run (`each` is the number of requests for each connection).
pub correct_latency-Adjusted :
    (fuel : ℕ) (latency : Stats) (complete connections runtime_us : ℕ)
    → complete / connections ≤ runtime_us
    → latency.max < length latency.buckets
    → length latency.buckets ≤ fuel
    → ((v : ℕ) → bucket latency.buckets v < u64)
    → Adjusted latency
        (complete / connections)
        runtime_us
        (correct_latency fuel latency complete connections runtime_us)
unfolding correct_latency
correct_latency-Adjusted fuel latency complete connections runtime_us slow inside enough words =
    elim (dec_lt 0 (complete / connections)) [
      | yes some_done ↦
          let t : ltb 0 (complete / connections) ≡ true =
            lt→ltb 0 (complete / connections) some_done in
          rw t (
            inr (
              some_done,
              stats_correct-Corrected fuel latency (runtime_us / (complete / connections))
                  (interval-pos runtime_us (complete / connections) some_done slow) inside enough
                  words,
            ))
      | no none_done ↦
          let t : ltb 0 (complete / connections) ≡ false = ground arith in
          rw t (inl (omega arith, refl))
    ]
