-- ===== src/Stats/Atomic.antt =====
-- stats_record of src/stats.c, run by several threads at once: the loop that keeps the minimum, one
-- atomic operation at a time. The loop for the maximum is the same, turned around.
mod Tests
use wrk_offloadenginesupport.Prelude.{
  ℕ, zero, suc, ◌≤◌, ◌<◌, ◌≡◌, refl, ◌∙◌, ◌⊎◌, inl, inr, List, [], ◌∷◌, ltb, ◌==◌, if◌then◌else◌,
  arith, min, Bool-cases, ltb→lt, ap, true, false,
}

-- A thread in the loop: the sample that it records, and its local copy of `stats->min`.
pub record Worker : Type 0 where
  pub sample : ℕ
  pub seen : ℕ

-- `__sync_val_compare_and_swap(&stats->min, seen, sample)`: what the cell holds afterwards.
abbrev pub swapped : ℕ → Worker → ℕ
swapped cell w = if cell == w.seen then w.sample else cell

-- The `i`-th thread tests `n < min`, and swaps if that holds.
pub advance : ℕ → ℕ → List Worker → ℕ × List Worker
advance i cell [] = (cell, [])
advance zero cell (w ∷ ws) =
    if ltb w.sample w.seen then (swapped cell w, record w { seen = cell } ∷ ws) else (cell, w ∷ ws)
advance (suc i) cell (w ∷ ws) = let (cell', ws') = advance i cell ws in (cell', w ∷ ws')

-- What happens next: a thread begins to record a sample, by reading the minimum, or one advances.
pub data Event : Type 0 where
  begins : ℕ → Event
  advances : ℕ → Event

pub run : List Event → ℕ × List Worker → ℕ × List Worker
unfolding advance
run [] st = st
run (begins n ∷ es) (cell, ws) = run es (cell, record { sample = n; seen = cell } ∷ ws)
run (advances i ∷ es) (cell, ws) = run es (advance i cell ws)

-- All threads have left the loop.
abbrev pub Done : List Worker → Type 0
Done [] = Unit {0}
Done (w ∷ ws) = (w.seen ≤ w.sample) × Done ws

-- The smallest of a number and the samples that threads have begun to record.
abbrev pub lowest : ℕ → List Event → ℕ
lowest a [] = a
lowest a (begins n ∷ es) = lowest (min n a) es
lowest a (advances i ∷ es) = lowest a es

-- The smallest of the first minimum and the samples of the threads.
abbrev least : ℕ → List Worker → ℕ
least c [] = c
least c (w ∷ ws) = min w.sample (least c ws)

-- No thread has seen less than the cell holds.
abbrev Below : ℕ → List Worker → Type 0
Below cell [] = Unit {0}
Below cell (w ∷ ws) = (cell ≤ w.seen) × Below cell ws

Below-le : (a b : ℕ) (ws : List Worker) → a ≤ b → Below b ws → Below a ws
Below-le a b [] h q = tt
Below-le a b (w ∷ ws) h q = (omega (arith, q.0), Below-le a b ws h q.1)

record Advanced (c cell : ℕ) (ws : List Worker) (out : ℕ × List Worker) : Type 0 where
  sinks : out.0 ≤ cell
  below : Below out.0 out.1
  same : least c out.1 ≡ least c ws
  source : (out.0 ≡ cell) ⊎ (least c ws ≤ out.0)

advance-Advanced :
    (c i cell : ℕ) (ws : List Worker) → Below cell ws → Advanced c cell ws (advance i cell ws)
unfolding advance
advance-Advanced c i cell [] q = record {
  sinks = omega arith;
  below = tt;
  same = refl;
  source = inl refl;
}
advance-Advanced c zero cell (w ∷ ws) (q, qs) = elim (Bool-cases (ltb w.sample w.seen)) [
  | inl smaller ↦
      let lt : w.sample < w.seen = ltb→lt w.sample w.seen smaller in
      let sinks : swapped cell w ≤ cell = ground arith in
      rw smaller (record {
        sinks = sinks;
        below = (sinks, Below-le (swapped cell w) cell ws sinks qs);
        same = refl;
        source = ground arith;
      })
  | inr stop ↦
      rw stop (record { sinks = omega arith; below = (q, qs); same = refl; source = inl refl })
]
advance-Advanced c (suc i) cell (w ∷ ws) (q, qs) =
    let a = advance-Advanced c i cell ws qs in
    record {
      sinks = a.sinks;
      below = (omega (arith, a.sinks), a.below);
      same = ap (min w.sample) a.same;
      source = omega (arith, a.source);
    }

Done-least :
    (c cell : ℕ) (ws : List Worker) → cell ≤ c → Below cell ws → Done ws → cell ≤ least c ws
Done-least c cell [] h q d = h
Done-least c cell (w ∷ ws) h q d = omega (arith, q.0, d.0, Done-least c cell ws h q.1 d.1)

run-lowest :
    (c : ℕ) (es : List Event) (cell : ℕ) (ws : List Worker)
    → cell ≤ c
    → least c ws ≤ cell
    → Below cell ws
    → Done (run es (cell, ws)).1
    → (run es (cell, ws)).0 ≡ lowest (least c ws) es
unfolding run
run-lowest c [] cell ws h low q d = omega (arith, Done-least c cell ws h q d)
run-lowest c (begins n ∷ es) cell ws h low q d =
    run-lowest c es cell (record { sample = n; seen = cell } ∷ ws) h (omega arith) (omega arith, q)
      d
run-lowest c (advances i ∷ es) cell ws h low q d =
    let (cell', ws') = advance i cell ws in
    let a = advance-Advanced c i cell ws q in
    run-lowest c es cell' ws' (omega (arith, a.sinks)) (omega (arith, a.same, a.source)) a.below d
    ∙ ap (λ (k : ℕ). lowest k es) a.same

-- However the atomic operations of any number of threads interleave, when all threads have left the
-- loop the cell holds the smallest of its first value and all the samples that were recorded: no
-- update is lost.
pub run-minimum :
    (c : ℕ) (es : List Event) → Done (run es (c, [])).1 → (run es (c, [])).0 ≡ lowest c es
run-minimum c es d = run-lowest c es c [] (omega arith) (omega arith) tt d
