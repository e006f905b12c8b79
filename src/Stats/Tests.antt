-- ===== src/Stats/Tests.antt =====
-- Runs of src/stats.c, and the theorems about it at concrete inputs.
use wrk_offloadenginesupport.Prelude.{
  ℕ, zero, suc, ◌+◌, ◌%◌, ◌≡◌, ◌≤◌, ◌<◌, ◌↔◌, refl, none, some, List, [], ◌∷◌, u64, length,
  get_elem?, arith,
}
use wrk_offloadenginesupport.Stats.{
  Stats, bucket, rounds, stats_alloc, stats_record, swap_min, swap_max, stats_popcount,
  stats_value_at, stats_correct, percentile_at, sum_loop,
}
use wrk_offloadenginesupport.Stats.Samples.{Represents, times, sum, under, minimum}
use wrk_offloadenginesupport.Stats.Record.{kept, record_all, record_all-Represents}
use wrk_offloadenginesupport.Stats.Queries.{sum_loop-sum, percentile_at-rank}
use wrk_offloadenginesupport.Stats.Values.{values, Occurs, Ascending, answer, stats_value_at-values}
use wrk_offloadenginesupport.Stats.Backfill.{
  Corrected, stats_correct-Corrected, stats_correct-diverges, stats_correct-loses_minimum,
}

abbrev three : Stats
three = record {
  count = 3;
  limit = 11;
  min = 2;
  max = 9;
  buckets = 0 ∷ 0 ∷ 2 ∷ 0 ∷ 0 ∷ 0 ∷ 0 ∷ 0 ∷ 0 ∷ 1 ∷ 0 ∷ [];
}

abbrev samples : List ℕ
samples = 2 ∷ 2 ∷ 9 ∷ []

-- One sample of 9, above a minimum of 9.
abbrev lone : Stats
lone = record three { count = 1; min = 9; buckets = 0 ∷ 0 ∷ 0 ∷ 0 ∷ 0 ∷ 0 ∷ 0 ∷ 0 ∷ 0 ∷ 1 ∷ 0 ∷ [] }

abbrev lone_filled : Stats
lone_filled = record lone { count = 4; buckets = 0 ∷ 0 ∷ 0 ∷ 1 ∷ 0 ∷ 1 ∷ 0 ∷ 1 ∷ 0 ∷ 1 ∷ 0 ∷ [] }

record_runs : (stats_record (stats_record (stats_record (stats_alloc 10) 9).1 2).1 2).1 ≡ three
unfolding stats_alloc stats_record swap_min swap_max
record_runs = refl

value_runs : stats_value_at three 1 ≡ (9, 1)
unfolding stats_value_at
value_runs = refl

popcount_runs : stats_popcount three ≡ 2
unfolding stats_popcount
popcount_runs = refl

sum_runs : sum_loop three.buckets (rounds three) three.min 0 ≡ 13
unfolding sum_loop
sum_runs = refl

correct_runs : stats_correct 11 lone 2 ≡ some lone_filled
unfolding stats_correct
correct_runs = refl

-- Half of the four samples of the filled histogram are at most 5, but the search starts at 9, and
-- with the rank of 2 it ends with 0.
percentile_of_filled : percentile_at lone_filled 2 ≡ 0
unfolding percentile_at
percentile_of_filled = refl

three-Represents : Represents three samples
unfolding record_all stats_alloc stats_record swap_min swap_max
three-Represents = record_all-Represents 10 (9 ∷ 2 ∷ 2 ∷ []) (omega arith) (omega arith)

record_all-Represents_example :
    Represents (record_all (stats_alloc 10) (9 ∷ 12 ∷ 2 ∷ [])) (kept 11 (9 ∷ 12 ∷ 2 ∷ []) [])
record_all-Represents_example =
    record_all-Represents 10 (9 ∷ 12 ∷ 2 ∷ []) (omega arith) (omega arith)

sum_loop-sum_example : sum_loop three.buckets (rounds three) three.min 0 ≡ sum samples % u64
sum_loop-sum_example = sum_loop-sum three samples three-Represents

percentile_at-rank_example :
    let v = percentile_at three 3 in (under v samples < 3) × (3 ≤ under (v + 1) samples)
percentile_at-rank_example =
    percentile_at-rank three samples 3 three-Represents (omega arith) (omega arith) (omega arith)

stats_value_at-values_example :
    (stats_value_at three 1
      ≡ answer samples (length (values samples)) (get_elem? (values samples) 1))
    × Ascending (minimum samples) (values samples)
    × ((v : ℕ) → Occurs v (values samples) ↔ (0 < times v samples))
stats_value_at-values_example = stats_value_at-values three samples 1 three-Represents

abbrev AreWords : List ℕ → Type 0
AreWords [] = Unit {0}
AreWords (x ∷ b) = (x < u64) × AreWords b

bucket-lt : (b : List ℕ) (v : ℕ) → AreWords b → bucket b v < u64
bucket-lt [] v h = omega arith
bucket-lt (x ∷ b) zero h = h.0
bucket-lt (x ∷ b) (suc v) h = bucket-lt b v h.1

lone_words : (v : ℕ) → bucket lone.buckets v < u64
lone_words v = bucket-lt lone.buckets v (omega arith)

stats_correct-Corrected_example : Corrected lone 2 (stats_correct 11 lone 2)
stats_correct-Corrected_example =
    stats_correct-Corrected 11 lone 2 (omega arith) (omega arith) (omega arith) lone_words

stats_correct-diverges_example : stats_correct 1000 three 0 ≡ none
stats_correct-diverges_example =
    stats_correct-diverges 1000 three 9 (omega arith) (omega arith) (omega arith)

stats_correct-loses_minimum_example : ¬ Represents lone_filled (3 ∷ 5 ∷ 7 ∷ 9 ∷ [])
unfolding stats_correct
stats_correct-loses_minimum_example =
    stats_correct-loses_minimum 11 lone lone_filled 2 (3 ∷ 5 ∷ 7 ∷ 9 ∷ []) (omega arith)
      (omega arith) (omega arith) (omega arith) (omega arith) lone_words (omega arith) (omega arith)
      refl
