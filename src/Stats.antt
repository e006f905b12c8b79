-- ===== src/Stats.antt =====
-- src/stats.h and src/stats.c: the histogram behind the latency and the rate statistics.
pub mod Samples
pub mod Record
pub mod Queries
pub mod Values
pub mod Correct
pub mod Backfill
pub mod Moments
pub mod Atomic
mod Tests
use wrk_offloadenginesupport.Prelude.{
  ℕ, zero, suc, ◌+◌, ◌-◌, ◌*◌, ◌%◌, Bool, true, false, not, ◌&&◌, Option, none, some, List, [], ◌∷◌,
  u64, u64_max, ltb, leb, ◌==◌, if◌then◌else◌, get_or, set, replicate,
}

-- `stats`; `buckets` is the array `data`, whose entry `n` counts the samples of value `n`.
pub record Stats : Type 0 where
  pub count : ℕ
  pub limit : ℕ
  pub min : ℕ
  pub max : ℕ
  pub buckets : List ℕ

-- Unsigned 64-bit addition and multiplication.
abbrev pub add : ℕ → ℕ → ℕ
add a b = (a + b) % u64

abbrev pub mul : ℕ → ℕ → ℕ
mul a b = a * b % u64

-- `s->data[i]`
abbrev pub bucket : List ℕ → ℕ → ℕ
bucket b i = get_or b i 0

-- `zcalloc` zeroes the array, and ends the program where there is no memory.
pub stats_alloc : ℕ → Stats
stats_alloc max =
    let limit = add max 1 in
    record { count = 0; limit = limit; min = u64_max; max = 0; buckets = replicate limit 0 }

-- `while (n < min) min = __sync_val_compare_and_swap(&stats->min, min, n);` run by one thread:
-- `cell` is `stats->min`, `seen` the local copy. The swap returns what the cell held.
pub swap_min : ℕ → ℕ → ℕ → ℕ → ℕ × ℕ
swap_min zero n cell seen = (cell, seen)
swap_min (suc rounds) n cell seen =
    let again = swap_min rounds n (if cell == seen then n else cell) cell in
    if ltb n seen then again else (cell, seen)

-- The same loop for `stats->max`.
pub swap_max : ℕ → ℕ → ℕ → ℕ → ℕ × ℕ
swap_max zero n cell seen = (cell, seen)
swap_max (suc rounds) n cell seen =
    let again = swap_max rounds n (if cell == seen then n else cell) cell in
    if ltb seen n then again else (cell, seen)

-- The result is the return value, and the histogram after the call. Two rounds end either loop:
-- `Record.swap_min-ends`.
pub stats_record : Stats → ℕ → ℕ × Stats
stats_record s n = if leb s.limit n then (0, s) else (
  1,
  record s {
    buckets = set s.buckets n (add (bucket s.buckets n) 1);
    count = add s.count 1;
    min = (swap_min 2 n s.min s.min).0;
    max = (swap_max 2 n s.max s.max).0;
  },
)

-- The loops below run `for (uint64_t i = stats->min; i <= stats->max; i++)`, which is this many
-- rounds where `stats->max` is below UINT64_MAX.
abbrev pub rounds : Stats → ℕ
rounds s = s.max + 1 - s.min

-- The loop of stats_mean.
pub sum_loop : List ℕ → ℕ → ℕ → ℕ → ℕ
sum_loop b zero i sum = sum
sum_loop b (suc r) i sum = sum_loop b r (i + 1) (add sum (mul (bucket b i) i))

-- The loop of stats_percentile.
pub percentile_loop : List ℕ → ℕ → ℕ → ℕ → ℕ → ℕ
percentile_loop b rank zero i total = 0
percentile_loop b rank (suc r) i total =
    let total' = add total (bucket b i) in
    let next = percentile_loop b rank r (i + 1) total' in if leb rank total' then i else next

-- `stats_percentile`, after the rank has been computed.
pub percentile_at : Stats → ℕ → ℕ
unfolding percentile_loop
percentile_at s rank = percentile_loop s.buckets rank (rounds s) s.min 0

-- The loop of stats_popcount.
unfoldable pub popcount_loop : List ℕ → ℕ → ℕ → ℕ → ℕ
popcount_loop b zero i count = count
popcount_loop b (suc r) i count =
    popcount_loop b r (i + 1) (if bucket b i == 0 then count else add count 1)

unfoldable pub stats_popcount : Stats → ℕ
unfolding popcount_loop
stats_popcount s = popcount_loop s.buckets (rounds s) s.min 0

-- The loop of stats_value_at: the value returned, and what `*count` holds.
unfoldable pub value_at_loop : List ℕ → ℕ → ℕ → ℕ → ℕ → ℕ × ℕ
value_at_loop b index zero i count = (0, count)
value_at_loop b index (suc r) i count =
    let next = value_at_loop b index r (i + 1) (if bucket b i == 0 then count else add count 1) in
    if bucket b i == 0 then next else if count == index then (i, bucket b i) else next

unfoldable pub stats_value_at : Stats → ℕ → ℕ × ℕ
unfolding value_at_loop
stats_value_at s index = value_at_loop s.buckets index (rounds s) s.min 0

-- `while (count && m > expected)` of stats_correct, for `0 <= expected`. One fuel for each round;
-- `none` where it runs out, as it does for ever at `expected = 0`.
pub fill_loop : ℕ → ℕ → ℕ → ℕ → List ℕ × ℕ → Option (List ℕ × ℕ)
fill_loop zero count expected m (b, total) = none
fill_loop (suc fuel) count expected m (b, total) =
    let next =
      fill_loop fuel count expected (m - expected)
        (set b m (add (bucket b m) count), add total count) in
    if not (count == 0) && ltb expected m then next else some (b, total)

-- The loop over `n`, of `r` rounds. `m` starts at `(int64_t) n - expected`.
pub correct_loop : ℕ → ℕ → ℕ → ℕ → List ℕ × ℕ → Option (List ℕ × ℕ)
unfolding fill_loop
correct_loop fuel expected zero n s = some s
correct_loop fuel expected (suc r) n (b, total) =
    elim (fill_loop fuel (bucket b n) expected (n - expected) (b, total)) [
      | none ↦ none
      | some s ↦ correct_loop fuel expected r (n + 1) s
    ]

-- `stats->max` values from `expected * 2` on; the inner loop makes fewer rounds than `stats->max`.
pub stats_correct : ℕ → Stats → ℕ → Option Stats
unfolding correct_loop
stats_correct fuel s expected =
    elim (correct_loop fuel expected (s.max + 1 - expected * 2) (expected * 2)
      (s.buckets, s.count)) [
        | none ↦ none
        | some (b, total) ↦ some (record s { buckets = b; count = total })
      ]
