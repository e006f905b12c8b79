-- ===== src/Stats/Moments.antt =====
-- src/stats.c, stats_mean, stats_stdev, stats_within_stdev and stats_percentile, whose results or
-- arguments are of type `long double`.
mod Tests
use wrk_offloadenginesupport.Prelude.{
  ℕ, zero, suc, ◌+◌, ◌-◌, ◌%◌, ◌≤◌, ◌<◌, ◌≡◌, refl, ap, ap₂, ◌∙◌, Bool, true, false, ◌&&◌, List, [],
  ◌∷◌, u64, ltb, leb, ◌==◌, if◌then◌else◌, length, arith, ◌⊎◌, inl, inr, dec_lt,
}
use wrk_offloadenginesupport.Floating.{LongDouble}
use wrk_offloadenginesupport.Stats.{
  Stats, bucket, add, rounds, sum_loop, percentile_at, percentile_loop,
}
use wrk_offloadenginesupport.Stats.Samples.{times, minimum, maximum, sum, under, Represents}
use wrk_offloadenginesupport.Stats.Queries.{sum_loop-sum, percentile_at-rank, percentile_at-past}

-- How many samples pass a test.
abbrev pub passing : (ℕ → Bool) → List ℕ → ℕ
passing test [] = 0
passing test (x ∷ xs) = (if test x then 1 else 0) + passing test xs

-- The loop of stats_within_stdev, for any test of the values.
pub within_loop : (ℕ → Bool) → List ℕ → ℕ → ℕ → ℕ → ℕ
within_loop test b zero i sum = sum
within_loop test b (suc r) i sum =
    within_loop test b r (i + 1) (if test i then add sum (bucket b i) else sum)

-- The samples that pass, value by value, over `r` values from `i` on.
gathered : (ℕ → Bool) → List ℕ → ℕ → ℕ → ℕ
gathered test xs zero i = 0
gathered test xs (suc r) i = (if test i then times i xs else 0) + gathered test xs r (i + 1)

gathered-nil : (test : ℕ → Bool) (r i : ℕ) → gathered test [] r i ≡ 0
unfolding gathered
gathered-nil test zero i = refl
gathered-nil test (suc r) i = ground (arith, gathered-nil test r (i + 1))

gathered-cons :
    (test : ℕ → Bool) (x : ℕ) (xs : List ℕ) (r i : ℕ)
    → gathered test (x ∷ xs) r i
      ≡ (if leb i x then if ltb x (i + r) then if test x then 1 else 0 else 0 else 0)
        + gathered test xs r i
unfolding gathered
gathered-cons test x xs zero i = ground arith
gathered-cons test x xs (suc r) i = ground (arith, gathered-cons test x xs r (i + 1))

gathered-passing :
    (test : ℕ → Bool) (xs : List ℕ) (r i : ℕ)
    → i ≤ minimum xs
    → maximum xs < i + r
    → gathered test xs r i ≡ passing test xs
gathered-passing test [] r i h k = gathered-nil test r i
gathered-passing test (x ∷ xs) r i h k =
    ground (arith, gathered-cons test x xs r i, gathered-passing test xs r i)

within_loop-gathered :
    (test : ℕ → Bool) (b xs : List ℕ) (r i acc : ℕ)
    → ((v : ℕ) → bucket b v ≡ times v xs)
    → acc < u64
    → within_loop test b r i acc ≡ (acc + gathered test xs r i) % u64
unfolding within_loop gathered
within_loop-gathered test b xs zero i acc cells h = omega arith
within_loop-gathered test b xs (suc r) i acc cells h =
    within_loop-gathered test b xs r (i + 1) (if test i then add acc (bucket b i) else acc) cells
      (ground arith)
    ∙ ground (arith, cells i)

within_loop-passing :
    (test : ℕ → Bool) (s : Stats) (xs : List ℕ)
    → Represents s xs
    → within_loop test s.buckets (rounds s) s.min 0 ≡ passing test xs % u64
within_loop-passing test s xs r =
    within_loop-gathered test s.buckets xs (rounds s) s.min 0 r.cells (omega arith)
    ∙ omega (
      arith,
      gathered-passing test xs (rounds s) s.min (omega (arith, r.low))
          (omega (arith, r.low, r.high)),
    )

module _ (F : LongDouble) where
  open F use {Number, ratio, plus, minus, times as product, over, at_least, powl, sqrtl, round_u64}

  -- A `uint64_t` as a `long double`.
  abbrev pub whole : ℕ → Number
  whole n = ratio n 1

  pub stats_mean : Stats → Number
  stats_mean s =
      if s.count == 0
      then whole 0
      else over (whole (sum_loop s.buckets (rounds s) s.min 0)) (whole s.count)

  -- The loop of stats_stdev.
  stdev_loop : List ℕ → Number → ℕ → ℕ → Number → Number
  stdev_loop b mean zero i sum = sum
  stdev_loop b mean (suc r) i sum = stdev_loop b mean r (i + 1) (
      if bucket b i == 0
      then sum
      else plus sum (product (powl (minus (whole i) mean) (whole 2)) (whole (bucket b i))))

  pub stats_stdev : Stats → Number → Number
  unfolding stdev_loop
  stats_stdev s mean =
      if ltb s.count 2
      then whole 0
      else sqrtl (over (stdev_loop s.buckets mean (rounds s) s.min (whole 0)) (whole (s.count - 1)))

  -- `i >= lower && i <= upper`
  abbrev pub inside : Number → Number → ℕ → Bool
  inside lower upper i = at_least (whole i) lower && at_least upper (whole i)

  pub stats_within_stdev : Stats → Number → Number → ℕ → Number
  unfolding within_loop
  stats_within_stdev s mean stdev n =
      let upper = plus mean (product stdev (whole n)) in
      let lower = minus mean (product stdev (whole n)) in
      let sum = within_loop (inside lower upper) s.buckets (rounds s) s.min 0 in
      product (over (whole sum) (whole s.count)) (whole 100)

  -- `round((p / 100.0) * stats->count + 0.5)`
  pub rank_of : ℕ → Number → ℕ
  rank_of count p = round_u64 (plus (product (over p (whole 100)) (whole count)) (ratio 1 2))

  pub stats_percentile : Stats → Number → ℕ
  unfolding rank_of
  stats_percentile s p = percentile_at s (rank_of s.count p)

  -- On a histogram that represents samples whose sum is below 2^64, stats_mean is that sum divided by
  -- their number, and 0 where there is none.
  pub stats_mean-sum :
      (s : Stats) (xs : List ℕ)
      → Represents s xs
      → sum xs < u64
      → stats_mean s
        ≡ (if length xs == 0 then whole 0 else over (whole (sum xs)) (whole (length xs)))
  unfolding stats_mean
  stats_mean-sum s xs r room =
      let e : sum_loop s.buckets (rounds s) s.min 0 ≡ sum xs = omega (arith, sum_loop-sum s xs r) in
      ap₂ (λ (k n : ℕ). if n == 0 then whole 0 else over (whole k) (whole n)) e r.total

  -- On a histogram that represents samples, stats_within_stdev is the share, in percent, of those that
  -- are not further from the mean than `n` deviations: they are compared with both bounds, and counted
  -- once each, while there are fewer than 2^64 of them.
  stats_within_stdev-share :
      (s : Stats) (xs : List ℕ) (mean stdev : Number) (n : ℕ)
      → Represents s xs
      → passing
          (inside (minus mean (product stdev (whole n))) (plus mean (product stdev (whole n))))
          xs
        < u64
      → stats_within_stdev s mean stdev n
        ≡ product
            (over
              (whole (
                passing
                  (inside
                    (minus mean (product stdev (whole n)))
                    (plus mean (product stdev (whole n))))
                  xs))
              (whole (length xs)))
            (whole 100)
  unfolding stats_within_stdev
  stats_within_stdev-share s xs mean stdev n r room =
      let test : ℕ → Bool =
        inside (minus mean (product stdev (whole n))) (plus mean (product stdev (whole n))) in
      let e : within_loop test s.buckets (rounds s) s.min 0 ≡ passing test xs =
        omega (arith, within_loop-passing test s xs r) in
      ap₂ (λ (k c : ℕ). product (over (whole k) (whole c)) (whole 100)) e r.total

  -- What a percentile is for a rank: a value at that rank, or 0 past the last sample.
  abbrev pub AtRank : List ℕ → ℕ → ℕ → Type 0
  AtRank xs rank v =
      ((rank ≤ length xs) × (under v xs < rank) × (rank ≤ under (v + 1) xs))
      ⊎ ((length xs < rank) × (v ≡ 0))

  -- On a histogram that represents fewer than 2^64 samples, where the rank that stats_percentile
  -- computes for `p` is from 1 to their number, the result is the value at that rank: fewer samples
  -- than the rank are below it, and at least as many as the rank are not above it. Where the rank is
  -- larger, the result is 0.
  pub stats_percentile-AtRank :
      (s : Stats) (xs : List ℕ) (p : Number)
      → Represents s xs
      → length xs < u64
      → 0 < rank_of s.count p
      → AtRank xs (rank_of s.count p) (stats_percentile s p)
  unfolding stats_percentile
  stats_percentile-AtRank s xs p r room pos = elim (dec_lt (length xs) (rank_of s.count p)) [
    | yes past ↦ inr (past, percentile_at-past s xs (rank_of s.count p) r room past)
    | no within ↦
        let le : rank_of s.count p ≤ length xs = omega arith in
        let q = percentile_at-rank s xs (rank_of s.count p) r room pos le in inl (le, q.0, q.1)
  ]
