-- ===== src/Stats/Queries.antt =====
-- The loops of src/stats.c that read a histogram, against the samples that it counts.
use wrk_offloadenginesupport.Prelude.{
  ℕ, zero, suc, ◌+◌, ◌*◌, ◌%◌, ◌≤◌, ◌<◌, ◌≡◌, refl, ap, sym, ◌∙◌, true, false, List, [], ◌∷◌, u64,
  ltb, leb, if◌then◌else◌, length, arith, dec_lt,
}
use wrk_offloadenginesupport.Stats.{
  Stats, bucket, add, mul, rounds, sum_loop, percentile_loop, percentile_at,
}
use native.Mathlib.Nat.{add-zero}
use wrk_offloadenginesupport.Stats.Samples.{
  times, minimum, maximum, sum, under, Represents, under_suc, under-minimum, under-maximum,
  under-le-length,
}

-- The value that a bucket adds to the sum, over `r` values from `i` on.
weigh : List ℕ → ℕ → ℕ → ℕ
weigh xs zero i = 0
weigh xs (suc r) i = times i xs * i + weigh xs r (i + 1)

weigh-nil : (r i : ℕ) → weigh [] r i ≡ 0
unfolding weigh
weigh-nil zero i = refl
weigh-nil (suc r) i = omega (arith, weigh-nil r (i + 1))

weigh-cons :
    (x : ℕ) (xs : List ℕ) (r i : ℕ)
    → weigh (x ∷ xs) r i ≡ (if leb i x then if ltb x (i + r) then x else 0 else 0) + weigh xs r i
unfolding weigh
weigh-cons x xs zero i = ground arith
weigh-cons x xs (suc r) i = ground (arith, weigh-cons x xs r (i + 1))

weigh-sum : (xs : List ℕ) (r i : ℕ) → i ≤ minimum xs → maximum xs < i + r → weigh xs r i ≡ sum xs
weigh-sum [] r i h k = weigh-nil r i
weigh-sum (x ∷ xs) r i h k = ground (arith, weigh-cons x xs r i, weigh-sum xs r i)

sum_loop-weigh :
    (b xs : List ℕ) (r i acc : ℕ)
    → ((v : ℕ) → bucket b v ≡ times v xs)
    → acc < u64
    → sum_loop b r i acc ≡ (acc + weigh xs r i) % u64
unfolding sum_loop weigh
sum_loop-weigh b xs zero i acc cells h = omega arith
sum_loop-weigh b xs (suc r) i acc cells h =
    let ih = sum_loop-weigh b xs r (i + 1) (add acc (mul (bucket b i) i)) cells (omega arith) in
    ih ∙ rw (cells i) (omega arith)

-- The sum behind stats_mean is the sum of all samples, modulo 2^64.
pub sum_loop-sum :
    (s : Stats) (xs : List ℕ)
    → Represents s xs
    → sum_loop s.buckets (rounds s) s.min 0 ≡ sum xs % u64
sum_loop-sum s xs r =
    sum_loop-weigh s.buckets xs (rounds s) s.min 0 r.cells (omega arith)
    ∙ omega
        (arith, weigh-sum xs (rounds s) s.min (omega (arith, r.low)) (omega (arith, r.low, r.high)))

-- From value `i` on, with the samples below it counted, the loop of stats_percentile stops at the
-- value at which the count reaches the rank.
percentile_loop-rank :
    (b xs : List ℕ) (rank r i : ℕ)
    → ((v : ℕ) → bucket b v ≡ times v xs)
    → length xs < u64
    → under i xs < rank
    → rank ≤ under (i + r) xs
    → let v = percentile_loop b rank r i (under i xs) in
      (under v xs < rank) × (rank ≤ under (v + 1) xs)
unfolding percentile_loop
percentile_loop-rank b xs rank zero i cells room lo hi = absurd (ground (arith, add-zero i))
percentile_loop-rank b xs rank (suc r) i cells room lo hi =
    let total : add (under i xs) (bucket b i) ≡ under (i + 1) xs =
      omega (arith, cells i, under_suc i xs, under-le-length (i + 1) xs) in
    elim (dec_lt (under (i + 1) xs) rank) [
      | yes more ↦
          let t : leb rank (under (i + 1) xs) ≡ false = ground arith in
          let e : i + 1 + r ≡ i + suc r = omega arith in
          rw (total, t) (percentile_loop-rank b xs rank r (i + 1) cells room more (rw e hi))
      | no here ↦
          let t : leb rank (under (i + 1) xs) ≡ true = ground arith in
          rw (total, t) (lo, omega arith)
    ]

-- For a rank from 1 to the number of samples, the value at that rank: fewer samples than the rank
-- are below it, and at least as many as the rank are not above it.
pub percentile_at-rank :
    (s : Stats) (xs : List ℕ) (rank : ℕ)
    → Represents s xs
    → length xs < u64
    → 0 < rank
    → rank ≤ length xs
    → let v = percentile_at s rank in (under v xs < rank) × (rank ≤ under (v + 1) xs)
unfolding percentile_at
percentile_at-rank s xs rank r room pos le =
    let start : under s.min xs ≡ 0 = under-minimum s.min xs (omega (arith, r.low)) in
    let reach : under (s.min + rounds s) xs ≡ length xs =
      under-maximum (s.min + rounds s) xs (omega (arith, r.low, r.high)) in
    rw (← start) (
      percentile_loop-rank s.buckets xs rank (rounds s) s.min r.cells room (omega arith)
        (omega arith))

-- With a rank past the number of samples the loop finds none.
percentile_loop-past :
    (b xs : List ℕ) (rank r i : ℕ)
    → ((v : ℕ) → bucket b v ≡ times v xs)
    → length xs < u64
    → length xs < rank
    → percentile_loop b rank r i (under i xs) ≡ 0
unfolding percentile_loop
percentile_loop-past b xs rank zero i cells room lo = refl
percentile_loop-past b xs rank (suc r) i cells room lo =
    let total : add (under i xs) (bucket b i) ≡ under (i + 1) xs =
      omega (arith, cells i, under_suc i xs, under-le-length (i + 1) xs) in
    let t : leb rank (under (i + 1) xs) ≡ false = ground (arith, under-le-length (i + 1) xs) in
    rw (total, t) (percentile_loop-past b xs rank r (i + 1) cells room lo)

-- For a rank past the number of samples, 0.
pub percentile_at-past :
    (s : Stats) (xs : List ℕ) (rank : ℕ)
    → Represents s xs
    → length xs < u64
    → length xs < rank
    → percentile_at s rank ≡ 0
unfolding percentile_at
percentile_at-past s xs rank r room past =
    let start : under s.min xs ≡ 0 = under-minimum s.min xs (omega (arith, r.low)) in
    ap (percentile_loop s.buckets rank (rounds s) s.min) (sym start)
    ∙ percentile_loop-past s.buckets xs rank (rounds s) s.min r.cells room past
