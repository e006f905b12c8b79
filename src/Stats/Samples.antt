-- ===== src/Stats/Samples.antt =====
-- The abstract view of a histogram: the samples that it counts, in any order.
use wrk_offloadenginesupport.Prelude.{
  ℕ, ◌+◌, ◌≤◌, ◌<◌, ◌≡◌, refl, List, [], ◌∷◌, u64, u64_max, ltb, ◌==◌, if◌then◌else◌, length, arith,
  min, max,
}
use wrk_offloadenginesupport.Stats.{Stats, bucket}

-- How often a value occurs.
abbrev pub times : ℕ → List ℕ → ℕ
times v [] = 0
times v (x ∷ xs) = (if x == v then 1 else 0) + times v xs

-- The smallest sample, and UINT64_MAX where there is none.
abbrev pub minimum : List ℕ → ℕ
minimum [] = u64_max
minimum (x ∷ xs) = min x (minimum xs)

-- The largest sample, and 0 where there is none.
abbrev pub maximum : List ℕ → ℕ
maximum [] = 0
maximum (x ∷ xs) = max x (maximum xs)

abbrev pub sum : List ℕ → ℕ
sum [] = 0
sum (x ∷ xs) = x + sum xs

-- How many samples are below `v`.
abbrev pub under : ℕ → List ℕ → ℕ
under v [] = 0
under v (x ∷ xs) = (if ltb x v then 1 else 0) + under v xs

-- The histogram counts exactly the samples `xs`.
pub record Represents (s : Stats) (xs : List ℕ) : Type 0 where
  pub sized : length s.buckets ≡ s.limit
  pub small : s.limit < u64
  pub cells : (v : ℕ) → bucket s.buckets v ≡ times v xs
  pub total : s.count ≡ length xs
  pub low : s.min ≡ minimum xs
  pub high : s.max ≡ maximum xs

pub times-le-length : (v : ℕ) (xs : List ℕ) → times v xs ≤ length xs
times-le-length v [] = omega arith
times-le-length v (x ∷ xs) = ground (arith, times-le-length v xs)

pub times-below : (v : ℕ) (xs : List ℕ) → v < minimum xs → times v xs ≡ 0
times-below v [] h = refl
times-below v (x ∷ xs) h = ground (arith, times-below v xs)

pub times-above : (v : ℕ) (xs : List ℕ) → maximum xs < v → times v xs ≡ 0
times-above v [] h = refl
times-above v (x ∷ xs) h = ground (arith, times-above v xs)

pub times-maximum : (xs : List ℕ) → 0 < length xs → 0 < times (maximum xs) xs
times-maximum [] h = absurd (omega arith)
times-maximum (x ∷ []) h = ground arith
times-maximum (x ∷ y ∷ xs) h = ground (arith, times-maximum (y ∷ xs))

pub under_suc : (v : ℕ) (xs : List ℕ) → under (v + 1) xs ≡ under v xs + times v xs
under_suc v [] = omega arith
under_suc v (x ∷ xs) = ground (arith, under_suc v xs)

pub under-minimum : (v : ℕ) (xs : List ℕ) → v ≤ minimum xs → under v xs ≡ 0
under-minimum v [] h = refl
under-minimum v (x ∷ xs) h = ground (arith, under-minimum v xs)

pub under-maximum : (v : ℕ) (xs : List ℕ) → maximum xs < v → under v xs ≡ length xs
under-maximum v [] h = refl
under-maximum v (x ∷ xs) h = ground (arith, under-maximum v xs)

pub under-le-length : (v : ℕ) (xs : List ℕ) → under v xs ≤ length xs
under-le-length v [] = omega arith
under-le-length v (x ∷ xs) = ground (arith, under-le-length v xs)

pub minimum-le-maximum : (xs : List ℕ) → 0 < length xs → minimum xs ≤ maximum xs
minimum-le-maximum [] h = absurd (omega arith)
minimum-le-maximum (x ∷ []) h = omega arith
minimum-le-maximum (x ∷ y ∷ xs) h = omega (arith, minimum-le-maximum (y ∷ xs) (omega arith))
