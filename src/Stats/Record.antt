-- ===== src/Stats/Record.antt =====
-- stats_alloc and stats_record of src/stats.c against the samples that they count.
use wrk_offloadenginesupport.Prelude.{
  ℕ, zero, suc, ◌+◌, ◌≤◌, ◌<◌, ◌≡◌, refl, ap, ap₂, ◌∙◌, ◌⊎◌, inl, inr, true, false, List, [], ◌∷◌,
  u64, ltb, leb, if◌then◌else◌, length, arith, min, max, set, length-set, get_or-set_self,
  get_or-set_ne, get_or-replicate, length-replicate, dec_lt, lt→ltb,
}
use wrk_offloadenginesupport.Stats.{
  Stats, bucket, add, stats_alloc, stats_record, swap_min, swap_max,
}
use wrk_offloadenginesupport.Stats.Samples.{times, Represents, times-le-length}
use native.Mathlib.Decide.{ℕ_discrete}
use mathlib.Core.List.{Perm, Permᴰ}
use mathlib.Core.Logic.{∥∥₁_elim}

-- Run by one thread, the compare-and-swap loop for the minimum ends within two rounds, with the
-- smaller of the two values in the cell: it leaves by its test.
pub swap_min-ends :
    (n cell : ℕ)
    → ((swap_min 2 n cell cell).0 ≡ min n cell) × (ltb n (swap_min 2 n cell cell).1 ≡ false)
unfolding swap_min
swap_min-ends n cell = ground arith

-- The same for the maximum.
pub swap_max-ends :
    (n cell : ℕ)
    → ((swap_max 2 n cell cell).0 ≡ max n cell) × (ltb (swap_max 2 n cell cell).1 n ≡ false)
unfolding swap_max
swap_max-ends n cell = ground arith

-- Writing one more sample into its bucket.
cells-set :
    (b xs : List ℕ) (n : ℕ)
    → n < length b
    → length xs + 1 < u64
    → ((v : ℕ) → bucket b v ≡ times v xs)
    → (v : ℕ) → bucket (set b n (add (bucket b n) 1)) v ≡ times v (n ∷ xs)
cells-set b xs n h room cells v = elim (ℕ_discrete n v) [
  | yes e ↦
      ground
        (arith, get_or-set_self b n (add (bucket b n) 1) 0, cells n, cells v, times-le-length n xs)
  | no ne ↦ rw (get_or-set_ne b n v (add (bucket b n) 1) 0 ne) (ground (arith, cells v))
]

record-accepted :
    (s : Stats) (xs : List ℕ) (n : ℕ)
    → Represents s xs
    → length xs + 1 < u64
    → n < s.limit
    → ((stats_record s n).0 ≡ 1) × Represents (stats_record s n).1 (n ∷ xs)
unfolding stats_record
record-accepted s xs n r room h =
    let t : leb s.limit n ≡ false = ground arith in
    rw t (
      refl,
      record {
        sized = length-set s.buckets n (add (bucket s.buckets n) 1) ∙ r.sized;
        small = r.small;
        cells = cells-set s.buckets xs n (omega (arith, r.sized)) room r.cells;
        total = omega (arith, r.total);
        low = (swap_min-ends n s.min).0 ∙ ap (min n) r.low;
        high = (swap_max-ends n s.max).0 ∙ ap (max n) r.high;
      },
    )

record-refused : (s : Stats) (n : ℕ) → s.limit ≤ n → stats_record s n ≡ (0, s)
unfolding stats_record
record-refused s n h = let t : leb s.limit n ≡ true = ground arith in rw t

-- What one call of stats_record does: a sample below the limit is counted and 1 returned, any
-- other changes nothing and 0 is returned.
abbrev pub Recorded : Stats → List ℕ → ℕ → ℕ × Stats → Type 0
Recorded s xs n (code, t) =
    ((n < s.limit) × (code ≡ 1) × Represents t (n ∷ xs)) ⊎ ((s.limit ≤ n) × (code ≡ 0) × (t ≡ s))

-- stats_record keeps a histogram of the samples `xs` exact: a value below the limit is added to them
-- and the result is 1; any other changes nothing and the result is 0. This holds
-- while fewer than 2^64 samples are counted.
pub stats_record-Recorded :
    (s : Stats) (xs : List ℕ) (n : ℕ)
    → Represents s xs
    → length xs + 1 < u64
    → Recorded s xs n (stats_record s n)
stats_record-Recorded s xs n r room = elim (dec_lt n s.limit) [
  | yes h ↦ let (code, rep) = record-accepted s xs n r room h in inl (h, code, rep)
  | no h ↦
      let e = record-refused s n (omega arith) in
      inr (omega arith, ap (λ p. p.0) e, ap (λ p. p.1) e)
]

-- A new histogram counts nothing.
pub stats_alloc-Represents : (max : ℕ) → max + 1 < u64 → Represents (stats_alloc max) []
unfolding stats_alloc
stats_alloc-Represents max h = record {
  sized = length-replicate (add max 1) 0;
  small = omega arith;
  cells = λ v. get_or-replicate (add max 1) v 0;
  total = refl;
  low = refl;
  high = refl;
}

-- A run of calls, as a thread makes them.
unfoldable pub record_all : Stats → List ℕ → Stats
record_all s [] = s
record_all s (x ∷ xs) = record_all (stats_record s x).1 xs

-- The samples that fit, last first, on top of `acc`.
abbrev pub kept : ℕ → List ℕ → List ℕ → List ℕ
kept limit [] acc = acc
kept limit (x ∷ xs) acc = kept limit xs (if ltb x limit then x ∷ acc else acc)

limit-record : (s : Stats) (n : ℕ) → (stats_record s n).1.limit ≡ s.limit
unfolding stats_record
limit-record s n = ground arith

record_all-Represents_from :
    (limit : ℕ) (s : Stats) (xs acc : List ℕ)
    → s.limit ≡ limit
    → Represents s acc
    → length acc + length xs < u64
    → Represents (record_all s xs) (kept limit xs acc)
unfolding record_all
record_all-Represents_from limit s [] acc e r room = r
record_all-Represents_from limit s (x ∷ xs) acc e r room = elim (dec_lt x limit) [
  | yes h ↦
      let t : ltb x limit ≡ true = lt→ltb x limit h in
      let step = (record-accepted s acc x r (omega arith) (omega arith)).1 in
      rw t (
        record_all-Represents_from limit (stats_record s x).1 xs (x ∷ acc) (limit-record s x ∙ e)
          step (omega arith))
  | no h ↦
      let t : ltb x limit ≡ false = ground arith in
      rw (t, record-refused s x (omega arith))
        (record_all-Represents_from limit s xs acc e r (omega arith))
]

-- After any run of fewer than 2^64 calls on a new histogram for values up to `max`, below 2^64 - 1,
-- it counts exactly the samples of the run that are at most `max`.
pub record_all-Represents :
    (max : ℕ) (xs : List ℕ)
    → max + 1 < u64
    → length xs < u64
    → Represents (record_all (stats_alloc max) xs) (kept (max + 1) xs [])
record_all-Represents max xs h room =
    record_all-Represents_from (max + 1) (stats_alloc max) xs [] (limit max h)
      (stats_alloc-Represents max h) (omega arith)
  where
    limit : (m : ℕ) → m + 1 < u64 → (stats_alloc m).limit ≡ m + 1
    limit m lt = unfold stats_alloc in omega arith

abbrev bump : List ℕ → ℕ → List ℕ
bump b n = set b n (add (bucket b n) 1)

bump_comm : (b : List ℕ) (n m : ℕ) → bump (bump b n) m ≡ bump (bump b m) n
bump_comm [] n m = refl
bump_comm (x ∷ b) zero zero = refl
bump_comm (x ∷ b) zero (suc m) = refl
bump_comm (x ∷ b) (suc n) zero = refl
bump_comm (x ∷ b) (suc n) (suc m) = ap (◌∷◌ x) (bump_comm b n m)

record_comm :
    (s : Stats) (n m : ℕ)
    → (stats_record (stats_record s n).1 m).1 ≡ (stats_record (stats_record s m).1 n).1
unfolding stats_record
record_comm s n m = ground (
  arith,
  bump_comm s.buckets n m,
  swap_min-ends n s.min,
  swap_min-ends m s.min,
  swap_max-ends n s.max,
  swap_max-ends m s.max,
  swap_min-ends m (swap_min 2 n s.min s.min).0,
  swap_min-ends n (swap_min 2 m s.min s.min).0,
  swap_max-ends m (swap_max 2 n s.max s.max).0,
  swap_max-ends n (swap_max 2 m s.max s.max).0,
)

Stats-set : IsSet Stats
Stats-set = hlevel

record_all-permᴰ : {xs ys : List ℕ} → Permᴰ xs ys → (s : Stats) → record_all s xs ≡ record_all s ys
unfolding record_all
record_all-permᴰ Permᴰ.nil s = refl
record_all-permᴰ (Permᴰ.cons {a = x} {l₂ = ys} e p) s =
    record_all-permᴰ p (stats_record s x).1 ∙ ap (λ y. record_all (stats_record s y).1 ys) e
record_all-permᴰ (Permᴰ.swap {a = x} {b = y} {l = l} e f) s =
    ap (λ t. record_all t l) (record_comm s x y)
    ∙ ap₂ (λ u v. record_all (stats_record (stats_record s u).1 v).1 l) f e
record_all-permᴰ (Permᴰ.trans p q) s = record_all-permᴰ p s ∙ record_all-permᴰ q s

-- The order of the samples does not show: two runs that are permutations of one another leave any
-- histogram in the same state.
pub record_all-perm : (s : Stats) {xs ys : List ℕ} → Perm xs ys → record_all s xs ≡ record_all s ys
record_all-perm s p = ∥∥₁_elim p (Stats-set _ _) (λ q. record_all-permᴰ q s)
