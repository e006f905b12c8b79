-- ===== src/Stats/Values.antt =====
-- stats_popcount and stats_value_at of src/stats.c: the samples' values in ascending order.
use wrk_offloadenginesupport.Prelude.{
  ℕ, zero, suc, ◌+◌, ◌-◌, ◌≤◌, ◌<◌, ◌≡◌, refl, ap, ◌∙◌, ◌⊎◌, inl, inr, Bool, true, false, List, [],
  ◌∷◌, u64, ◌==◌, if◌then◌else◌, length, arith, Bool-cases, Option, none, some, get_elem?, dec_lt,
  get_or-above, ap₂, ◌↔◌,
}
use wrk_offloadenginesupport.Stats.{
  Stats, bucket, add, rounds, popcount_loop, stats_popcount, value_at_loop, stats_value_at,
}
use wrk_offloadenginesupport.Stats.Samples.{
  times, minimum, maximum, Represents, times-below, times-above, times-maximum,
}

-- The values among `r` from `i` on that occur in the samples, smallest first.
pub values_from : List ℕ → ℕ → ℕ → List ℕ
values_from xs zero i = []
values_from xs (suc r) i =
    let rest = values_from xs r (i + 1) in if times i xs == 0 then rest else i ∷ rest

-- The values that occur in the samples.
pub values : List ℕ → List ℕ
unfolding values_from
values xs = values_from xs (maximum xs + 1 - minimum xs) (minimum xs)

abbrev pub Occurs : ℕ → List ℕ → Type 0
Occurs v [] = ⊥
Occurs v (x ∷ xs) = (x ≡ v) ⊎ Occurs v xs

-- Every entry lies at or above `lo`, and is smaller than the next.
abbrev pub Ascending : ℕ → List ℕ → Type 0
Ascending lo [] = Unit {0}
Ascending lo (x ∷ xs) = (lo ≤ x) × Ascending (x + 1) xs

Ascending-mono : (a b : ℕ) (l : List ℕ) → a ≤ b → Ascending b l → Ascending a l
Ascending-mono a b [] h p = tt
Ascending-mono a b (x ∷ l) h p = (omega arith, p.1)

values_from-Ascending : (xs : List ℕ) (r i : ℕ) → Ascending i (values_from xs r i)
unfolding values_from
values_from-Ascending xs zero i = tt
values_from-Ascending xs (suc r) i = elim (Bool-cases (times i xs == 0)) [
  | inl absent ↦
      rw absent (Ascending-mono i (i + 1) _ (omega arith) (values_from-Ascending xs r (i + 1)))
  | inr there ↦ rw there (omega arith, values_from-Ascending xs r (i + 1))
]

values_from-Occurs :
    (xs : List ℕ) (r i v : ℕ) → i ≤ v → v < i + r → 0 < times v xs → Occurs v (values_from xs r i)
unfolding values_from
values_from-Occurs xs zero i v h k p = absurd (omega arith)
values_from-Occurs xs (suc r) i v h k p = elim (Bool-cases (times i xs == 0)) [
  | inl absent ↦ rw absent (values_from-Occurs xs r (i + 1) v (ground arith) (omega arith) p)
  | inr there ↦ rw there (elim (dec_lt i v) [
    | yes later ↦ inr (values_from-Occurs xs r (i + 1) v (omega arith) (omega arith) p)
    | no now ↦ inl (omega arith)
  ])
]

Occurs-values_from : (xs : List ℕ) (r i v : ℕ) → Occurs v (values_from xs r i) → 0 < times v xs
unfolding values_from
Occurs-values_from xs zero i v o = absurd o
Occurs-values_from xs (suc r) i v o =
    go (times i xs == 0) refl (Occurs-values_from xs r (i + 1) v) o
  where
    go :
        (b : Bool)
        → (times i xs == 0) ≡ b
        → (Occurs v (values_from xs r (i + 1)) → 0 < times v xs)
        → Occurs v (if b then values_from xs r (i + 1) else i ∷ values_from xs r (i + 1))
        → 0 < times v xs
    go true e ih o' = ih o'
    go false e ih (inl same) = rw (← same) (ground arith)
    go false e ih (inr o') = ih o'

-- `values` lists, in ascending order, exactly the values that occur.
pub values-exact :
    (xs : List ℕ)
    → Ascending (minimum xs) (values xs) × ((v : ℕ) → Occurs v (values xs) ↔ (0 < times v xs))
unfolding values
values-exact xs = (
  values_from-Ascending xs (maximum xs + 1 - minimum xs) (minimum xs),
  λ v. (Occurs-values_from xs (maximum xs + 1 - minimum xs) (minimum xs) v, λ p. listed v p),
)
  where
    listed :
        (v : ℕ)
        → 0 < times v xs
        → Occurs v (values_from xs (maximum xs + 1 - minimum xs) (minimum xs))
    listed v p = elim (dec_lt v (minimum xs)) [
      | yes below ↦ absurd (omega (arith, times-below v xs below))
      | no above ↦ elim (dec_lt (maximum xs) v) [
        | yes beyond ↦ absurd (omega (arith, times-above v xs beyond))
        | no within ↦ values_from-Occurs xs _ (minimum xs) v (omega arith) (omega arith) p
      ]
    ]

popcount_loop-values :
    (b xs : List ℕ) (r i count : ℕ)
    → ((v : ℕ) → bucket b v ≡ times v xs)
    → count + r < u64
    → popcount_loop b r i count ≡ count + length (values_from xs r i)
unfolding popcount_loop values_from
popcount_loop-values b xs zero i count cells room = omega arith
popcount_loop-values b xs (suc r) i count cells room =
    rw (cells i) (elim (Bool-cases (times i xs == 0)) [
      | inl absent ↦ rw absent (popcount_loop-values b xs r (i + 1) count cells (omega arith))
      | inr there ↦
          let e : add count 1 ≡ count + 1 = omega arith in
          rw (there, e)
            (popcount_loop-values b xs r (i + 1) (count + 1) cells (omega arith) ∙ omega arith)
    ])

-- What stats_value_at answers: a value and its count, or 0 and the number of values.
abbrev pub answer : List ℕ → ℕ → Option ℕ → ℕ × ℕ
answer xs size none = (0, size)
answer xs size (some v) = (v, times v xs)

value_at_loop-answer :
    (b xs : List ℕ) (index r i count : ℕ)
    → ((v : ℕ) → bucket b v ≡ times v xs)
    → count + r < u64
    → count ≤ index
    → value_at_loop b index r i count
      ≡ answer xs
          (count + length (values_from xs r i))
          (get_elem? (values_from xs r i) (index - count))
unfolding value_at_loop values_from
value_at_loop-answer b xs index zero i count cells room h = ap (λ (n : ℕ). (0, n)) (omega arith)
value_at_loop-answer b xs index (suc r) i count cells room h =
    rw (cells i) (elim (Bool-cases (times i xs == 0)) [
      | inl absent ↦
          rw absent (value_at_loop-answer b xs index r (i + 1) count cells (omega arith) h)
      | inr there ↦ elim (Bool-cases (count == index)) [
        | inl now ↦ let z : index - count ≡ 0 = ground arith in rw (there, now, z)
        | inr later ↦
            let e : add count 1 ≡ count + 1 = omega arith in
            let k : index - count ≡ suc (index - (count + 1)) = ground arith in
            let l : count + suc (length (values_from xs r (i + 1)))
                ≡ count + 1 + length (values_from xs r (i + 1)) =
              omega arith in
            rw (there, later, e, k, l)
              (value_at_loop-answer b xs index r (i + 1) (count + 1) cells (omega arith)
                (ground arith))
      ]
    ])

-- The rounds of a loop over the buckets are those over the values from the smallest sample on.
rounds-Represents :
    (s : Stats) (xs : List ℕ) → Represents s xs → values_from xs (rounds s) s.min ≡ values xs
unfolding values
rounds-Represents s xs r = ap₂ (λ a b. values_from xs (b + 1 - a) a) r.low r.high

-- The rounds of a loop over the buckets cannot wrap a counter.
rounds-lt : (s : Stats) (xs : List ℕ) → Represents s xs → rounds s < u64
rounds-lt s xs r = elim (dec_lt 0 (length xs)) [
  | yes h ↦ elim (dec_lt s.max s.limit) [
    | yes k ↦ omega (arith, r.small)
    | no k ↦ absurd (
        omega (
          arith,
          times-maximum xs h,
          r.cells (maximum xs),
          r.high,
          r.sized,
          get_or-above s.buckets (maximum xs) 0,
        ))
  ]
  | no h ↦ empty xs r (omega arith)
]
  where
    empty : (ys : List ℕ) → Represents s ys → length ys ≡ 0 → rounds s < u64
    empty [] q e = omega (arith, q.low, q.high)
    empty (y ∷ ys) q e = absurd (omega arith)

-- On a histogram that represents samples, stats_popcount counts the values that occur.
pub stats_popcount-values :
    (s : Stats) (xs : List ℕ) → Represents s xs → stats_popcount s ≡ length (values xs)
unfolding stats_popcount
stats_popcount-values s xs r =
    popcount_loop-values s.buckets xs (rounds s) s.min 0 r.cells (omega (arith, rounds-lt s xs r))
    ∙ omega (arith, ap length (rounds-Represents s xs r))

-- On a histogram that represents samples, stats_value_at gives the `index`-th entry, from 0, of a
-- list that has, in ascending order, exactly the values that occur, with the number of its samples;
-- past the last it gives 0, and the number of values as the count.
pub stats_value_at-values :
    (s : Stats) (xs : List ℕ) (index : ℕ)
    → Represents s xs
    → (stats_value_at s index ≡ answer xs (length (values xs)) (get_elem? (values xs) index))
      × Ascending (minimum xs) (values xs)
      × ((v : ℕ) → Occurs v (values xs) ↔ (0 < times v xs))
unfolding stats_value_at
stats_value_at-values s xs index r = (found, (values-exact xs).0, (values-exact xs).1)
  where
    zero-add : 0 + length (values xs) ≡ length (values xs)
    zero-add = omega arith

    sub-zero : index - 0 ≡ index
    sub-zero = omega arith

    found :
        value_at_loop s.buckets index (rounds s) s.min 0
        ≡ answer xs (length (values xs)) (get_elem? (values xs) index)
    found =
        value_at_loop-answer s.buckets xs index (rounds s) s.min 0 r.cells
          (omega (arith, rounds-lt s xs r)) (omega arith)
        ∙ ap (λ (l : List ℕ). answer xs (0 + length l) (get_elem? l (index - 0)))
            (rounds-Represents s xs r)
        ∙ ap₂ (λ (n k : ℕ). answer xs n (get_elem? (values xs) k)) zero-add sub-zero
