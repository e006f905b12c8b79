-- ===== src/Stats/Correct.antt =====
-- The inner loop of stats_correct in src/stats.c: the samples that it fills in, and that it ends.
use wrk_offloadenginesupport.Prelude.{
  ℕ, zero, suc, ◌+◌, ◌-◌, ◌%◌, ◌≤◌, ◌<◌, ◌≡◌, ◌≢◌, refl, ap, sym, ◌∙◌, true, false, ◌&&◌, List, [],
  ◌∷◌, u64, ltb, leb, ◌==◌, if◌then◌else◌, length, arith, Option, some, dec_lt, ℕ_discrete, set,
  length-set, get_or-set_self, get_or-set_ne, lt→ltb,
}
use native.Mathlib.Nat.{add-mod_right, mod-eq_of_lt, mod_self}
use wrk_offloadenginesupport.Stats.{bucket, add, fill_loop}

-- What the inner loop, starting at `m`, adds to bucket `v`: `count` to every bucket above `e` that
-- lies a multiple of `e` below `m`.
abbrev pub filled : ℕ → ℕ → ℕ → ℕ → ℕ
filled count e m v = if ltb e v && leb v m && ((m - v) % e == 0) then count else 0

-- All the counts of a histogram together.
abbrev pub tally : List ℕ → ℕ
tally [] = 0
tally (x ∷ xs) = x + tally xs

-- What a loop returns: a histogram of the same size with `gain v` more samples of each value `v`,
-- and a total that has grown as the histogram has, all modulo 2^64.
pub record Filled (gain : ℕ → ℕ) (b : List ℕ) (total : ℕ) (out : Option (List ℕ × ℕ)) : Type 0 where
  pub result : List ℕ × ℕ
  pub returns : out ≡ some result
  pub sized : length result.0 ≡ length b
  pub cells : (v : ℕ) → bucket result.0 v ≡ (bucket b v + gain v) % u64
  pub balance : (result.1 + tally b) % u64 ≡ (total + tally result.0) % u64

tally-set : (b : List ℕ) (m x : ℕ) → m < length b → tally (set b m x) + bucket b m ≡ tally b + x
tally-set [] m x h = absurd (omega arith)
tally-set (y ∷ b) zero x h = omega arith
tally-set (y ∷ b) (suc m) x h = omega (arith, tally-set b m x (omega arith))

step_back : (e m v : ℕ) → e < m → v ≤ m - e → (m - e - v) % e ≡ (m - v) % e
step_back e m v h k = sym (add-mod_right (m - e - v) e) ∙ ap (λ (n : ℕ). n % e) (omega arith)

filled_step :
    (count e m v : ℕ) → 0 < e → e < m → v ≢ m → filled count e (m - e) v ≡ filled count e m v
filled_step count e m v p h ne = elim (dec_lt (m - e) v) [
  | no near ↦ let s = step_back e m v h (omega arith) in ground (arith, s)
  | yes far ↦ elim (dec_lt m v) [
    | yes beyond ↦ ground arith
    | no gap ↦ let s : (m - v) % e ≡ m - v = mod-eq_of_lt (omega arith) in ground (arith, s)
  ]
]

filled_self : (count e m : ℕ) → 0 < e → e < m → filled count e (m - e) m ≡ 0
filled_self count e m p h = ground arith

filled_here : (count e m : ℕ) → e < m → filled count e m m ≡ count
filled_here count e m h = ground (arith, mod_self m)

pub filled_none : (e m v : ℕ) → filled 0 e m v ≡ 0
filled_none e m v = ground arith

filled_end : (count e m v : ℕ) → m ≤ e → filled count e m v ≡ 0
filled_end count e m v h = ground arith

bucket-set-lt :
    (b : List ℕ) (m x v : ℕ)
    → m < length b
    → x < u64
    → ((u : ℕ) → bucket b u < u64)
    → bucket (set b m x) v < u64
bucket-set-lt b m x v inside h words = elim (ℕ_discrete m v) [
  | yes e ↦ rw (← e) (rw (get_or-set_self b m x 0 inside) h)
  | no ne ↦ rw (get_or-set_ne b m v x 0 ne) (words v)
]

-- The inner loop stops at once.
fill-stop :
    (count e m : ℕ) (b : List ℕ) (total : ℕ)
    → ((v : ℕ) → filled count e m v ≡ 0)
    → ((v : ℕ) → bucket b v < u64)
    → Filled (filled count e m) b total (some (b, total))
fill-stop count e m b total none_added words = record {
  result = (b, total);
  returns = refl;
  sized = refl;
  cells = λ v. omega (arith, none_added v, words v);
  balance = refl;
}

-- The inner loop adds to bucket `m`, and goes on with `m - e`.
fill-step :
    (count e m : ℕ) (b : List ℕ) (total : ℕ) (out : Option (List ℕ × ℕ))
    → 0 < e
    → e < m
    → m < length b
    → ((v : ℕ) → bucket b v < u64)
    → Filled (filled count e (m - e)) (set b m (add (bucket b m) count)) (add total count) out
    → Filled (filled count e m) b total out
fill-step count e m b total out p h inside words f = record {
  result = f.result;
  returns = f.returns;
  sized = f.sized ∙ length-set b m x;
  cells = λ v. elim (ℕ_discrete m v) [
    | yes same ↦ rw (← same) (
        f.cells m
        ∙ omega (
          arith,
          get_or-set_self b m x 0 inside,
          filled_self count e m p h,
          filled_here count e m h,
        ))
    | no other ↦
        f.cells v
        ∙ omega
            (arith, get_or-set_ne b m v x 0 other, filled_step count e m v p h (λ q. other (sym q)))
  ];
  balance = omega (arith, f.balance, tally-set b m x inside);
}
  where
    x : ℕ
    x = add (bucket b m) count

-- The inner loop ends within `m + 1` rounds where `e` is positive, and adds what `filled` says.
pub fill_loop-Filled :
    (fuel count e m : ℕ) (b : List ℕ) (total : ℕ)
    → 0 < e
    → m < fuel
    → m < length b
    → ((v : ℕ) → bucket b v < u64)
    → Filled (filled count e m) b total (fill_loop fuel count e m (b, total))
unfolding fill_loop
fill_loop-Filled zero count e m b total p f inside words = absurd (omega arith)
fill_loop-Filled (suc fuel) count e m b total p f inside words = elim (ℕ_discrete count 0) [
  | yes z ↦
      let t : (count == 0) ≡ true = ground arith in
      rw t (fill-stop count e m b total (λ v. rw z (filled_none e m v)) words)
  | no nz ↦
      let t : (count == 0) ≡ false = ground arith in
      elim (dec_lt e m) [
        | no le ↦
            let t' : ltb e m ≡ false = ground arith in
            rw (t, t')
              (fill-stop count e m b total (λ v. filled_end count e m v (omega arith)) words)
        | yes lt ↦
            let t' : ltb e m ≡ true = lt→ltb e m lt in
            rw (t, t')
              (fill-step count e m b total _ p lt inside words (
                fill_loop-Filled fuel count e (m - e) _ _ p (omega arith)
                  (omega (arith, length-set b m (add (bucket b m) count)))
                  (λ v. bucket-set-lt b m _ v inside (omega arith) words)))
      ]
]
