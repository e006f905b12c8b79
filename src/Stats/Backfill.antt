-- ===== src/Stats/Backfill.antt =====
-- stats_correct of src/stats.c: which samples it fills in, when it never ends, and what it leaves
-- undone.
use wrk_offloadenginesupport.Prelude.{
  ℕ, zero, suc, ◌+◌, ◌-◌, ◌*◌, ◌%◌, ◌≤◌, ◌<◌, ◌≡◌, refl, ap₂, sym, ◌∙◌, ◌⊎◌, inl, inr, true, false,
  List, u64, ltb, ◌==◌, length, arith, Option, none, some, ℕ_discrete, lt→ltb, max, subst,
}
use wrk_offloadenginesupport.Stats.{Stats, bucket, fill_loop, correct_loop, stats_correct}
use wrk_offloadenginesupport.Stats.Correct.{filled, Filled, fill_loop-Filled, tally}
use wrk_offloadenginesupport.Stats.Samples.{Represents, times-below}

-- What all rounds of the outer loop together add to bucket `v`: each value `n` of the `r` values
-- from `n` on fills in its count below it.
abbrev pub gained : List ℕ → ℕ → ℕ → ℕ → ℕ → ℕ
gained b e zero n v = 0
gained b e (suc r) n v = filled (bucket b n) e (n - e) v + gained b e r (n + 1) v

-- It depends only on the buckets from `n` on.
gained-eq :
    (b c : List ℕ) (e r n v : ℕ)
    → ((j : ℕ) → n ≤ j → bucket b j ≡ bucket c j)
    → gained b e r n v ≡ gained c e r n v
gained-eq b c e zero n v same = refl
gained-eq b c e (suc r) n v same =
    ap₂ (λ x y. filled x e (n - e) v + y) (same n (omega arith))
      (gained-eq b c e r (n + 1) v (λ j h. same j (omega arith)))

-- The inner loop at `n` leaves the buckets from `n` on alone.
filled_above : (count e n j : ℕ) → 0 < e → e + e ≤ n → n ≤ j → filled count e (n - e) j ≡ 0
filled_above count e n j p h k = ground arith

-- A round of the outer loop, then the rest.
correct-step :
    (e r n : ℕ) (b : List ℕ) (total : ℕ) {inner rest : Option (List ℕ × ℕ)}
    → 0 < e
    → e + e ≤ n
    → ((v : ℕ) → bucket b v < u64)
    → (f : Filled (filled (bucket b n) e (n - e)) b total inner)
    → Filled (gained f.result.0 e r (n + 1)) f.result.0 f.result.1 rest
    → Filled (gained b e (suc r) n) b total rest
correct-step e r n b total p h words f g = record {
  result = g.result;
  returns = g.returns;
  sized = g.sized ∙ f.sized;
  cells = λ v. g.cells v ∙ omega (arith, f.cells v, later v);
  balance = omega (arith, f.balance, g.balance);
}
  where
    later : (v : ℕ) → gained f.result.0 e r (n + 1) v ≡ gained b e r (n + 1) v
    later v =
        gained-eq f.result.0 b e r (n + 1) v λ j k.
          omega (arith, f.cells j, filled_above (bucket b n) e n j p h (omega arith), words j)

correct_loop-Filled :
    (fuel e r n : ℕ) (b : List ℕ) (total : ℕ)
    → 0 < e
    → e + e ≤ n
    → n + r ≤ max n (length b)
    → length b ≤ fuel
    → ((v : ℕ) → bucket b v < u64)
    → Filled (gained b e r n) b total (correct_loop fuel e r n (b, total))
unfolding correct_loop
correct_loop-Filled fuel e zero n b total p h inside enough words = record {
  result = (b, total);
  returns = refl;
  sized = refl;
  cells = λ v. omega (arith, words v);
  balance = refl;
}
correct_loop-Filled fuel e (suc r) n b total p h inside enough words =
    let f =
      fill_loop-Filled fuel (bucket b n) e (n - e) b total p (omega arith) (omega arith) words in
    rw (f.returns, correct_loop)
      (correct-step e r n b total p h words f (
        correct_loop-Filled fuel e r (n + 1) f.result.0 f.result.1 p (omega arith)
          (omega (arith, f.sized)) (omega (arith, f.sized)) (λ v. omega (arith, f.cells v))))

-- What stats_correct computes: bucket `v` has the samples filled in from all higher values, the
-- count has grown as the buckets have, and the rest is as it was.
pub record Corrected (s : Stats) (e : ℕ) (out : Option Stats) : Type 0 where
  pub result : Stats
  pub returns : out ≡ some result
  pub cells :
      (v : ℕ)
      → bucket result.buckets v
        ≡ (bucket s.buckets v + gained s.buckets e (s.max + 1 - e * 2) (e * 2) v) % u64
  pub balance : (result.count + tally s.buckets) % u64 ≡ (s.count + tally result.buckets) % u64
  pub sized : length result.buckets ≡ length s.buckets
  pub same_limit : result.limit ≡ s.limit
  pub same_min : result.min ≡ s.min
  pub same_max : result.max ≡ s.max

-- For a positive interval, on a histogram whose largest sample is in range and whose counts are
-- below 2^64, stats_correct ends, with as many rounds of the inner loop as there are buckets for
-- fuel, and computes the samples that `gained` says.
pub stats_correct-Corrected :
    (fuel : ℕ) (s : Stats) (e : ℕ)
    → 0 < e
    → s.max < length s.buckets
    → length s.buckets ≤ fuel
    → ((v : ℕ) → bucket s.buckets v < u64)
    → Corrected s e (stats_correct fuel s e)
unfolding stats_correct
stats_correct-Corrected fuel s e p inside enough words =
    let f =
      correct_loop-Filled fuel e (s.max + 1 - e * 2) (e * 2) s.buckets s.count p (omega arith)
        (omega arith) enough words in
    rw (f.returns, stats_correct)
      (record {
        result = record s { buckets = f.result.0; count = f.result.1 };
        returns = refl;
        cells = f.cells;
        balance = f.balance;
        sized = f.sized;
        same_limit = refl;
        same_min = refl;
        same_max = refl;
      })

fill_loop-stuck :
    (fuel count m : ℕ) (b : List ℕ) (total : ℕ)
    → 0 < count
    → 0 < m
    → fill_loop fuel count 0 m (b, total) ≡ none
unfolding fill_loop
fill_loop-stuck zero count m b total c h = refl
fill_loop-stuck (suc fuel) count m b total c h =
    let t : (count == 0) ≡ false = ground arith in
    let t' : ltb 0 m ≡ true = lt→ltb 0 m h in
    let z : m - 0 ≡ m = omega arith in rw (t, t', z) (fill_loop-stuck fuel count m _ _ c h)

fill_loop-zero :
    (fuel count m : ℕ) (b : List ℕ) (total : ℕ)
    → (fill_loop fuel count 0 m (b, total) ≡ none)
      ⊎ (fill_loop fuel count 0 m (b, total) ≡ some (b, total))
unfolding fill_loop
fill_loop-zero zero count m b total = inl refl
fill_loop-zero (suc fuel) zero m b total = inr refl
fill_loop-zero (suc fuel) (suc count) zero b total =
    let z : (suc count == 0) ≡ false = ground arith in inr (rw z)
fill_loop-zero (suc fuel) (suc count) (suc m) b total =
    inl (fill_loop-stuck (suc fuel) (suc count) (suc m) b total (omega arith) (omega arith))

correct_loop-stuck :
    (fuel r i n : ℕ) (b : List ℕ) (total : ℕ)
    → i ≤ n
    → n < i + r
    → 0 < n
    → 0 < bucket b n
    → correct_loop fuel 0 r i (b, total) ≡ none
unfolding correct_loop
correct_loop-stuck fuel zero i n b total h k pos some_there = absurd (omega arith)
correct_loop-stuck fuel (suc r) i n b total h k pos some_there = elim (ℕ_discrete i n) [
  | yes e ↦
      let q : fill_loop fuel (bucket b i) 0 (i - 0) (b, total) ≡ none =
        fill_loop-stuck fuel (bucket b i) (i - 0) b total (rw e some_there) (omega arith) in
      rw (q, correct_loop)
  | no ne ↦ elim (fill_loop-zero fuel (bucket b i) (i - 0) b total) [
    | inl q ↦ rw (q, correct_loop)
    | inr q ↦
        rw (q, correct_loop)
          (correct_loop-stuck fuel r (i + 1) n b total (omega arith) (omega arith) pos some_there)
  ]
]

-- With an interval of 0, stats_correct never ends on a histogram that has a sample above 0 and no
-- larger than its maximum: every amount of fuel runs out.
pub stats_correct-diverges :
    (fuel : ℕ) (s : Stats) (n : ℕ)
    → 0 < n
    → n ≤ s.max
    → 0 < bucket s.buckets n
    → stats_correct fuel s 0 ≡ none
unfolding stats_correct
stats_correct-diverges fuel s n pos inside there =
    let q : correct_loop fuel 0 (s.max + 1 - 0 * 2) (0 * 2) (s.buckets, s.count) ≡ none =
      correct_loop-stuck fuel (s.max + 1 - 0 * 2) (0 * 2) n s.buckets s.count (omega arith)
        (omega arith) pos there in
    rw (q, stats_correct)

-- One value's share of what is filled in.
filled-le-gained :
    (b : List ℕ) (e r i n v : ℕ)
    → i ≤ n
    → n < i + r
    → filled (bucket b n) e (n - e) v ≤ gained b e r i v
filled-le-gained b e zero i n v h k = absurd (omega arith)
filled-le-gained b e (suc r) i n v h k = elim (ℕ_discrete i n) [
  | yes q ↦ rw (← q) (omega arith)
  | no ne ↦ omega (arith, filled-le-gained b e r (i + 1) n v (omega arith) (omega arith))
]

filled_next : (count e n : ℕ) → e + e < n → filled count e (n - e) (n - e) ≡ count
filled_next count e n h = ground arith

-- The smallest sample is not brought up to date: where it is more than twice the interval, what
-- stats_correct returns is the histogram of no list of samples at all, since it has samples below
-- its minimum (while the filled-in counts stay below 2^64).
pub stats_correct-loses_minimum :
    (fuel : ℕ) (s t : Stats) (e : ℕ) (ys : List ℕ)
    → 0 < e
    → e + e < s.min
    → s.min ≤ s.max
    → s.max < length s.buckets
    → length s.buckets ≤ fuel
    → ((v : ℕ) → bucket s.buckets v < u64)
    → 0 < bucket s.buckets s.min
    → bucket s.buckets (s.min - e) + gained s.buckets e (s.max + 1 - e * 2) (e * 2) (s.min - e)
      < u64
    → stats_correct fuel s e ≡ some t
    → ¬ Represents t ys
stats_correct-loses_minimum fuel s t e ys p low ordered inside enough words there room ok r =
    let c = stats_correct-Corrected fuel s e p inside enough words in
    let same : c.result ≡ t = cc (c.returns, ok) in
    let v : ℕ = s.min - e in
    let share : filled (bucket s.buckets s.min) e (s.min - e) v
        ≤ gained s.buckets e (s.max + 1 - e * 2) (e * 2) v =
      filled-le-gained s.buckets e (s.max + 1 - e * 2) (e * 2) s.min v (omega arith)
        (omega arith) in
    let here : filled (bucket s.buckets s.min) e (s.min - e) v ≡ bucket s.buckets s.min =
      filled_next (bucket s.buckets s.min) e s.min low in
    let r' : Represents c.result ys = subst (λ u. Represents u ys) (sym same) r in
    omega (arith, c.cells v, r'.cells v, r'.low, c.same_min, times-below v ys)
