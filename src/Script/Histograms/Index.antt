-- ===== src/Script/Histograms/Index.antt =====
-- src/script.c: script_stats_index against a table of the fields that a histogram has.
use wrk_offloadenginesupport.Prelude.{
  ℕ, ◌≡◌, refl, subst, ap₂, inl, inr, Bool, true, Option, none, some, List, [], ◌∷◌, Bytes, codes,
  arith, if◌then◌else◌, ◌==◌, ◌&&◌, Bool-cases, eq_self,
}
use wrk_offloadenginesupport.Floating.{LongDouble}
use wrk_offloadenginesupport.Stats.{Stats}
use wrk_offloadenginesupport.Stats.Moments.{stats_mean, stats_stdev}
use wrk_offloadenginesupport.Lua.{
  Result, ok, Lua, Machine, Val, Histogram, stats_pointer, number, text, cfunction,
  stats_percentile,
}
use wrk_offloadenginesupport.Script.Balance.{made}
use wrk_offloadenginesupport.Script.Histograms.{text_eq, checkstats, script_stats_index}

heads_eq : (x y : ℕ) (b : Bool) → ((x == y) && b) ≡ true → (x ≡ y) × (b ≡ true)
heads_eq x y b e = ground arith

pub text_eq-eq : (a b : Bytes) → text_eq a b ≡ true → a ≡ b
unfolding text_eq
text_eq-eq [] [] e = refl
text_eq-eq [] (y ∷ b) e = cc
text_eq-eq (x ∷ a) [] e = cc
text_eq-eq (x ∷ a) (y ∷ b) e =
    let (p, q) = heads_eq x y (text_eq a b) e in ap₂ (λ z c. z ∷ c) p (text_eq-eq a b q)

pub text_eq_refl : (a : Bytes) → text_eq a a ≡ true
unfolding text_eq
text_eq_refl [] = refl
text_eq_refl (x ∷ a) = rw (eq_self x, text_eq_refl a) refl

-- The value of the first field of this name.
abbrev pub find {ℓ} : {A : Type ℓ} → Bytes → List (Bytes × A) → Option A
unfolding text_eq
find k [] = none
find k ((name, v) ∷ rest) = let found = find k rest in if text_eq name k then some v else found

module _ (L : Lua) (F : LongDouble) (narrow : F.Number → L.Number) where
  abbrev pub stats_fields : Stats → List (Bytes × Val L)
  stats_fields s =
      (codes "min", number (L.from_u64 s.min))
      ∷ (codes "max", number (L.from_u64 s.max))
      ∷ (codes "mean", number (narrow (stats_mean F s)))
      ∷ (codes "stdev", number (narrow (stats_stdev F s (stats_mean F s))))
      ∷ (codes "percentile", cfunction stats_percentile)
      ∷ []

  -- What the script gets: the value on top.
  abbrev pub with_field : Option (Val L) → List (Val L) → List (Val L)
  with_field none st = st
  with_field (some v) st = v ∷ st

  abbrev pub answered : Bytes → Stats → Val L → L.Heap → Result (ℕ × Machine L)
  answered k s u h = ok (1, made L (with_field (find k (stats_fields s)) (text k ∷ u ∷ [])) h)

  module _ (widen : L.Number → F.Number) (stats_of : Histogram → Stats) (g : Histogram) (u : Val L)
      (h : L.Heap) where
    abbrev Answers : Bytes → Type 0
    Answers k =
        L.to_text (text k) ≡ some k
        → script_stats_index L F widen narrow stats_of (made L (text k ∷ u ∷ []) h)
          ≡ answered k (stats_of g) u h

    by_name : (name k : Bytes) → text_eq name k ≡ true → Answers name → Answers k
    by_name name k e = subst Answers (text_eq-eq name k e)

    -- A field of a histogram is looked up in a table of its five fields. For any other key nothing is
    -- pushed, so that the one result is the key itself.
    pub script_stats_index-find :
        (k : Bytes)
        → L.check_userdata h u (codes "wrk.stats") ≡ some (stats_pointer g)
        → L.to_text (text k) ≡ some k
        → script_stats_index L F widen narrow stats_of (made L (text k ∷ u ∷ []) h)
          ≡ answered k (stats_of g) u h
    unfolding script_stats_index checkstats text_eq
    script_stats_index-find k mine said = elim (Bool-cases (text_eq (codes "min") k)) [
      | inl e ↦ by_name (codes "min") k e (λ s. rw (mine, s)) said
      | inr e₁ ↦ elim (Bool-cases (text_eq (codes "max") k)) [
        | inl e ↦ by_name (codes "max") k e (λ s. rw (mine, s)) said
        | inr e₂ ↦ elim (Bool-cases (text_eq (codes "mean") k)) [
          | inl e ↦ by_name (codes "mean") k e (λ s. rw (mine, s)) said
          | inr e₃ ↦ elim (Bool-cases (text_eq (codes "stdev") k)) [
            | inl e ↦ by_name (codes "stdev") k e (λ s. rw (mine, s)) said
            | inr e₄ ↦ elim (Bool-cases (text_eq (codes "percentile") k)) [
              | inl e ↦ by_name (codes "percentile") k e (λ s. rw (mine, s)) said
              | inr e₅ ↦ rw (mine, said, e₁, e₂, e₃, e₄, e₅)
            ]
          ]
        ]
      ]
    ]
