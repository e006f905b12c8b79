-- ===== src/Units/Format.antt =====
-- src/units.c, format_units and the functions on it, and src/aprintf.c.
mod Tests
use wrk_offloadenginesupport.Prelude.{
  ℕ, zero, suc, ◌+◌, ◌≤◌, ◌<◌, ◌≡◌, refl, ◌⊎◌, inl, inr, Bool, true, false, List, [], ◌∷◌, ◌++◌,
  Bytes, if◌then◌else◌, arith, Bool-cases, ap, Option, none, some, length, get_or, codes,
}
use wrk_offloadenginesupport.Floating.{LongDouble}
use wrk_offloadenginesupport.Units.{Units, binary_units, metric_units, time_units_us, time_units_s}

-- `aprintf(&s, ...)` with the text that the format produces: `realloc` grows the string and the
-- text goes to its end. `room` is what `realloc` answers; where it fails `s` is NULL.
pub aprintf : Bool → Option Bytes → Bytes → Option Bytes
aprintf false s text = none
aprintf true none text = some text
aprintf true (some s) text = some (s ++ text)

module _ (F : LongDouble) where
  open F use {Number, ratio, over, times, at_least, print}

  -- The loop over `m->units` from index `i`: it looks at `m->units[i+1]`.
  pub format_loop : ℕ → Number → List Bytes → Number → Bytes → Number × Bytes
  format_loop step scale [] amt unit = (amt, unit)
  format_loop step scale (u ∷ []) amt unit = (amt, unit)
  format_loop step scale (u ∷ v ∷ us) amt unit =
      let next = format_loop step scale (v ∷ us) (over amt (ratio step 1)) u in
      if at_least amt scale then next else (amt, unit)

  -- `m->scale * 0.85`
  pub threshold : Units → Number
  threshold m = times (ratio m.scale 1) (ratio 85 100)

  -- The amount and the unit that `format_units` prints.
  pub format_parts : Number → Units → Number × Bytes
  unfolding format_loop threshold
  format_parts n m = format_loop m.scale (threshold m) m.units n m.base

  pub format_units : Number → Units → ℕ → Option Bytes
  unfolding format_parts aprintf
  format_units n m p = let (amt, unit) = format_parts n m in aprintf true none (print p amt ++ unit)

  pub format_binary : Number → Option Bytes
  unfolding format_units
  format_binary n = format_units n binary_units 2

  pub format_metric : Number → Option Bytes
  unfolding format_units
  format_metric n = format_units n metric_units 2

  pub format_time_us : Number → Option Bytes
  unfolding format_units
  format_time_us n =
      if at_least n (ratio 1000000 1)
      then format_units (over n (ratio 1000000 1)) time_units_s 2
      else format_units n time_units_us 2

  pub format_time_s : Number → Option Bytes
  unfolding format_units
  format_time_s n = format_units n time_units_s 0

  -- `n` divided `k` times by the scale.
  abbrev pub divided : ℕ → Number → ℕ → Number
  divided step n zero = n
  divided step n (suc k) = divided step (over n (ratio step 1)) k

  -- What a choice of `k` divisions is, from a table of larger units and the unit at hand.
  pub record Chosen (step : ℕ) (scale : Number) (us : List Bytes) (n : Number) (unit : Bytes)
      (k : ℕ) (r : Number × Bytes) : Type 0 where
    pub amount : r.0 ≡ divided step n k
    pub name : r.1 ≡ get_or (unit ∷ us) k []
    pub inside : (k < length us) ⊎ (k ≡ 0)
    pub needed : (j : ℕ) → j < k → at_least (divided step n j) scale ≡ true
    pub stopped : (at_least r.0 scale ≡ false) ⊎ (length us ≤ k + 1)

  -- One more division: the choice for the amount after it, and what it needs before.
  Chosen-suc :
      (step : ℕ) (scale : Number) (u v : Bytes) (us : List Bytes) (amt : Number) (unit : Bytes)
      (k : ℕ) (r : Number × Bytes)
      → at_least amt scale ≡ true
      → Chosen step scale (v ∷ us) (over amt (ratio step 1)) u k r
      → Chosen step scale (u ∷ v ∷ us) amt unit (suc k) r
  Chosen-suc step scale u v us amt unit k r more c = record {
    amount = c.amount;
    name = c.name;
    inside = inl (omega (arith, c.inside));
    needed = below;
    stopped = ground (arith, c.stopped);
  }
    where
      below : (j : ℕ) → j < suc k → at_least (divided step amt j) scale ≡ true
      below zero h = more
      below (suc j) h = c.needed j (omega arith)

  Chosen-zero :
      (step : ℕ) (scale : Number) (us : List Bytes) (amt : Number) (unit : Bytes)
      → (at_least amt scale ≡ false) ⊎ (length us ≤ 1)
      → Chosen step scale us amt unit 0 (amt, unit)
  Chosen-zero step scale us amt unit h = record {
    amount = refl;
    name = refl;
    inside = inr refl;
    needed = λ j lt. absurd (omega arith);
    stopped = ground (arith, h);
  }

  format_loop-Chosen :
      (step : ℕ) (scale : Number) (us : List Bytes) (amt : Number) (unit : Bytes)
      → (k : ℕ) × Chosen step scale us amt unit k (format_loop step scale us amt unit)
  unfolding format_loop
  format_loop-Chosen step scale [] amt unit =
      (0, Chosen-zero step scale [] amt unit (inr (omega arith)))
  format_loop-Chosen step scale (u ∷ []) amt unit =
      (0, Chosen-zero step scale (u ∷ []) amt unit (inr (omega arith)))
  format_loop-Chosen step scale (u ∷ v ∷ us) amt unit = elim (Bool-cases (at_least amt scale)) [
    | inl more ↦
        let (k, c) = format_loop-Chosen step scale (v ∷ us) (over amt (ratio step 1)) u in
        (suc k, rw more (Chosen-suc step scale u v us amt unit k _ more c))
    | inr enough ↦ (0, rw enough (Chosen-zero step scale (u ∷ v ∷ us) amt unit (inl enough)))
  ]

  -- format_units divides by the scale some `k` times and prints the amount in unit `k` (unit 0 is
  -- the base): each division was made since the amount had reached 85% of the scale,
  -- and it stops when the amount is below that, or one unit short of the end of the table.
  pub format_parts-Chosen :
      (n : Number) (m : Units)
      → (k : ℕ) × Chosen m.scale (threshold m) m.units n m.base k (format_parts n m)
  unfolding format_parts
  format_parts-Chosen n m = format_loop-Chosen m.scale (threshold m) m.units n m.base

  -- format_time_s prints every time in seconds or in minutes, however long it is: the last unit
  -- of its table, the hour, is never used.
  pub format_time_s-no_hours :
      (n : Number)
      → (amt : Number) × ((format_time_s n ≡ some (print 0 amt ++ codes "s"))
          ⊎ (format_time_s n ≡ some (print 0 amt ++ codes "m")))
  unfolding format_time_s
  format_time_s-no_hours n = elim (Bool-cases (at_least n (threshold time_units_s))) [
    | inl large ↦ (over n (ratio 60 1), inr (rw large))
    | inr small ↦ (n, inl (rw small))
  ]
