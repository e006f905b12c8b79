-- ===== src/Units.antt =====
-- src/units.c: the unit tables and the parsing of "<number><unit>" arguments.
pub mod Scanf
pub mod Decimal
pub mod Scan
pub mod Format
mod Tests
use Scanf.{Conversion, scan_u64_2s}
use wrk_offloadenginesupport.Prelude.{
  ℕ, zero, suc, ◌+◌, ◌*◌, ◌%◌, ◌≡◌, refl, Bool, true, false, not, ◌&&◌, Option, none, some, List,
  [], ◌∷◌, codes, u64, Bytes, ltb, leb, ◌==◌, if◌then◌else◌,
}

-- `units`: the factor from one unit to the next, the unit of a plain number, and the larger
-- units, smallest first (the array up to its NULL).
pub record Units : Type 0 where
  pub scale : ℕ
  pub base : Bytes
  pub units : List Bytes

abbrev pub time_units_us : Units
time_units_us = record { scale = 1000; base = codes "us"; units = codes "ms" ∷ codes "s" ∷ [] }

abbrev pub time_units_s : Units
time_units_s = record { scale = 60; base = codes "s"; units = codes "m" ∷ codes "h" ∷ [] }

abbrev pub binary_units : Units
binary_units = record {
  scale = 1024;
  base = codes "";
  units = codes "K" ∷ codes "M" ∷ codes "G" ∷ codes "T" ∷ codes "P" ∷ [];
}

abbrev pub metric_units : Units
metric_units = record {
  scale = 1000;
  base = codes "";
  units = codes "k" ∷ codes "M" ∷ codes "G" ∷ codes "T" ∷ codes "P" ∷ [];
}

to_lower : ℕ → ℕ
to_lower c = if leb b'A' c && leb c b'Z' then c + 32 else c

-- `!strncasecmp(a, b, n)`
pub strncasecmp_eq : ℕ → Bytes → Bytes → Bool
unfolding to_lower
strncasecmp_eq zero a b = true
strncasecmp_eq (suc n) [] [] = true
strncasecmp_eq (suc n) [] (y ∷ b) = false
strncasecmp_eq (suc n) (x ∷ a) [] = false
strncasecmp_eq (suc n) (x ∷ a) (y ∷ b) = (to_lower x == to_lower y) && strncasecmp_eq n a b

-- The loop over `m->units`: the scale of the unit that matches, if one does.
find_unit : ℕ → ℕ → List Bytes → Bytes → Option ℕ
find_unit step scale [] unit = none
find_unit step scale (u ∷ us) unit =
    let scale' = scale * step % u64 in
    let rest = find_unit step scale' us unit in
    if strncasecmp_eq 3 unit u then some scale' else rest

-- `*n = base * scale`, unless no unit matched.
scaled : ℕ → Option ℕ → Option ℕ
scaled b none = none
scaled b (some k) = some (b * k % u64)

-- The rest of `scan_units`, after the call of `sscanf`. `none` is the return value -1, with `*n` as
-- it was; `some v` is 0 with `*n = v`.
scan_result : Conversion → Units → Option ℕ
unfolding find_unit scaled strncasecmp_eq
scan_result r m =
    if ltb r.count 1
    then none
    else if (r.count == 2) && not (strncasecmp_eq 3 r.unit m.base)
    then scaled r.base (find_unit m.scale 1 m.units r.unit)
    else some (r.base * 1 % u64)

pub scan_units : Bytes → Units → Option ℕ
unfolding scan_result scan_u64_2s
scan_units s m = scan_result (scan_u64_2s s) m

unfoldable pub scan_metric : Bytes → Option ℕ
unfolding scan_units
scan_metric s = scan_units s metric_units

unfoldable pub scan_time : Bytes → Option ℕ
unfolding scan_units
scan_time s = scan_units s time_units_s
