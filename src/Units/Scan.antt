-- ===== src/Units/Scan.antt =====
-- What scan_time and scan_metric of src/units.c read, and what they refuse.
use wrk_offloadenginesupport.Prelude.{
  ℕ, ◌*◌, ◌%◌, ◌<◌, ◌≡◌, refl, ◌∙◌, true, false, [], ◌∷◌, ◌++◌, u64, Bytes, arith, ap, sym, none,
  some, codes, append-nil,
}
use wrk_offloadenginesupport.Units.{
  Units, scan_result, scan_units, scan_time, scan_metric, time_units_s, metric_units,
}
use wrk_offloadenginesupport.Units.Scanf.{is_digit, is_space, scan_u64_2s, convert, clip}
use wrk_offloadenginesupport.Units.Decimal.{decimal, scan_u64_2s-decimal}

clip_small : (n : ℕ) → n < u64 → clip false n ≡ n
unfolding clip
clip_small n h = ground arith

scan_bare : (n : ℕ) → n < u64 → scan_u64_2s (decimal n) ≡ record { count = 1; base = n; unit = [] }
scan_bare n h = ap scan_u64_2s (sym (append-nil (decimal n))) ∙ scan_u64_2s-decimal n [] tt ∙ last
  where
    last : convert false (n, true, []) ≡ record { count = 1; base = n; unit = [] }
    last = unfold convert in ap (λ k. record { count = 1; base = k; unit = [] }) (clip_small n h)

scan_letter :
    (n c : ℕ)
    → n < u64
    → is_digit c ≡ false
    → is_space c ≡ false
    → scan_u64_2s (decimal n ++ c ∷ []) ≡ record { count = 2; base = n; unit = c ∷ [] }
scan_letter n c h digit space = scan_u64_2s-decimal n (c ∷ []) digit ∙ last
  where
    last : convert false (n, true, c ∷ []) ≡ record { count = 2; base = n; unit = c ∷ [] }
    last = unfold convert in rw (space, space, clip_small n h)

scan_letters :
    (n c d : ℕ) (rest : Bytes)
    → n < u64
    → is_digit c ≡ false
    → is_space c ≡ false
    → is_space d ≡ false
    → scan_u64_2s (decimal n ++ c ∷ d ∷ rest) ≡ record { count = 2; base = n; unit = c ∷ d ∷ [] }
scan_letters n c d rest h digit space space' = scan_u64_2s-decimal n (c ∷ d ∷ rest) digit ∙ last
  where
    last : convert false (n, true, c ∷ d ∷ rest) ≡ record { count = 2; base = n; unit = c ∷ d ∷ [] }
    last = unfold convert in rw (space, space, space', clip_small n h)

-- The suffixes that time_units_s and metric_units know, and what each one multiplies by.
pub data TimeUnit : Type 0 where
  bare second minute hour : TimeUnit

pub data MetricUnit : Type 0 where
  one kilo mega giga tera peta : MetricUnit

abbrev pub seconds : TimeUnit → ℕ
seconds bare = 1
seconds second = 1
seconds minute = 60
seconds hour = 3600

abbrev pub time_suffix : TimeUnit → Bytes
time_suffix bare = []
time_suffix second = codes "s"
time_suffix minute = codes "m"
time_suffix hour = codes "h"

abbrev pub power : MetricUnit → ℕ
power one = 1
power kilo = 1_000
power mega = 1_000_000
power giga = 1_000_000_000
power tera = 1_000_000_000_000
power peta = 1_000_000_000_000_000

abbrev pub metric_suffix : MetricUnit → Bytes
metric_suffix one = []
metric_suffix kilo = codes "k"
metric_suffix mega = codes "M"
metric_suffix giga = codes "G"
metric_suffix tera = codes "T"
metric_suffix peta = codes "P"

-- One letter: the word is looked up in the table.
after_letter :
    (m : Units) (n c : ℕ)
    → n < u64
    → is_digit c ≡ false
    → is_space c ≡ false
    → scan_units (decimal n ++ c ∷ []) m
      ≡ scan_result (record { count = 2; base = n; unit = c ∷ [] }) m
unfolding scan_units
after_letter m n c h digit space = ap (λ r. scan_result r m) (scan_letter n c h digit space)

after_nothing :
    (m : Units) (n : ℕ)
    → n < u64
    → scan_units (decimal n) m ≡ scan_result (record { count = 1; base = n; unit = [] }) m
unfolding scan_units
after_nothing m n h = ap (λ r. scan_result r m) (scan_bare n h)

-- scan_time reads back the numeral of `n`, below 2^64, with any of its suffixes as `n` of that unit
-- in seconds, modulo 2^64.
pub scan_time-decimal :
    (n : ℕ) (u : TimeUnit)
    → n < u64
    → scan_time (decimal n ++ time_suffix u) ≡ some (n * seconds u % u64)
unfolding scan_time
scan_time-decimal n bare h =
    ap (λ s. scan_time s) (append-nil (decimal n)) ∙ after_nothing time_units_s n h
scan_time-decimal n second h = after_letter time_units_s n b's' h refl refl
scan_time-decimal n minute h = after_letter time_units_s n b'm' h refl refl
scan_time-decimal n hour h = after_letter time_units_s n b'h' h refl refl

-- scan_metric reads back the numeral of `n`, below 2^64, with any of its suffixes as `n` times that
-- power of 1000, modulo 2^64.
pub scan_metric-decimal :
    (n : ℕ) (u : MetricUnit)
    → n < u64
    → scan_metric (decimal n ++ metric_suffix u) ≡ some (n * power u % u64)
unfolding scan_metric
scan_metric-decimal n one h =
    ap (λ s. scan_metric s) (append-nil (decimal n)) ∙ after_nothing metric_units n h
scan_metric-decimal n kilo h = after_letter metric_units n b'k' h refl refl
scan_metric-decimal n mega h = after_letter metric_units n b'M' h refl refl
scan_metric-decimal n giga h = after_letter metric_units n b'G' h refl refl
scan_metric-decimal n tera h = after_letter metric_units n b'T' h refl refl
scan_metric-decimal n peta h = after_letter metric_units n b'P' h refl refl

letters_rejected :
    (n c d : ℕ)
    → (scan_result (record { count = 2; base = n; unit = c ∷ d ∷ [] }) time_units_s ≡ none)
      × (scan_result (record { count = 2; base = n; unit = c ∷ d ∷ [] }) metric_units ≡ none)
unfolding scan_result
letters_rejected n c d = (ground arith, ground arith)

-- A number below 2^64 followed by two or more characters is refused by both, whatever follows them,
-- where the first two are no white space and the first is no digit: no unit has two letters.
pub scan_two_letters :
    (n c d : ℕ) (rest : Bytes)
    → n < u64
    → is_digit c ≡ false
    → is_space c ≡ false
    → is_space d ≡ false
    → (scan_time (decimal n ++ c ∷ d ∷ rest) ≡ none)
      × (scan_metric (decimal n ++ c ∷ d ∷ rest) ≡ none)
unfolding scan_time scan_metric
scan_two_letters n c d rest h digit space space' = (
  ap (λ r. scan_result r time_units_s) e ∙ (letters_rejected n c d).0,
  ap (λ r. scan_result r metric_units) e ∙ (letters_rejected n c d).1,
)
  where
    e : scan_u64_2s (decimal n ++ c ∷ d ∷ rest) ≡ record { count = 2; base = n; unit = c ∷ d ∷ [] }
    e = scan_letters n c d rest h digit space space'
