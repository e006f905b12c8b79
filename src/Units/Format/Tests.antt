-- ===== src/Units/Format/Tests.antt =====
-- Runs of the printing of src/units.c, and the theorems about it at a concrete arithmetic.
use wrk_offloadenginesupport.Prelude.{ℕ, ◌≡◌, ◌⊎◌, refl, true, some, codes, ◌++◌, ◌∷◌, []}
use wrk_offloadenginesupport.Floating.Hundredths.{hundredths}
use wrk_offloadenginesupport.Units.{metric_units}
use wrk_offloadenginesupport.Units.Format.{
  aprintf, format_parts, format_time_us, format_time_s, format_metric, format_binary, threshold,
  Chosen, format_parts-Chosen, format_time_s-no_hours,
}

format_time_us_runs : format_time_us hundredths 6000000000 ≡ some (1 ∷ 0 ∷ codes "m")
unfolding format_time_us
format_time_us_runs = refl

format_metric_runs : format_metric hundredths 1200000 ≡ some (12 ∷ 0 ∷ codes "k")
unfolding format_metric
format_metric_runs = refl

format_binary_runs : format_binary hundredths 5000 ≡ some (50 ∷ 0 ∷ [])
unfolding format_binary
format_binary_runs = refl

aprintf_runs : aprintf true (some (codes "a")) (codes "b") ≡ some (codes "ab")
unfolding aprintf
aprintf_runs = refl

format_parts-Chosen_example :
    (k : ℕ) × Chosen hundredths 1000
      (threshold hundredths metric_units)
      metric_units.units
      1200000
      (codes "")
      k
      (format_parts hundredths 1200000 metric_units)
format_parts-Chosen_example = format_parts-Chosen hundredths 1200000 metric_units

format_time_s-no_hours_example :
    (amt : ℕ) × ((format_time_s hundredths 36000000 ≡ some (hundredths.print 0 amt ++ codes "s"))
      ⊎ (format_time_s hundredths 36000000 ≡ some (hundredths.print 0 amt ++ codes "m")))
format_time_s-no_hours_example = format_time_s-no_hours hundredths 36000000
