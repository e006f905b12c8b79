-- ===== src/Units/Tests.antt =====
-- Runs of the parsing of src/units.c, and the theorems about it at concrete inputs.
use wrk_offloadenginesupport.Prelude.{
  ◌*◌, ◌%◌, ◌≡◌, refl, ◌^◌, ◌-◌, none, some, codes, ◌++◌, u64, arith,
}
use wrk_offloadenginesupport.Units.{scan_metric, scan_time}
use wrk_offloadenginesupport.Units.Decimal.{decimal}
use wrk_offloadenginesupport.Units.Scan.{minute, time_suffix, scan_time-decimal}

scan_metric_runs : scan_metric (codes " +12k") ≡ some 12000
unfolding scan_metric
scan_metric_runs = refl

scan_time_runs : scan_time (codes "2H") ≡ some 7200
unfolding scan_time
scan_time_runs = refl

scan_time_bad : scan_time (codes "5ms") ≡ none
unfolding scan_time
scan_time_bad = refl

scan_time_neg : scan_time (codes "-5") ≡ some (2 ^ 64 - 5)
unfolding scan_time
scan_time_neg = refl

scan_time_big : scan_time (codes "99999999999999999999999 s") ≡ some (2 ^ 64 - 1)
unfolding scan_time
scan_time_big = refl

scan_time-decimal_example : scan_time (decimal 5 ++ time_suffix minute) ≡ some (5 * 60 % u64)
scan_time-decimal_example = scan_time-decimal 5 minute (omega arith)
