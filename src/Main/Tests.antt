-- ===== src/Main/Tests.antt =====
-- Runs of the parts of main in src/wrk.c.
use wrk_offloadenginesupport.Prelude.{◌≡◌, refl, [], ◌∷◌, some}
use wrk_offloadenginesupport.Stats.{Stats}
use wrk_offloadenginesupport.Connection.{Thread}
use wrk_offloadenginesupport.Connection.Samples.{thread, empty_stats}
use wrk_offloadenginesupport.Main.{zeros, add_threads, correct_latency}

-- One sample of 3.
abbrev lone : Stats
lone = record empty_stats { count = 1; min = 3; max = 3; buckets = 0 ∷ 0 ∷ 0 ∷ 1 ∷ [] }

abbrev busy : Thread
busy = record thread { complete = 7; bytes = 100 }

totals_run : (add_threads zeros (busy ∷ busy ∷ [])).complete ≡ 14
unfolding add_threads
totals_run = refl

idle_run : correct_latency 4 lone 0 2 1000 ≡ some lone
unfolding correct_latency
idle_run = refl
