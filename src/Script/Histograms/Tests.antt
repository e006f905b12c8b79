-- ===== src/Script/Histograms/Tests.antt =====
-- Runs of the functions on histograms of src/script.c, and the theorem about them at a concrete input.
use wrk_offloadenginesupport.Prelude.{ℕ, ◌≡◌, refl, List, [], ◌∷◌, ◌++◌, codes}
use wrk_offloadenginesupport.Floating.Hundredths.{hundredths}
use wrk_offloadenginesupport.Stats.{
  Stats, stats_popcount, popcount_loop, stats_value_at, value_at_loop,
}
use wrk_offloadenginesupport.Lua.{ok, Histogram, latency, stats_pointer, number, text, userdata}
use wrk_offloadenginesupport.Lua.Simple.{simple, Object, payload}
use wrk_offloadenginesupport.Script.Balance.{made}
use wrk_offloadenginesupport.Script.Histograms.{
  checkstats, script_stats_call, script_stats_len, script_stats_index,
}
use wrk_offloadenginesupport.Script.Histograms.Index.{answered, script_stats_index-find}

abbrev four : Histogram → Stats
four g = record { count = 4; limit = 6; min = 1; max = 5; buckets = 0 ∷ 1 ∷ 0 ∷ 2 ∷ 0 ∷ 1 ∷ [] }

abbrev heap : List Object
heap = simple.start ++ (payload (stats_pointer latency) ∷ [])

abbrev keep : ℕ → ℕ
keep n = n

-- `latency(2)`: the second value and how often it occurs.
call_run :
    script_stats_call simple hundredths keep keep four
      (made simple (number 2 ∷ userdata 5 ∷ []) heap)
    ≡ ok (2, made simple (number 2 ∷ number 3 ∷ number 2 ∷ userdata 5 ∷ []) heap)
unfolding script_stats_call checkstats stats_value_at value_at_loop
call_run = refl

-- `#latency`
len_run :
    script_stats_len simple hundredths keep keep four (made simple (userdata 5 ∷ []) heap)
    ≡ ok (1, made simple (number 3 ∷ userdata 5 ∷ []) heap)
unfolding script_stats_len checkstats stats_popcount popcount_loop
len_run = refl

script_stats_index-find_example :
    script_stats_index simple hundredths keep keep four
      (made simple (text (codes "max") ∷ userdata 5 ∷ []) heap)
    ≡ answered simple hundredths keep (codes "max") (four latency) (userdata 5) heap
script_stats_index-find_example =
    script_stats_index-find simple hundredths keep keep four latency (userdata 5) heap (codes "max")
      refl refl
