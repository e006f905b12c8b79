-- ===== src/Stats/Moments/Tests.antt =====
-- Runs of the statistics in `long double` of src/stats.c, in hundredths, and the theorems about them.
use wrk_offloadenginesupport.Prelude.{ℕ, ◌≡◌, ◌<◌, refl, List, [], ◌∷◌, arith}
use wrk_offloadenginesupport.Floating.Hundredths.{hundredths}
use wrk_offloadenginesupport.Stats.{
  Stats, stats_alloc, stats_record, swap_min, swap_max, sum_loop, percentile_at,
}
use wrk_offloadenginesupport.Stats.Samples.{Represents}
use wrk_offloadenginesupport.Stats.Record.{record_all, record_all-Represents}
use wrk_offloadenginesupport.Stats.Moments.{
  stats_mean, stats_stdev, stats_within_stdev, stats_percentile, rank_of, AtRank,
  stats_percentile-AtRank,
}

abbrev four : Stats
four = record { count = 4; limit = 6; min = 1; max = 5; buckets = 0 ∷ 1 ∷ 0 ∷ 2 ∷ 0 ∷ 1 ∷ [] }

abbrev four_samples : List ℕ
four_samples = 1 ∷ 3 ∷ 3 ∷ 5 ∷ []

four-Represents : Represents four four_samples
unfolding record_all stats_alloc stats_record swap_min swap_max
four-Represents = record_all-Represents 5 (5 ∷ 3 ∷ 3 ∷ 1 ∷ []) (omega arith) (omega arith)

mean_runs : stats_mean hundredths four ≡ 300
unfolding stats_mean sum_loop
mean_runs = refl

stdev_runs : stats_stdev hundredths (record four { count = 1 }) 300 ≡ 0
unfolding stats_stdev
stdev_runs = refl

within_runs : stats_within_stdev hundredths four 300 100 1 ≡ 5000
unfolding stats_within_stdev
within_runs = refl

percentile_runs : stats_percentile hundredths four 5000 ≡ 3
unfolding stats_percentile percentile_at
percentile_runs = refl

-- The rank for 100 percent is one more than the number of samples.
percentile_of_all : stats_percentile hundredths four 10000 ≡ 0
unfolding stats_percentile percentile_at
percentile_of_all = refl

ranked : 0 < rank_of hundredths 4 5000
unfolding rank_of
ranked = omega arith

stats_percentile-AtRank_example :
    AtRank hundredths four_samples
      (rank_of hundredths 4 5000)
      (stats_percentile hundredths four 5000)
stats_percentile-AtRank_example =
    stats_percentile-AtRank hundredths four four_samples 5000 four-Represents (omega arith) ranked
