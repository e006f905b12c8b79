-- ===== src/Script/Histograms.antt =====
-- src/script.c: the histograms that scripts see, `latency` and `requests`.
pub mod Index
mod Tests
use wrk_offloadenginesupport.Prelude.{
  ℕ, suc, ◌+◌, ◌-◌, ◌%◌, Bool, true, false, Option, none, some, List, [], ◌∷◌, Bytes, codes, u64,
  if◌then◌else◌, ◌&&◌, ◌==◌,
}
use wrk_offloadenginesupport.Floating.{LongDouble}
use wrk_offloadenginesupport.Stats.{Stats, stats_popcount, stats_value_at}
use wrk_offloadenginesupport.Stats.Moments.{stats_mean, stats_stdev, stats_percentile}
use wrk_offloadenginesupport.Lua.{
  ◌>>=◌, Result, ok, raised, broken, unfinished, or_raised, or_broken, or_crashed, Lua, Machine,
  Histogram, Payload, stats_pointer, base, number, cfunction, at, push, push_u64,
}
use wrk_offloadenginesupport.Lua as CFunctions

-- `!strcmp(a, b)`, of strings without a NUL: strcmp would stop there.
unfoldable pub text_eq : Bytes → Bytes → Bool
text_eq [] [] = true
text_eq [] (y ∷ b) = false
text_eq (x ∷ a) [] = false
text_eq (x ∷ a) (y ∷ b) = (x == y) && text_eq a b

abbrev pub as_histogram : Payload → Option Histogram
as_histogram (stats_pointer s) = some s
as_histogram _ = none

-- `lua_Number` against `long double`, and what the pointers point to.
module _ (L : Lua) (F : LongDouble) (widen : L.Number → F.Number) (narrow : F.Number → L.Number)
    (stats_of : Histogram → Stats) where
  unfoldable pub checkstats : Machine L → Result Stats
  checkstats m = do
    v ← at L (base 1) m
    p ← or_raised (L.check_userdata m.heap v (codes "wrk.stats"))
    s ← or_raised (as_histogram p)
    ok (stats_of s)

  -- luaL_checknumber raises an error where the argument is no number.
  unfoldable pub script_stats_percentile : Machine L → Result (ℕ × Machine L)
  unfolding checkstats
  script_stats_percentile m = do
    s ← checkstats m
    v ← at L (base 2) m
    p ← or_raised (L.check_number v)
    ok (1, push_u64 L (stats_percentile F s (widen p)) m)

  unfoldable pub script_stats_call : Machine L → Result (ℕ × Machine L)
  unfolding checkstats
  script_stats_call m = do
    s ← checkstats m
    v ← at L (base 2) m
    let (value, count) = stats_value_at s ((L.to_u64 (L.to_number v) + u64 - 1) % u64)
    ok (2, push_u64 L count (push_u64 L value m))

  abbrev pub when : Bool → (Machine L → Machine L) → Machine L → Machine L
  when b f m = if b then f m else m

  unfoldable pub script_stats_index : Machine L → Result (ℕ × Machine L)
  unfolding checkstats text_eq
  script_stats_index m = do
    s ← checkstats m
    v ← at L (base 2) m
    method ← or_crashed (L.to_text v)
    let m₁ = when (text_eq (codes "min") method) (push_u64 L s.min) m
    let m₂ = when (text_eq (codes "max") method) (push_u64 L s.max) m₁
    let m₃ = when (text_eq (codes "mean") method) (push L (number (narrow (stats_mean F s)))) m₂
    let m₄ =
        when (text_eq (codes "stdev") method)
          (push L (number (narrow (stats_stdev F s (stats_mean F s))))) m₃
    let m₅ =
        when (text_eq (codes "percentile") method) (push L (cfunction CFunctions.stats_percentile))
          m₄
    ok (1, m₅)

  unfoldable pub script_stats_len : Machine L → Result (ℕ × Machine L)
  unfolding checkstats
  script_stats_len m = do s ← checkstats m; ok (1, push_u64 L (stats_popcount s) m)
