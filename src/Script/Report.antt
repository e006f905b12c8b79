-- ===== src/Script/Report.antt =====
-- src/script.c: script_summary, script_errors, script_push_stats and script_done.
use wrk_offloadenginesupport.Prelude.{ℕ, List, [], ◌∷◌, codes}
use wrk_offloadenginesupport.Connection.{Errors}
use wrk_offloadenginesupport.Lua.{
  ◌>>=◌, Result, Lua, Machine, Histogram, latency, requests, base, stats_pointer, pop, push_value,
  get_global, get_metatable, set_field_at, push_new_table, push_userdata, set_metatable_below, call,
}
use wrk_offloadenginesupport.Script.Fields.{TableField, number_value, set_fields}

abbrev pub summary_fields : ℕ → ℕ → ℕ → List TableField
summary_fields duration completed bytes =
    (codes "duration", number_value duration)
    ∷ (codes "requests", number_value completed)
    ∷ (codes "bytes", number_value bytes)
    ∷ []

abbrev pub error_fields : Errors → List TableField
error_fields e =
    (codes "connect", number_value e.connect)
    ∷ (codes "read", number_value e.read)
    ∷ (codes "write", number_value e.write)
    ∷ (codes "status", number_value e.status)
    ∷ (codes "timeout", number_value e.timeout)
    ∷ []

module _ (L : Lua) where
  unfoldable pub script_summary : ℕ → ℕ → ℕ → Machine L → Result (Machine L)
  unfolding set_fields
  script_summary duration completed bytes m =
      set_fields L (base 1) (summary_fields duration completed bytes) (push_new_table L m)

  unfoldable pub script_errors : Errors → Machine L → Result (Machine L)
  unfolding set_fields
  script_errors e m = do
    m₁ ← set_fields L (base 2) (error_fields e) (push_new_table L m)
    set_field_at L (base 1) (codes "errors") m₁

  unfoldable pub script_push_stats : Histogram → Machine L → Result (Machine L)
  script_push_stats s m = do
    m' ← get_metatable L (codes "wrk.stats") (push_userdata L (stats_pointer s) m)
    set_metatable_below L m'

  unfoldable pub script_done : Machine L → Result (Machine L)
  unfolding script_push_stats
  script_done m = do
    m₁ ← get_global L (codes "done") m
    m₂ ← push_value L (base 1) m₁
    m₃ ← script_push_stats latency m₂
    m₄ ← script_push_stats requests m₃
    m₅ ← call L 3 0 m₄
    pop L 1 m₅

  -- What main does with them at its end, where the script has a function `done`.
  unfoldable pub report : ℕ → ℕ → ℕ → Errors → Machine L → Result (Machine L)
  unfolding script_summary script_errors script_done
  report duration completed bytes e m = do
    m₁ ← script_summary duration completed bytes m
    m₂ ← script_errors e m₁
    script_done m₂
