-- ===== src/Script/Balance/Setups.antt =====
-- Calls of wrk.setup in which the script uses the thread that it is given (src/script.c,
-- script_thread_set and script_thread_get).
use wrk_offloadenginesupport.Prelude.{ℕ, [], ◌∷◌, Bytes, arith}
use wrk_offloadenginesupport.Lua.{
  ◌>>=◌, ok, Lua, Val, nil, boolean, number, text, table, function, cfunction, userdata,
}
use wrk_offloadenginesupport.Script.Setup.{SetupCall}
use wrk_offloadenginesupport.Script.Threads.{checkthread, script_thread_set, script_thread_get}
use wrk_offloadenginesupport.Script.Threads.Copying.{Plain}
use wrk_offloadenginesupport.Script.Balance.{made}
use wrk_offloadenginesupport.Script.Balance.Calls.{KeepsStack}

module _ (L : Lua) where
  -- `thread:set(name, v)`
  unfoldable pub setting : Bytes → Val L → SetupCall L
  unfolding script_thread_set
  setting name v h f u n =
      script_thread_set L 1 (made L (v ∷ text name ∷ u ∷ []) h) n >>= λ q. ok (q.1.0.heap, q.1.1)

  -- `thread:get(name)`
  unfoldable pub getting : ℕ → Bytes → SetupCall L
  unfolding script_thread_get
  getting fuel name h f u n =
      script_thread_get L fuel (made L (text name ∷ u ∷ []) h) n >>= λ q. ok (q.1.0.heap, q.1.1)

  -- Setting a plain value keeps the stack of the thread's state.
  pub setting-KeepsStack : (name : Bytes) (v : Val L) → Plain L v → KeepsStack L (setting name v)
  unfolding setting checkthread
  setting-KeepsStack name nil plain h f u n = ground arith
  setting-KeepsStack name (boolean b) plain h f u n = ground arith
  setting-KeepsStack name (number k) plain h f u n = ground arith
  setting-KeepsStack name (text s) plain h f u n = ground arith
  setting-KeepsStack name (table r) plain h f u n = absurd plain
  setting-KeepsStack name (function r) plain h f u n = absurd plain
  setting-KeepsStack name (cfunction g) plain h f u n = absurd plain
  setting-KeepsStack name (userdata r) plain h f u n = absurd plain
