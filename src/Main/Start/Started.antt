-- ===== src/Main/Start/Started.antt =====
-- src/wrk.c: the Lua states with which main has started its threads.
use wrk_offloadenginesupport.Prelude.{
  ℕ, zero, suc, ◌+◌, ◌≡◌, refl, ap, ◌∙◌, Bool, true, false, List, [], ◌∷◌, Bytes, codes, length,
  if◌then◌else◌,
}
use wrk_offloadenginesupport.Arguments.{Parsed}
use wrk_offloadenginesupport.Url.{copy_url_part}
use wrk_offloadenginesupport.Lua.{
  Result, ok, raised, crashed, broken, unfinished, or_crashed, Lua, Machine,
}
use wrk_offloadenginesupport.Script.Setup.{script_resolve, script_init, SetupCall}
use wrk_offloadenginesupport.Script.Requests.{
  ParsedRequest, Verified, pipelined, refused, script_request, script_verify_request,
  script_is_function, script_is_static, script_has_delay, script_want_response,
}
use wrk_offloadenginesupport.Script.Balance.{Ends, SecondHas, BothHave}
use wrk_offloadenginesupport.Script.Balance.Calls.{
  script_request-Ends, script_is_function-Ends, script_resolve-Ends, script_init-Ends, KeepsStack,
}
use wrk_offloadenginesupport.Script.Balance.Create.{left_by, script_create-Ends}
use wrk_offloadenginesupport.Main.Chains.{bind-Ends, or_crashed_any}
use wrk_offloadenginesupport.Main.Start.{
  Settings, pipeline_of, read_settings, new_state, settings_of, start_thread, start_threads,
  no_settings, start_main, service_of,
}

module _ (L : Lua) (parser : Bytes → ParsedRequest) (spawned : ℕ → Bool) (setup : SetupCall L)
    (p : Parsed) (argv : List Bytes) where
  -- What a new state leaves on its stack.
  abbrev pub Fresh : Machine L → Type 0
  Fresh m = (h : L.Heap) × (m.stack ≡ left_by L p.arguments.script h)

  abbrev pub AllFresh : List (Machine L) → Type 0
  AllFresh [] = Unit {0}
  AllFresh (m ∷ ms) = Fresh m × AllFresh ms

  static-Ends : (n : Machine L) → Ends (SecondHas L n.stack) (script_is_static L n)
  unfolding script_is_static
  static-Ends n =
      bind-Ends (SecondHas L n.stack) (SecondHas L n.stack)
        (script_is_function L (codes "request") n) _ (script_is_function-Ends L (codes "request") n)
        (λ a e. e)

  verify-Ends : (n : Machine L) → Ends (SecondHas L n.stack) (script_verify_request L parser n)
  unfolding script_verify_request
  verify-Ends n =
      bind-Ends (SecondHas L n.stack) (SecondHas L n.stack) (script_request L n) _
        (script_request-Ends L n) (λ a e. e)

  pipeline-Ends : (v : Verified) → Ends (λ n. Unit {0}) (pipeline_of L v)
  pipeline-Ends (pipelined n) = tt
  pipeline-Ends (refused message line column) = tt

  read_settings-Ends : (n : Machine L) → Ends (SecondHas L n.stack) (read_settings L parser n)
  unfolding read_settings script_has_delay script_want_response
  read_settings-Ends n =
      let good : Settings × Machine L → Type 0 = λ q. q.1.stack ≡ n.stack in
      bind-Ends (SecondHas L n.stack) good (script_verify_request L parser n) _ (verify-Ends n)
        (λ a e.
          bind-Ends (λ k. Unit {0}) good (pipeline_of L a.0) _ (pipeline-Ends a.0)
            (λ k _.
              bind-Ends (SecondHas L a.1.stack) good (script_is_static L a.1) _ (static-Ends a.1)
                (λ b f.
                  bind-Ends (SecondHas L b.1.stack) good (script_is_function L (codes "delay") b.1)
                    _ (script_is_function-Ends L (codes "delay") b.1)
                    (λ c g.
                      bind-Ends (SecondHas L c.1.stack) good
                        (script_is_function L (codes "response") c.1) _
                        (script_is_function-Ends L (codes "response") c.1)
                        (λ d i. i ∙ g ∙ f ∙ e)))))

  settings_of-Ends :
      (i : ℕ) (s : Settings) (n : Machine L)
      → Ends (SecondHas L n.stack) (settings_of L parser spawned setup p argv i s n)
  unfolding settings_of
  settings_of-Ends zero s n = read_settings-Ends n
  settings_of-Ends (suc i) s n = refl

  -- A thread's state is fresh, and main's keeps its stack.
  abbrev ThreadDone : Machine L → Machine L × Settings × Machine L → Type 0
  ThreadDone m (n, s, m') = Fresh n × (m'.stack ≡ m.stack)

  abbrev pub ThreadsDone : ℕ → Machine L → List (Machine L) × Settings × Machine L → Type 0
  ThreadsDone k m (ns, s, m') = (length ns ≡ k) × AllFresh ns × (m'.stack ≡ m.stack)

  spawned-Ends :
      (b : Bool) (good : Machine L × Settings × Machine L → Type 0)
      (q : Machine L × Settings × Machine L)
      → good q
      → Ends good (if b then ok q else raised)
  spawned-Ends true good q h = h
  spawned-Ends false good q h = tt

  module _ (quiet : (L.run_source L.start (codes "wrk = require \"wrk\"")).0 ≡ [])
      (keeps : KeepsStack L setup) where
    start_thread-Ends :
        (i : ℕ) (s : Settings) (m : Machine L)
        → Ends (ThreadDone m) (start_thread L parser spawned setup p argv i s m)
    unfolding start_thread
    start_thread-Ends i s m =
        bind-Ends Fresh (ThreadDone m) (new_state L parser spawned setup p argv) _
          (script_create-Ends L p.arguments.script p.url p.parts p.headers quiet)
          (λ n (h, fresh).
            bind-Ends (BothHave L m.stack n.stack) (ThreadDone m) (script_init L setup i argv m n) _
              (script_init-Ends L setup keeps i argv m n)
              (λ a (kept, same).
                bind-Ends (SecondHas L a.1.stack) (ThreadDone m)
                  (settings_of L parser spawned setup p argv i s a.1) _ (settings_of-Ends i s a.1)
                  (λ b e.
                    spawned-Ends (spawned i) (ThreadDone m) (b.1, b.0, a.0)
                      ((h, e ∙ same ∙ fresh), kept))))

    start_threads-Ends :
        (k i : ℕ) (s : Settings) (m : Machine L)
        → Ends (ThreadsDone k m) (start_threads L parser spawned setup p argv k i s m)
    unfolding start_threads
    start_threads-Ends zero i s m = (refl, tt, refl)
    start_threads-Ends (suc k) i s m =
        bind-Ends (ThreadDone m) (ThreadsDone (suc k) m)
          (start_thread L parser spawned setup p argv i s m) _ (start_thread-Ends i s m)
          (λ a (fresh, kept).
            bind-Ends (ThreadsDone k a.2) (ThreadsDone (suc k) m)
              (start_threads L parser spawned setup p argv k (i + 1) a.1 a.2) _
              (start_threads-Ends k (i + 1) a.1 a.2)
              (λ b (long, all, same). (ap suc long, (fresh, all), same ∙ kept)))

    found-Ends :
        (b : Bool) (m : Machine L)
        → Fresh m
        → Ends
            (λ q. (length q.0 ≡ p.arguments.threads) × AllFresh q.0 × Fresh q.2)
            (if b
              then start_threads L parser spawned setup p argv p.arguments.threads 0
                  (no_settings L parser spawned setup p argv)
                  m
              else raised)
    found-Ends false m fresh = tt
    found-Ends true m (h, fresh) =
        bind_map
          (start_threads L parser spawned setup p argv p.arguments.threads 0
            (no_settings L parser spawned setup p argv) m)
          (start_threads-Ends p.arguments.threads 0 (no_settings L parser spawned setup p argv) m)
      where
        bind_map :
            (r : Result (List (Machine L) × Settings × Machine L))
            → Ends (ThreadsDone p.arguments.threads m) r
            → Ends (λ q. (length q.0 ≡ p.arguments.threads) × AllFresh q.0 × Fresh q.2) r
        bind_map (ok q) (long, all, same) = (long, all, (h, same ∙ fresh))
        bind_map raised e = tt
        bind_map crashed e = tt
        bind_map broken e = absurd e
        bind_map unfinished e = absurd e

    -- Where the chunk `wrk = require "wrk"` leaves nothing on a new stack, and wrk.setup leaves the
    -- stack of a thread's state as it was, main starts its threads without misusing a stack. If it comes to its end, there are `cfg.threads` states of threads,
    -- and each of them, and that of main, has on its stack what the file of the script has left there.
    pub start_main-Started :
        Ends
          (λ q. (length q.0 ≡ p.arguments.threads) × AllFresh q.0 × Fresh q.2)
          (start_main L parser spawned setup p argv)
    unfolding start_main
    start_main-Started =
        let good : List (Machine L) × Settings × Machine L → Type 0 =
          λ q. (length q.0 ≡ p.arguments.threads) × AllFresh q.0 × Fresh q.2 in
        bind-Ends (λ s. Unit {0}) good (or_crashed (copy_url_part p.url p.parts.host)) _
          (or_crashed_any _)
          (λ host _.
            bind-Ends (λ s. Unit {0}) good
              (or_crashed (
                service_of (copy_url_part p.url p.parts.port) (copy_url_part p.url p.parts.schema)))
              _ (or_crashed_any _)
              (λ service _.
                bind-Ends Fresh good (new_state L parser spawned setup p argv) _
                  (script_create-Ends L p.arguments.script p.url p.parts p.headers quiet)
                  (λ m (h, fresh).
                    bind-Ends (SecondHas L m.stack) good (script_resolve L host service m) _
                      (script_resolve-Ends L host service m)
                      (λ a e. found-Ends a.0 a.1 (h, e ∙ fresh)))))
