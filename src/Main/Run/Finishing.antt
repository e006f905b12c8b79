-- ===== src/Main/Run/Finishing.antt =====
-- src/wrk.c: what main prints and reports when its threads have ended.
use wrk_offloadenginesupport.Prelude.{
  ℕ, ◌/◌, ◌≤◌, ◌<◌, ◌≡◌, refl, sym, subst, Bool, true, false, Option, none, some, [], ◌++◌, Bytes,
  codes, length, u64, inl, inr, if◌then◌else◌,
}
use wrk_offloadenginesupport.Floating.{LongDouble}
use wrk_offloadenginesupport.Stats.{Stats, bucket}
use wrk_offloadenginesupport.Arguments.{Parsed}
use wrk_offloadenginesupport.Lua.{ok, or_crashed, Lua, Machine}
use wrk_offloadenginesupport.Script.Requests.{script_has_done}
use wrk_offloadenginesupport.Script.Report.{report}
use wrk_offloadenginesupport.Script.Balance.{Ends, Has, SecondHas}
use wrk_offloadenginesupport.Script.Balance.Calls.{script_is_function-Ends}
use wrk_offloadenginesupport.Script.Balance.Create.{report-Ends}
use wrk_offloadenginesupport.Printing.{print_results}
use wrk_offloadenginesupport.Printing.Layout.{Laid, print_results-Laid}
use wrk_offloadenginesupport.Main.{
  Totals, zeros, add_threads, correct_latency, Adjusted, Summed, add_threads-Summed,
  correct_latency-Adjusted,
}
use wrk_offloadenginesupport.Main.Chains.{bind-Ends, or_crashed-Ends}
use wrk_offloadenginesupport.Main.Run.{
  Finished, Outside, Ending, usage_shown, reported, or_unfinished, runtime_of, finish_main,
}

-- What the correction of the latencies asks of the run: no connection has completed more than one
-- request in each microsecond, and the histogram is one of counts below 2^64, with a round of fuel
-- for each bucket.
pub record Sound (fuel connections runtime_us : ℕ) (f : Finished) : Type 0 where
  pub slow : (add_threads zeros f.threads).complete / connections ≤ runtime_us
  pub inside : f.latency.max < length f.latency.buckets
  pub enough : length f.latency.buckets ≤ fuel
  pub words : (v : ℕ) → bucket f.latency.buckets v < u64

corrected-Ends :
    (latency : Stats) (each runtime_us : ℕ) (out : Option Stats)
    → Adjusted latency each runtime_us out
    → Ends (λ l. Adjusted latency each runtime_us (some l)) (or_unfinished out)
corrected-Ends latency each runtime_us (some l) a = a
corrected-Ends latency each runtime_us none (inl (e, q)) = absurd (cc)
corrected-Ends latency each runtime_us none (inr (e, q)) = let r = q.returns in absurd (cc)

module _ (F : LongDouble) (L : Lua) (fuel : ℕ) (o : Outside L) where
  -- A report of the threads' results, behind the lines printed before.
  pub record Results (p : Parsed) (lines : Bytes) (f : Finished) (out : Bytes) (m : Machine L)
      : Type 0 where
    pub totals : Totals
    pub latency : Stats
    pub text : Bytes
    pub summed : Summed zeros f.threads totals
    pub adjusted :
        Adjusted f.latency (totals.complete / p.arguments.connections) (runtime_of o) (some latency)
    pub printed :
        print_results F p.arguments.latency latency f.requests (runtime_of o) totals ≡ some text
    pub laid : Laid F p.arguments.latency latency f.requests (runtime_of o) totals text
    pub output : out ≡ lines ++ text
    pub stack : m.stack ≡ []

  abbrev pub Good : Parsed → Bytes → Finished → Ending L → Type 0
  Good p lines f usage_shown = ⊥
  Good p lines f (reported out m) = Results p lines f out m

  has_done-Ends : (m : Machine L) → m.stack ≡ [] → Ends (SecondHas L []) (script_has_done L m)
  unfolding script_has_done
  has_done-Ends m clean =
      subst (λ st. Ends (SecondHas L st) (script_has_done L m)) clean
        (script_is_function-Ends L (codes "done") m)

  wanted-Ends :
      (wanted : Bool) (runtime : ℕ) (t : Totals) (m : Machine L)
      → m.stack ≡ []
      → Ends (Has L []) (if wanted then report L runtime t.complete t.bytes t.errors m else ok m)
  wanted-Ends false runtime t m clean = clean
  wanted-Ends true runtime t m clean =
      subst
        (λ st.
          Ends (Has L [])
            (report L runtime t.complete t.bytes t.errors (record { stack = st; heap = m.heap })))
        (sym clean) (report-Ends L runtime t.complete t.bytes t.errors m.heap)

  pub finish_main-Good :
      (p : Parsed) (lines : Bytes) (f : Finished) (m : Machine L)
      → Sound fuel p.arguments.connections (runtime_of o) f
      → m.stack ≡ []
      → Ends (Good p lines f) (finish_main F L fuel o p lines f m)
  unfolding finish_main
  finish_main-Good p lines f m sound clean =
      let t = add_threads zeros f.threads in
      let runtime = runtime_of o in
      let each = t.complete / p.arguments.connections in
      let corrected = correct_latency fuel f.latency t.complete p.arguments.connections runtime in
      bind-Ends (λ l. Adjusted f.latency each runtime (some l)) (Good p lines f)
        (or_unfinished corrected) _
        (corrected-Ends f.latency each runtime corrected (
          correct_latency-Adjusted fuel f.latency t.complete p.arguments.connections runtime
            sound.slow sound.inside sound.enough sound.words))
        (λ l adjusted.
          bind-Ends (λ x. print_results F p.arguments.latency l f.requests runtime t ≡ some x)
            (Good p lines f)
            (or_crashed (print_results F p.arguments.latency l f.requests runtime t)) _
            (or_crashed-Ends (print_results F p.arguments.latency l f.requests runtime t))
            (λ x printed.
              bind-Ends (SecondHas L []) (Good p lines f) (script_has_done L m) _
                (has_done-Ends m clean)
                (λ (wanted, m₁) e.
                  bind-Ends (Has L []) (Good p lines f)
                    (if wanted then report L runtime t.complete t.bytes t.errors m₁ else ok m₁) _
                    (wanted-Ends wanted runtime t m₁ e)
                    (λ m₂ e₂. record {
                      totals = t;
                      latency = l;
                      text = x;
                      summed = add_threads-Summed f.threads;
                      adjusted = adjusted;
                      printed = printed;
                      laid =
                          print_results-Laid F p.arguments.latency l f.requests runtime t x printed;
                      output = refl;
                      stack = e₂;
                    }))))
