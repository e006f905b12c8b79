-- ===== src/Main/Run/Reported.antt =====
-- src/wrk.c: what a run of main has printed and reported when it ends.
use wrk_offloadenginesupport.Prelude.{ℕ, ◌≡◌, ◌⊎◌, Bool, none, some, List, Bytes, length}
use wrk_offloadenginesupport.Floating.{LongDouble}
use wrk_offloadenginesupport.Net.{Sock}
use wrk_offloadenginesupport.Net.Context.{SslAnswers, SslCall}
use wrk_offloadenginesupport.Url.{copy_url_part}
use wrk_offloadenginesupport.Arguments.{CommandLine, Parsed, parse_args}
use wrk_offloadenginesupport.Arguments.Accepted.{IsUsable}
use wrk_offloadenginesupport.Lua.{Result, ok, Lua, Machine}
use wrk_offloadenginesupport.Script.Balance.{Ends}
use wrk_offloadenginesupport.Main.Start.{Settings, start_main}
use wrk_offloadenginesupport.Main.Start.Started.{Fresh, AllFresh}
use wrk_offloadenginesupport.Main.Run.Opening.{Announced, Transported}
use wrk_offloadenginesupport.Main.Run.Finishing.{Results}
use wrk_offloadenginesupport.Main.Run.{Outside, Ending, usage_shown, reported, work_of}

module _ (F : LongDouble) (L : Lua) (fuel : ℕ) (init : SslAnswers → Bool × List SslCall)
    (o : Outside L) where
  abbrev Started : CommandLine → Parsed → List (Machine L) × Settings × Machine L → Type 0
  Started line p q =
      (length q.0 ≡ p.arguments.threads)
      × AllFresh L o.requests o.spawned o.setup p line.rest q.0
      × Fresh L o.requests o.spawned o.setup p line.rest q.2

  -- The run from the start of the threads on: each thread has a Lua state, whose stack is that of a
  -- new one, and the threads were run on these, on the settings that the script gave, and their
  -- results were printed and reported.
  pub record RunOn (line : CommandLine) (p : Parsed) (context : Bool) (sock : Sock) (out : Bytes)
      (m : Machine L) : Type 0 where
    pub states : List (Machine L)
    pub settings : Settings
    pub first : Machine L
    pub started :
        start_main L o.requests o.spawned o.setup p line.rest ≡ ok (states, settings, first)
    pub enough : length states ≡ p.arguments.threads
    pub fresh : AllFresh L o.requests o.spawned o.setup p line.rest states
    pub lines : Bytes
    pub announced : Announced F L fuel o p lines
    pub results :
        Results F L fuel o p lines
          (o.run_threads (work_of F L fuel o p context sock settings states))
          out
          m

  -- A run of main on accepted arguments that has not been given up.
  pub record Run (line : CommandLine) (p : Parsed) (out : Bytes) (m : Machine L) : Type 0 where
    pub usable : IsUsable o.urls line p
    pub schema : Bytes
    pub has_schema : copy_url_part p.url p.parts.schema ≡ some schema
    pub context : Bool
    pub sock : Sock
    pub transport : Transported schema context sock
    pub went_on : RunOn line p context sock out m

  abbrev GoodOn : CommandLine → Parsed → Bool → Sock → Ending L → Type 0
  GoodOn line p context sock usage_shown = ⊥
  GoodOn line p context sock (reported out m) = RunOn line p context sock out m

  abbrev pub GoodEnd : CommandLine → Parsed → Ending L → Type 0
  GoodEnd line p usage_shown = ⊥
  GoodEnd line p (reported out m) = Run line p out m

  -- The usage text for a refused line, and a good end for any other.
  abbrev pub Answers : CommandLine → Result (Ending L) → Type 0
  Answers line end =
      ((parse_args o.urls line ≡ none) × (end ≡ ok usage_shown))
      ⊎ ((p : Parsed) × (parse_args o.urls line ≡ some p) × Ends (GoodEnd line p) end)
