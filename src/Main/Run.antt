-- ===== src/Main/Run.antt =====
-- src/wrk.c, main from its first line to its last: the arguments, the transport, the start of the
-- threads, and what is printed and reported when they have ended.
pub mod Finishing
pub mod Opening
pub mod Reported
mod Tests
use wrk_offloadenginesupport.Prelude.{
  ℕ, ◌+◌, ◌-◌, ◌*◌, ◌/◌, ◌%◌, Bool, Option, none, some, List, [], ◌∷◌, ◌++◌, Bytes, codes, u64,
  if◌then◌else◌, map,
}
use wrk_offloadenginesupport.Floating.{LongDouble}
use wrk_offloadenginesupport.Stats.{Stats, stats_alloc}
use wrk_offloadenginesupport.Units.Decimal.{decimal}
use wrk_offloadenginesupport.Units.Format.{format_time_s}
use wrk_offloadenginesupport.Net.{Sock}
use wrk_offloadenginesupport.Net.Context.{SslAnswers, SslCall, ssl_init}
use wrk_offloadenginesupport.Url.{UrlAnswer, copy_url_part}
use wrk_offloadenginesupport.Arguments.{Arguments, CommandLine, Parsed, parse_args}
use wrk_offloadenginesupport.Connection.{Config, Thread, Errors}
use wrk_offloadenginesupport.Lua.{◌>>=◌, Result, ok, raised, unfinished, or_crashed, Lua, Machine}
use wrk_offloadenginesupport.Script.Setup.{SetupCall}
use wrk_offloadenginesupport.Script.Requests.{ParsedRequest, script_has_done}
use wrk_offloadenginesupport.Script.Report.{report}
use wrk_offloadenginesupport.Printing.{print_results}
use wrk_offloadenginesupport.Main.{Totals, zeros, add_threads, time_us, correct_latency}
use wrk_offloadenginesupport.Main.Start.{Settings, choose_transport, start_main}

-- MAX_THREAD_RATE_S of src/wrk.h.
abbrev pub max_thread_rate_s : ℕ
max_thread_rate_s = 10000000

-- `cfg` and `sock`, as the handlers read them.
abbrev pub config_of : Settings → Sock → Config
config_of s sock = record {
  pipeline = s.pipeline;
  delay = s.delay;
  dynamic = s.dynamic;
  want_response = s.want_response;
  sock = sock;
}

-- A thread of `zcalloc`, with its share of the connections.
abbrev pub new_thread : Arguments → Thread
new_thread a = record {
  connections = a.connections / a.threads;
  complete = 0;
  requests = 0;
  bytes = 0;
  start = 0;
  errors = record { connect = 0; read = 0; write = 0; status = 0; timeout = 0 };
}

-- What the threads leave when they have been joined: their counters, and the two histograms.
pub record Finished : Type 0 where
  pub threads : List Thread
  pub latency : Stats
  pub requests : Stats

-- What a started program hands to its threads: whether there is an SSL context, the configuration,
-- the threads with their Lua states, and the two histograms.
pub record Work (L : Lua) : Type 0 where
  pub context : Bool
  pub config : Config
  pub threads : List (Thread × Machine L)
  pub latency : Stats
  pub requests : Stats

-- What main reads from outside: the parsers of URLs and requests, OpenSSL, whether each thread could
-- be made, what a call of wrk.setup does, what the threads do until they are stopped, and the clock (seconds and microseconds) before
-- the sleep and after the last thread has ended.
pub record Outside (L : Lua) : Type 0 where
  pub urls : Bytes → UrlAnswer
  pub requests : Bytes → ParsedRequest
  pub ssl : SslAnswers
  pub spawned : ℕ → Bool
  pub setup : SetupCall L
  pub run_threads : Work L → Finished
  pub began : ℕ × ℕ
  pub ended : ℕ × ℕ

-- How main ends where nothing has failed: with the usage text, or with what it has printed and the
-- Lua state of the report.
pub data Ending (L : Lua) : Type 0 where
  usage_shown : Ending L
  reported : Bytes → Machine L → Ending L

abbrev pub or_unfinished {ℓ} : {A : Type ℓ} → Option A → Result A
or_unfinished none = unfinished
or_unfinished (some a) = ok a

-- `runtime_us`
abbrev pub runtime_of : {L : Lua} → Outside L → ℕ
runtime_of o = (time_us o.ended.0 o.ended.1 + u64 - time_us o.began.0 o.began.1) % u64

module _ (F : LongDouble) (L : Lua) (fuel : ℕ) (o : Outside L) where
  -- The two lines that main prints before it sleeps.
  unfoldable pub running_lines : Parsed → Option Bytes
  running_lines p = elim (format_time_s F (F.ratio p.arguments.duration 1)) [
    | none ↦ none
    | some time ↦ some (
        codes "Running "
        ++ time
        ++ codes " test @ "
        ++ p.url
        ++ 10 ∷ codes "  "
        ++ decimal p.arguments.threads
        ++ codes " threads and "
        ++ decimal p.arguments.connections
        ++ codes " connections"
        ++ 10 ∷ [])
  ]

  -- What main hands to its threads.
  abbrev pub work_of : Parsed → Bool → Sock → Settings → List (Machine L) → Work L
  work_of p context sock s states = record {
    context = context;
    config = config_of s sock;
    threads = map (λ n. (new_thread p.arguments, n)) states;
    latency = stats_alloc (p.arguments.timeout * 1000 % u64);
    requests = stats_alloc max_thread_rate_s;
  }

  -- From the loop that joins the threads on; `lines` is what has been printed before.
  unfoldable pub finish_main : Parsed → Bytes → Finished → Machine L → Result (Ending L)
  finish_main p lines f m = do
    let totals = add_threads zeros f.threads
    latency ←
        or_unfinished
          (correct_latency fuel f.latency totals.complete p.arguments.connections (runtime_of o))
    text ← or_crashed (print_results F p.arguments.latency latency f.requests (runtime_of o) totals)
    (wanted, m₁) ← script_has_done L m
    m₂ ←
        (if wanted
          then report L (runtime_of o) totals.complete totals.bytes totals.errors m₁
          else ok m₁)
    ok (reported (lines ++ text) m₂)

  -- From the start of the threads on.
  unfoldable pub run_on : CommandLine → Parsed → Bool → Sock → Result (Ending L)
  unfolding finish_main running_lines
  run_on line p context sock = do
    (states, settings, m) ← start_main L o.requests o.spawned o.setup p line.rest
    lines ← or_crashed (running_lines p)
    finish_main p lines (o.run_threads (work_of p context sock settings states)) m

  -- `init` is ssl_init.
  module _ (init : SslAnswers → Bool × List SslCall) where
    unfoldable pub run_main : CommandLine → Parsed → Result (Ending L)
    unfolding run_on
    run_main line p = do
      schema ← or_crashed (copy_url_part p.url p.parts.schema)
      (context, sock, calls) ← choose_transport init p.arguments schema o.ssl
      run_on line p context sock

    unfoldable pub main_with : CommandLine → Result (Ending L)
    unfolding run_main
    main_with line = elim (parse_args o.urls line) [
      | none ↦ ok usage_shown
      | some p ↦ run_main line p
    ]

-- main; `fuel` is for the correction of the latencies.
unfoldable pub main : (F : LongDouble) (L : Lua) → ℕ → Outside L → CommandLine → Result (Ending L)
unfolding main_with
main F L fuel o line = main_with F L fuel o ssl_init line
