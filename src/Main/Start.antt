-- ===== src/Main/Start.antt =====
-- src/wrk.c, main up to the start of the threads: the transport, the Lua states, the settings that
-- the script of the first thread gives. An exit is `raised`.
pub mod Started
mod Tests
use wrk_offloadenginesupport.Prelude.{
  ℕ, zero, suc, ◌+◌, Bool, true, false, not, Option, none, some, List, [], ◌∷◌, Bytes, codes, take,
  if◌then◌else◌, ◌==◌,
}
use wrk_offloadenginesupport.Net.{Sock, plain_sock, tls_sock}
use wrk_offloadenginesupport.Net.Context.{SslAnswers, SslCall, ssl_offload_init}
use wrk_offloadenginesupport.Arguments.{Arguments, Parsed}
use wrk_offloadenginesupport.Url.{copy_url_part}
use wrk_offloadenginesupport.Lua.{◌>>=◌, Result, ok, raised, or_crashed, Lua, Machine}
use wrk_offloadenginesupport.Script.Histograms.{text_eq}
use wrk_offloadenginesupport.Script.Setup.{script_create, script_resolve, script_init, SetupCall}
use wrk_offloadenginesupport.Script.Requests.{
  ParsedRequest, Verified, pipelined, refused, script_verify_request, script_is_static,
  script_has_delay, script_want_response,
}

abbrev or_empty : Option Bytes → Bytes
or_empty none = []
or_empty (some s) = s

-- `!strncmp("https", schema, 5)`
unfoldable pub is_https : Bytes → Bool
unfolding text_eq
is_https schema = text_eq (codes "https") (take 5 schema)

-- Whether there is an SSL context, and the functions of `sock`. `init` is ssl_init.
unfoldable pub choose_transport :
    (SslAnswers → Bool × List SslCall)
    → Arguments
    → Bytes
    → SslAnswers
    → Result (Bool × Sock × List SslCall)
unfolding is_https ssl_offload_init plain_sock tls_sock
choose_transport init cfg schema a =
    let (made, calls) =
      if cfg.use_offload then ssl_offload_init (or_empty cfg.engine) a else init a in
    if is_https schema
    then (if made then ok (true, tls_sock, calls) else raised)
    else ok (false, plain_sock, [])

-- `port ? port : schema`
unfoldable pub service_of : Option Bytes → Option Bytes → Option Bytes
service_of none schema = schema
service_of (some port) schema = some port

-- What the script of the first thread sets.
pub record Settings : Type 0 where
  pub pipeline : ℕ
  pub dynamic : Bool
  pub delay : Bool
  pub want_response : Bool

module _ (L : Lua) where
  abbrev pipeline_of : Verified → Result ℕ
  pipeline_of (pipelined n) = ok n
  pipeline_of (refused message line column) = raised

  unfoldable pub read_settings : (Bytes → ParsedRequest) → Machine L → Result (Settings × Machine L)
  read_settings parser n = do
    (v, n₁) ← script_verify_request L parser n
    pipeline ← pipeline_of v
    (static, n₂) ← script_is_static L n₁
    (delay, n₃) ← script_has_delay L n₂
    (response, n₄) ← script_want_response L n₃
    ok (
      record { pipeline = pipeline; dynamic = not static; delay = delay; want_response = response },
      n₄,
    )

  -- What main has after the arguments, and what it reads from outside: the parser of requests, for
  -- each thread whether its event loop and the thread itself could be made, and what wrk.setup does.
  module _ (parser : Bytes → ParsedRequest) (spawned : ℕ → Bool) (setup : SetupCall L) (p : Parsed)
      (argv : List Bytes) where
    abbrev pub new_state : Result (Machine L)
    new_state = script_create L p.arguments.script p.url p.parts p.headers

    -- The settings are those of thread 0; the others keep what there is.
    unfoldable pub settings_of : ℕ → Settings → Machine L → Result (Settings × Machine L)
    unfolding read_settings
    settings_of zero s n = read_settings parser n
    settings_of (suc i) s n = ok (s, n)

    -- One round of the loop over the threads: the thread's state, the settings, the state of main.
    unfoldable pub start_thread :
        ℕ → Settings → Machine L → Result (Machine L × Settings × Machine L)
    unfolding settings_of
    start_thread i s m = do
      n ← new_state
      (m₁, n₁) ← script_init L setup i argv m n
      (s₁, n₂) ← settings_of i s n₁
      if spawned i then ok (n₂, s₁, m₁) else raised

    unfoldable pub start_threads :
        ℕ → ℕ → Settings → Machine L → Result (List (Machine L) × Settings × Machine L)
    unfolding start_thread
    start_threads zero i s m = ok ([], s, m)
    start_threads (suc k) i s m = do
      (n, s₁, m₁) ← start_thread i s m
      (ns, s₂, m₂) ← start_threads k (i + 1) s₁ m₁
      ok (n ∷ ns, s₂, m₂)

    abbrev pub no_settings : Settings
    no_settings = record { pipeline = 0; dynamic = false; delay = false; want_response = false }

    -- parse_args has made sure that the URL has a scheme and a host.
    unfoldable pub start_main : Result (List (Machine L) × Settings × Machine L)
    unfolding start_threads service_of
    start_main = do
      host ← or_crashed (copy_url_part p.url p.parts.host)
      service ←
          or_crashed
            (service_of (copy_url_part p.url p.parts.port) (copy_url_part p.url p.parts.schema))
      m ← new_state
      (found, m₁) ← script_resolve L host service m
      if found then start_threads p.arguments.threads 0 no_settings m₁ else raised
