-- ===== src/Net/Context.antt =====
-- src/ssl.c, ssl_init and ssl_offload_init: the calls of OpenSSL, and whether there is a context.
use wrk_offloadenginesupport.Prelude.{
  ◌≡◌, Bool, true, false, not, ◌&&◌, List, [], ◌∷◌, ◌++◌, Bytes, codes, if◌then◌else◌, arith,
}

pub data SslCall : Type 0 where
  load_error_strings library_init add_all_algorithms load_crypto_strings load_dynamic_engines :
      SslCall
  engine_by_id : Bytes → SslCall
  say : Bytes → SslCall
  engine_init set_default_ciphers new_context : SslCall
  verify_none verify_depth_zero mode_auto_retry cache_client enable_ktls : SslCall

-- What OpenSSL answers: whether it finds the engine, initialises it, takes its ciphers, and makes a
-- context.
pub record SslAnswers : Type 0 where
  pub engine : Bool
  pub initialised : Bool
  pub ciphers : Bool
  pub context : Bool

-- `SSL_CTX_new(SSLv23_client_method())`, and what sets the context up.
abbrev pub with_context : Bool → List SslCall → List SslCall → Bool × List SslCall
with_context made before settings =
    if made then (true, before ++ new_context ∷ settings) else (false, before ++ new_context ∷ [])

abbrev pub prelude : List SslCall
prelude = load_error_strings ∷ library_init ∷ add_all_algorithms ∷ []

unfoldable pub ssl_init : SslAnswers → Bool × List SslCall
ssl_init a =
    with_context a.context prelude
      (verify_none ∷ verify_depth_zero ∷ mode_auto_retry ∷ cache_client ∷ enable_ktls ∷ [])

unfoldable pub ssl_offload_init : Bytes → SslAnswers → Bool × List SslCall
ssl_offload_init name a =
    let asked =
      prelude
      ++ load_crypto_strings ∷ load_error_strings ∷ load_dynamic_engines ∷ engine_by_id name ∷ [] in
    let started = asked ++ say (codes "engine successfully loaded") ∷ engine_init ∷ [] in
    let ready = started ++ set_default_ciphers ∷ say (codes "engine ciphers loaded") ∷ [] in
    if not a.engine
    then (false, asked)
    else if not a.initialised
    then (false, started)
    else if not a.ciphers
    then (false, started ++ set_default_ciphers ∷ [])
    else with_context a.context ready
        (verify_none ∷ verify_depth_zero ∷ mode_auto_retry ∷ cache_client ∷ [])

-- With the engine there is a context exactly if the engine is found and initialised, its ciphers are
-- taken and the context is made; without it exactly if the context is made.
ssl_offload_init-context :
    (name : Bytes) (a : SslAnswers)
    → ((ssl_offload_init name a).0 ≡ (a.engine && a.initialised && a.ciphers && a.context))
      × ((ssl_init a).0 ≡ a.context)
unfolding ssl_offload_init ssl_init
ssl_offload_init-context name a = ground arith
