-- ===== src/Arguments.antt =====
-- src/wrk.c, longopts and parse_args. What getopt_long makes of the command line is an argument: the
-- options that it finds, each with its argument, and the arguments that are left from `optind` on.
pub mod Accepted
mod Tests
use wrk_offloadenginesupport.Prelude.{
  ℕ, zero, suc, ◌*◌, ◌%◌, ◌≤◌, ◌<◌, ◌≡◌, refl, ap, ◌∙◌, Bool, true, false, not, ◌||◌, Option, none,
  some, ◌>>=◌, >>=-eq-some, List, [], ◌∷◌, ◌++◌, append_assoc, append-nil, Bytes, codes, u64,
  if◌then◌else◌, ltb, ◌==◌, arith, subst, sym,
}
use mathlib.Core.Option.{some-injective}
use wrk_offloadenginesupport.Units.{scan_metric, scan_time}
use wrk_offloadenginesupport.Url.{UrlParts, UrlAnswer, script_parse_url, is_set}

-- The part of `struct config` that the command line sets.
pub record Arguments : Type 0 where
  pub connections : ℕ
  pub duration : ℕ
  pub threads : ℕ
  pub timeout : ℕ
  pub latency : Bool
  pub use_offload : Bool
  pub script : Option Bytes
  pub engine : Option Bytes

abbrev pub socket_timeout_ms : ℕ
socket_timeout_ms = 2000

abbrev pub defaults : Arguments
defaults = record {
  connections = 10;
  duration = 10;
  threads = 2;
  timeout = socket_timeout_ms;
  latency = false;
  use_offload = false;
  script = none;
  engine = none;
}

-- `longopts`: the name, whether an argument is required, and the option that it stands for.
abbrev pub longopts : List (Bytes × Bool × ℕ)
longopts =
    (codes "connections", true, b'c')
    ∷ (codes "duration", true, b'd')
    ∷ (codes "threads", true, b't')
    ∷ (codes "script", true, b's')
    ∷ (codes "header", true, b'H')
    ∷ (codes "latency", false, b'L')
    ∷ (codes "timeout", true, b'T')
    ∷ (codes "help", false, b'h')
    ∷ (codes "version", false, b'v')
    ∷ (codes "engine", true, b'e')
    ∷ []

abbrev pub Found : Type 0
Found = List (ℕ × Bytes)

-- The options and the rest of the command line.
pub record CommandLine : Type 0 where
  pub found : Found
  pub rest : List Bytes

-- The cases of the switch that set a field from a number.
unfoldable pub set_number : ℕ → Bytes → Arguments → Option Arguments
set_number c optarg a =
    if c == b't'
    then (scan_metric optarg >>= λ n. some (record a { threads = n }))
    else if c == b'c'
    then (scan_metric optarg >>= λ n. some (record a { connections = n }))
    else if c == b'd'
    then (scan_time optarg >>= λ n. some (record a { duration = n }))
    else if c == b'T'
    then (scan_time optarg >>= λ n. some (record a { timeout = n * 1000 % u64 }))
    else none

-- One round of the loop: the fields, and the headers so far in order.
unfoldable pub parse_option : ℕ → Bytes → Arguments × List Bytes → Option (Arguments × List Bytes)
unfolding set_number
parse_option c optarg (a, headers) =
    if c == b's'
    then some (record a { script = some optarg }, headers)
    else if c == b'H'
    then some (a, headers ++ optarg ∷ [])
    else if c == b'L'
    then some (record a { latency = true }, headers)
    else if c == b'v'
    then some (a, headers)
    else if c == b'e'
    then some (record a { use_offload = true; engine = some optarg }, headers)
    else (set_number c optarg a >>= λ a'. some (a', headers))

unfoldable pub parse_options : Found → Arguments × List Bytes → Option (Arguments × List Bytes)
unfolding parse_option
parse_options [] p = some p
parse_options ((c, optarg) ∷ found) p = parse_option c optarg p >>= parse_options found

-- What main goes on with.
pub record Parsed : Type 0 where
  pub arguments : Arguments
  pub headers : List Bytes
  pub url : Bytes
  pub parts : UrlParts

-- From `if (optind == argc || ...` on.
unfoldable pub check_arguments :
    (Bytes → UrlAnswer) → List Bytes → Arguments × List Bytes → Option Parsed
check_arguments parser [] p = none
check_arguments parser (url ∷ rest) (a, headers) =
    if (a.threads == 0) || (a.duration == 0)
    then none
    else if not (script_parse_url (parser url))
    then none
    else if (a.connections == 0) || ltb a.connections a.threads
    then none
    else some (record { arguments = a; headers = headers; url = url; parts = (parser url).parts })

-- `none` is the return value -1.
unfoldable pub parse_args : (Bytes → UrlAnswer) → CommandLine → Option Parsed
unfolding parse_options check_arguments
parse_args parser line =
    parse_options line.found (defaults, []) >>= check_arguments parser line.rest
