-- ===== src/Arguments/Accepted.antt =====
-- src/wrk.c: what parse_args makes of a command line that it accepts.
use wrk_offloadenginesupport.Prelude.{
  ℕ, ◌≤◌, ◌<◌, ◌≡◌, refl, ap, ◌∙◌, Bool, true, false, not, ◌||◌, Option, none, some, ◌>>=◌,
  >>=-eq-some, List, [], ◌∷◌, ◌++◌, append_assoc, append-nil, Bytes, if◌then◌else◌, ltb, ◌==◌,
  arith, subst, sym,
}
use mathlib.Core.Option.{some-injective}
use wrk_offloadenginesupport.Url.{UrlAnswer, script_parse_url}
use wrk_offloadenginesupport.Arguments.{
  Arguments, Found, CommandLine, Parsed, defaults, set_number, parse_option, parse_options,
  check_arguments, parse_args,
}

-- What main relies on after the arguments have been accepted.
pub record IsUsable (parser : Bytes → UrlAnswer) (line : CommandLine) (p : Parsed) : Type 0 where
  pub some_thread : 0 < p.arguments.threads
  pub some_time : 0 < p.arguments.duration
  pub enough : p.arguments.threads ≤ p.arguments.connections
  pub accepted : script_parse_url (parser p.url) ≡ true
  pub parts : p.parts ≡ (parser p.url).parts
  pub others : List Bytes
  pub url : line.rest ≡ p.url ∷ others

-- One test of the chain: where it holds the result is `none`, so it does not hold.
past_test {ℓ} :
    {A : Type ℓ} (b : Bool) (m : Option A) (a : A)
    → (if b then none else m) ≡ some a
    → (b ≡ false) × (m ≡ some a)
past_test true m a h = cc
past_test false m a h = (refl, h)

check_arguments-IsUsable :
    (parser : Bytes → UrlAnswer) (line : CommandLine) (rest : List Bytes)
    (q : Arguments × List Bytes) (p : Parsed)
    → line.rest ≡ rest
    → check_arguments parser rest q ≡ some p
    → IsUsable parser line p
unfolding check_arguments
check_arguments-IsUsable parser line [] q p r h = cc
check_arguments-IsUsable parser line (url ∷ rest) (a, headers) p r h =
    let (set, h₁) = past_test ((a.threads == 0) || (a.duration == 0)) _ p h in
    let (good, h₂) = past_test (not (script_parse_url (parser url))) _ p h₁ in
    let (enough, h₃) = past_test ((a.connections == 0) || ltb a.connections a.threads) _ p h₂ in
    let e : record { arguments = a; headers = headers; url = url; parts = (parser url).parts } ≡ p =
      some-injective _ _ h₃ in
    subst (IsUsable parser line) e (record {
      some_thread = ground arith;
      some_time = ground arith;
      enough = ground arith;
      accepted = ground arith;
      parts = refl;
      others = rest;
      url = r;
    })

parse_from-IsUsable :
    (parser : Bytes → UrlAnswer) (line : CommandLine) (o : Option (Arguments × List Bytes))
    (p : Parsed)
    → (o >>= check_arguments parser line.rest) ≡ some p
    → IsUsable parser line p
parse_from-IsUsable parser line none p h = cc
parse_from-IsUsable parser line (some q) p h =
    check_arguments-IsUsable parser line line.rest q p refl h

-- Where parse_args accepts a command line, there is at least one thread, a positive duration and at
-- least one connection for each thread, and the URL is the first argument that is no option, which
-- the parser has accepted with a scheme and a host.
pub parse_args-IsUsable :
    (parser : Bytes → UrlAnswer) (line : CommandLine) (p : Parsed)
    → parse_args parser line ≡ some p
    → IsUsable parser line p
unfolding parse_args
parse_args-IsUsable parser line p h =
    parse_from-IsUsable parser line (parse_options line.found (defaults, [])) p h

-- The arguments of `-H`, in order.
abbrev pub headers_of : Found → List Bytes
headers_of [] = []
headers_of ((c, optarg) ∷ found) = (if c == b'H' then optarg ∷ [] else []) ++ headers_of found

set_number-keeps :
    (o : Option Arguments) (headers : List Bytes) (q : Arguments × List Bytes)
    → (o >>= λ a'. some (a', headers)) ≡ some q
    → q.1 ≡ headers
set_number-keeps none headers q h = cc
set_number-keeps (some a) headers q h =
    ap (λ (r : Arguments × List Bytes). r.1) (sym (some-injective _ _ h))

parse_option-headers :
    (c : ℕ) (optarg : Bytes) (a : Arguments) (headers : List Bytes) (q : Arguments × List Bytes)
    → parse_option c optarg (a, headers) ≡ some q
    → q.1 ≡ headers ++ headers_of ((c, optarg) ∷ [])
unfolding parse_option
parse_option-headers c optarg a headers q h =
    ground (arith, append-nil headers, set_number-keeps (set_number c optarg a) headers q)

parse_options-headers :
    (found : Found) (p q : Arguments × List Bytes)
    → parse_options found p ≡ some q
    → q.1 ≡ p.1 ++ headers_of found
unfolding parse_options
parse_options-headers [] (a, headers) q h =
    ap (λ (r : Arguments × List Bytes). r.1) (sym (some-injective _ _ h)) ∙ sym (append-nil headers)
parse_options-headers ((c, optarg) ∷ found) (a, headers) q h =
    let (p', e, rest) = >>=-eq-some (parse_option c optarg (a, headers)) (parse_options found) h in
    parse_options-headers found p' q rest
    ∙ ap (λ hs. hs ++ headers_of found)
        (parse_option-headers c optarg a headers p' e ∙ ap (◌++◌ headers) (append-nil _))
    ∙ append_assoc headers _ (headers_of found)

check_arguments-headers :
    (parser : Bytes → UrlAnswer) (rest : List Bytes) (q : Arguments × List Bytes) (p : Parsed)
    → check_arguments parser rest q ≡ some p
    → p.headers ≡ q.1
unfolding check_arguments
check_arguments-headers parser [] q p h = cc
check_arguments-headers parser (url ∷ rest) q p h = ground arith

-- The headers of an accepted command line are the arguments of its `-H` options, all of them and in
-- their order.
pub parse_args-headers :
    (parser : Bytes → UrlAnswer) (line : CommandLine) (p : Parsed)
    → parse_args parser line ≡ some p
    → p.headers ≡ headers_of line.found
unfolding parse_args
parse_args-headers parser line p h =
    let (q, e, checked) = >>=-eq-some (parse_options line.found (defaults, [])) _ h in
    check_arguments-headers parser line.rest q p checked
    ∙ parse_options-headers line.found (defaults, []) q e
