-- ===== src/Script/Requests.antt =====
-- src/script.c: script_delay, script_request, the tests for the functions of a script, and
-- script_verify_request.
pub mod Place
mod Tests
use wrk_offloadenginesupport.Prelude.{
  ℕ, zero, suc, ◌+◌, Bool, true, false, not, ◌||◌, Option, none, some, List, [], ◌∷◌, Bytes, codes,
  if◌then◌else◌, ◌==◌, take, length,
}
use wrk_offloadenginesupport.Lua.{
  ◌>>=◌, Result, ok, raised, broken, unfinished, or_raised, or_broken, or_crashed, Lua, Machine,
  Val, top, at, pop, get_field, get_global, call, is_function,
}

module _ (L : Lua) where
  -- The number that the script's `delay` gives.
  unfoldable pub script_delay : Machine L → Result (ℕ × Machine L)
  script_delay m = do
    m₁ ← get_global L (codes "delay") m
    m₂ ← call L 0 1 m₁
    v ← at L (top 1) m₂
    m₃ ← pop L 1 m₂
    ok (L.to_u64 (L.to_number v), m₃)

  -- The function to call on top, and how many values are to be popped in the end.
  abbrev pub request_function : Machine L → Result (ℕ × Machine L)
  request_function m = at L (top 1) m >>= λ f.
      if is_function L f
      then ok (1, m)
      else (get_global L (codes "wrk") m >>= λ m₁.
          get_field L (top 1) (codes "request") m₁ >>= λ m₂. ok (3, m₂))

  -- The text of the next request; where it is no string, NULL is copied from.
  unfoldable pub script_request : Machine L → Result (Bytes × Machine L)
  script_request m = do
    m₁ ← get_global L (codes "request") m
    (n, m₂) ← request_function m₁
    m₃ ← call L 0 1 m₂
    v ← at L (top 1) m₃
    s ← or_crashed (L.to_text v)
    m₄ ← pop L n m₃
    ok (s, m₄)

  unfoldable pub script_is_function : Bytes → Machine L → Result (Bool × Machine L)
  script_is_function name m = do
    m₁ ← get_global L name m
    v ← at L (top 1) m₁
    m₂ ← pop L 1 m₁
    ok (is_function L v, m₂)

  unfoldable pub script_is_static : Machine L → Result (Bool × Machine L)
  unfolding script_is_function
  script_is_static m = do (b, m') ← script_is_function (codes "request") m; ok (not b, m')

  unfoldable pub script_want_response : Machine L → Result (Bool × Machine L)
  unfolding script_is_function
  script_want_response m = script_is_function (codes "response") m

  unfoldable pub script_has_delay : Machine L → Result (Bool × Machine L)
  unfolding script_is_function
  script_has_delay m = script_is_function (codes "delay") m

  unfoldable pub script_has_done : Machine L → Result (Bool × Machine L)
  unfolding script_is_function
  script_has_done m = script_is_function (codes "done") m

-- The loop over the bytes that were parsed: `line` and `column` after them.
unfoldable pub place_loop : Bytes → ℕ × ℕ → ℕ × ℕ
place_loop [] p = p
place_loop (c ∷ s) (line, column) =
    if c == 10 then place_loop s (line + 1, 1) else place_loop s (line, column + 1)

-- `(*count)++`, the callback for each complete request.
unfoldable pub verify_request : ℕ → ℕ
verify_request count = count + 1

-- What http_parser_execute does: the number of bytes parsed, how often it calls the callback, and
-- the description of its error, if there is one.
pub record ParsedRequest : Type 0 where
  pub parsed : ℕ
  pub messages : ℕ
  pub error : Option Bytes

unfoldable pub count_messages : ℕ → ℕ → ℕ
unfolding verify_request
count_messages zero count = count
count_messages (suc n) count = count_messages n (verify_request count)

-- The number of requests, or the message and the place that are printed before the program ends.
pub data Verified : Type 0 where
  pipelined : ℕ → Verified
  refused : Bytes → ℕ → ℕ → Verified

abbrev pub message : Option Bytes → Bytes
message none = codes "incomplete request"
message (some desc) = desc

unfoldable pub verify_text : ParsedRequest → Bytes → Verified
unfolding place_loop count_messages
verify_text p request =
    let (line, column) = place_loop (take p.parsed request) (1, 1) in
    let count = count_messages p.messages 0 in
    if not (p.parsed == length request) || (count == 0)
    then refused (message p.error) line column
    else pipelined count

-- The parser is an argument: what it answers for a text.
unfoldable pub script_verify_request :
    (L : Lua) → (Bytes → ParsedRequest) → Machine L → Result (Verified × Machine L)
unfolding script_request verify_text
script_verify_request L parser m = do
  (request, m') ← script_request L m
  ok (verify_text (parser request) request, m')
