-- ===== src/Script/Requests/Tests.antt =====
-- Runs of the check of a request of src/script.c, and the theorems about it at concrete inputs.
use wrk_offloadenginesupport.Prelude.{◌≡◌, refl, none, [], Bytes, codes}
use wrk_offloadenginesupport.Script.Requests.{
  ParsedRequest, refused, place_loop, count_messages, verify_text, script_request,
  script_verify_request,
}
use wrk_offloadenginesupport.Lua.{ok}
use wrk_offloadenginesupport.Lua.Simple.{simple}
use wrk_offloadenginesupport.Script.Balance.{made}

abbrev request : Bytes
request = codes "GET /"

-- The parser stops at the third byte.
abbrev stuck : ParsedRequest
stuck = record { parsed = 3; messages = 0; error = none }

stuck_run :
    script_verify_request simple (λ text. stuck) (made simple [] simple.start)
    ≡ ok (refused (codes "incomplete request") 1 4, made simple [] simple.start)
unfolding script_verify_request script_request verify_text place_loop count_messages
stuck_run = refl

abbrev whole : ParsedRequest
whole = record { parsed = 5; messages = 2; error = none }
