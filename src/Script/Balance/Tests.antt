-- ===== src/Script/Balance/Tests.antt =====
-- Runs of src/script.c on a small Lua state, and the theorems about its stack at concrete inputs.
use wrk_offloadenginesupport.Prelude.{
  ℕ, ◌++◌, Bool, true, ◌≡◌, refl, Option, none, some, List, [], ◌∷◌, Bytes, codes, drop,
}
use wrk_offloadenginesupport.Connection.{Errors}
use wrk_offloadenginesupport.Lua.{
  AddrInfo, Histogram, address, stats_pointer, latency, userdata, Result, ok, raised, Machine, Val,
  text, number, table, broken,
}
use wrk_offloadenginesupport.Lua.Simple.{simple, Object, payload, fields}
use wrk_offloadenginesupport.Url.{UrlParts}
use wrk_offloadenginesupport.Script.Setup.{
  script_create, script_resolve, script_init, SetupCall, add_metatable, new_metatable, fill_wrk,
  fill_fields, run_file, path_of, set_headers, header_of, split_colon,
}
use wrk_offloadenginesupport.Script.Fields.{register_library, set_field, set_fields, push_url_part}
use wrk_offloadenginesupport.Script.Requests.{script_delay, script_request, script_is_function}
use wrk_offloadenginesupport.Script.Report.{
  report, script_summary, script_errors, script_push_stats, script_done,
}
use wrk_offloadenginesupport.Script.Balance.{Ends, Has, SecondHas, BothHave, made}
use wrk_offloadenginesupport.Script.Balance.Calls.{calls-Ends, KeepsStack}
use wrk_offloadenginesupport.Script.Balance.Setups.{setting, getting, setting-KeepsStack}
use wrk_offloadenginesupport.Script.Threads.{
  script_copy_value, script_thread_get, script_thread_set,
}
use wrk_offloadenginesupport.Script.Balance.Create.{left_by, script_create-Ends, report_lem}
use wrk_offloadenginesupport.Floating.Hundredths.{hundredths}
use wrk_offloadenginesupport.Stats.{Stats}
use wrk_offloadenginesupport.Script.Addresses.{
  checkaddr, script_addr_tostring, script_addr_gc, script_wrk_lookup, script_wrk_connect,
}
use wrk_offloadenginesupport.Script.Histograms.{
  script_stats_call, script_stats_len, script_stats_percentile,
}
use wrk_offloadenginesupport.Script.Balance.Objects.{Gives, objects-Ends}

abbrev url : Bytes
url = codes "http://a/b"

abbrev parts : UrlParts
parts = record { schema = some (0, 4); host = some (7, 1); port = none; path = some (8, 2) }

abbrev headers : List Bytes
headers = codes "A: b" ∷ []

abbrev no_errors : Errors
no_errors = record { connect = 0; read = 0; write = 0; status = 0; timeout = 0 }

abbrev empty_state : Machine simple
empty_state = made simple [] simple.start

abbrev stack_of : Result (Machine simple) → Option (List (Val simple))
stack_of (ok m) = some m.stack
stack_of _ = none

abbrev second_stack : Result (Machine simple × Machine simple) → Option (List (Val simple))
second_stack (ok (m, n)) = some n.stack
second_stack _ = none

-- The one result of the file stays on the stack.
left_behind :
    stack_of (script_create simple (some (codes "e")) url parts headers)
    ≡ some (text (codes "e") ∷ [])
unfolding script_create add_metatable new_metatable register_library fill_wrk fill_fields run_file
    path_of set_field set_fields push_url_part set_headers header_of split_colon
left_behind = refl

no_file : stack_of (script_create simple none url parts headers) ≡ some []
unfolding script_create add_metatable new_metatable register_library fill_wrk fill_fields run_file
    path_of set_field set_fields push_url_part set_headers header_of split_colon
no_file = refl

reported : stack_of (report simple 1 2 3 no_errors empty_state) ≡ some []
unfolding report script_summary script_errors script_push_stats script_done set_fields
reported = refl

-- `thread:set("x", 5)`
abbrev sets : SetupCall simple
sets = setting simple (codes "x") (number 5)

sets-KeepsStack : KeepsStack simple sets
sets-KeepsStack = setting-KeepsStack simple (codes "x") (number 5) tt

calls-Ends_example :
    Ends (SecondHas simple []) (script_resolve simple (codes "a") (codes "http") empty_state)
    × Ends (BothHave simple [] []) (script_init simple sets 0 headers empty_state empty_state)
    × Ends (SecondHas simple []) (script_delay simple empty_state)
    × Ends (SecondHas simple []) (script_request simple empty_state)
    × Ends (SecondHas simple []) (script_is_function simple (codes "done") empty_state)
calls-Ends_example =
    calls-Ends simple sets sets-KeepsStack 0 headers (codes "a") (codes "http") (codes "done")
      empty_state empty_state

-- The state of a thread whose global `t` is a table, here an empty one.
abbrev with_table : Machine simple
with_table = made simple [] (
    fields ((text (codes "wrk"), table 2) ∷ (text (codes "t"), table 3) ∷ []) ∷ drop 1 simple.start)

-- `thread:get("t")` in wrk.setup takes `wrk` off the thread's stack, where script_init needs it.
get_table_run :
    script_init simple (getting simple 3 (codes "t")) 0 headers empty_state with_table ≡ broken
unfolding script_init getting script_thread_get script_copy_value
get_table_run = refl

set_run : second_stack (script_init simple sets 0 headers empty_state empty_state) ≡ some []
unfolding script_init setting script_thread_set script_copy_value
set_run = refl

script_create-Ends_example :
    Ends
      (λ m. (h : simple.Heap) × (m.stack ≡ left_by simple (some (codes "e")) h))
      (script_create simple (some (codes "e")) url parts headers)
script_create-Ends_example = script_create-Ends simple (some (codes "e")) url parts headers refl

report_lem_example :
    Ends (Has simple []) (report simple 1 2 3 no_errors (made simple [] simple.start))
    × (report simple 1 2 3 no_errors (made simple (text (codes "e") ∷ []) simple.start) ≡ raised)
report_lem_example =
    report_lem simple 1 2 3 no_errors (text (codes "e")) simple.start (λ h k w. refl)

abbrev local : AddrInfo
local = record { family = 2; socktype = 1; protocol = 6; addr = 127 ∷ 0 ∷ 0 ∷ 1 ∷ [] }

abbrev heap : List Object
heap = simple.start ++ (payload (address local) ∷ payload (stats_pointer latency) ∷ [])

abbrev looked_up : Option Bytes → Option Bytes → Option (List AddrInfo)
looked_up host service = some (local ∷ [])

abbrev named : AddrInfo → Option (Bytes × Bytes)
named a = some (codes "127.0.0.1", codes "80")

abbrev always : AddrInfo → Bool
always a = true

abbrev keep : ℕ → ℕ
keep n = n

abbrev some_stats : Histogram → Stats
some_stats g = record { count = 1; limit = 3; min = 1; max = 1; buckets = 0 ∷ 1 ∷ 0 ∷ [] }

tostring_run :
    script_addr_tostring simple named (made simple (userdata 5 ∷ []) heap)
    ≡ ok (1, made simple (text (codes "127.0.0.1:80") ∷ userdata 5 ∷ []) heap)
unfolding script_addr_tostring checkaddr
tostring_run = refl

objects-Ends_example :
    Ends
      (Gives simple (userdata 5 ∷ text (codes "a") ∷ []))
      (script_wrk_lookup simple looked_up (made simple (userdata 5 ∷ text (codes "a") ∷ []) heap))
    × Ends
        (Gives simple (userdata 5 ∷ []))
        (script_addr_tostring simple named (made simple (userdata 5 ∷ []) heap))
    × Ends
        (Gives simple (userdata 5 ∷ []))
        (script_addr_gc simple (made simple (userdata 5 ∷ []) heap))
    × Ends
        (Gives simple (userdata 5 ∷ []))
        (script_wrk_connect simple always (made simple (userdata 5 ∷ []) heap))
    × Ends (Gives simple (text (codes "a") ∷ userdata 5 ∷ [])) (
        script_stats_percentile simple hundredths keep keep some_stats
          (made simple (text (codes "a") ∷ userdata 5 ∷ []) heap))
    × Ends (Gives simple (text (codes "a") ∷ userdata 5 ∷ [])) (
        script_stats_call simple hundredths keep keep some_stats
          (made simple (text (codes "a") ∷ userdata 5 ∷ []) heap))
    × Ends (Gives simple (userdata 5 ∷ [])) (
        script_stats_len simple hundredths keep keep some_stats
          (made simple (userdata 5 ∷ []) heap))
objects-Ends_example =
    objects-Ends simple hundredths keep keep some_stats looked_up named always (userdata 5)
      (text (codes "a")) [] heap
