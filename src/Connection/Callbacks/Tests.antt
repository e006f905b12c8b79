-- ===== src/Connection/Callbacks/Tests.antt =====
-- Runs of the parser's callbacks of src/wrk.c, and the theorems about them at concrete inputs.
use wrk_offloadenginesupport.Prelude.{ℕ, ◌≡◌, refl, some, [], ◌∷◌, ◌++◌, codes, take, arith, map}
use wrk_offloadenginesupport.Buffers.{
  Buffer, buffer_append, buffer_reset, push_nul, buffer_pushlstring,
}
use wrk_offloadenginesupport.Buffers.Text.{Holds, no_buffer-Holds}
use wrk_offloadenginesupport.Connection.{
  World, HeaderTable, socket_writeable, script_response, field, status_error,
}
use wrk_offloadenginesupport.Connection.HeaderTable.{new_header_table, raw_set_string, TableOf}
use wrk_offloadenginesupport.Connection.Registry.{watch, unwatched}
use wrk_offloadenginesupport.Connection.Callbacks.{
  response_body, hand_over, count_response, finish_batch, response_complete, response_headers,
  header_loop, call_response,
}
use wrk_offloadenginesupport.Connection.Callbacks.Headers.{At}
use wrk_offloadenginesupport.Connection.Callbacks.Roundtrip.{Header, joined, deliver_all}
use wrk_offloadenginesupport.Connection.Callbacks.Decode.{hand_over-headers, hand_over-stale}
use wrk_offloadenginesupport.Connection.Callbacks.Complete.{
  Counted, Sampled, response_complete-Counted,
}
use wrk_offloadenginesupport.Connection.Callbacks.Schedule.{next_request_scheduled}
use wrk_offloadenginesupport.Connection.Samples.{conn, world, config, completion}

abbrev junk : ℕ → ℕ
junk i = 7

-- "Host: ab", in pieces, and "Host: y".
abbrev host : Header
host = record {
  name = codes "Ho";
  name_more = codes "st" ∷ [];
  content = codes "a";
  content_more = codes "b" ∷ [];
}

abbrev other_header : Header
other_header = record {
  name = codes "Host";
  name_more = [];
  content = codes "y";
  content_more = [];
}

conn-At : At field [] 0 conn
conn-At = record { state = refl; tail = []; holds = no_buffer-Holds; room = omega arith }

-- A block of 2 bytes, whose old contents are the string "b" and its NUL after an `a`.
abbrev old_header : Buffer
old_header = record { bytes = 97 ∷ 98 ∷ 0 ∷ []; size = 3; used = 0 }

abbrev old_world : World
old_world = record world { conn = record conn { headers = old_header } }

old-Holds : Holds old_header [] (97 ∷ (98 ∷ []) ++ 0 ∷ [])
old-Holds = record { block = refl; cursor = refl; sized = refl }

body_runs : (response_body junk (codes "ab") conn).body.used ≡ 2
unfolding response_body buffer_append
body_runs = refl

stale_runs :
    (hand_over (completion 1) old_world).calls
    ≡ script_response 200 (some (raw_set_string [] (codes "b") new_header_table)) [] ∷ []
unfolding hand_over call_response response_headers header_loop push_nul buffer_pushlstring
    buffer_reset
stale_runs = refl

count_runs :
    (count_response (record (completion 1) { status = 404 }) world).thread.errors.status ≡ 1
unfolding count_response status_error
count_runs = refl

batch_runs : (finish_batch config (completion 1002) world).conn.pending ≡ 1
unfolding finish_batch
batch_runs = refl

complete_runs : (response_complete config (completion 1002) world).thread.complete ≡ 1
unfolding response_complete finish_batch hand_over count_response
complete_runs = refl

hand_over-headers_example :
    let c = deliver_all junk (host ∷ other_header ∷ []) conn in
    let w' = hand_over (completion 1) (record world { conn = c }) in
    ((t : HeaderTable) × TableOf (map joined (host ∷ other_header ∷ [])) t
      × (w'.calls
          ≡ world.calls ++ script_response 200 (some t) (take c.body.used c.body.bytes) ∷ []))
    × At field [] 0 w'.conn
hand_over-headers_example =
    hand_over-headers junk (completion 1) world host (other_header ∷ []) 0 conn-At (omega arith)
      (ground arith)

hand_over-stale_example :
    (hand_over (completion 1) old_world).calls
    ≡ [] ++ script_response 200 (some (raw_set_string [] (codes "b") new_header_table)) [] ∷ []
hand_over-stale_example =
    hand_over-stale (completion 1) old_world 97 (98 ∷ []) [] old-Holds (ground arith)

response_complete-Counted_example :
    let w' = response_complete config (completion 1002) world in
    Counted (completion 1002) 1 world w' × Sampled (completion 1002) 1 world w'
response_complete-Counted_example =
    response_complete-Counted config (completion 1002) world 1 refl refl (omega arith)

next_request_scheduled_example :
    let w = record world { conn = record conn { pending = 1 } } in
    let w' = response_complete config (completion 1002) w in
    (watch 5 w'.calls unwatched
      ≡ record (watch 5 w.calls unwatched) { on_write = some socket_writeable })
    × (w'.conn.delayed ≡ config.delay)
next_request_scheduled_example =
    next_request_scheduled config (completion 1002)
      (record world { conn = record conn { pending = 1 } }) unwatched refl refl
