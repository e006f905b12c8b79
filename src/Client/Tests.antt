-- ===== src/Client/Tests.antt =====
-- The two copies of the program on one run of handlers.
use wrk_offloadenginesupport.Prelude.{
  ◌≡◌, refl, ◌+◌, ◌==◌, if◌then◌else◌, true, none, List, [], ◌∷◌, codes,
}
use wrk_offloadenginesupport.Net.{other}
use wrk_offloadenginesupport.Connection.Samples.{world, thread, config, gave, reply}
use wrk_offloadenginesupport.Connection.Events.{WriteReply, ReadRound}
use wrk_offloadenginesupport.Connection.{World}
use wrk_offloadenginesupport.Connection.Socket.{connected, failed}
use wrk_offloadenginesupport.Connection.ThreadMain.{Opening, thread_main}
use wrk_offloadenginesupport.Client.ThreadMain as ClientThreadMain
use wrk_offloadenginesupport.Client.Erased.Nulls.{null_calls, thread_main-null_calls}
use wrk_offloadenginesupport.Client.Erased.{erased, erased_some}
use wrk_offloadenginesupport.Client.Erased.Runs.{
  Step, connected_step, writeable_step, readable_step, delay_step, steps, client_steps,
  steps-erased,
}

abbrev written : WriteReply
written = record { delay = 0; next_request = codes "GET"; now = 5; answer = gave 3; reply = reply }

-- A read that fails, so that the connection is made again.
abbrev broken_read : ReadRound
broken_read = record {
  answer = record { value = none; code = other };
  events = [];
  parsed = 0;
  final = true;
  more = gave 0;
}

abbrev run : List Step
run =
    connected_step 5 (gave 0) reply
    ∷ delay_step
    ∷ writeable_step 5 written
    ∷ readable_step reply (broken_read ∷ [])
    ∷ []

steps-erased_example :
    erased_some (steps (λ i. 0) config run world) ≡ client_steps (λ i. 0) config run (erased world)
steps-erased_example = steps-erased (λ i. 0) config run world

-- Three connections without SSL, of which one fails at once.
abbrev one_fails : Opening
one_fails = record {
  ssl = λ i. none;
  reply =
      λ i. record { fd = 5 + i; answer = if i == 1 then failed else connected; registered = true };
}

abbrev three : World
three = record world { thread = record thread { connections = 3 } }

thread_main-null_calls_example :
    (null_calls (thread_main config (codes "GET") one_fails 7 three).1.calls ≡ 2)
    × (null_calls (ClientThreadMain.thread_main config (codes "GET") one_fails 7 three).1.calls ≡ 0)
thread_main-null_calls_example =
    thread_main-null_calls config (codes "GET") one_fails 7 three (λ j. refl)
