-- ===== src/Connection/ThreadMain/Tests.antt =====
-- The theorem about thread_main of src/wrk.c at a concrete input: three connections, one fails.
use wrk_offloadenginesupport.Prelude.{
  ◌+◌, ◌%◌, ◌≡◌, refl, true, none, codes, if◌then◌else◌, ◌==◌, u32, arith,
}
use wrk_offloadenginesupport.Connection.{World}
use wrk_offloadenginesupport.Connection.Samples.{world, thread, config}
use wrk_offloadenginesupport.Connection.Socket.{connected, failed}
use wrk_offloadenginesupport.Connection.ThreadMain.{Opening, thread_main}
use wrk_offloadenginesupport.Connection.ThreadMain.Opened.{expected, failures, thread_main-Opened}

abbrev one_fails : Opening
one_fails = record {
  ssl = λ i. none;
  reply =
      λ i. record { fd = 5 + i; answer = if i == 1 then failed else connected; registered = true };
}

abbrev three : World
three = record world { thread = record thread { connections = 3 } }

thread_main-Opened_example :
    ((thread_main config (codes "GET") one_fails 7 three).0
      ≡ expected config (codes "GET") one_fails 3 0)
    × ((thread_main config (codes "GET") one_fails 7 three).1.thread.errors.connect
        ≡ (0 + failures one_fails 3 0) % u32)
thread_main-Opened_example = thread_main-Opened config (codes "GET") one_fails 7 three (omega arith)

one_failure : failures one_fails 3 0 ≡ 1
one_failure = refl
