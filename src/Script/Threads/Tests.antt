-- ===== src/Script/Threads/Tests.antt =====
-- Runs of script_copy_value of src/script.c on small Lua states, and the theorems at concrete inputs.
use wrk_offloadenginesupport.Prelude.{◌≡◌, refl, List, [], ◌∷◌, ◌++◌, codes, arith}
use wrk_offloadenginesupport.Lua.{
  ◌>>=◌, broken, ok, thread_pointer, number, text, table, function, userdata,
}
use wrk_offloadenginesupport.Lua.Simple.{simple, Object, fields, payload}
use wrk_offloadenginesupport.Script.Balance.{made}
use wrk_offloadenginesupport.Script.Threads.{
  c_string, next_entry, script_copy_value, script_thread_get, script_thread_set,
}
use wrk_offloadenginesupport.Script.Threads.Copying.{thread_get-table, thread_set-get}

-- A heap with a thread object, number 5.
abbrev with_thread : List Object
with_thread = simple.start ++ (payload (thread_pointer 0) ∷ [])

-- A heap whose globals hold a table, with one entry.
abbrev with_table : List Object
with_table =
    fields ((text (codes "t"), table 1) ∷ []) ∷ fields ((text (codes "a"), number 1) ∷ []) ∷ []

thread_set-get_example :
    (script_thread_set simple 1
        (made simple (number 5 ∷ text (codes "x") ∷ userdata 5 ∷ []) with_thread)
        (made simple [] simple.start)
      >>= λ q.
          script_thread_get simple 1
            (made simple (text (codes "x") ∷ userdata 5 ∷ []) q.1.0.heap)
            q.1.1)
    ≡ ok (
      1,
      (
        made simple (number 5 ∷ text (codes "x") ∷ userdata 5 ∷ []) with_thread,
        made simple [] (
            fields (
              (text (codes "x"), number 5)
              ∷ (text (codes "wrk"), table 2)
              ∷ (text (codes "done"), function 0)
              ∷ [])
            ∷ fields []
            ∷ fields (
                (text (codes "headers"), table 3)
                ∷ (text (codes "addrs"), table 4)
                ∷ (text (codes "setup"), function 0)
                ∷ (text (codes "init"), function 0)
                ∷ (text (codes "resolve"), function 0)
                ∷ (text (codes "request"), function 0)
                ∷ [])
            ∷ fields []
            ∷ fields ((number 1, text (codes "127.0.0.1")) ∷ [])
            ∷ []),
      ),
    )
thread_set-get_example =
    thread_set-get simple 0 (codes "x") (number 5) (userdata 5) 0 with_thread
      (made simple [] simple.start) _ tt refl refl refl refl

-- Its table is popped twice.
get_table_run :
    script_thread_get simple 9
      (made simple (text (codes "t") ∷ userdata 5 ∷ []) with_thread)
      (made simple [] with_table)
    ≡ broken
unfolding script_thread_get script_copy_value next_entry c_string
get_table_run = refl

-- The heap that runs the script, and what is in it after the copy.
abbrev copied : List Object
copied = with_thread ++ (fields ((text (codes "a"), number 1) ∷ []) ∷ [])

thread_get-table_example :
    let m = made simple (text (codes "t") ∷ userdata 5 ∷ []) with_thread in
    (script_thread_get simple 3 m (made simple (number 8 ∷ number 9 ∷ []) with_table)
      ≡ ok (
        1,
        (
          made simple (table 6 ∷ text (codes "t") ∷ userdata 5 ∷ []) copied,
          made simple (number 9 ∷ []) with_table,
        ),
      ))
    × (script_thread_get simple 3 m (made simple [] with_table) ≡ broken)
unfolding c_string
thread_get-table_example =
    thread_get-table simple 1 (codes "t") (userdata 5) (number 8) 0 (number 9 ∷ []) with_table
      with_table with_thread copied 1 ((text (codes "a"), number 1) ∷ []) refl refl refl
      (refl, refl, tt, refl) (copied, refl, refl) (omega arith)
