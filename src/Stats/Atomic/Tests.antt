-- ===== src/Stats/Atomic/Tests.antt =====
-- The theorem about the minimum under several threads, at concrete interleavings.
use wrk_offloadenginesupport.Prelude.{◌≡◌, List, [], ◌∷◌, arith}
use wrk_offloadenginesupport.Stats.Atomic.{Event, begins, advances, run, Done, run-minimum}

-- Two threads read a minimum of 9; the one with 5 swaps first, then the other finds that its copy is
-- old, and swaps in its second round.
abbrev race : List Event
race =
    begins 5
    ∷ begins 3
    ∷ advances 1
    ∷ advances 0
    ∷ advances 0
    ∷ advances 0
    ∷ advances 1
    ∷ advances 1
    ∷ []

race-Done : Done (run race (9, [])).1
unfolding run
race-Done = (omega arith, (omega arith, tt))

run-minimum_example : (run race (9, [])).0 ≡ 3
run-minimum_example = run-minimum 9 race race-Done
