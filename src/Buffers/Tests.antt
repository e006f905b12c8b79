-- ===== src/Buffers/Tests.antt =====
-- Runs of the buffers of src/script.c, and the theorems about them at concrete inputs.
use wrk_offloadenginesupport.Prelude.{◌≡◌, refl, some, codes, ◌++◌, ◌∷◌, [], arith}
use wrk_offloadenginesupport.Buffers.{
  Buffer, no_buffer, buffer_append, push_nul, buffer_pushlstring, buffer_reset,
}
use wrk_offloadenginesupport.Buffers.Text.{Roomy, no_buffer-Holds, buffer_append-Roomy}

append_runs : (buffer_append (λ i. 7) no_buffer (codes "ab")).size ≡ 1024
unfolding buffer_append
append_runs = refl

push_runs :
    buffer_pushlstring (push_nul (buffer_append (λ i. 7) no_buffer (codes "ab"))) 0
    ≡ some (codes "ab", 3)
unfolding buffer_append push_nul buffer_pushlstring
push_runs = refl

abbrev text_block : Buffer
text_block = record { bytes = codes "x" ++ codes "ab" ++ 0 ∷ 9 ∷ []; size = 5; used = 4 }

reset_runs : (buffer_reset text_block).used ≡ 0
unfolding buffer_reset
reset_runs = refl

buffer_append-Roomy_example :
    Roomy (buffer_append (λ i. 7) no_buffer (codes "ab")) ([] ++ codes "ab")
buffer_append-Roomy_example =
    buffer_append-Roomy (λ i. 7) no_buffer [] [] (codes "ab") no_buffer-Holds (omega arith)
