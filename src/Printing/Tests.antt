-- ===== src/Printing/Tests.antt =====
-- Runs of the printing functions of src/wrk.c, and the theorem about print_units at a concrete input.
use wrk_offloadenginesupport.Prelude.{
  ℕ, ◌≡◌, ◌≤◌, ◌-◌, refl, some, [], ◌∷◌, ◌++◌, Bytes, codes, length, take, arith,
}
use wrk_offloadenginesupport.Floating.Hundredths.{hundredths}
use wrk_offloadenginesupport.Printing.{spaces, print_text, print_stats_header, error_lines}
use wrk_offloadenginesupport.Printing.Width.{print_text-width}

time_run : print_text (some (codes "1.50ms")) 8 ≡ some (codes "  1.50ms")
unfolding print_text
time_run = refl

count_run : print_text (some (codes "12.00")) 9 ≡ some (codes "  12.00  ")
unfolding print_text
count_run = refl

header_run :
    print_stats_header ≡ codes "  Thread Stats   Avg      Stdev     Max   +/- Stdev" ++ 10 ∷ []
unfolding print_stats_header
header_run = refl

print_text-width_example :
    (out : Bytes) × (a : ℕ) × (b : ℕ) × (print_text (some (codes "1.50ms")) 8 ≡ some out)
    × (length out ≡ 8)
    × (b ≤ 2)
    × (out ≡ spaces a ++ take (8 - b) (codes "1.50ms") ++ spaces b)
print_text-width_example = print_text-width (codes "1.50ms") 8 (omega arith) (omega arith)

-- Nothing is printed for counters that are zero.
quiet_run :
    error_lines hundredths (record { connect = 0; read = 0; write = 0; status = 0; timeout = 0 })
    ≡ []
unfolding error_lines
quiet_run = refl
