-- ===== src/Printing.antt =====
-- src/wrk.c, what main prints at the end: print_stats_header, print_units, print_stats,
-- print_stats_latency and the lines of main. The result of a function is its output.
pub mod Width
pub mod Layout
mod Tests
use wrk_offloadenginesupport.Prelude.{
  ℕ, zero, suc, ◌+◌, ◌-◌, ◌/◌, Bool, true, false, ◌&&◌, ◌||◌, not, Option, none, some, ◌>>=◌, List,
  [], ◌∷◌, ◌++◌, Bytes, codes, if◌then◌else◌, leb, ltb, ◌==◌, length, take, replicate, u32,
}
use wrk_offloadenginesupport.Floating.{LongDouble}
use wrk_offloadenginesupport.Stats.{Stats}
use wrk_offloadenginesupport.Stats.Moments.{
  stats_mean, stats_stdev, stats_within_stdev, stats_percentile,
}
use wrk_offloadenginesupport.Units.Decimal.{decimal}
use wrk_offloadenginesupport.Units.Format.{format_binary, format_metric, format_time_us}
use wrk_offloadenginesupport.Connection.{Errors}
use wrk_offloadenginesupport.Main.{Totals}

-- `%<width>s` and `%-<width>s` of printf.
abbrev pub spaces : ℕ → Bytes
spaces n = replicate n b' '

abbrev pub pad_left : ℕ → Bytes → Bytes
pad_left width s = spaces (width - length s) ++ s

abbrev pub pad_right : ℕ → Bytes → Bytes
pad_right width s = s ++ spaces (width - length s)

-- `isalpha` in the C locale.
unfoldable pub is_alpha : ℕ → Bool
is_alpha c = (leb b'a' c && leb c b'z') || (leb b'A' c && leb c b'Z')

unfoldable pub print_stats_header : Bytes
print_stats_header =
    codes "  Thread Stats"
    ++ pad_left 6 (codes "Avg")
    ++ pad_left 11 (codes "Stdev")
    ++ pad_left 8 (codes "Max")
    ++ pad_left 12 (codes "+/- Stdev")
    ++ 10 ∷ []

-- `msg[len-1]` and `msg[len-2]`; `none` where the text is too short to have them.
unfoldable pub last_two : Bytes → Option (ℕ × ℕ)
last_two [] = none
last_two (a ∷ []) = none
last_two (a ∷ b ∷ []) = some (b, a)
last_two (a ∷ b ∷ c ∷ s) = last_two (b ∷ c ∷ s)

-- `pad`, once it has been decremented.
unfoldable pub padding : ℕ × ℕ → ℕ
unfolding is_alpha
padding (last, before) = 2 - (if is_alpha last then 1 else 0) - (if is_alpha before then 1 else 0)

-- `printf("%*.*s%.*s", width, width, msg, pad, "  ")`, after `width -= pad`.
unfoldable pub print_padded : ℕ → Bytes → ℕ → Bytes
print_padded width msg pad = pad_left width (take width msg) ++ take pad (codes "  ")

-- print_units on the text that the formatting function gives, which can be NULL.
unfoldable pub print_text : Option Bytes → ℕ → Option Bytes
unfolding last_two padding print_padded
print_text o width = do
  msg ← o
  ends ← last_two msg
  some (print_padded (width - padding ends) msg (padding ends))

-- `%d` of a counter, which is unsigned and has 32 bits.
unfoldable pub print_int : ℕ → Bytes
print_int n = if ltb n (u32 / 2) then decimal n else codes "-" ++ decimal (u32 - n)

module _ (F : LongDouble) where
  open F use {Number, ratio, over, print}

  unfoldable pub print_units : Number → (Number → Option Bytes) → ℕ → Option Bytes
  unfolding print_text
  print_units n fmt width = print_text (fmt n) width

  unfoldable pub print_stats : Bytes → Stats → (Number → Option Bytes) → Option Bytes
  unfolding print_units
  print_stats name s fmt = do
    let mean = stats_mean F s
    let stdev = stats_stdev F s mean
    a ← print_units mean fmt 8
    b ← print_units stdev fmt 10
    c ← print_units (ratio s.max 1) fmt 9
    some (
        codes "    "
        ++ pad_right 10 name
        ++ a
        ++ b
        ++ c
        ++ pad_left 8 (print 2 (stats_within_stdev F s mean stdev 1))
        ++ codes "%"
        ++ 10 ∷ [])

  abbrev pub percentiles : List ℕ
  percentiles = 50 ∷ 75 ∷ 90 ∷ 99 ∷ []

  -- The loop over `percentiles`.
  unfoldable pub latency_lines : Stats → List ℕ → Option Bytes
  unfolding print_units
  latency_lines s [] = some []
  latency_lines s (p ∷ ps) = do
    a ← print_units (ratio (stats_percentile F s (ratio p 1)) 1) (format_time_us F) 10
    rest ← latency_lines s ps
    some (pad_left 7 (print 0 (ratio p 1)) ++ codes "%" ++ a ++ 10 ∷ rest)

  unfoldable pub print_stats_latency : Stats → Option Bytes
  unfolding latency_lines
  print_stats_latency s = do
    rest ← latency_lines s percentiles
    some (codes "  Latency Distribution" ++ 10 ∷ rest)

  -- A line for each group of counters that is not zero.
  unfoldable pub error_lines : Errors → Bytes
  unfolding print_int
  error_lines e =
      (if not (e.connect == 0) || not (e.read == 0) || not (e.write == 0) || not (e.timeout == 0)
        then codes "  Socket errors: connect "
          ++ print_int e.connect
          ++ codes ", read "
          ++ print_int e.read
          ++ codes ", write "
          ++ print_int e.write
          ++ codes ", timeout "
          ++ print_int e.timeout
          ++ 10 ∷ []
        else [])
      ++ (if e.status == 0
          then []
          else codes "  Non-2xx or 3xx responses: " ++ print_int e.status ++ 10 ∷ [])

  -- `n / runtime_s`
  unfoldable pub per_second : ℕ → ℕ → Number
  per_second n runtime_us = over (ratio n 1) (over (ratio runtime_us 1) (ratio 1000000 1))

  -- From print_stats_header on, for the two histograms, `runtime_us` and the totals; `none` where a
  -- text could not be built.
  unfoldable pub print_results : Bool → Stats → Stats → ℕ → Totals → Option Bytes
  unfolding print_stats_header print_stats print_stats_latency error_lines per_second
  print_results latency_wanted latency requests runtime_us t = do
    a ← print_stats (codes "Latency") latency (format_time_us F)
    b ← print_stats (codes "Req/Sec") requests (format_metric F)
    c ← (if latency_wanted then print_stats_latency latency else some [])
    runtime ← format_time_us F (ratio runtime_us 1)
    size ← format_binary F (ratio t.bytes 1)
    rate ← format_binary F (per_second t.bytes runtime_us)
    some (
        print_stats_header
        ++ a
        ++ b
        ++ c
        ++ codes "  "
        ++ decimal t.complete
        ++ codes " requests in "
        ++ runtime
        ++ codes ", "
        ++ size
        ++ codes "B read"
        ++ 10 ∷ error_lines t.errors
        ++ codes "Requests/sec: "
        ++ pad_left 9 (print 2 (per_second t.complete runtime_us))
        ++ 10 ∷ codes "Transfer/sec: "
        ++ pad_left 10 rate
        ++ codes "B"
        ++ 10 ∷ [])
