-- ===== src/Printing/Layout.antt =====
-- The lines that main of src/wrk.c prints of a run's results, and what stands in them.
use wrk_offloadenginesupport.Prelude.{
  ℕ, ◌≡◌, ◌≢◌, ◌⊎◌, Bool-cases, inl, inr, refl, sym, ◌∙◌, ap, Bool, true, false, Option, none, some,
  ◌>>=◌, [], ◌∷◌, ◌++◌, Bytes, codes, arith, if◌then◌else◌, not, ◌||◌, ◌==◌,
}
use mathlib.Core.Option.{some-injective}
use wrk_offloadenginesupport.Floating.{LongDouble}
use wrk_offloadenginesupport.Stats.{Stats}
use wrk_offloadenginesupport.Units.Decimal.{decimal}
use wrk_offloadenginesupport.Units.Format.{format_binary, format_metric, format_time_us}
use wrk_offloadenginesupport.Connection.{Errors}
use wrk_offloadenginesupport.Main.{Totals}
use wrk_offloadenginesupport.Printing.{
  pad_left, print_stats, print_stats_header, print_stats_latency, print_int, error_lines,
  per_second, print_results,
}

-- None of the errors of the sockets has been counted.
abbrev pub NoneCounted : Errors → Type 0
NoneCounted e = (e.connect ≡ 0) × (e.read ≡ 0) × (e.write ≡ 0) × (e.timeout ≡ 0)

-- The line of the socket errors is there if one of them has been counted.
abbrev pub ErrorLine : Errors → Bytes → Type 0
ErrorLine e line =
    (NoneCounted e × (line ≡ []))
    ⊎ ((¬ NoneCounted e)
        × (line
            ≡ codes "  Socket errors: connect "
              ++ print_int e.connect
              ++ codes ", read "
              ++ print_int e.read
              ++ codes ", write "
              ++ print_int e.write
              ++ codes ", timeout "
              ++ print_int e.timeout
              ++ codes "\n"))

abbrev pub StatusLine : Errors → Bytes → Type 0
StatusLine e line =
    ((e.status ≡ 0) × (line ≡ []))
    ⊎ ((e.status ≢ 0)
        × (line ≡ codes "  Non-2xx or 3xx responses: " ++ print_int e.status ++ codes "\n"))

errors_split :
    (F : LongDouble) (e : Errors)
    → (a : Bytes) × (b : Bytes) × ErrorLine e a × StatusLine e b × (error_lines F e ≡ a ++ b)
unfolding error_lines
errors_split F e =
    elim (Bool-cases
      (not (e.connect == 0) || not (e.read == 0) || not (e.write == 0) || not (e.timeout == 0))) [
        | inl t ↦ elim (Bool-cases (e.status == 0)) [
          | inl u ↦ (_, _, inr (ground arith, refl), inl (ground arith, refl), rw (t, u) refl)
          | inr u ↦ (_, _, inr (ground arith, refl), inr (ground arith, refl), rw (t, u) refl)
        ]
        | inr t ↦ elim (Bool-cases (e.status == 0)) [
          | inl u ↦ (_, _, inl (ground arith, refl), inl (ground arith, refl), rw (t, u) refl)
          | inr u ↦ (_, _, inl (ground arith, refl), inr (ground arith, refl), rw (t, u) refl)
        ]
      ]

then_some :
    {A B : Type 0} (o : Option A) (k : A → Option B) (b : B)
    → (o >>= k) ≡ some b
    → (a : A) × (o ≡ some a) × (k a ≡ some b)
then_some none k b e = absurd (cc)
then_some (some a) k b e = (a, refl, e)

wanted_some :
    (F : LongDouble) (wanted : Bool) (s : Stats) (text : Bytes)
    → (if wanted then print_stats_latency F s else some []) ≡ some text
    → ((wanted ≡ true) × (print_stats_latency F s ≡ some text)) ⊎ ((wanted ≡ false) × (text ≡ []))
wanted_some F true s text e = inl (refl, e)
wanted_some F false s text e = inr (refl, cc)

-- The text around the parts that depend on the run.
abbrev pub around :
    (F : LongDouble) → ℕ → ℕ → Bytes → Bytes → Bytes → Bytes → Bytes → Bytes → Bytes → Bytes
around F complete runtime_us latency_row requests_row distribution runtime size rate errors =
    codes "  Thread Stats   Avg      Stdev     Max   +/- Stdev\n"
    ++ latency_row
    ++ requests_row
    ++ distribution
    ++ codes "  "
    ++ decimal complete
    ++ codes " requests in "
    ++ runtime
    ++ codes ", "
    ++ size
    ++ codes "B read"
    ++ 10 ∷ errors
    ++ codes "Requests/sec: "
    ++ pad_left 9 (
        F.print 2 (F.over (F.ratio complete 1) (F.over (F.ratio runtime_us 1) (F.ratio 1000000 1))))
    ++ 10 ∷ codes "Transfer/sec: "
    ++ pad_left 10 rate
    ++ codes "B"
    ++ 10 ∷ []

-- The text of the results: the head of the table, its two rows, the distribution of the latencies
-- where it is wanted, the totals, the errors that have been counted, and the two rates.
pub record Laid (F : LongDouble) (wanted : Bool) (latency requests : Stats) (runtime_us : ℕ)
    (t : Totals) (text : Bytes) : Type 0 where
  pub latency_row : Bytes
  pub requests_row : Bytes
  pub distribution : Bytes
  pub runtime : Bytes
  pub size : Bytes
  pub socket_errors : Bytes
  pub status_errors : Bytes
  pub rate : Bytes
  pub of_latency : print_stats F (codes "Latency") latency (format_time_us F) ≡ some latency_row
  pub of_requests : print_stats F (codes "Req/Sec") requests (format_metric F) ≡ some requests_row
  pub of_distribution :
      ((wanted ≡ true) × (print_stats_latency F latency ≡ some distribution))
      ⊎ ((wanted ≡ false) × (distribution ≡ []))
  pub of_runtime : format_time_us F (F.ratio runtime_us 1) ≡ some runtime
  pub of_bytes : format_binary F (F.ratio t.bytes 1) ≡ some size
  pub of_socket_errors : ErrorLine t.errors socket_errors
  pub of_status_errors : StatusLine t.errors status_errors
  pub of_rate :
      format_binary F
        (F.over (F.ratio t.bytes 1) (F.over (F.ratio runtime_us 1) (F.ratio 1000000 1)))
      ≡ some rate
  pub layout :
      text
      ≡ around F t.complete runtime_us latency_row requests_row distribution runtime size rate
          (socket_errors ++ status_errors)

pub print_results-Laid :
    (F : LongDouble) (wanted : Bool) (latency requests : Stats) (runtime_us : ℕ) (t : Totals)
    (text : Bytes)
    → print_results F wanted latency requests runtime_us t ≡ some text
    → Laid F wanted latency requests runtime_us t text
unfolding print_results print_stats_header per_second
print_results-Laid F wanted latency requests runtime_us t text e =
    let (a, ea, e₁) =
      then_some (print_stats F (codes "Latency") latency (format_time_us F)) _ text e in
    let (b, eb, e₂) =
      then_some (print_stats F (codes "Req/Sec") requests (format_metric F)) _ text e₁ in
    let (c, ec, e₃) =
      then_some (if wanted then print_stats_latency F latency else some []) _ text e₂ in
    let (r, er, e₄) = then_some (format_time_us F (F.ratio runtime_us 1)) _ text e₃ in
    let (z, ez, e₅) = then_some (format_binary F (F.ratio t.bytes 1)) _ text e₄ in
    let (y, ey, e₆) = then_some (format_binary F (per_second F t.bytes runtime_us)) _ text e₅ in
    let (x, w, ex, ew, both) = errors_split F t.errors in
    record {
      latency_row = a;
      requests_row = b;
      distribution = c;
      runtime = r;
      size = z;
      socket_errors = x;
      status_errors = w;
      rate = y;
      of_latency = ea;
      of_requests = eb;
      of_distribution = wanted_some F wanted latency c ec;
      of_runtime = er;
      of_bytes = ez;
      of_socket_errors = ex;
      of_status_errors = ew;
      of_rate = ey;
      layout = sym (some-injective _ _ e₆) ∙ ap (around F t.complete runtime_us a b c r z y) both;
    }
