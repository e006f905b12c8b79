-- ===== src/Units/Decimal.antt =====
-- Decimal numerals, to state what the parser of src/units.c accepts without naming the parser.
use wrk_offloadenginesupport.Prelude.{
  ℕ, zero, suc, ◌+◌, ◌*◌, ◌/◌, ◌%◌, ◌≤◌, ◌<◌, ◌≡◌, refl, ◌∙◌, inl, inr, Bool, true, false, [], ◌∷◌,
  ◌++◌, append_assoc, Bytes, ltb, ◌==◌, if◌then◌else◌, arith, Bool-cases, ltb→lt, ap, sym,
}
use wrk_offloadenginesupport.Units.Scanf.{is_digit, is_space, scan_digits, scan_u64_2s, convert}

-- The usual numeral of `n`, with no leading zero; `fuel` counts digits.
decimal_fuel : ℕ → ℕ → Bytes
decimal_fuel zero n = (b'0' + n % 10) ∷ []
decimal_fuel (suc fuel) n =
    let more = decimal_fuel fuel (n / 10) in
    if ltb n 10 then (b'0' + n) ∷ [] else more ++ (b'0' + n % 10) ∷ []

pub decimal : ℕ → Bytes
unfolding decimal_fuel
decimal n = decimal_fuel n n

-- The text does not go on with a digit.
abbrev pub NoDigit : Bytes → Type 0
NoDigit [] = Unit {0}
NoDigit (c ∷ s) = is_digit c ≡ false

scan_digits_end : (n : ℕ) (s : Bytes) → NoDigit s → scan_digits n true s ≡ (n, true, s)
unfolding scan_digits
scan_digits_end n [] h = refl
scan_digits_end n (c ∷ s) h = rw h

scan_digits_one :
    (acc d : ℕ) (seen : Bool) (s : Bytes)
    → d < 10
    → scan_digits acc seen ((b'0' + d) ∷ s) ≡ scan_digits (acc * 10 + d) true s
unfolding scan_digits is_digit
scan_digits_one acc d seen s h = rw (digit d h) (ap (λ k. scan_digits k true s) (omega arith))
  where
    digit : (e : ℕ) → e < 10 → is_digit (b'0' + e) ≡ true
    digit e p = ground arith

scan_digits_fuel :
    (fuel n : ℕ) (s : Bytes)
    → n ≤ fuel
    → scan_digits 0 false (decimal_fuel fuel n ++ s) ≡ scan_digits n true s
unfolding decimal_fuel
scan_digits_fuel zero n s h =
    scan_digits_one 0 (n % 10) false s (omega arith) ∙ ap (λ k. scan_digits k true s) (omega arith)
scan_digits_fuel (suc fuel) n s h = elim (Bool-cases (ltb n 10)) [
  | inl small ↦ rw small (
      scan_digits_one 0 n false s (ltb→lt n 10 small)
      ∙ ap (λ k. scan_digits k true s) (omega arith))
  | inr large ↦
      rw (large, append_assoc (decimal_fuel fuel (n / 10)) ((b'0' + n % 10) ∷ []) s)
        (scan_digits_fuel fuel (n / 10) ((b'0' + n % 10) ∷ s) (ground arith)
          ∙ scan_digits_one (n / 10) (n % 10) true s (omega arith)
          ∙ ap (λ k. scan_digits k true s) (omega arith))
]

-- The digit loop reads a numeral back, whatever follows that is no digit.
pub scan_digits-decimal :
    (n : ℕ) (s : Bytes) → NoDigit s → scan_digits 0 false (decimal n ++ s) ≡ (n, true, s)
unfolding decimal
scan_digits-decimal n s h = scan_digits_fuel n n s (omega arith) ∙ scan_digits_end n s h

-- A numeral begins with a digit, so neither the white space nor the sign takes anything of it.
StartsWithDigit : Bytes → Type 0
StartsWithDigit s = (d : ℕ) × (t : Bytes) × (d < 10) × (s ≡ (b'0' + d) ∷ t)

decimal_fuel-StartsWithDigit : (fuel n : ℕ) → StartsWithDigit (decimal_fuel fuel n)
unfolding decimal_fuel StartsWithDigit
decimal_fuel-StartsWithDigit zero n = (n % 10, [], omega arith, refl)
decimal_fuel-StartsWithDigit (suc fuel) n = elim (Bool-cases (ltb n 10)) [
  | inl small ↦ (n, [], ltb→lt n 10 small, rw small)
  | inr large ↦
      let (d, t, lt, e) = decimal_fuel-StartsWithDigit fuel (n / 10) in
      (d, t ++ (b'0' + n % 10) ∷ [], lt, rw (large, e))
]

signed_digit :
    (d : ℕ) (t : Bytes)
    → d < 10
    → scan_u64_2s ((b'0' + d) ∷ t) ≡ convert false (scan_digits 0 false ((b'0' + d) ∷ t))
unfolding scan_u64_2s
signed_digit d t h = rw (space d h) (rw (minus d h) (rw (plus d h) refl))
  where
    space : (e : ℕ) → e < 10 → is_space (b'0' + e) ≡ false
    space e p = ground arith

    minus : (e : ℕ) → e < 10 → ((b'0' + e) == b'-') ≡ false
    minus e p = ground arith

    plus : (e : ℕ) → e < 10 → ((b'0' + e) == b'+') ≡ false
    plus e p = ground arith

-- `sscanf` reads a numeral, then goes on with what follows.
pub scan_u64_2s-decimal :
    (n : ℕ) (s : Bytes) → NoDigit s → scan_u64_2s (decimal n ++ s) ≡ convert false (n, true, s)
unfolding decimal StartsWithDigit
scan_u64_2s-decimal n s h =
    let (d, t, lt, e) = decimal_fuel-StartsWithDigit n n in
    ap (λ u. scan_u64_2s (u ++ s)) e
    ∙ signed_digit d (t ++ s) lt
    ∙ ap (λ u. convert false (scan_digits 0 false (u ++ s))) (sym e)
    ∙ ap (convert false) (scan_digits-decimal n s h)
