-- ===== src/Units/Scanf.antt =====
-- What src/units.c uses of the C library: `sscanf(s, "%" SCNu64 "%2s", &base, unit)`.
-- Numbers past 64 bits become UINT64_MAX, and a minus sign negates modulo 2^64, as in `strtoull`.
use wrk_offloadenginesupport.Prelude.{
  ℕ, zero, suc, ◌+◌, ◌-◌, ◌*◌, ◌%◌, Bool, true, false, ◌&&◌, ◌||◌, [], ◌∷◌, u64, u64_max, Bytes,
  leb, ◌==◌, if◌then◌else◌,
}

-- The number of conversions made, and the two variables behind them.
pub record Conversion : Type 0 where
  pub count : ℕ
  pub base : ℕ
  pub unit : Bytes

unfoldable pub is_space : ℕ → Bool
is_space c = (c == 32) || (leb 9 c && leb c 13)

unfoldable pub is_digit : ℕ → Bool
is_digit c = leb b'0' c && leb c b'9'

unfoldable pub skip_space : Bytes → Bytes
unfolding is_space
skip_space [] = []
skip_space (c ∷ s) = if is_space c then skip_space s else c ∷ s

-- The value of the leading digits added to `acc`, whether there was one, and what follows.
unfoldable pub scan_digits : ℕ → Bool → Bytes → ℕ × Bool × Bytes
unfolding is_digit
scan_digits acc seen [] = (acc, seen, [])
scan_digits acc seen (c ∷ s) =
    let rest = scan_digits (acc * 10 + (c - b'0')) true s in
    if is_digit c then rest else (acc, seen, c ∷ s)

-- Up to `n` bytes that are no white space.
unfoldable pub scan_word : ℕ → Bytes → Bytes
unfolding is_space
scan_word zero s = []
scan_word (suc n) [] = []
scan_word (suc n) (c ∷ s) = let rest = scan_word n s in if is_space c then [] else c ∷ rest

unfoldable pub clip : Bool → ℕ → ℕ
clip minus v = if leb u64 v then u64_max else if minus then (u64 - v) % u64 else v

-- An empty second field is no conversion.
unfoldable pub with_word : ℕ → Bytes → Conversion
with_word v [] = record { count = 1; base = v; unit = [] }
with_word v (c ∷ w) = record { count = 2; base = v; unit = c ∷ w }

unfoldable pub convert : Bool → ℕ × Bool × Bytes → Conversion
unfolding with_word scan_word skip_space clip
convert minus (v, false, s) = record { count = 0; base = 0; unit = [] }
convert minus (v, true, s) = with_word (clip minus v) (scan_word 2 (skip_space s))

-- The number, after white space and a sign.
unfoldable pub signed : Bytes → Conversion
unfolding convert scan_digits
signed [] = convert false (0, false, [])
signed (c ∷ s) =
    if c == b'-'
    then convert true (scan_digits 0 false s)
    else if c == b'+'
    then convert false (scan_digits 0 false s)
    else convert false (scan_digits 0 false (c ∷ s))

unfoldable pub scan_u64_2s : Bytes → Conversion
unfolding signed skip_space
scan_u64_2s s = signed (skip_space s)
