-- ===== src/Printing/Width.antt =====
-- src/wrk.c: the width of what print_units prints.
use wrk_offloadenginesupport.Prelude.{
  ℕ, zero, suc, ◌+◌, ◌-◌, ◌≤◌, ◌≡◌, refl, ap, ◌∙◌, some, List, [], ◌∷◌, ◌++◌, Bytes, arith, length,
  length-append, replicate, take, codes,
}
use wrk_offloadenginesupport.Printing.{
  spaces, pad_left, last_two, padding, print_padded, print_text,
}

length-replicate {ℓ} : {A : Type ℓ} (n : ℕ) (a : A) → length (replicate n a) ≡ n
length-replicate zero a = refl
length-replicate (suc n) a = ap suc (length-replicate n a)

length-take_le {ℓ} : {A : Type ℓ} (n : ℕ) (xs : List A) → length (take n xs) ≤ n
length-take_le zero xs = omega arith
length-take_le (suc n) [] = omega arith
length-take_le (suc n) (x ∷ xs) = omega (arith, length-take_le n xs)

length-pad_left : (width : ℕ) (s : Bytes) → length s ≤ width → length (pad_left width s) ≡ width
length-pad_left width s h = omega (
  arith,
  length-append (spaces (width - length s)) s,
  length-replicate {A = ℕ} (width - length s) b' ',
)

length-blanks : (pad : ℕ) → pad ≤ 2 → length (take pad (codes "  ")) ≡ pad
length-blanks zero h = refl
length-blanks (suc zero) h = refl
length-blanks (suc (suc zero)) h = refl
length-blanks (suc (suc (suc n))) h = absurd (omega arith)

padding-le : (ends : ℕ × ℕ) → padding ends ≤ 2
unfolding padding
padding-le (a, b) = omega arith

length-print_padded :
    (width pad : ℕ) (msg : Bytes) → pad ≤ 2 → length (print_padded width msg pad) ≡ width + pad
unfolding print_padded
length-print_padded width pad msg h =
    length-append (pad_left width (take width msg)) (take pad (codes "  "))
    ∙ omega (
      arith,
      length-pad_left width (take width msg) (length-take_le width msg),
      length-blanks pad h,
    )

last_two-long : (msg : Bytes) → 2 ≤ length msg → (ends : ℕ × ℕ) × (last_two msg ≡ some ends)
unfolding last_two
last_two-long [] h = absurd (omega arith)
last_two-long (a ∷ []) h = absurd (omega arith)
last_two-long (a ∷ b ∷ []) h = ((b, a), refl)
last_two-long (a ∷ b ∷ c ∷ s) h = last_two-long (b ∷ c ∷ s) (omega arith)

blanks-spaces : (pad : ℕ) → pad ≤ 2 → take pad (codes "  ") ≡ spaces pad
blanks-spaces zero h = refl
blanks-spaces (suc zero) h = refl
blanks-spaces (suc (suc zero)) h = refl
blanks-spaces (suc (suc (suc n))) h = absurd (omega arith)

-- For a text of at least two characters, and a width of at least two, print_units prints exactly
-- `width` characters: blanks, the text cut to `width - b` characters, and `b` blanks, at most two.
pub print_text-width :
    (msg : Bytes) (width : ℕ)
    → 2 ≤ length msg
    → 2 ≤ width
    → (out : Bytes) × (a : ℕ) × (b : ℕ) × (print_text (some msg) width ≡ some out)
      × (length out ≡ width)
      × (b ≤ 2)
      × (out ≡ spaces a ++ take (width - b) msg ++ spaces b)
unfolding print_text print_padded
print_text-width msg width long wide =
    let (ends, e) = last_two-long msg long in
    let pad = padding ends in
    let h = padding-le ends in
    let k = width - pad in
    (
      print_padded k msg pad,
      k - length (take k msg),
      pad,
      rw e refl,
      omega (arith, length-print_padded k pad msg h),
      h,
      rw (blanks-spaces pad h) refl,
    )
