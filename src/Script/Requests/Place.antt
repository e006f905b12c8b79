-- ===== src/Script/Requests/Place.antt =====
-- src/script.c: where script_verify_request says that an error is, and which texts it accepts.
use wrk_offloadenginesupport.Prelude.{
  ℕ, zero, suc, ◌+◌, ◌≤◌, ◌≡◌, ◌↔◌, [], ◌∷◌, ◌++◌, Bytes, length, arith, if◌then◌else◌, ◌==◌, ap,
  ◌∙◌,
}
use wrk_offloadenginesupport.Script.Requests.{
  place_loop, verify_request, count_messages, ParsedRequest, pipelined, verify_text,
}

abbrev pub newlines : Bytes → ℕ
newlines [] = 0
newlines (c ∷ s) = let rest = newlines s in if c == 10 then suc rest else rest

place_loop-first :
    (s : Bytes) (line column : ℕ)
    → newlines s ≡ 0
    → place_loop s (line, column) ≡ (line, column + length s)
unfolding place_loop
place_loop-first [] line column h = ground arith
place_loop-first (c ∷ s) line column h =
    let e = λ (z : newlines s ≡ 0). place_loop-first s line (column + 1) z in ground arith

place_loop-later :
    (before last : Bytes) (line column : ℕ)
    → newlines last ≡ 0
    → place_loop (before ++ (10 ∷ last)) (line, column)
      ≡ (line + newlines before + 1, 1 + length last)
unfolding place_loop
place_loop-later [] last line column h =
    place_loop-first last (line + 1) 1 h ∙ ap (λ x. (x, 1 + length last)) (omega arith)
place_loop-later (c ∷ before) last line column h =
    let e = place_loop-later before last (line + 1) 1 h in
    let f = place_loop-later before last line (column + 1) h in ground arith

-- Without a newline the error is on line 1, behind the bytes; otherwise its line counts the newlines
-- and its column the bytes after the last one.
pub place_loop_lem :
    (before last : Bytes)
    → newlines last ≡ 0
    → (place_loop last (1, 1) ≡ (1, 1 + length last))
      × (place_loop (before ++ (10 ∷ last)) (1, 1) ≡ (2 + newlines before, 1 + length last))
place_loop_lem before last h = (
  place_loop-first last 1 1 h,
  place_loop-later before last 1 1 h ∙ ap (λ x. (x, 1 + length last)) (omega arith),
)

count_messages-adds : (n count : ℕ) → count_messages n count ≡ count + n
unfolding count_messages verify_request
count_messages-adds zero count = omega arith
count_messages-adds (suc n) count = omega (arith, count_messages-adds n (count + 1))

-- The check of a request accepts it, with `n` messages, exactly if the parser has gone through all
-- bytes and has found `n` messages, at least one.
verify_text-pipelined :
    (p : ParsedRequest) (request : Bytes) (n : ℕ)
    → (verify_text p request ≡ pipelined n)
      ↔ ((p.parsed ≡ length request) × (p.messages ≡ n) × (1 ≤ n))
unfolding verify_text
verify_text-pipelined p request n = let e = count_messages-adds p.messages 0 in ground arith
