-- ===== src/Buffers/Text.antt =====
-- What a buffer holds: its text, the bytes before the cursor, and room behind it.
use wrk_offloadenginesupport.Prelude.{
  ℕ, zero, suc, ◌+◌, ◌≤◌, ◌<◌, ◌≡◌, refl, ap, sym, ◌∙◌, some, [], ◌∷◌, ◌++◌, append_assoc,
  append-nil, u64, Bytes, leb, ◌==◌, length, set, drop, arith, length-append, length-drop,
  length-set, Bool-cases, leb→le, inl, inr, ap₂, ◌≢◌, false,
}
use wrk_offloadenginesupport.Buffers.{
  Buffer, no_buffer, fresh, copy_to, grow, buffer_append, buffer_reset, push_nul, scan_nul,
  buffer_pushlstring,
}

-- The block of the buffer is the text followed by `tail`, and its size is recorded.
pub record Holds (b : Buffer) (text : Bytes) (tail : Bytes) : Type 0 where
  pub block : b.bytes ≡ text ++ tail
  pub cursor : b.used ≡ length text
  pub sized : b.size ≡ length b.bytes

set-append : (t : Bytes) (x y : ℕ) (s : Bytes) → set (t ++ x ∷ s) (length t) y ≡ t ++ y ∷ s
set-append [] x y s = refl
set-append (z ∷ t) x y s = ap (◌∷◌ z) (set-append t x y s)

length-fresh : (junk : ℕ → ℕ) (n i : ℕ) → length (fresh junk n i) ≡ n
unfolding fresh
length-fresh junk zero i = refl
length-fresh junk (suc n) i = ap suc (length-fresh junk n (i + 1))

copy_to-append :
    (t text tail : Bytes)
    → length text ≤ length tail
    → copy_to (t ++ tail) (length t) text ≡ (t ++ text) ++ drop (length text) tail
unfolding copy_to
copy_to-append t [] tail h = ap (λ u. u ++ tail) (sym (append-nil t))
copy_to-append t (x ∷ text) [] h = absurd (omega arith)
copy_to-append t (x ∷ text) (y ∷ tail) h =
    let snoc : length (t ++ x ∷ []) ≡ length t + 1 = length-append t (x ∷ []) in
    let ih = copy_to-append (t ++ x ∷ []) text tail (omega arith) in
    rw (set-append t y x tail)
      (rw (append_assoc t (x ∷ []) tail, append_assoc t (x ∷ []) text, snoc) at ih)

-- The growing loop ends with room for `need` bytes and more, and keeps the text.
record Grown (b : Buffer) (t : Bytes) (need : ℕ) : Type 0 where
  tail : Bytes
  holds : Holds b t tail
  room : need < b.size

grow-Grown :
    (junk : ℕ → ℕ) (fuel need : ℕ) (b : Buffer) (t tail : Bytes)
    → Holds b t tail
    → need + 1024 < u64
    → need < b.size + fuel
    → Grown (grow junk fuel need b) t need
unfolding grow
grow-Grown junk zero need b t tail h bound enough = record {
  tail = tail;
  holds = h;
  room = omega arith;
}
grow-Grown junk (suc fuel) need b t tail h bound enough = elim (Bool-cases (leb b.size need)) [
  | inl small ↦
      let le : b.size ≤ need = leb→le b.size need small in
      rw small (
        grow-Grown junk fuel need _ t (tail ++ fresh junk 1024 (length b.bytes))
          (record {
            block = ap (λ u. u ++ fresh junk 1024 (length b.bytes)) h.block ∙ append_assoc t tail _;
            cursor = h.cursor;
            sized = omega (
              arith,
              h.sized,
              length-append b.bytes (fresh junk 1024 (length b.bytes)),
              length-fresh junk 1024 (length b.bytes),
            );
          })
          bound (omega arith))
  | inr large ↦ rw large (record { tail = tail; holds = h; room = ground arith })
]

-- A text that the block holds, with at least two bytes of room behind it.
pub record Roomy (b : Buffer) (t : Bytes) : Type 0 where
  pub tail : Bytes
  pub holds : Holds b t tail
  pub room : 2 ≤ length tail

length-copy_to : (m : Bytes) (i : ℕ) (text : Bytes) → length (copy_to m i text) ≡ length m
unfolding copy_to
length-copy_to m i [] = refl
length-copy_to m i (x ∷ text) = length-copy_to (set m i x) (i + 1) text ∙ length-set m i x

-- buffer_append puts the text behind what the buffer holds, whatever the size of the block was, and
-- leaves room for two bytes: all its writes are inside the block. Both together are shorter than
-- 2^64 - 1025 bytes.
pub buffer_append-Roomy :
    (junk : ℕ → ℕ) (b : Buffer) (t tail text : Bytes)
    → Holds b t tail
    → length t + length text + 1025 < u64
    → Roomy (buffer_append junk b text) (t ++ text)
unfolding buffer_append
buffer_append-Roomy junk b t tail text h bound =
    let need : ℕ = b.used + length text + 1 in
    let g = grow-Grown junk (need + 1) need b t tail h (omega (arith, h.cursor)) (omega arith) in
    let b' : Buffer = grow junk (need + 1) need b in
    let size : length b'.bytes ≡ length t + length g.tail =
      ap length g.holds.block ∙ length-append t g.tail in
    let fits : length text + 2 ≤ length g.tail =
      omega (arith, size, g.room, g.holds.sized, h.cursor) in
    record {
      tail = drop (length text) g.tail;
      holds = record {
        block =
            ap₂ (λ m i. copy_to m i text) g.holds.block g.holds.cursor
            ∙ copy_to-append t text g.tail (omega arith);
        cursor = omega (arith, g.holds.cursor, length-append t text);
        sized = g.holds.sized ∙ sym (length-copy_to b'.bytes b'.used text);
      };
      room = omega (arith, length-drop (length text) g.tail);
    }

-- `*cursor++ = 0` after a text with room behind it writes inside the block.
pub push_nul-Holds :
    (b : Buffer) (t tail : Bytes)
    → Holds b t tail
    → 1 ≤ length tail
    → Holds (push_nul b) (t ++ 0 ∷ []) (drop 1 tail)
unfolding push_nul
push_nul-Holds b t [] h room = absurd (omega arith)
push_nul-Holds b t (x ∷ tail) h room = record {
  block =
      ap₂ (λ (m : Bytes) i. set m i 0) h.block h.cursor
      ∙ set-append t x 0 tail
      ∙ sym (append_assoc t (0 ∷ []) tail);
  cursor = omega (arith, h.cursor, length-append t (0 ∷ []));
  sized = h.sized ∙ sym (length-set b.bytes b.used 0);
}

pub no_buffer-Holds : Holds no_buffer [] []
no_buffer-Holds = record { block = refl; cursor = refl; sized = refl }

-- Resetting drops the text and keeps the block.
pub buffer_reset-Holds :
    (b : Buffer) (t tail : Bytes) → Holds b t tail → Holds (buffer_reset b) [] (t ++ tail)
unfolding buffer_reset
buffer_reset-Holds b t tail h = record { block = h.block; cursor = refl; sized = h.sized }

-- The bytes of a C string.
abbrev pub NoNul : Bytes → Type 0
NoNul [] = Unit {0}
NoNul (x ∷ s) = (x ≢ 0) × NoNul s

scan_nul-append :
    (s rest : Bytes) (n : ℕ) → NoNul s → scan_nul (s ++ 0 ∷ rest) n ≡ some (s, n + length s + 1)
unfolding scan_nul
scan_nul-append [] rest n h = ap (λ (k : ℕ). some ([], k)) (omega arith)
scan_nul-append (x ∷ s) rest n h =
    let t : (x == 0) ≡ false = ground (arith, h.0) in
    rw (t, scan_nul-append s rest (n + 1) h.1) (ap (λ (k : ℕ). some (x ∷ s, k)) (omega arith))

pub drop-append : (t u : Bytes) → drop (length t) (t ++ u) ≡ u
drop-append [] u = refl
drop-append (x ∷ t) u = drop-append t u

-- buffer_pushlstring reads back a string that the block holds from the index on, and returns the
-- index behind its NUL.
pub buffer_pushlstring-string :
    (b : Buffer) (before s rest : Bytes)
    → b.bytes ≡ before ++ (s ++ 0 ∷ rest)
    → NoNul s
    → buffer_pushlstring b (length before) ≡ some (s, length before + length s + 1)
unfolding buffer_pushlstring
buffer_pushlstring-string b before s rest e h =
    ap (λ m. scan_nul (drop (length before) m) (length before)) e
    ∙ ap (λ m. scan_nul m (length before)) (drop-append before (s ++ 0 ∷ rest))
    ∙ scan_nul-append s rest (length before) h
