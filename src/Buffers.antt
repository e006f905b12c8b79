-- ===== src/Buffers.antt =====
-- src/wrk.h, `buffer`, and src/script.c, buffer_append, buffer_reset and buffer_pushlstring.
pub mod Text
mod Tests
use wrk_offloadenginesupport.Prelude.{
  ℕ, zero, suc, ◌+◌, ◌-◌, ◌%◌, ◌≡◌, refl, Option, none, some, List, [], ◌∷◌, ◌++◌, u64, Bytes, ltb,
  leb, ◌==◌, if◌then◌else◌, length, set, drop,
}

-- `bytes` is the block at `b->buffer`, and `[]` is NULL; `size` is `b->length`; `used` is
-- `b->cursor - b->buffer`.
pub record Buffer : Type 0 where
  pub bytes : Bytes
  pub size : ℕ
  pub used : ℕ

-- What `zcalloc` gives a connection.
abbrev pub no_buffer : Buffer
no_buffer = record { bytes = []; size = 0; used = 0 }

-- `n` bytes of new memory from index `i` on, whose values `junk` decides.
pub fresh : (ℕ → ℕ) → ℕ → ℕ → Bytes
fresh junk zero i = []
fresh junk (suc n) i = junk i ∷ fresh junk n (i + 1)

-- `memcpy` of the bytes to index `i`.
pub copy_to : Bytes → ℕ → Bytes → Bytes
copy_to m i [] = m
copy_to m i (x ∷ xs) = copy_to (set m i x) (i + 1) xs

module _ (junk : ℕ → ℕ) where
  -- `while (used + len + 1 >= b->length)`, for `need = used + len + 1`. `realloc` keeps the bytes
  -- of the block, and ends the program by a fault where it has no memory.
  pub grow : ℕ → ℕ → Buffer → Buffer
  unfolding fresh
  grow zero need b = b
  grow (suc fuel) need b =
      let more = grow fuel need (record b {
        size = (b.size + 1024) % u64;
        bytes = b.bytes ++ fresh junk 1024 (length b.bytes);
      }) in
      if leb b.size need then more else b

  -- A round adds 1024 bytes, so `need + 1` rounds are enough: `Text.grow-Grown`.
  unfoldable pub buffer_append : Buffer → Bytes → Buffer
  unfolding grow copy_to
  buffer_append b text =
      let need = b.used + length text + 1 in
      let b' = grow (need + 1) need b in
      record b' { bytes = copy_to b'.bytes b'.used text; used = b'.used + length text }

unfoldable pub buffer_reset : Buffer → Buffer
buffer_reset b = record b { used = 0 }

-- `*b->cursor++ = '\0'`
unfoldable pub push_nul : Buffer → Buffer
push_nul b = record b { bytes = set b.bytes b.used 0; used = b.used + 1 }

prepend : ℕ → Option (Bytes × ℕ) → Option (Bytes × ℕ)
prepend y none = none
prepend y (some (s, m)) = some (y ∷ s, m)

-- `strchr(start, 0)` from index `n` on: the string and the index after its NUL, or `none` where
-- the block has no NUL there and the search runs past its end.
pub scan_nul : Bytes → ℕ → Option (Bytes × ℕ)
unfolding prepend
scan_nul [] n = none
scan_nul (x ∷ xs) n =
    let rest = prepend x (scan_nul xs (n + 1)) in if x == 0 then some ([], n + 1) else rest

-- The string that is pushed on the Lua stack, and the index returned.
unfoldable pub buffer_pushlstring : Buffer → ℕ → Option (Bytes × ℕ)
unfolding scan_nul
buffer_pushlstring b start = scan_nul (drop start b.bytes) start
