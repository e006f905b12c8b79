-- ===== src/Connection/Callbacks/Decode.antt =====
-- script_response of src/script.c reads back the headers that the callbacks have stored.
use wrk_offloadenginesupport.Prelude.{
  ℕ, zero, suc, ◌+◌, ◌<◌, ◌≡◌, refl, ap, sym, ◌∙◌, subst, Option, some, List, [], ◌∷◌, ◌++◌,
  append_assoc, u64, Bytes, length, arith, length-append, map, true, false, ltb, lt→ltb, take, drop,
}
use wrk_offloadenginesupport.Buffers.{Buffer, push_nul, buffer_pushlstring, buffer_reset}
use wrk_offloadenginesupport.Buffers.Text.{
  Holds, NoNul, push_nul-Holds, buffer_pushlstring-string, buffer_reset-Holds,
}
use wrk_offloadenginesupport.Connection.{Connection, World, HeaderTable, script_response, field}
use wrk_offloadenginesupport.Connection.HeaderTable.{
  new_header_table, raw_set_string, set_all, TableOf, set_all-TableOf,
}
use wrk_offloadenginesupport.Connection.Callbacks.{
  header_loop, response_headers, Completion, hand_over, has_buffer,
}
use wrk_offloadenginesupport.Connection.Callbacks.Headers.{At}
use wrk_offloadenginesupport.Connection.Callbacks.Roundtrip.{
  Header, Pair, joined, NoNuls, encoded, deliver_all, deliver_all-first,
}

-- From the index where the encoded list begins, the loop reads it back and stops at its end.
header_loop-encoded :
    (fuel : ℕ) (b : Buffer) (ps : List Pair) (before tail : Bytes) (t : HeaderTable)
    → b.bytes ≡ before ++ (encoded ps ++ tail)
    → b.used ≡ length before + length (encoded ps)
    → NoNuls ps
    → length (encoded ps) < fuel
    → header_loop fuel b (length before) t ≡ some (set_all ps t)
unfolding header_loop
header_loop-encoded zero b ps before tail t block used clean enough = absurd (omega arith)
header_loop-encoded (suc fuel) b [] before tail t block used clean enough =
    let end : ltb (length before) b.used ≡ false = ground arith in rw end
header_loop-encoded (suc fuel) b ((k, v) ∷ ps) before tail t block used clean enough =
    let rest : Bytes = encoded ps ++ tail in
    let flat : (k ++ 0 ∷ (v ++ 0 ∷ encoded ps)) ++ tail ≡ k ++ 0 ∷ (v ++ 0 ∷ rest) =
      append_assoc k (0 ∷ (v ++ 0 ∷ encoded ps)) tail
      ∙ ap (λ u. k ++ 0 ∷ u) (append_assoc v (0 ∷ encoded ps) tail) in
    let block₁ : b.bytes ≡ before ++ (k ++ 0 ∷ (v ++ 0 ∷ rest)) = block ∙ ap (◌++◌ before) flat in
    let before₂ : Bytes = before ++ (k ++ 0 ∷ []) in
    let block₂ : b.bytes ≡ before₂ ++ (v ++ 0 ∷ rest) =
      block₁
      ∙ sym (
          append_assoc before (k ++ 0 ∷ []) (v ++ 0 ∷ rest)
          ∙ ap (◌++◌ before) (append_assoc k (0 ∷ []) (v ++ 0 ∷ rest))) in
    let before₃ : Bytes = before₂ ++ (v ++ 0 ∷ []) in
    let block₃ : b.bytes ≡ before₃ ++ rest =
      block₂
      ∙ sym (
          append_assoc before₂ (v ++ 0 ∷ []) rest
          ∙ ap (◌++◌ before₂) (append_assoc v (0 ∷ []) rest)) in
    let end₂ : length before + length k + 1 ≡ length before₂ =
      omega (arith, length-append before (k ++ 0 ∷ []), length-append k (0 ∷ [])) in
    let end₃ : length before₂ + length v + 1 ≡ length before₃ =
      omega (arith, length-append before₂ (v ++ 0 ∷ []), length-append v (0 ∷ [])) in
    let size : length (encoded ((k, v) ∷ ps))
        ≡ length k + 1 + (length v + 1 + length (encoded ps)) =
      omega
        (arith, length-append k (0 ∷ (v ++ 0 ∷ encoded ps)), length-append v (0 ∷ encoded ps)) in
    let more : ltb (length before) b.used ≡ true = lt→ltb (length before) b.used (omega arith) in
    let ih =
      header_loop-encoded fuel b ps before₃ tail (raw_set_string k v t) block₃ (omega arith) clean.2
        (omega arith) in
    rw (
      more,
      buffer_pushlstring-string b before k (v ++ 0 ∷ rest) block₁ clean.0,
      end₂,
      buffer_pushlstring-string b before₂ v rest block₂ clean.1,
      end₃,
      ih,
    )

pub response_headers-encoded :
    (b : Buffer) (ps : List Pair) (tail : Bytes)
    → Holds b (encoded ps) tail
    → NoNuls ps
    → response_headers b ≡ some (set_all ps new_header_table)
unfolding response_headers
response_headers-encoded b ps tail h clean =
    header_loop-encoded (b.used + 1) b ps [] tail new_header_table h.block (omega (arith, h.cursor))
      clean (omega (arith, h.cursor))

-- Where a buffer has been allocated, what hand_over does, with the decoded headers to be computed.
hand_over-calls :
    (k : Completion) (w : World) (o : Option HeaderTable)
    → has_buffer w.conn.headers ≡ true
    → response_headers (push_nul w.conn.headers) ≡ o
    → ((hand_over k w).calls
        ≡ w.calls ++ script_response k.status o (take w.conn.body.used w.conn.body.bytes) ∷ [])
      × ((hand_over k w).conn.headers ≡ buffer_reset (push_nul w.conn.headers))
      × ((hand_over k w).conn.state ≡ field)
unfolding hand_over
hand_over-calls k w o has e = rw (has, e) (refl, refl, refl)

has_buffer-true : (b : Buffer) → 0 < b.size → has_buffer b ≡ true
unfolding has_buffer
has_buffer-true b h = ground arith

Holds-size : (b : Buffer) (t tail : Bytes) → Holds b t tail → b.size ≡ length t + length tail
Holds-size b t tail h = h.sized ∙ ap length h.block ∙ length-append t tail

-- The headers of a response reach the script: from a connection whose header buffer is empty, in
-- whatever pieces the parser hands over the names and the contents, at the end of the message the
-- script gets a table that has, for each name, the content of the last header with that name, and
-- nothing else, and the buffer is empty again. There is at least one header, no string has a NUL, and
-- all together are shorter than 2^64 - 1026 bytes.
pub hand_over-headers :
    (junk : ℕ → ℕ) (k : Completion) (w : World) (h : Header) (hs : List Header) (n : ℕ)
    → At field [] n w.conn
    → length (encoded (map joined (h ∷ hs))) + 1026 < u64
    → NoNuls (map joined (h ∷ hs))
    → let c = deliver_all junk (h ∷ hs) w.conn in
      let w' = hand_over k (record w { conn = c }) in
      ((t : HeaderTable) × TableOf (map joined (h ∷ hs)) t
        × (w'.calls
            ≡ w.calls ++ script_response k.status (some t) (take c.body.used c.body.bytes) ∷ []))
      × At field [] 0 w'.conn
hand_over-headers junk k w h hs n a bound clean =
    let c : Connection = deliver_all junk (h ∷ hs) w.conn in
    let (t, laid, whole) = deliver_all-first junk h hs n w.conn a bound in
    let ended : Holds (push_nul c.headers) (t ++ 0 ∷ []) (drop 1 laid.tail) =
      push_nul-Holds c.headers t laid.tail laid.holds (omega (arith, laid.room)) in
    let table : HeaderTable = set_all (map joined (h ∷ hs)) new_header_table in
    let read : response_headers (push_nul c.headers) ≡ some table =
      response_headers-encoded (push_nul c.headers) (map joined (h ∷ hs)) (drop 1 laid.tail)
        (subst (λ u. Holds (push_nul c.headers) u (drop 1 laid.tail)) whole ended) clean in
    let has : has_buffer c.headers ≡ true =
      has_buffer-true c.headers
        (omega (arith, Holds-size c.headers t laid.tail laid.holds, laid.room)) in
    let (calls, headers, state) = hand_over-calls k (record w { conn = c }) (some table) has read in
    (
      (table, set_all-TableOf (map joined (h ∷ hs)), calls),
      record {
        state = state;
        tail = (t ++ 0 ∷ []) ++ drop 1 laid.tail;
        holds =
            subst (λ b. Holds b [] ((t ++ 0 ∷ []) ++ drop 1 laid.tail)) (sym headers)
              (buffer_reset-Holds (push_nul c.headers) (t ++ 0 ∷ []) (drop 1 laid.tail) ended);
        room = omega arith;
      },
    )

stale-headers :
    (b : Buffer) (s rest : Bytes)
    → Holds b (0 ∷ []) (s ++ 0 ∷ rest)
    → NoNul s
    → response_headers b ≡ some (raw_set_string [] s new_header_table)
unfolding response_headers header_loop
stale-headers b s rest h clean =
    let fuel : b.used + 1 ≡ 2 = omega (arith, h.cursor) in
    let again : ltb 0 b.used ≡ true = lt→ltb 0 b.used (omega (arith, h.cursor)) in
    let stop : ltb (1 + length s + 1) b.used ≡ false = ground (arith, h.cursor) in
    let first : buffer_pushlstring b 0 ≡ some ([], 1) =
      buffer_pushlstring-string b [] [] (s ++ 0 ∷ rest) h.block tt in
    let second : buffer_pushlstring b 1 ≡ some (s, 1 + length s + 1) =
      buffer_pushlstring-string b (0 ∷ []) s rest h.block clean in
    ap (λ (f : ℕ). header_loop f b 0 new_header_table) fuel ∙ rw (again, first, second, stop)

-- A response with no header at all, after one on the same connection whose headers began with the
-- name `x ∷ s`: the table that the script is given has one entry, what is left of that old name,
-- under the empty name.
pub hand_over-stale :
    (k : Completion) (w : World) (x : ℕ) (s rest : Bytes)
    → Holds w.conn.headers [] (x ∷ (s ++ 0 ∷ rest))
    → NoNul s
    → (hand_over k w).calls
      ≡ w.calls
        ++ script_response k.status
            (some (raw_set_string [] s new_header_table))
            (take w.conn.body.used w.conn.body.bytes)
          ∷ []
hand_over-stale k w x s rest h clean =
    let ended : Holds (push_nul w.conn.headers) (0 ∷ []) (s ++ 0 ∷ rest) =
      push_nul-Holds w.conn.headers [] (x ∷ (s ++ 0 ∷ rest)) h (omega arith) in
    (hand_over-calls k w (some (raw_set_string [] s new_header_table))
      (has_buffer-true w.conn.headers (omega (arith, Holds-size w.conn.headers [] _ h)))
      (stale-headers (push_nul w.conn.headers) s rest ended clean)).0
