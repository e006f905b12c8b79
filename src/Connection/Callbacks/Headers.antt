-- ===== src/Connection/Callbacks/Headers.antt =====
-- What header_field and header_value of src/wrk.c leave in the header buffer.
use wrk_offloadenginesupport.Prelude.{
  ℕ, ◌+◌, ◌≤◌, ◌<◌, ◌≡◌, refl, sym, subst, [], ◌∷◌, ◌++◌, u64, Bytes, length, arith, length-append,
  drop, length-drop,
}
use wrk_offloadenginesupport.Buffers.Text.{Holds, buffer_append-Roomy, push_nul-Holds}
use wrk_offloadenginesupport.Connection.{Connection, HeaderState, field, value}
use wrk_offloadenginesupport.Connection.Callbacks.{
  append_headers, enter_field, enter_value, header_field, header_value,
}

-- The connection is in state `s`, and its header buffer holds `t` with `spare` bytes behind it.
pub record At (s : HeaderState) (t : Bytes) (spare : ℕ) (c : Connection) : Type 0 where
  pub state : c.state ≡ s
  pub tail : Bytes
  pub holds : Holds c.headers t tail
  pub room : spare ≤ length tail

module _ (junk : ℕ → ℕ) where
  append_headers-At :
      (s : HeaderState) (t text : Bytes) (n : ℕ) (c : Connection)
      → At s t n c
      → length t + length text + 1025 < u64
      → At s (t ++ text) 2 (append_headers junk text c)
  unfolding append_headers
  append_headers-At s t text n c a bound =
      let r = buffer_append-Roomy junk c.headers t a.tail text a.holds bound in
      record { state = a.state; tail = r.tail; holds = r.holds; room = r.room }

  -- One more piece of the same part.
  pub header_field-At :
      (t text : Bytes) (n : ℕ) (c : Connection)
      → At field t n c
      → length t + length text + 1025 < u64
      → At field (t ++ text) 2 (header_field junk text c)
  unfolding header_field
  header_field-At t text n c a bound =
      subst (λ s. At field (t ++ text) 2 (append_headers junk text (enter_field s c))) (sym a.state)
        (append_headers-At field t text n c a bound)

  pub header_value-At :
      (t text : Bytes) (n : ℕ) (c : Connection)
      → At value t n c
      → length t + length text + 1025 < u64
      → At value (t ++ text) 2 (header_value junk text c)
  unfolding header_value
  header_value-At t text n c a bound =
      subst (λ s. At value (t ++ text) 2 (append_headers junk text (enter_value s c))) (sym a.state)
        (append_headers-At value t text n c a bound)

  -- The other part begins: a NUL ends the one before.
  pub header_value-At_field :
      (t text : Bytes) (c : Connection)
      → At field t 2 c
      → length t + 1 + length text + 1025 < u64
      → At value ((t ++ 0 ∷ []) ++ text) 2 (header_value junk text c)
  unfolding header_value
  header_value-At_field t text c a bound =
      subst (λ s. At value ((t ++ 0 ∷ []) ++ text) 2 (append_headers junk text (enter_value s c)))
        (sym a.state)
        (append_headers-At value (t ++ 0 ∷ []) text 1 (enter_value field c)
          (record {
            state = refl;
            tail = drop 1 a.tail;
            holds = push_nul-Holds c.headers t a.tail a.holds (omega (arith, a.room));
            room = omega (arith, a.room, length-drop 1 a.tail);
          })
          (omega (arith, length-append t (0 ∷ []))))

  pub header_field-At_value :
      (t text : Bytes) (c : Connection)
      → At value t 2 c
      → length t + 1 + length text + 1025 < u64
      → At field ((t ++ 0 ∷ []) ++ text) 2 (header_field junk text c)
  unfolding header_field
  header_field-At_value t text c a bound =
      subst (λ s. At field ((t ++ 0 ∷ []) ++ text) 2 (append_headers junk text (enter_field s c)))
        (sym a.state)
        (append_headers-At field (t ++ 0 ∷ []) text 1 (enter_field value c)
          (record {
            state = refl;
            tail = drop 1 a.tail;
            holds = push_nul-Holds c.headers t a.tail a.holds (omega (arith, a.room));
            room = omega (arith, a.room, length-drop 1 a.tail);
          })
          (omega (arith, length-append t (0 ∷ []))))
