-- ===== src/Connection/Callbacks/Roundtrip.antt =====
-- The headers of a response, from the pieces that the parser hands to header_field and
-- header_value of src/wrk.c to the table that script_response of src/script.c builds.
use wrk_offloadenginesupport.Prelude.{
  ℕ, ◌+◌, ◌≤◌, ◌<◌, ◌≡◌, refl, ap, ◌∙◌, subst, List, [], ◌∷◌, ◌++◌, append_assoc, u64, Bytes,
  length, arith, length-append, map,
}
use wrk_offloadenginesupport.Buffers.Text.{NoNul}
use wrk_offloadenginesupport.Connection.{Connection, field, value}
use wrk_offloadenginesupport.Connection.Callbacks.{header_field, header_value}
use wrk_offloadenginesupport.Connection.Callbacks.Headers.{
  At, header_field-At, header_value-At, header_value-At_field, header_field-At_value,
}

-- A header as the parser delivers it: the name and the content, each in one piece or more.
pub record Header : Type 0 where
  pub name : Bytes
  pub name_more : List Bytes
  pub content : Bytes
  pub content_more : List Bytes

abbrev pub join : Bytes → List Bytes → Bytes
join s [] = s
join s (x ∷ xs) = join (s ++ x) xs

abbrev pub Pair : Type 0
Pair = Bytes × Bytes

abbrev pub joined : Header → Pair
joined h = (join h.name h.name_more, join h.content h.content_more)

abbrev pub NoNuls : List Pair → Type 0
NoNuls [] = Unit {0}
NoNuls ((k, v) ∷ ps) = NoNul k × NoNul v × NoNuls ps

-- The strings one after another, each with its NUL.
abbrev pub encoded : List Pair → Bytes
encoded [] = []
encoded ((k, v) ∷ ps) = k ++ 0 ∷ (v ++ 0 ∷ encoded ps)

-- What a first pair and then the others leave in the buffer: the last NUL is still missing.
abbrev laid : Bytes → List Pair → Bytes
laid t [] = t
laid t ((k, v) ∷ ps) = laid (t ++ 0 ∷ [] ++ k ++ 0 ∷ [] ++ v) ps

join-append : (t s : Bytes) (xs : List Bytes) → join (t ++ s) xs ≡ t ++ join s xs
join-append t s [] = refl
join-append t s (x ∷ xs) = ap (λ u. join u xs) (append_assoc t s x) ∙ join-append t (s ++ x) xs

length-join : (s : Bytes) (xs : List Bytes) → length s ≤ length (join s xs)
length-join s [] = omega arith
length-join s (x ∷ xs) = omega (arith, length-join (s ++ x) xs, length-append s x)

length-laid : (t : Bytes) (ps : List Pair) → length t ≤ length (laid t ps)
length-laid t [] = omega arith
length-laid t ((k, v) ∷ ps) = omega (
  arith,
  length-laid (t ++ 0 ∷ [] ++ k ++ 0 ∷ [] ++ v) ps,
  length-append (t ++ 0 ∷ [] ++ k ++ 0 ∷ []) v,
  length-append (t ++ 0 ∷ [] ++ k) (0 ∷ []),
  length-append (t ++ 0 ∷ []) k,
  length-append t (0 ∷ []),
)

laid-encoded : (t : Bytes) (ps : List Pair) → laid t ps ++ 0 ∷ [] ≡ t ++ 0 ∷ encoded ps
laid-encoded t [] = refl
laid-encoded t ((k, v) ∷ ps) =
    laid-encoded (t ++ 0 ∷ [] ++ k ++ 0 ∷ [] ++ v) ps
    ∙ append_assoc (t ++ 0 ∷ [] ++ k ++ 0 ∷ []) v (0 ∷ encoded ps)
    ∙ append_assoc (t ++ 0 ∷ [] ++ k) (0 ∷ []) (v ++ 0 ∷ encoded ps)
    ∙ append_assoc (t ++ 0 ∷ []) k (0 ∷ (v ++ 0 ∷ encoded ps))
    ∙ append_assoc t (0 ∷ []) (k ++ 0 ∷ (v ++ 0 ∷ encoded ps))

module _ (junk : ℕ → ℕ) where
  pub more_field : List Bytes → Connection → Connection
  more_field [] c = c
  more_field (x ∷ xs) c = more_field xs (header_field junk x c)

  pub more_value : List Bytes → Connection → Connection
  more_value [] c = c
  more_value (x ∷ xs) c = more_value xs (header_value junk x c)

  -- The callbacks for one header, and for a list of them.
  pub deliver : Header → Connection → Connection
  unfolding more_field more_value
  deliver h c =
      more_value h.content_more
        (header_value junk h.content (more_field h.name_more (header_field junk h.name c)))

  pub deliver_all : List Header → Connection → Connection
  unfolding deliver
  deliver_all [] c = c
  deliver_all (h ∷ hs) c = deliver_all hs (deliver h c)

  more_field-At :
      (t : Bytes) (xs : List Bytes) (c : Connection)
      → At field t 2 c
      → length (join t xs) + 1025 < u64
      → At field (join t xs) 2 (more_field xs c)
  unfolding more_field
  more_field-At t [] c a bound = a
  more_field-At t (x ∷ xs) c a bound =
      more_field-At (t ++ x) xs (header_field junk x c)
        (header_field-At junk t x 2 c a (omega (arith, length-append t x, length-join (t ++ x) xs)))
        bound

  more_value-At :
      (t : Bytes) (xs : List Bytes) (c : Connection)
      → At value t 2 c
      → length (join t xs) + 1025 < u64
      → At value (join t xs) 2 (more_value xs c)
  unfolding more_value
  more_value-At t [] c a bound = a
  more_value-At t (x ∷ xs) c a bound =
      more_value-At (t ++ x) xs (header_value junk x c)
        (header_value-At junk t x 2 c a (omega (arith, length-append t x, length-join (t ++ x) xs)))
        bound

  -- From where the name's first piece stands in the buffer.
  deliver_rest-At :
      (t : Bytes) (h : Header) (c : Connection)
      → At field (t ++ h.name) 2 c
      → length (t ++ (joined h).0) + length (joined h).1 + 1026 < u64
      → At value
          ((t ++ (joined h).0) ++ 0 ∷ [] ++ (joined h).1)
          2
          (more_value h.content_more (header_value junk h.content (more_field h.name_more c)))
  deliver_rest-At t h c a bound =
      let (k, v) = joined h in
      let name-joined : join (t ++ h.name) h.name_more ≡ t ++ k =
        join-append t h.name h.name_more in
      let content-joined : join (t ++ k ++ 0 ∷ [] ++ h.content) h.content_more
          ≡ t ++ k ++ 0 ∷ [] ++ v =
        join-append (t ++ k ++ 0 ∷ []) h.content h.content_more in
      let c' : Connection = more_field h.name_more c in
      let named : At field (t ++ k) 2 c' =
        subst (λ u. At field u 2 c') name-joined
          (more_field-At (t ++ h.name) h.name_more c a (omega (arith, ap length name-joined))) in
      let begun : At value (t ++ k ++ 0 ∷ [] ++ h.content) 2 (header_value junk h.content c') =
        header_value-At_field junk (t ++ k) h.content c' named
          (omega (arith, length-join h.content h.content_more)) in
      subst (λ u. At value u 2 (more_value h.content_more (header_value junk h.content c')))
        content-joined
        (more_value-At (t ++ k ++ 0 ∷ [] ++ h.content) h.content_more
          (header_value junk h.content c') begun
          (omega (
            arith,
            ap length content-joined,
            length-append (t ++ k ++ 0 ∷ []) v,
            length-append (t ++ k) (0 ∷ []),
          )))

  deliver_all-At :
      (t : Bytes) (hs : List Header) (c : Connection)
      → At value t 2 c
      → length (laid t (map joined hs)) + 1026 < u64
      → At value (laid t (map joined hs)) 2 (deliver_all hs c)
  unfolding deliver_all
  deliver_all-At t [] c a bound = a
  deliver_all-At t (h ∷ hs) c a bound =
      let (k, v) = joined h in
      let t' : Bytes = t ++ 0 ∷ [] ++ k ++ 0 ∷ [] ++ v in
      let fits : length t + 1 + length k + 1 + length v + 1026 < u64 = omega (
        arith,
        length-laid t' (map joined hs),
        length-append (t ++ 0 ∷ [] ++ k ++ 0 ∷ []) v,
        length-append (t ++ 0 ∷ [] ++ k) (0 ∷ []),
        length-append (t ++ 0 ∷ []) k,
        length-append t (0 ∷ []),
      ) in
      let start : At field (t ++ 0 ∷ [] ++ h.name) 2 (header_field junk h.name c) =
        header_field-At_value junk t h.name c a (omega (arith, length-join h.name h.name_more)) in
      deliver_all-At t' hs (deliver h c)
        (deliver_rest-At (t ++ 0 ∷ []) h (header_field junk h.name c) start
          (omega (arith, length-append (t ++ 0 ∷ []) k, length-append t (0 ∷ []))))
        bound

  -- From an empty header buffer, the callbacks for a first header and any others leave the encoded
  -- list in it, but for the last NUL.
  pub deliver_all-first :
      (h : Header) (hs : List Header) (n : ℕ) (c : Connection)
      → At field [] n c
      → length (encoded (map joined (h ∷ hs))) + 1026 < u64
      → (t : Bytes) × At value t 2 (deliver_all (h ∷ hs) c)
        × (t ++ 0 ∷ [] ≡ encoded (map joined (h ∷ hs)))
  unfolding deliver_all
  deliver_all-first h hs n c a bound =
      let (k, v) = joined h in
      let ps : List Pair = map joined hs in
      let t : Bytes = laid (k ++ 0 ∷ [] ++ v) ps in
      let whole : t ++ 0 ∷ [] ≡ encoded (map joined (h ∷ hs)) =
        laid-encoded (k ++ 0 ∷ [] ++ v) ps
        ∙ append_assoc (k ++ 0 ∷ []) v (0 ∷ encoded ps)
        ∙ append_assoc k (0 ∷ []) (v ++ 0 ∷ encoded ps) in
      let size : length t + 1 + 1026 < u64 =
        omega (arith, ap length whole, length-append t (0 ∷ [])) in
      let fits : length k + 1 + length v + 1026 < u64 = omega (
        arith,
        length-laid (k ++ 0 ∷ [] ++ v) ps,
        length-append (k ++ 0 ∷ []) v,
        length-append k (0 ∷ []),
      ) in
      let start : At field h.name 2 (header_field junk h.name c) =
        header_field-At junk [] h.name n c a (omega (arith, length-join h.name h.name_more)) in
      (
        t,
        deliver_all-At (k ++ 0 ∷ [] ++ v) hs (deliver h c)
            (deliver_rest-At [] h (header_field junk h.name c) start (omega arith)) (omega arith),
        whole,
      )
