-- ===== src/Script/Fields.antt =====
-- src/script.c: the tables of functions, set_field, set_fields and push_url_part.
use wrk_offloadenginesupport.Prelude.{ℕ, Option, none, some, List, [], ◌∷◌, Bytes, codes}
use wrk_offloadenginesupport.Lua.{
  ◌>>=◌, Result, ok, Lua, Machine, CFunction, Index, top, nil, cfunction, push, push_text, number,
  set_field_at, addr_tostring, addr_gc, stats_call, stats_index, stats_len, thread_index,
  thread_newindex,
}
use wrk_offloadenginesupport.Url.{part_of}

-- `struct luaL_Reg`, up to the NULL.
abbrev pub Library : Type 0
Library = List (Bytes × CFunction)

abbrev pub addrlib : Library
addrlib = (codes "__tostring", addr_tostring) ∷ (codes "__gc", addr_gc) ∷ []

abbrev pub statslib : Library
statslib =
    (codes "__call", stats_call) ∷ (codes "__index", stats_index) ∷ (codes "__len", stats_len) ∷ []

abbrev pub threadlib : Library
threadlib = (codes "__index", thread_index) ∷ (codes "__newindex", thread_newindex) ∷ []

-- The type and the value of a `table_field`; a NULL is a nil, whatever the type.
pub data FieldValue : Type 0 where
  function_value : CFunction → FieldValue
  number_value : ℕ → FieldValue
  text_value : Bytes → FieldValue
  null_value : FieldValue

abbrev pub TableField : Type 0
TableField = Bytes × FieldValue

module _ (L : Lua) where
  -- luaL_register(L, NULL, lib): each function becomes a field of the table on top.
  unfoldable pub register_library : Library → Machine L → Result (Machine L)
  register_library [] m = ok m
  register_library ((name, f) ∷ lib) m = do
    m' ← set_field_at L (top 2) name (push L (cfunction f) m)
    register_library lib m'

  abbrev pub push_field : FieldValue → Machine L → Machine L
  push_field (function_value f) m = push L (cfunction f) m
  push_field (number_value n) m = push L (number (L.from_bits n)) m
  push_field (text_value s) m = push_text L s m
  push_field null_value m = push L nil m

  unfoldable pub set_field : Index → Bytes → Machine L → Result (Machine L)
  set_field i name m = set_field_at L i name m

  unfoldable pub set_fields : Index → List TableField → Machine L → Result (Machine L)
  set_fields i [] m = ok m
  set_fields i ((name, v) ∷ fs) m = do
    m' ← set_field_at L i name (push_field v m)
    set_fields i fs m'

  unfoldable pub push_url_part : Bytes → Option (ℕ × ℕ) → Machine L → Machine L
  push_url_part url none m = push L nil m
  push_url_part url (some p) m = push_text L (part_of url p) m
