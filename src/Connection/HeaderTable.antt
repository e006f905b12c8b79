-- ===== src/Connection/HeaderTable.antt =====
-- The Lua table of headers that script_response of src/script.c builds: lua_newtable and lua_rawset
-- with strings as keys and values, after the manual of the library.
use wrk_offloadenginesupport.Prelude.{
  ◌≡◌, ◌≢◌, refl, sym, ap, ap₂, ◌∙◌, Bool, true, false, none, some, List, [], ◌∷◌, ◌++◌, Bytes,
  if◌then◌else◌, ◌&&◌, ◌==◌, eq_self, arith, Bool-cases, inl, inr,
}
use wrk_offloadenginesupport.Connection.{HeaderTable}

-- Lua's equality of strings.
unfoldable pub same_string : Bytes → Bytes → Bool
same_string [] [] = true
same_string [] (y ∷ b) = false
same_string (x ∷ a) [] = false
same_string (x ∷ a) (y ∷ b) = (x == y) && same_string a b

unfoldable pub new_header_table : HeaderTable
new_header_table name = none

-- A second value for a name takes the place of the first.
unfoldable pub raw_set_string : Bytes → Bytes → HeaderTable → HeaderTable
unfolding same_string
raw_set_string name content t key = if same_string key name then some content else t key

-- The table after these headers have been set in it, in order.
abbrev pub set_all : List (Bytes × Bytes) → HeaderTable → HeaderTable
set_all [] t = t
set_all ((name, content) ∷ ps) t = set_all ps (raw_set_string name content t)

-- No header has this name.
abbrev pub Absent : Bytes → List (Bytes × Bytes) → Type 0
Absent key [] = Unit {0}
Absent key ((name, content) ∷ ps) = (name ≢ key) × Absent key ps

-- A table that has, for each name, the content of the last header with that name, and nothing else.
pub record TableOf (ps : List (Bytes × Bytes)) (t : HeaderTable) : Type 0 where
  pub last :
      (before after : List (Bytes × Bytes)) (name content : Bytes)
      → ps ≡ before ++ (name, content) ∷ after
      → Absent name after
      → t name ≡ some content
  pub nothing_else : (name : Bytes) → Absent name ps → t name ≡ none

same_string_refl : (a : Bytes) → same_string a a ≡ true
unfolding same_string
same_string_refl [] = refl
same_string_refl (x ∷ a) = rw (eq_self x, same_string_refl a) refl

same_string-eq : (a b : Bytes) → same_string a b ≡ true → a ≡ b
unfolding same_string
same_string-eq [] [] e = refl
same_string-eq [] (y ∷ b) e = cc
same_string-eq (x ∷ a) [] e = cc
same_string-eq (x ∷ a) (y ∷ b) e =
    let both : (x ≡ y) × (same_string a b ≡ true) = ground arith in
    ap₂ (λ c cs. c ∷ cs) both.0 (same_string-eq a b both.1)

set_other :
    (name content key : Bytes) (t : HeaderTable)
    → name ≢ key
    → raw_set_string name content t key ≡ t key
unfolding raw_set_string
set_other name content key t ne = elim (Bool-cases (same_string key name)) [
  | inl e ↦ absurd (ne (sym (same_string-eq key name e)))
  | inr e ↦ rw e refl
]

set_same :
    (name content : Bytes) (t : HeaderTable) → raw_set_string name content t name ≡ some content
unfolding raw_set_string
set_same name content t = rw (same_string_refl name) refl

set_all-Absent :
    (ps : List (Bytes × Bytes)) (key : Bytes) (t : HeaderTable)
    → Absent key ps
    → set_all ps t key ≡ t key
set_all-Absent [] key t absent = refl
set_all-Absent ((name, content) ∷ ps) key t (ne, absent) =
    set_all-Absent ps key (raw_set_string name content t) absent ∙ set_other name content key t ne

set_all-append :
    (ps qs : List (Bytes × Bytes)) (t : HeaderTable)
    → set_all (ps ++ qs) t ≡ set_all qs (set_all ps t)
set_all-append [] qs t = refl
set_all-append ((name, content) ∷ ps) qs t = set_all-append ps qs (raw_set_string name content t)

pub set_all-TableOf : (ps : List (Bytes × Bytes)) → TableOf ps (set_all ps new_header_table)
unfolding new_header_table
set_all-TableOf ps = record {
  last = λ before after name content split absent.
      ap (λ qs. set_all qs new_header_table name) split
      ∙ ap (λ (u : HeaderTable). u name)
          (set_all-append before ((name, content) ∷ after) new_header_table)
      ∙ set_all-Absent after name _ absent
      ∙ set_same name content (set_all before new_header_table);
  nothing_else = λ name absent. set_all-Absent ps name new_header_table absent;
}
