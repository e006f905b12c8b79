-- ===== src/Lua/Simple.antt =====
-- A small implementation of the interface, for runs: the heap is the list of the objects, a function
-- answers with one fixed text, and a file of a script leaves the one text that is its name. Numbers
-- are naturals, so a pattern of bits from 2^63 on is not the negative number that it is in Lua.
use wrk_offloadenginesupport.Prelude.{
  ℕ, Bool, true, false, Option, none, some, List, [], ◌∷◌, ◌++◌, Bytes, codes, length,
  if◌then◌else◌, ◌&&◌, ◌==◌, get_or, set,
}
use wrk_offloadenginesupport.Lua.{Payload, Value, nil, number, text, table, function, userdata, Lua}

abbrev pub V : Type 0
V = Value ℕ ℕ

pub data Object : Type 0 where
  fields : List (V × V) → Object
  payload : Payload → Object

abbrev Objects : Type 0
Objects = List Object

abbrev bytes_eq : Bytes → Bytes → Bool
bytes_eq [] [] = true
bytes_eq [] (y ∷ b) = false
bytes_eq (x ∷ a) [] = false
bytes_eq (x ∷ a) (y ∷ b) = (x == y) && bytes_eq a b

abbrev same : V → V → Bool
same (text a) (text b) = bytes_eq a b
same (number a) (number b) = a == b
same _ _ = false

abbrev lookup : V → List (V × V) → V
lookup k [] = nil
lookup k ((k', v) ∷ fs) = let rest = lookup k fs in if same k k' then v else rest

abbrev without : V → List (V × V) → List (V × V)
without k [] = []
without k ((k', v) ∷ fs) = let rest = without k fs in if same k k' then rest else (k', v) ∷ rest

abbrev stored_at : Objects → ℕ → V → V → Object → Option Objects
stored_at h r k v (fields fs) = some (set h r (fields ((k, v) ∷ without k fs)))
stored_at h r k v (payload p) = none

abbrev put : Objects → V → V → V → Option Objects
put h (table r) k v = stored_at h r k v (get_or h r (fields []))
put h _ k v = none

abbrev got : Objects → V → V → Option (V × Objects)
got h (table r) k = elim (get_or h r (fields [])) [
  | fields fs ↦ some (lookup k fs, h)
  | payload p ↦ none
]
got h _ k = none

abbrev first : List (V × V) → Option (V × V)
first [] = none
first (e ∷ es) = some e

abbrev after : V → List (V × V) → Option (V × V)
after k [] = none
after k ((k', v) ∷ es) = let rest = after k es in if same k k' then first es else rest

abbrev following : V → List (V × V) → Option (V × V)
following nil es = first es
following k es = after k es

abbrev next_of : Objects → V → V → Option (Option (V × V))
next_of h (table r) k = elim (get_or h r (fields [])) [
  | fields fs ↦ some (following k fs)
  | payload p ↦ none
]
next_of h _ k = none

abbrev count_of : Objects → V → ℕ
count_of h (table r) = elim (get_or h r (fields [])) [ fields fs ↦ length fs | payload p ↦ 0 ]
count_of h _ = 0

abbrev payload_of : Objects → V → Option Payload
payload_of h (userdata r) = elim (get_or h r (fields [])) [ fields fs ↦ none | payload p ↦ some p ]
payload_of h _ = none

abbrev text_of : V → Option Bytes
text_of (text s) = some s
text_of _ = none

abbrev number_of : V → Option ℕ
number_of (number n) = some n
number_of _ = none

abbrev or_zero : Option ℕ → ℕ
or_zero none = 0
or_zero (some n) = n

-- Object 0 holds the globals, 1 the metatables, 2 is `wrk`, 3 its headers, 4 its addresses.
abbrev begin : Objects
begin =
    fields ((text (codes "wrk"), table 2) ∷ (text (codes "done"), function 0) ∷ [])
    ∷ fields []
    ∷ fields (
        (text (codes "headers"), table 3)
        ∷ (text (codes "addrs"), table 4)
        ∷ (text (codes "setup"), function 0)
        ∷ (text (codes "init"), function 0)
        ∷ (text (codes "resolve"), function 0)
        ∷ (text (codes "request"), function 0)
        ∷ [])
    ∷ fields []
    ∷ fields ((number 1, text (codes "127.0.0.1")) ∷ [])
    ∷ []

abbrev pub simple : Lua
simple = record {
  Number = ℕ;
  Ref = ℕ;
  Heap = Objects;
  from_u64 = λ n. n;
  from_bits = λ n. n;
  to_u64 = λ n. n;
  to_number = λ v. or_zero (number_of v);
  check_number = number_of;
  to_text = text_of;
  globals = 0;
  registry = 1;
  get = got;
  set = put;
  raw_set = put;
  next = next_of;
  length_of = count_of;
  new_table = λ h. (length h, h ++ (fields [] ∷ []));
  new_userdata = λ p h. (length h, h ++ (payload p ∷ []));
  check_userdata = λ h v name. payload_of h v;
  set_metatable = λ h v t. some h;
  call = λ h f args. some (text (codes "GET /") ∷ [], h);
  run_source = λ h s. ([], h);
  run_path = λ h s. (text s ∷ [], h);
  start = begin;
}
