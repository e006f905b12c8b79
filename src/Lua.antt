-- ===== src/Lua.antt =====
-- The Lua state behind src/script.c. Tables, globals, functions and numbers are an interface, which
-- the Lua library implements; the stack, through which the C code works on them, follows the
-- library's manual: what each call pops and pushes, and which index means which value.
pub mod Simple
use wrk_offloadenginesupport.Prelude.{
  ℕ, zero, suc, ◌-◌, Bool, true, false, Option, none, some, List, [], ◌∷◌, ◌++◌, Bytes, length,
  get_elem?, ltb, if◌then◌else◌,
}

-- `struct addrinfo`; `ai_addrlen` is the length of `addr`.
pub record AddrInfo : Type 0 where
  pub family : ℕ
  pub socktype : ℕ
  pub protocol : ℕ
  pub addr : Bytes

-- The two histograms of the program.
pub data Histogram : Type 0 where
  latency requests : Histogram

-- What the C code keeps in a userdata: an address, a pointer to a histogram, one to a thread.
pub data Payload : Type 0 where
  address : AddrInfo → Payload
  stats_pointer : Histogram → Payload
  thread_pointer : ℕ → Payload

-- The C functions that scripts can call.
pub data CFunction : Type 0 where
  wrk_lookup wrk_connect stats_percentile thread_get thread_set thread_stop : CFunction
  addr_tostring addr_gc stats_call stats_len stats_index thread_index thread_newindex : CFunction

-- A Lua value; `Ref` identifies a table, a Lua function or a userdata.
pub data Value (Number Ref : Type 0) : Type 0 where
  nil : Value Number Ref
  boolean : Bool → Value Number Ref
  number : Number → Value Number Ref
  text : Bytes → Value Number Ref
  table : Ref → Value Number Ref
  function : Ref → Value Number Ref
  cfunction : CFunction → Value Number Ref
  userdata : Ref → Value Number Ref

-- The library. A `none` is a Lua error.
pub record Lua : Type 1 where
  pub Number : Type 0
  pub Ref : Type 0
  pub Heap : Type 0
  -- a `uint64_t` or an `int` as a number, and the conversion to `uint64_t`
  pub from_u64 : ℕ → Number
  -- lua_pushinteger of these 64 bits, which it takes as a signed number
  pub from_bits : ℕ → Number
  pub to_u64 : Number → ℕ
  -- lua_tonumber and lua_tostring on any value
  pub to_number : Value Number Ref → Number
  -- luaL_checknumber
  pub check_number : Value Number Ref → Option Number
  pub to_text : Value Number Ref → Option Bytes
  pub globals : Ref
  -- the table of registered metatables
  pub registry : Ref
  -- with and without metamethods
  pub get : Heap → Value Number Ref → Value Number Ref → Option (Value Number Ref × Heap)
  pub set : Heap → Value Number Ref → Value Number Ref → Value Number Ref → Option Heap
  pub raw_set : Heap → Value Number Ref → Value Number Ref → Value Number Ref → Option Heap
  -- the entry after a key: a key and a value, or nothing
  pub next :
      Heap
      → Value Number Ref
      → Value Number Ref
      → Option (Option (Value Number Ref × Value Number Ref))
  pub length_of : Heap → Value Number Ref → ℕ
  pub new_table : Heap → Ref × Heap
  pub new_userdata : Payload → Heap → Ref × Heap
  -- the payload, where the metatable is the one registered under the name
  pub check_userdata : Heap → Value Number Ref → Bytes → Option Payload
  pub set_metatable : Heap → Value Number Ref → Value Number Ref → Option Heap
  -- a call: the results, all of them
  pub call :
      Heap → Value Number Ref → List (Value Number Ref) → Option (List (Value Number Ref) × Heap)
  -- a piece of source or a file as a chunk: all its results, or the message of the error
  pub run_source : Heap → Bytes → List (Value Number Ref) × Heap
  pub run_path : Heap → Bytes → List (Value Number Ref) × Heap
  -- luaL_openlibs, on a new state
  pub start : Heap

-- How a piece of the C code ends: with a result; by a Lua error, which nothing in the C code catches,
-- or an exit; by following a NULL; by a use of the stack that is not allowed; or without fuel.
pub data Result {ℓ} (A : Type ℓ) : Type ℓ where
  ok : A → Result A
  raised crashed broken unfinished : Result A

infixl 5 ◌>>=◌
abbrev pub ◌>>=◌ {ℓ κ} : {A : Type ℓ} {B : Type κ} → Result A → (A → Result B) → Result B
ok a >>= f = f a
raised >>= f = raised
crashed >>= f = crashed
broken >>= f = broken
unfinished >>= f = unfinished

abbrev pub or_raised {ℓ} : {A : Type ℓ} → Option A → Result A
or_raised none = raised
or_raised (some a) = ok a

abbrev pub or_crashed {ℓ} : {A : Type ℓ} → Option A → Result A
or_crashed none = crashed
or_crashed (some a) = ok a

abbrev pub or_broken {ℓ} : {A : Type ℓ} → Option A → Result A
or_broken none = broken
or_broken (some a) = ok a

-- Position -1 is `top 1`, position 1 is `base 1`.
pub data Index : Type 0 where
  top base : ℕ → Index

module _ (L : Lua) where
  open L use {Number, Ref, Heap, from_u64, globals, registry}

  abbrev pub Val : Type 0
  Val = Value Number Ref

  -- The stack of the running C function, its top first.
  pub record Machine : Type 0 where
    pub stack : List Val
    pub heap : Heap

  abbrev pub nth : List Val → ℕ → Option Val
  nth [] k = none
  nth (v ∷ st) zero = some v
  nth (v ∷ st) (suc k) = nth st k

  abbrev pub at : Index → Machine → Result Val
  at (top zero) m = broken
  at (top (suc k)) m = or_broken (nth m.stack k)
  at (base zero) m = broken
  at (base (suc k)) m =
      if ltb k (length m.stack) then or_broken (nth m.stack (length m.stack - suc k)) else broken

  abbrev pub drop_stack : ℕ → List Val → Result (List Val)
  drop_stack zero st = ok st
  drop_stack (suc n) [] = broken
  drop_stack (suc n) (v ∷ st) = drop_stack n st

  -- `broken` where the stack has fewer values: the library does not look, and the state is broken.
  abbrev pub pop : ℕ → Machine → Result Machine
  pop n m = drop_stack n m.stack >>= λ st. ok (record m { stack = st })

  abbrev pub push : Val → Machine → Machine
  push v m = record m { stack = v ∷ m.stack }

  abbrev pub push_text : Bytes → Machine → Machine
  push_text s m = push (text s) m

  abbrev pub push_u64 : ℕ → Machine → Machine
  push_u64 n m = push (number (from_u64 n)) m

  abbrev pub push_value : Index → Machine → Result Machine
  push_value i m = at i m >>= λ v. ok (push v m)

  abbrev pub fetched : Machine → Option (Val × Heap) → Result Machine
  fetched m none = raised
  fetched m (some (v, h)) = ok (record { stack = v ∷ m.stack; heap = h })

  abbrev pub get_field : Index → Bytes → Machine → Result Machine
  get_field i k m = at i m >>= λ t. fetched m (L.get m.heap t (text k))

  abbrev pub get_global : Bytes → Machine → Result Machine
  get_global k m = fetched m (L.get m.heap (table globals) (text k))

  abbrev pub get_metatable : Bytes → Machine → Result Machine
  get_metatable k m = fetched m (L.get m.heap (table registry) (text k))

  abbrev pub stored : List Val → Option Heap → Result Machine
  stored st none = raised
  stored st (some h) = ok (record { stack = st; heap = h })

  -- lua_setfield pops the value; the index counts it.
  abbrev pub set_top : Val → Bytes → Machine → Result Machine
  set_top t k m = elim m.stack [ [] ↦ broken | v ∷ st ↦ stored st (L.set m.heap t (text k) v) ]

  abbrev pub set_field_at : Index → Bytes → Machine → Result Machine
  set_field_at i k m = at i m >>= λ t. set_top t k m

  abbrev pub set_global : Bytes → Machine → Result Machine
  set_global k m = set_top (table globals) k m

  -- lua_settable, lua_rawset and lua_rawseti pop a value, and the first two the key below it.
  abbrev pub set_pair : (Heap → Val → Val → Val → Option Heap) → Val → Machine → Result Machine
  set_pair f t m = elim m.stack [
    | [] ↦ broken
    | v ∷ [] ↦ broken
    | v ∷ k ∷ st ↦ stored st (f m.heap t k v)
  ]

  abbrev pub set_table : Index → Machine → Result Machine
  set_table i m = at i m >>= λ t. set_pair L.set t m

  abbrev pub raw_set : Index → Machine → Result Machine
  raw_set i m = at i m >>= λ t. set_pair L.raw_set t m

  abbrev pub raw_set_index : Index → ℕ → Machine → Result Machine
  raw_set_index i n m = at i m >>= λ t. elim m.stack [
    | [] ↦ broken
    | v ∷ st ↦ stored st (L.raw_set m.heap t (number (from_u64 n)) v)
  ]

  abbrev pub push_new_table : Machine → Machine
  push_new_table m =
      let (r, h) = L.new_table m.heap in record { stack = table r ∷ m.stack; heap = h }

  abbrev pub push_userdata : Payload → Machine → Machine
  push_userdata p m =
      let (r, h) = L.new_userdata p m.heap in record { stack = userdata r ∷ m.stack; heap = h }

  -- lua_setmetatable(L, -2): the table on top becomes the metatable of the value below it.
  abbrev pub set_metatable_below : Machine → Result Machine
  set_metatable_below m = elim m.stack [
    | [] ↦ broken
    | t ∷ [] ↦ broken
    | t ∷ v ∷ st ↦ stored (v ∷ st) (L.set_metatable m.heap v t)
  ]

  -- The first `n` results, with `nil` for those that are missing; the last one ends on top.
  abbrev pub or_nil : Option Val → Val
  or_nil none = nil
  or_nil (some v) = v

  abbrev pub results : ℕ → List Val → List Val → List Val
  results zero vs st = st
  results (suc n) vs st = or_nil (nth vs n) ∷ results n vs st

  -- The top `n` values, the lowest first, and what is below them.
  abbrev pub arguments : ℕ → List Val → List Val → Result (List Val × List Val)
  arguments zero args st = ok (args, st)
  arguments (suc n) args [] = broken
  arguments (suc n) args (v ∷ st) = arguments n (v ∷ args) st

  abbrev pub returned : ℕ → List Val → Option (List Val × Heap) → Result Machine
  returned n st none = raised
  returned n st (some (vs, h)) = ok (record { stack = results n vs st; heap = h })

  abbrev pub call_under : ℕ → Heap → List Val × List Val → Result Machine
  call_under n h (args, []) = broken
  call_under n h (args, f ∷ st) = returned n st (L.call h f args)

  -- lua_call(L, arguments, results)
  abbrev pub call : ℕ → ℕ → Machine → Result Machine
  call nargs nresults m = arguments nargs [] m.stack >>= call_under nresults m.heap

  abbrev pub is_function : Val → Bool
  is_function (function r) = true
  is_function (cfunction f) = true
  is_function _ = false
