-- ===== src/Script/Threads.antt =====
-- src/script.c: script_copy_value, and the thread objects that scripts see.
pub mod Copying
mod Tests
use wrk_offloadenginesupport.Prelude.{
  ℕ, zero, suc, Bool, true, false, Option, none, some, List, [], ◌∷◌, Bytes, codes, if◌then◌else◌,
  ◌==◌,
}
use wrk_offloadenginesupport.Lua.{
  ◌>>=◌, Result, ok, raised, broken, unfinished, or_raised, or_broken, or_crashed, Lua, Machine,
  Val, AddrInfo, Payload, thread_pointer, top, base, nil, boolean, number, text, table, function,
  cfunction, userdata, thread_get, thread_set, thread_stop, at, pop, push, push_new_table,
  get_global, set_global, set_table,
}
use wrk_offloadenginesupport.Script.Addresses.{checkaddr, script_addr_clone, script_addr_copy}
use wrk_offloadenginesupport.Script.Histograms.{text_eq}

-- What lua_pushstring takes of a string: it ends at the first NUL.
unfoldable pub c_string : Bytes → Bytes
c_string [] = []
c_string (c ∷ s) = let rest = c_string s in if c == 0 then [] else c ∷ rest

module _ (L : Lua) where
  abbrev pub Pair : Type 0
  Pair = Machine L × Machine L

  -- lua_next for the table at position `-k`: the key on top goes, the next entry comes.
  unfoldable pub next_entry : ℕ → Machine L → Result (Option (Machine L) × Machine L)
  next_entry k m = at L (top k) m >>= λ t. elim m.stack [
    | [] ↦ broken
    | key ∷ st ↦ or_raised (L.next m.heap t key) >>= λ e. elim e [
      | none ↦ ok (none, record m { stack = st })
      | some (key', v) ↦ ok (some (record m { stack = v ∷ key' ∷ st }), m)
    ]
  ]

  -- `script_copy_value(src, dst, -k)`; one fuel for each value and each entry.
  unfoldable mutual
    unfolding c_string next_entry

    pub script_copy_value : ℕ → ℕ → Pair → Result Pair
    script_copy_value zero k p = unfinished
    script_copy_value (suc fuel) k (src, dst) = at L (top k) src >>= λ v. elim v [
      | boolean b ↦ ok (src, push L (boolean b) dst)
      | nil ↦ ok (src, push L nil dst)
      | number n ↦ ok (src, push L (number n) dst)
      | text s ↦ ok (src, push L (text (c_string s)) dst)
      | table r ↦
          copy_entries fuel (suc k) (push L nil src, push_new_table L dst) >>= λ (src', dst').
          pop L 1 src' >>= λ src''. ok (src'', dst')
      | function r ↦ raised
      | cfunction f ↦ raised
      | userdata r ↦ raised
    ]

    -- `while (lua_next(src, -k))`
    pub copy_entries : ℕ → ℕ → Pair → Result Pair
    copy_entries zero k p = unfinished
    copy_entries (suc fuel) k (src, dst) = next_entry k src >>= λ (found, after). elim found [
      | none ↦ ok (after, dst)
      | some src₁ ↦ script_copy_value fuel 2 (src₁, dst) >>= λ p₂.
          script_copy_value fuel 1 p₂ >>= λ (src₃, dst₃). set_table L (top 3) dst₃ >>= λ dst₄.
          pop L 1 src₃ >>= λ src₅. copy_entries fuel k (src₅, dst₄)
    ]

  abbrev pub as_thread : Payload → Option ℕ
  as_thread (thread_pointer t) = some t
  as_thread _ = none

  unfoldable pub checkthread : Machine L → Result ℕ
  checkthread m = do
    v ← at L (base 1) m
    p ← or_raised (L.check_userdata m.heap v (codes "wrk.thread"))
    or_raised (as_thread p)

  -- `m` is the state that runs the function, `n` the state `t->L` of the thread; the result is the
  -- number of results and both.
  unfoldable pub script_thread_get : ℕ → Machine L → Machine L → Result (ℕ × Pair)
  unfolding checkthread script_copy_value
  script_thread_get fuel m n = do
    t ← checkthread m
    v ← at L (top 1) m
    key ← or_crashed (L.to_text v)
    n₁ ← get_global L key n
    (n₂, m₂) ← script_copy_value fuel 1 (n₁, m)
    n₃ ← pop L 1 n₂
    ok (1, (m₂, n₃))

  unfoldable pub script_thread_set : ℕ → Machine L → Machine L → Result (ℕ × Pair)
  unfolding checkthread script_copy_value
  script_thread_set fuel m n = do
    t ← checkthread m
    v ← at L (top 2) m
    name ← or_crashed (L.to_text v)
    (m₁, n₁) ← script_copy_value fuel 1 (m, n)
    n₂ ← set_global L name n₁
    ok (0, (m₁, n₂))

  -- The loop of the thread stops; the thread is the second result.
  unfoldable pub script_thread_stop : Machine L → Result (ℕ × ℕ)
  unfolding checkthread
  script_thread_stop m = do t ← checkthread m; ok (0, t)

  abbrev pub when_some : Bool → (Machine L → Result (Machine L)) → Machine L → Result (Machine L)
  when_some true f m = f m
  when_some false f m = ok m

  -- `addr` is `t->addr`.
  unfoldable pub script_thread_index : AddrInfo → Machine L → Result (ℕ × Machine L)
  unfolding checkthread script_addr_clone text_eq
  script_thread_index addr m = do
    t ← checkthread m
    v ← at L (base 2) m
    key ← or_crashed (L.to_text v)
    let m₁ = if text_eq (codes "get") key then push L (cfunction thread_get) m else m
    let m₂ = if text_eq (codes "set") key then push L (cfunction thread_set) m₁ else m₁
    let m₃ = if text_eq (codes "stop") key then push L (cfunction thread_stop) m₂ else m₂
    m₄ ← when_some (text_eq (codes "addr") key) (script_addr_clone L addr) m₃
    ok (1, m₄)

  -- The new `t->addr`; any other key is an error.
  unfoldable pub script_thread_newindex : Machine L → Result (ℕ × AddrInfo)
  unfolding checkthread checkaddr script_addr_copy text_eq
  script_thread_newindex m = do
    t ← checkthread m
    v ← at L (top 2) m
    key ← or_crashed (L.to_text v)
    a ← (if text_eq (codes "addr") key then checkaddr L m else raised)
    ok (0, script_addr_copy a)
