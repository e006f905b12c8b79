-- ===== src/Script/Setup.antt =====
-- src/script.c: script_create, script_resolve, script_push_thread and script_init.
use wrk_offloadenginesupport.Prelude.{
  ℕ, ◌+◌, Bool, Option, none, some, List, [], ◌∷◌, Bytes, codes, if◌then◌else◌, ltb, ◌==◌, drop,
}
use wrk_offloadenginesupport.Lua.{
  ◌>>=◌, Result, ok, broken, or_raised, Lua, Machine, Val, top, base, table, text, wrk_lookup,
  wrk_connect, thread_pointer, at, pop, push, push_text, get_field, get_global, get_metatable,
  set_field_at, set_table, raw_set_index, push_new_table, push_userdata, set_metatable_below, call,
}
use wrk_offloadenginesupport.Url.{UrlParts}
use wrk_offloadenginesupport.Script.Fields.{
  Library, addrlib, statslib, threadlib, TableField, function_value, text_value, register_library,
  set_field, set_fields, push_url_part,
}

abbrev map_first : (Bytes → Bytes) → Option (Bytes × Bytes) → Option (Bytes × Bytes)
map_first f none = none
map_first f (some (a, b)) = some (f a, b)

-- `strchr(*h, ':')`: what is before the colon, and what is after it.
unfoldable pub split_colon : Bytes → Option (Bytes × Bytes)
split_colon [] = none
split_colon (c ∷ s) =
    let rest = map_first (◌∷◌ c) (split_colon s) in if c == b':' then some ([], s) else rest

abbrev pub after_space : Bytes × Bytes → Option (Bytes × Bytes)
after_space (name, []) = none
after_space (name, c ∷ content) = if c == b' ' then some (name, content) else none

-- The name and the value of an argument "Name: value"; any other is skipped.
unfoldable pub header_of : Bytes → Option (Bytes × Bytes)
unfolding split_colon
header_of h = elim (split_colon h) [ none ↦ none | some p ↦ after_space p ]

-- `path`, "/" where the URL has none; it reaches to the end of the URL.
unfoldable pub path_of : Bytes → Option (ℕ × ℕ) → Bytes
path_of url none = codes "/"
path_of url (some (off, len)) = drop off url

module _ (L : Lua) where
  -- luaL_newmetatable, of a name that is new.
  unfoldable pub new_metatable : Bytes → Machine L → Result (Machine L)
  new_metatable name m = do
    let (r, h) = L.new_table m.heap
    h' ← or_raised (L.set h (table L.registry) (text name) (table r))
    ok (record { stack = table r ∷ m.stack; heap = h' })

  abbrev pub push_all : List (Val L) → Machine L → Machine L
  push_all [] m = m
  push_all (v ∷ vs) m = push_all vs (push L v m)

  -- luaL_dostring and luaL_dofile leave all results of the chunk, or the message of its error.
  abbrev pub ran : Machine L → List (Val L) × L.Heap → Machine L
  ran m (vs, h) = push_all vs (record m { heap = h })

  unfoldable pub run_file : Option Bytes → Machine L → Machine L
  run_file none m = m
  run_file (some file) m = ran m (L.run_path m.heap file)

  abbrev pub set_header : Option (Bytes × Bytes) → Machine L → Result (Machine L)
  set_header none m = ok m
  set_header (some (name, content)) m =
      set_table L (base 5) (push_text L content (push_text L name m))

  unfoldable pub set_headers : List Bytes → Machine L → Result (Machine L)
  unfolding header_of
  set_headers [] m = ok m
  set_headers (h ∷ hs) m = do m' ← set_header (header_of h) m; set_headers hs m'

  abbrev pub wrk_fields : Bytes → List TableField
  wrk_fields path =
      (codes "lookup", function_value wrk_lookup)
      ∷ (codes "connect", function_value wrk_connect)
      ∷ (codes "path", text_value path)
      ∷ []

  unfoldable pub add_metatable : Bytes × Library → Machine L → Result (Machine L)
  unfolding new_metatable register_library
  add_metatable (name, lib) m = do m' ← new_metatable name m; register_library L lib m'

  -- From `lua_getglobal(L, "wrk")` to `lua_getfield(L, 4, "headers")`.
  unfoldable pub fill_fields : Bytes → UrlParts → Machine L → Result (Machine L)
  unfolding path_of set_field set_fields push_url_part
  fill_fields url parts m = do
    m₁ ← get_global L (codes "wrk") m
    m₂ ← set_field L (base 4) (codes "scheme") (push_url_part L url parts.schema m₁)
    m₃ ← set_field L (base 4) (codes "host") (push_url_part L url parts.host m₂)
    m₄ ← set_field L (base 4) (codes "port") (push_url_part L url parts.port m₃)
    m₅ ← set_fields L (base 4) (wrk_fields (path_of url parts.path)) m₄
    get_field L (base 4) (codes "headers") m₅

  -- And up to `lua_pop(L, 5)`.
  unfoldable pub fill_wrk : Bytes → UrlParts → List Bytes → Machine L → Result (Machine L)
  unfolding fill_fields set_headers
  fill_wrk url parts headers m = do
    m₁ ← fill_fields url parts m
    m₂ ← set_headers headers m₁
    pop L 5 m₂

  unfoldable pub script_create : Option Bytes → Bytes → UrlParts → List Bytes → Result (Machine L)
  unfolding add_metatable fill_wrk run_file
  script_create file url parts headers = do
    let m₀ : Machine L = record { stack = []; heap = L.start }
    let m₀' = ran m₀ (L.run_source L.start (codes "wrk = require \"wrk\""))
    m₁ ← add_metatable (codes "wrk.addr", addrlib) m₀'
    m₂ ← add_metatable (codes "wrk.stats", statslib) m₁
    m₃ ← add_metatable (codes "wrk.thread", threadlib) m₂
    m₄ ← fill_wrk url parts headers m₃
    ok (run_file file m₄)

  unfoldable pub script_resolve : Bytes → Bytes → Machine L → Result (Bool × Machine L)
  script_resolve host service m = do
    m₁ ← get_global L (codes "wrk") m
    m₂ ← get_field L (top 1) (codes "resolve") m₁
    m₃ ← call L 2 0 (push_text L service (push_text L host m₂))
    m₄ ← get_field L (top 1) (codes "addrs") m₃
    v ← at L (top 1) m₄
    m₅ ← pop L 2 m₄
    ok (ltb 0 (L.length_of m₄.heap v), m₅)

  unfoldable pub script_push_thread : ℕ → Machine L → Result (Machine L)
  script_push_thread t m = do
    m' ← get_metatable L (codes "wrk.thread") (push_userdata L (thread_pointer t) m)
    set_metatable_below L m'

  -- The loop over `argv`, from index `i` on.
  unfoldable pub push_arguments : ℕ → List Bytes → Machine L → Result (Machine L)
  push_arguments i [] m = ok m
  push_arguments i (a ∷ argv) m = do
    m' ← raw_set_index L (top 2) i (push_text L a m)
    push_arguments (i + 1) argv m'

  -- The thread's state gets `wrk.thread`, and `wrk` stays on its stack.
  unfoldable pub set_thread : ℕ → Machine L → Result (Machine L)
  unfolding script_push_thread
  set_thread t n = do
    n₁ ← get_global L (codes "wrk") n
    n₂ ← script_push_thread t n₁
    set_field_at L (top 2) (codes "thread") n₂

  -- What a call of wrk.setup does, given the heap of main's state, the function, its argument and the
  -- state of that thread, on which the script can call thread:get and thread:set. The result is the
  -- heap of main's state and the thread's state after it. The states of threads that are running
  -- already are left out.
  abbrev pub SetupCall : Type 0
  SetupCall = L.Heap → Val L → Val L → Machine L → Result (L.Heap × Machine L)

  -- `lua_call(L, 1, 0)`: the function and its argument are popped.
  unfoldable pub call_setup : SetupCall → Machine L → Machine L → Result (Machine L × Machine L)
  call_setup setup m n = elim m.stack [
    | [] ↦ broken
    | v ∷ [] ↦ broken
    | v ∷ f ∷ st ↦ setup m.heap f v n >>= λ (h, n'). ok (record { stack = st; heap = h }, n')
  ]

  -- `wrk.setup(thread)`, in the state `m` of main; `n` is the state of the thread.
  unfoldable pub run_setup : SetupCall → ℕ → Machine L → Machine L → Result (Machine L × Machine L)
  unfolding script_push_thread call_setup
  run_setup setup t m n = do
    m₁ ← get_global L (codes "wrk") m
    m₂ ← get_field L (top 1) (codes "setup") m₁
    m₃ ← script_push_thread t m₂
    (m₄, n') ← call_setup setup m₃ n
    m₅ ← pop L 1 m₄
    ok (m₅, n')

  -- `wrk.init(args)`, in the state of the thread.
  unfoldable pub run_init : List Bytes → Machine L → Result (Machine L)
  unfolding push_arguments
  run_init argv n = do
    n₁ ← get_field L (top 1) (codes "init") n
    n₂ ← push_arguments 0 argv (push_new_table L n₁)
    n₃ ← call L 1 0 n₂
    pop L 1 n₃

  -- `L` is the state of main, `t->L` that of thread `t`; the result is both, in this order.
  unfoldable pub script_init :
      SetupCall → ℕ → List Bytes → Machine L → Machine L → Result (Machine L × Machine L)
  unfolding set_thread run_setup run_init
  script_init setup t argv m n = do
    n₁ ← set_thread t n
    (m₁, n₂) ← run_setup setup t m n₁
    n₃ ← run_init argv n₂
    ok (m₁, n₃)
