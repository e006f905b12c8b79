-- ===== src/Script/Addresses.antt =====
-- src/script.c: the addresses that scripts handle, script_wrk_lookup and script_wrk_connect. What a
-- C function returns to Lua is the number of its results, which are on top of the stack.
use wrk_offloadenginesupport.Prelude.{
  ℕ, ◌+◌, Bool, Option, none, some, List, [], ◌∷◌, ◌++◌, Bytes, codes,
}
use wrk_offloadenginesupport.Lua.{
  ◌>>=◌, Result, ok, or_raised, Lua, Machine, AddrInfo, Payload, address, top, boolean, at, push,
  push_text, get_metatable, raw_set_index, push_new_table, push_userdata, set_metatable_below,
}

-- The copy has its own memory for the address, with the same bytes.
unfoldable pub script_addr_copy : AddrInfo → AddrInfo
script_addr_copy src = record {
  family = src.family;
  socktype = src.socktype;
  protocol = src.protocol;
  addr = src.addr;
}

abbrev pub as_address : Payload → Option AddrInfo
as_address (address a) = some a
as_address _ = none

module _ (L : Lua) where
  -- luaL_checkudata on the value on top, which raises an error for any other value.
  unfoldable pub checkaddr : Machine L → Result AddrInfo
  checkaddr m = do
    v ← at L (top 1) m
    p ← or_raised (L.check_userdata m.heap v (codes "wrk.addr"))
    or_raised (as_address p)

  unfoldable pub script_addr_clone : AddrInfo → Machine L → Result (Machine L)
  unfolding script_addr_copy
  script_addr_clone a m = do
    m' ← get_metatable L (codes "wrk.addr") (push_userdata L (address (script_addr_copy a)) m)
    set_metatable_below L m'

  -- `name` is what getnameinfo answers for the address, `none` where it fails.
  unfoldable pub script_addr_tostring :
      (AddrInfo → Option (Bytes × Bytes)) → Machine L → Result (ℕ × Machine L)
  unfolding checkaddr
  script_addr_tostring name m = do
    a ← checkaddr m
    (host, service) ← or_raised (name a)
    ok (1, push_text L (host ++ codes ":" ++ service) m)

  -- The memory of the address is freed; nothing of the Lua state changes.
  unfoldable pub script_addr_gc : Machine L → Result (ℕ × Machine L)
  unfolding checkaddr
  script_addr_gc m = do a ← checkaddr m; ok (0, m)

  -- The loop over the addresses, from `index` on.
  unfoldable pub push_addresses : ℕ → List AddrInfo → Machine L → Result (Machine L)
  unfolding script_addr_clone
  push_addresses index [] m = ok m
  push_addresses index (a ∷ addrs) m = do
    m₁ ← script_addr_clone a m
    m₂ ← raw_set_index L (top 2) index m₁
    push_addresses (index + 1) addrs m₂

  -- `lookup` is getaddrinfo; where it fails, the program ends with a message.
  unfoldable pub script_wrk_lookup :
      (Option Bytes → Option Bytes → Option (List AddrInfo)) → Machine L → Result (ℕ × Machine L)
  unfolding push_addresses
  script_wrk_lookup lookup m = do
    v ← at L (top 2) m
    w ← at L (top 1) m
    addrs ← or_raised (lookup (L.to_text v) (L.to_text w))
    m' ← push_addresses 1 addrs (push_new_table L m)
    ok (1, m')

  -- `connects` tells whether a socket could be made and connected to the address.
  unfoldable pub script_wrk_connect : (AddrInfo → Bool) → Machine L → Result (ℕ × Machine L)
  unfolding checkaddr
  script_wrk_connect connects m = do a ← checkaddr m; ok (1, push L (boolean (connects a)) m)
