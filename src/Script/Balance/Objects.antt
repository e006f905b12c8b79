-- ===== src/Script/Balance/Objects.antt =====
-- src/script.c: what the functions that scripts call on objects leave on the stack.
use wrk_offloadenginesupport.Prelude.{
  ℕ, ◌+◌, ◌≡◌, refl, Bool, Option, none, some, List, [], ◌∷◌, Bytes, arith,
}
use wrk_offloadenginesupport.Floating.{LongDouble}
use wrk_offloadenginesupport.Stats.{Stats}
use wrk_offloadenginesupport.Lua.{
  ◌>>=◌, ok, AddrInfo, Lua, Machine, Histogram, Val, drop_stack, table, number, or_raised,
  push_new_table,
}
use wrk_offloadenginesupport.Script.Addresses.{
  checkaddr, script_addr_clone, script_addr_tostring, script_addr_gc, push_addresses,
  script_wrk_lookup, script_wrk_connect,
}
use wrk_offloadenginesupport.Script.Histograms.{
  checkstats, script_stats_call, script_stats_len, script_stats_percentile,
}
use wrk_offloadenginesupport.Script.Balance.{
  Ends, Has, HasUnder, stored-Ends, then-Ends, under_one-Ends, made,
}

module _ (L : Lua) where
  -- The function has put as many results as it says on the stack that it was given.
  abbrev pub Gives : List (Val L) → ℕ × Machine L → Type 0
  Gives st (n, m) = drop_stack L n m.stack ≡ ok st

  clone-Ends :
      (a : AddrInfo) (m : Machine L) → Ends (HasUnder L 1 m.stack) (script_addr_clone L a m)
  unfolding script_addr_clone
  clone-Ends a m = ground arith

  push_addresses-Ends :
      (index : ℕ) (addrs : List AddrInfo) (t : Val L) (st : List (Val L)) (h : L.Heap)
      → Ends (Has L (t ∷ st)) (push_addresses L index addrs (made L (t ∷ st) h))
  unfolding push_addresses
  push_addresses-Ends index [] t st h = refl
  push_addresses-Ends index (a ∷ addrs) t st h =
      under_one-Ends L (Has L (t ∷ st)) (t ∷ st) (script_addr_clone L a (made L (t ∷ st) h)) _
        (clone-Ends a (made L (t ∷ st) h))
        (λ v h₁.
          stored-Ends L (Has L (t ∷ st)) (t ∷ st) (L.raw_set h₁ t (number (L.from_u64 index)) v)
            (push_addresses L (index + 1) addrs) (push_addresses-Ends (index + 1) addrs t st))

  lookup-Ends :
      (lookup : Option Bytes → Option Bytes → Option (List AddrInfo)) (v w : Val L)
      (st : List (Val L)) (h : L.Heap)
      → Ends (Gives (v ∷ w ∷ st)) (script_wrk_lookup L lookup (made L (v ∷ w ∷ st) h))
  unfolding script_wrk_lookup
  lookup-Ends lookup v w st h = looked_up (lookup (L.to_text w) (L.to_text v))
    where
      t : Val L
      t = table (L.new_table h).0

      looked_up :
          (o : Option (List AddrInfo))
          → Ends (Gives (v ∷ w ∷ st)) (
              or_raised o >>= λ addrs.
              push_addresses L 1 addrs (push_new_table L (made L (v ∷ w ∷ st) h)) >>= λ m'.
              ok (1, m'))
      looked_up none = tt
      looked_up (some addrs) =
          then-Ends L (Gives (v ∷ w ∷ st)) (t ∷ v ∷ w ∷ st)
            (push_addresses L 1 addrs (made L (t ∷ v ∷ w ∷ st) (L.new_table h).1)) _
            (push_addresses-Ends 1 addrs t (v ∷ w ∷ st) (L.new_table h).1) (λ h₁. refl)

  address-Ends :
      (name : AddrInfo → Option (Bytes × Bytes)) (connects : AddrInfo → Bool) (v : Val L)
      (st : List (Val L)) (h : L.Heap)
      → let m = made L (v ∷ st) h in
        Ends (Gives (v ∷ st)) (script_addr_tostring L name m)
        × Ends (Gives (v ∷ st)) (script_addr_gc L m)
        × Ends (Gives (v ∷ st)) (script_wrk_connect L connects m)
  unfolding script_addr_tostring script_addr_gc script_wrk_connect checkaddr
  address-Ends name connects v st h = (ground arith, ground arith, ground arith)

  module _ (F : LongDouble) (widen : L.Number → F.Number) (narrow : F.Number → L.Number)
      (stats_of : Histogram → Stats) where
    histogram-Ends :
        (v w : Val L) (h : L.Heap)
        → Ends
            (Gives (w ∷ v ∷ []))
            (script_stats_percentile L F widen narrow stats_of (made L (w ∷ v ∷ []) h))
          × Ends
              (Gives (w ∷ v ∷ []))
              (script_stats_call L F widen narrow stats_of (made L (w ∷ v ∷ []) h))
          × Ends (Gives (v ∷ [])) (script_stats_len L F widen narrow stats_of (made L (v ∷ []) h))
    unfolding script_stats_percentile script_stats_call script_stats_len checkstats
    histogram-Ends v w h = (ground arith, ground arith, ground arith)

    -- Given the arguments that they read, wrk.lookup, the functions on addresses, wrk.connect and the
    -- functions percentile, call and length of a histogram use the stack as the library allows, and
    -- where they return, they have put as many results on it as they say.
    pub objects-Ends :
        (lookup : Option Bytes → Option Bytes → Option (List AddrInfo))
        (name : AddrInfo → Option (Bytes × Bytes)) (connects : AddrInfo → Bool) (v w : Val L)
        (st : List (Val L)) (h : L.Heap)
        → Ends (Gives (v ∷ w ∷ st)) (script_wrk_lookup L lookup (made L (v ∷ w ∷ st) h))
          × Ends (Gives (v ∷ st)) (script_addr_tostring L name (made L (v ∷ st) h))
          × Ends (Gives (v ∷ st)) (script_addr_gc L (made L (v ∷ st) h))
          × Ends (Gives (v ∷ st)) (script_wrk_connect L connects (made L (v ∷ st) h))
          × Ends
              (Gives (w ∷ v ∷ []))
              (script_stats_percentile L F widen narrow stats_of (made L (w ∷ v ∷ []) h))
          × Ends
              (Gives (w ∷ v ∷ []))
              (script_stats_call L F widen narrow stats_of (made L (w ∷ v ∷ []) h))
          × Ends (Gives (v ∷ [])) (script_stats_len L F widen narrow stats_of (made L (v ∷ []) h))
    objects-Ends lookup name connects v w st h =
        let (a, b, c) = address-Ends name connects v st h in
        let (d, e, f) = histogram-Ends v w h in (lookup-Ends lookup v w st h, a, b, c, d, e, f)
