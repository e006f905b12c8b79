-- ===== src/Script/Threads/Copying.antt =====
-- src/script.c: what script_copy_value does to the two stacks, and thread:set and thread:get with it.
use wrk_offloadenginesupport.Prelude.{
  ℕ, zero, suc, ◌≡◌, ◌≤◌, refl, none, some, List, [], ◌∷◌, Bytes, codes, length, arith,
}
use wrk_offloadenginesupport.Lua.{
  ◌>>=◌, ok, broken, Lua, Machine, Val, thread_pointer, nil, boolean, number, text, table, function,
  cfunction, userdata, push, nth,
}
use wrk_offloadenginesupport.Script.Balance.{made}
use wrk_offloadenginesupport.Script.Threads.{
  c_string, next_entry, script_copy_value, copy_entries, checkthread, script_thread_get,
  script_thread_set,
}

module _ (L : Lua) where
  -- A value that a thread can be given as it is: no table, and no text with a NUL.
  abbrev pub Plain : Val L → Type 0
  Plain nil = Unit {0}
  Plain (boolean b) = Unit {0}
  Plain (number n) = Unit {0}
  Plain (text s) = c_string s ≡ s
  Plain _ = ⊥

  pub copy_value-Plain :
      (fuel k : ℕ) (v : Val L) (src dst : Machine L)
      → Plain v
      → nth L src.stack k ≡ some v
      → script_copy_value L (suc fuel) (suc k) (src, dst) ≡ ok (src, push L v dst)
  unfolding script_copy_value
  copy_value-Plain fuel k nil src dst p e = rw e
  copy_value-Plain fuel k (boolean b) src dst p e = rw e
  copy_value-Plain fuel k (number n) src dst p e = rw e
  copy_value-Plain fuel k (text s) src dst p e = rw (e, p)
  copy_value-Plain fuel k (table r) src dst p e = absurd p
  copy_value-Plain fuel k (function r) src dst p e = absurd p
  copy_value-Plain fuel k (cfunction f) src dst p e = absurd p
  copy_value-Plain fuel k (userdata r) src dst p e = absurd p

  -- What lua_next goes through from a key on: these entries, all of them plain, and no more.
  abbrev pub Walks : L.Heap → L.Ref → Val L → List (Val L × Val L) → Type 0
  Walks h r key [] = L.next h (table r) key ≡ some none
  Walks h r key ((k, v) ∷ es) =
      (L.next h (table r) key ≡ some (some (k, v))) × Plain k × Plain v × Walks h r k es

  -- Setting these entries in a table, one after another, leads from one heap to the other.
  abbrev pub Fills : L.Heap → L.Ref → List (Val L × Val L) → L.Heap → Type 0
  Fills g d [] g' = g ≡ g'
  Fills g d ((k, v) ∷ es) g' = (g₁ : L.Heap) × (L.set g (table d) k v ≡ some g₁) × Fills g₁ d es g'

  module _ (h : L.Heap) (r d : L.Ref) (st dst : List (Val L)) where
    copy_entries-Walks :
        (fuel : ℕ) (es : List (Val L × Val L)) (key : Val L) (g g' : L.Heap)
        → Walks h r key es
        → Fills g d es g'
        → length es ≤ fuel
        → copy_entries L (suc fuel) 2 (made L (key ∷ table r ∷ st) h, made L (table d ∷ dst) g)
          ≡ ok (made L (table r ∷ st) h, made L (table d ∷ dst) g')
    unfolding script_copy_value next_entry
    copy_entries-Walks fuel [] key g g' end same enough = rw (end, same) refl
    copy_entries-Walks zero ((k, v) ∷ es) key g g' walk fill enough = absurd (omega arith)
    copy_entries-Walks (suc fuel) ((k, v) ∷ es) key g g' (found, pk, pv, walk) (g₁, set_it, fill)
          enough =
        let src = made L (v ∷ k ∷ table r ∷ st) h in
        let to = made L (table d ∷ dst) g in
        rw
          (
            found,
            copy_value-Plain fuel 1 k src to pk refl,
            copy_value-Plain fuel 0 v src (push L k to) pv refl,
            set_it,
          )
          (copy_entries-Walks fuel es k g₁ g' walk fill (omega arith))

  -- The copy of a table takes the table off its stack.
  copy_table-Walks :
      (h : L.Heap) (r : L.Ref) (st dst : List (Val L)) (fuel : ℕ) (es : List (Val L × Val L))
      (g g' : L.Heap)
      → Walks h r nil es
      → Fills (L.new_table g).1 (L.new_table g).0 es g'
      → length es ≤ fuel
      → script_copy_value L (suc (suc fuel)) 1 (made L (table r ∷ st) h, made L dst g)
        ≡ ok (made L st h, made L (table (L.new_table g).0 ∷ dst) g')
  unfolding script_copy_value
  copy_table-Walks h r st dst fuel es g g' walk fill enough =
      let entries =
        copy_entries-Walks h r (L.new_table g).0 st dst fuel es nil (L.new_table g).1 g' walk fill
          enough in
      rw entries refl

  -- thread:get of a global that is a table, whose entries are nils, numbers, Booleans and texts
  -- without a NUL: the script gets a table filled with these entries, and a value that lay on the
  -- stack of the thread is gone, since script_copy_value has popped the table and script_thread_get
  -- pops once more. Where the thread's stack was empty, that is a pop of an empty stack. Fuel: one
  -- for each entry and two more.
  pub thread_get-table :
      (fuel : ℕ) (key : Bytes) (u under : Val L) (t : ℕ) (st : List (Val L)) (h h' g g' : L.Heap)
      (r : L.Ref) (es : List (Val L × Val L))
      → L.to_text (text key) ≡ some key
      → L.check_userdata g u (codes "wrk.thread") ≡ some (thread_pointer t)
      → L.get h (table L.globals) (text key) ≡ some (table r, h')
      → Walks h' r nil es
      → Fills (L.new_table g).1 (L.new_table g).0 es g'
      → length es ≤ fuel
      → let m = made L (text key ∷ u ∷ []) g in
        (script_thread_get L (suc (suc fuel)) m (made L (under ∷ st) h)
          ≡ ok (1, (made L (table (L.new_table g).0 ∷ text key ∷ u ∷ []) g', made L st h')))
        × (script_thread_get L (suc (suc fuel)) m (made L [] h) ≡ broken)
  unfolding script_thread_get checkthread
  thread_get-table fuel key u under t st h h' g g' r es said mine found walk fill enough =
      let copy = λ (below : List (Val L)).
        copy_table-Walks h' r below (text key ∷ u ∷ []) fuel es g g' walk fill enough in
      (rw (mine, said, found, copy (under ∷ st)) refl, rw (mine, said, found, copy []) refl)

  -- thread:get gives back what thread:set has stored under a name, for a nil, a Boolean, a number and a
  -- text without a NUL, where the table of globals gives back what is stored in it; the stack of the
  -- thread is what it was.
  pub thread_set-get :
      (fuel : ℕ) (name : Bytes) (v u : Val L) (t : ℕ) (h : L.Heap) (n : Machine L) (g : L.Heap)
      → Plain v
      → L.to_text (text name) ≡ some name
      → L.check_userdata h u (codes "wrk.thread") ≡ some (thread_pointer t)
      → L.set n.heap (table L.globals) (text name) v ≡ some g
      → L.get g (table L.globals) (text name) ≡ some (v, g)
      → (script_thread_set L (suc fuel) (made L (v ∷ text name ∷ u ∷ []) h) n >>= λ q.
          script_thread_get L (suc fuel) (made L (text name ∷ u ∷ []) q.1.0.heap) q.1.1)
        ≡ ok (1, (made L (v ∷ text name ∷ u ∷ []) h, made L n.stack g))
  unfolding script_thread_set script_thread_get checkthread
  thread_set-get fuel name v u t h n g plain said mine set_it get_it =
      let m = made L (v ∷ text name ∷ u ∷ []) h in
      let m' = made L (text name ∷ u ∷ []) h in
      rw (
        mine,
        said,
        copy_value-Plain fuel 0 v m n plain refl,
        set_it,
        mine,
        get_it,
        copy_value-Plain fuel 0 v (made L (v ∷ n.stack) g) m' plain refl,
      )
