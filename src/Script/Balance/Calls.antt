-- ===== src/Script/Balance/Calls.antt =====
-- src/script.c: the stack that each call into a script leaves.
use wrk_offloadenginesupport.Prelude.{ℕ, ◌+◌, ◌≡◌, refl, List, [], ◌∷◌, Bytes, codes, arith}
use wrk_offloadenginesupport.Lua.{
  ◌>>=◌, Result, ok, raised, crashed, broken, unfinished, Lua, Machine, Val, table, text, number,
  pop,
}
use wrk_offloadenginesupport.Script.Setup.{
  script_resolve, script_push_thread, push_arguments, script_init, set_thread, run_setup, run_init,
  SetupCall,
}
use wrk_offloadenginesupport.Script.Requests.{script_delay, script_request, script_is_function}
use wrk_offloadenginesupport.Script.Balance.{
  Ends, Has, HasUnder, SecondHas, BothHave, fetched-Ends, stored-Ends, then-Ends, under_one-Ends,
  both-Ends, made,
}

module _ (L : Lua) where
  pub script_delay-Ends : (m : Machine L) → Ends (SecondHas L m.stack) (script_delay L m)
  unfolding script_delay
  script_delay-Ends m = ground arith

  pub script_is_function-Ends :
      (name : Bytes) (m : Machine L) → Ends (SecondHas L m.stack) (script_is_function L name m)
  unfolding script_is_function
  script_is_function-Ends name m = ground arith

  pub script_request-Ends : (m : Machine L) → Ends (SecondHas L m.stack) (script_request L m)
  unfolding script_request
  script_request-Ends m = ground arith

  pub script_resolve-Ends :
      (host service : Bytes) (m : Machine L)
      → Ends (SecondHas L m.stack) (script_resolve L host service m)
  unfolding script_resolve
  script_resolve-Ends host service m = ground arith

  script_push_thread-Ends :
      (t : ℕ) (m : Machine L) → Ends (HasUnder L 1 m.stack) (script_push_thread L t m)
  unfolding script_push_thread
  script_push_thread-Ends t m = ground arith

  push_arguments-Ends :
      (i : ℕ) (argv : List Bytes) (t : Val L) (st : List (Val L)) (h : L.Heap)
      → Ends (Has L (t ∷ st)) (push_arguments L i argv (made L (t ∷ st) h))
  unfolding push_arguments
  push_arguments-Ends i [] t st h = refl
  push_arguments-Ends i (a ∷ argv) t st h =
      stored-Ends L (Has L (t ∷ st)) (t ∷ st) (L.raw_set h t (number (L.from_u64 i)) (text a))
        (push_arguments L (i + 1) argv) (λ h'. push_arguments-Ends (i + 1) argv t st h')

  set_thread-Ends : (t : ℕ) (n : Machine L) → Ends (HasUnder L 1 n.stack) (set_thread L t n)
  unfolding set_thread
  set_thread-Ends t n = ground arith

  -- The calls of wrk.setup leave the stack of the thread's state as it was.
  abbrev pub KeepsStack : SetupCall L → Type 0
  KeepsStack setup =
      (h : L.Heap) (f v : Val L) (n : Machine L) → Ends (λ q. q.1.stack ≡ n.stack) (setup h f v n)

  called-Ends :
      (w : Val L) (st st' : List (Val L)) (r : Result (L.Heap × Machine L))
      → Ends (λ q. q.1.stack ≡ st') r
      → Ends (BothHave L st st') (
          r >>= (λ (h, n'). ok (made L (w ∷ st) h, n')) >>= λ (m₄, n').
          pop L 1 m₄ >>= λ m₅. ok (m₅, n'))
  called-Ends w st st' (ok (h, n')) e = (refl, e)
  called-Ends w st st' raised e = tt
  called-Ends w st st' crashed e = tt
  called-Ends w st st' broken e = absurd e
  called-Ends w st st' unfinished e = absurd e

  run_setup-Ends :
      (setup : SetupCall L)
      → KeepsStack setup
      → (t : ℕ) (m n : Machine L) → Ends (BothHave L m.stack n.stack) (run_setup L setup t m n)
  unfolding run_setup
  run_setup-Ends setup keeps t m n =
      let good = BothHave L m.stack n.stack in
      fetched-Ends L good m (L.get m.heap (table L.globals) (text (codes "wrk"))) _ (λ w h.
        fetched-Ends L good (made L (w ∷ m.stack) h) (L.get h w (text (codes "setup"))) _ (λ f h'.
          under_one-Ends L good (f ∷ w ∷ m.stack)
            (script_push_thread L t (made L (f ∷ w ∷ m.stack) h')) _
            (script_push_thread-Ends t (made L (f ∷ w ∷ m.stack) h'))
            (λ v h''. called-Ends w m.stack n.stack (setup h'' f v n) (keeps h'' f v n))))

  run_init-Ends :
      (argv : List Bytes) (v : Val L) (st : List (Val L)) (h : L.Heap)
      → Ends (Has L st) (run_init L argv (made L (v ∷ st) h))
  unfolding run_init
  run_init-Ends argv v st h =
      fetched-Ends L (Has L st) (made L (v ∷ st) h) (L.get h v (text (codes "init"))) _ (λ f h'.
        then-Ends L (Has L st) (table (L.new_table h').0 ∷ f ∷ v ∷ st)
          (push_arguments L 0 argv
            (made L (table (L.new_table h').0 ∷ f ∷ v ∷ st) (L.new_table h').1))
          _ (push_arguments-Ends 0 argv (table (L.new_table h').0) (f ∷ v ∷ st) (L.new_table h').1)
          (λ h''. ground arith))

  pub script_init-Ends :
      (setup : SetupCall L)
      → KeepsStack setup
      → (t : ℕ) (argv : List Bytes) (m n : Machine L)
      → Ends (BothHave L m.stack n.stack) (script_init L setup t argv m n)
  unfolding script_init
  script_init-Ends setup keeps t argv m n =
      let good = BothHave L m.stack n.stack in
      under_one-Ends L good n.stack (set_thread L t n) _ (set_thread-Ends t n) (λ v h.
        both-Ends L good m.stack (v ∷ n.stack) (run_setup L setup t m (made L (v ∷ n.stack) h)) _
          (run_setup-Ends setup keeps t m (made L (v ∷ n.stack) h))
          (λ h' g.
            then-Ends L good n.stack (run_init L argv (made L (v ∷ n.stack) g)) _
              (run_init-Ends argv v n.stack g) (λ h''. (refl, refl))))

  -- script_resolve, script_init (on the states of main and of the thread), script_delay, script_request
  -- and script_is_function use the stack as the library allows, and when they return, each stack is
  -- what it was. For script_init this needs a wrk.setup that leaves the stack of the thread's state as
  -- it was.
  pub calls-Ends :
      (setup : SetupCall L)
      → KeepsStack setup
      → (t : ℕ) (argv : List Bytes) (host service name : Bytes) (m n : Machine L)
      → Ends (SecondHas L m.stack) (script_resolve L host service m)
        × Ends (BothHave L m.stack n.stack) (script_init L setup t argv m n)
        × Ends (SecondHas L n.stack) (script_delay L n)
        × Ends (SecondHas L n.stack) (script_request L n)
        × Ends (SecondHas L n.stack) (script_is_function L name n)
  calls-Ends setup keeps t argv host service name m n = (
    script_resolve-Ends host service m,
    script_init-Ends setup keeps t argv m n,
    script_delay-Ends n,
    script_request-Ends n,
    script_is_function-Ends name n,
  )
