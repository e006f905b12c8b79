-- ===== src/Script/Balance.antt =====
-- The stack discipline of src/script.c: which stack each function leaves.
pub mod Calls
pub mod Create
pub mod Objects
pub mod Setups
mod Tests
use wrk_offloadenginesupport.Prelude.{
  ℕ, zero, suc, ◌+◌, ◌≡◌, refl, sym, subst, Bool, true, false, Option, none, some, List, [], ◌∷◌,
  Bytes, codes, arith,
}
use wrk_offloadenginesupport.Connection.{Errors}
use wrk_offloadenginesupport.Lua.{
  ◌>>=◌, Result, ok, raised, crashed, broken, unfinished, or_raised, or_crashed, Lua, Machine, Val,
  Value, Index, top, base, table, text, number, cfunction, at, fetched, stored, returned,
  drop_stack, is_function,
}
use wrk_offloadenginesupport.Url.{UrlParts}
use wrk_offloadenginesupport.Script.Fields.{
  Library, addrlib, statslib, threadlib, TableField, register_library, set_field, set_fields,
  push_url_part,
}
use wrk_offloadenginesupport.Script.Setup.{
  script_resolve, script_push_thread, push_arguments, script_init, set_thread, run_setup, run_init,
  set_headers, header_of, set_header, fill_wrk, fill_fields, run_file, add_metatable, new_metatable,
  script_create, ran,
}
use wrk_offloadenginesupport.Script.Requests.{
  script_delay, script_request, script_is_function, script_is_static, script_want_response,
  script_has_delay, script_has_done,
}
use wrk_offloadenginesupport.Script.Report.{
  script_summary, script_errors, script_push_stats, script_done, report,
}

-- A piece of code never misuses the stack, and what it returns, if it returns, is good.
abbrev pub Ends {ℓ} : {A : Type ℓ} → (A → Type 0) → Result A → Type 0
Ends good (ok a) = good a
Ends good raised = Unit {0}
Ends good crashed = Unit {0}
Ends good broken = ⊥
Ends good unfinished = ⊥

module _ (L : Lua) where
  -- The machine that is left has this stack.
  abbrev pub Has : List (Val L) → Machine L → Type 0
  Has st m = m.stack ≡ st

  -- The same under its top `n` values.
  abbrev pub HasUnder : ℕ → List (Val L) → Machine L → Type 0
  HasUnder n st m = drop_stack L n m.stack ≡ ok st

  abbrev pub SecondHas {ℓ} : {A : Type ℓ} → List (Val L) → A × Machine L → Type 0
  SecondHas st p = p.1.stack ≡ st

  abbrev pub BothHave : List (Val L) → List (Val L) → Machine L × Machine L → Type 0
  BothHave st st' p = (p.0.stack ≡ st) × (p.1.stack ≡ st')

  module _ {ℓ} {B : Type ℓ} (good : B → Type 0) where
    pub fetched-Ends :
        (m : Machine L) (o : Option (Val L × L.Heap)) (k : Machine L → Result B)
        → ((v : Val L) (h : L.Heap) → Ends good (k (record { stack = v ∷ m.stack; heap = h })))
        → Ends good (fetched L m o >>= k)
    fetched-Ends m none k q = tt
    fetched-Ends m (some (v, h)) k q = q v h

    pub stored-Ends :
        (st : List (Val L)) (o : Option L.Heap) (k : Machine L → Result B)
        → ((h : L.Heap) → Ends good (k (record { stack = st; heap = h })))
        → Ends good (stored L st o >>= k)
    stored-Ends st none k q = tt
    stored-Ends st (some h) k q = q h

    -- A piece that leaves the stack `st`, and then the rest.
    pub then-Ends :
        (st : List (Val L)) (r : Result (Machine L)) (k : Machine L → Result B)
        → Ends (Has st) r
        → ((h : L.Heap) → Ends good (k (record { stack = st; heap = h })))
        → Ends good (r >>= k)
    then-Ends st (ok m) k e q =
        subst (λ s. Ends good (k (record { stack = s; heap = m.heap }))) (sym e) (q m.heap)
    then-Ends st raised k e q = tt
    then-Ends st crashed k e q = tt
    then-Ends st broken k e q = absurd e
    then-Ends st unfinished k e q = absurd e

  abbrev pub made : List (Val L) → L.Heap → Machine L
  made st h = record { stack = st; heap = h }

  under_one : (st rest : List (Val L)) → drop_stack L 1 st ≡ ok rest → (v : Val L) × (st ≡ v ∷ rest)
  under_one [] rest e = cc
  under_one (v ∷ st) rest e = (v, cc)

  under_two :
      (st rest : List (Val L))
      → drop_stack L 2 st ≡ ok rest
      → (v : Val L) × (w : Val L) × (st ≡ v ∷ w ∷ rest)
  under_two [] rest e = cc
  under_two (v ∷ []) rest e = cc
  under_two (v ∷ w ∷ st) rest e = (v, w, cc)

  module _ {ℓ} {B : Type ℓ} (good : B → Type 0) (st : List (Val L)) where
    -- A piece that leaves one value more, or two, and then the rest.
    pub under_one-Ends :
        (r : Result (Machine L)) (k : Machine L → Result B)
        → Ends (HasUnder 1 st) r
        → ((v : Val L) (h : L.Heap) → Ends good (k (made (v ∷ st) h)))
        → Ends good (r >>= k)
    under_one-Ends (ok m) k e q =
        let (v, same) = under_one m.stack st e in
        subst (λ s. Ends good (k (made s m.heap))) (sym same) (q v m.heap)
    under_one-Ends raised k e q = tt
    under_one-Ends crashed k e q = tt
    under_one-Ends broken k e q = absurd e
    under_one-Ends unfinished k e q = absurd e

    pub under_two-Ends :
        (r : Result (Machine L)) (k : Machine L → Result B)
        → Ends (HasUnder 2 st) r
        → ((v w : Val L) (h : L.Heap) → Ends good (k (made (v ∷ w ∷ st) h)))
        → Ends good (r >>= k)
    under_two-Ends (ok m) k e q =
        let (v, w, same) = under_two m.stack st e in
        subst (λ s. Ends good (k (made s m.heap))) (sym same) (q v w m.heap)
    under_two-Ends raised k e q = tt
    under_two-Ends crashed k e q = tt
    under_two-Ends broken k e q = absurd e
    under_two-Ends unfinished k e q = absurd e

  -- A piece that leaves these stacks of two states, and then the rest.
  pub both-Ends {ℓ} :
      {B : Type ℓ} (good : B → Type 0) (st st' : List (Val L)) (r : Result (Machine L × Machine L))
      (k : Machine L × Machine L → Result B)
      → Ends (BothHave st st') r
      → ((h g : L.Heap) → Ends good (k (made st h, made st' g)))
      → Ends good (r >>= k)
  both-Ends good st st' (ok (m, n)) k (e, f) q =
      subst (λ s. Ends good (k (made s m.heap, n))) (sym e)
        (subst (λ s. Ends good (k (made st m.heap, made s n.heap))) (sym f) (q m.heap n.heap))
  both-Ends good st st' raised k e q = tt
  both-Ends good st st' crashed k e q = tt
  both-Ends good st st' broken k e q = absurd e
  both-Ends good st st' unfinished k e q = absurd e

  pub push_one-Ends :
      (v : Val L) (st : List (Val L)) (r : Result (Machine L))
      → Ends (Has (v ∷ st)) r
      → Ends (HasUnder 1 st) r
  push_one-Ends v st (ok m) e = subst (λ s. drop_stack L 1 s ≡ ok st) (sym e) refl
  push_one-Ends v st raised e = tt
  push_one-Ends v st crashed e = tt
  push_one-Ends v st broken e = absurd e
  push_one-Ends v st unfinished e = absurd e
