-- ===== src/Script/Balance/Create.antt =====
-- src/script.c: the stack of a new state, and what main reports on it.
use wrk_offloadenginesupport.Prelude.{
  ℕ, ◌≡◌, refl, subst, Option, none, some, List, [], ◌∷◌, Bytes, codes, arith,
}
use wrk_offloadenginesupport.Lua.{raised, Lua, Machine, Val, table, text, cfunction}
use wrk_offloadenginesupport.Connection.{Errors}
use wrk_offloadenginesupport.Script.Report.{
  script_summary, script_errors, script_push_stats, script_done, report,
}
use wrk_offloadenginesupport.Url.{UrlParts}
use wrk_offloadenginesupport.Script.Fields.{
  Library, set_fields, addrlib, statslib, threadlib, register_library,
}
use wrk_offloadenginesupport.Script.Setup.{
  set_headers, header_of, set_header, fill_wrk, fill_fields, run_file, add_metatable, new_metatable,
  script_create, ran,
}
use wrk_offloadenginesupport.Script.Balance.{
  Ends, Has, HasUnder, stored-Ends, then-Ends, under_one-Ends, under_two-Ends, push_one-Ends, made,
}

module _ (L : Lua) where
  register_library-Ends :
      (lib : Library) (t : Val L) (st : List (Val L)) (h : L.Heap)
      → Ends (Has L (t ∷ st)) (register_library L lib (made L (t ∷ st) h))
  unfolding register_library
  register_library-Ends [] t st h = refl
  register_library-Ends ((name, f) ∷ lib) t st h =
      stored-Ends L (Has L (t ∷ st)) (t ∷ st) (L.set h t (text name) (cfunction f))
        (register_library L lib) (λ h'. register_library-Ends lib t st h')

  set_header-Ends :
      (o : Option (Bytes × Bytes)) (a b c d e : Val L) (h : L.Heap)
      → Ends (Has L (a ∷ b ∷ c ∷ d ∷ e ∷ [])) (set_header L o (made L (a ∷ b ∷ c ∷ d ∷ e ∷ []) h))
  set_header-Ends none a b c d e h = refl
  set_header-Ends (some (name, content)) a b c d e h = ground arith

  set_headers-Ends :
      (hs : List Bytes) (a b c d e : Val L) (h : L.Heap)
      → Ends (Has L (a ∷ b ∷ c ∷ d ∷ e ∷ [])) (set_headers L hs (made L (a ∷ b ∷ c ∷ d ∷ e ∷ []) h))
  unfolding set_headers
  set_headers-Ends [] a b c d e h = refl
  set_headers-Ends (x ∷ hs) a b c d e h =
      then-Ends L (Has L (a ∷ b ∷ c ∷ d ∷ e ∷ [])) (a ∷ b ∷ c ∷ d ∷ e ∷ [])
        (set_header L (header_of x) (made L (a ∷ b ∷ c ∷ d ∷ e ∷ []) h)) (set_headers L hs)
        (set_header-Ends (header_of x) a b c d e h) (set_headers-Ends hs a b c d e)

  -- The fields of `wrk`, up to the headers.
  begun-Ends :
      (url : Bytes) (parts : UrlParts) (b c d : Val L) (h : L.Heap)
      → Ends (HasUnder L 2 (b ∷ c ∷ d ∷ [])) (fill_fields L url parts (made L (b ∷ c ∷ d ∷ []) h))
  unfolding fill_fields
  begun-Ends url parts b c d h = ground arith

  fill_wrk-Ends :
      (url : Bytes) (parts : UrlParts) (headers : List Bytes) (b c d : Val L) (h : L.Heap)
      → Ends (Has L []) (fill_wrk L url parts headers (made L (b ∷ c ∷ d ∷ []) h))
  unfolding fill_wrk
  fill_wrk-Ends url parts headers b c d h =
      under_two-Ends L (Has L []) (b ∷ c ∷ d ∷ [])
        (fill_fields L url parts (made L (b ∷ c ∷ d ∷ []) h)) _ (begun-Ends url parts b c d h)
        (λ v w h'.
          then-Ends L (Has L []) (v ∷ w ∷ b ∷ c ∷ d ∷ [])
            (set_headers L headers (made L (v ∷ w ∷ b ∷ c ∷ d ∷ []) h')) _
            (set_headers-Ends headers v w b c d h') (λ h''. refl))

  new_metatable-Ends :
      (name : Bytes) (m : Machine L)
      → Ends (Has L (table (L.new_table m.heap).0 ∷ m.stack)) (new_metatable L name m)
  unfolding new_metatable
  new_metatable-Ends name m = ground arith

  add_metatable-Ends :
      (name : Bytes) (lib : Library) (m : Machine L)
      → Ends (HasUnder L 1 m.stack) (add_metatable L (name, lib) m)
  unfolding add_metatable
  add_metatable-Ends name lib m =
      let t = table (L.new_table m.heap).0 in
      then-Ends L (HasUnder L 1 m.stack) (t ∷ m.stack) (new_metatable L name m)
        (register_library L lib) (new_metatable-Ends name m)
        (λ h.
          push_one-Ends L t m.stack (register_library L lib (made L (t ∷ m.stack) h))
            (register_library-Ends lib t m.stack h))

  -- The stack of a new state holds what the file of the script has returned, its last result on top,
  -- or the message of its error; without a file it is empty.
  abbrev pub left_by : Option Bytes → L.Heap → List (Val L)
  left_by none h = []
  left_by (some file) h = (ran L (made L [] h) (L.run_path h file)).stack

  run_file-left :
      (file : Option Bytes) (h : L.Heap) → (run_file L file (made L [] h)).stack ≡ left_by file h
  unfolding run_file
  run_file-left none h = refl
  run_file-left (some file) h = refl

  ran-quiet : (m : Machine L) (p : List (Val L) × L.Heap) → p.0 ≡ [] → (ran L m p).stack ≡ m.stack
  ran-quiet m ([], h) e = refl
  ran-quiet m (v ∷ vs, h) e = cc

  -- A new state, where the chunk `wrk = require "wrk"` leaves nothing, ends up with what the file of the
  -- script has left on its stack: each of its results, or the message of its error. Without a file
  -- the stack is empty. script_create uses the stack as the library allows.
  pub script_create-Ends :
      (file : Option Bytes) (url : Bytes) (parts : UrlParts) (headers : List Bytes)
      → (L.run_source L.start (codes "wrk = require \"wrk\"")).0 ≡ []
      → Ends
          (λ m. (h : L.Heap) × (m.stack ≡ left_by file h))
          (script_create L file url parts headers)
  unfolding script_create
  script_create-Ends file url parts headers quiet =
      let good : Machine L → Type 0 = λ m. (h : L.Heap) × (m.stack ≡ left_by file h) in
      let m = ran L (made L [] L.start) (L.run_source L.start (codes "wrk = require \"wrk\"")) in
      under_one-Ends L good [] (add_metatable L (codes "wrk.addr", addrlib) m) _
        (subst (λ s. Ends (HasUnder L 1 s) (add_metatable L (codes "wrk.addr", addrlib) m))
          (ran-quiet (made L [] L.start) (L.run_source L.start (codes "wrk = require \"wrk\""))
            quiet)
          (add_metatable-Ends (codes "wrk.addr") addrlib m))
        (λ d h.
          under_one-Ends L good (d ∷ [])
            (add_metatable L (codes "wrk.stats", statslib) (made L (d ∷ []) h)) _
            (add_metatable-Ends (codes "wrk.stats") statslib (made L (d ∷ []) h))
            (λ c h₁.
              under_one-Ends L good (c ∷ d ∷ [])
                (add_metatable L (codes "wrk.thread", threadlib) (made L (c ∷ d ∷ []) h₁)) _
                (add_metatable-Ends (codes "wrk.thread") threadlib (made L (c ∷ d ∷ []) h₁))
                (λ b h₂.
                  then-Ends L good [] (fill_wrk L url parts headers (made L (b ∷ c ∷ d ∷ []) h₂)) _
                    (fill_wrk-Ends url parts headers b c d h₂)
                    (λ h₃. (h₃, run_file-left file h₃)))))

  pub report-Ends :
      (runtime complete bytes : ℕ) (e : Errors) (h : L.Heap)
      → Ends (Has L []) (report L runtime complete bytes e (made L [] h))
  unfolding report script_summary script_errors script_done script_push_stats set_fields
  report-Ends runtime complete bytes e h = ground arith

  report-raised :
      (runtime complete bytes : ℕ) (e : Errors) (v : Val L)
      → ((h : L.Heap) (k : Bytes) (w : Val L) → L.set h v (text k) w ≡ none)
      → (h : L.Heap) → report L runtime complete bytes e (made L (v ∷ []) h) ≡ raised
  unfolding report script_summary set_fields
  report-raised runtime complete bytes e v fixed h = rw (fixed _ _ _)

  -- On an empty stack script_summary, script_errors and script_done leave it empty, if they return;
  -- over one value whose fields cannot be set, such as the message of an error, they end in a Lua
  -- error, whatever the results of the run are.
  pub report_lem :
      (runtime complete bytes : ℕ) (e : Errors) (v : Val L) (h : L.Heap)
      → ((g : L.Heap) (k : Bytes) (w : Val L) → L.set g v (text k) w ≡ none)
      → Ends (Has L []) (report L runtime complete bytes e (made L [] h))
        × (report L runtime complete bytes e (made L (v ∷ []) h) ≡ raised)
  report_lem runtime complete bytes e v h fixed =
      (report-Ends runtime complete bytes e h, report-raised runtime complete bytes e v fixed h)
