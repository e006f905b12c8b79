-- ===== src/Connection/Life/Reached.antt =====
-- src/wrk.c: the phases that a connection can be in while the event loop runs.
use wrk_offloadenginesupport.Prelude.{
  ℕ, suc, ◌≡◌, ◌⊎◌, inl, inr, refl, ap, sym, subst, ◌∙◌, Bool, true, false, some, List, [], ◌∷◌,
  ◌++◌, ap₂, if◌then◌else◌, arith,
}
use wrk_offloadenginesupport.Floating.{LongDouble}
use wrk_offloadenginesupport.Connection.{
  World, Config, Call, Connection, socket_connected, socket_writeable, socket_readable, ae_stop,
}
use wrk_offloadenginesupport.Connection.Registry.{Watch, watch, watch-append, unwatched}
use wrk_offloadenginesupport.Connection.Events.{record_rate}
use wrk_offloadenginesupport.Connection.Life.{
  System, Step, connected_step, writeable_step, readable_step, delay_step, rate_step, others_step,
  Reach, here, later,
}
use wrk_offloadenginesupport.Connection.Life.Phases.{
  Phase, connecting, sending, waiting, lost, handlers, IsOpen, ◌⟶◌, stay, again, lose, InPhase,
  After, handle_connected-After, handle_writeable-After,
}
use wrk_offloadenginesupport.Connection.Life.Reading.Loop.{handle_readable-After}

-- Which phase a registered handler belongs to.
abbrev Awaits : Watch → Type 0
Awaits v = (v.on_read ≡ some socket_connected) ⊎ (v.on_write ≡ some socket_connected)

connects : (p : Phase) → Awaits (handlers p) → p ≡ connecting
connects connecting e = refl
connects sending e = elim e [ inl h ↦ cc | inr h ↦ cc ]
connects waiting e = elim e [ inl h ↦ cc | inr h ↦ cc ]
connects lost e = elim e [ inl h ↦ cc | inr h ↦ cc ]

writes : (p : Phase) → (handlers p).on_write ≡ some socket_writeable → p ≡ sending
writes sending e = refl
writes connecting e = cc
writes waiting e = cc
writes lost e = cc

reads : (p : Phase) → (handlers p).on_read ≡ some socket_readable → IsOpen p
reads sending e = tt
reads waiting e = tt
reads connecting e = absurd (cc)
reads lost e = absurd (cc)

stopped :
    (stop : Bool) (fd : ℕ) (cs : List Call)
    → watch fd (if stop then cs ++ ae_stop ∷ [] else cs) unwatched ≡ watch fd cs unwatched
stopped true fd cs = watch-append fd cs _ unwatched
stopped false fd cs = refl

-- The connection is in this phase, and no call of delay_request is due.
abbrev pub At : Phase → System → Type 0
At p s = InPhase p s.world × (s.timers ≡ 0)

-- The phase of the next state.
abbrev pub Next : Phase → System → Type 0
Next p t = (q : Phase) × (p ⟶ q) × At q t

module _ (F : LongDouble) (junk : ℕ → ℕ) (cfg : Config) (quick : cfg.delay ≡ false) where
  rate-same :
      (now after : ℕ) (stop : Bool) (w : World)
      → let v = (record_rate F now after stop w).1 in
        (v.conn ≡ w.conn) × (v.calls ≡ (if stop then w.calls ++ ae_stop ∷ [] else w.calls))
  unfolding record_rate
  rate-same now after stop w = ground arith

  rate-InPhase :
      (now after : ℕ) (stop : Bool) (p : Phase) (w : World)
      → InPhase p w
      → InPhase p (record_rate F now after stop w).1
  rate-InPhase now after stop p w (seen, free) =
      let (conn, calls) = rate-same now after stop w in
      (
        ap₂ (λ (c : Connection) cs. watch c.fd cs unwatched) conn calls
            ∙ stopped stop w.conn.fd w.calls
            ∙ seen,
        ap (λ (c : Connection). c.delayed) conn ∙ free,
      )

  next : (p : Phase) (t : System) → After p t.world → t.timers ≡ 0 → Next p t
  next p t (q, edge, at) idle = (q, edge, (at, idle))

  step-Next : (p : Phase) (s t : System) → At p s → Step F junk cfg s t → Next p t
  step-Next p s t ((seen, free), idle) (connected_step o r watched taken) =
      let e = connects p (subst (λ (v : Watch). Awaits v) seen watched) in
      next p t
        (subst (λ q. After q t.world) (sym e)
          (handle_connected-After cfg o r s.world taken (seen ∙ ap handlers e, free)))
        idle
  step-Next p s t ((seen, free), idle) (writeable_step r watched taken fits) =
      let e = writes p (ap (λ (v : Watch). v.on_write) (sym seen) ∙ watched) in
      next p t
        (subst (λ q. After q t.world) (sym e)
          (handle_writeable-After cfg r s.world taken (seen ∙ ap handlers e, free)))
        (ap (λ b. if b then suc s.timers else s.timers) free ∙ idle)
  step-Next p s t (at, idle) (readable_step r rs w watched taken orderly done) =
      let live = reads p (ap (λ (v : Watch). v.on_read) (sym at.0) ∙ watched) in
      next p t (handle_readable-After junk cfg quick r rs p s.world w taken orderly live at done)
        idle
  step-Next p s t (at, idle) (delay_step n due) = cc
  step-Next p s t (at, idle) (rate_step now after stop) =
      (p, stay, (rate-InPhase now after stop p s.world at, idle))
  step-Next p s t (at, idle) (others_step th latency rate) = (p, stay, (at, idle))

  -- Without script delays, from a connection in one of four phases (connecting, sending, waiting,
  -- lost) with no timer due, every state that the event loop reaches by calling the registered
  -- handlers is in one of them: the handlers of that phase are registered for the descriptor and no
  -- other, nothing is delayed, and no timer is due. Every further step keeps the phase, or leads
  -- from connecting to sending, from sending to waiting, from waiting to sending, or from any but
  -- lost to connecting or to lost. The steps assume that the loop takes each descriptor, that a write
  -- takes no more than what is left of the request (which is shorter than 2^64 bytes), that the
  -- parser hands over nothing after a message that ends the connection, and that nothing can be
  -- read at once on the new one.
  pub reached_phase :
      (p : Phase) (s t : System)
      → At p s
      → Reach F junk cfg s t
      → (q : Phase) × At q t × ((u : System) → Step F junk cfg t u → Next q u)
  reached_phase p s t at here = (p, at, λ u step. step-Next p s u at step)
  reached_phase p s t at (later reach step) =
      let (q, at', onward) = reached_phase p s _ at reach in
      let (r, edge, at'') = onward t step in (r, at'', λ u more. step-Next r t u at'' more)

  stays_lost : (q : Phase) → lost ⟶ q → q ≡ lost
  stays_lost q stay = refl
  stays_lost q (again alive) = absurd alive
  stays_lost q (lose alive) = absurd alive

  -- What stays lost is not touched either.
  step-lost :
      (s t : System) → At lost s → Step F junk cfg s t → At lost t × (t.world.conn ≡ s.world.conn)
  step-lost s t ((seen, free), idle) (connected_step o r watched taken) =
      let e = connects lost (subst (λ (v : Watch). Awaits v) seen watched) in absurd (cc)
  step-lost s t ((seen, free), idle) (writeable_step r watched taken fits) =
      let e = writes lost (ap (λ (v : Watch). v.on_write) (sym seen) ∙ watched) in absurd (cc)
  step-lost s t (at, idle) (readable_step r rs w watched taken orderly done) =
      absurd (reads lost (ap (λ (v : Watch). v.on_read) (sym at.0) ∙ watched))
  step-lost s t (at, idle) (delay_step n due) = absurd (cc)
  step-lost s t (at, idle) (rate_step now after stop) =
      ((rate-InPhase now after stop lost s.world at, idle), (rate-same now after stop s.world).0)
  step-lost s t (at, idle) (others_step th latency rate) = ((at, idle), refl)

  pub lost_for_good :
      (s t : System) → At lost s → Reach F junk cfg s t → At lost t × (t.world.conn ≡ s.world.conn)
  lost_for_good s t at here = (at, refl)
  lost_for_good s t at (later reach step) =
      let (at', same) = lost_for_good s _ at reach in
      let (at'', same') = step-lost _ t at' step in (at'', same' ∙ same)
