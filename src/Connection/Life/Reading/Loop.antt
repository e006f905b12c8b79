-- ===== src/Connection/Life/Reading/Loop.antt =====
-- socket_readable of src/wrk.c: the events of each read and the loop over the reads, between phases.
use wrk_offloadenginesupport.Prelude.{
  ℕ, ◌≡◌, ◌⊎◌, inl, inr, refl, sym, subst, Bool, true, false, not, ◌&&◌, Option, none, some, List,
  [], ◌∷◌, if◌then◌else◌, ◌==◌, arith, ltb,
}
use wrk_offloadenginesupport.Net.{Status, ok, error, retry}
use wrk_offloadenginesupport.Connection.{World, Config, read_error}
use wrk_offloadenginesupport.Connection.Socket.{ConnectReply}
use wrk_offloadenginesupport.Connection.Callbacks.Silent.{
  Silent, header_field-Silent, header_value-Silent, response_body-Silent,
}
use wrk_offloadenginesupport.Connection.Events.{
  recvbuf, ParserEvent, on_header_field, on_header_value, on_body, on_message_complete, ReadRound,
  parser_event, parser_events, read_result, read_failed, count_bytes, handle_readable,
}
use wrk_offloadenginesupport.Connection.Life.{
  Taken, Keeps, Closes, Orderly, OrderlyRound, OrderlyRounds,
}
use wrk_offloadenginesupport.Connection.Life.Phases.{
  Phase, connecting, sending, waiting, lost, IsOpen, stay, answered, InPhase, After, Ended,
  Ended-After, reconnect_socket-Ended,
}
use wrk_offloadenginesupport.Connection.Life.Reading.{
  Turn, same, turn, Turn-trans, Open, Read, InPhase-Silent, response_complete-Open,
  response_complete-Ended,
}

-- Whatever is read, the phase reached from an open one is open too, or the connection has ended.
onward : (p q : Phase) (w : World) → Turn p q → Read q w → Read p w
onward p q w t (inl (r, u, live, at)) = inl (r, Turn-trans t u, live, at)
onward p q w t (inr ended) = inr ended

Read-Silent : (p : Phase) (w v : World) → Silent w v → Read p w → Read p v
Read-Silent p w v s (inl (q, t, live, at)) = inl (q, t, live, InPhase-Silent q w v s at)
Read-Silent p w v s (inr (inl at)) = inr (inl (InPhase-Silent connecting w v s at))
Read-Silent p w v s (inr (inr at)) = inr (inr (InPhase-Silent lost w v s at))

Read-free : (p : Phase) (w : World) → Read p w → w.conn.delayed ≡ false
Read-free p w (inl (q, t, live, (seen, free))) = free
Read-free p w (inr (inl (seen, free))) = free
Read-free p w (inr (inr (seen, free))) = free

Read-After : (p : Phase) (w : World) → IsOpen p → Read p w → After p w
Read-After sending w live (inl (q, same, live', at)) = (sending, stay, at)
Read-After waiting w live (inl (q, same, live', at)) = (waiting, stay, at)
Read-After waiting w live (inl (q, turn, live', at)) = (sending, answered, at)
Read-After sending w live (inr ended) = Ended-After sending w tt ended
Read-After waiting w live (inr ended) = Ended-After waiting w tt ended
Read-After connecting w live r = absurd live
Read-After lost w live r = absurd live

either-Silent : (w u : World) (b : Bool) → Silent w u → Silent w (if b then u else w)
either-Silent w u true s = s
either-Silent w u false s = record { fd = refl; delayed = refl; handlers = λ fd. refl }

module _ (junk : ℕ → ℕ) (cfg : Config) (quick : cfg.delay ≡ false) where
  parser_event-Open :
      (e : ParserEvent) (p : Phase) (w : World)
      → Keeps e
      → IsOpen p
      → InPhase p w
      → Open p (parser_event junk cfg e w)
  unfolding parser_event
  parser_event-Open (on_header_field at) p w keeps live here = (
    p,
    same,
    live,
    InPhase-Silent p w _ (either-Silent w _ cfg.want_response (header_field-Silent junk at w)) here,
  )
  parser_event-Open (on_header_value at) p w keeps live here = (
    p,
    same,
    live,
    InPhase-Silent p w _ (either-Silent w _ cfg.want_response (header_value-Silent junk at w)) here,
  )
  parser_event-Open (on_body at) p w keeps live here = (
    p,
    same,
    live,
    InPhase-Silent p w _ (either-Silent w _ cfg.want_response (response_body-Silent junk at w))
        here,
  )
  parser_event-Open (on_message_complete k) p w keeps live here =
      response_complete-Open cfg k p w quick keeps live here

  parser_event-Ended :
      (e : ParserEvent) (p : Phase) (w : World)
      → Closes e
      → IsOpen p
      → InPhase p w
      → Ended (parser_event junk cfg e w)
  unfolding parser_event
  parser_event-Ended (on_message_complete k) p w (closing, taken) live here =
      response_complete-Ended cfg k p w quick closing taken live here
  parser_event-Ended (on_header_field at) p w closes live here = absurd closes
  parser_event-Ended (on_header_value at) p w closes live here = absurd closes
  parser_event-Ended (on_body at) p w closes live here = absurd closes

  -- The events of one read, and whether they have ended the connection.
  abbrev Parsed : Bool → Phase → World → Type 0
  Parsed closed p w = (closed ≡ false) × Open p w ⊎ (closed ≡ true) × Ended w

  then-Parsed :
      (closed : Bool) (p q : Phase) (w : World) → Turn p q → Parsed closed q w → Parsed closed p w
  then-Parsed closed p q w t (inl (c, (r, u, live, at))) = inl (c, (r, Turn-trans t u, live, at))
  then-Parsed closed p q w t (inr ended) = inr ended

  parser_events-Parsed :
      (es : List ParserEvent) (closed : Bool) (p : Phase) (w : World)
      → Orderly es closed
      → IsOpen p
      → InPhase p w
      → Parsed closed p (parser_events junk cfg es w)
  unfolding parser_events
  parser_events-Parsed [] closed p w none_closed live at = inl (none_closed, (p, same, live, at))
  parser_events-Parsed (e ∷ es) closed p w (inl (keeps, rest)) live at =
      let (q, t, live', at') = parser_event-Open e p w keeps live at in
      let v : World = parser_event junk cfg e w in
      then-Parsed closed p q (parser_events junk cfg es v) t
        (parser_events-Parsed es closed q v rest live' at')
  parser_events-Parsed (e ∷ es) closed p w (inr (closes, last, c)) live at = inr (
    c,
    subst (λ (ds : List ParserEvent). Ended (parser_events junk cfg ds (parser_event junk cfg e w)))
        (sym last) (parser_event-Ended e p w closes live at),
  )

  Parsed-Read : (closed : Bool) (p : Phase) (w : World) → Parsed closed p w → Read p w
  Parsed-Read closed p w (inl (c, o)) = inl o
  Parsed-Read closed p w (inr (c, e)) = inr e

  -- One pass: the loop goes on only while the connection is open.
  abbrev Round : Phase → World × Bool → Type 0
  Round p (w, again) = Read p w × (again ≡ true → Open p w)

  if-Round :
      (p : Phase) (b : Bool) (u v : World × Bool)
      → Round p u
      → Round p v
      → Round p (if b then u else v)
  if-Round p true u v a b = a
  if-Round p false u v a b = b

  failed-Round :
      (p : Phase) (r : ConnectReply) (w : World)
      → Taken r
      → w.conn.delayed ≡ false
      → Round p (read_failed junk r w, false)
  unfolding read_failed
  failed-Round p r w taken free = (
    inr (reconnect_socket-Ended r (record w { thread = read_error w.thread }) taken free),
    λ e. cc,
  )

  counted-Round :
      (n : ℕ) (closed : Bool) (p : Phase) (r : ReadRound) (w : World)
      → (closed ≡ true → cfg.sock.readable r.more ≡ 0)
      → Parsed closed p w
      → Round p (count_bytes junk n w, (n == recvbuf) && ltb 0 (cfg.sock.readable r.more))
  unfolding count_bytes
  counted-Round n closed p r w empty (inl (c, (q, t, live, at))) =
      (inl (q, t, live, at), λ e. (q, t, live, at))
  counted-Round n closed p r w empty (inr (c, (inl at))) =
      (inr (inl at), λ e. absurd (ground (arith, empty c)))
  counted-Round n closed p r w empty (inr (c, (inr at))) =
      (inr (inr at), λ e. absurd (ground (arith, empty c)))

  read_result-Round :
      (c : ConnectReply) (p : Phase) (r : ReadRound) (w : World) (s : Status) (n : Option ℕ)
      → Taken c
      → OrderlyRound cfg r
      → IsOpen p
      → InPhase p w
      → Round p (read_result junk cfg c r w (s, n))
  unfolding read_result
  read_result-Round c p r w ok (some n) taken (closed, orderly, empty) live at =
      let v : World = parser_events junk cfg r.events w in
      let parsed = parser_events-Parsed r.events closed p w orderly live at in
      let failed : World × Bool = (read_failed junk c v, false) in
      let fails : Round p failed =
        failed-Round p c v taken (Read-free p v (Parsed-Read closed p v parsed)) in
      let counted : World × Bool =
        (count_bytes junk n v, (n == recvbuf) && ltb 0 (cfg.sock.readable r.more)) in
      let short : Bool = (n == 0) && not r.final in
      if-Round p (not (r.parsed == n)) failed (if short then failed else counted) fails
        (if-Round p short failed counted fails (counted-Round n closed p r v empty parsed))
  read_result-Round c p r w ok none taken orderly live at = (inl (p, same, live, at), λ e. cc)
  read_result-Round c p r w error n taken orderly live (seen, free) = failed-Round p c w taken free
  read_result-Round c p r w retry n taken orderly live at = (inl (p, same, live, at), λ e. cc)

  loop-Read :
      (c : ConnectReply) (rs : List ReadRound) (p : Phase) (v w : World) (b : Bool)
      → Round p (v, b)
      → (if b then handle_readable junk cfg c rs v else some v) ≡ some w
      → ((q : Phase) → IsOpen q → InPhase q v → handle_readable junk cfg c rs v ≡ some w → Read q w)
      → Read p w
  loop-Read c rs p v w true (r, o) done rest =
      let (q, t, live, at) = o refl in onward p q w t (rest q live at done)
  loop-Read c rs p v w false (r, o) done rest = let e : v ≡ w = cc in subst (Read p) e r

  handle_readable-Read :
      (c : ConnectReply) (rs : List ReadRound) (p : Phase) (w w' : World)
      → Taken c
      → OrderlyRounds cfg rs
      → IsOpen p
      → InPhase p w
      → handle_readable junk cfg c rs w ≡ some w'
      → Read p w'
  unfolding handle_readable
  handle_readable-Read c [] p w w' taken orderly live at done = cc
  handle_readable-Read c (r ∷ rs) p w w' taken (first, orderly) live at done =
      let (v, b) = read_result junk cfg c r w (cfg.sock.read r.answer) in
      loop-Read c rs p v w' b
        (read_result-Round c p r w (cfg.sock.read r.answer).0 (cfg.sock.read r.answer).1 taken first
          live at)
        done (λ q l a d. handle_readable-Read c rs q v w' taken orderly l a d)

  pub handle_readable-After :
      (c : ConnectReply) (rs : List ReadRound) (p : Phase) (w w' : World)
      → Taken c
      → OrderlyRounds cfg rs
      → IsOpen p
      → InPhase p w
      → handle_readable junk cfg c rs w ≡ some w'
      → After p w'
  handle_readable-After c rs p w w' taken orderly live at done =
      Read-After p w' live (handle_readable-Read c rs p w w' taken orderly live at done)
