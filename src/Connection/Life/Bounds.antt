-- ===== src/Connection/Life/Bounds.antt =====
-- src/wrk.c: how far a request is written while the event loop runs, with delays or without.
use wrk_offloadenginesupport.Prelude.{
  ℕ, ◌+◌, ◌%◌, ◌≤◌, ◌<◌, ◌≡◌, ◌⊎◌, inl, inr, refl, ap, ap₂, sym, subst, ◌∙◌, Bool, true, false,
  Option, none, some, List, [], ◌∷◌, length, u64, arith, if◌then◌else◌, ◌==◌, Bool-cases,
}
use wrk_offloadenginesupport.Floating.{LongDouble}
use wrk_offloadenginesupport.Net.{Status, ok, error, retry, Outcome}
use wrk_offloadenginesupport.Connection.{
  World, Config, Connection, readable, writable, socket_readable, socket_writeable,
  create_file_event, parser_init, emit, with_conn, connect_error, write_error,
}
use wrk_offloadenginesupport.Connection.Socket.{ConnectReply, reconnect_socket}
use wrk_offloadenginesupport.Connection.Callbacks.{Completion}
use wrk_offloadenginesupport.Connection.Events.{
  WriteReply, ReadRound, begin_batch, wrote, write_result, handle_connected, handle_writeable,
  handle_readable, delay_request, record_rate,
}
use wrk_offloadenginesupport.Connection.Batch.{
  Batch, batch_of, respond, respond_all, reconnect_socket-batch,
}
use wrk_offloadenginesupport.Connection.Batch.Reading.{heard, handle_readable-respond}
use wrk_offloadenginesupport.Connection.Life.{
  System, Step, connected_step, writeable_step, readable_step, delay_step, rate_step, others_step,
  Reach, here, later, Fits,
}

-- Either a new batch can begin, or there are bytes of the request left to write.
abbrev pub InBounds : Connection → Type 0
InBounds c = (length c.request < u64) × ((c.written ≡ 0) ⊎ (c.written < length c.request))

keeps-InBounds :
    (c d : Connection) → d.request ≡ c.request → d.written ≡ c.written → InBounds c → InBounds d
keeps-InBounds c d e f (room, within) = (
  subst (λ r. length r < u64) (sym e) room,
  elim within [
    | inl zeroed ↦ inl (f ∙ zeroed)
    | inr more ↦ inr (omega (arith, ap length e, f, more))
  ],
)

batch-InBounds : (w v : World) → batch_of v ≡ batch_of w → InBounds w.conn → InBounds v.conn
batch-InBounds w v e =
    keeps-InBounds w.conn v.conn (ap (λ (b : Batch). b.request) e) (ap (λ (b : Batch). b.written) e)

begin_batch-InBounds :
    (cfg : Config) (r : WriteReply) (c : Connection)
    → length (begin_batch cfg r c).request < u64
    → InBounds c
    → InBounds (begin_batch cfg r c)
unfolding begin_batch
begin_batch-InBounds cfg r c room (old, within) = elim (Bool-cases (c.written == 0)) [
  | inl idle ↦ (room, inl (ground (arith, idle)))
  | inr begun ↦ rw begun (old, within)
]

choice-InBounds :
    (b : Bool) (u v : World)
    → (b ≡ true → InBounds u.conn)
    → (b ≡ false → InBounds v.conn)
    → InBounds (if b then u else v).conn
choice-InBounds true u v p q = p refl
choice-InBounds false u v p q = q refl

connected-InBounds :
    (s : Status) (fd : ℕ) (r : ConnectReply) (w : World)
    → InBounds w.conn
    → InBounds
        (elim s as (λ _. World) [
          | ok ↦ emit (with_conn w (record (w.conn) { written = 0 })) (
              parser_init
              ∷ create_file_event fd readable socket_readable
              ∷ create_file_event fd writable socket_writeable
              ∷ [])
          | error ↦ (reconnect_socket r (record w { thread = connect_error w.thread })).1
          | retry ↦ w
        ]).conn
connected-InBounds ok fd r w (room, within) = (room, inl refl)
connected-InBounds error fd r w at =
    let v = record w { thread = connect_error w.thread } in
    batch-InBounds v (reconnect_socket r v).1 (reconnect_socket-batch r v) at
connected-InBounds retry fd r w at = at

handle_connected-InBounds :
    (cfg : Config) (fd : ℕ) (o : Outcome) (r : ConnectReply) (w : World)
    → InBounds w.conn
    → InBounds (handle_connected cfg fd o r w).conn
unfolding handle_connected
handle_connected-InBounds cfg fd o r w at = connected-InBounds (cfg.sock.connect o) fd r w at

wrote-InBounds :
    (fd n : ℕ) (w : World)
    → InBounds w.conn
    → w.conn.written + n ≤ length w.conn.request
    → InBounds (wrote fd n w).conn
unfolding wrote
wrote-InBounds fd n w (room, within) fits =
    let unwrapped : (w.conn.written + n) % u64 ≡ w.conn.written + n = omega arith in
    choice-InBounds ((w.conn.written + n) % u64 == length w.conn.request) _ _
      (λ done. (room, inl refl)) (λ more. (room, inr (ground (arith, unwrapped, more, fits))))

write_result-InBounds :
    (fd : ℕ) (r : ConnectReply) (w : World) (s : Status) (n : Option ℕ)
    → InBounds w.conn
    → ((m : ℕ) → s ≡ ok → n ≡ some m → w.conn.written + m ≤ length w.conn.request)
    → InBounds (write_result fd r w (s, n)).conn
unfolding write_result
write_result-InBounds fd r w ok (some n) at fits = wrote-InBounds fd n w at (fits n refl refl)
write_result-InBounds fd r w ok none at fits = at
write_result-InBounds fd r w error n at fits =
    let v = record w { thread = write_error w.thread } in
    batch-InBounds v (reconnect_socket r v).1 (reconnect_socket-batch r v) at
write_result-InBounds fd r w retry n at fits = at

handle_writeable-InBounds :
    (cfg : Config) (fd : ℕ) (r : WriteReply) (w : World)
    → InBounds w.conn
    → (w.conn.delayed ≡ false → Fits cfg r w)
    → InBounds (handle_writeable cfg fd r w).conn
unfolding handle_writeable
handle_writeable-InBounds cfg fd r w at fits =
    choice-InBounds w.conn.delayed _ _ (λ held. at)
      (λ free.
        let (room, small) = fits free in
        write_result-InBounds fd r.reply (with_conn w (begin_batch cfg r w.conn))
          (cfg.sock.write r.answer).0 (cfg.sock.write r.answer).1
          (begin_batch-InBounds cfg r w.conn room at) (λ m e f. small m (ap₂ (λ s n. (s, n)) e f)))

respond_all-keeps :
    (ks : List Completion) (b : Batch)
    → ((respond_all ks b).request ≡ b.request) × ((respond_all ks b).written ≡ b.written)
respond_all-keeps [] b = (refl, refl)
respond_all-keeps (k ∷ ks) b = respond_all-keeps ks (respond k b)

module _ (F : LongDouble) (junk : ℕ → ℕ) (cfg : Config) where
  rate-conn :
      (now after : ℕ) (stop : Bool) (w : World) → (record_rate F now after stop w).1.conn ≡ w.conn
  unfolding record_rate
  rate-conn now after stop w = ground arith

  delay-InBounds : (w : World) → InBounds w.conn → InBounds (delay_request w).conn
  unfolding delay_request
  delay-InBounds w at = at

  readable-InBounds :
      (c : ConnectReply) (rs : List ReadRound) (w v : World)
      → handle_readable junk cfg c rs w ≡ some v
      → InBounds w.conn
      → InBounds v.conn
  readable-InBounds c rs w v done =
      let e = handle_readable-respond junk cfg c rs w v done in
      let (request, written) = respond_all-keeps (heard cfg rs) (batch_of w) in
      keeps-InBounds w.conn v.conn (ap (λ (b : Batch). b.request) e ∙ request)
        (ap (λ (b : Batch). b.written) e ∙ written)

  step-InBounds :
      (s t : System) → InBounds s.world.conn → Step F junk cfg s t → InBounds t.world.conn
  step-InBounds s t at (connected_step o r watched taken) =
      handle_connected-InBounds cfg s.world.conn.fd o r s.world at
  step-InBounds s t at (writeable_step r watched taken fits) =
      handle_writeable-InBounds cfg s.world.conn.fd r s.world at fits
  step-InBounds s t at (readable_step r rs w watched taken orderly done) =
      readable-InBounds r rs s.world w done at
  step-InBounds s t at (delay_step n due) = delay-InBounds s.world at
  step-InBounds s t at (rate_step now after stop) =
      subst InBounds (sym (rate-conn now after stop s.world)) at
  step-InBounds s t at (others_step th latency rate) = at

  -- Where the request of a connection has fewer than 2^64 bytes, and either none of it counts as
  -- written or fewer bytes than it has, the same is true in every state that the event loop can reach,
  -- with delays or without, through errors and new connections. The steps assume that a write takes
  -- no more than what is left of the request, that the requests of a script have fewer than 2^64
  -- bytes, and what they assume of the event loop and the parser.
  pub reached-InBounds :
      (s t : System) → InBounds s.world.conn → Reach F junk cfg s t → InBounds t.world.conn
  reached-InBounds s t at here = at
  reached-InBounds s t at (later reach step) =
      step-InBounds _ t (reached-InBounds s _ at reach) step
