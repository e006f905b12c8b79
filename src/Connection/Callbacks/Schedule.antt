-- ===== src/Connection/Callbacks/Schedule.antt =====
-- response_complete of src/wrk.c: at the end of a batch the next request is scheduled.
use wrk_offloadenginesupport.Prelude.{
  ℕ, ◌+◌, ◌-◌, ◌%◌, ◌≡◌, refl, ap, ◌∙◌, true, some, [], ◌∷◌, arith, ◌==◌, Bool-cases, inl, inr, u64,
}
use wrk_offloadenginesupport.Connection.{World, Config, Connection, socket_writeable, parser_init}
use wrk_offloadenginesupport.Connection.Registry.{Watch, watch, watch-append}
use wrk_offloadenginesupport.Connection.Callbacks.{
  Completion, hand_over, has_buffer, finish_batch, count_response, response_complete,
}
use wrk_offloadenginesupport.Connection.Callbacks.Complete.{
  alive-lem, hand_over-same, count_response-same,
}

finish_batch-watch :
    (cfg : Config) (k : Completion) (fd : ℕ) (w : World) (a : Watch)
    → w.conn.pending ≡ 1
    → w.conn.fd ≡ fd
    → (watch fd (finish_batch cfg k w).calls a
        ≡ record (watch fd w.calls a) { on_write = some socket_writeable })
      × ((finish_batch cfg k w).conn.delayed ≡ cfg.delay)
unfolding finish_batch
finish_batch-watch cfg k fd w a e same =
    let z : ((w.conn.pending + u64 - 1) % u64 == 0) ≡ true = ground arith in
    let t : (w.conn.fd == fd) ≡ true = ground arith in
    rw z (watch-append fd w.calls _ a ∙ rw t, refl)

pub hand_over-watch :
    (k : Completion) (fd : ℕ) (w : World) (a : Watch)
    → watch fd (hand_over k w).calls a ≡ watch fd w.calls a
unfolding hand_over
hand_over-watch k fd w a = elim (Bool-cases (has_buffer w.conn.headers)) [
  | inl there ↦ rw there (watch-append fd w.calls _ a)
  | inr missing ↦ rw missing
]

count_response-calls : (k : Completion) (w : World) → (count_response k w).calls ≡ w.calls
unfolding count_response
count_response-calls k w = refl

-- When the last response of a batch is complete on a connection that is kept alive, the loop is
-- left to call socket_writeable on the connection, its reading handler untouched, and the next
-- request is delayed exactly if the script has delays.
pub next_request_scheduled :
    (cfg : Config) (k : Completion) (w : World) (a : Watch)
    → k.keep_alive ≡ true
    → w.conn.pending ≡ 1
    → let w' = response_complete cfg k w in
      (watch w.conn.fd w'.calls a
        ≡ record (watch w.conn.fd w.calls a) { on_write = some socket_writeable })
      × (w'.conn.delayed ≡ cfg.delay)
next_request_scheduled cfg k w a alive due =
    let v : World = count_response k w in
    let conn : v.conn ≡ w.conn = (count_response-same k w).5 in
    let (thread, lat, rate, pend, start, fd) = hand_over-same k v in
    let f =
      finish_batch-watch cfg k w.conn.fd (hand_over k v) a
        (pend ∙ ap (λ (x : Connection). x.pending) conn ∙ due)
        (fd ∙ ap (λ (x : Connection). x.fd) conn) in
    let same : watch w.conn.fd (hand_over k v).calls a ≡ watch w.conn.fd w.calls a =
      hand_over-watch k w.conn.fd v a
      ∙ ap (λ cs. watch w.conn.fd cs a) (count_response-calls k w) in
    let q = alive-lem cfg k w alive in
    (
      ap (λ (x : World). watch w.conn.fd x.calls a) q
          ∙ watch-append w.conn.fd (finish_batch cfg k (hand_over k v)).calls (parser_init ∷ []) a
          ∙ f.0
          ∙ ap (λ (x : Watch). record x { on_write = some socket_writeable }) same,
      ap (λ (x : World). x.conn.delayed) q ∙ f.1,
    )
