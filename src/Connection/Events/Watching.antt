-- ===== src/Connection/Events/Watching.antt =====
-- Which handlers the event loop is left with by the handlers of src/wrk.c.
use wrk_offloadenginesupport.Prelude.{
  eq_self, ℕ, ◌≡◌, refl, ap, ◌∙◌, Bool, true, false, none, some, [], ◌∷◌, if◌then◌else◌,
}
use wrk_offloadenginesupport.Net.{ok, Outcome}
use wrk_offloadenginesupport.Connection.{
  World, Config, readable, writable, socket_writeable, socket_readable, create_file_event,
  delete_file_event, create_delay_event, parser_init, emit, with_conn,
}
use wrk_offloadenginesupport.Connection.Registry.{Watch, watch, watch-append}
use wrk_offloadenginesupport.Connection.Socket.{ConnectReply}
use wrk_offloadenginesupport.Connection.Events.{
  WriteReply, begin_batch, write_result, handle_connected, handle_writeable, delay_request,
}

connected_as :
    (cfg : Config) (fd : ℕ) (o : Outcome) (r : ConnectReply) (w : World)
    → cfg.sock.connect o ≡ ok
    → handle_connected cfg fd o r w
      ≡ emit (with_conn w (record (w.conn) { written = 0 })) (
          parser_init
          ∷ create_file_event fd readable socket_readable
          ∷ create_file_event fd writable socket_writeable
          ∷ [])
unfolding handle_connected
connected_as cfg fd o r w e = rw (e, handle_connected)

-- Once a connection is made, and its handshake done, the loop reads and writes on it: both
-- directions have their handlers, nothing of the request counts as written, and the counters are as
-- they were.
pub handle_connected-watch :
    (cfg : Config) (fd : ℕ) (o : Outcome) (r : ConnectReply) (w : World) (a : Watch)
    → cfg.sock.connect o ≡ ok
    → let w' = handle_connected cfg fd o r w in
      (watch fd w'.calls a
        ≡ record { on_read = some socket_readable; on_write = some socket_writeable })
      × (w'.conn.written ≡ 0)
      × (w'.thread ≡ w.thread)
handle_connected-watch cfg fd o r w a e =
    let q = connected_as cfg fd o r w e in
    (
      ap (λ (x : World). watch fd x.calls a) q ∙ watch-append fd w.calls _ a ∙ rw (eq_self fd),
      ap (λ (x : World). x.conn.written) q,
      ap (λ (x : World). x.thread) q,
    )

abbrev pub held : World → WriteReply → World
held w r = emit w (delete_file_event w.conn.fd writable ∷ create_delay_event r.delay ∷ [])

pub held_as :
    (cfg : Config) (r : WriteReply) (w : World)
    → w.conn.delayed ≡ true
    → handle_writeable cfg w.conn.fd r w ≡ held w r
unfolding handle_writeable
held_as cfg r w d =
    let v : World = with_conn w (begin_batch cfg r w.conn) in
    ap
      (λ (b : Bool).
        if b then held w r else write_result w.conn.fd r.reply v (cfg.sock.write r.answer))
      d

freed-watch :
    (w : World) (r : WriteReply) (a : Watch)
    → watch w.conn.fd (delay_request (held w r)).calls a
      ≡ record (watch w.conn.fd (held w r).calls a) { on_write = some socket_writeable }
unfolding delay_request
freed-watch w r a = watch-append w.conn.fd (held w r).calls _ a ∙ rw (eq_self w.conn.fd)

freed-conn :
    (w : World) (r : WriteReply)
    → (delay_request (held w r)).conn ≡ (record (w.conn) { delayed = false })
unfolding delay_request
freed-conn w r = refl

freed-thread : (w : World) (r : WriteReply) → (delay_request (held w r)).thread ≡ w.thread
unfolding delay_request
freed-thread w r = refl

-- A delayed connection stops waiting to write until its timer runs; the timer's handler then lets
-- it write again, and nothing has been sent or counted meanwhile.
delay_cycle :
    (cfg : Config) (r : WriteReply) (w : World) (a : Watch)
    → w.conn.delayed ≡ true
    → let held = handle_writeable cfg w.conn.fd r w in
      let freed = delay_request held in
      ((watch w.conn.fd held.calls a).on_write ≡ none)
      × (held.conn ≡ w.conn)
      × ((watch w.conn.fd freed.calls a).on_write ≡ some socket_writeable)
      × ((watch w.conn.fd freed.calls a).on_read ≡ (watch w.conn.fd w.calls a).on_read)
      × (freed.conn ≡ (record (w.conn) { delayed = false }))
      × (freed.thread ≡ w.thread)
delay_cycle cfg r w a d =
    let q = held_as cfg r w d in
    let stopped : watch w.conn.fd (held w r).calls a
        ≡ record (watch w.conn.fd w.calls a) { on_write = none } =
      watch-append w.conn.fd w.calls _ a ∙ rw (eq_self w.conn.fd) in
    let free : watch w.conn.fd (delay_request (held w r)).calls a
        ≡ record (watch w.conn.fd w.calls a) { on_write = some socket_writeable } =
      freed-watch w r a
      ∙ ap (λ (x : Watch). record x { on_write = some socket_writeable }) stopped in
    (
      ap (λ (x : World). (watch w.conn.fd x.calls a).on_write) q
          ∙ ap (λ (x : Watch). x.on_write) stopped,
      ap (λ (x : World). x.conn) q,
      ap (λ (x : World). (watch w.conn.fd (delay_request x).calls a).on_write) q
          ∙ ap (λ (x : Watch). x.on_write) free,
      ap (λ (x : World). (watch w.conn.fd (delay_request x).calls a).on_read) q
          ∙ ap (λ (x : Watch). x.on_read) free,
      ap (λ (x : World). (delay_request x).conn) q ∙ freed-conn w r,
      ap (λ (x : World). (delay_request x).thread) q ∙ freed-thread w r,
    )
