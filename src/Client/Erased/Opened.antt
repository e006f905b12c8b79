-- ===== src/Client/Erased/Opened.antt =====
-- thread_main of src/wrk.c against that of client_wrks.
use wrk_offloadenginesupport.Prelude.{
  ℕ, zero, suc, ◌+◌, ◌≡◌, refl, ap, ◌∙◌, List, [], ◌∷◌, Bytes, if◌then◌else◌,
}
use wrk_offloadenginesupport.Connection.{
  World, Config, Connection, create_rate_event, ae_main, ae_delete_loop, emit, with_conn,
}
use wrk_offloadenginesupport.Connection.Events.{record_interval_ms}
use wrk_offloadenginesupport.Connection.Socket
use wrk_offloadenginesupport.Connection.ThreadMain
use wrk_offloadenginesupport.Connection.ThreadMain.{Opening, new_connection}
use wrk_offloadenginesupport.Client.ThreadMain as ClientThreadMain
use wrk_offloadenginesupport.Client.Erased.{erased, erased-emit, connect_socket-erased}

abbrev erased_second : List Connection × World → List Connection × World
erased_second (cs, w) = (cs, erased w)

abbrev with_first : Connection → List Connection × World → List Connection × World
with_first c (cs, w) = (c ∷ cs, w)

open_connections-erased :
    (cfg : Config) (request : Bytes) (o : Opening) (n i : ℕ) (w : World)
    → erased_second (ThreadMain.open_connections cfg request o n i w)
      ≡ ClientThreadMain.open_connections cfg request o n i (erased w)
unfolding ThreadMain.open_connections ClientThreadMain.open_connections
open_connections-erased cfg request o zero i w = refl
open_connections-erased cfg request o (suc n) i w =
    let w₀ = with_conn w (new_connection cfg request (o.ssl i)) in
    let w₁ = (Socket.connect_socket (o.reply i) w₀).1 in
    let e = ap (λ p. p.1) (connect_socket-erased (o.reply i) w₀) in
    ap (with_first w₁.conn) (open_connections-erased cfg request o n (i + 1) w₁)
    ∙ ap (λ v. with_first v.conn (ClientThreadMain.open_connections cfg request o n (i + 1) v)) e

-- What follows the loop.
abbrev started : ℕ → List Connection × World → List Connection × World
started now (cs, w) =
    let w' = emit w (create_rate_event record_interval_ms ∷ []) in
    (
      cs,
      emit (record w' { thread = record (w'.thread) { start = now } })
          (ae_main ∷ ae_delete_loop ∷ []),
    )

started-erased :
    (now : ℕ) (p : List Connection × World)
    → erased_second (started now p) ≡ started now (erased_second p)
started-erased now (cs, w) =
    let timed = create_rate_event record_interval_ms ∷ [] in
    let loop = ae_main ∷ ae_delete_loop ∷ [] in
    let v = record w { thread = record (w.thread) { start = now } } in
    ap (λ u. (cs, u))
      (erased-emit (emit v timed) loop ∙ ap (λ u. emit u loop) (erased-emit v timed))

-- The threads of the two copies of the program open the same connections, with the same counters and
-- calls but for those of SSL_set_options.
thread_main-erased :
    (cfg : Config) (request : Bytes) (o : Opening) (now : ℕ) (w : World)
    → erased_second (ThreadMain.thread_main cfg request o now w)
      ≡ ClientThreadMain.thread_main cfg request o now (erased w)
unfolding ThreadMain.thread_main ClientThreadMain.thread_main
thread_main-erased cfg request o now w =
    let first = if cfg.dynamic then [] else request in
    started-erased now (ThreadMain.open_connections cfg first o w.thread.connections 0 w)
    ∙ ap (started now) (open_connections-erased cfg first o w.thread.connections 0 w)
