-- ===== src/Client/Erased/Handlers.antt =====
-- Each handler of src/wrk.c against that of client_wrks, up to the calls of SSL_set_options.
use wrk_offloadenginesupport.Prelude.{
  ℕ, ◌≡◌, refl, ap, ◌∙◌, Bool, true, false, Option, none, some, List, [], ◌∷◌, if◌then◌else◌,
  Bool-cases, inl, inr, ◌==◌, ◌%◌, ◌+◌, ◌-◌, u64, length, drop, take,
}
use wrk_offloadenginesupport.Stats.{stats_record}
use wrk_offloadenginesupport.Net.{Status, ok, error, retry, Outcome}
use wrk_offloadenginesupport.Connection.{
  World, Config, Call, emit, with_conn, delete_file_event, create_file_event, create_delay_event,
  readable, writable, socket_readable, socket_writeable, parser_init, send, script_response, field,
  connect_error, timeout_error,
}
use wrk_offloadenginesupport.Connection.Socket
use wrk_offloadenginesupport.Connection.Socket.{ConnectReply}
use wrk_offloadenginesupport.Connection.Callbacks
use wrk_offloadenginesupport.Connection.Callbacks.{
  Completion, response_headers, count_response, hand_over, call_response, finish_batch,
  header_field, header_value, response_body,
}
use wrk_offloadenginesupport.Connection.Events
use wrk_offloadenginesupport.Connection.Events.{
  WriteReply, begin_batch, wrote, ParserEvent, on_header_field, on_header_value, on_body,
  on_message_complete, ReadRound, recvbuf,
}
use wrk_offloadenginesupport.Buffers.{push_nul}
use wrk_offloadenginesupport.Client.Socket as ClientSocket
use wrk_offloadenginesupport.Client.Handlers as ClientHandlers
use wrk_offloadenginesupport.Client.Erased.{
  erased, erase-append, erased-emit, reconnect_socket-erased,
}

pub if-erased :
    (b : Bool) (x y : World) {x' y' : World}
    → erased x ≡ x'
    → erased y ≡ y'
    → erased (if b then x else y) ≡ (if b then x' else y')
if-erased true x y p q = p
if-erased false x y p q = q

call_response-erased :
    (status : ℕ) (w : World) → erased (call_response status w) ≡ call_response status (erased w)
unfolding call_response
call_response-erased status w =
    ap (λ cs. record (call_response status w) { calls = cs })
      (erase-append w.calls (
        script_response status (response_headers w.conn.headers)
          (take w.conn.body.used w.conn.body.bytes)
        ∷ []))

count_response-erased :
    (k : Completion) (w : World) → erased (count_response k w) ≡ count_response k (erased w)
unfolding count_response
count_response-erased k w = refl

hand_over-erased : (k : Completion) (w : World) → erased (hand_over k w) ≡ hand_over k (erased w)
unfolding hand_over
hand_over-erased k w =
    let v = with_conn w (record (w.conn) { headers = push_nul w.conn.headers }) in
    elim (Bool-cases (Callbacks.has_buffer w.conn.headers)) [
      | inl b ↦ rw b (
          ap (λ u. with_conn u (record (u.conn) { state = field }))
            (call_response-erased k.status v))
      | inr b ↦ rw b refl
    ]

finish_batch-erased :
    (cfg : Config) (k : Completion) (w : World)
    → erased (finish_batch cfg k w) ≡ finish_batch cfg k (erased w)
unfolding finish_batch
finish_batch-erased cfg k w =
    let r = stats_record w.latency ((k.now + u64 - w.conn.start) % u64) in
    let pending' = (w.conn.pending + u64 - 1) % u64 in
    let done = record w {
      latency = r.1;
      thread = if r.0 == 0 then timeout_error w.thread else w.thread;
      conn = record (w.conn) { pending = pending'; delayed = cfg.delay };
    } in
    let watch = create_file_event w.conn.fd writable socket_writeable ∷ [] in
    if-erased (pending' == 0) (emit done watch)
      (with_conn w (record (w.conn) { pending = pending' })) (erased-emit done watch) refl

pub response_complete-erased :
    (cfg : Config) (k : Completion) (w : World)
    → erased (Callbacks.response_complete cfg k w)
      ≡ ClientHandlers.response_complete cfg k (erased w)
unfolding Callbacks.response_complete ClientHandlers.response_complete
response_complete-erased cfg k w =
    let v = finish_batch cfg k (hand_over k (count_response k w)) in
    let e =
      finish_batch-erased cfg k (hand_over k (count_response k w))
      ∙ ap (finish_batch cfg k) (
          hand_over-erased k (count_response k w) ∙ ap (hand_over k) (count_response-erased k w)) in
    if-erased k.keep_alive (emit v (parser_init ∷ [])) (Socket.reconnect_socket k.reply v).1
      (erased-emit v (parser_init ∷ []) ∙ ap (λ u. emit u (parser_init ∷ [])) e)
      (reconnect_socket-erased k.reply v ∙ ap (λ u. (ClientSocket.reconnect_socket k.reply u).1) e)

wrote-erased : (fd n : ℕ) (w : World) → erased (wrote fd n w) ≡ wrote fd n (erased w)
unfolding wrote
wrote-erased fd n w =
    let total = (w.conn.written + n) % u64 in
    let sent = send (take n (drop w.conn.written w.conn.request)) ∷ [] in
    let c = record (w.conn) { written = 0 } in
    let all = emit (with_conn (emit w sent) c) (delete_file_event fd writable ∷ []) in
    if-erased (total == length w.conn.request) all
      (with_conn (emit w sent) (record (w.conn) { written = total }))
      (erased-emit (with_conn (emit w sent) c) (delete_file_event fd writable ∷ [])
        ∙ ap (λ u. emit (with_conn u c) (delete_file_event fd writable ∷ [])) (erased-emit w sent))
      (ap (λ u. with_conn u (record (w.conn) { written = total })) (erased-emit w sent))

write_result-erased :
    (fd : ℕ) (reply : ConnectReply) (w : World) (r : Status × Option ℕ)
    → erased (Events.write_result fd reply w r) ≡ ClientHandlers.write_result fd reply (erased w) r
unfolding Events.write_result ClientHandlers.write_result
write_result-erased fd reply w (ok, some n) = wrote-erased fd n w
write_result-erased fd reply w (ok, none) = refl
write_result-erased fd reply w (error, n) = reconnect_socket-erased reply _
write_result-erased fd reply w (retry, n) = refl

pub handle_writeable-erased :
    (cfg : Config) (fd : ℕ) (r : WriteReply) (w : World)
    → erased (Events.handle_writeable cfg fd r w)
      ≡ ClientHandlers.handle_writeable cfg fd r (erased w)
unfolding Events.handle_writeable ClientHandlers.handle_writeable
handle_writeable-erased cfg fd r w =
    let asked = delete_file_event fd writable ∷ create_delay_event r.delay ∷ [] in
    let v = with_conn w (begin_batch cfg r w.conn) in
    if-erased w.conn.delayed (emit w asked)
      (Events.write_result fd r.reply v (cfg.sock.write r.answer)) (erased-emit w asked)
      (write_result-erased fd r.reply v (cfg.sock.write r.answer))

-- handle_connected, once the answer of `sock.connect` is known.
connected_erased :
    (fd : ℕ) (reply : ConnectReply) (w : World) (status : Status)
    → let c = record (w.conn) { written = 0 } in
      let watch : List Call =
        parser_init
        ∷ create_file_event fd readable socket_readable
        ∷ create_file_event fd writable socket_writeable
        ∷ [] in
      erased (elim status [
        | ok ↦ emit (with_conn w c) watch
        | error ↦ (Socket.reconnect_socket reply (record w { thread = connect_error w.thread })).1
        | retry ↦ w
      ])
      ≡ (elim status [
        | ok ↦ emit (with_conn (erased w) c) watch
        | error ↦
            (ClientSocket.reconnect_socket reply
              (record (erased w) { thread = connect_error w.thread })).1
        | retry ↦ erased w
      ])
connected_erased fd reply w ok = erased-emit (with_conn w (record (w.conn) { written = 0 })) (
    parser_init
    ∷ create_file_event fd readable socket_readable
    ∷ create_file_event fd writable socket_writeable
    ∷ [])
connected_erased fd reply w error = reconnect_socket-erased reply _
connected_erased fd reply w retry = refl

pub handle_connected-erased :
    (cfg : Config) (fd : ℕ) (answer : Outcome) (reply : ConnectReply) (w : World)
    → erased (Events.handle_connected cfg fd answer reply w)
      ≡ ClientHandlers.handle_connected cfg fd answer reply (erased w)
unfolding Events.handle_connected ClientHandlers.handle_connected
handle_connected-erased cfg fd answer reply w =
    connected_erased fd reply w (cfg.sock.connect answer)
