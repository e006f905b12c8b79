-- ===== src/Connection/Batch/Reading.antt =====
-- socket_readable of src/wrk.c against the abstract machine of batches.
use wrk_offloadenginesupport.Prelude.{
  Bytes, ℕ, ◌≡◌, refl, ap, sym, ◌∙◌, Bool, true, false, not, ◌&&◌, Option, none, some, List, [],
  ◌∷◌, ◌++◌, arith, if◌then◌else◌, ◌==◌, ltb,
}
use wrk_offloadenginesupport.Net.{Status, ok, error, retry}
use wrk_offloadenginesupport.Connection.{World, Config, with_conn, read_error}
use wrk_offloadenginesupport.Connection.Socket.{ConnectReply}
use wrk_offloadenginesupport.Connection.Callbacks.{
  Completion, header_field, header_value, response_body,
}
use wrk_offloadenginesupport.Connection.Events.{
  recvbuf, ParserEvent, on_header_field, on_header_value, on_body, on_message_complete, ReadRound,
  parser_event, parser_events, read_result, read_failed, count_bytes, handle_readable,
}
use wrk_offloadenginesupport.Connection.Batch.{
  either-batch, Batch, batch_of, respond, respond_all, reconnect_socket-batch,
  response_complete-respond,
}

-- The responses that are complete among the events.
abbrev pub messages : List ParserEvent → List Completion
messages [] = []
messages (on_message_complete k ∷ es) = k ∷ messages es
messages (_ ∷ es) = messages es

-- Those of one pass of the loop, and whether another follows: the read went well and filled the
-- buffer, all of it was parsed, and more is waiting.
abbrev pub heard_in : ReadRound → Status × Option ℕ → List Completion
heard_in r (ok, some n) = messages r.events
heard_in r _ = []

abbrev pub follows : Config → ReadRound → Status × Option ℕ → Bool
follows cfg r (ok, some n) =
    (r.parsed == n)
    && not ((n == 0) && not r.final)
    && ((n == recvbuf) && ltb 0 (cfg.sock.readable r.more))
follows cfg r _ = false

-- The responses of a run of the loop.
abbrev pub heard : Config → List ReadRound → List Completion
heard cfg [] = []
heard cfg (r ∷ rs) =
    let rest = heard cfg rs in
    heard_in r (cfg.sock.read r.answer)
    ++ (if follows cfg r (cfg.sock.read r.answer) then rest else [])

respond-append :
    (ks ls : List Completion) (b : Batch)
    → respond_all (ks ++ ls) b ≡ respond_all ls (respond_all ks b)
respond-append [] ls b = refl
respond-append (k ∷ ks) ls b = respond-append ks ls (respond k b)

module _ (junk : ℕ → ℕ) (cfg : Config) where
  field-batch :
      (w : World) (at : Bytes) → batch_of (with_conn w (header_field junk at w.conn)) ≡ batch_of w
  unfolding header_field
  field-batch w at = ground arith

  value-batch :
      (w : World) (at : Bytes) → batch_of (with_conn w (header_value junk at w.conn)) ≡ batch_of w
  unfolding header_value
  value-batch w at = ground arith

  body-batch :
      (w : World) (at : Bytes) → batch_of (with_conn w (response_body junk at w.conn)) ≡ batch_of w
  unfolding response_body
  body-batch w at = refl

  parser_event-respond :
      (e : ParserEvent) (w : World)
      → batch_of (parser_event junk cfg e w) ≡ respond_all (messages (e ∷ [])) (batch_of w)
  unfolding parser_event
  parser_event-respond (on_message_complete k) w = response_complete-respond cfg k w
  parser_event-respond (on_header_field at) w =
      either-batch cfg.want_response (with_conn w (header_field junk at w.conn)) w _
        (field-batch w at) refl
  parser_event-respond (on_header_value at) w =
      either-batch cfg.want_response (with_conn w (header_value junk at w.conn)) w _
        (value-batch w at) refl
  parser_event-respond (on_body at) w =
      either-batch cfg.want_response (with_conn w (response_body junk at w.conn)) w _
        (body-batch w at) refl

  messages-cons :
      (e : ParserEvent) (es : List ParserEvent)
      → messages (e ∷ es) ≡ messages (e ∷ []) ++ messages es
  messages-cons (on_message_complete k) es = refl
  messages-cons (on_header_field at) es = refl
  messages-cons (on_header_value at) es = refl
  messages-cons (on_body at) es = refl

  parser_events-respond :
      (es : List ParserEvent) (w : World)
      → batch_of (parser_events junk cfg es w) ≡ respond_all (messages es) (batch_of w)
  unfolding parser_events
  parser_events-respond [] w = refl
  parser_events-respond (e ∷ es) w =
      parser_events-respond es (parser_event junk cfg e w)
      ∙ ap (respond_all (messages es)) (parser_event-respond e w)
      ∙ sym (respond-append (messages (e ∷ [])) (messages es) (batch_of w))
      ∙ ap (λ ks. respond_all ks (batch_of w)) (sym (messages-cons e es))

  -- What a pass leaves, and whether the loop goes on.
  abbrev Passed : List Completion → Bool → World → World × Bool → Type 0
  Passed ks again w (v, b) = (batch_of v ≡ respond_all ks (batch_of w)) × (b ≡ again)

  failed-batch : (c : ConnectReply) (w : World) → batch_of (read_failed junk c w) ≡ batch_of w
  unfolding read_failed read_error
  failed-batch c w = reconnect_socket-batch c (record w { thread = read_error w.thread })

  counted-batch : (n : ℕ) (w : World) → batch_of (count_bytes junk n w) ≡ batch_of w
  unfolding count_bytes
  counted-batch n w = refl

  checked :
      (parsed short more : Bool) (ks : List Completion) (w u c : World)
      → batch_of u ≡ respond_all ks (batch_of w)
      → batch_of c ≡ respond_all ks (batch_of w)
      → Passed ks
          (parsed && not short && more)
          w
          (if not parsed then (u, false) else if short then (u, false) else (c, more))
  checked false short more ks w u c p q = (p, refl)
  checked true true more ks w u c p q = (p, refl)
  checked true false more ks w u c p q = (q, refl)

  read_result-Passed :
      (c : ConnectReply) (r : ReadRound) (w : World) (s : Status) (n : Option ℕ)
      → Passed (heard_in r (s, n)) (follows cfg r (s, n)) w (read_result junk cfg c r w (s, n))
  unfolding read_result
  read_result-Passed c r w ok (some n) =
      let v : World = parser_events junk cfg r.events w in
      let e = parser_events-respond r.events w in
      checked (r.parsed == n) ((n == 0) && not r.final)
        ((n == recvbuf) && ltb 0 (cfg.sock.readable r.more)) (messages r.events) w
        (read_failed junk c v) (count_bytes junk n v) (failed-batch c v ∙ e) (counted-batch n v ∙ e)
  read_result-Passed c r w ok none = (refl, refl)
  read_result-Passed c r w error n = (failed-batch c w, refl)
  read_result-Passed c r w retry n = (refl, refl)

  after_pass :
      (c : ConnectReply) (rs : List ReadRound) (ks : List Completion) (v w w' : World)
      (b again : Bool)
      → Passed ks again w (v, b)
      → (if b then handle_readable junk cfg c rs v else some v) ≡ some w'
      → (handle_readable junk cfg c rs v ≡ some w'
          → batch_of w' ≡ respond_all (heard cfg rs) (batch_of v))
      → batch_of w' ≡ respond_all (ks ++ (if again then heard cfg rs else [])) (batch_of w)
  after_pass c rs ks v w w' true true (p, q) done rest =
      rest done
      ∙ ap (respond_all (heard cfg rs)) p
      ∙ sym (respond-append ks (heard cfg rs) (batch_of w))
  after_pass c rs ks v w w' false false (p, q) done rest =
      let e : v ≡ w' = cc in ap batch_of (sym e) ∙ p ∙ sym (respond-append ks [] (batch_of w))
  after_pass c rs ks v w w' true false (p, q) done rest = cc
  after_pass c rs ks v w w' false true (p, q) done rest = cc

  -- However the reads turn out, the loop of socket_readable does to the batch of its connection
  -- what the abstract machine does for the responses that are complete in the reads, and nothing
  -- else: headers, bodies, read errors and new connections leave it alone. The responses are those
  -- of every pass up to the last, which is the first that fails, would block, leaves room in the
  -- buffer or has nothing more waiting.
  pub handle_readable-respond :
      (c : ConnectReply) (rs : List ReadRound) (w w' : World)
      → handle_readable junk cfg c rs w ≡ some w'
      → batch_of w' ≡ respond_all (heard cfg rs) (batch_of w)
  unfolding handle_readable
  handle_readable-respond c [] w w' done = cc
  handle_readable-respond c (r ∷ rs) w w' done =
      let (v, b) = read_result junk cfg c r w (cfg.sock.read r.answer) in
      after_pass c rs (heard_in r (cfg.sock.read r.answer)) v w w' b
        (follows cfg r (cfg.sock.read r.answer))
        (read_result-Passed c r w (cfg.sock.read r.answer).0 (cfg.sock.read r.answer).1) done
        (handle_readable-respond c rs v w')
