-- ===== src/Connection/Events/Reading.antt =====
-- socket_readable of src/wrk.c: the bytes and the read errors that its loop counts.
use wrk_offloadenginesupport.Prelude.{
  ℕ, ◌+◌, ◌%◌, ◌≡◌, ◌<◌, ◌≢◌, refl, ap, ◌∙◌, Bool, true, false, not, ◌&&◌, Option, some, List, [],
  ◌∷◌, u64, arith, ltb, if◌then◌else◌, ◌==◌, ◌⊎◌,
}
use wrk_offloadenginesupport.Net.{ok, error, retry}
use wrk_offloadenginesupport.Connection.{
  World, Config, Thread, inc32, status_error, timeout_error, read_error,
}
use wrk_offloadenginesupport.Connection.Socket.{ConnectReply}
use wrk_offloadenginesupport.Connection.Socket.Reconnect.{reconnect_socket-thread}
use wrk_offloadenginesupport.Connection.Callbacks.{
  Completion, count_response, hand_over, finish_batch, response_complete,
}
use wrk_offloadenginesupport.Connection.Callbacks.Complete.{hand_over-same}
use wrk_offloadenginesupport.Connection.Events.{
  recvbuf, ParserEvent, on_header_field, on_header_value, on_body, on_message_complete, ReadRound,
  parser_event, parser_events, read_result, read_failed, count_bytes, handle_readable,
}
use wrk_offloadenginesupport.Connection.Events.Writing.{total}

-- The two counters that only the loop itself changes.
pub record Same (w w' : World) : Type 0 where
  pub bytes : w'.thread.bytes ≡ w.thread.bytes
  pub read : w'.thread.errors.read ≡ w.thread.errors.read

then-Same : (w v u : World) → Same w v → Same v u → Same w u
then-Same w v u a b = record { bytes = b.bytes ∙ a.bytes; read = b.read ∙ a.read }

count_response-Same : (k : Completion) (w : World) → Same w (count_response k w)
unfolding count_response status_error
count_response-Same k w = record { bytes = ground arith; read = ground arith }

hand_over-Same : (k : Completion) (w : World) → Same w (hand_over k w)
hand_over-Same k w =
    let e : (hand_over k w).thread ≡ w.thread = (hand_over-same k w).0 in
    record { bytes = ap (λ (t : Thread). t.bytes) e; read = ap (λ (t : Thread). t.errors.read) e }

finish_batch-Same : (cfg : Config) (k : Completion) (w : World) → Same w (finish_batch cfg k w)
unfolding finish_batch timeout_error
finish_batch-Same cfg k w = record { bytes = ground arith; read = ground arith }

either-Same : (b : Bool) (w u v : World) → Same w u → Same w v → Same w (if b then u else v)
either-Same true w u v p q = p
either-Same false w u v p q = q

pub response_complete-Same :
    (cfg : Config) (k : Completion) (w : World) → Same w (response_complete cfg k w)
unfolding response_complete
response_complete-Same cfg k w =
    let a : World = count_response k w in
    let b : World = hand_over k a in
    let c : World = finish_batch cfg k b in
    let upto : Same w c =
      then-Same w a c (count_response-Same k w)
        (then-Same a b c (hand_over-Same k a) (finish_batch-Same cfg k b)) in
    let r = reconnect_socket-thread k.reply c in
    either-Same k.keep_alive w _ _ (record { bytes = upto.bytes; read = upto.read })
      (record { bytes = r.0 ∙ upto.bytes; read = r.1 ∙ upto.read })

-- What a read that goes well is: all of its bytes are parsed, and no bytes at all only where the end
-- of the connection may end the message.
abbrev pub Clean : Config → ReadRound → ℕ → Type 0
Clean cfg r n =
    (cfg.sock.read r.answer ≡ (ok, some n)) × (r.parsed ≡ n) × ((n ≢ 0) ⊎ (r.final ≡ true))

-- The loop goes on: the read filled the buffer, and more is waiting.
abbrev pub goes_on : Config → ReadRound → ℕ → Bool
goes_on cfg r n = (n == recvbuf) && ltb 0 (cfg.sock.readable r.more)

-- The three ways for a read to fail.
pub data Broken (cfg : Config) (r : ReadRound) : Type 0 where
  refused : (n : Option ℕ) → cfg.sock.read r.answer ≡ (error, n) → Broken cfg r
  unparsed : (n : ℕ) → cfg.sock.read r.answer ≡ (ok, some n) → r.parsed ≢ n → Broken cfg r
  cut_short : cfg.sock.read r.answer ≡ (ok, some 0) → r.parsed ≡ 0 → r.final ≡ false → Broken cfg r

-- A run of the loop: the sizes of its clean reads, and whether a read failed at its end.
pub data Reads (cfg : Config) : List ReadRound → List ℕ → Bool → Type 0 where
  drained :
      {r : ReadRound} {n : ℕ}
      → Clean cfg r n
      → goes_on cfg r n ≡ false
      → Reads cfg (r ∷ []) (n ∷ []) false
  blocked :
      {r : ReadRound} {n : Option ℕ}
      → cfg.sock.read r.answer ≡ (retry, n)
      → Reads cfg (r ∷ []) [] false
  broken : {r : ReadRound} → Broken cfg r → Reads cfg (r ∷ []) [] true
  next :
      {r : ReadRound} {rs : List ReadRound} {n : ℕ} {ns : List ℕ} {b : Bool}
      → Clean cfg r n
      → goes_on cfg r n ≡ true
      → Reads cfg rs ns b
      → Reads cfg (r ∷ rs) (n ∷ ns) b

module _ (junk : ℕ → ℕ) where
  parser_event-Same :
      (cfg : Config) (e : ParserEvent) (w : World) → Same w (parser_event junk cfg e w)
  unfolding parser_event
  parser_event-Same cfg (on_header_field at) w =
      either-Same cfg.want_response w _ w (record { bytes = refl; read = refl })
        (record { bytes = refl; read = refl })
  parser_event-Same cfg (on_header_value at) w =
      either-Same cfg.want_response w _ w (record { bytes = refl; read = refl })
        (record { bytes = refl; read = refl })
  parser_event-Same cfg (on_body at) w =
      either-Same cfg.want_response w _ w (record { bytes = refl; read = refl })
        (record { bytes = refl; read = refl })
  parser_event-Same cfg (on_message_complete k) w = response_complete-Same cfg k w

  parser_events-Same :
      (cfg : Config) (es : List ParserEvent) (w : World) → Same w (parser_events junk cfg es w)
  unfolding parser_events
  parser_events-Same cfg [] w = record { bytes = refl; read = refl }
  parser_events-Same cfg (e ∷ es) w =
      let v : World = parser_event junk cfg e w in
      then-Same w v _ (parser_event-Same cfg e w) (parser_events-Same cfg es v)

  -- What a run leaves in the two counters.
  pub record Tallied (ns : List ℕ) (b : Bool) (w w' : World) : Type 0 where
    pub bytes : w'.thread.bytes ≡ (w.thread.bytes + total ns) % u64
    pub read :
        w'.thread.errors.read ≡ (if b then inc32 w.thread.errors.read else w.thread.errors.read)

  round-Clean :
      (cfg : Config) (reply : ConnectReply) (r : ReadRound) (n : ℕ) (w : World)
      → Clean cfg r n
      → read_result junk cfg reply r w (cfg.sock.read r.answer)
        ≡ (count_bytes junk n (parser_events junk cfg r.events w), goes_on cfg r n)
  unfolding read_result
  round-Clean cfg reply r n w (answer, parsed, full) =
      let t : not (r.parsed == n) ≡ false = ground arith in
      let u : ((n == 0) && not r.final) ≡ false = ground (arith, full) in rw (answer, t, u) refl

  step :
      (cfg : Config) (reply : ConnectReply) (r : ReadRound) (rs : List ReadRound) (w v : World)
      (b : Bool)
      → read_result junk cfg reply r w (cfg.sock.read r.answer) ≡ (v, b)
      → handle_readable junk cfg reply (r ∷ rs) w
        ≡ (if b then handle_readable junk cfg reply rs v else some v)
  unfolding handle_readable
  step cfg reply r rs w v b e =
      ap (λ (o : World × Bool). if o.1 then handle_readable junk cfg reply rs o.0 else some o.0) e

  failed-Tallied :
      (reply : ConnectReply) (w v : World)
      → Same w v
      → w.thread.bytes < u64
      → Tallied [] true w (read_failed junk reply v)
  unfolding read_failed read_error
  failed-Tallied reply w v s small =
      let r = reconnect_socket-thread reply (record v { thread = read_error v.thread }) in
      record { bytes = omega (arith, r.0, s.bytes); read = r.1 ∙ ap inc32 s.read }

  round-blocked :
      (cfg : Config) (reply : ConnectReply) (r : ReadRound) (n : Option ℕ) (w : World)
      → cfg.sock.read r.answer ≡ (retry, n)
      → read_result junk cfg reply r w (cfg.sock.read r.answer) ≡ (w, false)
  unfolding read_result
  round-blocked cfg reply r n w e = ap (read_result junk cfg reply r w) e

  round-Broken :
      (cfg : Config) (reply : ConnectReply) (r : ReadRound) (w : World)
      → Broken cfg r
      → (v : World) × Same w v
        × (read_result junk cfg reply r w (cfg.sock.read r.answer)
            ≡ (read_failed junk reply v, false))
  unfolding read_result
  round-Broken cfg reply r w (refused n e) =
      (w, record { bytes = refl; read = refl }, ap (read_result junk cfg reply r w) e)
  round-Broken cfg reply r w (unparsed n e ne) =
      let t : not (r.parsed == n) ≡ true = ground arith in
      (parser_events junk cfg r.events w, parser_events-Same cfg r.events w, rw (e, t) refl)
  round-Broken cfg reply r w (cut_short e p f) =
      let t : not (r.parsed == 0) ≡ false = ground arith in
      (parser_events junk cfg r.events w, parser_events-Same cfg r.events w, rw (e, t, f) refl)

  counted-Tallied :
      (n : ℕ) (w v : World) → Same w v → Tallied (n ∷ []) false w (count_bytes junk n v)
  unfolding count_bytes
  counted-Tallied n w v s = record { bytes = omega (arith, s.bytes); read = s.read }

  then-Tallied :
      (n : ℕ) (ns : List ℕ) (b : Bool) (w v u : World)
      → Tallied (n ∷ []) false w v
      → Tallied ns b v u
      → Tallied (n ∷ ns) b w u
  then-Tallied n ns b w v u p q = record {
    bytes = omega (arith, p.bytes, q.bytes);
    read = q.read ∙ ap (λ (k : ℕ). if b then inc32 k else k) p.read;
  }

  -- The loop of socket_readable ends on every run: from a byte counter below 2^64 it has counted the
  -- bytes of each clean read once, modulo 2^64, whatever the parser's events and the responses in them
  -- did, and one read error exactly if the run ended with a failed read; a read that would block ends
  -- the loop without an error.
  pub handle_readable-Tallied :
      (cfg : Config) (reply : ConnectReply) (rs : List ReadRound) (ns : List ℕ) (b : Bool)
      (w : World)
      → Reads cfg rs ns b
      → w.thread.bytes < u64
      → (w' : World) × (handle_readable junk cfg reply rs w ≡ some w') × Tallied ns b w w'
  handle_readable-Tallied cfg reply _ _ _ w (drained {r} {n} c stop) small =
      let v : World = parser_events junk cfg r.events w in
      (
        count_bytes junk n v,
        step cfg reply r [] w _ _ (round-Clean cfg reply r n w c) ∙ rw stop refl,
        counted-Tallied n w v (parser_events-Same cfg r.events w),
      )
  handle_readable-Tallied cfg reply _ _ _ w (blocked {r} {n} e) small = (
    w,
    step cfg reply r [] w _ _ (round-blocked cfg reply r n w e),
    record { bytes = omega arith; read = refl },
  )
  handle_readable-Tallied cfg reply _ _ _ w (broken {r} f) small =
      let (v, same, e) = round-Broken cfg reply r w f in
      (read_failed junk reply v, step cfg reply r [] w _ _ e, failed-Tallied reply w v same small)
  handle_readable-Tallied cfg reply _ _ b w (next {r} {rs} {n} {ns} c more q) small =
      let v : World = count_bytes junk n (parser_events junk cfg r.events w) in
      let t =
        counted-Tallied n w (parser_events junk cfg r.events w)
          (parser_events-Same cfg r.events w) in
      let (w', ret, rest) =
        handle_readable-Tallied cfg reply rs ns b v q (omega (arith, t.bytes)) in
      (
        w',
        step cfg reply r rs w v _ (round-Clean cfg reply r n w c) ∙ rw more ret,
        then-Tallied n ns b w v w' t rest,
      )
