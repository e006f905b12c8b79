-- ===== src/Connection/Batch/Exchange.antt =====
-- A whole exchange on a connection of src/wrk.c: socket_writeable sends a batch of requests, and
-- socket_readable reads its responses.
use wrk_offloadenginesupport.Prelude.{
  ℕ, suc, ◌+◌, ◌-◌, ◌%◌, ◌<◌, ◌≡◌, refl, ap, ap₂, sym, subst, ◌∙◌, Bool, true, false, Option, none,
  some, List, [], ◌∷◌, ◌++◌, u64, arith, if◌then◌else◌, ◌==◌, length,
}
use wrk_offloadenginesupport.Stats.{Stats, stats_record}
use wrk_offloadenginesupport.Net.{Status, ok, error, retry}
use wrk_offloadenginesupport.Connection.{World, Config, with_conn, write_error}
use wrk_offloadenginesupport.Connection.Socket.{ConnectReply}
use wrk_offloadenginesupport.Connection.Callbacks.{Completion}
use wrk_offloadenginesupport.Connection.Events.{
  WriteReply, ReadRound, begin_batch, wrote, write_result, handle_writeable, handle_readable,
}
use wrk_offloadenginesupport.Connection.Events.Progress.{sent}
use wrk_offloadenginesupport.Connection.Events.Writing.{
  Sends, total, write_all, first_request, request_sent,
}
use wrk_offloadenginesupport.Connection.Batch.{
  Batch, batch_of, respond, respond_all, reconnect_socket-batch,
}
use wrk_offloadenginesupport.Connection.Batch.Reading.{heard, handle_readable-respond}

-- The batch after all responses that were due, of which `k` is the last of `n`.
pub record Answered (k : Completion) (n : ℕ) (b out : Batch) : Type 0 where
  pub due : out.due ≡ 0
  pub written : out.written ≡ b.written
  pub latency : out.latency ≡ (stats_record b.latency ((k.now + u64 - b.start) % u64)).1
  pub complete : out.complete ≡ (b.complete + n) % u64

respond_all-Answered :
    (ks : List Completion) (k : Completion) (b : Batch)
    → b.due ≡ suc (length ks)
    → suc (length ks) < u64
    → b.complete < u64
    → Answered k (suc (length ks)) b (respond_all (ks ++ k ∷ []) b)
respond_all-Answered [] k b due room small =
    let t : ((b.due + u64 - 1) % u64 == 0) ≡ true = ground arith in
    record { due = omega arith; written = refl; latency = rw t; complete = refl }
respond_all-Answered (j ∷ ks) k b due room small =
    let t : ((b.due + u64 - 1) % u64 == 0) ≡ false = ground arith in
    let a = respond_all-Answered ks k (respond j b) (omega arith) (omega arith) (omega arith) in
    record {
      due = a.due;
      written = a.written;
      latency =
          a.latency ∙ ap (λ (l : Stats). (stats_record l ((k.now + u64 - b.start) % u64)).1) (rw t);
      complete = omega (arith, a.complete);
    }

-- Writing neither times nor completes a request.
abbrev Untimed : World → World → Type 0
Untimed w v = (v.latency ≡ w.latency) × (v.thread.complete ≡ w.thread.complete)

wrote-Untimed : (fd n : ℕ) (w : World) → Untimed w (wrote fd n w)
unfolding wrote
wrote-Untimed fd n w = ground arith

write_result-Untimed :
    (fd : ℕ) (c : ConnectReply) (w : World) (s : Status) (n : Option ℕ)
    → Untimed w (write_result fd c w (s, n))
unfolding write_result write_error
write_result-Untimed fd c w ok (some n) = wrote-Untimed fd n w
write_result-Untimed fd c w ok none = (refl, refl)
write_result-Untimed fd c w error n =
    let e = reconnect_socket-batch c (record w { thread = write_error w.thread }) in
    (ap (λ (b : Batch). b.latency) e, ap (λ (b : Batch). b.complete) e)
write_result-Untimed fd c w retry n = (refl, refl)

either-Untimed :
    (c : Bool) (w u v : World) → Untimed w u → Untimed w v → Untimed w (if c then u else v)
either-Untimed true w u v p q = p
either-Untimed false w u v p q = q

handle_writeable-Untimed :
    (cfg : Config) (fd : ℕ) (r : WriteReply) (w : World) → Untimed w (handle_writeable cfg fd r w)
unfolding handle_writeable
handle_writeable-Untimed cfg fd r w =
    either-Untimed w.conn.delayed w _ _ (refl, refl)
      (write_result-Untimed fd r.reply (with_conn w (begin_batch cfg r w.conn))
        (cfg.sock.write r.answer).0 (cfg.sock.write r.answer).1)

write_all-Untimed :
    (cfg : Config) (fd : ℕ) (rs : List WriteReply) (w : World) → Untimed w (write_all cfg fd rs w)
unfolding write_all
write_all-Untimed cfg fd [] w = (refl, refl)
write_all-Untimed cfg fd (r ∷ rs) w =
    let (l, c) = handle_writeable-Untimed cfg fd r w in
    let (l', c') = write_all-Untimed cfg fd rs (handle_writeable cfg fd r w) in (l' ∙ l, c' ∙ c)

-- A batch of requests and its responses, on an idle connection that is not delayed: when the writes
-- have sent the request, each at least one byte (fewer than 2^64 in all), and the reads have
-- completed as many responses as the pipeline has requests (fewer than 2^64), whatever else they
-- carried, then the bytes sent are the request; the completed requests have grown by those
-- responses modulo 2^64; the time from the first write to the last response is the one latency that
-- is recorded; and the connection is idle again: none is due and nothing counts as written.
pub exchange :
    (junk : ℕ → ℕ) (cfg : Config) (fd : ℕ) (r : WriteReply) (rs : List WriteReply) (ns : List ℕ)
    (c : ConnectReply) (reads : List ReadRound) (ks : List Completion) (k : Completion)
    (w w' : World)
    → Sends cfg (r ∷ rs) ns
    → w.conn.delayed ≡ false
    → w.conn.written ≡ 0
    → total ns ≡ length (first_request cfg r w.conn)
    → length (first_request cfg r w.conn) < u64
    → handle_readable junk cfg c reads (write_all cfg fd (r ∷ rs) w) ≡ some w'
    → heard cfg reads ≡ ks ++ k ∷ []
    → cfg.pipeline ≡ suc (length ks)
    → suc (length ks) < u64
    → w.thread.complete < u64
    → (sent (write_all cfg fd (r ∷ rs) w).calls ≡ sent w.calls ++ first_request cfg r w.conn)
      × (w'.thread.complete ≡ (w.thread.complete + cfg.pipeline) % u64)
      × (w'.latency ≡ (stats_record w.latency ((k.now + u64 - r.now) % u64)).1)
      × (w'.conn.pending ≡ 0)
      × (w'.conn.written ≡ 0)
exchange junk cfg fd r rs ns c reads ks k w w' sends d idle whole room done answers full few small =
    let v = write_all cfg fd (r ∷ rs) w in
    let (bytes, written, start, due) = request_sent cfg fd r rs ns w sends d idle whole room in
    let (latency, complete) = write_all-Untimed cfg fd (r ∷ rs) w in
    let e : batch_of w' ≡ respond_all (ks ++ k ∷ []) (batch_of v) =
      handle_readable-respond junk cfg c reads v w' done
      ∙ ap (λ l. respond_all l (batch_of v)) answers in
    let a =
      respond_all-Answered ks k (batch_of v) (due ∙ full) few
        (subst (λ m. m < u64) (sym complete) small) in
    (
      bytes,
      ap (λ (b : Batch). b.complete) e ∙ a.complete ∙ omega (arith, complete, full),
      ap (λ (b : Batch). b.latency) e
          ∙ a.latency
          ∙ ap₂ (λ (l : Stats) t. (stats_record l ((k.now + u64 - t) % u64)).1) latency start,
      ap (λ (b : Batch). b.due) e ∙ a.due,
      ap (λ (b : Batch). b.written) e ∙ a.written ∙ written,
    )
