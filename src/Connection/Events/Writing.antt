-- ===== src/Connection/Events/Writing.antt =====
-- socket_writeable of src/wrk.c: a request is sent whole, in as many writes as it takes.
use wrk_offloadenginesupport.Prelude.{
  ℕ, ◌+◌, ◌<◌, ◌≡◌, ap, ap₂, sym, subst, ◌∙◌, Bool, true, false, some, List, [], ◌∷◌, ◌++◌,
  append_assoc, u64, Bytes, length, arith, if◌then◌else◌, ◌==◌, drop, take-all, take-drop,
  length-drop,
}
use wrk_offloadenginesupport.Net.{ok}
use wrk_offloadenginesupport.Connection.{
  World, Config, Connection, delete_file_event, create_delay_event, emit, with_conn, writable,
}
use wrk_offloadenginesupport.Connection.Events.{
  WriteReply, begin_batch, wrote, handle_writeable, write_result,
}
use wrk_offloadenginesupport.Connection.Events.Progress.{sent, Progress, wrote-Progress}

-- The writes that the replies stand for: each sends at least one byte, and none is held back.
abbrev pub Sends : Config → List WriteReply → List ℕ → Type 0
Sends cfg [] [] = Unit {0}
Sends cfg [] (n ∷ ns) = ⊥
Sends cfg (r ∷ rs) [] = ⊥
Sends cfg (r ∷ rs) (n ∷ ns) = (cfg.sock.write r.answer ≡ (ok, some n)) × (0 < n) × Sends cfg rs ns

abbrev pub total : List ℕ → ℕ
total [] = 0
total (n ∷ ns) = n + total ns

-- socket_writeable, once for each reply.
unfoldable pub write_all : Config → ℕ → List WriteReply → World → World
write_all cfg fd [] w = w
write_all cfg fd (r ∷ rs) w = write_all cfg fd rs (handle_writeable cfg fd r w)

-- Where it is not delayed and the write succeeds, the handler begins a batch if it must, and writes.
handle_writeable-ok :
    (cfg : Config) (fd n : ℕ) (r : WriteReply) (w : World)
    → w.conn.delayed ≡ false
    → cfg.sock.write r.answer ≡ (ok, some n)
    → handle_writeable cfg fd r w ≡ wrote fd n (with_conn w (begin_batch cfg r w.conn))
unfolding handle_writeable write_result
handle_writeable-ok cfg fd n r w d e =
    let v : World = with_conn w (begin_batch cfg r w.conn) in
    ap₂
      (λ (b : Bool) x.
        if b
        then emit w (delete_file_event fd writable ∷ create_delay_event r.delay ∷ [])
        else write_result fd r.reply v x)
      d e

begin_batch-later :
    (cfg : Config) (r : WriteReply) (c : Connection) → 0 < c.written → begin_batch cfg r c ≡ c
unfolding begin_batch
begin_batch-later cfg r c h = let t : (c.written == 0) ≡ false = ground arith in rw t

-- The writes `rs` finish the request of which some bytes, not all, have been written.
record Ready (cfg : Config) (rs : List WriteReply) (ns : List ℕ) (w : World) : Type 0 where
  sends : Sends cfg rs ns
  undelayed : w.conn.delayed ≡ false
  begun : 0 < w.conn.written
  more : w.conn.written < length w.conn.request
  whole : w.conn.written + total ns ≡ length w.conn.request
  room : length w.conn.request < u64

-- The rest of the request has been sent, and the next batch can begin.
pub record Finished (w w' : World) : Type 0 where
  pub bytes : sent w'.calls ≡ sent w.calls ++ drop w.conn.written w.conn.request
  pub written : w'.conn.written ≡ 0
  pub start : w'.conn.start ≡ w.conn.start
  pub pending : w'.conn.pending ≡ w.conn.pending

last_write :
    (n : ℕ) (w v : World)
    → Progress n w v
    → w.conn.written + n ≡ length w.conn.request
    → Finished w v
last_write n w v p whole =
    let t : (w.conn.written + n == length w.conn.request) ≡ true = ground arith in
    record {
      bytes =
          p.bytes
          ∙ ap (◌++◌ (sent w.calls)) (
              take-all n (drop w.conn.written w.conn.request)
                (omega (arith, length-drop w.conn.written w.conn.request)));
      written = p.written ∙ rw t;
      start = p.start;
      pending = p.pending;
    }

then-Finished :
    (n : ℕ) (w v u : World)
    → Progress n w v
    → w.conn.written + n < length w.conn.request
    → Finished v u
    → Finished w u
then-Finished n w v u p more f =
    let t : (w.conn.written + n == length w.conn.request) ≡ false = ground arith in
    let at : v.conn.written ≡ w.conn.written + n = p.written ∙ rw t in
    record {
      bytes =
          f.bytes
          ∙ ap₂ ◌++◌ p.bytes (ap₂ drop at p.request)
          ∙ append_assoc (sent w.calls) _ _
          ∙ ap (◌++◌ (sent w.calls)) (take-drop n w.conn.written w.conn.request);
      written = f.written;
      start = f.start ∙ p.start;
      pending = f.pending ∙ p.pending;
    }

-- One write of a request that is under way, and the rest by `later`.
write_then :
    (cfg : Config) (fd n : ℕ) (rs : List WriteReply) (ns : List ℕ) (w v : World)
    → Progress n w v
    → 0 < n
    → Sends cfg rs ns
    → w.conn.delayed ≡ false
    → w.conn.written + (n + total ns) ≡ length w.conn.request
    → length w.conn.request < u64
    → ((u : World) → Ready cfg rs ns u → Finished u (write_all cfg fd rs u))
    → Finished w (write_all cfg fd rs v)
unfolding write_all
write_then cfg fd n [] [] w v p pos s d whole room later = last_write n w v p (omega arith)
write_then cfg fd n [] (m ∷ ns) w v p pos s d whole room later = absurd s
write_then cfg fd n (r ∷ rs) [] w v p pos s d whole room later = absurd s
write_then cfg fd n (r ∷ rs) (m ∷ ns) w v p pos s d whole room later =
    let more : w.conn.written + n < length w.conn.request = omega (arith, s.1) in
    let t : (w.conn.written + n == length w.conn.request) ≡ false = ground arith in
    let at : v.conn.written ≡ w.conn.written + n = p.written ∙ rw t in
    let same : length v.conn.request ≡ length w.conn.request = ap length p.request in
    then-Finished n w v _ p more (
      later v (record {
        sends = s;
        undelayed = p.delayed ∙ d;
        begun = omega arith;
        more = omega arith;
        whole = omega arith;
        room = omega arith;
      }))

rest_sent :
    (cfg : Config) (fd : ℕ) (rs : List WriteReply) (ns : List ℕ) (w : World)
    → Ready cfg rs ns w
    → Finished w (write_all cfg fd rs w)
unfolding write_all
rest_sent cfg fd [] [] w y = absurd (omega (arith, y.more, y.whole))
rest_sent cfg fd [] (n ∷ ns) w y = absurd y.sends
rest_sent cfg fd (r ∷ rs) [] w y = absurd y.sends
rest_sent cfg fd (r ∷ rs) (n ∷ ns) w y =
    let e : handle_writeable cfg fd r w ≡ wrote fd n w =
      handle_writeable-ok cfg fd n r w y.undelayed y.sends.0
      ∙ ap (λ c. wrote fd n (with_conn w c)) (begin_batch-later cfg r w.conn y.begun) in
    let p = wrote-Progress fd n w (omega (arith, y.whole)) y.room in
    write_then cfg fd n rs ns w (handle_writeable cfg fd r w) (subst (Progress n w) (sym e) p)
      y.sends.1 y.sends.2 y.undelayed y.whole y.room (rest_sent cfg fd rs ns)

-- The request that a batch sends: the one at hand, or the script's next if they are dynamic.
abbrev pub first_request : Config → WriteReply → Connection → Bytes
first_request cfg r c = if cfg.dynamic then r.next_request else c.request

begin_batch-first :
    (cfg : Config) (r : WriteReply) (c : Connection)
    → c.written ≡ 0
    → begin_batch cfg r c
      ≡ record c { request = first_request cfg r c; start = r.now; pending = cfg.pipeline }
unfolding begin_batch
begin_batch-first cfg r c h =
    let t : (c.written == 0) ≡ true = ground arith in
    ap
      (λ (b : Bool).
        if b
        then record c { request = first_request cfg r c; start = r.now; pending = cfg.pipeline }
        else c)
      t

-- From an idle connection whose request is not delayed, writes that each send at least one byte,
-- and together as many as the request has (fewer than 2^64), send exactly the request, in order: the
-- one at hand, or what the script gives at the first write if the requests are dynamic. The clock of
-- the batch is that of the first write, as many responses are due as the pipeline has requests, and
-- the next batch can begin.
pub request_sent :
    (cfg : Config) (fd : ℕ) (r : WriteReply) (rs : List WriteReply) (ns : List ℕ) (w : World)
    → Sends cfg (r ∷ rs) ns
    → w.conn.delayed ≡ false
    → w.conn.written ≡ 0
    → total ns ≡ length (first_request cfg r w.conn)
    → length (first_request cfg r w.conn) < u64
    → let w' = write_all cfg fd (r ∷ rs) w in
      (sent w'.calls ≡ sent w.calls ++ first_request cfg r w.conn)
      × (w'.conn.written ≡ 0)
      × (w'.conn.start ≡ r.now)
      × (w'.conn.pending ≡ cfg.pipeline)
unfolding write_all
request_sent cfg fd r rs [] w s d idle whole room = absurd s
request_sent cfg fd r rs (n ∷ ns) w s d idle whole room =
    let R : Bytes = first_request cfg r w.conn in
    let c : Connection = w.conn in
    let v : World = with_conn w (record c { request = R; start = r.now; pending = cfg.pipeline }) in
    let e : handle_writeable cfg fd r w ≡ wrote fd n v =
      handle_writeable-ok cfg fd n r w d s.0
      ∙ ap (λ x. wrote fd n (with_conn w x)) (begin_batch-first cfg r w.conn idle) in
    let p = wrote-Progress fd n v (omega arith) room in
    let f =
      write_then cfg fd n rs ns v (handle_writeable cfg fd r w) (subst (Progress n v) (sym e) p) s.1
        s.2 d (omega arith) room (rest_sent cfg fd rs ns) in
    (f.bytes ∙ ap (λ (k : ℕ). sent w.calls ++ drop k R) idle, f.written, f.start, f.pending)
