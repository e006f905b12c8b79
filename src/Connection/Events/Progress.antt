-- ===== src/Connection/Events/Progress.antt =====
-- socket_writeable of src/wrk.c: one write, and the bytes that the calls have sent.
use wrk_offloadenginesupport.Prelude.{
  ℕ, ◌+◌, ◌%◌, ◌≤◌, ◌<◌, ◌≡◌, refl, ap, sym, ◌∙◌, List, [], ◌∷◌, ◌++◌, append_assoc, append-nil,
  u64, Bytes, length, arith, if◌then◌else◌, ◌==◌, take, drop, Bool-cases, inl, inr,
}
use wrk_offloadenginesupport.Connection.{World, Call, delete_file_event, send, writable}
use wrk_offloadenginesupport.Connection.Events.{wrote}

-- The bytes that the calls have sent, in order.
abbrev pub sent : List Call → Bytes
sent [] = []
sent (send s ∷ cs) = s ++ sent cs
sent (_ ∷ cs) = sent cs

sent-append : (cs ds : List Call) → sent (cs ++ ds) ≡ sent cs ++ sent ds
sent-append [] ds = refl
sent-append (send s ∷ cs) ds =
    ap (◌++◌ s) (sent-append cs ds) ∙ sym (append_assoc s (sent cs) (sent ds))
sent-append (_ ∷ cs) ds = sent-append cs ds

-- One successful write: `n` bytes from where the last one stopped.
pub record Progress (n : ℕ) (w w' : World) : Type 0 where
  pub bytes : sent w'.calls ≡ sent w.calls ++ take n (drop w.conn.written w.conn.request)
  pub request : w'.conn.request ≡ w.conn.request
  pub delayed : w'.conn.delayed ≡ w.conn.delayed
  pub start : w'.conn.start ≡ w.conn.start
  pub pending : w'.conn.pending ≡ w.conn.pending
  pub written :
      w'.conn.written
      ≡ (if w.conn.written + n == length w.conn.request then 0 else w.conn.written + n)

pub wrote-Progress :
    (fd n : ℕ) (w : World)
    → w.conn.written + n ≤ length w.conn.request
    → length w.conn.request < u64
    → Progress n w (wrote fd n w)
unfolding wrote
wrote-Progress fd n w h room =
    let t : (w.conn.written + n) % u64 ≡ w.conn.written + n = omega arith in
    elim (Bool-cases (w.conn.written + n == length w.conn.request)) [
      | inl done ↦
          rw (t, done)
            (record {
              bytes =
                  sent-append (w.calls ++ send piece ∷ []) (delete_file_event fd writable ∷ [])
                  ∙ append-nil _
                  ∙ once;
              request = refl;
              delayed = refl;
              start = refl;
              pending = refl;
              written = rw done;
            })
      | inr more ↦
          rw (t, more)
            (record {
              bytes = once;
              request = refl;
              delayed = refl;
              start = refl;
              pending = refl;
              written = rw more;
            })
    ]
  where
    piece : Bytes
    piece = take n (drop w.conn.written w.conn.request)

    once : sent (w.calls ++ send piece ∷ []) ≡ sent w.calls ++ piece
    once = sent-append w.calls (send piece ∷ []) ∙ ap (◌++◌ (sent w.calls)) (append-nil piece)
