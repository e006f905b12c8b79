-- ===== src/Client/Erased/Nulls.antt =====
-- The calls of SSL_set_options with a NULL that thread_main of src/wrk.c makes on plain connections,
-- and those of client_wrks.
use wrk_offloadenginesupport.Prelude.{
  ℕ, zero, suc, ◌+◌, ◌≡◌, refl, ap, ◌∙◌, Bool, true, false, Option, none, some, List, [], ◌∷◌, ◌++◌,
  Bytes, if◌then◌else◌, arith,
}
use wrk_offloadenginesupport.Connection.{
  World, Config, Call, ssl_set_options, create_rate_event, ae_main, ae_delete_loop, with_conn,
}
use wrk_offloadenginesupport.Connection.Events.{record_interval_ms}
use wrk_offloadenginesupport.Connection.Socket
use wrk_offloadenginesupport.Connection.Socket.{
  ConnectReply, ConnectAnswer, connected, in_progress, failed,
}
use wrk_offloadenginesupport.Connection.ThreadMain
use wrk_offloadenginesupport.Connection.ThreadMain.{Opening, new_connection}
use wrk_offloadenginesupport.Client.Socket as ClientSocket
use wrk_offloadenginesupport.Client.ThreadMain as ClientThreadMain

-- How many calls hand a NULL to SSL_set_options.
abbrev pub null_calls : List Call → ℕ
null_calls [] = 0
null_calls (ssl_set_options none ∷ cs) = suc (null_calls cs)
null_calls (ssl_set_options (some s) ∷ cs) = null_calls cs
null_calls (c ∷ cs) = null_calls cs

null_calls-append : (cs ds : List Call) → null_calls (cs ++ ds) ≡ null_calls cs + null_calls ds
null_calls-append [] ds = omega arith
null_calls-append (ssl_set_options none ∷ cs) ds = omega (arith, null_calls-append cs ds)
null_calls-append (ssl_set_options (some s) ∷ cs) ds = null_calls-append cs ds
null_calls-append (c ∷ cs) ds = null_calls-append cs ds

-- One more where `connect` has not failed at once.
abbrev attempt : ConnectAnswer → ℕ → ℕ
attempt failed n = n
attempt _ n = suc n

-- In how many of `n` rounds from `i` on `connect` does not fail at once.
abbrev pub attempts : Opening → ℕ → ℕ → ℕ
attempts o zero i = 0
attempts o (suc n) i = attempt (o.reply i).answer (attempts o n (i + 1))

connect-nulls :
    (fd : ℕ) (answer : ConnectAnswer) (b : Bool) (w : World)
    → w.conn.ssl ≡ none
    → let r : ConnectReply = record { fd = fd; answer = answer; registered = b } in
      null_calls (Socket.connect_socket r w).1.calls ≡ attempt answer (null_calls w.calls)
unfolding Socket.connect_socket Socket.register Socket.connect_failed
connect-nulls fd connected true w plain = simp (null_calls-append, plain) (omega arith)
connect-nulls fd connected false w plain = simp (null_calls-append, plain) (omega arith)
connect-nulls fd in_progress true w plain = simp (null_calls-append, plain) (omega arith)
connect-nulls fd in_progress false w plain = simp (null_calls-append, plain) (omega arith)
connect-nulls fd failed b w plain = simp (null_calls-append) (omega arith)

client_connect-nulls :
    (fd : ℕ) (answer : ConnectAnswer) (b : Bool) (w : World)
    → let r : ConnectReply = record { fd = fd; answer = answer; registered = b } in
      null_calls (ClientSocket.connect_socket r w).1.calls ≡ null_calls w.calls
unfolding ClientSocket.connect_socket ClientSocket.register ClientSocket.connect_failed
client_connect-nulls fd connected true w = simp (null_calls-append) (omega arith)
client_connect-nulls fd connected false w = simp (null_calls-append) (omega arith)
client_connect-nulls fd in_progress true w = simp (null_calls-append) (omega arith)
client_connect-nulls fd in_progress false w = simp (null_calls-append) (omega arith)
client_connect-nulls fd failed b w = simp (null_calls-append) (omega arith)

module _ (cfg : Config) (request : Bytes) (o : Opening) where
  attempt-add : (a : ConnectAnswer) (c n : ℕ) → attempt a c + n ≡ c + attempt a n
  attempt-add connected c n = omega arith
  attempt-add in_progress c n = omega arith
  attempt-add failed c n = refl

  fresh-ssl : (ssl : Option ℕ) → (new_connection cfg request ssl).ssl ≡ ssl
  unfolding new_connection
  fresh-ssl ssl = refl

  open_connections-nulls :
      (n i : ℕ) (w : World)
      → ((j : ℕ) → o.ssl j ≡ none)
      → null_calls (ThreadMain.open_connections cfg request o n i w).1.calls
        ≡ null_calls w.calls + attempts o n i
  unfolding ThreadMain.open_connections
  open_connections-nulls zero i w plain = omega arith
  open_connections-nulls (suc n) i w plain =
      let r = o.reply i in
      let w₀ = with_conn w (new_connection cfg request (o.ssl i)) in
      open_connections-nulls n (i + 1) (Socket.connect_socket r w₀).1 plain
      ∙ ap (λ c. c + attempts o n (i + 1))
          (connect-nulls r.fd r.answer r.registered w₀ (fresh-ssl (o.ssl i) ∙ plain i))
      ∙ attempt-add r.answer (null_calls w.calls) (attempts o n (i + 1))

  client_open_connections-nulls :
      (n i : ℕ) (w : World)
      → null_calls (ClientThreadMain.open_connections cfg request o n i w).1.calls
        ≡ null_calls w.calls
  unfolding ClientThreadMain.open_connections
  client_open_connections-nulls zero i w = refl
  client_open_connections-nulls (suc n) i w =
      let r = o.reply i in
      let w₀ = with_conn w (new_connection cfg request (o.ssl i)) in
      client_open_connections-nulls n (i + 1) (ClientSocket.connect_socket r w₀).1
      ∙ client_connect-nulls r.fd r.answer r.registered w₀

-- Where the connections are plain, so that their `ssl` is NULL, thread_main calls SSL_set_options with
-- a NULL exactly once for each of them whose `connect` does not fail at once; that of client_wrks
-- makes no such call.
pub thread_main-null_calls :
    (cfg : Config) (request : Bytes) (o : Opening) (now : ℕ) (w : World)
    → ((j : ℕ) → o.ssl j ≡ none)
    → (null_calls (ThreadMain.thread_main cfg request o now w).1.calls
        ≡ null_calls w.calls + attempts o w.thread.connections 0)
      × (null_calls (ClientThreadMain.thread_main cfg request o now w).1.calls ≡ null_calls w.calls)
unfolding ThreadMain.thread_main ClientThreadMain.thread_main
thread_main-null_calls cfg request o now w plain =
    let first = if cfg.dynamic then [] else request in
    let n = w.thread.connections in
    (
      ends (ThreadMain.open_connections cfg first o n 0 w).1
          ∙ open_connections-nulls cfg first o n 0 w plain,
      ends (ClientThreadMain.open_connections cfg first o n 0 w).1
          ∙ client_open_connections-nulls cfg first o n 0 w,
    )
  where
    ends :
        (v : World)
        → null_calls (
            (v.calls ++ create_rate_event record_interval_ms ∷ []) ++ ae_main ∷ ae_delete_loop ∷ [])
          ≡ null_calls v.calls
    ends v =
        null_calls-append (v.calls ++ create_rate_event record_interval_ms ∷ []) _
        ∙ omega (arith, null_calls-append v.calls (create_rate_event record_interval_ms ∷ []))
