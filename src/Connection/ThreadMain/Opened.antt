-- ===== src/Connection/ThreadMain/Opened.antt =====
-- src/wrk.c: the connections that thread_main has opened, and the errors it has counted.
use wrk_offloadenginesupport.Prelude.{
  ℕ, zero, suc, ◌+◌, ◌%◌, ◌<◌, ◌≡◌, refl, ◌∙◌, ap, ap₂, sym, subst, Bool, true, false, Option, List,
  [], ◌∷◌, Bytes, if◌then◌else◌, u32, arith,
}
use wrk_offloadenginesupport.Connection.{
  field, World, Config, Connection, Thread, with_conn, connect_error,
}
use wrk_offloadenginesupport.Buffers.{no_buffer}
use wrk_offloadenginesupport.Connection.Socket.{ConnectReply, connect_socket}
use wrk_offloadenginesupport.Connection.Socket.Reconnect.{
  gets_under_way, Reconnected, connect_socket-Reconnected,
}
use wrk_offloadenginesupport.Connection.ThreadMain.{
  Opening, new_connection, open_connections, thread_main,
}

-- The connections: each has the common request, its own `ssl`, and the descriptor of its socket, or 0
-- where it is not under way; all else is zero.
abbrev pub expected : Config → Bytes → Opening → ℕ → ℕ → List Connection
expected cfg request o zero i = []
expected cfg request o (suc n) i =
    (record {
      state = field;
      fd = if gets_under_way (o.reply i) then (o.reply i).fd else 0;
      ssl = o.ssl i;
      delayed = cfg.delay;
      start = 0;
      request = request;
      written = 0;
      pending = 0;
      headers = no_buffer;
      body = no_buffer;
    })
    ∷ expected cfg request o n (i + 1)

abbrev pub failures : Opening → ℕ → ℕ → ℕ
failures o zero i = 0
failures o (suc n) i =
    let rest = failures o n (i + 1) in if gets_under_way (o.reply i) then rest else suc rest

connect_error-connect :
    (t : Thread) → (connect_error t).errors.connect ≡ (t.errors.connect + 1) % u32
unfolding connect_error
connect_error-connect t = refl

-- The counter after one connection.
abbrev counted : Bool → ℕ → ℕ
counted b c = if b then c else (c + 1) % u32

counted-thread :
    (b : Bool) (t : Thread)
    → (if b then t else connect_error t).errors.connect ≡ counted b t.errors.connect
counted-thread true t = refl
counted-thread false t = connect_error-connect t

counted-lt : (b : Bool) (c : ℕ) → c < u32 → counted b c < u32
counted-lt true c h = h
counted-lt false c h = omega arith

counted-add :
    (b : Bool) (c rest : ℕ)
    → (counted b c + rest) % u32 ≡ (c + (if b then rest else suc rest)) % u32
counted-add true c rest = refl
counted-add false c rest = omega arith

one_opened :
    (b : Bool) (r : ConnectReply) (w : World) (p : Option ℕ × World)
    → Reconnected b r w p
    → (p.1.conn ≡ (record (w.conn) { fd = if b then r.fd else w.conn.fd }))
      × (p.1.thread ≡ (if b then w.thread else connect_error w.thread))
one_opened true r w (ret, w') (a, c, t, d) = (c, t)
one_opened false r w (ret, w') (a, c, t, d) = (c, t)

module _ (cfg : Config) (request : Bytes) (o : Opening) where
  open_connections-expected :
      (n i : ℕ) (w : World) → (open_connections cfg request o n i w).0 ≡ expected cfg request o n i
  unfolding open_connections new_connection
  open_connections-expected zero i w = refl
  open_connections-expected (suc n) i w =
      let r = o.reply i in
      let w₀ = with_conn w (new_connection cfg request (o.ssl i)) in
      let w₁ = (connect_socket r w₀).1 in
      ap₂ (λ c cs. c ∷ cs)
        ((one_opened (gets_under_way r) r w₀ (connect_socket r w₀)
          (connect_socket-Reconnected r w₀)).0)
        (open_connections-expected n (i + 1) w₁)

  opened-errors :
      (i : ℕ) (w : World)
      → (connect_socket
          (o.reply i)
          (with_conn w (new_connection cfg request (o.ssl i)))).1.thread.errors.connect
        ≡ counted (gets_under_way (o.reply i)) w.thread.errors.connect
  opened-errors i w =
      let r = o.reply i in
      let w₀ = with_conn w (new_connection cfg request (o.ssl i)) in
      ap (λ t. t.errors.connect)
        ((one_opened (gets_under_way r) r w₀ (connect_socket r w₀)
          (connect_socket-Reconnected r w₀)).1)
      ∙ counted-thread (gets_under_way r) w.thread

  open_connections-errors :
      (n i : ℕ) (w : World)
      → w.thread.errors.connect < u32
      → (open_connections cfg request o n i w).1.thread.errors.connect
        ≡ (w.thread.errors.connect + failures o n i) % u32
  unfolding open_connections
  open_connections-errors zero i w small = omega arith
  open_connections-errors (suc n) i w small =
      let b = gets_under_way (o.reply i) in
      let w₁ =
        (connect_socket (o.reply i) (with_conn w (new_connection cfg request (o.ssl i)))).1 in
      let e = opened-errors i w in
      open_connections-errors n (i + 1) w₁
        (subst (λ c. c < u32) (sym e) (counted-lt b w.thread.errors.connect small))
      ∙ ap (λ c. (c + failures o n (i + 1)) % u32) e
      ∙ counted-add b w.thread.errors.connect (failures o n (i + 1))

-- A thread starts with `thread->connections` connections: each with the common request (empty where
-- requests are dynamic), its own `ssl`, `delayed` where the script has a delay, and the descriptor
-- of its socket, or 0 where the socket has failed to connect or could not be watched. Each failure
-- is counted, modulo 2^32, from below 2^32.
pub thread_main-Opened :
    (cfg : Config) (request : Bytes) (o : Opening) (now : ℕ) (w : World)
    → w.thread.errors.connect < u32
    → ((thread_main cfg request o now w).0
        ≡ expected cfg (if cfg.dynamic then [] else request) o w.thread.connections 0)
      × ((thread_main cfg request o now w).1.thread.errors.connect
          ≡ (w.thread.errors.connect + failures o w.thread.connections 0) % u32)
unfolding thread_main
thread_main-Opened cfg request o now w small =
    let first = if cfg.dynamic then [] else request in
    (
      open_connections-expected cfg first o w.thread.connections 0 w,
      open_connections-errors cfg first o w.thread.connections 0 w small,
    )
