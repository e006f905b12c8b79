-- ===== src/Net.antt =====
-- src/net.h, src/net.c and the transport functions of src/ssl.c: how the answers of the system
-- calls and of OpenSSL become the three statuses on which src/wrk.c decides.
pub mod Context
mod Tests
use wrk_offloadenginesupport.Prelude.{
  ℕ, zero, suc, ◌≡◌, ◌≢◌, ◌⊎◌, ◌↔◌, Option, none, some, u64_max, arith,
}

-- `status`
pub data Status : Type 0 where
  ok error retry : Status

-- `errno` after a system call, or what SSL_get_error returns.
pub data Code : Type 0 where
  eagain want_read want_write other : Code

-- The answer of a call: the number returned, `none` where it is negative, and the error code that
-- the program may ask for.
pub record Outcome : Type 0 where
  pub value : Option ℕ
  pub code : Code

-- `*n` is set only where the status is shown with a number.
pub sock_connect : Outcome → Status
sock_connect o = ok

pub sock_close : Status
sock_close = ok

unfoldable pub sock_read : Outcome → Status × Option ℕ
sock_read o = elim o.value [ none ↦ (error, some u64_max) | some r ↦ (ok, some r) ]

errno_status : Code → Status
errno_status eagain = retry
errno_status _ = error

pub sock_write : Outcome → Status × Option ℕ
unfolding errno_status
sock_write o = elim o.value [ none ↦ (errno_status o.code, none) | some r ↦ (ok, some r) ]

unfoldable pub sock_readable : Outcome → ℕ
sock_readable o = elim o.value [ none ↦ 0 | some n ↦ n ]

ssl_status : Code → Status
ssl_status want_read = retry
ssl_status want_write = retry
ssl_status _ = error

-- `SSL_connect` returns 1 on success.
connect_status : Option ℕ → Code → Status
unfolding ssl_status
connect_status none code = ssl_status code
connect_status (some zero) code = ssl_status code
connect_status (some (suc zero)) code = ok
connect_status (some (suc (suc n))) code = ssl_status code

pub ssl_connect : Outcome → Status
unfolding connect_status
ssl_connect o = connect_status o.value o.code

-- `SSL_shutdown` and `SSL_clear`, whose answers are dropped.
pub ssl_close : Status
ssl_close = ok

-- A result of 0 or less is an error.
transfer_status : Option ℕ → Code → Status × Option ℕ
unfolding ssl_status
transfer_status none code = (ssl_status code, none)
transfer_status (some zero) code = (ssl_status code, none)
transfer_status (some (suc r)) code = (ok, some (suc r))

pub ssl_read : Outcome → Status × Option ℕ
unfolding transfer_status
ssl_read o = transfer_status o.value o.code

pub ssl_write : Outcome → Status × Option ℕ
unfolding transfer_status
ssl_write o = transfer_status o.value o.code

pub ssl_readable : Outcome → ℕ
ssl_readable o = elim o.value [ none ↦ 0 | some n ↦ n ]

-- `struct sock`: plain sockets, or TLS where the URL asks for it.
pub record Sock : Type 0 where
  pub connect : Outcome → Status
  pub close : Status
  pub read : Outcome → Status × Option ℕ
  pub write : Outcome → Status × Option ℕ
  pub readable : Outcome → ℕ

unfoldable pub plain_sock : Sock
unfolding sock_connect sock_close sock_read sock_write sock_readable
plain_sock = record {
  connect = sock_connect;
  close = sock_close;
  read = sock_read;
  write = sock_write;
  readable = sock_readable;
}

unfoldable pub tls_sock : Sock
unfolding ssl_connect ssl_close ssl_read ssl_write ssl_readable
tls_sock = record {
  connect = ssl_connect;
  close = ssl_close;
  read = ssl_read;
  write = ssl_write;
  readable = ssl_readable;
}

-- What OpenSSL asks to be tried again after the next event.
pub ssl_read-retry :
    (o : Outcome)
    → (o.value ≡ none) ⊎ (o.value ≡ some 0)
    → (o.code ≡ want_read) ⊎ (o.code ≡ want_write)
    → ssl_read o ≡ (retry, none)
unfolding ssl_read
ssl_read-retry o nothing waits = ground arith

-- Where a transfer succeeds, the number of bytes is what the call returned, and over TLS it is
-- never 0.
pub transfer_bytes :
    (o : Outcome) (n : ℕ)
    → ((sock_write o ≡ (ok, some n)) ↔ (o.value ≡ some n))
      × ((sock_read o ≡ (ok, some n)) ↔ (o.value ≡ some n))
      × ((ssl_read o ≡ (ok, some n)) ↔ ((o.value ≡ some n) × (n ≢ 0)))
      × ((ssl_write o ≡ (ok, some n)) ↔ ((o.value ≡ some n) × (n ≢ 0)))
unfolding sock_write ssl_read ssl_write sock_read
transfer_bytes o n = ground arith
