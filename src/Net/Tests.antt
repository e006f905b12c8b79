-- ===== src/Net/Tests.antt =====
-- The theorems about src/net.c and src/ssl.c at concrete inputs.
use wrk_offloadenginesupport.Prelude.{◌≡◌, refl, none, some}
use wrk_offloadenginesupport.Net.{Outcome, Code, want_write, other, ok, retry, plain_sock, tls_sock}

abbrev three : Outcome
three = record { value = some 3; code = other }

abbrev refused : Code → Outcome
refused c = record { value = none; code = c }

plain_runs :
    (plain_sock.connect three ≡ ok) × (plain_sock.close ≡ ok) × (plain_sock.readable three ≡ 3)
unfolding plain_sock
plain_runs = (refl, refl, refl)

tls_runs :
    (tls_sock.connect (refused want_write) ≡ retry)
    × (tls_sock.close ≡ ok)
    × (tls_sock.readable three ≡ 3)
unfolding tls_sock
tls_runs = (refl, refl, refl)
