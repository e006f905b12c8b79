-- ===== src/Connection/Callbacks/Silent.antt =====
-- The callbacks of src/wrk.c that leave the descriptor and its handlers alone.
use wrk_offloadenginesupport.Prelude.{ℕ, ◌≡◌, refl, ◌∙◌, arith, Bytes}
use wrk_offloadenginesupport.Connection.{World, with_conn}
use wrk_offloadenginesupport.Connection.Registry.{watch, unwatched}
use wrk_offloadenginesupport.Connection.Callbacks.Schedule.{hand_over-watch}
use wrk_offloadenginesupport.Connection.Callbacks.{
  enter_field, enter_value, append_headers, header_field, header_value, response_body, Completion,
  count_response, hand_over, call_response, start_headers,
}

pub record Silent (w v : World) : Type 0 where
  pub fd : v.conn.fd ≡ w.conn.fd
  pub delayed : v.conn.delayed ≡ w.conn.delayed
  pub handlers : (fd : ℕ) → watch fd v.calls unwatched ≡ watch fd w.calls unwatched

pub Silent-trans : (w v u : World) → Silent w v → Silent v u → Silent w u
Silent-trans w v u a b = record {
  fd = b.fd ∙ a.fd;
  delayed = b.delayed ∙ a.delayed;
  handlers = λ fd. b.handlers fd ∙ a.handlers fd;
}

pub count_response-Silent : (k : Completion) (w : World) → Silent w (count_response k w)
unfolding count_response
count_response-Silent k w = record { fd = refl; delayed = refl; handlers = λ fd. refl }

pub hand_over-Silent : (k : Completion) (w : World) → Silent w (hand_over k w)
unfolding hand_over call_response start_headers
hand_over-Silent k w = record {
  fd = ground arith;
  delayed = ground arith;
  handlers = λ fd. hand_over-watch k fd w unwatched;
}

module _ (junk : ℕ → ℕ) where
  pub header_field-Silent :
      (at : Bytes) (w : World) → Silent w (with_conn w (header_field junk at w.conn))
  unfolding header_field enter_field append_headers
  header_field-Silent at w = record {
    fd = ground arith;
    delayed = ground arith;
    handlers = λ fd. refl;
  }

  pub header_value-Silent :
      (at : Bytes) (w : World) → Silent w (with_conn w (header_value junk at w.conn))
  unfolding header_value enter_value append_headers
  header_value-Silent at w = record {
    fd = ground arith;
    delayed = ground arith;
    handlers = λ fd. refl;
  }

  pub response_body-Silent :
      (at : Bytes) (w : World) → Silent w (with_conn w (response_body junk at w.conn))
  unfolding response_body
  response_body-Silent at w = record { fd = refl; delayed = refl; handlers = λ fd. refl }
