-- ===== src/Connection/Registry.antt =====
-- Which handlers the event loop is left with by the calls of src/wrk.c, under the documented meaning
-- of aeCreateFileEvent and aeDeleteFileEvent: a call sets or clears the handler of each direction in
-- its mask.
use wrk_offloadenginesupport.Prelude.{
  ℕ, ◌≡◌, refl, Option, none, some, List, [], ◌∷◌, ◌++◌, if◌then◌else◌, ◌==◌,
}
use wrk_offloadenginesupport.Connection.{
  Call, Mask, readable, writable, both, Handler, create_file_event, delete_file_event,
}

-- The handlers of one descriptor.
pub record Watch : Type 0 where
  pub on_read : Option Handler
  pub on_write : Option Handler

abbrev pub unwatched : Watch
unwatched = record { on_read = none; on_write = none }

abbrev pub put : Mask → Option Handler → Watch → Watch
put readable h a = record a { on_read = h }
put writable h a = record a { on_write = h }
put both h a = record { on_read = h; on_write = h }

abbrev pub watch : ℕ → List Call → Watch → Watch
watch fd [] a = a
watch fd (create_file_event g m h ∷ cs) a = watch fd cs (if g == fd then put m (some h) a else a)
watch fd (delete_file_event g m ∷ cs) a = watch fd cs (if g == fd then put m none a else a)
watch fd (_ ∷ cs) a = watch fd cs a

pub watch-append :
    (fd : ℕ) (cs ds : List Call) (a : Watch) → watch fd (cs ++ ds) a ≡ watch fd ds (watch fd cs a)
watch-append fd [] ds a = refl
watch-append fd (create_file_event g m h ∷ cs) ds a = watch-append fd cs ds _
watch-append fd (delete_file_event g m ∷ cs) ds a = watch-append fd cs ds _
watch-append fd (_ ∷ cs) ds a = watch-append fd cs ds a
