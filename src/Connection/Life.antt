-- ===== src/Connection/Life.antt =====
-- The life of one connection of src/wrk.c: the event loop calls the handlers that are registered for
-- its descriptor, and its timers, in any order.
pub mod Phases
pub mod Reading
pub mod Reached
pub mod Stale
pub mod Lost
pub mod Bounds
mod Tests
use wrk_offloadenginesupport.Prelude.{
  ℕ, suc, ◌+◌, ◌≤◌, ◌<◌, length, u64, ◌≡◌, ◌⊎◌, Bool, true, false, Option, none, some, List, [],
  ◌∷◌, if◌then◌else◌,
}
use wrk_offloadenginesupport.Floating.{LongDouble}
use wrk_offloadenginesupport.Stats.{Stats}
use wrk_offloadenginesupport.Net.{ok, Outcome}
use wrk_offloadenginesupport.Connection.{
  World, Config, Thread, Handler, socket_connected, socket_writeable, socket_readable,
}
use wrk_offloadenginesupport.Connection.Registry.{Watch, watch, unwatched}
use wrk_offloadenginesupport.Connection.Socket.{ConnectReply}
use wrk_offloadenginesupport.Connection.Events.{
  WriteReply, begin_batch, ReadRound, ParserEvent, on_header_field, on_header_value, on_body,
  on_message_complete, handle_connected, handle_writeable, handle_readable, delay_request,
  record_rate,
}

-- The handlers of the connection's descriptor.
abbrev pub view : World → Watch
view w = watch w.conn.fd w.calls unwatched

-- A world, and how many calls of delay_request are due: socket_writeable asks for one where the
-- connection is delayed, and nothing else does.
pub record System : Type 0 where
  pub world : World
  pub timers : ℕ

-- aeCreateFileEvent takes the new descriptor: the event loop is made with room for three descriptors
-- for each connection.
abbrev pub Taken : ConnectReply → Type 0
Taken r = r.registered ≡ true

-- What http_parser_execute hands over, as its documentation says: after a message that ends the
-- connection nothing follows; `closed` tells whether there was one.
abbrev pub Keeps : ParserEvent → Type 0
Keeps (on_message_complete k) = k.keep_alive ≡ true
Keeps _ = Unit {0}

abbrev pub Closes : ParserEvent → Type 0
Closes (on_message_complete k) = (k.keep_alive ≡ false) × Taken k.reply
Closes _ = ⊥

abbrev pub Orderly : List ParserEvent → Bool → Type 0
Orderly [] closed = closed ≡ false
Orderly (e ∷ es) closed = (Keeps e × Orderly es closed) ⊎ (Closes e × (es ≡ []) × (closed ≡ true))

-- There is nothing to read yet on a connection that has just been made again.
abbrev pub OrderlyRound : Config → ReadRound → Type 0
OrderlyRound cfg r =
    (closed : Bool) × Orderly r.events closed × (closed ≡ true → cfg.sock.readable r.more ≡ 0)

-- A write takes no more than what is left of the request, which has fewer than 2^64 bytes.
abbrev pub Fits : Config → WriteReply → World → Type 0
Fits cfg r w =
    let c = begin_batch cfg r w.conn in
    (length c.request < u64)
    × ((n : ℕ) → cfg.sock.write r.answer ≡ (ok, some n) → c.written + n ≤ length c.request)

abbrev pub OrderlyRounds : Config → List ReadRound → Type 0
OrderlyRounds cfg [] = Unit {0}
OrderlyRounds cfg (r ∷ rs) = OrderlyRound cfg r × OrderlyRounds cfg rs

module _ (F : LongDouble) (junk : ℕ → ℕ) (cfg : Config) where
  pub data Step (s : System) : System → Type 0 where
    connected_step :
        (o : Outcome) (r : ConnectReply)
        → ((view s.world).on_read ≡ some socket_connected)
          ⊎ ((view s.world).on_write ≡ some socket_connected)
        → Taken r
        → Step s (record s { world = handle_connected cfg s.world.conn.fd o r s.world })
    writeable_step :
        (r : WriteReply)
        → (view s.world).on_write ≡ some socket_writeable
        → Taken r.reply
        → (s.world.conn.delayed ≡ false → Fits cfg r s.world)
        → Step s (record {
          world = handle_writeable cfg s.world.conn.fd r s.world;
          timers = if s.world.conn.delayed then suc s.timers else s.timers;
        })
    readable_step :
        (r : ConnectReply) (rs : List ReadRound) (w : World)
        → (view s.world).on_read ≡ some socket_readable
        → Taken r
        → OrderlyRounds cfg rs
        → handle_readable junk cfg r rs s.world ≡ some w
        → Step s (record s { world = w })
    delay_step :
        (n : ℕ) → s.timers ≡ suc n → Step s (record { world = delay_request s.world; timers = n })
    rate_step :
        (now later : ℕ) (stop : Bool)
        → Step s (record s { world = (record_rate F now later stop s.world).1 })
    -- the other connections of the thread, and the other threads
    others_step :
        (t : Thread) (latency rate : Stats)
        → Step s
            (record s { world = record (s.world) { thread = t; latency = latency; rate = rate } })

  pub data Reach (s : System) : System → Type 0 where
    here : Reach s s
    later : {t u : System} → Reach s t → Step t u → Reach s u
