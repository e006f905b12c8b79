-- ===== src/Connection/Batch/Tests.antt =====
-- A batch of two requests on a connection of src/wrk.c, and its responses.
use wrk_offloadenginesupport.Prelude.{ℕ, ◌≡◌, refl, true, some, List, [], ◌∷◌, ◌++◌, codes, arith}
use wrk_offloadenginesupport.Stats.{stats_record}
use wrk_offloadenginesupport.Net.{plain_sock}
use wrk_offloadenginesupport.Connection.{World}
use wrk_offloadenginesupport.Connection.Events.{
  WriteReply, ReadRound, ParserEvent, on_body, on_header_field, on_message_complete, parser_events,
  count_bytes, read_result, handle_readable,
}
use wrk_offloadenginesupport.Connection.Events.Progress.{sent}
use wrk_offloadenginesupport.Connection.Events.Writing.{Sends, write_all}
use wrk_offloadenginesupport.Connection.Batch.{batch_of, respond_all}
use wrk_offloadenginesupport.Connection.Batch.Reading.{heard, handle_readable-respond}
use wrk_offloadenginesupport.Connection.Batch.Exchange.{exchange}
use wrk_offloadenginesupport.Connection.Samples.{world, config, gave, reply, completion}

abbrev junk : ℕ → ℕ
junk n = 170

abbrev write : WriteReply
write = record { delay = 0; next_request = []; now = 2000; answer = gave 3; reply = reply }

abbrev events : List ParserEvent
events =
    on_message_complete (completion 2500)
    ∷ on_header_field (codes "Date")
    ∷ on_body (codes "b")
    ∷ on_message_complete (completion 2002)
    ∷ []

abbrev answer : ReadRound
answer = record { answer = gave 9; events = events; parsed = 9; final = true; more = gave 0 }

abbrev asked : World
asked = write_all config 5 (write ∷ []) world

abbrev answered : World
answered = count_bytes junk 9 (parser_events junk config events asked)

answered_as : handle_readable junk config reply (answer ∷ []) asked ≡ some answered
unfolding handle_readable read_result plain_sock
answered_as = refl

all_heard : heard config (answer ∷ []) ≡ completion 2500 ∷ completion 2002 ∷ []
unfolding plain_sock
all_heard = refl

handle_readable-respond_example :
    batch_of answered ≡ respond_all (heard config (answer ∷ [])) (batch_of asked)
handle_readable-respond_example =
    handle_readable-respond junk config reply (answer ∷ []) asked answered answered_as

all_sent : Sends config (write ∷ []) (3 ∷ [])
unfolding plain_sock
all_sent = (refl, omega arith, tt)

exchange_example :
    (sent asked.calls ≡ [] ++ codes "GET")
    × (answered.thread.complete ≡ 2)
    × (answered.latency ≡ (stats_record world.latency 2).1)
    × (answered.conn.pending ≡ 0)
    × (answered.conn.written ≡ 0)
exchange_example =
    exchange junk config 5 write [] (3 ∷ []) reply (answer ∷ []) (completion 2500 ∷ [])
      (completion 2002) world answered all_sent refl refl refl (omega arith) answered_as all_heard
      refl (omega arith) (omega arith)
