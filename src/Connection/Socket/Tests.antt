-- ===== src/Connection/Socket/Tests.antt =====
-- The theorems about connect_socket and reconnect_socket of src/wrk.c at concrete inputs.
use wrk_offloadenginesupport.Prelude.{◌≡◌, refl, true, arith}
use wrk_offloadenginesupport.Connection.Registry.{watch, unwatched}
use wrk_offloadenginesupport.Connection.Socket.{
  ConnectReply, failed, connect_socket, reconnect_socket,
}
use wrk_offloadenginesupport.Connection.Socket.Reconnect.{Reconnected, reconnect_socket-Reconnected}
use wrk_offloadenginesupport.Connection.Samples.{world, reply}

abbrev refused : ConnectReply
refused = record reply { answer = failed }

connect_runs : (connect_socket reply world).1.conn.fd ≡ 6
unfolding connect_socket
connect_runs = refl

reconnect_socket-Reconnected_example :
    Reconnected true reply world (reconnect_socket reply world)
    × (watch 5 (reconnect_socket reply world).1.calls unwatched ≡ unwatched)
reconnect_socket-Reconnected_example =
    reconnect_socket-Reconnected reply world unwatched (omega arith)
