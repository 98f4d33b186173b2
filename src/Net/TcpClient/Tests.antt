-- ===== src/Net/TcpClient/Tests.antt =====
-- The theorems on net/TcpClient.cc at a concrete sequence of events.
use leaf.Shared.{◌≡◌, refl, true, false, List, [], ◌∷◌, none, some, ◌==◌, if◌then◌else◌}
use leaf.Shared.Outcome.{assert_failed}
use leaf.Net.Channel.{
  new_channel, is_none_event, tie, update, enable_reading, enable_writing, disable_all, remove,
}
use leaf.Net.Connector
use leaf.Net.Connector.{
  Connector, new_connector, k_connected, Attempt, writable, runs, start, start_in_loop, connecting,
  is_under_way, is_disconnected, is_connecting, no_channel, handle_write, hand_over,
  remove_and_reset_channel, take_out, queue_in_loop, reset_functor, stop_functor, restart,
  reset_channel, run_first, run_functor,
}
use leaf.Net.TcpConnection
use leaf.Net.TcpConnection.{
  Conn, connected, closes, is_open, is_connected, call_user, connect_established, leave_connected,
  connect_destroyed, handle_close,
}
use leaf.Net.TcpClient.{
  TcpClient, new_client, put_object, connect, stop, new_connection, is_connection, reconnect,
  remove_connection, close_callbacks, touch_object, touch, new_connections, connector_step,
  destroy_object, run_destroys, Happening, connects, stops, retries, enable_retry, connector_goes,
  touches, destroys_one, step, run,
}
use leaf.Net.TcpClient.Lives.{Serves}
use leaf.Net.TcpClient.Runs.{AllWork, run-new_client}
use leaf.Net.TcpClient.Reconnect.{remove_connection-spends}

-- EINPROGRESS on descriptor 7.
abbrev attempt : Attempt
attempt = record { sockfd = 7; saved_errno = 115 }

-- The client connects, its connection closes, it connects again, and the old connection ends.
abbrev life : List Happening
life =
    retries
    ∷ connects true attempt
    ∷ connector_goes (writable false)
    ∷ connector_goes (runs attempt)
    ∷ touches 1 closes attempt
    ∷ destroys_one
    ∷ []

life-AllWork : AllWork new_client life
unfolding new_client new_connector step enable_retry connect connector_step new_connections
    new_connection put_object touch touch_object close_callbacks remove_connection is_connection
    reconnect run_destroys destroy_object Connector.step start start_in_loop restart
    Connector.connect connecting is_under_way is_disconnected Connector.is_connecting no_channel
    handle_write hand_over remove_and_reset_channel take_out queue_in_loop reset_channel run_first
    run_functor TcpConnection.new_connection TcpConnection.step connect_established
    connect_destroyed leave_connected handle_close call_user is_open TcpConnection.is_connecting
    is_connected new_channel is_none_event tie update enable_reading enable_writing disable_all
    remove
life-AllWork = (
  tt,
  (
    (_, refl),
    ((refl, (_, refl)), ((refl, (_, refl)), ((_, _, refl, refl, refl, (_, refl)), (tt, tt)))),
  ),
)

run-new_client_example : Serves (run new_client life)
run-new_client_example = run-new_client life life-AllWork

-- A client with a connection, which it does not mean to make again.
abbrev client : TcpClient
client = record {
  connector = record (new_connector) {
    connect_flag = true;
    state = k_connected;
    queued = reset_functor ∷ [];
    handed_over = 7 ∷ [];
  };
  retry = false;
  connect_flag = true;
  next_conn_id = 2;
  connection = some 1;
  objects = λ x.
      if x == 1 then some (record (TcpConnection.new_connection 7) { state = connected }) else none;
  destroys = [];
}

abbrev left : TcpClient
left = record client { connection = none; destroys = 1 ∷ [] }

abbrev left_loop : TcpClient
left_loop = record left {
  connect_flag = false;
  connector = record (left.connector) {
    connect_flag = false;
    queued = stop_functor ∷ [];
    channel = none;
  };
}

remove_connection-spends_example :
    (left_loop.connection ≡ none) × (connect left_loop true attempt ≡ assert_failed)
unfolding remove_connection is_connection reconnect run step stop Connector.stop queue_in_loop
    connector_step Connector.step run_first run_functor reset_channel new_connections
remove_connection-spends_example =
    remove_connection-spends client left left_loop 1 attempt attempt
      (stops ∷ connector_goes (runs attempt) ∷ []) refl refl refl (refl, tt) refl
