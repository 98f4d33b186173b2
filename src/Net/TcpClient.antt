-- ===== src/Net/TcpClient.antt =====
-- net/TcpClient.h and net/TcpClient.cc, on the connector of Net/Connector and the connections of
-- Net/TcpConnection, in one loop. A TcpConnection object is known by the number that its name ends
-- with; `destroys` has the calls of connectDestroyed that wait in the loop, oldest first.
pub mod Lives
pub mod Calls
pub mod Runs
pub mod Reconnect
mod Tests
use leaf.Shared.{
  ℕ, zero, suc, ◌+◌, ◌-◌, Bool, true, false, ◌&&◌, List, [], ◌∷◌, ◌++◌, Option, none, some, ◌==◌,
  if◌then◌else◌, length,
}
use leaf.Shared.Outcome.{Outcome, ok, assert_failed, out_of_bounds, ◌>>=◌, ◌>>◌, assert}
use leaf.Net.Connector
use leaf.Net.Connector.{Connector, Attempt, new_connector}
use leaf.Net.TcpConnection
use leaf.Net.TcpConnection.{Conn, connect_established, connect_destroyed}
use leaf.Net.TcpConnection.Closing.{count_closed}

pub record TcpClient : Type 0 where
  pub connector : Connector
  pub retry : Bool
  pub connect_flag : Bool
  pub next_conn_id : ℕ
  pub connection : Option ℕ
  pub objects : ℕ → Option Conn
  pub destroys : List ℕ

unfoldable pub new_client : TcpClient
new_client = record {
  connector = new_connector;
  retry = false;
  connect_flag = true;
  next_conn_id = 1;
  connection = none;
  objects = λ _. none;
  destroys = [];
}

unfoldable pub enable_retry : TcpClient → TcpClient
enable_retry t = record t { retry = true }

unfoldable pub put_object : TcpClient → ℕ → Conn → TcpClient
put_object t id c = record t { objects = λ x. if x == id then some c else t.objects x }

unfoldable pub connect : TcpClient → Bool → Attempt → Outcome TcpClient
connect t in_loop a = do
  c ← Connector.start t.connector in_loop a
  ok (record t { connect_flag = true; connector = c })

unfoldable pub stop : TcpClient → TcpClient
stop t = record t { connect_flag = false; connector = Connector.stop t.connector }

unfoldable pub shutdown_object : TcpClient → Bool → ℕ → Option Conn → Outcome TcpClient
shutdown_object t in_loop id none = out_of_bounds
shutdown_object t in_loop id (some c) = ok (put_object t id (TcpConnection.shutdown c in_loop))

unfoldable pub disconnect_from : TcpClient → Bool → Option ℕ → Outcome TcpClient
disconnect_from t in_loop none = ok t
disconnect_from t in_loop (some id) = shutdown_object t in_loop id (t.objects id)

unfoldable pub disconnect : TcpClient → Bool → Outcome TcpClient
disconnect t in_loop = disconnect_from (record t { connect_flag = false }) in_loop t.connection

-- The callback of the connector.
unfoldable pub new_connection : TcpClient → ℕ → Outcome TcpClient
new_connection t sockfd = do
  let id = t.next_conn_id
  c ← connect_established (TcpConnection.new_connection sockfd)
  ok (put_object (record t { next_conn_id = id + 1; connection = some id }) id c)

unfoldable pub is_connection : Option ℕ → ℕ → Bool
is_connection none id = false
is_connection (some x) id = x == id

-- `a` is what the kernel answers if the connector starts again.
unfoldable pub reconnect : TcpClient → Attempt → Outcome TcpClient
reconnect t a =
    if t.retry && t.connect_flag
    then (do c ← Connector.restart t.connector a; ok (record t { connector = c }))
    else ok t

-- The close callback of a connection.
unfoldable pub remove_connection : TcpClient → ℕ → Attempt → Outcome TcpClient
remove_connection t id a = do
  assert (is_connection t.connection id)
  reconnect (record t { connection = none; destroys = t.destroys ++ id ∷ [] }) a

-- A call of a connection that calls its close callback `n` times.
unfoldable pub close_callbacks : ℕ → TcpClient → ℕ → Attempt → Outcome TcpClient
close_callbacks zero t id a = ok t
close_callbacks (suc n) t id a = remove_connection t id a >>= λ t'. close_callbacks n t' id a

unfoldable pub touch_object :
    TcpClient → ℕ → TcpConnection.Event → Attempt → Option Conn → Outcome TcpClient
touch_object t id e a none = out_of_bounds
touch_object t id e a (some c) = do
  d ← TcpConnection.step c e
  close_callbacks (count_closed d.calls - count_closed c.calls) (put_object t id d) id a

unfoldable pub touch : TcpClient → ℕ → TcpConnection.Event → Attempt → Outcome TcpClient
touch t id e a = touch_object t id e a (t.objects id)

-- The connector handed descriptors over, the last of them first.
unfoldable pub new_connections : ℕ → TcpClient → List ℕ → Outcome TcpClient
new_connections zero t fds = ok t
new_connections (suc n) t [] = ok t
new_connections (suc n) t (fd ∷ fds) = new_connections n t fds >>= λ t'. new_connection t' fd

-- An event of the connector, of its channel, functors and timers.
unfoldable pub connector_step : TcpClient → Connector.Event → Outcome TcpClient
connector_step t e = do
  c ← Connector.step t.connector e
  new_connections (length c.handed_over - length t.connector.handed_over)
      (record t { connector = c }) c.handed_over

unfoldable pub destroy_object : TcpClient → ℕ → Option Conn → Outcome TcpClient
destroy_object t id none = out_of_bounds
destroy_object t id (some c) = do d ← connect_destroyed c; ok (put_object t id d)

-- The loop runs connectDestroyed.
unfoldable pub run_destroys : TcpClient → List ℕ → Outcome TcpClient
run_destroys t [] = ok t
run_destroys t (id ∷ ids) = destroy_object (record t { destroys = ids }) id (t.objects id)

-- What can happen to a client: calls by the user, and events of the connector, the connections and the
-- loop.
pub data Happening : Type 0 where
  connects : Bool → Attempt → Happening
  disconnects : Bool → Happening
  stops : Happening
  retries : Happening
  connector_goes : Connector.Event → Happening
  touches : ℕ → TcpConnection.Event → Attempt → Happening
  destroys_one : Happening

unfoldable pub step : TcpClient → Happening → Outcome TcpClient
step t (connects in_loop a) = connect t in_loop a
step t (disconnects in_loop) = disconnect t in_loop
step t stops = ok (stop t)
step t retries = ok (enable_retry t)
step t (connector_goes e) = connector_step t e
step t (touches id e a) = touch t id e a
step t destroys_one = run_destroys t t.destroys

unfoldable pub run : TcpClient → List Happening → Outcome TcpClient
run t [] = ok t
run t (h ∷ hs) = step t h >>= λ t'. run t' hs
