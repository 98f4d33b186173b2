-- ===== src/Net/TcpServer.antt =====
-- net/TcpServer.h and net/TcpServer.cc, on the connections of Net/TcpConnection, the acceptor and the
-- pool of loops. Loop 0 is the server's own. A TcpConnection object is known by the number that its
-- name ends with; `objects` has every connection that was made. Functors given to the server's loop
-- are in `base_queue`, those bound to a connection and given to its loop in `queued`.
pub mod Names
pub mod Stages
pub mod Lives
pub mod Accepting
pub mod Removals
pub mod Runs
mod Tests
use leaf.Shared.{
  ℕ, zero, suc, ◌+◌, ◌-◌, Bool, true, false, not, ◌&&◌, List, [], ◌∷◌, ◌++◌, Option, none, some,
  ◌==◌, if◌then◌else◌, take,
}
use leaf.Shared.Outcome.{Outcome, ok, out_of_bounds, ◌>>=◌, ◌>>◌, assert}
use leaf.Base.LogStream.Decimal.{decimal}
use leaf.Net.TcpConnection
use leaf.Net.TcpConnection.{Conn, Event, connect_established, connect_destroyed}
use leaf.Net.TcpConnection.Closing.{count_closed}
use leaf.Net.Acceptor
use leaf.Net.Acceptor.{Acceptor}
use leaf.Net.EventLoopThreadPool
use leaf.Net.EventLoopThreadPool.{EventLoopThreadPool, base_loop, get_next_loop}

-- Functors with a connection: connectEstablished and connectDestroyed.
pub data Bound : Type 0 where
  establish destroy : Bound

-- Functors of the server's loop: `Acceptor::listen` and `removeConnectionInLoop`.
pub data Task : Type 0 where
  listen_task : Task
  remove_task : ℕ → Task

pub record Connection : Type 0 where
  pub name : List ℕ
  pub loop : ℕ
  pub conn : Conn
  pub queued : List Bound

pub record TcpServer : Type 0 where
  pub name : List ℕ
  pub hostport : List ℕ
  pub started : Bool
  pub acceptor : Acceptor
  pub pool : EventLoopThreadPool
  pub next_conn_id : ℕ
  pub connections : List (List ℕ × ℕ)
  pub objects : ℕ → Option Connection
  pub base_queue : List Task
  pub has_write_complete : Bool

unfoldable pub new_server : List ℕ → List ℕ → Acceptor → TcpServer
new_server name hostport acceptor = record {
  name = name;
  hostport = hostport;
  started = false;
  acceptor = Acceptor.set_new_connection_callback acceptor;
  pool = EventLoopThreadPool.new_pool;
  next_conn_id = 1;
  connections = [];
  objects = λ _. none;
  base_queue = [];
  has_write_complete = false;
}

-- The name with ":%s#%d", of which the array keeps 31 bytes.
unfoldable pub conn_name : List ℕ → List ℕ → ℕ → List ℕ
conn_name name hostport id = name ++ take 31 (58 ∷ (hostport ++ 35 ∷ decimal id))

unfoldable pub same_name : List ℕ → List ℕ → Bool
same_name [] [] = true
same_name [] (y ∷ ys) = false
same_name (x ∷ xs) [] = false
same_name (x ∷ xs) (y ∷ ys) = x == y && same_name xs ys

-- `connections_.erase(name)`: how many were there, and what is left.
unfoldable pub erased : List ℕ → List (List ℕ × ℕ) → ℕ
erased name [] = 0
erased name ((key, id) ∷ rest) = (if same_name key name then 1 else 0) + erased name rest

unfoldable pub erase : List ℕ → List (List ℕ × ℕ) → List (List ℕ × ℕ)
erase name [] = []
erase name ((key, id) ∷ rest) =
    if same_name key name then erase name rest else (key, id) ∷ erase name rest

-- `connections_[name] = conn`
unfoldable pub assign_name : List ℕ → ℕ → List (List ℕ × ℕ) → List (List ℕ × ℕ)
assign_name name id connections = (name, id) ∷ erase name connections

unfoldable pub put_object : TcpServer → ℕ → Connection → TcpServer
put_object s id c = record s { objects = λ x. if x == id then some c else s.objects x }

unfoldable pub run_bound : Connection → Bound → Outcome Connection
run_bound c establish = do d ← connect_established c.conn; ok (record c { conn = d })
run_bound c destroy = do d ← connect_destroyed c.conn; ok (record c { conn = d })

-- `ioLoop->queueInLoop`
unfoldable pub queue_in_io : TcpServer → ℕ → Connection → Bound → TcpServer
queue_in_io s id c f = put_object s id (record c { queued = c.queued ++ f ∷ [] })

-- `ioLoop->runInLoop`, called in the server's loop.
unfoldable pub run_in_io : TcpServer → ℕ → Connection → Bound → Outcome TcpServer
run_in_io s id c f =
    if c.loop == base_loop
    then (do c' ← run_bound c f; ok (put_object s id c'))
    else ok (queue_in_io s id c f)

unfoldable pub new_connection_on : TcpServer → ℕ → ℕ → Outcome TcpServer
new_connection_on s io_loop sockfd = do
  let id = s.next_conn_id
  let name = conn_name s.name s.hostport id
  let c : Connection = record {
    name = name;
    loop = io_loop;
    conn = record (TcpConnection.new_connection sockfd) {
      has_write_complete = s.has_write_complete;
    };
    queued = [];
  }
  let s' = record s { next_conn_id = id + 1; connections = assign_name name id s.connections }
  run_in_io s' id c establish

-- `newConnection`, the callback of the acceptor.
unfoldable pub new_connection : TcpServer → ℕ → Outcome TcpServer
new_connection s sockfd = do
  r ← get_next_loop s.pool
  new_connection_on (record s { pool = r.1 }) r.0 sockfd

unfoldable pub remove_object : TcpServer → ℕ → Option Connection → Outcome TcpServer
remove_object s id none = out_of_bounds
remove_object s id (some c) = do
  assert (erased c.name s.connections == 1)
  ok (queue_in_io (record s { connections = erase c.name s.connections }) id c destroy)

-- `removeConnectionInLoop`
unfoldable pub remove_connection_in_loop : TcpServer → ℕ → Outcome TcpServer
remove_connection_in_loop s id = remove_object s id (s.objects id)

-- `removeConnection`, called in the connection's loop.
unfoldable pub remove_connection : TcpServer → ℕ → ℕ → Outcome TcpServer
remove_connection s loop id =
    if loop == base_loop
    then remove_connection_in_loop s id
    else ok (record s { base_queue = s.base_queue ++ remove_task id ∷ [] })

-- A call of a connection that calls its close callback `n` times.
unfoldable pub close_callbacks : ℕ → TcpServer → ℕ → ℕ → Outcome TcpServer
close_callbacks zero s loop id = ok s
close_callbacks (suc n) s loop id =
    remove_connection s loop id >>= λ s'. close_callbacks n s' loop id

unfoldable pub touch_object : TcpServer → ℕ → Event → Option Connection → Outcome TcpServer
touch_object s id e none = out_of_bounds
touch_object s id e (some c) = do
  d ← TcpConnection.step c.conn e
  close_callbacks (count_closed d.calls - count_closed c.conn.calls)
      (put_object s id (record c { conn = d })) c.loop id

-- A call of the user, the poller or the loop on a connection.
unfoldable pub touch : TcpServer → ℕ → Event → Outcome TcpServer
touch s id e = touch_object s id e (s.objects id)

-- `setWriteCompleteCallback`: whether the callback is set.
unfoldable pub set_write_complete_callback : TcpServer → Bool → TcpServer
set_write_complete_callback s cb = record s { has_write_complete = cb }

unfoldable pub set_thread_num : TcpServer → ℕ → TcpServer
set_thread_num s n = record s { pool = EventLoopThreadPool.set_thread_num s.pool n }

unfoldable pub listen_from : TcpServer → Bool → TcpServer
listen_from s in_loop =
    if in_loop
    then record s { acceptor = Acceptor.listen s.acceptor }
    else record s { base_queue = s.base_queue ++ listen_task ∷ [] }

-- The first call of `start`; `cb` says whether a thread init callback is set.
unfoldable pub start_first : TcpServer → Bool → Bool → Outcome TcpServer
start_first s cb in_loop = do
  p ← EventLoopThreadPool.start s.pool cb
  assert (not s.acceptor.listenning)
  ok (listen_from (record s { started = true; pool = p }) in_loop)

unfoldable pub start : TcpServer → Bool → Bool → Outcome TcpServer
start s cb in_loop = if s.started then ok s else start_first s cb in_loop

unfoldable pub run_task : TcpServer → Task → Outcome TcpServer
run_task s listen_task = ok (record s { acceptor = Acceptor.listen s.acceptor })
run_task s (remove_task id) = remove_connection_in_loop s id

-- The server's loop runs the functor that has waited longest.
unfoldable pub run_base : TcpServer → List Task → Outcome TcpServer
run_base s [] = ok s
run_base s (t ∷ ts) = run_task (record s { base_queue = ts }) t

unfoldable pub run_queued : TcpServer → ℕ → Connection → List Bound → Outcome TcpServer
run_queued s id c [] = ok s
run_queued s id c (f ∷ fs) = do c' ← run_bound (record c { queued = fs }) f; ok (put_object s id c')

unfoldable pub run_io_of : TcpServer → ℕ → Option Connection → Outcome TcpServer
run_io_of s id none = ok s
run_io_of s id (some c) = run_queued s id c c.queued

-- What can happen: a connection comes, a connection is called, a loop runs a functor.
pub data Happening : Type 0 where
  accepts : ℕ → Happening
  touches : ℕ → Event → Happening
  base_runs : Happening
  io_runs : ℕ → Happening

unfoldable pub step : TcpServer → Happening → Outcome TcpServer
step s (accepts sockfd) = new_connection s sockfd
step s (touches id e) = touch s id e
step s base_runs = run_base s s.base_queue
step s (io_runs id) = run_io_of s id (s.objects id)

unfoldable pub run : TcpServer → List Happening → Outcome TcpServer
run s [] = ok s
run s (h ∷ hs) = step s h >>= λ s'. run s' hs

unfoldable pub destroy_object : TcpServer → ℕ → Option Connection → Outcome TcpServer
destroy_object s id none = out_of_bounds
destroy_object s id (some c) = run_in_io s id c destroy

-- The loop of the destructor over the map.
unfoldable pub destroy_all : TcpServer → List (List ℕ × ℕ) → Outcome TcpServer
destroy_all s [] = ok s
destroy_all s ((name, id) ∷ rest) = destroy_object s id (s.objects id) >>= λ s'. destroy_all s' rest
