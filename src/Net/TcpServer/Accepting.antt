-- ===== src/Net/TcpServer/Accepting.antt =====
-- A new connection of net/TcpServer.cc.
use leaf.Shared.{
  ℕ, ◌+◌, ◌<◌, ◌≡◌, ◌≢◌, refl, sym, ap, ◌∙◌, inl, inr, subst, true, false, Bool-cases, List, [],
  ◌∷◌, Option, some, ◌==◌, if◌then◌else◌, arith, lt_or_le,
}
use leaf.Shared.Outcome.{Outcome, ok}
use leaf.Net.TcpConnection.{new_connection}
use leaf.Net.EventLoopThreadPool.{EventLoopThreadPool, base_loop, get_next_loop, is_empty}
use leaf.Net.EventLoopThreadPool.Turns.{get_next_loop-Turns}
use leaf.Net.TcpServer
use leaf.Net.TcpServer.{
  Bound, establish, destroy, Task, listen_task, remove_task, Connection, TcpServer, conn_name,
  erased, erase, assign_name, put_object, run_bound, queue_in_io, run_in_io, new_connection_on,
  remove_object, remove_connection_in_loop, remove_connection, close_callbacks, touch_object, touch,
  run_task, run_base, run_queued, run_io_of, Happening, accepts, touches, base_runs, io_runs, step,
  run,
}
use leaf.Net.TcpServer.Names.{erased-assign, erased-assign_other}
use leaf.Net.TcpServer.Stages.{Stage, fresh, live, IsAt, new_connection-ConnAt, established-ConnAt}
use leaf.Net.TcpServer.Lives.{removals_of, most_connections, Lives, IsReady, Inv, changed-Inv}

-- The call returns, and the invariant holds again.
pub record Serves (r : Outcome TcpServer) : Type 0 where
  pub result : TcpServer
  pub returns : r ≡ ok result
  pub inv : Inv result

pub put_here :
    (o : ℕ → Option Connection) (id : ℕ) (c : Connection)
    → (if id == id then some c else o id) ≡ some c
put_here o id c = ground arith

pub put_there :
    (o : ℕ → Option Connection) (id : ℕ) (c : Connection) (j : ℕ)
    → j ≢ id
    → (if j == id then some c else o j) ≡ o j
put_there o id c j h = let e : (j == id) ≡ false = ground arith in rw e

-- A change of one connection in its stage.
module _ (s : TcpServer) (v : Inv s) (id : ℕ) (c : Connection) (l : Lives s id c) where
  same_map : (name : List ℕ) → c.name ≢ name → erased name s.connections ≡ erased name s.connections
  same_map name h = refl

  -- Neither the map nor the queue changes.
  pub put-Inv :
      (d : Connection) (stage : Stage)
      → d.name ≡ c.name
      → IsAt stage d (erased c.name s.connections) (removals_of id s.base_queue)
      → Inv (put_object s id d)
  unfolding put_object
  put-Inv d stage n at =
      changed-Inv s v id s.next_conn_id d s.connections s.base_queue
        (λ x. if x == id then some d else s.objects x) s.pool v.few (omega arith)
        (put_here s.objects id d) (put_there s.objects id d)
        (record {
          stage = stage;
          at =
              subst (λ k. IsAt stage d (erased k s.connections) (removals_of id s.base_queue))
                (sym n) at;
          named = n ∙ l.named;
          older = l.older;
        })
        (λ name _. refl) (λ j _. refl) v.ready

-- A number that no connection has yet.
no_removals : (s : TcpServer) → Inv s → removals_of s.next_conn_id s.base_queue ≡ 0
no_removals s v = elim (lt_or_le 0 (removals_of s.next_conn_id s.base_queue)) [
  | inl some_wait ↦
      let w = v.known s.next_conn_id some_wait in
      absurd (omega (arith, (v.lives s.next_conn_id w.0 w.1).older))
  | inr none_wait ↦ omega (arith, none_wait)
]

-- A new connection.
module _ (s : TcpServer) (v : Inv s) (room : s.next_conn_id < most_connections) where
  added-Inv :
      (c : Connection) (p : EventLoopThreadPool) (stage : Stage)
      → c.name ≡ conn_name s.name s.hostport s.next_conn_id
      → IsReady p
      → IsAt stage c 1 0
      → Inv (record s {
        pool = p;
        next_conn_id = s.next_conn_id + 1;
        connections = assign_name c.name s.next_conn_id s.connections;
        objects = λ x. if x == s.next_conn_id then some c else s.objects x;
      })
  added-Inv c p stage n ready at =
      let id = s.next_conn_id in
      let m = assign_name c.name id s.connections in
      changed-Inv s v id (id + 1) c m s.base_queue (λ x. if x == id then some c else s.objects x) p
        (omega (arith, room)) (omega arith) (put_here s.objects id c) (put_there s.objects id c)
        (record {
          stage = stage;
          at = record {
            conn = at.conn;
            queue = at.queue;
            mapped = erased-assign c.name id s.connections ∙ at.mapped;
            waits = no_removals s v ∙ at.waits;
          };
          named = n;
          older = omega arith;
        })
        (λ name ne. erased-assign_other c.name name id s.connections ne) (λ j _. refl) ready

  new_connection_on-Serves :
      (p : EventLoopThreadPool) (loop sockfd : ℕ)
      → IsReady p
      → Serves (new_connection_on (record s { pool = p }) loop sockfd)
  unfolding new_connection_on run_in_io run_bound put_object queue_in_io
  new_connection_on-Serves p loop sockfd ready =
      let name = conn_name s.name s.hostport s.next_conn_id in
      let c : Connection = record {
        name = name;
        loop = loop;
        conn = record (new_connection sockfd) { has_write_complete = s.has_write_complete };
        queued = [];
      } in
      let e = established-ConnAt c.conn (new_connection-ConnAt sockfd) in
      elim (Bool-cases (loop == base_loop)) [
        | inl here ↦
            rw (here, e.1)
              (record {
                result = _;
                returns = refl;
                inv =
                    added-Inv (record c { conn = e.0 }) p live refl ready
                      (record { conn = e.2; queue = refl; mapped = refl; waits = refl });
              })
        | inr there ↦ rw there (record {
          result = _;
          returns = refl;
          inv =
              added-Inv (record c { queued = establish ∷ [] }) p fresh refl ready
                (record {
                  conn = new_connection-ConnAt sockfd;
                  queue = refl;
                  mapped = refl;
                  waits = refl;
                });
        })
      ]

get_next_loop-IsReady :
    (p : EventLoopThreadPool)
    → IsReady p
    → (r : ℕ × EventLoopThreadPool) × (get_next_loop p ≡ ok r) × IsReady r.1
unfolding get_next_loop is_empty
get_next_loop-IsReady p (inl none_) =
    let e : is_empty p.loops ≡ true = ap is_empty none_ in ((base_loop, p), (simp e), inl none_)
get_next_loop-IsReady p (inr turning) =
    let t = get_next_loop-Turns p turning in ((t.loop, t.pool), t.returns, inr t.turning)

pub accepts-Serves :
    (s : TcpServer) (sockfd : ℕ)
    → Inv s
    → s.next_conn_id < most_connections
    → Serves (TcpServer.new_connection s sockfd)
unfolding TcpServer.new_connection
accepts-Serves s sockfd v room =
    let g = get_next_loop-IsReady s.pool v.ready in
    rw g.1 (new_connection_on-Serves s v room g.0.1 g.0.0 sockfd g.2)
