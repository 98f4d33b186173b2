-- ===== src/Net/TcpServer/Runs.antt =====
-- The loops of net/TcpServer.cc run their functors; any sequence of what can happen.
use leaf.Shared.{
  ℕ, zero, suc, ◌≤◌, ◌<◌, ◌≡◌, ◌≢◌, refl, sym, ap, ◌∙◌, inl, inr, subst, Bool, true, false, not,
  List, [], ◌∷◌, ◌++◌, Option, none, some, ◌==◌, if◌then◌else◌, length, arith,
}
use leaf.Shared.Outcome.{ok, assert, >>=-eq-ok, ok-injective}
use leaf.Net.TcpConnection
use leaf.Net.TcpConnection.{Conn, Event, new_connection, connect_established, connect_destroyed}
use leaf.Net.TcpConnection.Closing.{is_owners}
use leaf.Net.TcpConnection.Life.{on_ok}
use leaf.Net.Acceptor
use leaf.Net.Acceptor.{Acceptor}
use leaf.Net.EventLoopThreadPool
use leaf.Net.EventLoopThreadPool.{EventLoopThreadPool, base_loop, get_next_loop, is_empty}
use leaf.Net.EventLoopThreadPool.Turns.{IsTurning, start-IsTurning}
use leaf.Net.TcpServer
use leaf.Net.TcpServer.{
  Bound, establish, destroy, Task, listen_task, remove_task, Connection, TcpServer, conn_name,
  erased, erase, assign_name, put_object, run_bound, queue_in_io, run_in_io, new_connection_on,
  remove_object, remove_connection_in_loop, remove_connection, close_callbacks, touch_object, touch,
  run_task, run_base, run_queued, run_io_of, Happening, accepts, touches, base_runs, io_runs, step,
  run, start, start_first, set_thread_num, set_write_complete_callback, new_server, listen_from,
}
use leaf.Net.TcpServer.Stages.{
  queue_at, Stage, fresh, live, leaving, removed, ended, ConnAt, IsAt, Stays-ConnAt, Closes-ConnAt,
  new_connection-ConnAt, established-ConnAt, destroyed-ConnAt,
}
use leaf.Net.TcpServer.Lives.{
  removals_of, removals_of-append, most_connections, Lives, IsReady, Inv, requeued-Inv,
}
use leaf.Net.TcpServer.Accepting.{Serves, put_here, put_there, put-Inv, accepts-Serves}
use leaf.Net.TcpServer.Removals.{removed-Inv, remove_found, touch-Serves}

-- A functor of the server's loop runs.
head_waits :
    (id : ℕ) (ts : List Task) → removals_of id (remove_task id ∷ ts) ≡ suc (removals_of id ts)
head_waits id ts = let e : (id == id) ≡ true = ground arith in rw e (omega arith)

head_other :
    (id j : ℕ) (ts : List Task) → j ≢ id → removals_of j ts ≡ removals_of j (remove_task id ∷ ts)
head_other id j ts h = let e : (id == j) ≡ false = ground arith in rw e (omega arith)

-- Only a connection that leaves has a removal on the way.
waiting-leaving :
    (stage : Stage) (n m : ℕ)
    → n ≡ suc m
    → n ≡ TcpServer.Stages.removals stage
    → (stage ≡ leaving) × (m ≡ 0)
waiting-leaving leaving n m h k = (refl, omega arith)
waiting-leaving fresh n m h k = absurd (omega arith)
waiting-leaving live n m h k = absurd (omega arith)
waiting-leaving removed n m h k = absurd (omega arith)
waiting-leaving ended n m h k = absurd (omega arith)

run_base-Serves :
    (s : TcpServer) (v : Inv s) (q : List Task) → s.base_queue ≡ q → Serves (run_base s q)
unfolding run_base run_task
run_base-Serves s v [] e = record { result = s; returns = refl; inv = v }
run_base-Serves s v (listen_task ∷ ts) e = record {
  result = _;
  returns = refl;
  inv = requeued-Inv s ts _ v (λ j. ap (removals_of j) (sym e));
}
run_base-Serves s v (remove_task id ∷ ts) e =
    let count : removals_of id s.base_queue ≡ suc (removals_of id ts) =
      ap (removals_of id) e ∙ head_waits id ts in
    let w = v.known id (omega (arith, count)) in
    let c = w.0 in
    let l = v.lives id c w.1 in
    let k =
      waiting-leaving l.stage (removals_of id s.base_queue) (removals_of id ts) count l.at.waits in
    let at =
      subst (λ st. IsAt st c (erased c.name s.connections) (removals_of id s.base_queue)) k.0
        l.at in
    let s1 = record s { base_queue = ts } in
    record {
      result = queue_in_io (record s1 { connections = erase c.name s.connections }) id c destroy;
      returns = remove_found s1 id c w.1 at.mapped;
      inv =
          unfold queue_in_io put_object in
          removed-Inv s v id c l c ts
            (λ x.
              if x == id
              then some (record c { queued = c.queued ++ destroy ∷ [] })
              else s.objects x)
            (put_here s.objects id (record c { queued = c.queued ++ destroy ∷ [] }))
            (put_there s.objects id (record c { queued = c.queued ++ destroy ∷ [] })) refl at.queue
            at.conn k.1 (λ j ne. head_other id j ts ne ∙ ap (removals_of j) (sym e));
    }

-- A functor of a connection's loop runs.
module _ (s : TcpServer) (v : Inv s) (id : ℕ) (c : Connection) (l : Lives s id c) where
  run_queued-Serves :
      (stage : Stage)
      → IsAt stage c (erased c.name s.connections) (removals_of id s.base_queue)
      → Serves (run_queued s id c (queue_at stage))
  unfolding run_queued run_bound
  run_queued-Serves live at = record { result = s; returns = refl; inv = v }
  run_queued-Serves leaving at = record { result = s; returns = refl; inv = v }
  run_queued-Serves ended at = record { result = s; returns = refl; inv = v }
  run_queued-Serves fresh at =
      let e = established-ConnAt c.conn at.conn in
      let d : Connection = record c { queued = []; conn = e.0 } in
      record {
        result = put_object s id d;
        returns = rw e.1 refl;
        inv =
            put-Inv s v id c l d live refl
              (record { conn = e.2; queue = refl; mapped = at.mapped; waits = at.waits });
      }
  run_queued-Serves removed at =
      let e = destroyed-ConnAt c.conn at.conn in
      let d : Connection = record c { queued = []; conn = e.0 } in
      record {
        result = put_object s id d;
        returns = rw e.1 refl;
        inv =
            put-Inv s v id c l d ended refl
              (record { conn = e.2; queue = refl; mapped = at.mapped; waits = at.waits });
      }

run_io_of-Serves :
    (s : TcpServer) (v : Inv s) (id : ℕ) (o : Option Connection)
    → s.objects id ≡ o
    → Serves (run_io_of s id o)
unfolding run_io_of
run_io_of-Serves s v id none e = record { result = s; returns = refl; inv = v }
run_io_of-Serves s v id (some c) e =
    let l = v.lives id c e in
    subst (λ q. Serves (run_queued s id c q)) (sym l.at.queue)
      (run_queued-Serves s v id c l l.stage l.at)

-- Room for the number of a new connection; and a call on a connection that is made by its user, its
-- poller or its loop, and returns.
abbrev pub Admits : TcpServer → Happening → Type 0
Admits s (accepts sockfd) = s.next_conn_id < most_connections
Admits s (touches id e) =
    (c : Connection) × (d : Conn) × (s.objects id ≡ some c)
    × (is_owners e ≡ false)
    × (TcpConnection.step c.conn e ≡ ok d)
Admits s base_runs = Unit {0}
Admits s (io_runs id) = Unit {0}

abbrev pub AllAdmitted : TcpServer → List Happening → Type 0
AllAdmitted s [] = Unit {0}
AllAdmitted s (h ∷ hs) = Admits s h × on_ok (step s h) (Unit {0}) (λ s'. AllAdmitted s' hs)

step-Serves : (s : TcpServer) (h : Happening) → Inv s → Admits s h → Serves (step s h)
unfolding step
step-Serves s (accepts sockfd) v a = accepts-Serves s sockfd v a
step-Serves s (touches id e) v a = touch-Serves s v id a.0 e a.1 a.2 a.3 a.4
step-Serves s base_runs v a = run_base-Serves s v s.base_queue refl
step-Serves s (io_runs id) v a = run_io_of-Serves s v id (s.objects id) refl

run-Serves : (s : TcpServer) (hs : List Happening) → Inv s → AllAdmitted s hs → Serves (run s hs)
unfolding run
run-Serves s [] v a = record { result = s; returns = refl; inv = v }
run-Serves s (h ∷ hs) v a =
    let r = step-Serves s h v a.0 in
    let rest : AllAdmitted r.result hs = rw r.returns at a.1 in
    rw r.returns (run-Serves r.result hs r.inv rest)

start-IsReady :
    (n : ℕ) (cb : Bool) (p : EventLoopThreadPool)
    → EventLoopThreadPool.start
        (EventLoopThreadPool.set_thread_num EventLoopThreadPool.new_pool n)
        cb
      ≡ ok p
    → IsReady p
unfolding EventLoopThreadPool.start EventLoopThreadPool.set_thread_num EventLoopThreadPool.new_pool
    EventLoopThreadPool.start_loops
start-IsReady zero cb p e = inl (ap (λ (x : EventLoopThreadPool). x.loops) (sym (ok-injective e)))
start-IsReady (suc n) cb p e =
    let t = start-IsTurning (suc n) cb (omega arith) in
    inr (subst IsTurning (ok-injective (sym t.1 ∙ e)) t.2)

-- A server without connections.
empty-Inv :
    (s : TcpServer)
    → length s.hostport ≤ 21
    → s.next_conn_id ≡ 1
    → s.objects ≡ (λ _. none)
    → s.connections ≡ []
    → s.base_queue ≡ []
    → IsReady s.pool
    → Inv s
unfolding erased
empty-Inv s short one no_objects no_names no_tasks ready = record {
  short = short;
  few = omega (arith, one);
  lives = λ id c e. absurd (let o = ap (λ (f : ℕ → Option Connection). f id) no_objects in cc);
  known = λ id k. absurd (omega (arith, k, ap (removals_of id) no_tasks));
  unused = λ id _ _. ap (erased (conn_name s.name s.hostport id)) no_names;
  ready = ready;
}

listen_from-Inv : (s : TcpServer) (in_loop : Bool) → Inv s → Inv (listen_from s in_loop)
unfolding listen_from
listen_from-Inv s true v = requeued-Inv s s.base_queue _ v (λ j. refl)
listen_from-Inv s false v =
    requeued-Inv s (s.base_queue ++ listen_task ∷ []) s.acceptor v
      (λ j. omega (arith, removals_of-append j s.base_queue (listen_task ∷ [])))

started-Inv :
    (name hostport : List ℕ) (a : Acceptor) (n : ℕ) (complete cb in_loop : Bool) (s : TcpServer)
    → length hostport ≤ 21
    → start
        (set_thread_num (set_write_complete_callback (new_server name hostport a) complete) n)
        cb
        in_loop
      ≡ ok s
    → Inv s
unfolding start start_first set_thread_num set_write_complete_callback new_server
started-Inv name hostport a n complete cb in_loop s short e =
    let (p, e1, e2) =
      >>=-eq-ok
        (EventLoopThreadPool.start
          (EventLoopThreadPool.set_thread_num EventLoopThreadPool.new_pool n) cb)
        _ e in
    let a1 = Acceptor.set_new_connection_callback a in
    let (u, e3, e4) = >>=-eq-ok (assert (not a1.listenning)) _ e2 in
    let s1 = record (new_server name hostport a) {
      has_write_complete = complete;
      started = true;
      pool = p;
    } in
    subst Inv (ok-injective e4) (
      listen_from-Inv s1 in_loop (empty-Inv s1 short refl refl refl refl (start-IsReady n cb p e1)))

-- On a server whose address and port have at most 21 characters, as those of IPv4 have, and as long as
-- it has made fewer than 10 ^ 8 connections: however these come and are used, and whatever order the
-- loops run their functors in, while the calls on the connections themselves return no call of the
-- server fails. Each connection that closes is found in the map once and ended once, after it was
-- established; a connection is in the map until it is removed, and no two have one name. Past these
-- bounds the 32 bytes of `buf` cut names off, and nothing is stated.
pub run-start :
    (name hostport : List ℕ) (a : Acceptor) (n : ℕ) (complete cb in_loop : Bool) (s : TcpServer)
    (hs : List Happening)
    → length hostport ≤ 21
    → start
        (set_thread_num (set_write_complete_callback (new_server name hostport a) complete) n)
        cb
        in_loop
      ≡ ok s
    → AllAdmitted s hs
    → Serves (run s hs)
run-start name hostport a n complete cb in_loop s hs short e admitted =
    run-Serves s hs (started-Inv name hostport a n complete cb in_loop s short e) admitted
