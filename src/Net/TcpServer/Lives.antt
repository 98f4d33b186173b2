-- ===== src/Net/TcpServer/Lives.antt =====
-- The invariant of net/TcpServer.cc, and what each change of one connection keeps.
use leaf.Shared.{
  ℕ, ◌+◌, ◌≤◌, ◌<◌, ◌≡◌, ◌≢◌, ◌⊎◌, sym, ap, ◌∙◌, subst, List, [], ◌∷◌, ◌++◌, Option, some, ◌==◌,
  if◌then◌else◌, length, arith,
}
use native.Mathlib.Decide.{ℕ_discrete}
use leaf.Net.Acceptor.{Acceptor}
use leaf.Net.EventLoopThreadPool.{EventLoopThreadPool}
use leaf.Net.EventLoopThreadPool.Turns.{IsTurning}
use leaf.Net.TcpServer.{Task, listen_task, remove_task, Connection, TcpServer, conn_name, erased}
use leaf.Net.TcpServer.Names.{conn_name-injective}
use leaf.Net.TcpServer.Stages.{Stage, IsAt}

-- How many removals of a connection wait.
abbrev pub removals_of : ℕ → List Task → ℕ
removals_of id [] = 0
removals_of id (listen_task ∷ ts) = removals_of id ts
removals_of id (remove_task x ∷ ts) = (if x == id then 1 else 0) + removals_of id ts

pub removals_of-append :
    (id : ℕ) (ts us : List Task) → removals_of id (ts ++ us) ≡ removals_of id ts + removals_of id us
removals_of-append id [] us = omega arith
removals_of-append id (listen_task ∷ ts) us = removals_of-append id ts us
removals_of-append id (remove_task x ∷ ts) us = omega (arith, removals_of-append id ts us)

-- The number of connections whose names are whole.
abbrev pub most_connections : ℕ
most_connections = 100000000

pub record Lives (s : TcpServer) (id : ℕ) (c : Connection) : Type 0 where
  pub stage : Stage
  pub at : IsAt stage c (erased c.name s.connections) (removals_of id s.base_queue)
  pub named : c.name ≡ conn_name s.name s.hostport id
  pub older : id < s.next_conn_id

abbrev pub IsReady : EventLoopThreadPool → Type 0
IsReady p = (p.loops ≡ []) ⊎ IsTurning p

pub record Inv (s : TcpServer) : Type 0 where
  pub short : length s.hostport ≤ 21
  pub few : s.next_conn_id ≤ most_connections
  pub lives : (id : ℕ) (c : Connection) → s.objects id ≡ some c → Lives s id c
  pub known :
      (id : ℕ) → 0 < removals_of id s.base_queue → (c : Connection) × (s.objects id ≡ some c)
  pub unused :
      (id : ℕ)
      → s.next_conn_id ≤ id
      → id < most_connections
      → erased (conn_name s.name s.hostport id) s.connections ≡ 0
  pub ready : IsReady s.pool

ne_of_gt : (i j : ℕ) → i < j → j ≢ i
ne_of_gt i j h e = absurd (omega arith)

-- One connection, its name in the map, and its removals change, and nothing else.
module _ (s : TcpServer) (v : Inv s) (id next : ℕ) (c : Connection) (m : List (List ℕ × ℕ))
    (q : List Task) (o : ℕ → Option Connection) (p : EventLoopThreadPool) where
  abbrev pub changed : TcpServer
  changed = record s { next_conn_id = next; connections = m; base_queue = q; objects = o; pool = p }

  module _ (few : next ≤ most_connections) (more : s.next_conn_id ≤ next) (here : o id ≡ some c)
      (there : (j : ℕ) → j ≢ id → o j ≡ s.objects j) (alive : Lives changed id c)
      (map_same : (name : List ℕ) → c.name ≢ name → erased name m ≡ erased name s.connections)
      (queue_same : (j : ℕ) → j ≢ id → removals_of j q ≡ removals_of j s.base_queue)
      (ready : IsReady p) where
    -- Another number has another name.
    other_name : (j : ℕ) → j ≢ id → j < most_connections → c.name ≢ conn_name s.name s.hostport j
    other_name j ne lt e = ne (
        sym (
          conn_name-injective s.name s.hostport id j v.short (omega (arith, alive.older, few)) lt
            (sym alive.named ∙ e)))

    changed-Lives : (j : ℕ) (d : Connection) → o j ≡ some d → Lives changed j d
    changed-Lives j d e = elim (ℕ_discrete j id) [
      | yes same ↦
          let is : some c ≡ some d = sym here ∙ ap o (sym same) ∙ e in
          let cd : c ≡ d = cc in
          subst (λ x. Lives changed j x) cd (subst (λ x. Lives changed x c) (sym same) alive)
      | no other ↦
          let l = v.lives j d (sym (there j other) ∙ e) in
          let lt : j < most_connections = omega (arith, l.older, v.few) in
          let ne : c.name ≢ d.name = λ k. other_name j other lt (k ∙ l.named) in
          record {
            stage = l.stage;
            at = record {
              conn = l.at.conn;
              queue = l.at.queue;
              mapped = map_same d.name ne ∙ l.at.mapped;
              waits = queue_same j other ∙ l.at.waits;
            };
            named = l.named;
            older = omega (arith, l.older, more);
          }
    ]

    pub changed-Inv : Inv changed
    changed-Inv = record {
      short = v.short;
      few = few;
      lives = changed-Lives;
      known = λ j k. elim (ℕ_discrete j id) [
        | yes same ↦ (c, ap o same ∙ here)
        | no other ↦
            let w = v.known j (omega (arith, queue_same j other, k)) in (w.0, there j other ∙ w.1)
      ];
      unused = λ j le lt.
          map_same (conn_name s.name s.hostport j)
            (other_name j (ne_of_gt id j (omega (arith, alive.older, le))) lt)
          ∙ v.unused j (omega (arith, le, more)) lt;
      ready = ready;
    }

-- The server starts to listen, or a functor that is no removal has run.
pub requeued-Inv :
    (s : TcpServer) (q : List Task) (a : Acceptor)
    → Inv s
    → ((j : ℕ) → removals_of j q ≡ removals_of j s.base_queue)
    → Inv (record s { base_queue = q; acceptor = a })
requeued-Inv s q a v same = record {
  short = v.short;
  few = v.few;
  lives = λ j d e.
      let l = v.lives j d e in
      record {
        stage = l.stage;
        at = record {
          conn = l.at.conn;
          queue = l.at.queue;
          mapped = l.at.mapped;
          waits = same j ∙ l.at.waits;
        };
        named = l.named;
        older = l.older;
      };
  known = λ j k. v.known j (omega (arith, same j, k));
  unused = v.unused;
  ready = v.ready;
}
