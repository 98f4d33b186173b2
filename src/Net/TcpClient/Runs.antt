-- ===== src/Net/TcpClient/Runs.antt =====
-- The connector and the loop of net/TcpClient.cc, and any sequence of what can happen to a client.
use leaf.Shared.{
  ℕ, suc, ◌+◌, ◌-◌, ◌≡◌, ◌≢◌, refl, sym, ap, ◌∙◌, inl, inr, subst, true, false, Bool-cases, List,
  [], ◌∷◌, Option, none, some, ◌==◌, length, arith, count,
}
use leaf.Shared.Outcome.{Outcome, ok}
use leaf.Net.Connector
use leaf.Net.Connector.{k_connected, Connector, Attempt}
use leaf.Net.Connector.Handing.{is_clients, step-Hands, step-Idles, start-Idles, stop-state}
use leaf.Net.TcpConnection
use leaf.Net.TcpConnection.{Conn, Event, connect_established, connect_destroyed}
use leaf.Net.TcpConnection.Closing.{is_owners}
use leaf.Net.TcpConnection.Life.{on_ok}
use leaf.Net.TcpServer.Stages.{ConnAt, new_connection-ConnAt, established-ConnAt, destroyed-ConnAt}
use leaf.Net.TcpClient.{
  TcpClient, put_object, connect, stop, new_connection, is_connection, new_connections,
  connector_step, destroy_object, run_destroys, Happening, connects, disconnects, stops, retries,
  enable_retry, connector_goes, touches, destroys_one, step, run, new_client,
}
use leaf.Net.TcpClient.Lives.{
  Place, current, waiting, gone, stage_of, ends_at, is_current, Inv, Serves, changed-Inv, kept-Inv,
}
use leaf.Net.TcpClient.Calls.{put_here, put_there, disconnect-Serves, Returns, touch-Serves}

-- The loop runs connectDestroyed for a connection that has left.
place-waiting : (p : Place) (n m : ℕ) → n ≡ suc m → n ≡ ends_at p → (p ≡ waiting) × (m ≡ 0)
place-waiting waiting n m h k = (refl, omega arith)
place-waiting current n m h k = absurd (omega arith)
place-waiting gone n m h k = absurd (omega arith)

head_waits : (id : ℕ) (ids : List ℕ) → count id (id ∷ ids) ≡ suc (count id ids)
head_waits id ids = let e : (id == id) ≡ true = ground arith in rw e (omega arith)

head_other : (id j : ℕ) (ids : List ℕ) → j ≢ id → count j ids ≡ count j (id ∷ ids)
head_other id j ids h = let e : (id == j) ≡ false = ground arith in rw e (omega arith)

run_destroys-Serves :
    (t : TcpClient) (v : Inv t) (q : List ℕ) → t.destroys ≡ q → Serves (run_destroys t q)
unfolding run_destroys destroy_object put_object
run_destroys-Serves t v [] e = record { result = t; returns = refl; inv = v }
run_destroys-Serves t v (id ∷ ids) e =
    let n : count id t.destroys ≡ suc (count id ids) = ap (count id) e ∙ head_waits id ids in
    let w = v.known id (omega (arith, n)) in
    let c = w.0 in
    let l = v.lives id c w.1 in
    let p = place-waiting l.place (count id t.destroys) (count id ids) n l.ends in
    let d = destroyed-ConnAt c (subst (λ x. ConnAt (stage_of x) c) p.0 l.conn) in
    let t' = put_object (record t { destroys = ids }) id d.0 in
    record {
      result = t';
      returns = simp (w.1, d.1);
      inv =
          changed-Inv t t' v id d.0 (put_here t.objects id d.0) (put_there t.objects id d.0)
            (record {
              place = gone;
              conn = d.2;
              ends = p.1;
              held = l.held ∙ ap is_current p.0;
              older = l.older;
            })
            (omega arith) (λ j ne. head_other id j ids ne ∙ ap (count j) (sym e)) (λ j _. refl)
            (λ j k.
              let m = v.now j k in
              let lj = v.lives j m.conn m.found in
              elim (Bool-cases (j == id)) [
                | inl same ↦ record { conn = d.0; found = rw same refl; connected = m.connected }
                | inr other ↦ record {
                  conn = m.conn;
                  found = rw other m.found;
                  connected = m.connected;
                }
              ]);
    }

-- The connector hands a descriptor over, and the client has no connection.
module _ (t : TcpClient) (v : Inv t) (free : t.connection ≡ none) (fd : ℕ) (k : Connector)
    (is : k.state ≡ k_connected) where
  unused : count t.next_conn_id t.destroys ≡ 0
  unused = elim (Bool-cases (count t.next_conn_id t.destroys == 0)) [
    | inl zero_ ↦ ground arith
    | inr some_ ↦
        let w = v.known t.next_conn_id (ground arith) in
        absurd (let l = v.lives t.next_conn_id w.0 w.1 in omega (arith, l.older))
  ]

  new_connection-Serves : Serves (new_connection (record t { connector = k }) fd)
  unfolding new_connection put_object is_connection
  new_connection-Serves =
      let id = t.next_conn_id in
      let e = established-ConnAt (TcpConnection.new_connection fd) (new_connection-ConnAt fd) in
      let t' =
        put_object (record t { connector = k; next_conn_id = id + 1; connection = some id }) id
          e.0 in
      record {
        result = t';
        returns = simp e.1;
        inv =
            changed-Inv t t' v id e.0 (put_here t.objects id e.0) (put_there t.objects id e.0)
              (record {
                place = current;
                conn = e.2;
                ends = unused;
                held = ground arith;
                older = omega arith;
              })
              (omega arith) (λ j _. refl)
              (λ j ne.
                let other : (id == j) ≡ false = ground arith in
                other ∙ sym (ap (λ o. is_connection o j) free))
              (λ j h.
                let same : id ≡ j = cc in
                record {
                  conn = e.0;
                  found = let b : (j == id) ≡ true = ground arith in rw b refl;
                  connected = is;
                });
      }

pub hands_none : (t : TcpClient) (n : ℕ) (fds : List ℕ) → n ≡ 0 → new_connections n t fds ≡ ok t
unfolding new_connections
hands_none t n fds h = rw h refl

hands_one :
    (t : TcpClient) (n fd : ℕ) (fds : List ℕ)
    → n ≡ 1
    → new_connections n t (fd ∷ fds) ≡ new_connection t fd
unfolding new_connections
hands_one t n fd fds h = rw h refl

-- An event of the connector that returns.
connector_step-Serves :
    (t : TcpClient) (v : Inv t) (e : Connector.Event) (k : Connector)
    → is_clients e ≡ false
    → Connector.step t.connector e ≡ ok k
    → Serves (connector_step t e)
unfolding connector_step
connector_step-Serves t v e k n returns = rw returns (go t.connection refl)
  where
    before : List ℕ
    before = t.connector.handed_over

    handled : ℕ → List ℕ → Outcome TcpClient
    handled m fds = new_connections m (record t { connector = k }) fds

    nothing :
        (k.handed_over ≡ before)
        → ((id : ℕ) → t.connection ≡ some id → k.state ≡ k_connected)
        → Serves (handled (length k.handed_over - length before) k.handed_over)
    nothing same h = record {
      result = record t { connector = k };
      returns =
          hands_none (record t { connector = k }) _ k.handed_over (omega (arith, ap length same));
      inv = kept-Inv t t.retry t.connect_flag k v h;
    }

    go :
        (o : Option ℕ)
        → t.connection ≡ o
        → Serves (handled (length k.handed_over - length before) k.handed_over)
    go (some id) c =
        let m = v.now id c in
        let i = step-Idles t.connector m.connected e k n returns in nothing i.1 (λ _ _. i.0)
    go none c = elim (step-Hands t.connector e k n returns) [
      | inl same ↦ nothing same (λ id h. absurd (cc))
      | inr more ↦
          let r = new_connection-Serves t v c more.0 k more.2 in
          record {
            result = r.result;
            returns =
                ap (λ fds. handled (length fds - length before) fds) more.1
                ∙ hands_one (record t { connector = k }) _ more.0 before (omega arith)
                ∙ r.returns;
            inv = r.inv;
          }
    ]

-- The calls of the connector and of the connections return: those by the user, by the loop and by
-- the poller, and the start that a closed connection may call for.
abbrev pub Works : TcpClient → Happening → Type 0
Works t (connects in_loop a) = Returns (Connector.start t.connector in_loop a)
Works t (disconnects in_loop) = Unit {0}
Works t stops = Unit {0}
Works t retries = Unit {0}
Works t (connector_goes e) = (is_clients e ≡ false) × Returns (Connector.step t.connector e)
Works t (touches id e a) =
    (c : Conn) × (d : Conn) × (t.objects id ≡ some c)
    × (is_owners e ≡ false)
    × (TcpConnection.step c e ≡ ok d)
    × Returns (Connector.restart t.connector a)
Works t destroys_one = Unit {0}

abbrev pub AllWork : TcpClient → List Happening → Type 0
AllWork t [] = Unit {0}
AllWork t (h ∷ hs) = Works t h × on_ok (step t h) (Unit {0}) (λ t'. AllWork t' hs)

step-Serves : (t : TcpClient) (h : Happening) → Inv t → Works t h → Serves (step t h)
unfolding step connect stop enable_retry
step-Serves t (connects in_loop a) v w = record {
  result = record t { connect_flag = true; connector = w.0 };
  returns = simp w.1;
  inv =
      kept-Inv t t.retry true w.0 v
        (λ id e. start-Idles t.connector (v.now id e).connected in_loop a w.0 w.1);
}
step-Serves t (disconnects in_loop) v w = disconnect-Serves t in_loop v
step-Serves t stops v w = record {
  result = stop t;
  returns = refl;
  inv =
      kept-Inv t t.retry false (Connector.stop t.connector) v
        (λ id e. stop-state t.connector ∙ (v.now id e).connected);
}
step-Serves t retries v w = record {
  result = enable_retry t;
  returns = refl;
  inv = kept-Inv t true t.connect_flag t.connector v (λ id e. (v.now id e).connected);
}
step-Serves t (connector_goes e) v w = connector_step-Serves t v e w.1.0 w.0 w.1.1
step-Serves t (touches id e a) v w = touch-Serves t v id w.0 e a w.1 w.2 w.3 w.4 w.5
step-Serves t destroys_one v w = run_destroys-Serves t v t.destroys refl

run-Serves : (t : TcpClient) (hs : List Happening) → Inv t → AllWork t hs → Serves (run t hs)
unfolding run
run-Serves t [] v w = record { result = t; returns = refl; inv = v }
run-Serves t (h ∷ hs) v w =
    let r = step-Serves t h v w.0 in
    let rest : AllWork r.result hs = rw r.returns at w.1 in
    rw r.returns (run-Serves r.result hs r.inv rest)

new_client-Inv : Inv new_client
unfolding new_client
new_client-Inv = record {
  lives = λ id c e. absurd (cc);
  known = λ id k. absurd (omega (arith, k));
  now = λ id e. absurd (cc);
}

-- However the user, the connector, the connections and the loop take turns, while the calls on the
-- connector and the connections themselves return, no call of the client fails: whichever connection
-- closes is the client's own, as its assertion says, and is ended once, after it was established. At
-- most one connection is open, the connector is connected while there is one, and a new one never
-- takes the place of an open one.
pub run-new_client : (hs : List Happening) → AllWork new_client hs → Serves (run new_client hs)
run-new_client hs w = run-Serves new_client hs new_client-Inv w
