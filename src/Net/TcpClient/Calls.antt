-- ===== src/Net/TcpClient/Calls.antt =====
-- Calls of the user and of the connection of net/TcpClient.cc.
use leaf.Shared.{
  ℕ, ◌-◌, ◌≡◌, ◌≢◌, refl, sym, ap, ◌∙◌, inl, inr, Bool, true, false, Bool-cases, ◌&&◌, [], ◌∷◌,
  ◌++◌, Option, none, some, ◌==◌, if◌then◌else◌, arith, count, count-append,
}
use leaf.Shared.Outcome.{Outcome, ok, ◌>>=◌}
use leaf.Net.Connector
use leaf.Net.Connector.{k_connected, Connector, Attempt}
use leaf.Net.TcpConnection
use leaf.Net.TcpConnection.{Conn, Event, connect_established, connect_destroyed}
use leaf.Net.TcpConnection.Closing.{count_closed, is_owners, step-Goes, shutdown-Stays}
use leaf.Net.TcpServer.Stages.{live, removed, ConnAt, Stays-ConnAt, Closes-ConnAt}
use leaf.Net.TcpClient.{
  TcpClient, put_object, shutdown_object, disconnect_from, disconnect, is_connection, reconnect,
  remove_connection, close_callbacks, touch_object, touch,
}
use leaf.Net.TcpClient.Lives.{
  Place, current, waiting, gone, stage_of, ends_at, is_current, Lives, Inv, Serves, changed-Inv,
  kept-Inv,
}

pub put_here :
    (o : ℕ → Option Conn) (id : ℕ) (c : Conn) → (if id == id then some c else o id) ≡ some c
put_here o id c = ground arith

pub put_there :
    (o : ℕ → Option Conn) (id : ℕ) (c : Conn) (j : ℕ)
    → j ≢ id
    → (if j == id then some c else o j) ≡ o j
put_there o id c j h = let e : (j == id) ≡ false = ground arith in rw e

is-connection : (o : Option ℕ) (id : ℕ) → is_connection o id ≡ true → o ≡ some id
unfolding is_connection
is-connection none id h = absurd (cc)
is-connection (some x) id h = let e : x ≡ id = ground arith in ap some e

held_by : (o : Option ℕ) (id : ℕ) → o ≡ some id → is_connection o id ≡ true
unfolding is_connection
held_by none id h = absurd (cc)
held_by (some x) id h = let e : x ≡ id = cc in ground arith

-- The place of the client's connection.
place-current : (p : Place) → is_current p ≡ true → p ≡ current
place-current current h = refl
place-current waiting h = absurd (cc)
place-current gone h = absurd (cc)

live-current : (p : Place) → stage_of p ≡ live → p ≡ current
live-current current h = refl
live-current waiting h = absurd (cc)
live-current gone h = absurd (cc)

-- An object changes at its place.
pub put-Inv :
    (t : TcpClient) (v : Inv t) (id : ℕ) (c d : Conn)
    → t.objects id ≡ some c
    → (l : Lives t id c) → ConnAt (stage_of l.place) d
    → Inv (put_object t id d)
unfolding put_object
put-Inv t v id c d found l at =
    changed-Inv t (put_object t id d) v id d (put_here t.objects id d) (put_there t.objects id d)
      (record { place = l.place; conn = at; ends = l.ends; held = l.held; older = l.older })
      (omega arith) (λ j _. refl) (λ j _. refl)
      (λ j e.
        let n = v.now j e in
        let k = v.lives j n.conn n.found in
        elim (Bool-cases (j == id)) [
          | inl same ↦
              let ji : j ≡ id = ground arith in
              record { conn = d; found = rw same refl; connected = n.connected }
          | inr other ↦ record { conn = n.conn; found = rw other n.found; connected = n.connected }
        ])

-- `disconnect` always returns.
pub disconnect-Serves : (t : TcpClient) (in_loop : Bool) → Inv t → Serves (disconnect t in_loop)
unfolding disconnect disconnect_from shutdown_object
disconnect-Serves t in_loop v = go t.connection refl
  where
    s : TcpClient
    s = record t { connect_flag = false }

    w : Inv s
    w = kept-Inv t t.retry false t.connector v (λ id e. (v.now id e).connected)

    go : (o : Option ℕ) → t.connection ≡ o → Serves (disconnect_from s in_loop o)
    go none e = record { result = s; returns = refl; inv = w }
    go (some id) e =
        let n = v.now id e in
        let l = w.lives id n.conn n.found in
        let d = TcpConnection.shutdown n.conn in_loop in
        record {
          result = put_object s id d;
          returns = rw n.found refl;
          inv =
              put-Inv s w id n.conn d n.found l
                (Stays-ConnAt n.conn d (shutdown-Stays n.conn in_loop) (stage_of l.place) l.conn);
        }

abbrev pub Returns : {A : Type 0} → Outcome A → Type 0
Returns {A} r = (a : A) × (r ≡ ok a)

-- The close callback of the client's connection.
module _ (t : TcpClient) (v : Inv t) (id : ℕ) (c d : Conn) (found : t.objects id ≡ some c)
    (l : Lives t id c) (is : l.place ≡ current) (shut : ConnAt removed d) where
  left : TcpClient
  left = record (put_object t id d) { connection = none; destroys = t.destroys ++ id ∷ [] }

  ends_more : (j : ℕ) → j ≢ id → count j (t.destroys ++ id ∷ []) ≡ count j t.destroys
  ends_more j h =
      let e : (id == j) ≡ false = ground arith in
      let none_ : count j (id ∷ []) ≡ 0 = rw e refl in
      omega (arith, count-append j t.destroys (id ∷ []), none_)

  ends_here : count id (t.destroys ++ id ∷ []) ≡ 1
  ends_here =
      let e : (id == id) ≡ true = ground arith in
      let one : count id (id ∷ []) ≡ 1 = rw e refl in
      let none_ : count id t.destroys ≡ 0 = l.ends ∙ ap ends_at is in
      omega (arith, count-append id t.destroys (id ∷ []), none_, one)

  held_here : t.connection ≡ some id
  held_here = is-connection t.connection id (l.held ∙ ap is_current is)

  held_there : (j : ℕ) → j ≢ id → false ≡ is_connection t.connection j
  unfolding is_connection
  held_there j h =
      let e : (id == j) ≡ false = ground arith in sym (ap (λ o. is_connection o j) held_here ∙ e)

  left-Inv : Inv left
  unfolding left put_object is_connection
  left-Inv =
      changed-Inv t left v id d (put_here t.objects id d) (put_there t.objects id d)
        (record { place = waiting; conn = shut; ends = ends_here; held = refl; older = l.older })
        (omega arith) ends_more held_there (λ j e. absurd (cc))

  -- The assertion holds; what is left is the connector's start.
  removed-Serves :
      (a : Attempt)
      → Returns (Connector.restart t.connector a)
      → Serves (remove_connection (put_object t id d) id a)
  unfolding remove_connection reconnect put_object left
  removed-Serves a k =
      let holds : is_connection t.connection id ≡ true = l.held ∙ ap is_current is in
      elim (Bool-cases (t.retry && t.connect_flag)) [
        | inl again ↦ record {
          result = record left { connector = k.0 };
          returns = simp (holds, again, k.1);
          inv = kept-Inv left left.retry left.connect_flag k.0 left-Inv (λ j e. absurd (cc));
        }
        | inr over ↦ record { result = left; returns = simp (holds, over); inv = left-Inv }
      ]

-- A call of a connection that returns, and is not the client's.
pub touch-Serves :
    (t : TcpClient) (v : Inv t) (id : ℕ) (c : Conn) (e : Event) (a : Attempt) (d : Conn)
    → t.objects id ≡ some c
    → is_owners e ≡ false
    → TcpConnection.step c e ≡ ok d
    → Returns (Connector.restart t.connector a)
    → Serves (touch t id e a)
unfolding touch touch_object
touch-Serves t v id c e a d found users returns k =
    let l = v.lives id c found in
    let calls = (λ (n : ℕ). close_callbacks n (put_object t id d) id a) in
    let reached : touch_object t id e a (t.objects id)
        ≡ calls (count_closed d.calls - count_closed c.calls) =
      simp (found, returns) in
    elim (step-Goes c e d users returns) [
      | inl stays ↦
          let none_ : count_closed d.calls - count_closed c.calls ≡ 0 =
            omega (arith, stays.closings) in
          record {
            result = put_object t id d;
            returns = reached ∙ ap calls none_ ∙ unfold close_callbacks in refl;
            inv = put-Inv t v id c d found l (Stays-ConnAt c d stays (stage_of l.place) l.conn);
          }
      | inr closes_ ↦
          let one : count_closed d.calls - count_closed c.calls ≡ 1 =
            omega (arith, closes_.closings) in
          let q = Closes-ConnAt c d (stage_of l.place) l.conn closes_ in
          let r = removed-Serves t v id c d found l (live-current l.place q.0) q.1 a k in
          record {
            result = r.result;
            returns =
                reached
                ∙ ap calls one
                ∙ unfold close_callbacks in
                  ap (λ (x : Outcome TcpClient). x >>= λ y. ok y) r.returns;
            inv = r.inv;
          }
    ]
