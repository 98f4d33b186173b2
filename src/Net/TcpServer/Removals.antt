-- ===== src/Net/TcpServer/Removals.antt =====
-- Calls of the connections of net/TcpServer.cc, their removal and their end.
use leaf.Shared.{
  ℕ, ◌-◌, ◌≡◌, ◌≢◌, refl, ap, ◌∙◌, inl, inr, subst, true, false, Bool-cases, List, [], ◌∷◌, ◌++◌,
  Option, some, ◌==◌, if◌then◌else◌, arith,
}
use leaf.Shared.Outcome.{Outcome, ok, ◌>>=◌}
use leaf.Net.TcpConnection
use leaf.Net.TcpConnection.{Conn, Event, new_connection, connect_established, connect_destroyed}
use leaf.Net.TcpConnection.Closing.{count_closed, is_owners, step-Goes}
use leaf.Net.EventLoopThreadPool.{base_loop}
use leaf.Net.TcpServer.{
  destroy, Task, remove_task, Connection, TcpServer, erased, erase, put_object, queue_in_io,
  remove_object, remove_connection_in_loop, remove_connection, close_callbacks, touch_object, touch,
}
use leaf.Net.TcpServer.Names.{erased-erase, erased-erase_other}
use leaf.Net.TcpServer.Stages.{live, leaving, removed, ConnAt, IsAt, Stays-ConnAt, Closes-ConnAt}
use leaf.Net.TcpServer.Lives.{removals_of, removals_of-append, Lives, Inv, changed-Inv}
use leaf.Net.TcpServer.Accepting.{Serves, put_here, put_there, put-Inv}

module _ (s : TcpServer) (v : Inv s) (id : ℕ) (c : Connection) (l : Lives s id c) where
  -- A removed connection, whose end is on the way.
  pub removed-Inv :
      (d : Connection) (q : List Task) (o : ℕ → Option Connection)
      → o id ≡ some (record d { queued = d.queued ++ destroy ∷ [] })
      → ((j : ℕ) → j ≢ id → o j ≡ s.objects j)
      → d.name ≡ c.name
      → d.queued ≡ []
      → ConnAt removed d.conn
      → removals_of id q ≡ 0
      → ((j : ℕ) → j ≢ id → removals_of j q ≡ removals_of j s.base_queue)
      → Inv (record s { connections = erase d.name s.connections; base_queue = q; objects = o })
  removed-Inv d q o here there n e conn gone same =
      changed-Inv s v id s.next_conn_id (record d { queued = d.queued ++ destroy ∷ [] })
        (erase d.name s.connections) q o s.pool v.few (omega arith) here there
        (record {
          stage = removed;
          at = record {
            conn = conn;
            queue = ap (λ xs. xs ++ destroy ∷ []) e;
            mapped = erased-erase d.name s.connections;
            waits = gone;
          };
          named = n ∙ l.named;
          older = l.older;
        })
        (λ name ne. erased-erase_other d.name name s.connections ne) same v.ready

-- `removeConnectionInLoop` finds the connection in the map.
pub remove_found :
    (s : TcpServer) (id : ℕ) (c : Connection)
    → s.objects id ≡ some c
    → erased c.name s.connections ≡ 1
    → remove_connection_in_loop s id
      ≡ ok (queue_in_io (record s { connections = erase c.name s.connections }) id c destroy)
unfolding remove_connection_in_loop remove_object
remove_found s id c e one = simp (e, one)

one_more :
    (q : List Task) (id : ℕ) → removals_of id q ≡ 0 → removals_of id (q ++ remove_task id ∷ []) ≡ 1
one_more q id h =
    let e : (id == id) ≡ true = ground arith in
    let one : removals_of id (remove_task id ∷ []) ≡ 1 = rw e refl in
    omega (arith, removals_of-append id q (remove_task id ∷ []), one, h)

none_more :
    (q : List Task) (id j : ℕ) → j ≢ id → removals_of j (q ++ remove_task id ∷ []) ≡ removals_of j q
none_more q id j h =
    let e : (id == j) ≡ false = ground arith in
    let none_ : removals_of j (remove_task id ∷ []) ≡ 0 = rw e refl in
    omega (arith, removals_of-append j q (remove_task id ∷ []), none_)

-- The close callback of an established connection.
module _ (s : TcpServer) (v : Inv s) (id : ℕ) (c : Connection) (l : Lives s id c) (d : Conn)
    (is_live : l.stage ≡ live) (shut : ConnAt leaving d) where
  at_live : IsAt live c (erased c.name s.connections) (removals_of id s.base_queue)
  at_live =
      subst (λ st. IsAt st c (erased c.name s.connections) (removals_of id s.base_queue)) is_live
        l.at

  closed_here : Serves (remove_connection_in_loop (put_object s id (record c { conn = d })) id)
  unfolding put_object queue_in_io
  closed_here =
      let s1 = put_object s id (record c { conn = d }) in
      let c1 : Connection = record c { conn = d } in
      let c2 : Connection = record c1 { queued = c1.queued ++ destroy ∷ [] } in
      let o1 : ℕ → Option Connection = λ x. if x == id then some c1 else s.objects x in
      record {
        result = queue_in_io (record s1 { connections = erase c.name s.connections }) id c1 destroy;
        returns = remove_found s1 id c1 (put_here s.objects id c1) at_live.mapped;
        inv =
            removed-Inv s v id c l c1 s.base_queue (λ x. if x == id then some c2 else o1 x)
              (put_here o1 id c2) (λ j ne. put_there o1 id c2 j ne ∙ put_there s.objects id c1 j ne)
              refl at_live.queue shut at_live.waits (λ j _. refl);
      }

  closed_there : Inv (record (put_object s id (record c { conn = d })) {
    base_queue = s.base_queue ++ remove_task id ∷ [];
  })
  unfolding put_object
  closed_there =
      let c1 = record c { conn = d } in
      let q = s.base_queue ++ remove_task id ∷ [] in
      changed-Inv s v id s.next_conn_id c1 s.connections q
        (λ x. if x == id then some c1 else s.objects x) s.pool v.few (omega arith)
        (put_here s.objects id c1) (put_there s.objects id c1)
        (record {
          stage = leaving;
          at = record {
            conn = shut;
            queue = at_live.queue;
            mapped = at_live.mapped;
            waits = one_more s.base_queue id at_live.waits;
          };
          named = l.named;
          older = l.older;
        })
        (λ name _. refl) (none_more s.base_queue id) v.ready

  -- One call of the close callback.
  closed-Serves : Serves (close_callbacks 1 (put_object s id (record c { conn = d })) c.loop id)
  unfolding close_callbacks remove_connection put_object
  closed-Serves = elim (Bool-cases (c.loop == base_loop)) [
    | inl here ↦
        let r = closed_here in
        rw here (record {
          result = r.result;
          returns = ap (λ (x : Outcome TcpServer). x >>= λ y. ok y) r.returns;
          inv = r.inv;
        })
    | inr there ↦ rw there (record { result = _; returns = refl; inv = closed_there })
  ]

-- A call on a connection that returns, and is not the server's.
pub touch-Serves :
    (s : TcpServer) (v : Inv s) (id : ℕ) (c : Connection) (e : Event) (d : Conn)
    → s.objects id ≡ some c
    → is_owners e ≡ false
    → TcpConnection.step c.conn e ≡ ok d
    → Serves (touch s id e)
unfolding touch touch_object
touch-Serves s v id c e d found users returns =
    let l = v.lives id c found in
    let calls =
      (λ (n : ℕ). close_callbacks n (put_object s id (record c { conn = d })) c.loop id) in
    let reached : touch_object s id e (s.objects id)
        ≡ calls (count_closed d.calls - count_closed c.conn.calls) =
      simp (found, returns) in
    elim (step-Goes c.conn e d users returns) [
      | inl stays ↦
          let none_ : count_closed d.calls - count_closed c.conn.calls ≡ 0 =
            omega (arith, stays.closings) in
          record {
            result = put_object s id (record c { conn = d });
            returns = reached ∙ ap calls none_ ∙ unfold close_callbacks in refl;
            inv =
                put-Inv s v id c l (record c { conn = d }) l.stage refl
                  (record {
                    conn = Stays-ConnAt c.conn d stays l.stage l.at.conn;
                    queue = l.at.queue;
                    mapped = l.at.mapped;
                    waits = l.at.waits;
                  });
          }
      | inr closes_ ↦
          let one : count_closed d.calls - count_closed c.conn.calls ≡ 1 =
            omega (arith, closes_.closings) in
          let k = Closes-ConnAt c.conn d l.stage l.at.conn closes_ in
          let r = closed-Serves s v id c l d k.0 k.1 in
          record { result = r.result; returns = reached ∙ ap calls one ∙ r.returns; inv = r.inv }
    ]
