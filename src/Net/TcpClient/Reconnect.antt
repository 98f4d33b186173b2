-- ===== src/Net/TcpClient/Reconnect.antt =====
-- A client of net/TcpClient.cc whose connection has closed.
use leaf.Shared.{
  ℕ, zero, suc, ◌-◌, ◌≡◌, refl, sym, ap, ◌∙◌, subst, Bool, true, false, ◌&&◌, List, [], ◌∷◌, Option,
  none, some, length, arith,
}
use leaf.Shared.Outcome.{Outcome, ok, assert_failed, ◌>>=◌, assert, >>=-eq-ok, ok-injective}
use leaf.Net.Connector
use leaf.Net.Connector.{k_connected, Connector, Attempt}
use leaf.Net.Connector.Handing.{is_clients, step-Idles, start-Idles, stop-state, start_here-fails}
use leaf.Net.TcpConnection
use leaf.Net.TcpConnection.{Conn, connect_destroyed}
use leaf.Net.TcpConnection.Closing.{count_closed}
use leaf.Net.TcpClient.{
  TcpClient, put_object, connect, stop, disconnect_from, disconnect, is_connection, reconnect,
  remove_connection, close_callbacks, touch_object, touch, connector_step, destroy_object,
  run_destroys, Happening, connects, disconnects, stops, retries, enable_retry, connector_goes,
  touches, destroys_one, step, run,
}
use leaf.Net.TcpClient.Runs.{hands_none}

-- The connection is gone, and the connector still calls itself connected.
pub record Spent (t : TcpClient) : Type 0 where
  pub connected : t.connector.state ≡ k_connected
  pub none_ : t.connection ≡ none

-- Only the client starts and stops its connector.
abbrev pub AreOwn : List Happening → Type 0
AreOwn [] = Unit {0}
AreOwn (connector_goes e ∷ hs) = (is_clients e ≡ false) × AreOwn hs
AreOwn (_ ∷ hs) = AreOwn hs

callbacks-Spent :
    (n : ℕ) (t t' : TcpClient) (id : ℕ) (a : Attempt)
    → Spent t
    → close_callbacks n t id a ≡ ok t'
    → Spent t'
unfolding close_callbacks remove_connection is_connection
callbacks-Spent zero t t' id a s e = subst Spent (ok-injective e) s
callbacks-Spent (suc n) t t' id a s e = absurd (let k = s.none_ in let r = rw k at e in cc)

connector_step-Spent :
    (t t' : TcpClient) (e : Connector.Event)
    → Spent t
    → is_clients e ≡ false
    → connector_step t e ≡ ok t'
    → Spent t'
unfolding connector_step
connector_step-Spent t t' e s n h =
    let (k, e1, e2) = >>=-eq-ok (Connector.step t.connector e) _ h in
    let i = step-Idles t.connector s.connected e k n e1 in
    let t1 = record t { connector = k } in
    let same : length k.handed_over - length t.connector.handed_over ≡ 0 =
      omega (arith, ap length i.1) in
    subst Spent (ok-injective (sym (hands_none t1 _ k.handed_over same) ∙ e2))
      (record { connected = i.0; none_ = s.none_ })

destroys-Spent : (t t' : TcpClient) (q : List ℕ) → Spent t → run_destroys t q ≡ ok t' → Spent t'
unfolding run_destroys destroy_object put_object
destroys-Spent t t' [] s e = subst Spent (ok-injective e) s
destroys-Spent t t' (id ∷ ids) s e = go (t.objects id) e
  where
    go : (o : Option Conn) → destroy_object (record t { destroys = ids }) id o ≡ ok t' → Spent t'
    go none h = absurd (cc)
    go (some c) h =
        let (d, e1, e2) = >>=-eq-ok (connect_destroyed c) _ h in
        subst Spent (ok-injective e2) (record { connected = s.connected; none_ = s.none_ })

touch-Spent :
    (t t' : TcpClient) (id : ℕ) (v : TcpConnection.Event) (a : Attempt) (o : Option Conn)
    → Spent t
    → touch_object t id v a o ≡ ok t'
    → Spent t'
unfolding touch_object put_object
touch-Spent t t' id v a none s e = absurd (cc)
touch-Spent t t' id v a (some c) s e =
    let (d, e1, e2) = >>=-eq-ok (TcpConnection.step c v) _ e in
    callbacks-Spent (count_closed d.calls - count_closed c.calls) (put_object t id d) t' id a
      (record { connected = s.connected; none_ = s.none_ }) e2

disconnect-Spent :
    (t t' : TcpClient) (in_loop : Bool) → Spent t → disconnect t in_loop ≡ ok t' → Spent t'
unfolding disconnect disconnect_from
disconnect-Spent t t' in_loop s e =
    let off = record t { connect_flag = false } in
    let same : disconnect_from off in_loop none ≡ ok t' =
      subst (λ o. disconnect_from off in_loop o ≡ ok t') s.none_ e in
    subst Spent (ok-injective same) (record { connected = s.connected; none_ = s.none_ })

step-Spent :
    (t t' : TcpClient) (h : Happening) → Spent t → AreOwn (h ∷ []) → step t h ≡ ok t' → Spent t'
unfolding step connect stop enable_retry touch
step-Spent t t' (connects in_loop a) s o e =
    let (k, e1, e2) = >>=-eq-ok (Connector.start t.connector in_loop a) _ e in
    subst Spent (ok-injective e2)
      (record { connected = start-Idles t.connector s.connected in_loop a k e1; none_ = s.none_ })
step-Spent t t' (disconnects in_loop) s o e = disconnect-Spent t t' in_loop s e
step-Spent t t' stops s o e =
    subst Spent (ok-injective e)
      (record { connected = stop-state t.connector ∙ s.connected; none_ = s.none_ })
step-Spent t t' retries s o e =
    subst Spent (ok-injective e) (record { connected = s.connected; none_ = s.none_ })
step-Spent t t' (connector_goes v) s o e = connector_step-Spent t t' v s o.0 e
step-Spent t t' (touches id v a) s o e = touch-Spent t t' id v a (t.objects id) s e
step-Spent t t' destroys_one s o e = destroys-Spent t t' t.destroys s e

first_own : (h : Happening) (hs : List Happening) → AreOwn (h ∷ hs) → AreOwn (h ∷ []) × AreOwn hs
first_own (connector_goes e) hs o = ((o.0, tt), o.1)
first_own (connects in_loop a) hs o = (tt, o)
first_own (disconnects in_loop) hs o = (tt, o)
first_own stops hs o = (tt, o)
first_own retries hs o = (tt, o)
first_own (touches id e a) hs o = (tt, o)
first_own destroys_one hs o = (tt, o)

run-Spent :
    (hs : List Happening) (t t' : TcpClient) → Spent t → AreOwn hs → run t hs ≡ ok t' → Spent t'
unfolding run
run-Spent [] t t' s o e = subst Spent (ok-injective e) s
run-Spent (h ∷ hs) t t' s o e =
    let (q, e1, e2) = >>=-eq-ok (step t h) _ e in
    let p = first_own h hs o in run-Spent hs q t' (step-Spent t q h s p.0 e1) p.1 e2

removed-Spent :
    (t t' : TcpClient) (id : ℕ) (a : Attempt)
    → t.connector.state ≡ k_connected
    → (t.retry && t.connect_flag) ≡ false
    → remove_connection t id a ≡ ok t'
    → Spent t'
unfolding remove_connection reconnect
removed-Spent t t' id a k no_retry e =
    let (u, e1, e2) = >>=-eq-ok (assert (is_connection t.connection id)) _ e in
    subst Spent (ok-injective (rw no_retry at e2)) (record { connected = k; none_ = refl })

-- After a connection has closed of which the client does not try again, whatever happens to the client
-- while its calls return, it has no connection, and `connect` in the loop fails at the connector's
-- assertion.
pub remove_connection-spends :
    (t t' t'' : TcpClient) (id : ℕ) (a b : Attempt) (hs : List Happening)
    → t.connector.state ≡ k_connected
    → (t.retry && t.connect_flag) ≡ false
    → remove_connection t id a ≡ ok t'
    → AreOwn hs
    → run t' hs ≡ ok t''
    → (t''.connection ≡ none) × (connect t'' true b ≡ assert_failed)
unfolding connect
remove_connection-spends t t' t'' id a b hs k no_retry e own r =
    let s = run-Spent hs t' t'' (removed-Spent t t' id a k no_retry e) own r in
    (
      s.none_,
      ap
          (λ (x : Outcome Connector).
            x >>= λ c. ok (record t'' { connect_flag = true; connector = c }))
          (start_here-fails t''.connector s.connected b),
    )
