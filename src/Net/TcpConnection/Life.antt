-- ===== src/Net/TcpConnection/Life.antt =====
-- The whole life of a connection of net/TcpConnection.cc, from its constructor through any sequence of
-- events.
use leaf.Shared.{
  ℕ, Bool, true, ◌≡◌, refl, arith, ap, ◌∙◌, subst, false, List, [], ◌∷◌, ◌++◌, append_assoc,
}
use leaf.Shared.Outcome.{Outcome, ok, assert_failed, out_of_bounds, length_error, >>=-eq-ok}
use leaf.Net.Buffer.Transfer.{new_buffer-IsValid, new_buffer-content}
use leaf.Net.Channel.{is_none_event, is_writing, remove, new_channel}
use leaf.Net.TcpConnection.{
  disconnecting, Conn, is_open, is_connected, shutdown, shutdown_in_loop, queue_in_loop, shuts,
  destroys, new_connection, leave_connected, connect_destroyed, Event, step, run,
}
use leaf.Net.TcpConnection.Bytes.{stream, Inv}
use leaf.Net.TcpConnection.Protocol.{before, Protocol, Keeps, Keeps-refl}
use leaf.Net.TcpConnection.Steps.{Possible, given, step-Keeps}

-- What holds of the connection, where there is one.
abbrev pub on_ok {ℓ κ} : {A : Type ℓ} {B : Type κ} → Outcome A → B → (A → B) → B
on_ok (ok a) b f = f a
on_ok assert_failed b f = b
on_ok out_of_bounds b f = b
on_ok length_error b f = b

-- Every event of the sequence is possible when it comes.
abbrev pub AllPossible : Conn → List Event → Type 0
AllPossible c [] = Unit {0}
AllPossible c (e ∷ es) = Possible c e × on_ok (step c e) (Unit {0}) (λ c'. AllPossible c' es)

-- The bytes that the sequence takes over, in the order of the events.
abbrev pub all_given : Conn → List Event → List ℕ
all_given c [] = []
all_given c (e ∷ es) = given c e ++ on_ok (step c e) [] (λ c'. all_given c' es)

run-Keeps :
    (c : Conn) (es : List Event) (d : Conn)
    → Inv c
    → Protocol c
    → AllPossible c es
    → run c es ≡ ok d
    → Keeps c (all_given c es) d
unfolding run
run-Keeps c [] d v p h e = subst (Keeps c []) (let q : c ≡ d = cc in q) (Keeps-refl c v p)
run-Keeps c (x ∷ es) d v p h e =
    let (c', e1, e2) = >>=-eq-ok (step c x) (λ c'. run c' es) e in
    let k = step-Keeps c x c' v p h.0 e1 in
    let rest : AllPossible c' es = rw e1 at h.1 in
    let r = run-Keeps c' es d k.inv k.protocol rest e2 in
    rw e1 (record {
      inv = r.inv;
      protocol = r.protocol;
      joined =
          r.joined
          ∙ ap (λ xs. xs ++ all_given c' es) k.joined
          ∙ append_assoc (stream c) (given c x) (all_given c' es);
    })

new_connection-Inv : (fd : ℕ) → Inv (new_connection fd)
unfolding new_connection is_writing new_channel
new_connection-Inv fd = record {
  output_valid = new_buffer-IsValid;
  input_valid = new_buffer-IsValid;
  idle = λ _ _. new_buffer-content;
  busy = λ _ q. absurd (cc);
}

new_connection-Protocol : (fd : ℕ) → Protocol (new_connection fd)
unfolding new_connection new_channel is_open
new_connection-Protocol fd = record { phase = before; heard = refl; fits = refl; reads = refl }

pub run-new_connection :
    (fd : ℕ) (es : List Event) (d : Conn)
    → AllPossible (new_connection fd) es
    → run (new_connection fd) es ≡ ok d
    → (stream d ≡ all_given (new_connection fd) es) × Inv d × Protocol d
unfolding new_connection
run-new_connection fd es d h e =
    let k =
      run-Keeps (new_connection fd) es d (new_connection-Inv fd) (new_connection-Protocol fd) h e in
    (
      k.joined ∙ ap (λ xs. xs ++ all_given (new_connection fd) es) new_buffer-content,
      k.inv,
      k.protocol,
    )

-- A connection that is closing waits for input, and cannot be destroyed.
closing-aborts :
    (c : Conn) → Protocol c → c.state ≡ disconnecting → connect_destroyed c ≡ assert_failed
unfolding connect_destroyed leave_connected remove is_connected is_open is_none_event
closing-aborts c p closing =
    let q : is_connected c.state ≡ false = ap is_connected closing in
    let watched : c.channel.events.pollin ≡ true = p.reads ∙ ap is_open closing in rw (q, watched)

shutdown-disconnecting :
    (c : Conn) (in_loop : Bool)
    → is_open c.state ≡ true
    → (shutdown c in_loop).state ≡ disconnecting
unfolding shutdown shutdown_in_loop queue_in_loop is_open is_connected
shutdown-disconnecting c in_loop h = ground arith

-- Whatever has happened to a new connection, while it is open, `connectDestroyed` after a call of
-- `shutdown` by the user ends the process: the connection is then closing, which leaves its channel
-- watching for input, and `Channel::remove` asserts that no event is watched.
pub connect_destroyed-aborts :
    (fd : ℕ) (es : List Event) (c : Conn) (in_loop : Bool)
    → AllPossible (new_connection fd) es
    → run (new_connection fd) es ≡ ok c
    → is_open c.state ≡ true
    → run c (shuts in_loop ∷ destroys ∷ []) ≡ assert_failed
unfolding run step
connect_destroyed-aborts fd es c in_loop h e o =
    let k = run-new_connection fd es c h e in
    let s = step-Keeps c (shuts in_loop) (shutdown c in_loop) k.1 k.2 tt refl in
    rw (closing-aborts (shutdown c in_loop) s.protocol (shutdown-disconnecting c in_loop o)) refl
