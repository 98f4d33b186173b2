-- ===== src/Net/TcpConnection/Steps.antt =====
-- What each operation of net/TcpConnection.cc does to the stream and to the user's calls.
use leaf.Shared.{
  ℕ, ◌≤◌, ◌≡◌, refl, sym, ap, ◌∙◌, inl, inr, subst, Bool, true, false, List, [], ◌∷◌, ◌++◌, some,
  length, if◌then◌else◌, append-nil, Bool-cases,
}
use leaf.Shared.Words.{max_size}
use leaf.Shared.Outcome.{ok, assert, >>=-eq-ok, assert-eq-ok, ok-injective}
use leaf.Net.Buffer.Content.{content}
use leaf.Net.Buffer.Transfer.{Readv, failed, delivered, read_fd, read_fd-ok}
use leaf.Net.Channel.{
  Channel, Events, is_none_event, is_writing, tie, enable_reading, disable_all, remove, update,
}
use leaf.Net.TcpConnection.{
  StateE, disconnected, connecting, connected, disconnecting, Conn, up, down, message, closed,
  is_open, is_disconnected, is_connecting, is_connected, Task, send_task, shutdown_task,
  force_close_task, write_complete, high_water_mark, queue_in_loop, call_user, Write,
  shutdown_in_loop, handle_close, handle_read, send, shutdown, force_close_in_loop, force_close,
  force_close_with_delay, connect_established, leave_connected, connect_destroyed, run_task, Event,
  sends, shuts, forces, forces_later, delay_over, establishes, destroys, reads, writes, closes,
  runs, step,
}
use leaf.Net.TcpConnection.Bytes.{stream, Inv, WithinWrite}
use leaf.Net.TcpConnection.Order.{taken, send_in_loop-Adds, handle_write-Adds}
use leaf.Net.TcpConnection.Protocol.{
  before, opened, gone, over, hear, hear-append, Fits, Protocol, Keeps, Adds-Keeps, Keeps-refl,
  open-opened, restate,
}

-- What the kernel and the poller guarantee: a read event only where input is watched, a write of at
-- most what is given; and no message longer than a string can be.
abbrev pub Possible : Conn → Event → Type 0
Possible c (sends in_loop bs errno w) = length bs ≤ max_size
Possible c (runs (send_task bs) errno w) = length bs ≤ max_size
Possible c (writes w) = WithinWrite (length (content c.output_buffer)) w
Possible c (reads (delivered bs)) = (c.channel.events.pollin ≡ true) × (length bs ≤ max_size)
Possible c _ = Unit {0}

-- The bytes that a step takes over from the user.
abbrev pub given : Conn → Event → List ℕ
given c (sends true bs errno w) = if is_connected c.state then taken c bs errno w else []
given c (runs (send_task bs) errno w) = taken c bs errno w
given c _ = []

-- Closing tells the user, in this order, that the connection is down and closed.
handle_close-Keeps : (c c' : Conn) → Inv c → Protocol c → handle_close c ≡ ok c' → Keeps c [] c'
unfolding handle_close call_user is_disconnected is_open disable_all update
handle_close-Keeps c c' v p e =
    let (u, e1, e2) = >>=-eq-ok (assert (is_open c.state)) _ e in
    let is_opened : p.phase ≡ opened =
      open-opened c.state p.phase (assert-eq-ok (is_open c.state) u e1) p.fits in
    let one : hear before (c.calls ++ down ∷ []) ≡ some gone =
      hear-append before c.calls down opened gone (p.heard ∙ ap some is_opened) refl in
    subst (Keeps c []) (ok-injective e2) (record {
      inv = record {
        output_valid = v.output_valid;
        input_valid = v.input_valid;
        idle = λ a _. absurd (cc);
        busy = λ a _. absurd (cc);
      };
      protocol = record {
        phase = over;
        heard = hear-append before (c.calls ++ down ∷ []) closed gone over one refl;
        fits = inr refl;
        reads = refl;
      };
      joined = sym (append-nil (stream c));
    })

watched-open : (c : Conn) → Protocol c → c.channel.events.pollin ≡ true → is_open c.state ≡ true
watched-open c p h = sym p.reads ∙ h

handle_read-Keeps :
    (c : Conn) (r : Readv) (c' : Conn)
    → Inv c
    → Protocol c
    → Possible c (reads r)
    → handle_read c r ≡ ok c'
    → Keeps c [] c'
unfolding handle_read call_user
handle_read-Keeps c (failed errno) c' v p h e =
    subst (Keeps c []) (ok-injective e) (Keeps-refl c v p)
handle_read-Keeps c (delivered []) c' v p h e = handle_close-Keeps c c' v p e
handle_read-Keeps c (delivered (x ∷ xs)) c' v p h e =
    let (r, e1, e2) = >>=-eq-ok (read_fd c.input_buffer (delivered (x ∷ xs))) _ e in
    let w = read_fd-ok c.input_buffer v.input_valid (x ∷ xs) r h.1 e1 in
    let is_opened : p.phase ≡ opened = open-opened c.state p.phase (watched-open c p h.0) p.fits in
    subst (Keeps c []) (ok-injective e2) (record {
      inv = record {
        output_valid = v.output_valid;
        input_valid = w.0;
        idle = v.idle;
        busy = v.busy;
      };
      protocol = record {
        phase = opened;
        heard = hear-append before c.calls message opened opened (p.heard ∙ ap some is_opened) refl;
        fits = subst (Fits c.state) is_opened p.fits;
        reads = p.reads;
      };
      joined = sym (append-nil (stream c));
    })

is-connecting : (s : StateE) → is_connecting s ≡ true → s ≡ connecting
unfolding is_connecting
is-connecting connecting h = refl
is-connecting connected h = absurd (cc)
is-connecting disconnecting h = absurd (cc)
is-connecting disconnected h = absurd (cc)

connect_established-Keeps :
    (c c' : Conn) → Inv c → Protocol c → connect_established c ≡ ok c' → Keeps c [] c'
unfolding connect_established call_user is_connecting is_open is_disconnected enable_reading update
    tie is_writing
connect_established-Keeps c c' v p e =
    let (u, e1, e2) = >>=-eq-ok (assert (is_connecting c.state)) _ e in
    let fresh : c.state ≡ connecting =
      is-connecting c.state (assert-eq-ok (is_connecting c.state) u e1) in
    let is_before : p.phase ≡ before = subst (λ s. Fits s p.phase) fresh p.fits in
    let alive : is_disconnected c.state ≡ false = ap is_disconnected fresh in
    subst (Keeps c []) (ok-injective e2) (record {
      inv = record {
        output_valid = v.output_valid;
        input_valid = v.input_valid;
        idle = λ _ q. v.idle alive q;
        busy = λ _ q. v.busy alive q;
      };
      protocol = record {
        phase = opened;
        heard = hear-append before c.calls up before opened (p.heard ∙ ap some is_before) refl;
        fits = refl;
        reads = refl;
      };
      joined = sym (append-nil (stream c));
    })

remove_events : (ch ch' : Channel) → remove ch ≡ ok ch' → ch'.events ≡ ch.events
unfolding remove
remove_events ch ch' e =
    let (u, _, e2) = >>=-eq-ok (assert (is_none_event ch)) _ e in
    let (w, _, e4) = >>=-eq-ok (assert ch.added) _ e2 in ap (λ x. x.events) (sym (ok-injective e4))

is-connected : (s : StateE) → is_connected s ≡ true → s ≡ connected
unfolding is_connected
is-connected connected h = refl
is-connected connecting h = absurd (cc)
is-connected disconnecting h = absurd (cc)
is-connected disconnected h = absurd (cc)

connected-open : (c : Conn) → is_connected c.state ≡ true → is_open c.state ≡ true
unfolding is_open
connected-open c h = ap is_open (is-connected c.state h)

leave-Keeps : (c : Conn) → Inv c → Protocol c → Keeps c [] (leave_connected c)
unfolding leave_connected call_user disable_all update is_disconnected is_open
leave-Keeps c v p = elim (Bool-cases (is_connected c.state)) [
  | inr shut ↦ rw shut (Keeps-refl c v p)
  | inl alive ↦
      let is_opened : p.phase ≡ opened =
        open-opened c.state p.phase (connected-open c alive) p.fits in
      rw alive (record {
        inv = record {
          output_valid = v.output_valid;
          input_valid = v.input_valid;
          idle = λ a _. absurd (cc);
          busy = λ a _. absurd (cc);
        };
        protocol = record {
          phase = gone;
          heard = hear-append before c.calls down opened gone (p.heard ∙ ap some is_opened) refl;
          fits = inl refl;
          reads = refl;
        };
        joined = sym (append-nil (stream c));
      })
]

removed-Keeps :
    (c d : Conn) (k : Keeps c [] d) (ch : Channel)
    → ch.events ≡ d.channel.events
    → Keeps c [] (record d { channel = ch })
unfolding is_writing
removed-Keeps c d k ch same = record {
  inv = record {
    output_valid = k.inv.output_valid;
    input_valid = k.inv.input_valid;
    idle = λ a b. k.inv.idle a (sym (ap (λ (x : Events). x.pollout) same) ∙ b);
    busy = λ a b. k.inv.busy a (sym (ap (λ (x : Events). x.pollout) same) ∙ b);
  };
  protocol = record {
    phase = k.protocol.phase;
    heard = k.protocol.heard;
    fits = k.protocol.fits;
    reads = ap (λ (x : Events). x.pollin) same ∙ k.protocol.reads;
  };
  joined = k.joined;
}

connect_destroyed-Keeps :
    (c c' : Conn) → Inv c → Protocol c → connect_destroyed c ≡ ok c' → Keeps c [] c'
unfolding connect_destroyed
connect_destroyed-Keeps c c' v p e =
    let (ch, e1, e2) = >>=-eq-ok (remove (leave_connected c).channel) _ e in
    let k = leave-Keeps c v p in
    subst (Keeps c []) (ok-injective e2)
      (removed-Keeps c (leave_connected c) k ch (remove_events (leave_connected c).channel ch e1))

shutdown_in_loop-Keeps : (c : Conn) → Inv c → Protocol c → Keeps c [] (shutdown_in_loop c)
unfolding shutdown_in_loop
shutdown_in_loop-Keeps c v p = elim (Bool-cases (is_writing c.channel)) [
  | inl waits ↦ rw waits (Keeps-refl c v p)
  | inr empty ↦ rw empty (restate c v p _ refl refl refl refl refl (inl refl))
]

shutdown-Keeps : (c : Conn) (in_loop : Bool) → Inv c → Protocol c → Keeps c [] (shutdown c in_loop)
unfolding shutdown shutdown_in_loop queue_in_loop
shutdown-Keeps c false v p = elim (Bool-cases (is_connected c.state)) [
  | inr shut ↦ rw shut (Keeps-refl c v p)
  | inl alive ↦
      rw alive (restate c v p _ refl refl refl refl refl (inr (connected-open c alive, refl)))
]
shutdown-Keeps c true v p = elim (Bool-cases (is_connected c.state)) [
  | inr shut ↦ rw shut (Keeps-refl c v p)
  | inl alive ↦ elim (Bool-cases (is_writing c.channel)) [
    | inl waits ↦
        rw (alive, waits)
          (restate c v p _ refl refl refl refl refl (inr (connected-open c alive, refl)))
    | inr empty ↦
        rw (alive, empty)
          (restate c v p _ refl refl refl refl refl (inr (connected-open c alive, refl)))
  ]
]

force_close-Keeps : (c : Conn) → Inv c → Protocol c → Keeps c [] (force_close c)
unfolding force_close queue_in_loop
force_close-Keeps c v p = elim (Bool-cases (is_open c.state)) [
  | inl open_ ↦ rw open_ (restate c v p _ refl refl refl refl refl (inr (open_, refl)))
  | inr shut ↦ rw shut (Keeps-refl c v p)
]

force_close_with_delay-Keeps :
    (c : Conn) → Inv c → Protocol c → Keeps c [] (force_close_with_delay c)
unfolding force_close_with_delay
force_close_with_delay-Keeps c v p = elim (Bool-cases (is_open c.state)) [
  | inl open_ ↦ rw open_ (restate c v p _ refl refl refl refl refl (inr (open_, refl)))
  | inr shut ↦ rw shut (Keeps-refl c v p)
]

force_close_in_loop-Keeps :
    (c c' : Conn) → Inv c → Protocol c → force_close_in_loop c ≡ ok c' → Keeps c [] c'
unfolding force_close_in_loop
force_close_in_loop-Keeps c c' v p e = elim (Bool-cases (is_open c.state)) [
  | inl open_ ↦ handle_close-Keeps c c' v p (rw open_ at e)
  | inr shut ↦
      let same : c ≡ c' = ok-injective (rw shut at e) in subst (Keeps c []) same (Keeps-refl c v p)
]

send-Keeps :
    (c : Conn) (in_loop : Bool) (bs : List ℕ) (errno : ℕ) (w : Write) (c' : Conn)
    → Inv c
    → Protocol c
    → length bs ≤ max_size
    → send c in_loop bs errno w ≡ ok c'
    → Keeps c (given c (sends in_loop bs errno w)) c'
unfolding send queue_in_loop
send-Keeps c false bs errno w c' v p small e = elim (Bool-cases (is_connected c.state)) [
  | inr shut ↦ subst (Keeps c []) (ok-injective (rw shut at e)) (Keeps-refl c v p)
  | inl alive ↦
      subst (Keeps c []) (ok-injective (rw alive at e))
        (restate c v p (queue_in_loop c (send_task bs)) refl refl refl refl refl (inl refl))
]
send-Keeps c true bs errno w c' v p small e = elim (Bool-cases (is_connected c.state)) [
  | inr shut ↦ rw shut (subst (Keeps c []) (ok-injective (rw shut at e)) (Keeps-refl c v p))
  | inl alive ↦ rw alive (
      Adds-Keeps c (taken c bs errno w) c' p
        (send_in_loop-Adds c bs errno w c' v small (rw alive at e)))
]

run_task-Keeps :
    (c : Conn) (t : Task) (errno : ℕ) (w : Write) (c' : Conn)
    → Inv c
    → Protocol c
    → Possible c (runs t errno w)
    → run_task c t errno w ≡ ok c'
    → Keeps c (given c (runs t errno w)) c'
unfolding run_task
run_task-Keeps c (send_task bs) errno w c' v p small e =
    Adds-Keeps c (taken c bs errno w) c' p (send_in_loop-Adds c bs errno w c' v small e)
run_task-Keeps c shutdown_task errno w c' v p h e =
    subst (Keeps c []) (ok-injective e) (shutdown_in_loop-Keeps c v p)
run_task-Keeps c force_close_task errno w c' v p h e = force_close_in_loop-Keeps c c' v p e
run_task-Keeps c write_complete errno w c' v p h e =
    subst (Keeps c []) (ok-injective e) (Keeps-refl c v p)
run_task-Keeps c (high_water_mark n) errno w c' v p h e =
    subst (Keeps c []) (ok-injective e) (Keeps-refl c v p)

-- Whenever a step returns, the invariant and the protocol of the user's calls hold again, and what
-- the step took over has joined the stream.
pub step-Keeps :
    (c : Conn) (e : Event) (c' : Conn)
    → Inv c
    → Protocol c
    → Possible c e
    → step c e ≡ ok c'
    → Keeps c (given c e) c'
unfolding step
step-Keeps c (sends in_loop bs errno w) c' v p h e = send-Keeps c in_loop bs errno w c' v p h e
step-Keeps c (shuts in_loop) c' v p h e =
    subst (Keeps c []) (ok-injective e) (shutdown-Keeps c in_loop v p)
step-Keeps c forces c' v p h e = subst (Keeps c []) (ok-injective e) (force_close-Keeps c v p)
step-Keeps c forces_later c' v p h e =
    subst (Keeps c []) (ok-injective e) (force_close_with_delay-Keeps c v p)
step-Keeps c delay_over c' v p h e = force_close_in_loop-Keeps c c' v p e
step-Keeps c establishes c' v p h e = connect_established-Keeps c c' v p e
step-Keeps c destroys c' v p h e = connect_destroyed-Keeps c c' v p e
step-Keeps c (reads r) c' v p h e = handle_read-Keeps c r c' v p h e
step-Keeps c (writes w) c' v p h e = Adds-Keeps c [] c' p (handle_write-Adds c w c' v h e)
step-Keeps c closes c' v p h e = handle_close-Keeps c c' v p e
step-Keeps c (runs t errno w) c' v p h e = run_task-Keeps c t errno w c' v p h e
