-- ===== src/Net/TcpConnection/Closing.antt =====
-- How a connection of net/TcpConnection.cc comes to be closed: what its owner can rely on.
use leaf.Shared.{
  leb, ℕ, suc, ◌+◌, ◌≡◌, refl, sym, ap, ◌∙◌, ◌⊎◌, inl, inr, subst, Bool, true, false, List, [], ◌∷◌,
  ◌++◌, arith, Bool-cases, if◌then◌else◌, length, drop, take, ltb, ◌-◌, not, ◌&&◌, ◌==◌,
}
use leaf.Shared.Outcome.{ok, ◌>>=◌, assert, >>=-eq-ok, assert-eq-ok, ok-injective}
use leaf.Net.Buffer.{append, retrieve, peek_range, readable_bytes}
use leaf.Net.Buffer.Transfer.{Readv, failed, delivered, read_fd}
use leaf.Net.Channel.{Channel, is_none_event, is_writing, disable_all, update}
use leaf.Net.TcpConnection.{
  StateE, disconnected, connecting, connected, disconnecting, Conn, UserCall, up, down, message,
  closed, is_open, is_disconnected, is_connecting, is_connected, Task, send_task, shutdown_task,
  force_close_task, write_complete, high_water_mark, queue_in_loop, call_user, Write, wrote,
  refused, Direct, direct_write, notice_high_water, buffer_rest, send_rest, keep_rest, send_in_loop,
  is_idle, shutdown_in_loop, drained, handle_write, handle_close, handle_read, send, shutdown,
  force_close_in_loop, force_close, force_close_with_delay, run_task, Event, sends, shuts, forces,
  forces_later, delay_over, establishes, destroys, reads, writes, closes, runs, step,
}

-- How often the close callback was called.
abbrev pub count_closed : List UserCall → ℕ
count_closed [] = 0
count_closed (closed ∷ us) = suc (count_closed us)
count_closed (up ∷ us) = count_closed us
count_closed (down ∷ us) = count_closed us
count_closed (message ∷ us) = count_closed us

-- The connection goes on as it was; a channel that watches nothing stays so when it is disconnected.
pub record Stays (c c' : Conn) : Type 0 where
  pub closings : count_closed c'.calls ≡ count_closed c.calls
  pub alive : is_disconnected c'.state ≡ is_disconnected c.state
  pub fresh : is_connecting c'.state ≡ is_connecting c.state
  pub channel :
      is_disconnected c.state ≡ true → is_none_event c.channel ≡ true → c'.channel ≡ c.channel

-- An open connection closes: the callback is called once, and the channel watches nothing.
pub record Closes (c c' : Conn) : Type 0 where
  pub was_open : is_open c.state ≡ true
  pub closings : count_closed c'.calls ≡ suc (count_closed c.calls)
  pub ends : c'.state ≡ disconnected
  pub unwatched : is_none_event c'.channel ≡ true
  pub added : c'.channel.added ≡ true

abbrev pub Goes : Conn → Conn → Type 0
Goes c c' = Stays c c' ⊎ Closes c c'

Stays-refl : (c : Conn) → Stays c c
Stays-refl c = record { closings = refl; alive = refl; fresh = refl; channel = λ _ _. refl }

-- Only the state, the calls and the channel count.
same-Stays :
    (c c' : Conn)
    → c'.state ≡ c.state
    → c'.calls ≡ c.calls
    → (is_disconnected c.state ≡ true → is_none_event c.channel ≡ true → c'.channel ≡ c.channel)
    → Stays c c'
same-Stays c c' s u ch = record {
  closings = ap count_closed u;
  alive = ap is_disconnected s;
  fresh = ap is_connecting s;
  channel = ch;
}

pub count_closed_one :
    (us : List UserCall) (u : UserCall)
    → count_closed (us ++ u ∷ []) ≡ count_closed us + count_closed (u ∷ [])
count_closed_one [] u = omega arith
count_closed_one (closed ∷ us) u = omega (arith, count_closed_one us u)
count_closed_one (up ∷ us) u = count_closed_one us u
count_closed_one (down ∷ us) u = count_closed_one us u
count_closed_one (message ∷ us) u = count_closed_one us u

handle_close-Closes : (c c' : Conn) → handle_close c ≡ ok c' → Closes c c'
unfolding handle_close call_user disable_all update is_none_event
handle_close-Closes c c' e =
    let (u, e1, e2) = >>=-eq-ok (assert (is_open c.state)) _ e in
    subst (Closes c) (ok-injective e2) (record {
      was_open = assert-eq-ok (is_open c.state) u e1;
      closings =
          omega
            (arith, count_closed_one (c.calls ++ down ∷ []) closed, count_closed_one c.calls down);
      ends = refl;
      unwatched = refl;
      added = refl;
    })

-- Neither the state nor the calls of the user change.
abbrev Alike : Conn → Conn → Type 0
Alike c c' = (c'.state ≡ c.state) × (c'.calls ≡ c.calls)

notice-Alike : (c : Conn) (n : ℕ) → Alike c (notice_high_water c n)
unfolding notice_high_water queue_in_loop
notice-Alike c n = ground arith

buffer_rest-Alike : (c : Conn) (bs : List ℕ) (c' : Conn) → buffer_rest c bs ≡ ok c' → Alike c c'
unfolding buffer_rest
buffer_rest-Alike c bs c' e =
    let (b, e1, e2) = >>=-eq-ok (append c.output_buffer bs) _ e in
    subst (Alike c) (ok-injective e2) (notice-Alike c (length bs))

direct_write-Alike :
    (c : Conn) (bs : List ℕ) (errno : ℕ) (w : Write) → Alike c (direct_write c bs errno w).conn
unfolding direct_write queue_in_loop
direct_write-Alike c bs errno (refused e) = (refl, refl)
direct_write-Alike c bs errno (wrote n) = ground arith

send_rest-Alike :
    (c : Conn) (d : Direct) (bs : List ℕ) (c' : Conn)
    → Alike c d.conn
    → send_rest d bs ≡ ok c'
    → Alike c c'
unfolding send_rest keep_rest
send_rest-Alike c d bs c' a e0 =
    let (u, e1, e) = >>=-eq-ok (assert (leb d.nwrote (length bs))) _ e0 in
    elim (Bool-cases (not d.fault && ltb 0 (length bs - d.nwrote))) [
      | inl more ↦
          let b = buffer_rest-Alike d.conn (drop d.nwrote bs) c' (rw more at e) in
          (b.0 ∙ a.0, b.1 ∙ a.1)
      | inr done ↦ subst (Alike c) (ok-injective (rw done at e)) a
    ]

send_in_loop-Stays :
    (c : Conn) (bs : List ℕ) (errno : ℕ) (w : Write) (c' : Conn)
    → send_in_loop c bs errno w ≡ ok c'
    → Stays c c'
unfolding send_in_loop
send_in_loop-Stays c bs errno w c' e = elim (Bool-cases (is_disconnected c.state)) [
  | inl gone ↦ subst (Stays c) (ok-injective (rw gone at e)) (Stays-refl c)
  | inr alive ↦
      let a : Alike c c' = elim (Bool-cases (is_idle c)) [
        | inl idle ↦
            send_rest-Alike c (direct_write c bs errno w) bs c' (direct_write-Alike c bs errno w)
              (rw (alive, idle) at e)
        | inr busy ↦
            send_rest-Alike c (record { conn = c; nwrote = 0; fault = false }) bs c' (refl, refl)
              (rw (alive, busy) at e)
      ] in
      same-Stays c c' a.0 a.1 (λ gone _. absurd (cc))
]

drained-Alike : (c : Conn) → Alike c (drained c)
unfolding drained queue_in_loop shutdown_in_loop
drained-Alike c = ground arith

unwatched-silent : (ch : Channel) → is_none_event ch ≡ true → is_writing ch ≡ false
unfolding is_none_event is_writing
unwatched-silent ch h = ground arith

write_out-Alike :
    (c : Conn) (n : ℕ) (c' : Conn)
    → (do
      bs ← peek_range c.output_buffer
      b ← retrieve c.output_buffer n
      let d = record c { output_buffer = b; sent = c.sent ++ take n bs }
      ok (if readable_bytes b == 0 then drained d else d))
      ≡ ok c'
    → Alike c c'
write_out-Alike c n c' e =
    let (bs, e1, e2) = >>=-eq-ok (peek_range c.output_buffer) _ e in
    let (b, e3, e4) = >>=-eq-ok (retrieve c.output_buffer n) _ e2 in
    let d = record c { output_buffer = b; sent = c.sent ++ take n bs } in
    elim (Bool-cases (readable_bytes b == 0)) [
      | inl empty ↦ subst (Alike c) (ok-injective (rw empty at e4)) (drained-Alike d)
      | inr left ↦ subst (Alike c) (ok-injective (rw left at e4)) (refl, refl)
    ]

handle_write-Stays : (c : Conn) (w : Write) (c' : Conn) → handle_write c w ≡ ok c' → Stays c c'
unfolding handle_write
handle_write-Stays c (refused e) c' h = subst (Stays c) (ok-injective h) (Stays-refl c)
handle_write-Stays c (wrote n) c' h = elim (Bool-cases (is_writing c.channel && ltb 0 n)) [
  | inr no_write ↦ subst (Stays c) (ok-injective (rw no_write at h)) (Stays-refl c)
  | inl some_written ↦
      let a = write_out-Alike c n c' (rw some_written at h) in
      same-Stays c c' a.0 a.1
        (λ _ none. absurd (let s = unwatched-silent c.channel none in ground arith))
]

handle_read-Goes : (c : Conn) (r : Readv) (c' : Conn) → handle_read c r ≡ ok c' → Goes c c'
unfolding handle_read call_user
handle_read-Goes c (failed errno) c' e = inl (subst (Stays c) (ok-injective e) (Stays-refl c))
handle_read-Goes c (delivered []) c' e = inr (handle_close-Closes c c' e)
handle_read-Goes c (delivered (x ∷ xs)) c' e =
    let (r, e1, e2) = >>=-eq-ok (read_fd c.input_buffer (delivered (x ∷ xs))) _ e in
    inl (
      subst (Stays c) (ok-injective e2) (record {
        closings = omega (arith, count_closed_one c.calls message);
        alive = refl;
        fresh = refl;
        channel = λ _ _. refl;
      }))

force_close_in_loop-Goes : (c c' : Conn) → force_close_in_loop c ≡ ok c' → Goes c c'
unfolding force_close_in_loop
force_close_in_loop-Goes c c' e = elim (Bool-cases (is_open c.state)) [
  | inl open_ ↦ inr (handle_close-Closes c c' (rw open_ at e))
  | inr shut ↦ inl (subst (Stays c) (ok-injective (rw shut at e)) (Stays-refl c))
]

send-Stays :
    (c : Conn) (in_loop : Bool) (bs : List ℕ) (errno : ℕ) (w : Write) (c' : Conn)
    → send c in_loop bs errno w ≡ ok c'
    → Stays c c'
unfolding send queue_in_loop
send-Stays c in_loop bs errno w c' e = elim (Bool-cases (is_connected c.state)) [
  | inr shut ↦ subst (Stays c) (ok-injective (rw shut at e)) (Stays-refl c)
  | inl alive ↦ elim (Bool-cases in_loop) [
    | inl here ↦ send_in_loop-Stays c bs errno w c' (rw (alive, here) at e)
    | inr there ↦
        subst (Stays c) (ok-injective (rw (alive, there) at e))
          (same-Stays c (queue_in_loop c (send_task bs)) refl refl (λ _ _. refl))
  ]
]

open-alive :
    (s : StateE) → is_open s ≡ true → (is_disconnected s ≡ false) × (is_connecting s ≡ false)
unfolding is_open is_disconnected is_connecting
open-alive connected h = (refl, refl)
open-alive disconnecting h = (refl, refl)
open-alive connecting h = absurd (cc)
open-alive disconnected h = absurd (cc)

connected-open : (s : StateE) → is_connected s ≡ true → is_open s ≡ true
unfolding is_open is_connected
connected-open connected h = refl
connected-open connecting h = absurd (cc)
connected-open disconnecting h = absurd (cc)
connected-open disconnected h = absurd (cc)

-- An open connection begins to close.
module _ (c : Conn) (o : is_open c.state ≡ true) where
  closing-Stays :
      (c' : Conn)
      → c'.state ≡ disconnecting
      → c'.calls ≡ c.calls
      → c'.channel ≡ c.channel
      → Stays c c'
  unfolding is_disconnected is_connecting
  closing-Stays c' s u ch =
      let a = open-alive c.state o in
      record {
        closings = ap count_closed u;
        alive = ap is_disconnected s ∙ sym a.0;
        fresh = ap is_connecting s ∙ sym a.1;
        channel = λ _ _. ch;
      }

shutdown_if :
    (c : Conn) (in_loop waits : Bool)
    → is_open c.state ≡ true
    → Stays c (
        let c' = record c { state = disconnecting } in
        if in_loop
        then (if waits then c' else record c' { write_shutdown = true })
        else queue_in_loop c' shutdown_task)
unfolding queue_in_loop
shutdown_if c true true o = closing-Stays c o _ refl refl refl
shutdown_if c true false o = closing-Stays c o _ refl refl refl
shutdown_if c false waits o = closing-Stays c o _ refl refl refl

pub shutdown-Stays : (c : Conn) (in_loop : Bool) → Stays c (shutdown c in_loop)
unfolding shutdown shutdown_in_loop
shutdown-Stays c in_loop = elim (Bool-cases (is_connected c.state)) [
  | inr shut ↦ rw shut (Stays-refl c)
  | inl alive ↦
      rw alive (shutdown_if c in_loop (is_writing c.channel) (connected-open c.state alive))
]

force_close-Stays : (c : Conn) → Stays c (force_close c)
unfolding force_close queue_in_loop
force_close-Stays c = elim (Bool-cases (is_open c.state)) [
  | inl open_ ↦ rw open_ (closing-Stays c open_ _ refl refl refl)
  | inr shut ↦ rw shut (Stays-refl c)
]

force_close_with_delay-Stays : (c : Conn) → Stays c (force_close_with_delay c)
unfolding force_close_with_delay
force_close_with_delay-Stays c = elim (Bool-cases (is_open c.state)) [
  | inl open_ ↦ rw open_ (closing-Stays c open_ _ refl refl refl)
  | inr shut ↦ rw shut (Stays-refl c)
]

run_task-Goes :
    (c : Conn) (t : Task) (errno : ℕ) (w : Write) (c' : Conn)
    → run_task c t errno w ≡ ok c'
    → Goes c c'
unfolding run_task shutdown_in_loop
run_task-Goes c (send_task bs) errno w c' e = inl (send_in_loop-Stays c bs errno w c' e)
run_task-Goes c shutdown_task errno w c' e = elim (Bool-cases (is_writing c.channel)) [
  | inl waits ↦ inl (subst (Stays c) (ok-injective (rw waits at e)) (Stays-refl c))
  | inr empty ↦ inl (
      subst (Stays c) (ok-injective (rw empty at e))
        (same-Stays c (record c { write_shutdown = true }) refl refl (λ _ _. refl)))
]
run_task-Goes c force_close_task errno w c' e = force_close_in_loop-Goes c c' e
run_task-Goes c write_complete errno w c' e = inl (subst (Stays c) (ok-injective e) (Stays-refl c))
run_task-Goes c (high_water_mark n) errno w c' e =
    inl (subst (Stays c) (ok-injective e) (Stays-refl c))

-- The calls that only the owner of a connection makes.
abbrev pub is_owners : Event → Bool
is_owners establishes = true
is_owners destroys = true
is_owners _ = false

-- Whatever the user, the poller or the loop does with a connection, a call that returns either leaves
-- it as open or as closed as it was, or closes it: then it was open, the close callback is called
-- once, and the channel watches nothing from then on.
pub step-Goes :
    (c : Conn) (v : Event) (c' : Conn) → is_owners v ≡ false → step c v ≡ ok c' → Goes c c'
unfolding step
step-Goes c (sends in_loop bs errno w) c' h e = inl (send-Stays c in_loop bs errno w c' e)
step-Goes c (shuts in_loop) c' h e =
    inl (subst (Stays c) (ok-injective e) (shutdown-Stays c in_loop))
step-Goes c forces c' h e = inl (subst (Stays c) (ok-injective e) (force_close-Stays c))
step-Goes c forces_later c' h e =
    inl (subst (Stays c) (ok-injective e) (force_close_with_delay-Stays c))
step-Goes c delay_over c' h e = force_close_in_loop-Goes c c' e
step-Goes c establishes c' h e = absurd (cc)
step-Goes c destroys c' h e = absurd (cc)
step-Goes c (reads r) c' h e = handle_read-Goes c r c' e
step-Goes c (writes w) c' h e = inl (handle_write-Stays c w c' e)
step-Goes c closes c' h e = inr (handle_close-Closes c c' e)
step-Goes c (runs t errno w) c' h e = run_task-Goes c t errno w c' e
