-- ===== src/Net/Connector/Descriptors.antt =====
-- The descriptors of net/Connector.cc over any run.
use leaf.Shared.{
  ℕ, suc, ◌≡◌, refl, sym, ap, ◌∙◌, ◌⊎◌, inl, inr, subst, Bool, true, false, Bool-cases, List, [],
  ◌∷◌, Option, none, some, if◌then◌else◌, arith,
}
use leaf.Shared.Outcome.{Outcome, ok, assert, >>=-eq-ok, assert-eq-ok, ok-injective}
use leaf.Net.Channel.{Channel, new_channel, enable_writing, update}
use leaf.Net.Connector.{
  States, k_disconnected, k_connecting, k_connected, Connector, Attempt, is_disconnected,
  is_connecting, queue_in_loop, close, is_under_way, is_retried, connecting, connect, start_in_loop,
  start, restart, no_channel, reset_channel, stop, Event, starts, restarts, stops, runs, fires,
  writable, errs, step, run, new_connector, Functor, start_functor, stop_functor, reset_functor,
  run_functor, run_first, take_timer, fire,
}
use leaf.Net.Connector.Sound.{
  held, resets, resets_due, Sound, resets-append, idle_due, idle_held, retry-Sound, is-disconnected,
  is-none, handle_error-Sound, stop_in_loop-Sound, handle_write-Sound,
}

connect-Sound :
    (c : Connector) (a : Attempt) (c' : Connector)
    → Sound c
    → c.state ≡ k_disconnected
    → connect c a ≡ ok c'
    → Sound c'
unfolding connect connecting close is_connecting new_channel enable_writing update
connect-Sound c a c' s st e =
    let quiet : (x : ℕ) → held x c.state c.channel ≡ 0 = λ x. ap (λ t. held x t c.channel) st in
    let same_due : resets c.queued ≡ resets_due k_disconnected c.channel =
      s.due ∙ ap (λ t. resets_due t c.channel) st in
    elim (Bool-cases (is_under_way a.saved_errno)) [
      | inl going ↦
          let (u, e1, e2) = >>=-eq-ok (assert (no_channel c.channel)) _ (rw going at e) in
          let empty : c.channel ≡ none =
            is-none c.channel (assert-eq-ok (no_channel c.channel) u e1) in
          subst Sound (ok-injective e2) (record {
            accounted = λ x. omega (arith, s.accounted x, quiet x);
            due = same_due ∙ ap (resets_due k_disconnected) empty;
            present = λ _. (_, refl);
          })
      | inr settled ↦ elim (Bool-cases (is_retried a.saved_errno)) [
        | inl again ↦ subst Sound (ok-injective (rw (settled, again) at e)) (
            retry-Sound a.sockfd (record c { opened = a.sockfd ∷ c.opened })
              (record { apart = λ x. omega (arith, s.accounted x, quiet x); due = same_due }))
        | inr fatal ↦ subst Sound (ok-injective (rw (settled, fatal) at e)) (record {
          accounted = λ x. omega (arith, s.accounted x);
          due = s.due;
          present = s.present;
        })
      ]
    ]

either-ok :
    (b : Bool) (x y : Outcome Connector) (c' : Connector)
    → (if b then x else y) ≡ ok c'
    → (x ≡ ok c') ⊎ (y ≡ ok c')
either-ok true x y c' e = inl e
either-ok false x y c' e = inr e

start_in_loop-Sound :
    (c : Connector) (a : Attempt) (c' : Connector) → Sound c → start_in_loop c a ≡ ok c' → Sound c'
unfolding start_in_loop
start_in_loop-Sound c a c' s e =
    let (u, e1, e2) = >>=-eq-ok (assert (is_disconnected c.state)) _ e in
    let st : c.state ≡ k_disconnected =
      is-disconnected c.state (assert-eq-ok (is_disconnected c.state) u e1) in
    elim (either-ok c.connect_flag (connect c a) (ok c) c' e2) [
      | inl on ↦ connect-Sound c a c' s st on
      | inr off ↦ subst Sound (ok-injective off) s
    ]

timers-Sound : (c : Connector) (ts : List ℕ) → Sound c → Sound (record c { timers = ts })
timers-Sound c ts s = record { accounted = s.accounted; due = s.due; present = s.present }

fire-Sound :
    (c : Connector) (o : Option (List ℕ)) (a : Attempt) (c' : Connector)
    → Sound c
    → fire c o a ≡ ok c'
    → Sound c'
unfolding fire
fire-Sound c none a c' s e = subst Sound (ok-injective e) s
fire-Sound c (some ts) a c' s e =
    start_in_loop-Sound (record c { timers = ts }) a c' (timers-Sound c ts s) e

-- `restart` is for a connector that is not connecting.
abbrev pub Possible : Connector → Event → Type 0
Possible c (restarts a) = is_connecting c.state ≡ false
Possible c _ = Unit {0}

restart-Sound :
    (c : Connector) (a : Attempt) (c' : Connector)
    → Sound c
    → is_connecting c.state ≡ false
    → restart c a ≡ ok c'
    → Sound c'
unfolding restart is_connecting
restart-Sound c a c' s idle e =
    start_in_loop-Sound _ a c'
      (record {
        accounted = λ x. omega (arith, s.accounted x, idle_held x c.state c.channel idle);
        due = s.due ∙ idle_due c.state c.channel idle;
        present = λ q. absurd (cc);
      })
      e

queue-Sound :
    (c : Connector) (f : Functor) → resets (f ∷ []) ≡ 0 → Sound c → Sound (queue_in_loop c f)
unfolding queue_in_loop
queue-Sound c f h s = record {
  accounted = s.accounted;
  due = resets-append c.queued (f ∷ []) ∙ omega (arith, h) ∙ s.due;
  present = s.present;
}

-- The flag is in none of the three.
flag-Sound : (c : Connector) (b : Bool) → Sound c → Sound (record c { connect_flag = b })
flag-Sound c b s = record { accounted = s.accounted; due = s.due; present = s.present }

start-Sound :
    (c : Connector) (in_loop : Bool) (a : Attempt) (c' : Connector)
    → Sound c
    → start c in_loop a ≡ ok c'
    → Sound c'
unfolding start
start-Sound c true a c' s e = start_in_loop-Sound _ a c' (flag-Sound c true s) e
start-Sound c false a c' s e =
    subst Sound (ok-injective e)
      (queue-Sound (record c { connect_flag = true }) start_functor refl (flag-Sound c true s))

-- Where a functor waits for the reset, the channel is there and not in use.
due_suc :
    (st : States) (o : Option Channel) (n : ℕ)
    → suc n ≡ resets_due st o
    → (n ≡ 0) × (is_connecting st ≡ false)
unfolding is_connecting
due_suc k_connecting o n h = absurd (omega (arith, h))
due_suc k_disconnected none n h = absurd (omega (arith, h))
due_suc k_disconnected (some ch) n h = (omega (arith, h), refl)
due_suc k_connected none n h = absurd (omega (arith, h))
due_suc k_connected (some ch) n h = (omega (arith, h), refl)

reset_channel-Sound :
    (c : Connector) (fs : List Functor)
    → c.queued ≡ reset_functor ∷ fs
    → Sound c
    → Sound (reset_channel (record c { queued = fs }))
unfolding reset_channel
reset_channel-Sound c fs q s =
    let (n, idle) = due_suc c.state c.channel (resets fs) (ap resets (sym q) ∙ s.due) in
    record {
      accounted = λ x.
          omega (
            arith,
            s.accounted x,
            idle_held x c.state c.channel idle,
            idle_held x c.state none idle,
          );
      due = n ∙ sym (idle_due c.state none idle);
      present = λ busy. absurd (cc);
    }

run_first-Sound :
    (c : Connector) (fs : List Functor) (a : Attempt) (c' : Connector)
    → c.queued ≡ fs
    → Sound c
    → run_first c fs a ≡ ok c'
    → Sound c'
unfolding run_first run_functor
run_first-Sound c [] a c' q s e = subst Sound (ok-injective e) s
run_first-Sound c (start_functor ∷ fs) a c' q s e =
    start_in_loop-Sound _ a c'
      (record { accounted = s.accounted; due = ap resets (sym q) ∙ s.due; present = s.present }) e
run_first-Sound c (stop_functor ∷ fs) a c' q s e =
    stop_in_loop-Sound (record c { queued = fs })
      (record { accounted = s.accounted; due = ap resets (sym q) ∙ s.due; present = s.present }) c'
      e
run_first-Sound c (reset_functor ∷ fs) a c' q s e =
    subst Sound (ok-injective e) (reset_channel-Sound c fs q s)

step-Sound :
    (c : Connector) (e : Event) (c' : Connector)
    → Sound c
    → Possible c e
    → step c e ≡ ok c'
    → Sound c'
unfolding step stop
step-Sound c (starts in_loop a) c' s p e = start-Sound c in_loop a c' s e
step-Sound c (restarts a) c' s p e = restart-Sound c a c' s p e
step-Sound c stops c' s p e =
    subst Sound (ok-injective e)
      (queue-Sound (record c { connect_flag = false }) stop_functor refl (flag-Sound c false s))
step-Sound c (runs a) c' s p e = run_first-Sound c c.queued a c' refl s e
step-Sound c (fires i a) c' s p e = fire-Sound c (take_timer i c.timers) a c' s e
step-Sound c (writable failed) c' s p e = handle_write-Sound c s failed c' e
step-Sound c errs c' s p e = handle_error-Sound c s c' e

-- Every event of the sequence is possible when it comes.
abbrev pub AllPossible : Connector → List Event → Type 0
AllPossible c [] = Unit {0}
AllPossible c (e ∷ es) = Possible c e × ((c' : Connector) → step c e ≡ ok c' → AllPossible c' es)

run-Sound :
    (c : Connector) (es : List Event) (c' : Connector)
    → Sound c
    → AllPossible c es
    → run c es ≡ ok c'
    → Sound c'
unfolding run
run-Sound c [] c' s p e = subst Sound (ok-injective e) s
run-Sound c (x ∷ es) c' s p e =
    let (d, e1, e2) = >>=-eq-ok (step c x) (λ d. run d es) e in
    run-Sound d es c' (step-Sound c x d s p.0 e1) (p.1 d e1) e2

-- After any possible sequence of events on a new connector that does not end at a failed assertion,
-- every descriptor that was made is held by the channel of a connect that is under way, closed, or
-- handed over, once; and a channel out of use waits for exactly one functor that resets it.
pub run-new_connector :
    (es : List Event) (c' : Connector)
    → AllPossible new_connector es
    → run new_connector es ≡ ok c'
    → Sound c'
unfolding new_connector is_connecting
run-new_connector es c' p e =
    run-Sound new_connector es c'
      (record { accounted = λ x. refl; due = refl; present = λ q. absurd (cc) }) p e
