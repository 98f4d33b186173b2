-- ===== src/Net/EventLoop/Functors.antt =====
-- Any run of the loop of net/EventLoop.cc with its pending functors.
use leaf.Shared.{
  ℕ, ◌≤◌, ◌<◌, ◌≡◌, refl, inl, inr, subst, Bool-cases, List, [], ◌∷◌, Option, none, some, ltb,
  arith,
}
use leaf.Net.EventLoop.{
  Phase, polling, polling_first, handling, calling, stopped, EventLoop, new_loop, wakeup, push,
  queue_there, Event, queues_here, queues_there, wakes, quits_here, quits_there, begins, returns,
  reads_wakeup, swaps, calls, goes_on, step, and_then, run,
}
use leaf.Net.EventLoop.Order.{
  Awake, Inv, some-injective, queue_here-Inv, swap_functors-Inv, call_functor-Inv, next_round-Inv,
  begin_loop-Inv, poll_returns-Inv, handle_wakeup-Inv, push-order, Awake-more,
}

-- One more wakeup does no harm.
Awake-keep : (ph : Phase) (fs : List ℕ) (n m : ℕ) → n ≤ m → Awake ph fs n → Awake ph fs m
Awake-keep handling fs n m h a = tt
Awake-keep polling fs n m h a = λ e. omega (arith, a e)
Awake-keep calling fs n m h a = λ e. omega (arith, a e)
Awake-keep stopped fs n m h a = tt
Awake-keep polling_first fs n m h a = tt

step-Inv : (l : EventLoop) (e : Event) (l' : EventLoop) → Inv l → step l e ≡ some l' → Inv l'
unfolding step queue_there push wakeup
step-Inv l (queues_here cb) l' v e = queue_here-Inv l cb l.phase l' refl v e
step-Inv l (queues_there cb) l' v e = subst Inv (some-injective e) (record {
  in_order = push-order l cb v;
  awake = Awake-more l.phase _ [] 0 _ (omega arith);
  emptied = v.emptied;
})
step-Inv l wakes l' v e = elim (Bool-cases (ltb 0 l.on_the_way)) [
  | inr no_one ↦ absurd (let z : none ≡ some l' = rw no_one at e in cc)
  | inl some_one ↦
      let pos : 0 < l.on_the_way = ground arith in
      subst Inv (some-injective (rw some_one at e)) (record {
        in_order = v.in_order;
        awake = Awake-keep l.phase l.pending_functors _ _ (omega arith) v.awake;
        emptied = v.emptied;
      })
]
step-Inv l quits_here l' v e =
    subst Inv (some-injective e)
      (record { in_order = v.in_order; awake = v.awake; emptied = v.emptied })
step-Inv l quits_there l' v e = subst Inv (some-injective e) (record {
  in_order = v.in_order;
  awake = Awake-keep l.phase l.pending_functors _ _ (omega arith) v.awake;
  emptied = v.emptied;
})
step-Inv l begins l' v e = begin_loop-Inv l l.pending_functors l.phase l' refl refl v e
step-Inv l returns l' v e = poll_returns-Inv l l.phase l' refl v e
step-Inv l reads_wakeup l' v e = handle_wakeup-Inv l l.phase l' refl v e
step-Inv l swaps l' v e = swap_functors-Inv l l.phase l' refl v e
step-Inv l calls l' v e = call_functor-Inv l l.functors l.phase l' refl refl v e
step-Inv l goes_on l' v e = next_round-Inv l l.functors l.phase l' refl refl v e

and_then-some :
    (m : Option EventLoop) (k : EventLoop → Option EventLoop) (l' : EventLoop)
    → and_then m k ≡ some l'
    → (l : EventLoop) × (m ≡ some l) × (k l ≡ some l')
unfolding and_then
and_then-some none k l' e = absurd (cc)
and_then-some (some l) k l' e = (l, refl, e)

run-Inv : (l : EventLoop) (es : List Event) (l' : EventLoop) → Inv l → run l es ≡ some l' → Inv l'
unfolding run
run-Inv l [] l' v e = subst Inv (some-injective e) v
run-Inv l (x ∷ es) l' v e =
    let (d, e1, e2) = and_then-some (step l x) (λ d. run d es) l' e in
    run-Inv d es l' (step-Inv l x d v e1) e2

-- However the threads interleave, before `loop()`, in it and after it, the functors that ran, those
-- taken out and those that wait are all that were asked for, in order. When a functor waits while the
-- loop is in its poll, or may go there, the eventfd is readable or a thread is about to write to it;
-- the first poll is excepted, if functors were queued before `loop()`.
pub run-new_loop : (es : List Event) (l : EventLoop) → run new_loop es ≡ some l → Inv l
unfolding new_loop
run-new_loop es l e =
    run-Inv new_loop es l (record { in_order = refl; awake = tt; emptied = refl }) e
