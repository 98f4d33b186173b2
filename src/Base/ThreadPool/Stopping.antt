-- ===== src/Base/ThreadPool/Stopping.antt =====
-- What `stop` of base/ThreadPool.cc leaves behind.
use leaf.Shared.{
  ◌+◌, ◌-◌, ◌≤◌, ◌≡◌, refl, sym, ◌∙◌, inl, inr, subst, false, Bool-cases, List, [], ◌∷◌, ◌++◌, some,
  ltb, ◌==◌, arith,
}
use leaf.Base.ThreadPool.{
  ThreadPool, is_full, notify_not_empty, put, run_task, stop, Event, runs, runs_on, loops, enters,
  takes_on, stops, putter_wakes, taker_wakes, step, run,
}
use leaf.Base.ThreadPool.Waits.{and_then-some, if-some, some-injective}

-- No wait ends without a notification.
abbrev pub NoSpurious {ℓ} : {A : Type ℓ} → List (Event A) → Type 0
NoSpurious [] = Unit {0}
NoSpurious (putter_wakes ∷ es) = ⊥
NoSpurious (taker_wakes ∷ es) = ⊥
NoSpurious (runs x ∷ es) = NoSpurious es
NoSpurious (runs_on x ∷ es) = NoSpurious es
NoSpurious (loops ∷ es) = NoSpurious es
NoSpurious (enters ∷ es) = NoSpurious es
NoSpurious (takes_on ∷ es) = NoSpurious es
NoSpurious (stops ∷ es) = NoSpurious es

module _ {ℓ} {A : Type ℓ} where
  -- `stop` was called, and its join has returned.
  pub record Joined (p : ThreadPool A) : Type 0 where
    pub stopped : p.running ≡ false
    pub no_top : p.tops ≡ 0
    pub no_entering : p.entering ≡ 0
    pub no_taker : p.takers_asleep + p.takers_woken ≡ 0

  -- Nothing begins any more, and whoever waits for room goes on waiting.
  pub record Stuck (p p' : ThreadPool A) : Type ℓ where
    pub begun : p'.begun ≡ p.begun
    pub asleep : p.putters_asleep ≤ p'.putters_asleep

  notified : (p : ThreadPool A) → Joined p → notify_not_empty p ≡ p
  unfolding notify_not_empty
  notified p j =
      let none_ : ltb 0 p.takers_asleep ≡ false = let z = j.no_taker in ground arith in simp none_

  put-Stuck : (p : ThreadPool A) (task : A) → Joined p → Joined (put p task) × Stuck p (put p task)
  unfolding put
  put-Stuck p task j = elim (Bool-cases (is_full p)) [
    | inl no_room ↦ rw no_room (
      record {
        stopped = j.stopped;
        no_top = j.no_top;
        no_entering = j.no_entering;
        no_taker = j.no_taker;
      },
      record { begun = refl; asleep = omega arith },
    )
    | inr room ↦
        let q = record p { queue = p.queue ++ task ∷ []; accepted = p.accepted ++ task ∷ [] } in
        let k : Joined q = record {
          stopped = j.stopped;
          no_top = j.no_top;
          no_entering = j.no_entering;
          no_taker = j.no_taker;
        } in
        rw room (
          subst (λ r. Joined r × Stuck p r) (sym (notified q k))
            (k, record { begun = refl; asleep = omega arith }))
  ]

  run_task-Stuck :
      (p : ThreadPool A) (task : A)
      → Joined p
      → Joined (run_task p task) × Stuck p (run_task p task)
  unfolding run_task
  run_task-Stuck p task j = elim (Bool-cases (p.threads == 0)) [
    | inl none_ ↦ rw none_ (
      record {
        stopped = j.stopped;
        no_top = j.no_top;
        no_entering = j.no_entering;
        no_taker = j.no_taker;
      },
      record { begun = refl; asleep = omega arith },
    )
    | inr some_ ↦ rw some_ (put-Stuck p task j)
  ]

  step-Stuck :
      (p : ThreadPool A) (e : Event A) (p' : ThreadPool A)
      → NoSpurious (e ∷ [])
      → Joined p
      → step p e ≡ some p'
      → Joined p' × Stuck p p'
  unfolding step stop
  step-Stuck p (runs task) p' h j e =
      subst (λ r. Joined r × Stuck p r) (some-injective e) (run_task-Stuck p task j)
  step-Stuck p (runs_on task) p' h j e =
      let c = if-some (ltb 0 p.putters_woken) _ p' e in
      let q = record p { putters_woken = p.putters_woken - 1 } in
      let r = put-Stuck q task (record {
        stopped = j.stopped;
        no_top = j.no_top;
        no_entering = j.no_entering;
        no_taker = j.no_taker;
      }) in
      subst (λ r. Joined r × Stuck p r) c.1 (r.0, record { begun = r.1.begun; asleep = r.1.asleep })
  step-Stuck p loops p' h j e =
      let c = if-some (ltb 0 p.tops) _ p' e in
      absurd (let z = j.no_top in let b = c.0 in ground arith)
  step-Stuck p enters p' h j e =
      let c = if-some (ltb 0 p.entering) _ p' e in
      absurd (let z = j.no_entering in let b = c.0 in ground arith)
  step-Stuck p takes_on p' h j e =
      let c = if-some (ltb 0 p.takers_woken) _ p' e in
      absurd (let z = j.no_taker in let b = c.0 in ground arith)
  step-Stuck p stops p' h j e =
      subst (λ r. Joined r × Stuck p r) (some-injective e)
        (
          record {
            stopped = refl;
            no_top = j.no_top;
            no_entering = j.no_entering;
            no_taker = omega (arith, j.no_taker);
          },
          record { begun = refl; asleep = omega arith },
        )
  step-Stuck p putter_wakes p' h j e = absurd h
  step-Stuck p taker_wakes p' h j e = absurd h

  split_spurious :
      (e : Event A) (es : List (Event A))
      → NoSpurious (e ∷ es)
      → NoSpurious (e ∷ []) × NoSpurious es
  split_spurious putter_wakes es h = absurd h
  split_spurious taker_wakes es h = absurd h
  split_spurious (runs x) es h = (tt, h)
  split_spurious (runs_on x) es h = (tt, h)
  split_spurious loops es h = (tt, h)
  split_spurious enters es h = (tt, h)
  split_spurious takes_on es h = (tt, h)
  split_spurious stops es h = (tt, h)

  -- Once `stop` has returned, and while no thread wakes for no reason: whatever is called, no task that
  -- still waits in the queue ever begins, and whoever waits in `run` for room goes on waiting, since
  -- `stop` wakes the takers only.
  pub stop-strands :
      (es : List (Event A)) (p p' : ThreadPool A)
      → Joined p
      → NoSpurious es
      → run p es ≡ some p'
      → Stuck p p'
  unfolding run
  stop-strands [] p p' j h e =
      subst (Stuck p) (some-injective e) (record { begun = refl; asleep = omega arith })
  stop-strands (x ∷ es) p p' j h e =
      let (q, e1, e2) = and_then-some (step p x) (λ y. run y es) p' e in
      let n = split_spurious x es h in
      let s = step-Stuck p x q n.0 j e1 in
      let r = stop-strands es q p' s.0 n.1 e2 in
      record { begun = r.begun ∙ s.1.begun; asleep = omega (arith, r.asleep, s.1.asleep) }
