-- ===== src/Base/ThreadPool/Waits.antt =====
-- Order, bound, wakeups and threads of base/ThreadPool.cc.
use leaf.Shared.{
  ℕ, ◌+◌, ◌≤◌, ◌<◌, ◌≡◌, refl, sym, ap, ◌∙◌, inl, inr, subst, Bool, true, false, ◌&&◌, Bool-cases,
  List, [], ◌∷◌, ◌++◌, Option, none, some, ltb, leb, ◌==◌, if◌then◌else◌, length, arith,
  append_assoc, length-append,
}
use leaf.Base.ThreadPool.{
  ThreadPool, new_pool, set_max_queue_size, start, is_full, notify_not_empty, notify_not_full, put,
  run_task, take_from, run_in_thread, stop, Event, runs, runs_on, loops, enters, takes_on, stops,
  putter_wakes, taker_wakes, step, and_then, run,
}

pub some-injective {ℓ} : {A : Type ℓ} {a b : A} → some a ≡ some b → a ≡ b
some-injective e = cc

module _ {ℓ} {A : Type ℓ} where
  -- What was accepted is what was begun and what waits, in order; the bound holds, where there is one;
  -- while a taker sleeps, the pool runs and every task has a woken taker on its way to it; while a
  -- putter sleeps, there is a bound and every free place has a woken putter; no thread is lost.
  pub record Inv (p : ThreadPool A) : Type ℓ where
    pub in_order : p.begun ++ p.queue ≡ p.accepted
    pub bounded : 0 < p.max_queue_size → length p.queue ≤ p.max_queue_size
    pub takers : 0 < p.takers_asleep → length p.queue ≤ p.takers_woken
    pub awake : p.running ≡ false → p.takers_asleep ≡ 0
    pub putters :
        0 < p.putters_asleep
        → (0 < p.max_queue_size) × (p.max_queue_size ≤ length p.queue + p.putters_woken)
    pub all : p.tops + p.entering + p.ended + p.takers_asleep + p.takers_woken ≡ p.threads

  -- A thread that was woken, or comes anew, is between the mutex and its test.
  record Loose (t o k : ℕ) (p : ThreadPool A) : Type ℓ where
    in_order : p.begun ++ p.queue ≡ p.accepted
    bounded : 0 < p.max_queue_size → length p.queue ≤ p.max_queue_size
    takers : 0 < p.takers_asleep → length p.queue ≤ p.takers_woken + t
    awake : p.running ≡ false → p.takers_asleep ≡ 0
    putters :
        0 < p.putters_asleep
        → (0 < p.max_queue_size) × (p.max_queue_size ≤ length p.queue + p.putters_woken + o)
    all : p.tops + p.entering + p.ended + p.takers_asleep + p.takers_woken + k ≡ p.threads

  notify_not_empty-Inv : (p : ThreadPool A) → Loose 1 0 0 p → Inv (notify_not_empty p)
  unfolding notify_not_empty
  notify_not_empty-Inv p l = elim (Bool-cases (ltb 0 p.takers_asleep)) [
    | inl some_asleep ↦
        let sleeps : 0 < p.takers_asleep = ground arith in
        rw some_asleep (record {
          in_order = l.in_order;
          bounded = l.bounded;
          takers = λ h. omega (arith, l.takers sleeps);
          awake = λ h. omega (arith, l.awake h);
          putters = λ h. omega (arith, l.putters h);
          all = omega (arith, l.all, sleeps);
        })
    | inr none_asleep ↦ rw none_asleep (record {
      in_order = l.in_order;
      bounded = l.bounded;
      takers = λ h. absurd (ground arith);
      awake = l.awake;
      putters = λ h. omega (arith, l.putters h);
      all = omega (arith, l.all);
    })
  ]

  notify_not_full-Inv : (p : ThreadPool A) → Loose 0 1 0 p → Inv (notify_not_full p)
  unfolding notify_not_full
  notify_not_full-Inv p l = elim (Bool-cases (ltb 0 p.putters_asleep)) [
    | inl some_asleep ↦
        let sleeps : 0 < p.putters_asleep = ground arith in
        rw some_asleep (record {
          in_order = l.in_order;
          bounded = l.bounded;
          takers = λ h. omega (arith, l.takers h);
          awake = l.awake;
          putters = λ h. omega (arith, l.putters sleeps);
          all = omega (arith, l.all);
        })
    | inr none_asleep ↦ rw none_asleep (record {
      in_order = l.in_order;
      bounded = l.bounded;
      takers = λ h. omega (arith, l.takers h);
      awake = l.awake;
      putters = λ h. absurd (ground arith);
      all = omega (arith, l.all);
    })
  ]

  put-Inv : (p : ThreadPool A) (task : A) (o : ℕ) → o ≤ 1 → Loose 0 o 0 p → Inv (put p task)
  unfolding put is_full
  put-Inv p task o small l =
      elim (Bool-cases (ltb 0 p.max_queue_size && leb p.max_queue_size (length p.queue))) [
        | inl no_room ↦
            let bound : 0 < p.max_queue_size = ground arith in
            let full : p.max_queue_size ≤ length p.queue = ground arith in
            rw no_room (record {
              in_order = l.in_order;
              bounded = l.bounded;
              takers = λ h. omega (arith, l.takers h);
              awake = l.awake;
              putters = λ h. omega (arith, bound, full);
              all = omega (arith, l.all);
            })
        | inr room ↦
            let n = length-append p.queue (task ∷ []) in
            rw room (
              notify_not_empty-Inv _ (record {
                in_order =
                    sym (append_assoc p.begun p.queue (task ∷ []))
                    ∙ ap (λ xs. xs ++ task ∷ []) l.in_order;
                bounded = λ h.
                    let less : length p.queue < p.max_queue_size = ground arith in
                    omega (arith, n, less);
                takers = λ h. omega (arith, n, l.takers h);
                awake = l.awake;
                putters = λ h. omega (arith, n, small, l.putters h);
                all = omega (arith, l.all);
              }))
      ]

  take_from-Inv :
      (p : ThreadPool A) (xs : List A) (t : ℕ)
      → p.queue ≡ xs
      → t ≤ 1
      → Loose t 0 1 p
      → Inv (take_from p xs)
  unfolding take_from
  take_from-Inv p [] t e small l = elim (Bool-cases p.running) [
    | inl on ↦ rw on (record {
      in_order = l.in_order;
      bounded = l.bounded;
      takers = λ h. omega (arith, ap length e);
      awake = λ h. absurd (cc);
      putters = λ h. omega (arith, l.putters h);
      all = omega (arith, l.all);
    })
    | inr off ↦ rw off (record {
      in_order = l.in_order;
      bounded = l.bounded;
      takers = λ h. omega (arith, ap length e);
      awake = λ h. l.awake off;
      putters = λ h. omega (arith, l.putters h);
      all = omega (arith, l.all);
    })
  ]
  take_from-Inv p (task ∷ rest) t e small l =
      let n : length p.queue ≡ length rest + 1 = ap length e ∙ omega arith in
      let order : (p.begun ++ task ∷ []) ++ rest ≡ p.accepted =
        append_assoc p.begun (task ∷ []) rest ∙ ap (◌++◌ p.begun) (sym e) ∙ l.in_order in
      elim (Bool-cases (ltb 0 p.max_queue_size)) [
        | inl bound ↦ rw bound (
            notify_not_full-Inv _ (record {
              in_order = order;
              bounded = λ h. omega (arith, n, l.bounded h);
              takers = λ h. omega (arith, n, small, l.takers h);
              awake = l.awake;
              putters = λ h. omega (arith, n, l.putters h);
              all = omega (arith, l.all);
            }))
        | inr unbounded ↦
            let zero_max : p.max_queue_size ≡ 0 = ground arith in
            rw unbounded (record {
              in_order = order;
              bounded = λ h. omega (arith, n, l.bounded h);
              takers = λ h. omega (arith, n, small, l.takers h);
              awake = l.awake;
              putters = λ h. absurd (omega (arith, (l.putters h).0, zero_max));
              all = omega (arith, l.all);
            })
      ]

  loosen : (p : ThreadPool A) → Inv p → Loose 0 0 0 p
  loosen p v = record {
    in_order = v.in_order;
    bounded = v.bounded;
    takers = λ h. omega (arith, v.takers h);
    awake = v.awake;
    putters = λ h. omega (arith, v.putters h);
    all = omega (arith, v.all);
  }

  pub if-some :
      (b : Bool) (x : ThreadPool A) (p' : ThreadPool A)
      → (if b then some x else none) ≡ some p'
      → (b ≡ true) × (x ≡ p')
  if-some true x p' e = (refl, some-injective e)
  if-some false x p' e = absurd (cc)

  run_task-Inv : (p : ThreadPool A) (task : A) → Inv p → Inv (run_task p task)
  unfolding run_task
  run_task-Inv p task v = elim (Bool-cases (p.threads == 0)) [
    | inl none_ ↦ rw none_ (record {
      in_order = v.in_order;
      bounded = v.bounded;
      takers = v.takers;
      awake = v.awake;
      putters = v.putters;
      all = ground (arith, v.all);
    })
    | inr some_ ↦ rw some_ (put-Inv p task 0 (omega arith) (loosen p v))
  ]

  if-Inv :
      {x y : ThreadPool A} (b : Bool)
      → (b ≡ true → Inv x)
      → (b ≡ false → Inv y)
      → Inv (if b then x else y)
  if-Inv true hx hy = hx refl
  if-Inv false hx hy = hy refl

  run_in_thread-Inv : (p : ThreadPool A) → Loose 0 0 1 p → Inv (run_in_thread p)
  unfolding run_in_thread
  run_in_thread-Inv p l =
      if-Inv p.running
        (λ on. record {
          in_order = l.in_order;
          bounded = l.bounded;
          takers = λ h. omega (arith, l.takers h);
          awake = l.awake;
          putters = λ h. omega (arith, l.putters h);
          all = omega (arith, l.all);
        })
        (λ off. record {
          in_order = l.in_order;
          bounded = l.bounded;
          takers = λ h. omega (arith, l.takers h);
          awake = λ h. l.awake off;
          putters = λ h. omega (arith, l.putters h);
          all = omega (arith, l.all);
        })

  step-Inv :
      (p : ThreadPool A) (e : Event A) (p' : ThreadPool A) → Inv p → step p e ≡ some p' → Inv p'
  unfolding step stop
  step-Inv p (runs task) p' v e = subst Inv (some-injective e) (run_task-Inv p task v)
  step-Inv p (runs_on task) p' v e =
      let c = if-some (ltb 0 p.putters_woken) _ p' e in
      let woken : 0 < p.putters_woken = let b = c.0 in ground arith in
      subst Inv c.1 (
        put-Inv _ task 1 (omega arith) (record {
          in_order = v.in_order;
          bounded = v.bounded;
          takers = λ h. omega (arith, v.takers h);
          awake = v.awake;
          putters = λ h. omega (arith, v.putters h, woken);
          all = omega (arith, v.all);
        }))
  step-Inv p loops p' v e =
      let c = if-some (ltb 0 p.tops) _ p' e in
      let some_top : 0 < p.tops = let b = c.0 in ground arith in
      subst Inv c.1 (
        run_in_thread-Inv _ (record {
          in_order = v.in_order;
          bounded = v.bounded;
          takers = λ h. omega (arith, v.takers h);
          awake = v.awake;
          putters = λ h. omega (arith, v.putters h);
          all = omega (arith, v.all, some_top);
        }))
  step-Inv p enters p' v e =
      let c = if-some (ltb 0 p.entering) _ p' e in
      let some_entering : 0 < p.entering = let b = c.0 in ground arith in
      subst Inv c.1 (
        take_from-Inv _ p.queue 0 refl (omega arith) (record {
          in_order = v.in_order;
          bounded = v.bounded;
          takers = λ h. omega (arith, v.takers h);
          awake = v.awake;
          putters = λ h. omega (arith, v.putters h);
          all = omega (arith, v.all, some_entering);
        }))
  step-Inv p takes_on p' v e =
      let c = if-some (ltb 0 p.takers_woken) _ p' e in
      let woken : 0 < p.takers_woken = let b = c.0 in ground arith in
      subst Inv c.1 (
        take_from-Inv _ p.queue 1 refl (omega arith) (record {
          in_order = v.in_order;
          bounded = v.bounded;
          takers = λ h. omega (arith, v.takers h, woken);
          awake = v.awake;
          putters = λ h. omega (arith, v.putters h);
          all = omega (arith, v.all, woken);
        }))
  step-Inv p stops p' v e = subst Inv (some-injective e) (record {
    in_order = v.in_order;
    bounded = v.bounded;
    takers = λ h. absurd (omega arith);
    awake = λ _. refl;
    putters = v.putters;
    all = omega (arith, v.all);
  })
  step-Inv p putter_wakes p' v e =
      let c = if-some (ltb 0 p.putters_asleep) _ p' e in
      let asleep : 0 < p.putters_asleep = let b = c.0 in ground arith in
      subst Inv c.1 (record {
        in_order = v.in_order;
        bounded = v.bounded;
        takers = v.takers;
        awake = v.awake;
        putters = λ h. omega (arith, v.putters asleep);
        all = v.all;
      })
  step-Inv p taker_wakes p' v e =
      let c = if-some (ltb 0 p.takers_asleep) _ p' e in
      let asleep : 0 < p.takers_asleep = let b = c.0 in ground arith in
      subst Inv c.1 (record {
        in_order = v.in_order;
        bounded = v.bounded;
        takers = λ h. omega (arith, v.takers asleep);
        awake = λ h. omega (arith, v.awake h, asleep);
        putters = v.putters;
        all = omega (arith, v.all, asleep);
      })

  pub and_then-some :
      (o : Option (ThreadPool A)) (k : ThreadPool A → Option (ThreadPool A)) (r : ThreadPool A)
      → and_then o k ≡ some r
      → (p : ThreadPool A) × (o ≡ some p) × (k p ≡ some r)
  unfolding and_then
  and_then-some none k r e = absurd (cc)
  and_then-some (some p) k r e = (p, refl, e)

  run-Inv : (es : List (Event A)) (p p' : ThreadPool A) → Inv p → run p es ≡ some p' → Inv p'
  unfolding run
  run-Inv [] p p' v e = subst Inv (some-injective e) v
  run-Inv (x ∷ es) p p' v e =
      let (q, e1, e2) = and_then-some (step p x) (λ y. run y es) p' e in
      run-Inv es q p' (step-Inv p x q v e1) e2

  start-Inv :
      (max_size num_threads : ℕ) (p : ThreadPool A)
      → start (set_max_queue_size new_pool max_size) num_threads ≡ some p
      → Inv p
  unfolding start set_max_queue_size new_pool
  start-Inv max_size num_threads p e = subst Inv (some-injective e) (record {
    in_order = refl;
    bounded = λ h. omega arith;
    takers = λ h. absurd (omega arith);
    awake = λ _. refl;
    putters = λ h. absurd (omega arith);
    all = omega arith;
  })

  -- However the threads interleave: the tasks begin in the order in which they were accepted, and those
  -- that were accepted and have not begun wait; no more wait than the bound, if there is one; while a
  -- thread of the pool sleeps, the pool runs, and every task has a woken thread on its way to it; while
  -- `run` waits for room, every free place has a woken caller; and each thread of the pool is at one
  -- place.
  pub run-start_pool :
      (max_size num_threads : ℕ) (p p' : ThreadPool A) (es : List (Event A))
      → start (set_max_queue_size new_pool max_size) num_threads ≡ some p
      → run p es ≡ some p'
      → Inv p'
  run-start_pool max_size num_threads p p' es s e =
      run-Inv es p p' (start-Inv max_size num_threads p s) e
