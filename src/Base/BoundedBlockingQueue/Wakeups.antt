-- ===== src/Base/BoundedBlockingQueue/Wakeups.antt =====
-- Order, bound and wakeups of base/BoundedBlockingQueue.h.
use leaf.Shared.{
  ℕ, ◌+◌, ◌≤◌, ◌<◌, ◌≡◌, refl, sym, ap, ◌∙◌, inl, inr, subst, Bool-cases, List, [], ◌∷◌, ◌++◌,
  Option, none, some, ltb, ◌==◌, length, arith, append_assoc, length-append,
}
use leaf.Base.BoundedBlockingQueue.{
  BoundedBlockingQueue, new_queue, full, notify_not_empty, notify_not_full, put, take_from, take,
  Event, puts, puts_on, takes, takes_on, putter_wakes, taker_wakes, step, and_then, run,
}

some-injective {ℓ} : {A : Type ℓ} {a b : A} → some a ≡ some b → a ≡ b
some-injective e = cc

module _ {ℓ} {A : Type ℓ} where
  -- What was put is what was taken and what waits, in order; the bound holds; while a taker sleeps,
  -- every element has a woken taker on its way to it, and while a putter sleeps, every free place has
  -- a woken putter.
  pub record Inv (q : BoundedBlockingQueue A) : Type ℓ where
    pub in_order : q.were_taken ++ q.queue ≡ q.were_put
    pub bounded : length q.queue ≤ q.max_size
    pub takers : 0 < q.takers_asleep → length q.queue ≤ q.takers_woken
    pub putters : 0 < q.putters_asleep → q.max_size ≤ length q.queue + q.putters_woken

  -- Between the mutex's release by a woken thread and its test, its place is not yet taken.
  pub record Loose (t p : ℕ) (q : BoundedBlockingQueue A) : Type ℓ where
    pub in_order : q.were_taken ++ q.queue ≡ q.were_put
    pub bounded : length q.queue ≤ q.max_size
    pub takers : 0 < q.takers_asleep → length q.queue ≤ q.takers_woken + t
    pub putters : 0 < q.putters_asleep → q.max_size ≤ length q.queue + q.putters_woken + p

  notify_not_empty-Inv : (q : BoundedBlockingQueue A) → Loose 1 0 q → Inv (notify_not_empty q)
  unfolding notify_not_empty
  notify_not_empty-Inv q l = elim (Bool-cases (ltb 0 q.takers_asleep)) [
    | inl some_asleep ↦ rw some_asleep (record {
      in_order = l.in_order;
      bounded = l.bounded;
      takers = λ h. let t = l.takers (omega arith) in omega arith;
      putters = λ h. omega (arith, l.putters h);
    })
    | inr none_asleep ↦ rw none_asleep (record {
      in_order = l.in_order;
      bounded = l.bounded;
      takers = λ h. absurd (ground arith);
      putters = λ h. omega (arith, l.putters h);
    })
  ]

  notify_not_full-Inv : (q : BoundedBlockingQueue A) → Loose 0 1 q → Inv (notify_not_full q)
  unfolding notify_not_full
  notify_not_full-Inv q l = elim (Bool-cases (ltb 0 q.putters_asleep)) [
    | inl some_asleep ↦ rw some_asleep (record {
      in_order = l.in_order;
      bounded = l.bounded;
      takers = λ h. omega (arith, l.takers h);
      putters = λ h. let t = l.putters (omega arith) in omega arith;
    })
    | inr none_asleep ↦ rw none_asleep (record {
      in_order = l.in_order;
      bounded = l.bounded;
      takers = λ h. omega (arith, l.takers h);
      putters = λ h. absurd (ground arith);
    })
  ]

  -- A putter that was woken, or one that comes anew, where `p` is 1 or 0.
  put-Inv : (q : BoundedBlockingQueue A) (x : A) (p : ℕ) → p ≤ 1 → Loose 0 p q → Inv (put q x)
  unfolding put full
  put-Inv q x p small l = elim (Bool-cases (length q.queue == q.max_size)) [
    | inl no_room ↦
        let e : length q.queue ≡ q.max_size = ground arith in
        rw no_room (record {
          in_order = l.in_order;
          bounded = l.bounded;
          takers = λ h. omega (arith, l.takers h);
          putters = λ h. omega arith;
        })
    | inr room ↦
        let lt : length q.queue < q.max_size = let b = l.bounded in ground arith in
        let n = length-append q.queue (x ∷ []) in
        rw room (
          notify_not_empty-Inv _ (record {
            in_order =
                sym (append_assoc q.were_taken q.queue (x ∷ []))
                ∙ ap (λ xs. xs ++ x ∷ []) l.in_order;
            bounded = omega (arith, n);
            takers = λ h. omega (arith, n, l.takers h);
            putters = λ h. omega (arith, n, small, l.putters h);
          }))
  ]

  take_from-Inv :
      (q : BoundedBlockingQueue A) (xs : List A) (t : ℕ)
      → q.queue ≡ xs
      → t ≤ 1
      → Loose t 0 q
      → Inv (take_from q xs)
  unfolding take_from
  take_from-Inv q [] t e small l = record {
    in_order = l.in_order;
    bounded = l.bounded;
    takers = λ h. omega (arith, ap length e);
    putters = λ h. omega (arith, l.putters h);
  }
  take_from-Inv q (x ∷ xs) t e small l =
      let n : length q.queue ≡ length xs + 1 = ap length e ∙ omega arith in
      notify_not_full-Inv _ (record {
        in_order =
            append_assoc q.were_taken (x ∷ []) xs ∙ ap (◌++◌ q.were_taken) (sym e) ∙ l.in_order;
        bounded = omega (arith, n, l.bounded);
        takers = λ h. omega (arith, n, small, l.takers h);
        putters = λ h. omega (arith, n, l.putters h);
      })

  step-Inv :
      (q : BoundedBlockingQueue A) (e : Event A) (q' : BoundedBlockingQueue A)
      → Inv q
      → step q e ≡ some q'
      → Inv q'
  unfolding step take
  step-Inv q (puts x) q' v e = subst Inv (some-injective e) (
      put-Inv q x 0 (omega arith) (record {
        in_order = v.in_order;
        bounded = v.bounded;
        takers = λ h. omega (arith, v.takers h);
        putters = λ h. omega (arith, v.putters h);
      }))
  step-Inv q (puts_on x) q' v e = elim (Bool-cases (ltb 0 q.putters_woken)) [
    | inr none_woken ↦ absurd (let z : none ≡ some q' = rw none_woken at e in cc)
    | inl some_woken ↦ subst Inv (some-injective (rw some_woken at e)) (
        put-Inv _ x 1 (omega arith) (record {
          in_order = v.in_order;
          bounded = v.bounded;
          takers = λ h. omega (arith, v.takers h);
          putters = λ h. let p = v.putters h in ground arith;
        }))
  ]
  step-Inv q takes q' v e = subst Inv (some-injective e) (
      take_from-Inv q q.queue 0 refl (omega arith) (record {
        in_order = v.in_order;
        bounded = v.bounded;
        takers = λ h. omega (arith, v.takers h);
        putters = λ h. omega (arith, v.putters h);
      }))
  step-Inv q takes_on q' v e = elim (Bool-cases (ltb 0 q.takers_woken)) [
    | inr none_woken ↦ absurd (let z : none ≡ some q' = rw none_woken at e in cc)
    | inl some_woken ↦ subst Inv (some-injective (rw some_woken at e)) (
        take_from-Inv _ q.queue 1 refl (omega arith) (record {
          in_order = v.in_order;
          bounded = v.bounded;
          takers = λ h. let t = v.takers h in ground arith;
          putters = λ h. omega (arith, v.putters h);
        }))
  ]
  step-Inv q putter_wakes q' v e = elim (Bool-cases (ltb 0 q.putters_asleep)) [
    | inr none_asleep ↦ absurd (let z : none ≡ some q' = rw none_asleep at e in cc)
    | inl some_asleep ↦ subst Inv (some-injective (rw some_asleep at e)) (record {
      in_order = v.in_order;
      bounded = v.bounded;
      takers = v.takers;
      putters = λ h. let p = v.putters (omega arith) in omega arith;
    })
  ]
  step-Inv q taker_wakes q' v e = elim (Bool-cases (ltb 0 q.takers_asleep)) [
    | inr none_asleep ↦ absurd (let z : none ≡ some q' = rw none_asleep at e in cc)
    | inl some_asleep ↦ subst Inv (some-injective (rw some_asleep at e)) (record {
      in_order = v.in_order;
      bounded = v.bounded;
      takers = λ h. let t = v.takers (omega arith) in omega arith;
      putters = v.putters;
    })
  ]

  and_then-some :
      (m : Option (BoundedBlockingQueue A))
      (k : BoundedBlockingQueue A → Option (BoundedBlockingQueue A)) (q' : BoundedBlockingQueue A)
      → and_then m k ≡ some q'
      → (q : BoundedBlockingQueue A) × (m ≡ some q) × (k q ≡ some q')
  unfolding and_then
  and_then-some none k q' e = absurd (cc)
  and_then-some (some q) k q' e = (q, refl, e)

  run-Inv :
      (q : BoundedBlockingQueue A) (es : List (Event A)) (q' : BoundedBlockingQueue A)
      → Inv q
      → run q es ≡ some q'
      → Inv q'
  unfolding run
  run-Inv q [] q' v e = subst Inv (some-injective e) v
  run-Inv q (x ∷ es) q' v e =
      let (d, e1, e2) = and_then-some (step q x) (λ d. run d es) q' e in
      run-Inv d es q' (step-Inv q x d v e1) e2

-- However the threads interleave: what was taken and what waits are what was put, in order; no more
-- waits than the bound; while a taker sleeps, every element has a woken taker on its way to it, and
-- while a putter sleeps, every free place has a woken putter.
pub run-new_queue {ℓ} :
    {A : Type ℓ} (max_size : ℕ) (es : List (Event A)) (q : BoundedBlockingQueue A)
    → run (new_queue max_size) es ≡ some q
    → Inv q
unfolding new_queue
run-new_queue max_size es q e =
    run-Inv (new_queue max_size) es q
      (record {
        in_order = refl;
        bounded = omega arith;
        takers = λ h. omega arith;
        putters = λ h. absurd (omega arith);
      })
      e
