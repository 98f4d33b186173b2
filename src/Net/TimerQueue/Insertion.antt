-- ===== src/Net/TimerQueue/Insertion.antt =====
-- Timers that net/TimerQueue.cc inserts, and inserts again when they repeat.
use leaf.Shared.{
  ℕ, ◌+◌, ◌≡◌, refl, sym, ap, ◌∙◌, inl, inr, subst, Bool-cases, not, ◌&&◌, List, [], ◌∷◌, Option,
  none, some, ltb, ◌==◌, length, arith,
}
use leaf.Shared.Outcome.{ok, assert, >>=-eq-ok, assert-eq-ok, ok-injective}
use leaf.Net.TimerQueue.{
  Timer, TimerId, TimerQueue, id_of, same_id, has_id, entry_less, insert_entry, insert_at, insert,
  restart, reset_all, reset, arm_first, reset_timerfd, is_earliest, add_timer_in_loop,
}
use leaf.Net.TimerQueue.Expiry.{Sorted, insert_entry-Sorted, some-injective, cons-some}
use leaf.Net.TimerQueue.Agreement.{once, occ, ids, Agree}

insert_entry-occ :
    (i : TimerId) (t : Timer) (ts us : List Timer)
    → insert_entry t ts ≡ some us
    → occ i (ids us) ≡ once (same_id i (id_of t)) + occ i (ids ts)
unfolding insert_entry
insert_entry-occ i t [] us e = sym (ap (λ xs. occ i (ids xs)) (let q : t ∷ [] ≡ us = cc in q))
insert_entry-occ i t (s ∷ ss) us e = elim (Bool-cases (entry_less t s)) [
  | inl first ↦ sym (ap (λ xs. occ i (ids xs)) (some-injective (rw first at e)))
  | inr not_first ↦ elim (Bool-cases (entry_less s t)) [
    | inr twice ↦ absurd (let z : none ≡ some us = rw (not_first, twice) at e in cc)
    | inl further ↦
        let (vs, e1, e2) = cons-some s (insert_entry t ss) us (rw (not_first, further) at e) in
        omega (arith, ap (λ xs. occ i (ids xs)) e2, insert_entry-occ i t ss vs e1)
  ]
]

-- The order of the timers and the agreement of the two sets.
pub record Kept (q : TimerQueue) : Type 0 where
  pub sorted : Sorted q.timers
  pub agree : Agree q

insert_at-Kept :
    (q : TimerQueue) (t : Timer) (o : Option (List Timer)) (q' : TimerQueue)
    → insert_entry t q.timers ≡ o
    → Kept q
    → insert_at q t o ≡ ok q'
    → (length q'.timers ≡ length q'.active)
    → Kept q'
unfolding insert_at
insert_at-Kept q t none q' h k e n = absurd (cc)
insert_at-Kept q t (some ts) q' h k e n =
    let (u, e1, e2) = >>=-eq-ok (assert (not (has_id (id_of t) q.active))) _ e in
    let same = ok-injective e2 in
    record {
      sorted = subst (λ x. Sorted x.timers) same (insert_entry-Sorted t q.timers ts k.sorted h);
      agree = record {
        same = λ i.
            subst (λ x. occ i (ids x.timers) ≡ occ i x.active) same
              (insert_entry-occ i t q.timers ts h
                ∙ ap (λ m. once (same_id i (id_of t)) + m) (k.agree.same i));
        lengths = n;
      };
    }

insert-Kept : (q : TimerQueue) (t : Timer) (q' : TimerQueue) → Kept q → insert q t ≡ ok q' → Kept q'
unfolding insert
insert-Kept q t q' k e =
    let (u, _, e1) = >>=-eq-ok (assert (length q.timers == length q.active)) _ e in
    let (d, e2, e3) = >>=-eq-ok (insert_at q t (insert_entry t q.timers)) _ e1 in
    let (w, e4, e5) = >>=-eq-ok (assert (length d.timers == length d.active)) _ e3 in
    let n : length d.timers ≡ length d.active =
      let x = assert-eq-ok (length d.timers == length d.active) w e4 in ground arith in
    subst Kept (ok-injective e5) (insert_at-Kept q t (insert_entry t q.timers) d refl k e2 n)

-- Only `armed` changes.
rearmed-Kept : (q : TimerQueue) (at : ℕ) → Kept q → Kept (reset_timerfd q at)
unfolding reset_timerfd
rearmed-Kept q at k = record {
  sorted = k.sorted;
  agree = record { same = k.agree.same; lengths = k.agree.lengths };
}

reset_all-Kept :
    (q : TimerQueue) (ts : List Timer) (now : ℕ) (q' : TimerQueue)
    → Kept q
    → reset_all q ts now ≡ ok q'
    → Kept q'
unfolding reset_all
reset_all-Kept q [] now q' k e = subst Kept (ok-injective e) k
reset_all-Kept q (t ∷ ts) now q' k e =
    elim (Bool-cases (t.repeat && not (has_id (id_of t) q.canceling))) [
      | inr once_only ↦ reset_all-Kept q ts now q' k (rw once_only at e)
      | inl again ↦
          let (d, e1, e2) =
            >>=-eq-ok (insert q (restart t now)) (λ d. reset_all d ts now) (rw again at e) in
          reset_all-Kept d ts now q' (insert-Kept q (restart t now) d k e1) e2
    ]

arm_first-Kept : (q : TimerQueue) (ts : List Timer) → Kept q → Kept (arm_first q ts)
unfolding arm_first
arm_first-Kept q [] k = k
arm_first-Kept q (t ∷ ts) k = elim (Bool-cases (ltb 0 t.expiration)) [
  | inl is_valid ↦ rw is_valid (rearmed-Kept q t.expiration k)
  | inr invalid ↦ rw invalid k
]

-- Whenever `addTimerInLoop` or `reset` returns, the timers are in order of expiration and both sets
-- name the same timers.
pub timers-Kept :
    (q : TimerQueue) (q1 q2 : TimerQueue) (t : Timer) (expired : List Timer) (now : ℕ)
    → Kept q
    → add_timer_in_loop q t ≡ ok q1
    → reset q expired now ≡ ok q2
    → Kept q1 × Kept q2
unfolding add_timer_in_loop reset
timers-Kept q q1 q2 t expired now k e1 e2 =
    let (d, a, b) = >>=-eq-ok (insert q t) _ e1 in
    let kd = insert-Kept q t d k a in
    let (r, f, g) = >>=-eq-ok (reset_all q expired now) _ e2 in
    let kr = reset_all-Kept q expired now r k f in
    (
      elim (Bool-cases (is_earliest t q.timers)) [
        | inl first ↦ subst Kept (ok-injective (rw first at b)) (rearmed-Kept d t.expiration kd)
        | inr later ↦ subst Kept (ok-injective (rw later at b)) kd
      ],
      subst Kept (ok-injective g) (arm_first-Kept r r.timers kr),
    )
