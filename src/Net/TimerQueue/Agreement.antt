-- ===== src/Net/TimerQueue/Agreement.antt =====
-- The two sets of timers in net/TimerQueue.cc, and `getExpired` on both.
use leaf.Shared.{
  ℕ, ◌+◌, ◌<◌, ◌≡◌, refl, sym, ap, ap₂, ◌∙◌, inl, inr, Bool, true, false, Bool-cases, List, [], ◌∷◌,
  ◌++◌, ◌==◌, length, length-append, arith,
}
use leaf.Shared.Outcome.{ok, ◌>>=◌}
use leaf.Net.TimerQueue.{
  Timer, TimerId, TimerQueue, id_of, same_id, has_id, erase_id, expired_prefix, from_lower_bound,
  begins_after, erase_all, get_expired,
}
use leaf.Net.TimerQueue.Expiry.{AllAfter, Sorted, Splits, expired-Splits, from_lower_bound-Sorted}

-- How often an identity is in a list of them, or of timers.
abbrev pub once : Bool → ℕ
once true = 1
once false = 0

abbrev pub occ : TimerId → List TimerId → ℕ
occ i [] = 0
occ i (j ∷ js) = once (same_id i j) + occ i js

abbrev pub ids : List Timer → List TimerId
ids [] = []
ids (t ∷ ts) = id_of t ∷ ids ts

pub record Agree (q : TimerQueue) : Type 0 where
  pub same : (i : TimerId) → occ i (ids q.timers) ≡ occ i q.active
  pub lengths : length q.timers ≡ length q.active

pub same_id-eq : (i j : TimerId) → same_id i j ≡ true → i ≡ j
unfolding same_id
same_id-eq i j h =
    let a : i.address ≡ j.address = ground arith in
    let s : i.sequence ≡ j.sequence = ground arith in
    ap₂ (λ x y. record { address = x; sequence = y }) a s

pub same_id_refl : (i : TimerId) → same_id i i ≡ true
unfolding same_id
same_id_refl i = ground arith

occ-append :
    (i : TimerId) (ss ts : List Timer) → occ i (ids (ss ++ ts)) ≡ occ i (ids ss) + occ i (ids ts)
occ-append i [] ts = omega arith
occ-append i (s ∷ ss) ts = omega (arith, occ-append i ss ts)

pub occ-has_id : (i : TimerId) (js : List TimerId) → 0 < occ i js → has_id i js ≡ true
unfolding has_id
occ-has_id i [] h = absurd (omega arith)
occ-has_id i (j ∷ js) h = elim (Bool-cases (same_id i j)) [
  | inl here ↦ rw here refl
  | inr there ↦
      let rest : 0 < 0 + occ i js = rw there at h in
      rw there (occ-has_id i js (omega (arith, rest)))
]

-- One identity goes.
pub record Erased (i : TimerId) (js ks : List TimerId) : Type 0 where
  pub less : (k : TimerId) → occ k ks + once (same_id k i) ≡ occ k js
  pub shorter : length ks + 1 ≡ length js

pub erase_id-Erased :
    (i : TimerId) (js : List TimerId) → has_id i js ≡ true → Erased i js (erase_id i js)
unfolding has_id erase_id
erase_id-Erased i [] h = absurd (cc)
erase_id-Erased i (j ∷ js) h = elim (Bool-cases (same_id i j)) [
  | inl here ↦
      let q = same_id-eq i j here in
      rw here (record {
        less = λ k. omega (arith, ap (λ x. once (same_id k x)) q);
        shorter = omega arith;
      })
  | inr there ↦
      let r = erase_id-Erased i js (rw there at h) in
      rw there (record { less = λ k. omega (arith, r.less k); shorter = omega (arith, r.shorter) })
]

-- All expired timers can be erased, and what is left names the rest.
erase_all-returns :
    (active : List TimerId) (ts rest : List Timer)
    → ((k : TimerId) → occ k active ≡ occ k (ids ts) + occ k (ids rest))
    → (left : List TimerId) × (erase_all active ts ≡ ok left)
      × ((k : TimerId) → occ k left ≡ occ k (ids rest))
      × (length left + length ts ≡ length active)
unfolding erase_all
erase_all-returns active [] rest h = (active, refl, λ k. omega (arith, h k), omega arith)
erase_all-returns active (t ∷ ts) rest h =
    let i = id_of t in
    let some_there : 0 < occ i active =
      let one : once (same_id i i) ≡ 1 = rw (same_id_refl i) refl in omega (arith, h i, one) in
    let there = occ-has_id i active some_there in
    let er = erase_id-Erased i active there in
    let (left, r, o, l) =
      erase_all-returns (erase_id i active) ts rest (λ k. omega (arith, h k, er.less k)) in
    (left, rw there r, o, omega (arith, l, er.shorter))

begins-after : (now : ℕ) (ts : List Timer) → AllAfter now ts → begins_after now ts ≡ true
unfolding begins_after
begins-after now [] a = refl
begins-after now (t ∷ ts) a = let h = a.0 in ground arith

-- `getExpired` never fails: it takes out exactly the timers that expire until `now`, in their order,
-- leaves exactly those that expire later, and both sets of what is left name the same timers.
pub get_expired-Splits :
    (q : TimerQueue) (now : ℕ)
    → Sorted q.timers
    → Agree q
    → (expired : List Timer) × (q' : TimerQueue) × (get_expired q now ≡ ok (expired, q'))
      × Splits now q.timers expired q'.timers
      × Sorted q'.timers
      × Agree q'
unfolding get_expired
get_expired-Splits q now s a =
    let early = expired_prefix now q.timers in
    let late = from_lower_bound now q.timers in
    let sp = expired-Splits now q.timers s in
    let both : (k : TimerId) → occ k q.active ≡ occ k (ids early) + occ k (ids late) =
      λ k. sym (a.same k) ∙ ap (λ ts. occ k (ids ts)) (sym sp.joined) ∙ occ-append k early late in
    let (left, r, o, l) = erase_all-returns q.active early late both in
    let n : length late ≡ length left =
      omega (arith, l, a.lengths, ap length sp.joined, length-append early late) in
    let e1 : (length q.timers == length q.active) ≡ true = let x = a.lengths in ground arith in
    let e2 : (length late == length left) ≡ true = ground arith in
    (
      early,
      record q { timers = late; active = left },
      rw (e1, begins-after now late sp.later, r, ◌>>=◌, e2),
      sp,
      from_lower_bound-Sorted now q.timers s,
      record { same = λ k. sym (o k); lengths = n },
    )
