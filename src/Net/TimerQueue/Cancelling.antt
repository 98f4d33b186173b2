-- ===== src/Net/TimerQueue/Cancelling.antt =====
-- Timers that are cancelled in net/TimerQueue.cc.
use leaf.Shared.{
  ℕ, ◌+◌, ◌≤◌, ◌<◌, ◌≡◌, refl, ap, inl, inr, true, false, Bool-cases, List, [], ◌∷◌, some, ◌==◌,
  if◌then◌else◌, length, arith,
}
use leaf.Shared.Outcome.{Outcome, ok}
use leaf.Net.TimerQueue.{
  Timer, TimerId, TimerQueue, id_of, same_id, has_id, erase_id, put_behind, erase_timer,
  cancel_active, cancel_in_loop,
}
use leaf.Net.TimerQueue.Expiry.{AllFrom, Sorted}
use leaf.Net.TimerQueue.Agreement.{
  once, occ, ids, same_id-eq, same_id_refl, occ-has_id, erase_id-Erased,
}
use leaf.Net.TimerQueue.Insertion.{Kept}

-- How many timers stand at an address: a live object has its own.
abbrev pub at_address : ℕ → List Timer → ℕ
at_address a [] = 0
at_address a (t ∷ ts) = (if t.address == a then 1 else 0) + at_address a ts

occ-at_address : (i : TimerId) (ts : List Timer) → occ i (ids ts) ≤ at_address i.address ts
unfolding same_id id_of
occ-at_address i [] = omega arith
occ-at_address i (t ∷ ts) =
    let r = occ-at_address i ts in
    elim (Bool-cases (t.address == i.address)) [
      | inl same ↦ elim (Bool-cases (same_id i (id_of t))) [
        | inl here ↦ rw (same, here) (omega (arith, r))
        | inr there ↦ rw (same, there) (omega (arith, r))
      ]
      | inr other ↦
          let there : same_id i (id_of t) ≡ false = ground arith in
          rw (other, there) (omega (arith, r))
    ]

other_address :
    (i : TimerId) (t : Timer) → (t.address == i.address) ≡ false → same_id i (id_of t) ≡ false
unfolding same_id id_of
other_address i t h = ground arith

erase_behind :
    (a : ℕ) (t : Timer) (ts us : List Timer)
    → (t.address == a) ≡ false
    → erase_timer a ts ≡ some us
    → erase_timer a (t ∷ ts) ≡ some (t ∷ us)
unfolding erase_timer put_behind
erase_behind a t ts us h e = rw h (ap (put_behind t) e)

-- One timer goes.
record Gone (i : TimerId) (ts us : List Timer) : Type 0 where
  less : (k : TimerId) → occ k (ids us) + once (same_id k i) ≡ occ k (ids ts)
  shorter : length us + 1 ≡ length ts
  sorted : Sorted us
  fewer : (a : ℕ) → at_address a us ≤ at_address a ts
  from : (lo : ℕ) → AllFrom lo ts → AllFrom lo us

erase_timer-Gone :
    (i : TimerId) (ts : List Timer)
    → 0 < occ i (ids ts)
    → at_address i.address ts ≤ 1
    → Sorted ts
    → (us : List Timer) × (erase_timer i.address ts ≡ some us) × Gone i ts us
unfolding erase_timer put_behind id_of
erase_timer-Gone i [] h u s = absurd (omega arith)
erase_timer-Gone i (t ∷ ts) h u s = elim (Bool-cases (t.address == i.address)) [
  | inl same ↦
      let one : 1 + at_address i.address ts ≤ 1 = rw same at u in
      let here : same_id i (id_of t) ≡ true = elim (Bool-cases (same_id i (id_of t))) [
        | inl yes_ ↦ yes_
        | inr no_ ↦
            let more : 0 < 0 + occ i (ids ts) = rw no_ at h in
            absurd (omega (arith, more, one, occ-at_address i ts))
      ] in
      let e = same_id-eq i (id_of t) here in
      (
        ts,
        rw same refl,
        record {
          less = λ k. omega (arith, ap (λ x. once (same_id k x)) e);
          shorter = omega arith;
          sorted = s.1;
          fewer = λ a. omega arith;
          from = λ lo f. f.1;
        },
      )
  | inr other ↦
      let there : same_id i (id_of t) ≡ false = other_address i t other in
      let more : 0 < 0 + occ i (ids ts) = rw there at h in
      let less_ : 0 + at_address i.address ts ≤ 1 = rw other at u in
      let (us, e, g) = erase_timer-Gone i ts (omega (arith, more)) (omega (arith, less_)) s.1 in
      (
        t ∷ us,
        erase_behind i.address t ts us other e,
        record {
          less = λ k. omega (arith, g.less k);
          shorter = omega (arith, g.shorter);
          sorted = (g.from t.expiration s.0, g.sorted);
          fewer = λ a. omega (arith, g.fewer a);
          from = λ lo f. (f.0, g.from lo f.1);
        },
      )
]

-- What a cancellation leaves.
pub record Cancels (q : TimerQueue) (i : TimerId) (r : Outcome TimerQueue) : Type 0 where
  pub result : TimerQueue
  pub returns : r ≡ ok result
  pub kept : Kept result
  pub gone : occ i result.active ≡ 0
  pub others : (k : TimerId) → same_id k i ≡ false → occ k result.active ≡ occ k q.active
  pub remembered :
      q.calling_expired_timers ≡ true → occ i q.active ≡ 0 → has_id i result.canceling ≡ true

has_id-occ : (i : TimerId) (js : List TimerId) → has_id i js ≡ true → 0 < occ i js
unfolding has_id
has_id-occ i [] h = absurd (cc)
has_id-occ i (j ∷ js) h = elim (Bool-cases (same_id i j)) [
  | inl here ↦ rw here (omega arith)
  | inr there ↦ let r = has_id-occ i js (rw there at h) in rw there (omega (arith, r))
]

absent-occ : (i : TimerId) (js : List TimerId) → has_id i js ≡ false → occ i js ≡ 0
absent-occ i js h = elim (Bool-cases (occ i js == 0)) [
  | inl zero_ ↦ ground arith
  | inr some_ ↦ absurd (let t = occ-has_id i js (ground arith) in cc)
]

module _ (q : TimerQueue) (i : TimerId) (k : Kept q)
    (live : at_address i.address q.timers ≤ 1) where
  both_long : (length q.timers == length q.active) ≡ true
  both_long = let x = k.agree.lengths in ground arith

  cancel_active-Cancels : has_id i q.active ≡ true → Cancels q i (cancel_in_loop q i)
  unfolding cancel_in_loop cancel_active
  cancel_active-Cancels there =
      let in_active = has_id-occ i q.active there in
      let (us, e, g) =
        erase_timer-Gone i q.timers (omega (arith, k.agree.same i, in_active)) live k.sorted in
      let er = erase_id-Erased i q.active there in
      let n : length us ≡ length (erase_id i q.active) =
        omega (arith, g.shorter, er.shorter, k.agree.lengths) in
      let n' : (length us == length (erase_id i q.active)) ≡ true = ground arith in
      record {
        result = record q { timers = us; active = erase_id i q.active };
        returns = simp (both_long, there, e, n');
        kept = record {
          sorted = g.sorted;
          agree = record {
            same = λ j. omega (arith, g.less j, er.less j, k.agree.same j);
            lengths = n;
          };
        };
        gone =
            let one : once (same_id i i) ≡ 1 = ap once (same_id_refl i) in
            omega (arith, er.less i, one, k.agree.same i, occ-at_address i q.timers, live);
        others = λ j h. let z : once (same_id j i) ≡ 0 = ap once h in omega (arith, er.less j, z);
        remembered = λ c none_. absurd (omega (arith, none_, in_active));
      }

  inactive-Cancels : has_id i q.active ≡ false → Cancels q i (cancel_in_loop q i)
  unfolding cancel_in_loop
  inactive-Cancels absent = elim (Bool-cases q.calling_expired_timers) [
    | inl calling ↦ record {
      result = record q { canceling = i ∷ q.canceling };
      returns = simp (both_long, absent, calling);
      kept = record {
        sorted = k.sorted;
        agree = record { same = k.agree.same; lengths = k.agree.lengths };
      };
      gone = absent-occ i q.active absent;
      others = λ j h. refl;
      remembered = λ c none_. unfold has_id in simp (same_id_refl i);
    }
    | inr idle ↦ record {
      result = q;
      returns = simp (both_long, absent, idle);
      kept = k;
      gone = absent-occ i q.active absent;
      others = λ j h. refl;
      remembered = λ c none_. absurd (cc);
    }
  ]

-- `cancelInLoop` never fails on timers of which no two have one address. The timer is then in neither
-- set, every other one is where it was, and the order and the agreement of the sets are kept; a
-- timer that is in neither set while the callbacks of expired timers are called is remembered as
-- cancelled.
pub cancel_in_loop-Cancels :
    (q : TimerQueue) (i : TimerId)
    → Kept q
    → at_address i.address q.timers ≤ 1
    → Cancels q i (cancel_in_loop q i)
cancel_in_loop-Cancels q i k live = elim (Bool-cases (has_id i q.active)) [
  | inl there ↦ cancel_active-Cancels q i k live there
  | inr absent ↦ inactive-Cancels q i k live absent
]
