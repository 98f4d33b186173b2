-- ===== src/Net/TimerQueue/Expiry.antt =====
-- Which timers of net/TimerQueue.cc expire.
use leaf.Shared.{
  ℕ, ◌≤◌, ◌<◌, ◌≡◌, refl, ap, inl, inr, subst, Bool-cases, List, [], ◌∷◌, ◌++◌, Option, none, some,
  leb, arith,
}
use leaf.Net.TimerQueue.{
  Timer, entry_less, put_behind, insert_entry, expired_prefix, from_lower_bound,
}

-- Everything in the list expires after `now`, or until then.
abbrev pub AllAfter : ℕ → List Timer → Type 0
AllAfter now [] = Unit {0}
AllAfter now (t ∷ ts) = (now < t.expiration) × AllAfter now ts

abbrev pub AllUntil : ℕ → List Timer → Type 0
AllUntil now [] = Unit {0}
AllUntil now (t ∷ ts) = (t.expiration ≤ now) × AllUntil now ts

-- The order of `timers_`.
abbrev pub AllFrom : ℕ → List Timer → Type 0
AllFrom lo [] = Unit {0}
AllFrom lo (t ∷ ts) = (lo ≤ t.expiration) × AllFrom lo ts

abbrev pub Sorted : List Timer → Type 0
Sorted [] = Unit {0}
Sorted (t ∷ ts) = AllFrom t.expiration ts × Sorted ts

AllFrom-after : (now lo : ℕ) (ts : List Timer) → now < lo → AllFrom lo ts → AllAfter now ts
AllFrom-after now lo [] h f = tt
AllFrom-after now lo (t ∷ ts) h f = (omega (arith, f.0), AllFrom-after now lo ts h f.1)

AllFrom-le : (lo lo' : ℕ) (ts : List Timer) → lo' ≤ lo → AllFrom lo ts → AllFrom lo' ts
AllFrom-le lo lo' [] h f = tt
AllFrom-le lo lo' (t ∷ ts) h f = (omega (arith, f.0), AllFrom-le lo lo' ts h f.1)

-- The split at `now`: nothing is lost, and each side is on its side.
pub record Splits (now : ℕ) (ts early late : List Timer) : Type 0 where
  pub joined : early ++ late ≡ ts
  pub due : AllUntil now early
  pub later : AllAfter now late

pub expired-Splits :
    (now : ℕ) (ts : List Timer)
    → Sorted ts
    → Splits now ts (expired_prefix now ts) (from_lower_bound now ts)
unfolding expired_prefix from_lower_bound
expired-Splits now [] s = record { joined = refl; due = tt; later = tt }
expired-Splits now (t ∷ ts) s = elim (Bool-cases (leb t.expiration now)) [
  | inl due ↦
      let r = expired-Splits now ts s.1 in
      rw due (record {
        joined = ap (λ us. t ∷ us) r.joined;
        due = (ground arith, r.due);
        later = r.later;
      })
  | inr late ↦
      let lt : now < t.expiration = ground arith in
      rw late
        (record { joined = refl; due = tt; later = (lt, AllFrom-after now t.expiration ts lt s.0) })
]

pub some-injective {ℓ} : {A : Type ℓ} {a b : A} → some a ≡ some b → a ≡ b
some-injective e = cc

pub cons-some :
    (s : Timer) (o : Option (List Timer)) (us : List Timer)
    → put_behind s o ≡ some us
    → (vs : List Timer) × (o ≡ some vs) × (s ∷ vs ≡ us)
unfolding put_behind
cons-some s none us e = absurd (cc)
cons-some s (some vs) us e = (vs, refl, some-injective e)

-- Inserting keeps the order.
insert_entry-AllFrom :
    (lo : ℕ) (t : Timer) (ts us : List Timer)
    → lo ≤ t.expiration
    → AllFrom lo ts
    → insert_entry t ts ≡ some us
    → AllFrom lo us
unfolding insert_entry
insert_entry-AllFrom lo t [] us h f e = subst (AllFrom lo) (let q : t ∷ [] ≡ us = cc in q) (h, tt)
insert_entry-AllFrom lo t (s ∷ ss) us h f e = elim (Bool-cases (entry_less t s)) [
  | inl first ↦ subst (AllFrom lo) (some-injective (rw first at e)) (h, f)
  | inr not_first ↦ elim (Bool-cases (entry_less s t)) [
    | inr twice ↦ absurd (let z : none ≡ some us = rw (not_first, twice) at e in cc)
    | inl further ↦
        let (vs, e1, e2) = cons-some s (insert_entry t ss) us (rw (not_first, further) at e) in
        subst (AllFrom lo) e2 (f.0, insert_entry-AllFrom lo t ss vs h f.1 e1)
  ]
]

pub insert_entry-Sorted :
    (t : Timer) (ts us : List Timer) → Sorted ts → insert_entry t ts ≡ some us → Sorted us
unfolding insert_entry entry_less
insert_entry-Sorted t [] us s e = subst Sorted (let q : t ∷ [] ≡ us = cc in q) (tt, tt)
insert_entry-Sorted t (u ∷ ss) us s e = elim (Bool-cases (entry_less t u)) [
  | inl first ↦
      let le : t.expiration ≤ u.expiration = ground arith in
      subst Sorted (some-injective (rw first at e))
        ((le, AllFrom-le u.expiration t.expiration ss le s.0), s)
  | inr not_first ↦ elim (Bool-cases (entry_less u t)) [
    | inr twice ↦ absurd (let z : none ≡ some us = rw (not_first, twice) at e in cc)
    | inl further ↦
        let le : u.expiration ≤ t.expiration = ground arith in
        let (vs, e1, e2) = cons-some u (insert_entry t ss) us (rw (not_first, further) at e) in
        subst Sorted e2
          (insert_entry-AllFrom u.expiration t ss vs le s.0 e1, insert_entry-Sorted t ss vs s.1 e1)
  ]
]

pub from_lower_bound-Sorted :
    (now : ℕ) (ts : List Timer) → Sorted ts → Sorted (from_lower_bound now ts)
unfolding from_lower_bound
from_lower_bound-Sorted now [] s = tt
from_lower_bound-Sorted now (t ∷ ts) s = elim (Bool-cases (leb t.expiration now)) [
  | inl due ↦ rw due (from_lower_bound-Sorted now ts s.1)
  | inr late ↦ rw late s
]
