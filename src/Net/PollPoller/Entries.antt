-- ===== src/Net/PollPoller/Entries.antt =====
-- Entries of a vector that is changed, extended and cut, and maps that are assigned to.
use leaf.Shared.{
  ℕ, zero, suc, ◌<◌, ◌≡◌, ◌≢◌, refl, ap, ◌⊎◌, inl, inr, true, false, Bool-cases, List, [], ◌∷◌,
  ◌++◌, some, ◌==◌, length, get_elem?, take, arith,
}
use leaf.Shared.Outcome.{ok}
use leaf.Net.PollPoller.{assign, set_elem, at}

module _ {ℓ} {A : Type ℓ} where
  pub length-set_elem : (xs : List A) (i : ℕ) (x : A) → length (set_elem xs i x) ≡ length xs
  length-set_elem [] i x = refl
  length-set_elem (y ∷ ys) zero x = refl
  length-set_elem (y ∷ ys) (suc i) x = ap suc (length-set_elem ys i x)

  pub get-set_same :
      (xs : List A) (i : ℕ) (x : A) → i < length xs → get_elem? (set_elem xs i x) i ≡ some x
  get-set_same [] i x h = absurd (omega (arith, h))
  get-set_same (y ∷ ys) zero x h = refl
  get-set_same (y ∷ ys) (suc i) x h = get-set_same ys i x (omega arith)

  pub get-set_other :
      (xs : List A) (i j : ℕ) (x : A) → i ≢ j → get_elem? (set_elem xs j x) i ≡ get_elem? xs i
  get-set_other [] i j x h = refl
  get-set_other (y ∷ ys) zero zero x h = absurd (h refl)
  get-set_other (y ∷ ys) zero (suc j) x h = refl
  get-set_other (y ∷ ys) (suc i) zero x h = refl
  get-set_other (y ∷ ys) (suc i) (suc j) x h = get-set_other ys i j x (λ e. h (ap suc e))

  pub get_inside : (xs : List A) (i : ℕ) (x : A) → get_elem? xs i ≡ some x → i < length xs
  get_inside [] i x e = absurd (cc)
  get_inside (y ∷ ys) zero x e = omega arith
  get_inside (y ∷ ys) (suc i) x e = omega (arith, get_inside ys i x e)

  pub get-take : (n : ℕ) (xs : List A) (i : ℕ) → i < n → get_elem? (take n xs) i ≡ get_elem? xs i
  get-take zero xs i h = absurd (omega (arith, h))
  get-take (suc n) [] i h = refl
  get-take (suc n) (y ∷ ys) zero h = refl
  get-take (suc n) (y ∷ ys) (suc i) h = get-take n ys i (omega arith)

  pub get_append-last :
      (xs : List A) (y z : A) (i : ℕ)
      → get_elem? (xs ++ y ∷ []) i ≡ some z
      → (get_elem? xs i ≡ some z) ⊎ (i ≡ length xs) × (y ≡ z)
  get_append-last [] y z zero e = inr (refl, cc)
  get_append-last [] y z (suc i) e = absurd (cc)
  get_append-last (x ∷ xs) y z zero e = inl e
  get_append-last (x ∷ xs) y z (suc i) e = elim (get_append-last xs y z i e) [
    | inl h ↦ inl h
    | inr (h, q) ↦ inr (ap suc h, q)
  ]

  pub get_append-old :
      (xs : List A) (y z : A) (i : ℕ)
      → get_elem? xs i ≡ some z
      → get_elem? (xs ++ y ∷ []) i ≡ some z
  get_append-old [] y z i e = absurd (cc)
  get_append-old (x ∷ xs) y z zero e = e
  get_append-old (x ∷ xs) y z (suc i) e = get_append-old xs y z i e

  pub get_append-new : (xs : List A) (y : A) → get_elem? (xs ++ y ∷ []) (length xs) ≡ some y
  get_append-new [] y = refl
  get_append-new (x ∷ xs) y = get_append-new xs y

  pub take_inside : (n : ℕ) (xs : List A) (i : ℕ) (x : A) → get_elem? (take n xs) i ≡ some x → i < n
  take_inside zero xs i x e = absurd (cc)
  take_inside (suc n) [] i x e = absurd (cc)
  take_inside (suc n) (y ∷ ys) zero x e = omega arith
  take_inside (suc n) (y ∷ ys) (suc i) x e = omega (arith, take_inside n ys i x e)

  pub get_total : (xs : List A) (i : ℕ) → i < length xs → (x : A) × (get_elem? xs i ≡ some x)
  get_total [] i h = absurd (omega (arith, h))
  get_total (y ∷ ys) zero h = (y, refl)
  get_total (y ∷ ys) (suc i) h = get_total ys i (omega arith)

  pub at-get : (xs : List A) (i : ℕ) (x : A) → get_elem? xs i ≡ some x → at xs i ≡ ok x
  at-get [] i x e = absurd (cc)
  at-get (y ∷ ys) zero x e = cc
  at-get (y ∷ ys) (suc i) x e = at-get ys i x e

  pub at-eq-ok : (xs : List A) (i : ℕ) (x : A) → at xs i ≡ ok x → get_elem? xs i ≡ some x
  at-eq-ok [] i x e = absurd (cc)
  at-eq-ok (y ∷ ys) zero x e = cc
  at-eq-ok (y ∷ ys) (suc i) x e = at-eq-ok ys i x e

module _ {ℓ} {A : Type ℓ} (f : ℕ → A) (k : ℕ) (v : A) where
  pub assign-same : (x : ℕ) → x ≡ k → assign f k v x ≡ v
  assign-same x e = let q : (x == k) ≡ true = ground arith in rw q

  pub assign-other : (x : ℕ) → x ≢ k → assign f k v x ≡ f x
  assign-other x h = let q : (x == k) ≡ false = ground arith in rw q

pub eq_or_ne : (a b : ℕ) → (a ≡ b) ⊎ (a ≢ b)
eq_or_ne a b = elim (Bool-cases (a == b)) [
  | inl e ↦ inl (ground arith)
  | inr e ↦ inr (λ q. ground arith)
]

pub some-injective {ℓ} : {A : Type ℓ} {a b : A} → some a ≡ some b → a ≡ b
some-injective e = cc
