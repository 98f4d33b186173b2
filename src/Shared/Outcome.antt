-- ===== src/Shared/Outcome.antt =====
-- How a call ends: with a value, at a failed `assert`, outside the memory that it may use, or with
-- `std::length_error`.
use leaf.Shared.{◌≡◌, refl, Bool, true, false}

pub data Outcome {ℓ} (A : Type ℓ) : Type ℓ where
  ok : A → Outcome A
  assert_failed out_of_bounds length_error : Outcome A

infixl 5 ◌>>=◌
abbrev pub ◌>>=◌ {ℓ κ} : {A : Type ℓ} → {B : Type κ} → Outcome A → (A → Outcome B) → Outcome B
ok a >>= next = next a
assert_failed >>= next = assert_failed
out_of_bounds >>= next = out_of_bounds
length_error >>= next = length_error

infixl 5 ◌>>◌
abbrev pub ◌>>◌ {ℓ} : {B : Type ℓ} → Outcome (Unit {0}) → Outcome B → Outcome B
m >> k = m >>= λ _. k

abbrev pub assert : Bool → Outcome (Unit {0})
assert true = ok tt
assert false = assert_failed

-- A successful call of a chain succeeded at each link.
pub >>=-eq-ok {ℓ κ} :
    {A : Type ℓ} {B : Type κ} (call : Outcome A) (next : A → Outcome B) {end : B}
    → (call >>= next) ≡ ok end
    → (a : A) × (call ≡ ok a) × (next a ≡ ok end)
>>=-eq-ok (ok a) next e = (a, refl, e)
>>=-eq-ok assert_failed next e = absurd (cc)
>>=-eq-ok out_of_bounds next e = absurd (cc)
>>=-eq-ok length_error next e = absurd (cc)

pub assert-eq-ok : (b : Bool) (u : Unit {0}) → assert b ≡ ok u → b ≡ true
assert-eq-ok true u h = refl
assert-eq-ok false u h = absurd (cc)

pub ok-injective {ℓ} : {A : Type ℓ} {a b : A} → ok a ≡ ok b → a ≡ b
ok-injective h = cc
