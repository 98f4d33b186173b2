-- ===== src/Base/LogStream/Convert.antt =====
-- The integer conversion `convert` of base/LogStream.cc, and how its text is read.
use mathlib.Core.List.{reverse, reverse-append, reverse-cons}
use leaf.Shared.{
  length-reverse, ℕ, zero, suc, ◌+◌, ◌-◌, ◌*◌, ◌/◌, ◌%◌, ◌^◌, ◌≤◌, ◌<◌, ◌≡◌, ◌≢◌, refl, ap, ◌∙◌,
  inl, inr, true, false, Bool-cases, List, [], ◌∷◌, ◌++◌, Option, some, arith, ◌==◌, if◌then◌else◌,
  length, append_assoc, get_elem?,
}
use leaf.Shared.Int.{
  ℤ, pos, negsuc, sub_ℕ, pos_part, neg_part, ◌+ℤ◌, ◌-ℤ◌, ◌*ℤ◌, ◌/ℤ◌, rem_ℤ, ltb_ℤ, is_zero,
  rem_ℤ_pos, +ℤ_pos,
}
use leaf.Base.LogStream.{digits, minus, zero_at, convert_loop, max_digits, convert}

-- The magnitude of an integer.
abbrev pub magnitude : ℤ → ℕ
magnitude z = pos_part z + neg_part z

digit_in_table :
    (k : ℕ)
    → k < 10
    → (get_elem? digits (9 + k) ≡ some (48 + k)) × (get_elem? digits (9 - k) ≡ some (48 + k))
digit_in_table zero h = (refl, refl)
digit_in_table (suc zero) h = (refl, refl)
digit_in_table (suc (suc zero)) h = (refl, refl)
digit_in_table (suc (suc (suc zero))) h = (refl, refl)
digit_in_table (suc (suc (suc (suc zero)))) h = (refl, refl)
digit_in_table (suc (suc (suc (suc (suc zero))))) h = (refl, refl)
digit_in_table (suc (suc (suc (suc (suc (suc zero)))))) h = (refl, refl)
digit_in_table (suc (suc (suc (suc (suc (suc (suc zero))))))) h = (refl, refl)
digit_in_table (suc (suc (suc (suc (suc (suc (suc (suc zero)))))))) h = (refl, refl)
digit_in_table (suc (suc (suc (suc (suc (suc (suc (suc (suc zero))))))))) h = (refl, refl)
digit_in_table (suc (suc (suc (suc (suc (suc (suc (suc (suc (suc k)))))))))) h =
    absurd (omega arith)

rem_neg : (n : ℕ) → rem_ℤ (negsuc n) (pos 10) +ℤ pos 9 ≡ pos (9 - suc n % 10)
unfolding rem_ℤ ◌+ℤ◌ ◌-ℤ◌ ◌*ℤ◌ ◌/ℤ◌
rem_neg n = ground arith

-- The table is read inside its bounds, and gives the digit of the magnitude, whatever the sign.
pub zero_at-rem : (z : ℤ) → zero_at (rem_ℤ z (pos 10)) ≡ some (48 + magnitude z % 10)
unfolding zero_at
zero_at-rem (pos n) =
    let e : 9 + n % 10 ≡ n % 10 + 9 = omega arith in
    let m : (n + 0) % 10 ≡ n % 10 = omega arith in
    rw (rem_ℤ_pos n 10, +ℤ_pos (n % 10) 9, ← e, m) (digit_in_table (n % 10) (omega arith)).0
zero_at-rem (negsuc n) =
    let m : (0 + suc n) % 10 ≡ suc n % 10 = omega arith in
    rw (rem_neg n, m) (digit_in_table (suc n % 10) (omega arith)).1

magnitude-div : (z : ℤ) → magnitude (z /ℤ pos 10) ≡ magnitude z / 10
unfolding ◌/ℤ◌
magnitude-div z = ground arith

-- The value of decimal digits, lowest first.
abbrev pub value_of : List ℕ → ℕ
value_of [] = 0
value_of (c ∷ cs) = (c - 48) + 10 * value_of cs

-- Decimal digits, lowest first, with no zero at the high end unless it is the only digit.
abbrev pub AreDigits : List ℕ → Type 0
AreDigits [] = ⊥
AreDigits (c ∷ []) = (48 ≤ c) × (c ≤ 57)
AreDigits (c ∷ (d ∷ ds)) = (48 ≤ c) × (c ≤ 57) × AreDigits (d ∷ ds) × ((d ∷ ds) ≢ (48 ∷ []))

abbrev pub pow10 : ℕ → ℕ
pow10 zero = 1
pow10 (suc n) = 10 * pow10 n

fuel_left : (fuel m : ℕ) → m < pow10 fuel → 0 < m → 0 < fuel
fuel_left zero m h k = absurd (omega arith)
fuel_left (suc fuel) m h k = omega arith

pub record Prints (n fuel : ℕ) (ds : List ℕ) : Type 0 where
  pub digits_only : AreDigits ds
  pub value : value_of ds ≡ n
  pub short : length ds ≤ fuel

cons-AreDigits :
    (c : ℕ) (ds : List ℕ)
    → (48 ≤ c) × (c ≤ 57)
    → AreDigits ds
    → 0 < value_of ds
    → AreDigits (c ∷ ds)
cons-AreDigits c [] h k v = elim k [ ]
cons-AreDigits c (d ∷ ds) h k v = (h.0, h.1, k, λ e. absurd (omega (arith, ap value_of e)))

abbrev digit_of : ℤ → ℕ
digit_of i = 48 + magnitude i % 10

last_digit :
    (i : ℤ) (fuel : ℕ)
    → is_zero (i /ℤ pos 10) ≡ true
    → Prints (magnitude i) (suc fuel) (digit_of i ∷ [])
last_digit i fuel stop =
    let z : magnitude (i /ℤ pos 10) ≡ 0 = ground arith in
    let m = magnitude-div i in
    record { digits_only = omega arith; value = omega arith; short = omega arith }

more_digits :
    (i : ℤ) (fuel : ℕ) (ds : List ℕ)
    → 0 < magnitude (i /ℤ pos 10)
    → Prints (magnitude (i /ℤ pos 10)) fuel ds
    → Prints (magnitude i) (suc fuel) (digit_of i ∷ ds)
more_digits i fuel ds go r =
    let m = magnitude-div i in
    record {
      digits_only =
          cons-AreDigits (digit_of i) ds (omega arith) r.digits_only (omega (arith, r.value));
      value = omega (arith, r.value);
      short = omega (arith, r.short);
    }

pub convert_loop-Prints :
    (fuel : ℕ) (i : ℤ) (p : List ℕ)
    → magnitude i < pow10 fuel
    → 0 < fuel
    → (ds : List ℕ) × (convert_loop fuel i p ≡ some (p ++ ds)) × Prints (magnitude i) fuel ds
unfolding convert_loop
convert_loop-Prints zero i p lt h = absurd (omega arith)
convert_loop-Prints (suc fuel) i p lt h = elim (Bool-cases (is_zero (i /ℤ pos 10))) [
  | inl stop ↦ (digit_of i ∷ [], rw (zero_at-rem i, convert_loop, stop), last_digit i fuel stop)
  | inr more ↦
      let go : 0 < magnitude (i /ℤ pos 10) = ground arith in
      let less : magnitude (i /ℤ pos 10) < pow10 fuel = omega (arith, magnitude-div i) in
      let (ds, e, r) =
        convert_loop-Prints fuel (i /ℤ pos 10) (p ++ digit_of i ∷ []) less
          (fuel_left fuel _ less go) in
      (
        digit_of i ∷ ds,
        rw (zero_at-rem i, convert_loop, more, e) (ap some (append_assoc p (digit_of i ∷ []) ds)),
        more_digits i fuel ds go r,
      )
]

-- Reading a decimal text back, highest digit first.
abbrev horner : ℕ → List ℕ → ℕ
horner acc [] = acc
horner acc (c ∷ cs) = horner (10 * acc + (c - 48)) cs

abbrev pub read_int : List ℕ → ℤ
read_int [] = pos 0
read_int (c ∷ cs) = if c == minus then sub_ℕ 0 (horner 0 cs) else pos (horner 0 (c ∷ cs))

horner-snoc :
    (acc : ℕ) (xs : List ℕ) (c : ℕ) → horner acc (xs ++ c ∷ []) ≡ 10 * horner acc xs + (c - 48)
horner-snoc acc [] c = refl
horner-snoc acc (x ∷ xs) c = horner-snoc (10 * acc + (x - 48)) xs c

horner-reverse : (ds : List ℕ) → horner 0 (reverse ds) ≡ value_of ds
horner-reverse [] = refl
horner-reverse (c ∷ ds) =
    ap (horner 0) (reverse-cons c ds)
    ∙ horner-snoc 0 (reverse ds) c
    ∙ omega (arith, horner-reverse ds)

abbrev NoMinus : List ℕ → Type 0
NoMinus [] = Unit {0}
NoMinus (c ∷ cs) = (48 ≤ c) × NoMinus cs

NoMinus-snoc : (xs : List ℕ) (c : ℕ) → NoMinus xs → 48 ≤ c → NoMinus (xs ++ c ∷ [])
NoMinus-snoc [] c h k = (k, tt)
NoMinus-snoc (x ∷ xs) c h k = (h.0, NoMinus-snoc xs c h.1 k)

digits-NoMinus : (ds : List ℕ) → AreDigits ds → NoMinus (reverse ds)
digits-NoMinus [] h = elim h [ ]
digits-NoMinus (c ∷ []) h = (h.0, tt)
digits-NoMinus (c ∷ (d ∷ ds)) h =
    rw (reverse-cons c (d ∷ ds))
      (NoMinus-snoc (reverse (d ∷ ds)) c (digits-NoMinus (d ∷ ds) h.2) h.0)

read_int-NoMinus : (xs : List ℕ) → NoMinus xs → read_int xs ≡ pos (horner 0 xs)
read_int-NoMinus [] h = refl
read_int-NoMinus (c ∷ cs) h = let e : (c == minus) ≡ false = ground arith in rw e

sub_ℕ-suc : (n : ℕ) → sub_ℕ 0 (suc n) ≡ negsuc n
sub_ℕ-suc n = ground arith

-- The text of `v`: a minus sign for a negative number, then digits, which end with the lowest; it
-- reads back as `v`, and has at most 20 digits.
pub record IsTextOf (v : ℤ) (r : Option (List ℕ)) : Type 0 where
  pub text : List ℕ
  pub returns : r ≡ some text
  pub digits : List ℕ
  pub decimal : AreDigits digits
  pub written : text ≡ (if ltb_ℤ v (pos 0) then minus ∷ reverse digits else reverse digits)
  pub reads : read_int text ≡ v
  pub short : length text ≤ max_digits + 1

-- For every value of a type of up to 64 bits, the least negative one included, `convert` ends and
-- prints a decimal text that reads back as the number: at least one digit and nothing but digits, no
-- zero in front of others, and in front of them a minus sign exactly for the negative numbers.
pub convert-IsTextOf : (v : ℤ) → magnitude v < 2 ^ 64 → IsTextOf v (convert v)
unfolding convert
convert-IsTextOf (pos n) h =
    let (ds, e, r) = convert_loop-Prints max_digits (pos n) [] (omega arith) (omega arith) in
    let nonneg : ltb_ℤ (pos n) (pos 0) ≡ false = ground arith in
    let back : horner 0 (reverse ds) ≡ n = horner-reverse ds ∙ omega (arith, r.value) in
    record {
      text = reverse ds;
      returns = rw (e, convert, nonneg);
      digits = ds;
      decimal = r.digits_only;
      written = rw nonneg refl;
      reads = read_int-NoMinus (reverse ds) (digits-NoMinus ds r.digits_only) ∙ ap pos back;
      short = omega (arith, length-reverse ds, r.short);
    }
convert-IsTextOf (negsuc n) h =
    let (ds, e, r) = convert_loop-Prints max_digits (negsuc n) [] (omega arith) (omega arith) in
    let neg : ltb_ℤ (negsuc n) (pos 0) ≡ true = ground arith in
    let back : horner 0 (reverse ds) ≡ suc n = horner-reverse ds ∙ omega (arith, r.value) in
    record {
      text = minus ∷ reverse ds;
      returns = rw (e, convert, neg) (ap some (reverse-append ds (minus ∷ [])));
      digits = ds;
      decimal = r.digits_only;
      written = rw neg refl;
      reads = ap (sub_ℕ 0) back ∙ sub_ℕ-suc n;
      short = omega (arith, length-reverse ds, r.short);
    }
