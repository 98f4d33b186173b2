-- ===== src/Base/LogStream/Hex.antt =====
-- `convertHex` of base/LogStream.cc, and how its text is read.
use mathlib.Core.List.{reverse, reverse-cons}
use leaf.Shared.{
  length-reverse, ℕ, zero, suc, ◌+◌, ◌-◌, ◌*◌, ◌/◌, ◌%◌, ◌^◌, ◌≤◌, ◌<◌, ◌≡◌, refl, ap, ◌∙◌, inl,
  inr, Bool-cases, List, [], ◌∷◌, ◌++◌, some, arith, ltb, ◌==◌, if◌then◌else◌, length, append_assoc,
  get_elem?,
}
use leaf.Base.LogStream.{digits_hex, convert_hex_loop, convert_hex}

-- The value of a hexadecimal digit, in upper case.
abbrev hex_value : ℕ → ℕ
hex_value c = if ltb c 65 then c - 48 else c - 55

hex_digit : (k : ℕ) → k < 16 → (c : ℕ) × (get_elem? digits_hex k ≡ some c) × (hex_value c ≡ k)
hex_digit zero h = (48, refl, refl)
hex_digit (suc zero) h = (49, refl, refl)
hex_digit (suc (suc zero)) h = (50, refl, refl)
hex_digit (suc (suc (suc zero))) h = (51, refl, refl)
hex_digit (suc (suc (suc (suc zero)))) h = (52, refl, refl)
hex_digit (suc (suc (suc (suc (suc zero))))) h = (53, refl, refl)
hex_digit (suc (suc (suc (suc (suc (suc zero)))))) h = (54, refl, refl)
hex_digit (suc (suc (suc (suc (suc (suc (suc zero))))))) h = (55, refl, refl)
hex_digit (suc (suc (suc (suc (suc (suc (suc (suc zero)))))))) h = (56, refl, refl)
hex_digit (suc (suc (suc (suc (suc (suc (suc (suc (suc zero))))))))) h = (57, refl, refl)
hex_digit (suc (suc (suc (suc (suc (suc (suc (suc (suc (suc zero)))))))))) h = (65, refl, refl)
hex_digit (suc (suc (suc (suc (suc (suc (suc (suc (suc (suc (suc zero))))))))))) h =
    (66, refl, refl)
hex_digit (suc (suc (suc (suc (suc (suc (suc (suc (suc (suc (suc (suc zero)))))))))))) h =
    (67, refl, refl)
hex_digit (suc (suc (suc (suc (suc (suc (suc (suc (suc (suc (suc (suc (suc zero))))))))))))) h =
    (68, refl, refl)
hex_digit (suc (suc (suc (suc (suc (suc (suc (suc (suc (suc (suc (suc (suc (suc zero))))))))))))))
      h =
    (69, refl, refl)
hex_digit
      (suc (suc (suc (suc (suc (suc (suc (suc (suc (suc (suc (suc (suc (suc (suc zero)))))))))))))))
      h =
    (70, refl, refl)
hex_digit
      (suc
        (suc (suc (suc (suc (suc (suc (suc (suc (suc (suc (suc (suc (suc (suc (suc k))))))))))))))))
      h =
    absurd (omega arith)

abbrev value_of : List ℕ → ℕ
value_of [] = 0
value_of (c ∷ cs) = hex_value c + 16 * value_of cs

abbrev pow16 : ℕ → ℕ
pow16 zero = 1
pow16 (suc n) = 16 * pow16 n

fuel_left : (fuel m : ℕ) → m < pow16 fuel → 0 < m → 0 < fuel
fuel_left zero m h k = absurd (omega arith)
fuel_left (suc fuel) m h k = omega arith

convert_hex_loop-value_of :
    (fuel i : ℕ) (p : List ℕ)
    → i < pow16 fuel
    → 0 < fuel
    → (ds : List ℕ) × (convert_hex_loop fuel i p ≡ some (p ++ ds))
      × (value_of ds ≡ i)
      × (length ds ≤ fuel)
unfolding convert_hex_loop
convert_hex_loop-value_of zero i p lt h = absurd (omega arith)
convert_hex_loop-value_of (suc fuel) i p lt h =
    let (c, at, v) = hex_digit (i % 16) (omega arith) in
    elim (Bool-cases (i / 16 == 0)) [
      | inl stop ↦
          let z : i / 16 ≡ 0 = ground arith in
          (c ∷ [], rw (at, convert_hex_loop, stop), omega arith, omega arith)
      | inr more ↦
          let go : 0 < i / 16 = ground arith in
          let less : i / 16 < pow16 fuel = omega arith in
          let (ds, e, w, n) =
            convert_hex_loop-value_of fuel (i / 16) (p ++ c ∷ []) less (fuel_left fuel _ less go) in
          (
            c ∷ ds,
            rw (at, convert_hex_loop, more, e) (ap some (append_assoc p (c ∷ []) ds)),
            omega arith,
            omega arith,
          )
    ]

abbrev horner : ℕ → List ℕ → ℕ
horner acc [] = acc
horner acc (c ∷ cs) = horner (16 * acc + hex_value c) cs

-- Reading a hexadecimal text back, highest digit first.
abbrev pub read_hex : List ℕ → ℕ
read_hex = horner 0

horner-snoc :
    (acc : ℕ) (xs : List ℕ) (c : ℕ) → horner acc (xs ++ c ∷ []) ≡ 16 * horner acc xs + hex_value c
horner-snoc acc [] c = refl
horner-snoc acc (x ∷ xs) c = horner-snoc (16 * acc + hex_value x) xs c

horner-reverse : (ds : List ℕ) → horner 0 (reverse ds) ≡ value_of ds
horner-reverse [] = refl
horner-reverse (c ∷ ds) =
    ap (horner 0) (reverse-cons c ds)
    ∙ horner-snoc 0 (reverse ds) c
    ∙ omega (arith, horner-reverse ds)

-- `convertHex` ends and prints at most 16 digits, which read back as the address.
pub convert_hex-reads :
    (v : ℕ)
    → v < 2 ^ 64
    → (text : List ℕ) × (convert_hex v ≡ some text) × (read_hex text ≡ v) × (length text ≤ 16)
unfolding convert_hex
convert_hex-reads v h =
    let (ds, e, w, n) = convert_hex_loop-value_of 16 v [] (omega arith) (omega arith) in
    (reverse ds, rw (e, convert_hex), horner-reverse ds ∙ w, omega (arith, length-reverse ds))
