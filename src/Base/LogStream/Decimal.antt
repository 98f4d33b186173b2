-- ===== src/Base/LogStream/Decimal.antt =====
-- Decimal texts, as `convert` of base/LogStream.cc and snprintf print them.
use mathlib.Core.List.{reverse}
use leaf.Shared.{
  ℕ, zero, suc, ◌+◌, ◌%◌, ◌^◌, ◌≤◌, ◌<◌, ◌≡◌, ap, ◌∙◌, inl, inr, false, Bool-cases, List, [], ◌∷◌,
  ◌++◌, Option, none, some, arith, length, length-reverse,
}
use leaf.Shared.Int.{ℤ, pos, ◌/ℤ◌, ltb_ℤ, is_zero}
use leaf.Base.LogStream.{convert_loop, max_digits, convert}
use leaf.Base.LogStream.Convert.{
  magnitude, zero_at-rem, convert_loop-Prints, read_int, convert-IsTextOf,
}

abbrev pub text_or_nil : Option (List ℕ) → List ℕ
text_or_nil none = []
text_or_nil (some text) = text

-- What "%d" prints.
unfoldable pub decimal : ℕ → List ℕ
decimal n = text_or_nil (convert (pos n))

pub read_int-decimal : (n : ℕ) → n < 2 ^ 64 → read_int (decimal n) ≡ pos n
unfolding decimal
read_int-decimal n h =
    let t = convert-IsTextOf (pos n) (omega (arith, h)) in
    ap (λ o. read_int (text_or_nil o)) t.returns ∙ t.reads

-- More fuel changes nothing.
more_fuel :
    (fuel : ℕ) (i : ℤ) (p r : List ℕ)
    → convert_loop fuel i p ≡ some r
    → convert_loop (suc fuel) i p ≡ some r
unfolding convert_loop
more_fuel zero i p r e = absurd (cc)
more_fuel (suc fuel) i p r e = elim (Bool-cases (is_zero (i /ℤ pos 10))) [
  | inl stop ↦ rw (zero_at-rem i, convert_loop, stop) (rw (zero_at-rem i, convert_loop, stop) at e)
  | inr more ↦
      let c = 48 + magnitude i % 10 in
      let shorter : convert_loop fuel (i /ℤ pos 10) (p ++ c ∷ []) ≡ some r =
        rw (zero_at-rem i, convert_loop, more) at e in
      rw (zero_at-rem i, convert_loop, more) (more_fuel fuel (i /ℤ pos 10) (p ++ c ∷ []) r shorter)
]

much_more_fuel :
    (d fuel : ℕ) (i : ℤ) (p r : List ℕ)
    → convert_loop fuel i p ≡ some r
    → convert_loop (d + fuel) i p ≡ some r
much_more_fuel zero fuel i p r e =
    let z : zero + fuel ≡ fuel = omega arith in ap (λ n. convert_loop n i p) z ∙ e
much_more_fuel (suc d) fuel i p r e =
    let s : suc d + fuel ≡ suc (d + fuel) = omega arith in
    ap (λ n. convert_loop n i p) s ∙ more_fuel (d + fuel) i p r (much_more_fuel d fuel i p r e)

-- A number below 10 ^ 8 has at most eight digits.
pub length-decimal : (n : ℕ) → n < 100000000 → length (decimal n) ≤ 8
unfolding decimal convert
length-decimal n h =
    let (ds, e, r) = convert_loop-Prints 8 (pos n) [] (omega (arith, h)) (omega arith) in
    let nonneg : ltb_ℤ (pos n) (pos 0) ≡ false = ground arith in
    let long : convert_loop max_digits (pos n) [] ≡ some ds = much_more_fuel 12 8 (pos n) [] ds e in
    let c : convert (pos n) ≡ some (reverse ds) = rw (long, convert, nonneg) in
    omega (arith, ap (λ o. length (text_or_nil o)) c, length-reverse ds, r.short)
