-- ===== src/Base/Date/Laws.antt =====
-- Julian day numbers of base/Date.cc, and calendar dates.
use leaf.Shared.{
  ℕ, ◌+◌, ◌-◌, ◌*◌, ◌/◌, ◌%◌, ◌≤◌, ◌<◌, ◌≡◌, List, [], ◌∷◌, Bool, not, ◌||◌, ◌&&◌, inl, inr,
  lt_or_le, arith, ◌==◌, if◌then◌else◌,
}
use leaf.Shared.Int.{ℤ, pos, negsuc, +ℤ_pos, -ℤ_pos, *ℤ_pos, /ℤ_pos}
use leaf.Base.Date.{get_julian_day_number, julian_steps}

-- The Gregorian calendar, independent of the code.
abbrev pub is_leap : ℕ → Bool
is_leap y = (y % 4 == 0) && (not (y % 100 == 0) || (y % 400 == 0))

abbrev is_short : ℕ → Bool
is_short m = m == 4 || m == 6 || m == 9 || m == 11

abbrev pub days_in_month : ℕ → ℕ → ℕ
days_in_month year month =
    if is_short month then 30 else if month == 2 then 28 + (if is_leap year then 1 else 0) else 31

-- A date of the Gregorian calendar, from year 1 on.
pub record IsDate (y m d : ℕ) : Type 0 where
  pub year_in : 1 ≤ y
  pub month_in : (1 ≤ m) × (m ≤ 12)
  pub day_in : (1 ≤ d) × (d ≤ days_in_month y m)

-- Years and months counted from March.
abbrev pub shift : ℕ → ℕ
shift m = (14 - m) / 12

abbrev pub march_year : ℕ → ℕ → ℕ
march_year y m = y + 4800 - shift m

abbrev pub march_month : ℕ → ℕ
march_month m = m + 12 * shift m - 3

-- The day of the year that begins on 1 March, from 0.
abbrev pub march_day : ℕ → ℕ → ℕ
march_day m d = d - 1 + (153 * march_month m + 2) / 5

abbrev pub julian : ℕ → ℕ → ℕ → ℕ
julian y m d =
    let Y = march_year y m in
    d + (153 * march_month m + 2) / 5 + Y * 365 + Y / 4 - Y / 100 + Y / 400 - 32045

pub julian_closed :
    (y m d : ℕ)
    → 1 ≤ m
    → m ≤ 12
    → get_julian_day_number (pos y) (pos m) (pos d) ≡ pos (julian y m d)
unfolding get_julian_day_number
julian_closed y m d lo hi =
    let Y = march_year y m in
    let sum = d + (153 * march_month m + 2) / 5 + Y * 365 + Y / 4 in
    let h1 : m ≤ 14 = omega arith in
    let h2 : shift m ≤ y + 4800 = omega arith in
    let h3 : 3 ≤ m + 12 * shift m = omega arith in
    let h4 : Y / 100 ≤ sum = omega arith in
    let h5 : 32045 ≤ sum - Y / 100 + Y / 400 = omega arith in
    simp (
      +ℤ_pos,
      *ℤ_pos,
      /ℤ_pos,
      -ℤ_pos 14 m h1,
      -ℤ_pos (y + 4800) (shift m) h2,
      -ℤ_pos (m + 12 * shift m) 3 h3,
      -ℤ_pos sum (Y / 100) h4,
      -ℤ_pos (sum - Y / 100 + Y / 400) 32045 h5,
    )

-- The values of a 32-bit `int`.
abbrev pub IsInt : ℤ → Type 0
IsInt (pos n) = n < 2147483648
IsInt (negsuc n) = n < 2147483648

abbrev pub AreInts : List ℤ → Type 0
AreInts [] = Unit {0}
AreInts (z ∷ zs) = IsInt z × AreInts zs

-- No operation of `getJulianDayNumber` overflows on these dates.
pub julian_steps-AreInts :
    (y m d : ℕ)
    → 1 ≤ m
    → m ≤ 12
    → d ≤ 31
    → y ≤ 1500000
    → AreInts (julian_steps (pos y) (pos m) (pos d))
julian_steps-AreInts y m d lo hi small few =
    let Y = march_year y m in
    let sum = d + (153 * march_month m + 2) / 5 + Y * 365 + Y / 4 in
    let h1 : m ≤ 14 = omega arith in
    let h2 : shift m ≤ y + 4800 = omega arith in
    let h3 : 3 ≤ m + 12 * shift m = omega arith in
    let h4 : Y / 100 ≤ sum = omega arith in
    let h5 : 32045 ≤ sum - Y / 100 + Y / 400 = omega arith in
    simp
      (
        +ℤ_pos,
        *ℤ_pos,
        /ℤ_pos,
        -ℤ_pos 14 m h1,
        -ℤ_pos (y + 4800) (shift m) h2,
        -ℤ_pos (m + 12 * shift m) 3 h3,
        -ℤ_pos sum (Y / 100) h4,
        -ℤ_pos (sum - Y / 100 + Y / 400) 32045 h5,
      )
      (omega arith)

-- The steps of `getYearMonthDay`, where `Y` and `E` are the year and the day from March.
module _ (Y E A : ℕ) (e : A + Y / 100 ≡ E + 365 * Y + Y / 4 + Y / 400) where
  abbrev pub InYear : Type 0
  InYear =
      (E ≤ 365)
      × ((E ≡ 365) → (Y + 1) % 4 ≡ 0)
      × ((E ≡ 365) → (Y + 1) % 100 ≡ 0 → (Y + 1) % 400 ≡ 0)

  module _ (h : InYear) where
    pub century : (4 * A + 3) / 146097 ≡ Y / 100
    century = elim (lt_or_le 364 E) [
      | inl long ↦
          let a : E ≡ 365 = omega arith in
          let four : (Y + 1) % 4 ≡ 0 = h.1 a in
          elim (lt_or_le 0 ((Y + 1) % 100)) [
            | inl nz ↦ omega arith
            | inr z ↦ let q : (Y + 1) % 400 ≡ 0 = h.2 a (omega arith) in omega arith
          ]
      | inr short ↦ omega arith
    ]

    pub in_century : A - (Y / 100 * 146097) / 4 ≡ E + 365 * (Y % 100) + (Y % 100) / 4
    in_century = omega arith

    pub year_of_century : (4 * (E + 365 * (Y % 100) + (Y % 100) / 4) + 3) / 1461 ≡ Y % 100
    year_of_century = elim (lt_or_le 364 E) [
      | inl long ↦ let four : (Y + 1) % 4 ≡ 0 = h.1 (omega arith) in omega arith
      | inr short ↦ omega arith
    ]

    pub day_of_year : E + 365 * (Y % 100) + (Y % 100) / 4 - 1461 * (Y % 100) / 4 ≡ E
    day_of_year = omega arith
