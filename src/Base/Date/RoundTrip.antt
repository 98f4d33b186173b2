-- ===== src/Base/Date/RoundTrip.antt =====
-- `getYearMonthDay` of base/Date.cc on the numbers that `getJulianDayNumber` makes.
use leaf.Shared.{ℕ, ◌+◌, ◌-◌, ◌*◌, ◌/◌, ◌%◌, ◌≤◌, ◌<◌, ◌≡◌, sym, subst, inl, inr, lt_or_le, arith}
use leaf.Shared.Int.{pos, +ℤ_pos, -ℤ_pos, *ℤ_pos, /ℤ_pos}
use leaf.Base.Date.{get_year_month_day, date, year_month_day, julian_steps, year_month_day_steps}
use leaf.Base.Date.Laws.{
  IsDate, march_year, march_month, march_day, julian, julian_closed, InYear, century, in_century,
  year_of_century, day_of_year, AreInts, julian_steps-AreInts,
}

-- A month ends before the next one begins, counted from March.
month_length :
    (y m d : ℕ)
    → IsDate y m d
    → (march_month m < 11 → march_day m d + 1 ≤ (153 * march_month m + 155) / 5)
      × (march_month m ≤ 11)
month_length y m d v = ground arith

march_day-InYear :
    (y m d A : ℕ)
    (e : A + march_year y m / 100
      ≡ march_day m d + 365 * march_year y m + march_year y m / 4 + march_year y m / 400)
    → IsDate y m d
    → InYear (march_year y m) (march_day m d) A e
march_day-InYear y m d A e v = (ground arith, λ h. ground arith, λ h k. ground arith)

module _ (y m d : ℕ) (v : IsDate y m d) where
  abbrev Y : ℕ
  Y = march_year y m

  abbrev M : ℕ
  M = march_month m

  abbrev E : ℕ
  E = march_day m d

  abbrev A : ℕ
  A = julian y m d + 32044

  julian_sum : A + Y / 100 ≡ E + 365 * Y + Y / 4 + Y / 400
  julian_sum = omega (arith, v.year_in, v.day_in.0, v.month_in)

  in_year : InYear Y E A julian_sum
  in_year = march_day-InYear y m d A julian_sum v

  month_of_year : (5 * E + 2) / 153 ≡ M
  month_of_year = elim (lt_or_le M 11) [
    | inl early ↦ omega (arith, (month_length y m d v).0 early)
    | inr last ↦ omega (arith, (month_length y m d v).1, in_year.0)
  ]

  -- The date that went into a day number comes out of it.
  pub get_year_month_day-pos :
      get_year_month_day (pos (julian y m d)) ≡ record { year = pos y; month = pos m; day = pos d }
  unfolding get_year_month_day
  get_year_month_day-pos =
      let C = E + 365 * (Y % 100) + (Y % 100) / 4 in
      let h1 : (Y / 100 * 146097) / 4 ≤ A = omega (arith, julian_sum) in
      let h2 : 1461 * (Y % 100) / 4 ≤ C = omega arith in
      let h3 : 4800 ≤ Y / 100 * 100 + Y % 100 = omega (arith, v.year_in, v.month_in) in
      let h4 : 12 * (M / 10) ≤ M + 3 = omega arith in
      let yy : Y / 100 * 100 + Y % 100 - 4800 + M / 10 ≡ y = omega (arith, v.year_in, v.month_in) in
      let mm : M + 3 - 12 * (M / 10) ≡ m = omega (arith, v.month_in) in
      let dd : E - (153 * M + 2) / 5 + 1 ≡ d = omega (arith, v.day_in.0) in
      let h5 : (153 * M + 2) / 5 ≤ E = omega arith in
      simp
        (
          +ℤ_pos,
          *ℤ_pos,
          /ℤ_pos,
          century Y E A julian_sum in_year,
          -ℤ_pos A (Y / 100 * 146097 / 4) h1,
          in_century Y E A julian_sum in_year,
          year_of_century Y E A julian_sum in_year,
          -ℤ_pos C (1461 * (Y % 100) / 4) h2,
          day_of_year Y E A julian_sum in_year,
          month_of_year,
          -ℤ_pos (Y / 100 * 100 + Y % 100) 4800 h3,
          -ℤ_pos (M + 3) (12 * (M / 10)) h4,
          -ℤ_pos E ((153 * M + 2) / 5) h5,
        )
        (λ i. record { year = pos (yy i); month = pos (mm i); day = pos (dd i) })

  -- No operation of `getYearMonthDay` overflows on these day numbers.
  pub year_month_day_steps-AreInts :
      A ≤ 536870911 → AreInts (year_month_day_steps (pos (julian y m d)))
  year_month_day_steps-AreInts few =
      let C = E + 365 * (Y % 100) + (Y % 100) / 4 in
      let h1 : (Y / 100 * 146097) / 4 ≤ A = omega (arith, julian_sum) in
      let h2 : 1461 * (Y % 100) / 4 ≤ C = omega arith in
      let h3 : 4800 ≤ Y / 100 * 100 + Y % 100 = omega (arith, v.year_in, v.month_in) in
      let h4 : 12 * (M / 10) ≤ M + 3 = omega arith in
      let h5 : (153 * M + 2) / 5 ≤ E = omega arith in
      let most : Y / 100 ≤ 14700 = omega (arith, julian_sum, few) in
      simp
        (
          +ℤ_pos,
          *ℤ_pos,
          /ℤ_pos,
          century Y E A julian_sum in_year,
          -ℤ_pos A (Y / 100 * 146097 / 4) h1,
          in_century Y E A julian_sum in_year,
          year_of_century Y E A julian_sum in_year,
          -ℤ_pos C (1461 * (Y % 100) / 4) h2,
          day_of_year Y E A julian_sum in_year,
          month_of_year,
          -ℤ_pos (Y / 100 * 100 + Y % 100) 4800 h3,
          -ℤ_pos (M + 3) (12 * (M / 10)) h4,
          -ℤ_pos E ((153 * M + 2) / 5) h5,
        )
        (omega (arith, in_year.0, (month_length y m d v).1))

  -- A date of the years 1 to 1000000, made of a year, a month and a day, gives these back, and no
  -- operation on the way leaves the values of a 32-bit `int`.
  pub year_month_day-date :
      y ≤ 1000000
      → (year_month_day (date (pos y) (pos m) (pos d))
          ≡ record { year = pos y; month = pos m; day = pos d })
        × AreInts (julian_steps (pos y) (pos m) (pos d))
        × AreInts (year_month_day_steps (date (pos y) (pos m) (pos d)).julian_day_number)
  unfolding year_month_day date
  year_month_day-date few =
      let e = julian_closed y m d v.month_in.0 v.month_in.1 in
      let short : d ≤ 31 = let x = v.day_in.1 in ground arith in
      (
        rw e get_year_month_day-pos,
        julian_steps-AreInts y m d v.month_in.0 v.month_in.1 short (omega arith),
        subst (λ z. AreInts (year_month_day_steps z)) (sym e)
            (year_month_day_steps-AreInts (omega (arith, v.month_in, short))),
      )
