-- ===== src/Base/Date/Consecutive.antt =====
-- Day numbers of base/Date.cc along the calendar.
use leaf.Shared.{
  ℕ, zero, suc, ◌+◌, ◌-◌, ◌*◌, ◌/◌, ◌%◌, ◌≤◌, ◌<◌, ◌≡◌, refl, sym, subst, ap, ◌∙◌, false, inl, inr,
  lt_or_le, ltb, Bool-cases, lt→ltb, le→ltb, ◌==◌, if◌then◌else◌, arith,
}
use leaf.Shared.Int.{pos, ◌+ℤ◌, +ℤ_pos, rem_ℤ, rem_ℤ_pos}
use leaf.Base.Date.{
  Date, get_year_month_day, date, year_month_day, week_day, julian_steps, year_month_day_steps,
}
use leaf.Base.Date.Laws.{
  shift, days_in_month, IsDate, julian, julian_closed, AreInts, julian_steps-AreInts,
}
use leaf.Base.Date.RoundTrip.{get_year_month_day-pos, year_month_day_steps-AreInts}

pub record Civil : Type 0 where
  pub year : ℕ
  pub month : ℕ
  pub day : ℕ

-- The next day of the Gregorian calendar.
abbrev pub next_day : Civil → Civil
next_day c =
    if ltb c.day (days_in_month c.year c.month)
    then record c { day = c.day + 1 }
    else if ltb c.month 12
    then record { year = c.year; month = c.month + 1; day = 1 }
    else record { year = c.year + 1; month = 1; day = 1 }

abbrev pub IsCivil : Civil → Type 0
IsCivil c = IsDate c.year c.month c.day

next_day-IsCivil : (c : Civil) → IsCivil c → IsCivil (next_day c)
next_day-IsCivil c v = ground arith

within_month : (y m d : ℕ) → 1 ≤ m → m ≤ 12 → julian y m (d + 1) ≡ julian y m d + 1
within_month y m d lo hi = omega arith

-- March begins a new year of the count, so February is where the leap day shows.
after_february : (y : ℕ) → 1 ≤ y → julian y 3 1 ≡ julian y 2 (days_in_month y 2) + 1
after_february y h = ground arith

same_shift : (m : ℕ) → 1 ≤ m → m < 12 → (m == 2) ≡ false → shift (m + 1) ≡ shift m
same_shift m lo hi other = ground arith

shift_le : (m : ℕ) → shift m ≤ 1
shift_le m = omega arith

-- The months of the count are as long as those of the calendar.
month_gap :
    (y m : ℕ)
    → 1 ≤ m
    → m < 12
    → (m == 2) ≡ false
    → (153 * (m + 1 + 12 * shift m - 3) + 2) / 5
      ≡ (153 * (m + 12 * shift m - 3) + 2) / 5 + days_in_month y m
month_gap y m lo hi other = ground arith

after_month :
    (y m : ℕ)
    → 1 ≤ y
    → 1 ≤ m
    → m < 12
    → (m == 2) ≡ false
    → julian y (m + 1) 1 ≡ julian y m (days_in_month y m) + 1
after_month y m h lo hi other =
    rw (same_shift m lo hi other) (omega (arith, month_gap y m lo hi other, shift_le m))

after_december : (y : ℕ) → julian (y + 1) 1 1 ≡ julian y 12 31 + 1
after_december y = omega arith

month_ends :
    (y m : ℕ) → 1 ≤ y → 1 ≤ m → m < 12 → julian y (m + 1) 1 ≡ julian y m (days_in_month y m) + 1
month_ends y m h lo hi = elim (Bool-cases (m == 2)) [
  | inl two ↦ let e : m ≡ 2 = ground arith in rw e (after_february y h)
  | inr other ↦ after_month y m h lo hi other
]

julian-next_day :
    (c : Civil)
    → IsCivil c
    → julian (next_day c).year (next_day c).month (next_day c).day ≡ julian c.year c.month c.day + 1
julian-next_day c v = elim (lt_or_le c.day dim) [
  | inl inside ↦
      rw (lt→ltb c.day dim inside) (within_month c.year c.month c.day v.month_in.0 v.month_in.1)
  | inr end ↦
      let last : c.day ≡ dim = omega (arith, v.day_in.1) in
      elim (lt_or_le c.month 12) [
        | inl more ↦
            rw (le→ltb c.day dim end, lt→ltb c.month 12 more, last)
              (month_ends c.year c.month v.year_in v.month_in.0 more)
        | inr over ↦
            let twelve : c.month ≡ 12 = omega (arith, v.month_in.1) in
            rw (le→ltb c.day dim end, le→ltb c.month 12 over, last, twelve) (after_december c.year)
      ]
]
  where
    dim : ℕ
    dim = days_in_month c.year c.month

-- `Date(y, m, d)` of a civil date.
abbrev pub date_of : Civil → Date
date_of c = date (pos c.year) (pos c.month) (pos c.day)

-- The next day of the calendar has the next day number and the next day of the week.
pub date-next_day :
    (c : Civil)
    → IsCivil c
    → ((date_of (next_day c)).julian_day_number ≡ (date_of c).julian_day_number +ℤ pos 1)
      × (week_day (date_of (next_day c)) ≡ rem_ℤ (week_day (date_of c) +ℤ pos 1) (pos 7))
unfolding date week_day
date-next_day c v =
    let w = next_day-IsCivil c v in
    let n = julian c.year c.month c.day in
    let e = julian_closed c.year c.month c.day v.month_in.0 v.month_in.1 in
    let e' =
      julian_closed (next_day c).year (next_day c).month (next_day c).day w.month_in.0
        w.month_in.1 in
    let seven : (n + 1 + 1) % 7 ≡ ((n + 1) % 7 + 1) % 7 = omega arith in
    (
      rw (e', e, julian-next_day c v, +ℤ_pos),
      rw (e', e, julian-next_day c v) (simp (+ℤ_pos, rem_ℤ_pos, seven)),
    )

abbrev first : Civil
first = record { year = 1; month = 1; day = 1 }

abbrev days_after : ℕ → Civil
days_after zero = first
days_after (suc k) = next_day (days_after k)

days_after-IsCivil : (k : ℕ) → IsCivil (days_after k)
days_after-IsCivil zero = omega arith
days_after-IsCivil (suc k) = next_day-IsCivil (days_after k) (days_after-IsCivil k)

julian-days_after :
    (k : ℕ) → julian (days_after k).year (days_after k).month (days_after k).day ≡ 1721426 + k
julian-days_after zero = refl
julian-days_after (suc k) =
    julian-next_day (days_after k) (days_after-IsCivil k) ∙ omega (arith, julian-days_after k)

-- Every day number from that of 0001-01-01 to 536838867 splits into a date of the calendar, whose day
-- number it is, and no operation on the way leaves the values of a 32-bit `int`.
pub year_month_day_complete :
    (n : ℕ)
    → 1721426 ≤ n
    → n ≤ 536838867
    → (c : Civil) × IsCivil c
      × (year_month_day (record { julian_day_number = pos n })
          ≡ record { year = pos c.year; month = pos c.month; day = pos c.day })
      × ((date_of c).julian_day_number ≡ pos n)
      × AreInts (year_month_day_steps (pos n))
      × AreInts (julian_steps (pos c.year) (pos c.month) (pos c.day))
unfolding year_month_day date
year_month_day_complete n h few =
    let c = days_after (n - 1721426) in
    let v = days_after-IsCivil (n - 1721426) in
    let short : c.day ≤ 31 = let x = v.day_in.1 in ground arith in
    let e : julian c.year c.month c.day ≡ n = omega (arith, julian-days_after (n - 1721426)) in
    (
      c,
      v,
      ap (λ k. get_year_month_day (pos k)) (sym e) ∙ get_year_month_day-pos c.year c.month c.day v,
      julian_closed c.year c.month c.day v.month_in.0 v.month_in.1 ∙ ap pos e,
      subst (λ k. AreInts (year_month_day_steps (pos k))) e
          (year_month_day_steps-AreInts c.year c.month c.day v (omega (arith, e))),
      julian_steps-AreInts c.year c.month c.day v.month_in.0 v.month_in.1 short
          (omega (arith, e, v.month_in)),
    )
