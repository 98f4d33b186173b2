-- ===== src/Base/Date.antt =====
-- base/Date.h and base/Date.cc: days of the Gregorian calendar as Julian day numbers. `int` is ℤ,
-- with the division of C++. An operation that leaves the 32 bits of `int` is undefined in C++: the
-- results of all operations, in their order, are `julian_steps` and `year_month_day_steps`, and a
-- value stands for the code's only where all of these are ints.
pub mod Laws
pub mod RoundTrip
pub mod Consecutive
use leaf.Shared.{ℕ, ◌+◌, Bool, List, [], ◌∷◌, ◌==◌}
use leaf.Shared.Int.{ℤ, pos, negsuc, pos_part, neg_part, ◌+ℤ◌, ◌-ℤ◌, ◌*ℤ◌, ◌/ℤ◌, ltb_ℤ, rem_ℤ}

pub record YearMonthDay : Type 0 where
  pub year : ℤ
  pub month : ℤ
  pub day : ℤ

-- The private field `julianDayNumber_`.
pub record Date : Type 0 where
  pub julian_day_number : ℤ

pub get_julian_day_number : ℤ → ℤ → ℤ → ℤ
get_julian_day_number year month day =
    let a = (pos 14 -ℤ month) /ℤ pos 12 in
    let y = year +ℤ pos 4800 -ℤ a in
    let m = month +ℤ pos 12 *ℤ a -ℤ pos 3 in
    day
    +ℤ (pos 153 *ℤ m +ℤ pos 2) /ℤ pos 5
    +ℤ y *ℤ pos 365
    +ℤ y /ℤ pos 4
    -ℤ y /ℤ pos 100
    +ℤ y /ℤ pos 400
    -ℤ pos 32045

pub get_year_month_day : ℤ → YearMonthDay
get_year_month_day julian_day_number =
    let a = julian_day_number +ℤ pos 32044 in
    let b = (pos 4 *ℤ a +ℤ pos 3) /ℤ pos 146097 in
    let c = a -ℤ (b *ℤ pos 146097) /ℤ pos 4 in
    let d = (pos 4 *ℤ c +ℤ pos 3) /ℤ pos 1461 in
    let e = c -ℤ (pos 1461 *ℤ d) /ℤ pos 4 in
    let m = (pos 5 *ℤ e +ℤ pos 2) /ℤ pos 153 in
    record {
      year = b *ℤ pos 100 +ℤ d -ℤ pos 4800 +ℤ m /ℤ pos 10;
      month = m +ℤ pos 3 -ℤ pos 12 *ℤ (m /ℤ pos 10);
      day = e -ℤ (pos 153 *ℤ m +ℤ pos 2) /ℤ pos 5 +ℤ pos 1;
    }

-- The results of the operations of `get_julian_day_number`.
abbrev pub julian_steps : ℤ → ℤ → ℤ → List ℤ
julian_steps year month day =
    let a = (pos 14 -ℤ month) /ℤ pos 12 in
    let y = year +ℤ pos 4800 -ℤ a in
    let m = month +ℤ pos 12 *ℤ a -ℤ pos 3 in
    let t = day +ℤ (pos 153 *ℤ m +ℤ pos 2) /ℤ pos 5 in
    let s = t +ℤ y *ℤ pos 365 +ℤ y /ℤ pos 4 in
    (pos 14 -ℤ month)
    ∷ a
    ∷ (year +ℤ pos 4800)
    ∷ y
    ∷ (pos 12 *ℤ a)
    ∷ (month +ℤ pos 12 *ℤ a)
    ∷ m
    ∷ (pos 153 *ℤ m)
    ∷ (pos 153 *ℤ m +ℤ pos 2)
    ∷ ((pos 153 *ℤ m +ℤ pos 2) /ℤ pos 5)
    ∷ t
    ∷ (y *ℤ pos 365)
    ∷ (t +ℤ y *ℤ pos 365)
    ∷ (y /ℤ pos 4)
    ∷ s
    ∷ (y /ℤ pos 100)
    ∷ (s -ℤ y /ℤ pos 100)
    ∷ (y /ℤ pos 400)
    ∷ (s -ℤ y /ℤ pos 100 +ℤ y /ℤ pos 400)
    ∷ (s -ℤ y /ℤ pos 100 +ℤ y /ℤ pos 400 -ℤ pos 32045)
    ∷ []

-- The results of the operations of `get_year_month_day`.
abbrev pub year_month_day_steps : ℤ → List ℤ
year_month_day_steps julian_day_number =
    let a = julian_day_number +ℤ pos 32044 in
    let b = (pos 4 *ℤ a +ℤ pos 3) /ℤ pos 146097 in
    let c = a -ℤ (b *ℤ pos 146097) /ℤ pos 4 in
    let d = (pos 4 *ℤ c +ℤ pos 3) /ℤ pos 1461 in
    let e = c -ℤ (pos 1461 *ℤ d) /ℤ pos 4 in
    let m = (pos 5 *ℤ e +ℤ pos 2) /ℤ pos 153 in
    a
    ∷ (pos 4 *ℤ a)
    ∷ (pos 4 *ℤ a +ℤ pos 3)
    ∷ b
    ∷ (b *ℤ pos 146097)
    ∷ ((b *ℤ pos 146097) /ℤ pos 4)
    ∷ c
    ∷ (pos 4 *ℤ c)
    ∷ (pos 4 *ℤ c +ℤ pos 3)
    ∷ d
    ∷ (pos 1461 *ℤ d)
    ∷ ((pos 1461 *ℤ d) /ℤ pos 4)
    ∷ e
    ∷ (pos 5 *ℤ e)
    ∷ (pos 5 *ℤ e +ℤ pos 2)
    ∷ m
    ∷ (pos 153 *ℤ m)
    ∷ (pos 153 *ℤ m +ℤ pos 2)
    ∷ ((pos 153 *ℤ m +ℤ pos 2) /ℤ pos 5)
    ∷ (e -ℤ (pos 153 *ℤ m +ℤ pos 2) /ℤ pos 5)
    ∷ (e -ℤ (pos 153 *ℤ m +ℤ pos 2) /ℤ pos 5 +ℤ pos 1)
    ∷ (m +ℤ pos 3)
    ∷ (m /ℤ pos 10)
    ∷ (pos 12 *ℤ (m /ℤ pos 10))
    ∷ (m +ℤ pos 3 -ℤ pos 12 *ℤ (m /ℤ pos 10))
    ∷ (b *ℤ pos 100)
    ∷ (b *ℤ pos 100 +ℤ d)
    ∷ (b *ℤ pos 100 +ℤ d -ℤ pos 4800)
    ∷ (b *ℤ pos 100 +ℤ d -ℤ pos 4800 +ℤ m /ℤ pos 10)
    ∷ []

-- `Date()`
pub invalid_date : Date
invalid_date = record { julian_day_number = pos 0 }

-- `Date(int y, int m, int d)`
pub date : ℤ → ℤ → ℤ → Date
date y m d = record { julian_day_number = get_julian_day_number y m d }

-- The three fields of `struct tm` that `Date(const struct tm&)` reads.
pub record Tm : Type 0 where
  pub tm_year : ℤ
  pub tm_mon : ℤ
  pub tm_mday : ℤ

pub date_of_tm : Tm → Date
date_of_tm t = record {
  julian_day_number = get_julian_day_number (t.tm_year +ℤ pos 1900) (t.tm_mon +ℤ pos 1) t.tm_mday;
}

pub valid : Date → Bool
valid d = ltb_ℤ (pos 0) d.julian_day_number

pub year_month_day : Date → YearMonthDay
year_month_day d = get_year_month_day d.julian_day_number

-- 0 is Sunday.
pub week_day : Date → ℤ
week_day d = rem_ℤ (d.julian_day_number +ℤ pos 1) (pos 7)

pub before : Date → Date → Bool
before x y = ltb_ℤ x.julian_day_number y.julian_day_number
