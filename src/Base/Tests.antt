-- ===== src/Base/Tests.antt =====
-- The theorems on base/Date.cc and base/LogStream.cc at concrete values.
use leaf.Shared.{◌≡◌, arith, ◌∷◌, replicate}
use leaf.Shared.Int.{pos, negsuc}
use leaf.Base.Date.{date, year_month_day, julian_steps, year_month_day_steps}
use leaf.Base.Date.Laws.{IsDate, AreInts}
use leaf.Base.Date.RoundTrip.{year_month_day-date}
use leaf.Base.Date.Consecutive.{Civil, IsCivil, date_of, year_month_day_complete}
use leaf.Base.LogStream.{FixedBuffer, convert}
use leaf.Base.LogStream.Convert.{IsTextOf, convert-IsTextOf}

leap_day : IsDate 2012 2 29
leap_day = omega arith

year_month_day-date_example :
    (year_month_day (date (pos 2012) (pos 2) (pos 29))
      ≡ record { year = pos 2012; month = pos 2; day = pos 29 })
    × AreInts (julian_steps (pos 2012) (pos 2) (pos 29))
    × AreInts (year_month_day_steps (date (pos 2012) (pos 2) (pos 29)).julian_day_number)
year_month_day-date_example = year_month_day-date 2012 2 29 leap_day (omega arith)

year_month_day_complete_example :
    (c : Civil) × IsCivil c
    × (year_month_day (record { julian_day_number = pos 2456000 })
        ≡ record { year = pos c.year; month = pos c.month; day = pos c.day })
    × ((date_of c).julian_day_number ≡ pos 2456000)
    × AreInts (year_month_day_steps (pos 2456000))
    × AreInts (julian_steps (pos c.year) (pos c.month) (pos c.day))
year_month_day_complete_example = year_month_day_complete 2456000 (omega arith) (omega arith)

-- The least `int64_t`.
convert-IsTextOf_example :
    IsTextOf (negsuc 9223372036854775807) (convert (negsuc 9223372036854775807))
convert-IsTextOf_example = convert-IsTextOf (negsuc 9223372036854775807) (omega arith)

-- A stream of sixty-four bytes that holds "ab".
abbrev ab : FixedBuffer
ab = record { bytes = 97 ∷ 98 ∷ replicate 62 0; cur = 2 }
