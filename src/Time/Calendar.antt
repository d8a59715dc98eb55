-- ===== src/Time/Calendar.antt =====
-- Time.Format for the layouts that the code uses, and Duration.String for whole seconds.
use net_bird_audit.Prelude.{
  ℕ, ◌+◌, ◌-◌, ◌*◌, ◌/◌, ◌%◌, ◌^◌, Text, codes, Bool, ◌&&◌, ◌||◌, not, List, [], ◌∷◌, ◌++◌, ◌==◌,
  nat_eq, if◌then◌else◌, ltb, leb,
}
use net_bird_audit.Time.{Time, second, minute, hour}
use net_bird_audit.Text.Decimal.{print, print_padded}

pub record Date : Type 0 where
  pub year : ℕ
  pub month : ℕ
  pub day : ℕ

is_leap : ℕ → Bool
is_leap y = y % 4 == 0 && (not (y % 100 == 0) || y % 400 == 0)

month_lengths : Bool → List ℕ
month_lengths leap =
    31 ∷ (if leap then 29 else 28) ∷ 31 ∷ 30 ∷ 31 ∷ 30 ∷ 31 ∷ 31 ∷ 30 ∷ 31 ∷ 30 ∷ 31 ∷ []

-- The month and the day of the `n`-th day of the months that are left.
in_months : ℕ → ℕ → ℕ → List ℕ → Date
in_months year month n [] = record { year = year; month = month; day = n + 1 }
in_months year month n (len ∷ lens) =
    let rest = in_months year (month + 1) (n - len) lens in
    if ltb n len then record { year = year; month = month; day = n + 1 } else rest

at_most_three : ℕ → ℕ
at_most_three n = if ltb 3 n then 3 else n

-- The date of the `n`-th day after 1 January of year 1: four centuries, centuries, four years and
-- years are cut off one after another.
unfoldable pub date_of_day : ℕ → Date
unfolding is_leap month_lengths in_months at_most_three
date_of_day n =
    let n400 = n % 146097 in
    let centuries = at_most_three (n400 / 36524) in
    let n100 = n400 - centuries * 36524 in
    let n4 = n100 % 1461 in
    let years = at_most_three (n4 / 365) in
    let year = n / 146097 * 400 + centuries * 100 + n100 / 1461 * 4 + years + 1 in
    in_months year 1 (n4 - years * 365) (month_lengths (is_leap year))

abbrev day_length : ℕ
day_length = 24 * hour

-- 2006-01-02
date_text : Time → Text
date_text t =
    let d = date_of_day (t / day_length) in
    print_padded 4 d.year
    ++ codes "-"
    ++ print_padded 2 d.month
    ++ codes "-"
    ++ print_padded 2 d.day

-- 15:04:05
unfoldable pub clock_text : Time → Text
clock_text t =
    print_padded 2 (t / hour % 24)
    ++ codes ":"
    ++ print_padded 2 (t / minute % 60)
    ++ codes ":"
    ++ print_padded 2 (t / second % 60)

-- 2006-01-02 15:04:05
unfoldable pub date_time_text : Time → Text
unfolding date_text
date_time_text t = date_text t ++ codes " " ++ clock_text t

-- time.RFC3339 of a time in UTC.
unfoldable pub rfc3339 : Time → Text
unfolding date_text
rfc3339 t = date_text t ++ codes "T" ++ clock_text t ++ codes "Z"

-- d.Round(time.Second).String() for a duration of `n` nanoseconds; half a second is rounded up, and
-- what would be too large stays as it is.
seconds_text : ℕ → Text
seconds_text s =
    if leb 3600 s
    then print (s / 3600)
      ++ codes "h"
      ++ print (s / 60 % 60)
      ++ codes "m"
      ++ print (s % 60)
      ++ codes "s"
    else if leb 60 s
    then print (s / 60) ++ codes "m" ++ print (s % 60) ++ codes "s"
    else print s ++ codes "s"

unfoldable pub rounded_text : ℕ → Text
unfolding seconds_text
rounded_text n =
    let rounded = (n + second / 2) / second in
    if ltb (rounded * second) (2 ^ 63)
    then seconds_text rounded
    else codes "2562047h47m16.854775807s"
