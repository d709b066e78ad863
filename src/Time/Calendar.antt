-- ===== src/Time/Calendar.antt =====
-- The calendar helpers of src/LogicElements/include/Core/le_Time.hpp, and the conversion of a day
-- of the year in src/LogicElements/src/Core/le_Time.cpp. Months count from 0.
use logic_elements.Base.{
  ℕ, zero, suc, ◌+◌, ◌-◌, ◌%◌, Bool, true, false, not, List, [], ◌∷◌, leb, ◌==◌, if◌then◌else◌,
  get_or,
}

unfoldable pub is_leap_year : ℕ → Bool
is_leap_year y =
    if not (y % 4 == 0) then false else if not (y % 100 == 0) then true else y % 400 == 0

unfoldable pub days_in_year : ℕ → ℕ
unfolding is_leap_year
days_in_year y = if is_leap_year y then 366 else 365

-- `_daysInMonth`
abbrev pub month_table : List ℕ
month_table = 31 ∷ 28 ∷ 31 ∷ 30 ∷ 31 ∷ 30 ∷ 31 ∷ 31 ∷ 30 ∷ 31 ∷ 30 ∷ 31 ∷ []

-- Past the table the code reads out of bounds; here it is 0.
unfoldable pub days_in_month : ℕ → ℕ → ℕ
unfolding is_leap_year
days_in_month y month =
    if not (month == 1) then get_or month_table month 0 else if is_leap_year y then 29 else 28

-- The loop of `ConvertDayOfYearToMonthDay`: `rounds` is how many of the twelve months are left.
unfoldable pub find_month : ℕ → ℕ → ℕ → ℕ → ℕ × ℕ
find_month zero y month remaining = (month, remaining)
find_month (suc rounds) y month remaining =
    let later = find_month rounds y (month + 1) (remaining - days_in_month y month) in
    if leb (days_in_month y month) remaining then later else (month, remaining)

-- `Time::ConvertDayOfYearToMonthDay`: month and day of the month, both from 0.
unfoldable pub month_day : ℕ → ℕ → ℕ × ℕ
month_day y day_of_year =
    if leb (days_in_year y) day_of_year then (0, 0) else find_month 12 y 0 day_of_year
