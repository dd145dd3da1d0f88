-- ===== src/Time/Calendar.antt =====
-- `t.AddDate(0, 1, 0)` in UTC: the same day and clock time of the next month, where a day past the
-- end of that month runs over into the one after it.
use kovern.Prelude.{ℕ, ◌+◌, ◌*◌, ◌-◌, ◌/◌, ◌%◌, ◌≤◌, ◌<◌, ◌≡◌, arith, leb, if◌then◌else◌}

abbrev pub nano_per_day : ℕ
nano_per_day = 86_400 * 1_000_000_000

-- A day by the year that begins in March, the month in that year from 0, and the day from 0.
pub record Civil : Type 0 where
  pub year : ℕ
  pub month : ℕ
  pub day : ℕ

-- Days from the first of March of the year 0 to the first of March of the year `y`.
abbrev year_start : ℕ → ℕ
year_start y = 365 * y + y / 4 - y / 100 + y / 400

abbrev month_start : ℕ → ℕ
month_start m = (153 * m + 2) / 5

-- The year in a 400-year era from the day in it.
abbrev year_of_era : ℕ → ℕ
year_of_era doe = (doe - doe / 1460 + doe / 36_524 - doe / 146_096) / 365

abbrev day_of_year : ℕ → ℕ
day_of_year doe = let yoe = year_of_era doe in doe - (365 * yoe + yoe / 4 - yoe / 100)

pub civil : ℕ → Civil
civil z =
    let doe = z % 146_097 in
    let doy = day_of_year doe in
    let m = (5 * doy + 2) / 153 in
    record { year = 400 * (z / 146_097) + year_of_era doe; month = m; day = doy - month_start m }

pub day_number : Civil → ℕ
day_number c = year_start c.year + month_start c.month + c.day

next_month : Civil → Civil
next_month c =
    if leb 11 c.month
    then record { year = c.year + 1; month = 0; day = c.day }
    else record { year = c.year; month = c.month + 1; day = c.day }

-- The zero time is 306 days after the first of March of the year 0.
unfoldable pub add_month : ℕ → ℕ
unfolding civil day_number next_month
add_month t =
    (day_number (next_month (civil (t / nano_per_day + 306))) - 306) * nano_per_day
    + t % nano_per_day

-- The day in an era is at or after the first day of its year, and before that of the next.
year_of_era_floor :
    (doe : ℕ) → doe < 146_097 → let y = year_of_era doe in 365 * y + y / 4 ≤ doe + y / 100
year_of_era_floor doe h = omega arith

day_of_year-le : (doe : ℕ) → doe < 146_097 → day_of_year doe ≤ 365
day_of_year-le doe h = omega arith

year_of_era-lt : (doe : ℕ) → doe < 146_097 → year_of_era doe < 400
year_of_era-lt doe h = omega arith

year_start_era :
    (e y : ℕ) → y < 400 → year_start (400 * e + y) ≡ 146_097 * e + (365 * y + y / 4 - y / 100)
year_start_era e y h = omega arith

month_start-le : (doy : ℕ) → month_start ((5 * doy + 2) / 153) ≤ doy
month_start-le doy = omega arith

-- Splitting a day number into year, month and day, and counting back.
pub day_number-civil : (z : ℕ) → day_number (civil z) ≡ z
unfolding day_number civil
day_number-civil z =
    let doe = z % 146_097 in
    let h : doe < 146_097 = omega arith in
    let y = year_of_era doe in
    let a : 365 * y + y / 4 ≤ doe + y / 100 = year_of_era_floor doe h in
    rw (year_start_era (z / 146_097) y (year_of_era-lt doe h))
      (omega (arith, month_start-le (day_of_year doe)))

civil-month-le : (z : ℕ) → (civil z).month ≤ 11
unfolding civil
civil-month-le z = omega (arith, day_of_year-le (z % 146_097) (omega arith))

-- The next month begins 28 to 31 days later.
day_number-next_month :
    (c : Civil)
    → c.month ≤ 11
    → (day_number c + 28 ≤ day_number (next_month c))
      × (day_number (next_month c) ≤ day_number c + 31)
unfolding day_number next_month
day_number-next_month c h = ground arith

-- Adding a month moves a time by 28 to 31 whole days.
pub add_month_bounds :
    (t : ℕ) → (t + 28 * nano_per_day ≤ add_month t) × (add_month t ≤ t + 31 * nano_per_day)
unfolding add_month
add_month_bounds t =
    let z = t / nano_per_day + 306 in
    omega (arith, day_number-next_month (civil z) (civil-month-le z), day_number-civil z)
