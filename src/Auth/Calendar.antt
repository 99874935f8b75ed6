-- ===== src/Auth/Calendar.antt =====
-- nextMonthStart of internal/auth/auth.go, with what it uses of Go's calendar: a month is counted from
-- January of year 1.
use stackly.Base.{
  ℕ, zero, suc, ◌+◌, ◌-◌, ◌*◌, ◌/◌, ◌%◌, Bool, not, ◌&&◌, ◌||◌, ltb, ◌==◌, if◌then◌else◌,
}

abbrev pub day : ℕ
day = 86_400_000_000_000

abbrev is_leap : ℕ → Bool
is_leap year = (year % 4 == 0) && (not (year % 100 == 0) || (year % 400 == 0))

-- The days of the `m`-th month, whose year is `m / 12 + 1`.
unfoldable pub days_in_month : ℕ → ℕ
days_in_month m =
    let i = m % 12 in
    if i == 1
    then if is_leap (m / 12 + 1) then 29 else 28
    else if (i == 3) || (i == 5) || (i == 8) || (i == 10)
    then 30
    else 31

-- The first instant of a month, in UTC.
unfoldable pub month_start : ℕ → ℕ
unfolding days_in_month
month_start zero = 0
month_start (suc m) = month_start m + days_in_month m * day

-- The month that is `rest` nanoseconds after the start of month `m`. As many steps as there are days
-- left are more than enough.
unfoldable pub month_walk : ℕ → ℕ → ℕ → ℕ
unfolding days_in_month
month_walk zero m rest = m
month_walk (suc fuel) m rest =
    let next = month_walk fuel (suc m) (rest - days_in_month m * day) in
    if ltb rest (days_in_month m * day) then m else next

unfoldable pub month_of : ℕ → ℕ
unfolding month_walk
month_of t = month_walk (suc (t / day)) 0 t

-- The zone of the server, by how far its clock is ahead of UTC and how far behind.
pub record Zone : Type 0 where
  pub ahead : ℕ
  pub behind : ℕ

abbrev pub utc : Zone
utc = record { ahead = 0; behind = 0 }

-- `now.Year()` and `now.Month()` are read in the server's zone, the date is made in UTC.
unfoldable pub next_month_start : Zone → ℕ → ℕ
unfolding month_start month_of
next_month_start z now = month_start (suc (month_of (now + z.ahead - z.behind)))
