-- ===== src/Auth/Months.antt =====
-- The calendar of nextMonthStart in internal/auth/auth.go, in a server whose zone is UTC.
use stackly.Base.{
  ℕ, zero, suc, ◌+◌, ◌-◌, ◌*◌, ◌/◌, ◌≤◌, ◌<◌, ◌≡◌, inl, inr, ltb, Bool-cases, ltb→lt, ltb-false→le,
  arith,
}
use stackly.Auth.Calendar.{
  day, days_in_month, month_start, month_walk, month_of, utc, next_month_start,
}

days_in_month-bounds : (m : ℕ) → (28 ≤ days_in_month m) × (days_in_month m ≤ 31)
unfolding days_in_month
days_in_month-bounds m = ground arith

month_walk-bounds :
    (fuel m rest : ℕ)
    → rest < fuel * day
    → let m' = month_walk fuel m rest in
      (month_start m' ≤ month_start m + rest) × (month_start m + rest < month_start (suc m'))
unfolding month_walk month_start
month_walk-bounds zero m rest h = absurd (omega arith)
month_walk-bounds (suc fuel) m rest h = elim (Bool-cases (ltb rest (days_in_month m * day))) [
  | inl b ↦ rw (b) (omega arith, omega (arith, ltb→lt rest (days_in_month m * day) b))
  | inr b ↦
      let le = ltb-false→le rest (days_in_month m * day) b in
      let ih =
        month_walk-bounds fuel (suc m) (rest - days_in_month m * day)
          (omega (arith, h, le, days_in_month-bounds m)) in
      rw (b) (omega (arith, ih, le), omega (arith, ih, le))
]

-- In a server whose zone is UTC, the next month starts after now, and at most 31 days later.
pub next_month_start-bounds :
    (now : ℕ) → (now < next_month_start utc now) × (next_month_start utc now ≤ now + 31 * day)
unfolding next_month_start month_of month_start
next_month_start-bounds now =
    let m = month_walk (suc (now / day)) 0 now in
    let e : now + 0 - 0 ≡ now = omega arith in
    rw (e) (
      omega (arith, month_walk-bounds (suc (now / day)) 0 now (omega arith)),
      omega
          (arith, month_walk-bounds (suc (now / day)) 0 now (omega arith), days_in_month-bounds m),
    )
