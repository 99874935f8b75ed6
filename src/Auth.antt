-- ===== src/Auth.antt =====
-- internal/auth/auth.go: users, their monthly quota, the rate limit, and the middleware. Times are
-- nanoseconds since the start of year 1, so that 0 is Go's zero time.
pub mod Calendar
pub mod Quota
pub mod Bucket
pub mod Login
pub mod Env
pub mod Middleware
pub mod Client
pub mod Months
pub mod Grants
pub mod Flow
pub mod Gate
mod Examples
use stackly.Base.{
  ℕ, ◌+◌, ◌-◌, ◌*◌, ◌^◌, Bool, true, false, Option, none, some, List, [], Bytes, text, bytes_eq,
  to_lower, if◌then◌else◌,
}
use stackly.Base.Map.{Map}

pub record User : Type 0 where
  pub id : Bytes
  pub key : Bytes
  pub name : Bytes
  pub tier : Bytes
  pub rate_limit : ℕ
  pub created_at : ℕ
  pub last_seen_at : ℕ
  pub request_count : ℕ
  pub disabled : Bool
  pub scan_count : ℕ
  pub month_reset : ℕ

-- The store of users, with the list that the last save wrote to the file.
pub record Users : Type 0 where
  pub users : Map User
  pub dirty : Bool
  pub file : Option (List User)

-- QuotaForTier over QuotaByTier: an unknown tier counts as free.
unfoldable pub quota_for_tier : Bytes → ℕ
quota_for_tier tier =
    if bytes_eq tier (text "free")
    then 100
    else if bytes_eq tier (text "basic")
    then 1000
    else if bytes_eq tier (text "pro")
    then 10000
    else if bytes_eq tier (text "admin")
    then 2 ^ 30
    else 100

unfoldable pub default_rate_for_tier : Bytes → ℕ
default_rate_for_tier tier =
    let t = to_lower tier in
    if bytes_eq t (text "admin")
    then 10000
    else if bytes_eq t (text "pro")
    then 600
    else if bytes_eq t (text "basic")
    then 120
    else 60
