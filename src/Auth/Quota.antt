-- ===== src/Auth/Quota.antt =====
-- The monthly quota and the usage of internal/auth/auth.go.
use stackly.Base.{
  ℕ, suc, ◌-◌, Bool, true, false, not, ◌&&◌, ◌||◌, Option, none, some, List, ◌++◌, Bytes, text,
  bytes_eq, ltb, leb, ◌==◌, length, take, drop, map, if◌then◌else◌,
}
use stackly.Base.Map
use stackly.Auth.{User, Users, quota_for_tier}
use stackly.Auth.Calendar.{Zone, next_month_start}

pub record QuotaInfo : Type 0 where
  pub user_id : Bytes
  pub tier : Bytes
  pub used : ℕ
  pub limit : ℕ
  pub remaining : ℕ
  pub month_reset : ℕ
  pub unlimited : Bool

-- ErrUserNotFound, ErrQuotaExceeded with the info, or the info of the scan that was reserved.
pub data Reserved : Type 0 where
  user_not_found : Reserved
  quota_exceeded : QuotaInfo → Reserved
  reserved : QuotaInfo → Reserved

-- maybeResetLocked: the user, and whether it made the store dirty.
unfoldable pub maybe_reset : Zone → ℕ → User → User × Bool
unfolding next_month_start
maybe_reset z now u =
    if (u.month_reset == 0) || ltb u.month_reset now
    then (record u { scan_count = 0; month_reset = next_month_start z now }, true)
    else (u, false)

abbrev pub is_admin : User → Bool
is_admin u = bytes_eq u.tier (text "admin")

unfoldable pub info_of : User → QuotaInfo
info_of u = record {
  user_id = u.id;
  tier = u.tier;
  used = u.scan_count;
  limit = quota_for_tier u.tier;
  remaining = quota_for_tier u.tier - u.scan_count;
  month_reset = u.month_reset;
  unlimited = is_admin u;
}

unfoldable pub quota : Zone → ℕ → Bytes → Users → Users × Option QuotaInfo
unfolding maybe_reset info_of
quota z now key st = elim (Map.get key st.users) [
  | none ↦ (st, none)
  | some u ↦
      let (u, reset) = maybe_reset z now u in
      (record st { users = Map.put key u st.users; dirty = st.dirty || reset }, some (info_of u))
]

unfoldable pub is_over : User → Bool
is_over u = not (is_admin u) && leb (quota_for_tier u.tier) u.scan_count

unfoldable pub check_and_increment_quota : Zone → ℕ → Bytes → Users → Users × Reserved
unfolding maybe_reset info_of is_over
check_and_increment_quota z now key st = elim (Map.get key st.users) [
  | none ↦ (st, user_not_found)
  | some u ↦
      let (u, reset) = maybe_reset z now u in
      if is_over u
      then (
        record st { users = Map.put key u st.users; dirty = st.dirty || reset },
        quota_exceeded (record (info_of u) { remaining = 0; unlimited = false }),
      )
      else let u' : User = record u { scan_count = suc u.scan_count } in
        (record st { users = Map.put key u' st.users; dirty = true }, reserved (info_of u'))
]

unfoldable pub record_usage : ℕ → Bytes → Users → Users
record_usage now key st = elim (Map.get key st.users) [
  | none ↦ st
  | some u ↦ record st {
    users =
        Map.put key (record u { request_count = suc u.request_count; last_seen_at = now }) st.users;
    dirty = true;
  }
]

unfoldable pub authenticate_api_key : Bytes → Users → Option User
authenticate_api_key key st = elim (Map.get key st.users) [
  | none ↦ none
  | some u ↦ if u.disabled then none else some u
]

unfoldable pub redact_key : Bytes → Bytes
redact_key k =
    if leb (length k) 8 then text "***" else take 4 k ++ (text "..." ++ drop (length k - 4) k)

abbrev redact_user : User → User
redact_user u = record u { key = redact_key u.key }

unfoldable pub all_users : Users → List User
all_users st = map redact_user (Map.values st.users)

unfoldable pub save : Users → Users
save st = record st { file = some (Map.values st.users) }

-- One turn of persistLoop, and its last one.
unfoldable pub persist_tick : Users → Users
unfolding save
persist_tick st = if st.dirty then save (record st { dirty = false }) else st

unfoldable pub stop : Users → Users
unfolding save
stop st = save st
