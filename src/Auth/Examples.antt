-- ===== src/Auth/Examples.antt =====
-- Authentication at work, and its theorems at concrete inputs.
use Prim.Native.Nat.{min}
use stackly.Base.{
  ℕ, ◌+◌, ◌-◌, ◌*◌, ◌≤◌, ◌≡◌, refl, true, false, Option, none, some, [], ◌∷◌, Bytes, text, bytes_eq,
  has_prefix, arith,
}
use stackly.Base.Map
use stackly.Auth.{User, Users, quota_for_tier}
use stackly.Auth.Calendar.{
  day, Zone, utc, next_month_start, month_start, month_of, month_walk, days_in_month,
}
use stackly.Auth.Quota.{record_usage, all_users, authenticate_api_key}
use stackly.Auth.Bucket.{window, allow, bucket_of, full_bucket, refill, spend}
use stackly.Auth.Login.{Request, Claims, authenticate, by_key}
use stackly.Auth.Middleware.{
  Auth, served, middleware, is_enabled, is_public, pass_request, limit_request, take_token, rate_of,
  bucket_key, use_store,
}
use stackly.Auth.Flow.{run_allow, sum, allow-bounded}
use stackly.Auth.Grants.{run_checks, checks_within_month, checks_without_limit}
use stackly.Auth.Gate.{Known, served_is_Known}

abbrev hash_key : Bytes → Bytes
hash_key s = s

abbrev base64_decode : Bytes → Option Bytes
base64_decode s = none

abbrev parse_jwt : Bytes → Bytes → Option Claims
parse_jwt secret token = none

abbrev ann : User
ann = record {
  id = text "1";
  key = text "k";
  name = text "ann";
  tier = text "free";
  rate_limit = 60;
  created_at = 0;
  last_seen_at = 0;
  request_count = 0;
  disabled = false;
  scan_count = 99;
  month_reset = 31 * day;
}

abbrev users : Users
users = record { users = (text "k", ann) ∷ []; dirty = false; file = none }

-- A server two hours behind UTC, in the first hour of February there.
abbrev west : Zone
west = record { ahead = 0; behind = 7_200_000_000_000 }

abbrev february : ℕ
february = 31 * day + 3_600_000_000_000

abbrev asked : Request
asked = record {
  path = text "/api/scan";
  api_key_header = text "k";
  authorization = [];
  api_key_param = [];
  client_ip = text "1.2.3.4";
}

allow-bounded_example :
    (run_allow (text "k") 2 5 (0 ∷ 0 ∷ 7 ∷ []) []).1 * window ≤ 2 * window + sum (0 ∷ 7 ∷ []) * 2
unfolding Map.get
allow-bounded_example = allow-bounded (text "k") 2 5 (0 ∷ 7 ∷ []) [] refl

checks_within_month_example :
    (run_checks utc (text "k") (5 ∷ 6 ∷ []) users).1 ≡ min 2 (quota_for_tier (text "free") - 99)
unfolding Map.get bytes_eq
checks_within_month_example =
    checks_within_month utc (text "k") (5 ∷ 6 ∷ []) users ann refl refl (omega arith)
      (omega arith, (omega arith, tt))

west_test : next_month_start west february ≡ 31 * day
unfolding next_month_start month_of month_walk month_start days_in_month
west_test = refl

west_is_unlimited : (run_checks west (text "k") (february ∷ february ∷ february ∷ []) users).1 ≡ 3
unfolding Map.get bytes_eq
west_is_unlimited =
    checks_without_limit west (text "k") february (february ∷ february ∷ february ∷ []) users ann
      (rw (west_test) (omega arith)) refl (omega arith) (refl, (refl, (refl, tt)))

abbrev gate : Auth
gate = record {
  store = some users;
  enabled = true;
  default_rate = 60;
  jwt_secret = [];
  anon_buckets = [];
}

enabled_test : is_enabled [] gate ≡ true
unfolding is_enabled all_users Map.values bytes_eq
enabled_test = refl

private_test : is_public asked.path ≡ false
unfolding is_public bytes_eq has_prefix
private_test = refl

served_test : (middleware hash_key base64_decode parse_jwt [] 7 asked gate).1 ≡ served (some ann)
unfolding middleware is_public pass_request limit_request take_token rate_of bucket_key use_store
    record_usage allow bucket_of full_bucket refill spend authenticate by_key authenticate_api_key
    bytes_eq has_prefix Map.get
served_test = refl

served_is_Known_example :
    (u : User) × (some ann ≡ some u)
    × Known hash_key base64_decode parse_jwt asked [] (some users) u
served_is_Known_example =
    served_is_Known hash_key base64_decode parse_jwt [] 7 asked gate (some ann) enabled_test
      private_test served_test
