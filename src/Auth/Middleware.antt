-- ===== src/Auth/Middleware.antt =====
-- The middleware of internal/auth/auth.go: authentication, the rate limit and the record of usage.
-- Its metrics are not modelled.
use stackly.Base.{
  ℕ, Bool, true, false, not, ◌&&◌, ◌||◌, Option, none, some, [], ◌++◌, Bytes, text, bytes_eq,
  has_prefix, length, ltb, ◌==◌, if◌then◌else◌,
}
use stackly.Base.Map.{Map}
use stackly.Auth.{User, Users}
use stackly.Auth.Quota.{record_usage, all_users}
use stackly.Auth.Bucket.{Bucket, allow}
use stackly.Auth.Login.{Request, Claims, authenticate}

pub record Auth : Type 0 where
  pub store : Option Users
  pub enabled : Bool
  pub default_rate : ℕ
  pub jwt_secret : Bytes
  pub anon_buckets : Map Bucket

unfoldable pub new_auth : Option Users → Bytes → Auth
new_auth store secret = record {
  store = store;
  enabled = true;
  default_rate = 60;
  jwt_secret = secret;
  anon_buckets = [];
}

-- `no_auth` is what STACKLY_NO_AUTH holds.
unfoldable pub is_enabled : Bytes → Auth → Bool
unfolding all_users
is_enabled no_auth a = bytes_eq no_auth [] && a.enabled && elim a.store [
  | none ↦ false
  | some st ↦ not ((length (all_users st) == 0) && bytes_eq a.jwt_secret [])
]

unfoldable pub is_public : Bytes → Bool
is_public path =
    bytes_eq path (text "/")
    || has_prefix (text "/static/") path
    || has_prefix (text "/extension/") path
    || bytes_eq path (text "/api/health")
    || bytes_eq path (text "/api/docs")
    || bytes_eq path (text "/api/docs/ui")
    || bytes_eq path (text "/api/fingerprints")
    || has_prefix (text "/api/ws/") path

-- The handler is called, with a user in its context or with none; or the request is refused.
pub data Passed : Type 0 where
  served : Option User → Passed
  unauthorized : Passed
  rate_limited : Passed

unfoldable pub rate_of : Option User → Auth → ℕ
rate_of none a = a.default_rate
rate_of (some u) a = if ltb 0 u.rate_limit then u.rate_limit else a.default_rate

unfoldable pub bucket_key : Option User → Request → Bytes
bucket_key none r = r.client_ip
bucket_key (some u) r = text "user:" ++ u.key

unfoldable pub use_store : Option User → ℕ → Option Users → Option Users
unfolding record_usage
use_store none now st = st
use_store (some u) now none = none
use_store (some u) now (some st) = some (record_usage now u.key st)

-- A rate of 0 is no limit.
unfoldable pub take_token : Option User → Request → ℕ → Auth → Map Bucket × Bool
unfolding rate_of bucket_key allow
take_token user r now a =
    if ltb 0 (rate_of user a)
    then allow (bucket_key user r) (rate_of user a) now a.anon_buckets
    else (a.anon_buckets, true)

-- What follows the rate limit, and what follows the authentication.
unfoldable pub limit_request : Option User → ℕ → Auth → Map Bucket × Bool → Auth × Passed
unfolding use_store
limit_request user now a (buckets, ok) =
    if ok
    then (record a { anon_buckets = buckets; store = use_store user now a.store }, served user)
    else (record a { anon_buckets = buckets }, rate_limited)

unfoldable pub pass_request : Bytes → ℕ → Request → Auth → Option User → Auth × Passed
unfolding limit_request take_token is_enabled
pass_request no_auth now r a none =
    if is_enabled no_auth a
    then (a, unauthorized)
    else limit_request none now a (take_token none r now a)
pass_request no_auth now r a (some u) = limit_request (some u) now a (take_token (some u) r now a)

module _ (hash_key : Bytes → Bytes) (base64_decode : Bytes → Option Bytes)
    (parse_jwt : Bytes → Bytes → Option Claims) where
  unfoldable pub middleware : Bytes → ℕ → Request → Auth → Auth × Passed
  unfolding pass_request
  middleware no_auth now r a =
      if is_public r.path
      then (a, served none)
      else pass_request no_auth now r a
          (authenticate hash_key base64_decode parse_jwt a.jwt_secret r a.store)
