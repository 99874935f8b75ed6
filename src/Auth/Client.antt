-- ===== src/Auth/Client.antt =====
-- The rest of internal/auth/auth.go that handlers use: who calls, and what is told of users. The
-- parsers of package net are parameters.
use stackly.Base.{
  ℕ, ◌+◌, Bool, true, false, not, Option, none, some, List, [], ◌∷◌, Bytes, text, bytes_eq,
  has_prefix, length, if◌then◌else◌,
}
use stackly.Base.Map
use stackly.Base.Search.{trim_space, split_by}
use stackly.Auth.{User, Users}
use stackly.Auth.Quota.{redact_key, all_users}
use stackly.Auth.Login.{Request, Claims, verify_jwt}
use stackly.Auth.Middleware.{Auth}

-- `parse_ip` gives the address as net.IP prints it.
unfoldable pub client_ip :
    (Bytes → Option Bytes) → (Bytes → Option (Bytes × Bytes)) → Bytes → Bytes → Bytes → Bytes
unfolding trim_space split_by
client_ip parse_ip split_host_port forwarded_for real_ip remote_addr =
    elim (if not (bytes_eq forwarded_for [])
      then parse_ip (trim_space (first forwarded_for))
      else none) [
        | some ip ↦ ip
        | none ↦ elim (if not (bytes_eq real_ip []) then parse_ip real_ip else none) [
          | some ip ↦ ip
          | none ↦ elim (split_host_port remote_addr) [
            | none ↦ remote_addr
            | some (host, port) ↦ host
          ]
        ]
      ]
  where
    head : List Bytes → Bytes
    head [] = []
    head (p ∷ ps) = p

    first : Bytes → Bytes
    first s = head (split_by b',' s)

unfoldable pub detect_auth_type : Request → Bytes
detect_auth_type r =
    if not (bytes_eq r.api_key_header [])
    then text "api_key"
    else if bytes_eq r.authorization []
    then text "none"
    else if has_prefix (text "Basic ") r.authorization
    then text "basic"
    else if has_prefix (text "Bearer ") r.authorization
    then text "bearer"
    else text "unknown"

-- UserFromContext is the user that the middleware passed on.
abbrev pub is_admin_caller : Option User → Bool
is_admin_caller none = false
is_admin_caller (some u) = bytes_eq u.tier (text "admin")

pub record Usage : Type 0 where
  pub id : Bytes
  pub name : Bytes
  pub tier : Bytes
  pub rate_limit : ℕ
  pub request_count : ℕ
  pub created_at : ℕ
  pub last_seen_at : ℕ
  pub key_preview : Bytes

unfoldable pub usage : Bytes → Users → Option Usage
unfolding redact_key
usage key st = elim (Map.get key st.users) [
  | none ↦ none
  | some u ↦ some (record {
    id = u.id;
    name = u.name;
    tier = u.tier;
    rate_limit = u.rate_limit;
    request_count = u.request_count;
    created_at = u.created_at;
    last_seen_at = u.last_seen_at;
    key_preview = redact_key u.key;
  })
]

unfoldable pub verify_token : (Bytes → Bytes → Option Claims) → Bytes → Auth → Bool
unfolding verify_jwt
verify_token parse_jwt token a = elim (verify_jwt parse_jwt a.jwt_secret token) [
  | none ↦ false
  | some u ↦ true
]

pub record Stats : Type 0 where
  pub auth_enabled : Bool
  pub users : ℕ
  pub admin_users : ℕ
  pub jwt_enabled : Bool
  pub active_buckets : ℕ

unfoldable pub count_admins : List User → ℕ
count_admins [] = 0
count_admins (u ∷ us) = (if bytes_eq u.tier (text "admin") then 1 else 0) + count_admins us

unfoldable pub stats : Auth → Stats
unfolding all_users count_admins
stats a =
    let all : List User = elim a.store [ none ↦ [] | some st ↦ all_users st ] in
    record {
      auth_enabled = a.enabled;
      users = length all;
      admin_users = count_admins all;
      jwt_enabled = not (bytes_eq a.jwt_secret []);
      active_buckets = length a.anon_buckets;
    }
