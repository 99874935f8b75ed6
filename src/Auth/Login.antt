-- ===== src/Auth/Login.antt =====
-- How internal/auth/auth.go recognises a caller. The digest of a string in hex, the decoding of base64
-- and the check of a token's signature by the JWT package are parameters.
use stackly.Base.{
  or_else, ℕ, false, not, Option, none, some, [], ◌∷◌, ◌++◌, Bytes, text, bytes_eq, has_prefix,
  drop, ◌==◌, if◌then◌else◌,
}
unfoldable pub use stackly.Base.Search.{trim_space}
use stackly.Auth.{User, Users, default_rate_for_tier}
use stackly.Auth.Quota.{authenticate_api_key}

-- What is read of a request: a header or a parameter that is missing is empty.
pub record Request : Type 0 where
  pub path : Bytes
  pub api_key_header : Bytes
  pub authorization : Bytes
  pub api_key_param : Bytes
  pub client_ip : Bytes

-- The claims of a token whose HMAC signature is valid.
pub record Claims : Type 0 where
  pub sub : Bytes
  pub tier : Bytes

-- strings.SplitN by a colon into two parts; `none` if there is no colon.
unfoldable pub split_colon : Bytes → Option (Bytes × Bytes)
split_colon [] = none
split_colon (c ∷ s) = let rest = split_colon s in if c == b':' then some ([], s) else push c rest
  where
    push : ℕ → Option (Bytes × Bytes) → Option (Bytes × Bytes)
    push c none = none
    push c (some (a, b)) = some (c ∷ a, b)

-- A header that is empty is not looked up.
unfoldable pub by_key : Bytes → Users → Option User
unfolding authenticate_api_key
by_key k st = if not (bytes_eq k []) then authenticate_api_key k st else none

-- The user of a token, who is not stored.
unfoldable pub jwt_user : Claims → User
jwt_user c =
    let tier = if bytes_eq c.tier [] then text "pro" else c.tier in
    record {
      id = text "jwt:" ++ c.sub;
      key = text "jwt:" ++ c.sub;
      name = c.sub;
      tier = tier;
      rate_limit = default_rate_for_tier tier;
      created_at = 0;
      last_seen_at = 0;
      request_count = 0;
      disabled = false;
      scan_count = 0;
      month_reset = 0;
    }

unfoldable pub verify_jwt : (Bytes → Bytes → Option Claims) → Bytes → Bytes → Option User
unfolding jwt_user
verify_jwt parse_jwt secret token =
    if bytes_eq secret []
    then none
    else elim (parse_jwt secret token) [ none ↦ none | some c ↦ some (jwt_user c) ]

unfoldable pub decode_basic : (Bytes → Option Bytes) → Bytes → Option (Bytes × Bytes)
unfolding split_colon
decode_basic base64_decode s = elim (base64_decode s) [ none ↦ none | some d ↦ split_colon d ]

unfoldable pub by_basic : (Bytes → Bytes) → (Bytes → Option Bytes) → Bytes → Users → Option User
unfolding decode_basic authenticate_api_key
by_basic hash_key base64_decode payload st = elim (decode_basic base64_decode payload) [
  | none ↦ none
  | some (user, pass) ↦
      authenticate_api_key (hash_key (text "basic:" ++ (user ++ (text ":" ++ pass)))) st
]

unfoldable pub by_bearer : (Bytes → Bytes → Option Claims) → Bytes → Bytes → Users → Option User
unfolding verify_jwt authenticate_api_key
by_bearer parse_jwt secret token st =
    or_else (authenticate_api_key token st) (verify_jwt parse_jwt secret token)

module _ (hash_key : Bytes → Bytes) (base64_decode : Bytes → Option Bytes)
    (parse_jwt : Bytes → Bytes → Option Claims) where
  unfoldable pub by_authorization : Bytes → Bytes → Users → Option User
  unfolding by_bearer by_basic trim_space
  by_authorization secret header st =
      if has_prefix (text "Bearer ") header
      then by_bearer parse_jwt secret (trim_space (drop 7 header)) st
      else if has_prefix (text "Basic ") header
      then by_basic hash_key base64_decode (drop 6 header) st
      else none

  -- The key in the header, then the authorization, then the key in the query.
  unfoldable pub authenticate : Bytes → Request → Option Users → Option User
  unfolding by_authorization by_key
  authenticate secret r none = none
  authenticate secret r (some st) = or_else (by_key r.api_key_header st) (
      or_else
        (if not (bytes_eq r.authorization [])
          then by_authorization secret r.authorization st
          else none)
        (by_key r.api_key_param st))
