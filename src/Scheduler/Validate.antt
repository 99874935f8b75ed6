-- ===== src/Scheduler/Validate.antt =====
-- internal/scheduler/validate.go. The parser of net/url, the parser and the resolver of net, are
-- parameters. `ip_v4 a b c d` stands for every net.IP whose To4 is not nil, the mapped ones included;
-- `ip_v6 a b rest` is any other, by its first two bytes and the fourteen after them.
use stackly.Base.{
  ℕ, ◌/◌, ◌%◌, inl, inr, ◌⊎◌, Bool, true, false, not, ◌&&◌, ◌||◌, Option, none, some, List, [], ◌∷◌,
  Bytes, text, bytes_eq, to_lower, ltb, ◌==◌, length, if◌then◌else◌,
}

abbrev pub max_url_length : ℕ
max_url_length = 2048

unfoldable pub allowed_scheme : Bytes → Bool
allowed_scheme s = bytes_eq s (text "http") || bytes_eq s (text "https")

pub data Ip : Type 0 where
  ip_v4 : ℕ → ℕ → ℕ → ℕ → Ip
  ip_v6 : ℕ → ℕ → List ℕ → Ip

-- What is read of a *url.URL.
pub record Url : Type 0 where
  pub scheme : Bytes
  pub hostname : Bytes

-- The errors of `validateURL`, one for each of its messages.
pub data UrlError : Type 0 where
  url_empty : UrlError
  url_too_long : ℕ → UrlError
  url_parse : UrlError
  scheme_not_allowed : Bytes → UrlError
  missing_host : UrlError
  dns_failed : Bytes → UrlError
  no_addresses : Bytes → UrlError
  blocked : Ip → UrlError

unfoldable pub all_zero : List ℕ → Bool
all_zero [] = true
all_zero (b ∷ bs) = (b == 0) && all_zero bs

unfoldable pub ends_in_one : List ℕ → Bool
ends_in_one [] = false
ends_in_one (b ∷ []) = b == 1
ends_in_one (b ∷ c ∷ bs) = (b == 0) && ends_in_one (c ∷ bs)

unfoldable pub is_unspecified : Ip → Bool
is_unspecified (ip_v4 a b c d) = (a == 0) && (b == 0) && (c == 0) && (d == 0)
is_unspecified (ip_v6 a b rest) = (a == 0) && (b == 0) && all_zero rest

unfoldable pub is_loopback : Ip → Bool
is_loopback (ip_v4 a b c d) = a == 127
is_loopback (ip_v6 a b rest) = (a == 0) && (b == 0) && ends_in_one rest

unfoldable pub is_multicast : Ip → Bool
is_multicast (ip_v4 a b c d) = a / 16 == 14
is_multicast (ip_v6 a b rest) = a == 255

unfoldable pub is_link_local_unicast : Ip → Bool
is_link_local_unicast (ip_v4 a b c d) = (a == 169) && (b == 254)
is_link_local_unicast (ip_v6 a b rest) = (a == 254) && (b / 64 == 2)

unfoldable pub is_link_local_multicast : Ip → Bool
is_link_local_multicast (ip_v4 a b c d) = (a == 224) && (b == 0) && (c == 0)
is_link_local_multicast (ip_v6 a b rest) = (a == 255) && (b % 16 == 2)

unfoldable pub is_private : Ip → Bool
is_private (ip_v4 a b c d) =
    (a == 10) || ((a == 172) && (b / 16 == 1)) || ((a == 192) && (b == 168))
is_private (ip_v6 a b rest) = a / 2 == 126

unfoldable pub is_blocked_ip : Ip → Bool
is_blocked_ip ip =
    is_unspecified ip
    || is_loopback ip
    || is_multicast ip
    || is_link_local_unicast ip
    || is_link_local_multicast ip
    || is_private ip

-- The loop over the addresses: the first that is blocked is the error.
unfoldable pub first_blocked : List Ip → Option UrlError
first_blocked [] = none
first_blocked (ip ∷ ips) = if is_blocked_ip ip then some (blocked ip) else first_blocked ips

module _ (parse : Bytes → Option Url) (parse_ip : Bytes → Option Ip)
    (lookup_ip : Bytes → Option (List Ip)) where
  -- The addresses of a host, or the error of the resolver.
  unfoldable pub addresses : Bytes → List Ip ⊎ UrlError
  addresses host = elim (parse_ip host) [
    | some ip ↦ inl (ip ∷ [])
    | none ↦ elim (lookup_ip host) [
      | none ↦ inr (dns_failed host)
      | some [] ↦ inr (no_addresses host)
      | some (ip ∷ ips) ↦ inl (ip ∷ ips)
    ]
  ]

  unfoldable pub check_host : Url → Bool → Option UrlError
  unfolding addresses
  check_host u allow_private =
      if not (allowed_scheme (to_lower u.scheme))
      then some (scheme_not_allowed u.scheme)
      else if bytes_eq u.hostname []
      then some missing_host
      else elim (addresses u.hostname) [
        | inr e ↦ some e
        | inl ips ↦ if allow_private then none else first_blocked ips
      ]

  -- No error is `none`.
  unfoldable pub validate_url : Bytes → Bool → Option UrlError
  unfolding check_host
  validate_url raw allow_private =
      if bytes_eq raw []
      then some url_empty
      else if ltb max_url_length (length raw)
      then some (url_too_long (length raw))
      else elim (parse raw) [ none ↦ some url_parse | some u ↦ check_host u allow_private ]

  -- `allow` is what STACKLY_ALLOW_PRIVATE_TARGETS holds.
  unfoldable pub validate_scan_url : Bytes → Bytes → Option UrlError
  unfolding validate_url
  validate_scan_url allow raw = validate_url raw (not (bytes_eq allow []))

  unfoldable pub validate_webhook_url : Bytes → Option UrlError
  unfolding validate_url
  validate_webhook_url raw = validate_url raw false

-- ScheduleQuotaByTier, and QuotaForOwner, which counts an unknown tier as free.
unfoldable pub schedule_quota_by_tier : Bytes → Option ℕ
schedule_quota_by_tier tier =
    if bytes_eq tier (text "free")
    then some 3
    else if bytes_eq tier (text "basic")
    then some 20
    else if bytes_eq tier (text "pro")
    then some 100
    else if bytes_eq tier (text "admin")
    then some 999999
    else none

abbrev pub default_no_auth_quota : ℕ
default_no_auth_quota = 50

unfoldable pub quota_for_owner : Bytes → Bool → ℕ
quota_for_owner tier has_auth =
    if not has_auth
    then default_no_auth_quota
    else elim (schedule_quota_by_tier tier) [ some q ↦ q | none ↦ 3 ]
