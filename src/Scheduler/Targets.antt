-- ===== src/Scheduler/Targets.antt =====
-- Which URLs internal/scheduler/validate.go accepts, and which addresses it blocks.
use stackly.Base.{
  ℕ, ◌+◌, ◌*◌, ◌/◌, ◌^◌, ◌-◌, ◌≤◌, ◌<◌, ◌≡◌, refl, inl, inr, ◌↔◌, ◌⊎◌, Bool, true, false, not, ◌||◌,
  Option, none, some, List, [], ◌∷◌, Bytes, bytes_eq, to_lower, ltb, ◌==◌, length, if◌then◌else◌,
  Option-cases, arith, All, ap, ◌∙◌,
}
use stackly.Scheduler.Validate.{
  Ip, ip_v4, Url, UrlError, max_url_length, allowed_scheme, is_blocked_ip, is_unspecified,
  is_loopback, is_multicast, is_link_local_unicast, is_link_local_multicast, is_private,
  first_blocked, addresses, check_host, validate_url, scheme_not_allowed, missing_host,
}

first_blocked-none :
    (ips : List Ip) → (first_blocked ips ≡ none) ↔ All (λ ip. is_blocked_ip ip ≡ false) ips
unfolding first_blocked
first_blocked-none [] = (λ _. tt, λ _. refl)
first_blocked-none (ip ∷ ips) =
    (λ h. ground (arith, first_blocked-none ips), λ h. ground (arith, first_blocked-none ips))

bytes_eq-nil : (s : Bytes) → bytes_eq s [] ≡ ltb (length s) 1
unfolding bytes_eq
bytes_eq-nil [] = refl
bytes_eq-nil (c ∷ s) = ground arith

left : List Ip ⊎ UrlError → List Ip
left (inl ips) = ips
left (inr e) = []

module _ (parse : Bytes → Option Url) (parse_ip : Bytes → Option Ip)
    (lookup_ip : Bytes → Option (List Ip)) where
  -- What a URL has to be.
  abbrev pub Acceptable : Bytes → Bool → Type 0
  Acceptable raw allow_private =
      (1 ≤ length raw)
      × (length raw ≤ max_url_length)
      × ((u : Url) × (ips : List Ip) × (parse raw ≡ some u)
          × (allowed_scheme (to_lower u.scheme) ≡ true)
          × (1 ≤ length u.hostname)
          × (addresses parse parse_ip lookup_ip u.hostname ≡ inl ips)
          × ((allow_private ≡ true) ⊎ All (λ ip. is_blocked_ip ip ≡ false) ips))

  check_host-none :
      (u : Url) (allow_private : Bool)
      → (check_host parse parse_ip lookup_ip u allow_private ≡ none) ↔ (
          (ips : List Ip) × (allowed_scheme (to_lower u.scheme) ≡ true)
          × (1 ≤ length u.hostname)
          × (addresses parse parse_ip lookup_ip u.hostname ≡ inl ips)
          × ((allow_private ≡ true) ⊎ All (λ ip. is_blocked_ip ip ≡ false) ips))
  unfolding check_host left
  check_host-none u allow_private =
      let r : (check_host parse parse_ip lookup_ip u allow_private ≡ none) ↔ (
          (ips : List Ip) × (allowed_scheme (to_lower u.scheme) ≡ true)
          × (bytes_eq u.hostname [] ≡ false)
          × (addresses parse parse_ip lookup_ip u.hostname ≡ inl ips)
          × ((allow_private ≡ true) ⊎ All (λ ip. is_blocked_ip ip ≡ false) ips)) =
        go (allowed_scheme (to_lower u.scheme)) (bytes_eq u.hostname []) allow_private
          (addresses parse parse_ip lookup_ip u.hostname) in
      (
        λ h.
            let (ips, s, n, a, q) = r.0 h in
            (ips, s, ground (arith, n, bytes_eq-nil u.hostname), a, q),
        λ (ips, s, n, a, q). r.1 (ips, s, ground (arith, n, bytes_eq-nil u.hostname), a, q),
      )
    where
      go :
          (s n allow : Bool) (a : List Ip ⊎ UrlError)
          → ((if not s
                then some (scheme_not_allowed u.scheme)
                else if n
                then some missing_host
                else elim a [
                  | inr e ↦ some e
                  | inl ips ↦ if allow then none else first_blocked ips
                ])
              ≡ none)
            ↔ ((ips : List Ip) × (s ≡ true)
                × (n ≡ false)
                × (a ≡ inl ips)
                × ((allow ≡ true) ⊎ All (λ ip. is_blocked_ip ip ≡ false) ips))
      go false n allow a = (λ h. absurd cc, λ q. absurd cc)
      go true true allow a = (λ h. absurd cc, λ q. absurd cc)
      go true false allow (inr e) = (λ h. absurd cc, λ q. absurd cc)
      go true false true (inl ips) = (λ h. (ips, refl, refl, refl, inl refl), λ q. refl)
      go true false false (inl ips) = (
        λ h. (ips, refl, refl, refl, inr ((first_blocked-none ips).0 h)),
        λ (ips', s, n, a, q). elim q [
          | inl b ↦ absurd cc
          | inr all ↦
              let same : ips ≡ ips' = ap left a in (first_blocked-none ips).1 (rw (same) all)
        ],
      )

  -- `validateURL` returns no error for exactly the URLs that are not empty and not too long, that
  -- parse to an http or https URL with a host, whose host is an address or resolves, and, unless
  -- private targets are allowed, all of whose addresses are outside the blocked ones.
  pub validate_url-accepts :
      (raw : Bytes) (allow_private : Bool)
      → (validate_url parse parse_ip lookup_ip raw allow_private ≡ none)
        ↔ Acceptable raw allow_private
  unfolding validate_url
  validate_url-accepts raw allow = elim (Option-cases (parse raw)) [
    | inl e ↦
        rw (e, bytes_eq-nil raw)
          (λ h. absurd (ground arith), λ (l, m, (u, ips, p, s, n, a, q)). absurd cc)
    | inr (u, e) ↦
        rw (e, bytes_eq-nil raw)
          (
            λ h.
                let passed : check_host parse parse_ip lookup_ip u allow ≡ none = ground arith in
                let (ips, s, n, a, q) = (check_host-none u allow).0 passed in
                (ground arith, ground arith, (u, ips, refl, s, n, a, q)),
            λ (l, m, (u', ips, p, s, n, a, q)).
                let passed : check_host parse parse_ip lookup_ip u' allow ≡ none =
                  (check_host-none u' allow).1 (ips, s, n, a, q) in
                let same : u ≡ u' = cc in
                let some_text : ltb (length raw) 1 ≡ false = ground (arith, l) in
                let short : ltb max_url_length (length raw) ≡ false = ground (arith, m) in
                rw (some_text, short)
                  (ap (λ v. check_host parse parse_ip lookup_ip v allow) same ∙ passed),
          )
  ]

-- The address as one number.
abbrev pub address : ℕ → ℕ → ℕ → ℕ → ℕ
address a b c d = ((a * 256 + b) * 256 + c) * 256 + d

-- Whether an address is in the range that a base address and the length of a prefix name.
abbrev pub in_cidr : ℕ → ℕ → ℕ → Bool
in_cidr bits base ip = ip / 2 ^ (32 - bits) == base / 2 ^ (32 - bits)

abbrev pub in_blocked_range : ℕ → Bool
in_blocked_range ip =
    in_cidr 32 (address 0 0 0 0) ip
    || in_cidr 8 (address 127 0 0 0) ip
    || in_cidr 8 (address 10 0 0 0) ip
    || in_cidr 12 (address 172 16 0 0) ip
    || in_cidr 16 (address 192 168 0 0) ip
    || in_cidr 16 (address 169 254 0 0) ip
    || in_cidr 4 (address 224 0 0 0) ip

address-div :
    (a b c d : ℕ)
    → b < 256
    → c < 256
    → d < 256
    → (address a b c d / 268435456 ≡ a / 16)
      × (address a b c d / 16777216 ≡ a)
      × (address a b c d / 1048576 ≡ a * 16 + b / 16)
      × (address a b c d / 65536 ≡ a * 256 + b)
address-div a b c d hb hc hd = (omega arith, omega arith, omega arith, omega arith)

-- Of the IPv4 addresses, `isBlockedIP` blocks exactly 0.0.0.0, 127.0.0.0/8, 10.0.0.0/8,
-- 172.16.0.0/12, 192.168.0.0/16, 169.254.0.0/16 and 224.0.0.0/4, and no address from 240.0.0.0 on.
pub is_blocked_ip-ranges :
    (a b c d : ℕ)
    → a < 256
    → b < 256
    → c < 256
    → d < 256
    → (is_blocked_ip (ip_v4 a b c d) ≡ in_blocked_range (address a b c d))
      × (240 ≤ a → is_blocked_ip (ip_v4 a b c d) ≡ false)
unfolding is_blocked_ip is_unspecified is_loopback is_multicast is_link_local_unicast
    is_link_local_multicast is_private
is_blocked_ip-ranges a b c d ha hb hc hd =
    (ground (arith, address-div a b c d hb hc hd), λ h. ground arith)
