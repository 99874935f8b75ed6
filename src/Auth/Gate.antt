-- ===== src/Auth/Gate.antt =====
-- Whom the middleware of internal/auth/auth.go lets in.
use stackly.Base.{
  or_else, ℕ, ◌≡◌, refl, ◌⊎◌, inl, inr, true, false, Option, none, some, [], ◌++◌, Bytes, text,
  bytes_eq, has_prefix, drop, length, ◌≢◌, ◌∷◌, ◌∙◌, ◌==◌, ==_iff, bytes_eq_iff, if◌then◌else◌,
  Bool-cases, Option-cases, arith, sym, ap, subst,
}
use stackly.Base.Map
use stackly.Auth.{User, Users}
use stackly.Auth.Quota.{authenticate_api_key}
use stackly.Auth.Login.{
  Request, Claims, by_key, jwt_user, verify_jwt, by_bearer, decode_basic, split_colon, by_basic,
  by_authorization, trim_space, authenticate,
}
use stackly.Auth.Middleware.{
  Auth, served, is_enabled, is_public, take_token, limit_request, pass_request, middleware,
}

or_else-some : (o p : Option User) (u : User) → or_else o p ≡ some u → (o ≡ some u) ⊎ (p ≡ some u)
or_else-some none p u h = inr h
or_else-some (some v) p u h = inl h

module _ (hash_key : Bytes → Bytes) (base64_decode : Bytes → Option Bytes) where
  -- The keys that a request shows: the one of its header or of its query, which is not empty, the token
  -- of a Bearer authorization, and the digest of the user and the password of a Basic one.
  abbrev pub ShowsKey : Request → Bytes → Type 0
  ShowsKey r key =
      ((key ≢ []) × ((key ≡ r.api_key_header) ⊎ (key ≡ r.api_key_param)))
      ⊎ ((rest : Bytes) × (r.authorization ≡ text "Bearer " ++ rest) × (key ≡ trim_space rest))
      ⊎ ((payload : Bytes) × (user : Bytes) × (pass : Bytes) × (r.authorization
            ≡ text "Basic " ++ payload)
          × (base64_decode payload ≡ some (user ++ (text ":" ++ pass)))
          × (key ≡ hash_key (text "basic:" ++ (user ++ (text ":" ++ pass)))))

  -- A user of the store who is not disabled and whose key the request shows, or the bearer of the token
  -- of its authorization, which the secret signs.
  abbrev pub Known :
      (Bytes → Bytes → Option Claims) → Request → Bytes → Option Users → User → Type 0
  Known parse_jwt r secret store u =
      ((st : Users) × (key : Bytes) × (store ≡ some st)
        × ShowsKey r key
        × (Map.get key st.users ≡ some u)
        × (u.disabled ≡ false))
      ⊎ ((rest : Bytes) × (c : Claims) × (bytes_eq secret [] ≡ false)
          × (r.authorization ≡ text "Bearer " ++ rest)
          × (parse_jwt secret (trim_space rest) ≡ some c)
          × (u ≡ jwt_user c))

api_key-some :
    (key : Bytes) (st : Users) (u : User)
    → authenticate_api_key key st ≡ some u
    → (Map.get key st.users ≡ some u) × (u.disabled ≡ false)
unfolding authenticate_api_key
api_key-some key st u h = go (Map.get key st.users) h
  where
    go :
        (o : Option User)
        → elim o [ none ↦ none | some v ↦ if v.disabled then none else some v ] ≡ some u
        → (o ≡ some u) × (u.disabled ≡ false)
    go none e = absurd cc
    go (some v) e = elim (Bool-cases v.disabled) [
      | inl b ↦ absurd (ground (arith, e, b))
      | inr b ↦
          let same : some v ≡ some u = ground (arith, e, b) in
          let same' : v ≡ u = cc in (same, subst (λ x. x.disabled ≡ false) same' b)
    ]

pass-served :
    (no_auth : Bytes) (now : ℕ) (r : Request) (a : Auth) (user seen : Option User)
    → is_enabled no_auth a ≡ true
    → (pass_request no_auth now r a user).1 ≡ served seen
    → (u : User) × (user ≡ some u) × (seen ≡ some u)
unfolding pass_request limit_request
pass-served no_auth now r a none seen on h = absurd (ground (arith, on, h))
pass-served no_auth now r a (some u) seen on h = elim (Bool-cases (take_token (some u) r now a).1) [
  | inl b ↦
      let same : served (some u) ≡ served seen = ground (arith, b, h) in
      let same' : some u ≡ seen = cc in (u, refl, sym same')
  | inr b ↦ absurd (ground (arith, b, h))
]

-- The parts that a split gives.
abbrev parts : Bytes → Bytes → Option (Bytes × Bytes)
parts a b = some (a, b)

split_parts : (a b c d : Bytes) → parts a b ≡ parts c d → (a ≡ c) × (b ≡ d)
split_parts a b c d h = (cc, cc)

-- The two parts of what is split, and the colon between them.
split_colon-joins : (s a b : Bytes) → split_colon s ≡ parts a b → s ≡ a ++ (text ":" ++ b)
unfolding split_colon
split_colon-joins [] a b h = absurd cc
split_colon-joins (c ∷ s) a b h = elim (Bool-cases (c == b':')) [
  | inl e ↦
      let same : parts [] s ≡ parts a b = rw (e, split_colon) at h in
      let (no_user, rest) = split_parts [] s a b same in
      let colon : c ≡ b':' = (==_iff c b':').0 e in
      ap (λ k. k ∷ s) colon ∙ (ap (λ t. b':' ∷ t) rest ∙ ap (λ t. t ++ (text ":" ++ b)) no_user)
  | inr e ↦ elim (Option-cases (split_colon s)) [
    | inl o ↦
        let nothing : Option (Bytes × Bytes) = none in
        let impossible : nothing ≡ parts a b = rw (e, o, split_colon) at h in absurd cc
    | inr ((a', b'), o) ↦
        let same : parts (c ∷ a') b' ≡ parts a b = rw (e, o, split_colon) at h in
        let (user, pass) = split_parts (c ∷ a') b' a b same in
        ap (λ t. c ∷ t) (split_colon-joins s a' b' o)
        ∙ (ap (λ t. t ++ (text ":" ++ b')) user ∙ ap (λ t. a ++ (text ":" ++ t)) pass)
  ]
]

drop_prefix : (p s : Bytes) → has_prefix p s ≡ true → s ≡ p ++ drop (length p) s
unfolding has_prefix
drop_prefix [] s h = refl
drop_prefix (b ∷ p) [] h = absurd cc
drop_prefix (b ∷ p) (c ∷ s) h =
    let eb : c ≡ b = ground (arith, h) in
    let ih = drop_prefix p s (ground (arith, h)) in ap (λ k. k ∷ s) eb ∙ ap (λ l. b ∷ l) ih

module _ (hash_key : Bytes → Bytes) (base64_decode : Bytes → Option Bytes)
    (parse_jwt : Bytes → Bytes → Option Claims) where
  api_key-Known :
      (r : Request) (secret key : Bytes) (st : Users) (u : User)
      → ShowsKey hash_key base64_decode r key
      → authenticate_api_key key st ≡ some u
      → Known hash_key base64_decode parse_jwt r secret (some st) u
  api_key-Known r secret key st u shows h =
      let (g, d) = api_key-some key st u h in inl (st, key, refl, shows, g, d)

  verify_jwt-Known :
      (r : Request) (secret rest : Bytes) (store : Option Users) (u : User)
      → r.authorization ≡ text "Bearer " ++ rest
      → verify_jwt parse_jwt secret (trim_space rest) ≡ some u
      → Known hash_key base64_decode parse_jwt r secret store u
  unfolding verify_jwt
  verify_jwt-Known r secret rest store u shows h = elim (Bool-cases (bytes_eq secret [])) [
    | inl b ↦ absurd (ground (arith, h, b))
    | inr b ↦ elim (Option-cases (parse_jwt secret (trim_space rest))) [
      | inl e ↦ absurd (ground (arith, h, b, e))
      | inr (c, e) ↦
          let same : some (jwt_user c) ≡ some u = ground (arith, h, b, e) in
          let same' : jwt_user c ≡ u = cc in inr (rest, c, b, shows, e, sym same')
    ]
  ]

  by_key-Known :
      (r : Request) (secret key : Bytes) (st : Users) (u : User)
      → (key ≡ r.api_key_header) ⊎ (key ≡ r.api_key_param)
      → by_key key st ≡ some u
      → Known hash_key base64_decode parse_jwt r secret (some st) u
  unfolding by_key
  by_key-Known r secret key st u which h = elim (Bool-cases (bytes_eq key [])) [
    | inl b ↦ absurd (ground (arith, h, b))
    | inr b ↦
        api_key-Known r secret key st u
          (inl (λ e. absurd (ground (arith, b, (bytes_eq_iff key []).1 e)), which))
          (ground (arith, h, b))
  ]

  basic-Known :
      (r : Request) (secret payload : Bytes) (st : Users) (u : User)
      → r.authorization ≡ text "Basic " ++ payload
      → by_basic hash_key base64_decode payload st ≡ some u
      → Known hash_key base64_decode parse_jwt r secret (some st) u
  unfolding by_basic decode_basic
  basic-Known r secret payload st u shows h = elim (Option-cases (base64_decode payload)) [
    | inl e ↦ let impossible : none ≡ some u = rw (e, by_basic) at h in absurd cc
    | inr (d, e) ↦ elim (Option-cases (split_colon d)) [
      | inl e' ↦ let impossible : none ≡ some u = rw (e, e', by_basic) at h in absurd cc
      | inr ((user, pass), e') ↦
          let joined = split_colon-joins d user pass e' in
          api_key-Known r secret (hash_key (text "basic:" ++ (user ++ (text ":" ++ pass)))) st u
            (inr (inr (payload, user, pass, shows, e ∙ ap some joined, refl)))
            (rw (e, e', by_basic) at h)
    ]
  ]

  authorization-Known :
      (r : Request) (secret : Bytes) (st : Users) (u : User)
      → by_authorization hash_key base64_decode parse_jwt secret r.authorization st ≡ some u
      → Known hash_key base64_decode parse_jwt r secret (some st) u
  unfolding by_authorization by_bearer
  authorization-Known r secret st u h =
      let header = r.authorization in
      elim (Bool-cases (has_prefix (text "Bearer ") header)) [
        | inl b ↦
            let rest = drop 7 header in
            let shows = drop_prefix (text "Bearer ") header b in
            let bearer : by_bearer parse_jwt secret (trim_space rest) st ≡ some u =
              ground (arith, h, b) in
            elim (or_else-some (authenticate_api_key (trim_space rest) st) _ u bearer) [
              | inl k ↦
                  api_key-Known r secret (trim_space rest) st u (inr (inl (rest, shows, refl))) k
              | inr j ↦ verify_jwt-Known r secret rest (some st) u shows j
            ]
        | inr b ↦ elim (Bool-cases (has_prefix (text "Basic ") header)) [
          | inr c ↦ absurd (ground (arith, h, b, c))
          | inl c ↦
              basic-Known r secret (drop 6 header) st u (drop_prefix (text "Basic ") header c)
                (ground (arith, h, b, c))
        ]
      ]

  authenticate-Known :
      (secret : Bytes) (r : Request) (store : Option Users) (u : User)
      → authenticate hash_key base64_decode parse_jwt secret r store ≡ some u
      → Known hash_key base64_decode parse_jwt r secret store u
  unfolding authenticate
  authenticate-Known secret r none u h = absurd cc
  authenticate-Known secret r (some st) u h =
      elim (or_else-some (by_key r.api_key_header st) _ u h) [
        | inl e ↦ by_key-Known r secret r.api_key_header st u (inl refl) e
        | inr e ↦ elim (or_else-some _ (by_key r.api_key_param st) u e) [
          | inl f ↦ elim (Bool-cases (bytes_eq r.authorization [])) [
            | inl b ↦ absurd (ground (arith, f, b))
            | inr b ↦ authorization-Known r secret st u (ground (arith, f, b))
          ]
          | inr f ↦ by_key-Known r secret r.api_key_param st u (inr refl) f
        ]
      ]

  -- While authentication is on, the middleware serves a request of a path that is not public only for
  -- a user whom the request proves to be: one of the store who is not disabled and whose key stands in
  -- the header, in the query or in the authorization, as a token or as the digest of user and password;
  -- or the bearer of a token that stands there and that the secret signs.
  pub served_is_Known :
      (no_auth : Bytes) (now : ℕ) (r : Request) (a : Auth) (user : Option User)
      → is_enabled no_auth a ≡ true
      → is_public r.path ≡ false
      → (middleware hash_key base64_decode parse_jwt no_auth now r a).1 ≡ served user
      → (u : User) × (user ≡ some u)
        × Known hash_key base64_decode parse_jwt r a.jwt_secret a.store u
  unfolding middleware
  served_is_Known no_auth now r a user on private h =
      let who = authenticate hash_key base64_decode parse_jwt a.jwt_secret r a.store in
      let passed : (pass_request no_auth now r a who).1 ≡ served user =
        ground (arith, private, h) in
      let (u, e, s) = pass-served no_auth now r a who user on passed in
      (u, s, authenticate-Known a.jwt_secret r a.store u e)
