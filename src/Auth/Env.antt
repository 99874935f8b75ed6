-- ===== src/Auth/Env.antt =====
-- NewStore and bootstrapFromEnv of internal/auth/auth.go: the users of the file, and those that the
-- environment adds. The digests of newID and hashKey are parameters.
use stackly.Base.{
  ℕ, ◌-◌, ◌≡◌, inl, inr, false, not, Option, none, some, is_some, List, [], ◌∷◌, ◌++◌, Bytes, text,
  bytes_eq, bytes_eq_iff, leb, ◌==◌, length, take, drop, if◌then◌else◌, Bool-cases, Option-cases,
  arith, ◌∙◌,
}
use stackly.Base.Map
use stackly.Base.Map.{Map, get-put}
use stackly.Auth.{User, Users, default_rate_for_tier}
use stackly.Auth.Login.{trim_space, split_colon}

-- strings.Split by a comma: never empty.
unfoldable pub split_comma : Bytes → List Bytes
split_comma [] = [] ∷ []
split_comma (c ∷ s) = let rest = split_comma s in if c == b',' then [] ∷ rest else push c rest
  where
    push : ℕ → List Bytes → List Bytes
    push c [] = (c ∷ []) ∷ []
    push c (p ∷ ps) = (c ∷ p) ∷ ps

unfoldable pub split_key_tier : Bytes → Bytes → Bytes × Bytes
unfolding trim_space split_colon
split_key_tier entry def = elim (split_colon entry) [
  | none ↦ (trim_space entry, def)
  | some (key, tier) ↦
      if not (bytes_eq tier []) then (trim_space key, trim_space tier) else (trim_space key, def)
]

unfoldable pub derive_name : Bytes → Bytes
derive_name key =
    if leb (length key) 8 then key else take 4 key ++ (text "..." ++ drop (length key - 4) key)

-- A user that the environment names, if the key is new.
unfoldable pub add_user : Bytes → Bytes → Bytes → Bytes → ℕ → Map User → Map User
add_user id key name tier now m =
    if is_some (Map.get key m)
    then m
    else Map.put key
        (record {
          id = id;
          key = key;
          name = name;
          tier = tier;
          rate_limit = default_rate_for_tier tier;
          created_at = now;
          last_seen_at = 0;
          request_count = 0;
          disabled = false;
          scan_count = 0;
          month_reset = 0;
        })
        m

module _ (new_id : Bytes → Bytes) (hash_key : Bytes → Bytes) (now : ℕ) where
  -- One entry of STACKLY_API_KEYS.
  unfoldable pub add_api_key : Bytes → Map User → Map User
  unfolding add_user split_key_tier derive_name
  add_api_key entry m =
      let (key, tier) = split_key_tier entry (text "free") in
      add_user (new_id key) key (derive_name key) tier now m

  -- One entry of STACKLY_BASIC_USERS: without a colon it is passed over.
  unfoldable pub add_basic_user : Bytes → Map User → Map User
  unfolding add_user trim_space
  add_basic_user entry m = elim (split_colon entry) [
    | none ↦ m
    | some (u, p) ↦
        let user = trim_space u in
        let key = hash_key (text "basic:" ++ (user ++ (text ":" ++ trim_space p))) in
        add_user (new_id key) key user (text "basic") now m
  ]

  -- The loop over the entries of a variable: each is trimmed, and an empty one is passed over.
  unfoldable pub each_entry : (Bytes → Map User → Map User) → List Bytes → Map User → Map User
  unfolding trim_space
  each_entry add [] m = m
  each_entry add (e ∷ es) m =
      each_entry add es (if bytes_eq (trim_space e) [] then m else add (trim_space e) m)

  -- `keys` and `basic` are what the two variables hold. An empty variable is one empty entry.
  unfoldable pub bootstrap_from_env : Bytes → Bytes → Map User → Map User
  unfolding each_entry split_comma add_api_key add_basic_user
  bootstrap_from_env keys basic m =
      each_entry add_basic_user (split_comma basic) (each_entry add_api_key (split_comma keys) m)

unfoldable pub put_users : List User → Map User → Map User
put_users [] m = m
put_users (u ∷ us) m = put_users us (Map.put u.key u m)

-- NewStore, for a file that is missing or that holds these users.
unfoldable pub new_store :
    (Bytes → Bytes) → (Bytes → Bytes) → ℕ → Bytes → Bytes → Option (List User) → Users
unfolding bootstrap_from_env put_users
new_store new_id hash_key now keys basic file = record {
  users =
      bootstrap_from_env new_id hash_key now keys basic
        (elim file [ none ↦ [] | some us ↦ put_users us [] ]);
  dirty = false;
  file = file;
}

-- An operation that adds entries and never changes one.
abbrev Extends : (Map User → Map User) → Type 0
Extends f = (m : Map User) (k : Bytes) (u : User) → Map.get k m ≡ some u → Map.get k (f m) ≡ some u

add_user-Extends : (id key name tier : Bytes) (now : ℕ) → Extends (add_user id key name tier now)
unfolding add_user
add_user-Extends id key name tier now m k u g = elim (Option-cases (Map.get key m)) [
  | inr (v, e) ↦ rw (e, add_user) g
  | inl e ↦ rw (e, add_user) (get-put key k _ m ∙ ground (arith, g, e, bytes_eq_iff key k))
]

module _ (new_id : Bytes → Bytes) (hash_key : Bytes → Bytes) (now : ℕ) where
  each_entry-Extends :
      (add : Bytes → Map User → Map User) (es : List Bytes)
      → ((e : Bytes) → Extends (add e))
      → Extends (each_entry new_id hash_key now add es)
  unfolding each_entry
  each_entry-Extends add [] h m k u g = g
  each_entry-Extends add (e ∷ es) h m k u g = elim (Bool-cases (bytes_eq (trim_space e) [])) [
    | inl b ↦ rw (b) (each_entry-Extends add es h m k u g)
    | inr b ↦
        rw (b) (each_entry-Extends add es h (add (trim_space e) m) k u (h (trim_space e) m k u g))
  ]

  add_basic_user-Extends : (e : Bytes) → Extends (add_basic_user new_id hash_key now e)
  unfolding add_basic_user
  add_basic_user-Extends e m k u g = elim (Option-cases (split_colon e)) [
    | inl x ↦ rw (x, add_basic_user) g
    | inr ((a, b), x) ↦ rw (x, add_basic_user) (add_user-Extends _ _ _ _ now m k u g)
  ]

  -- The environment never changes a user that the file holds: whatever the two variables name, a key
  -- that has a user keeps that user, with its tier, its quota and its counts.
  pub bootstrap_keeps_users :
      (keys basic : Bytes) (m : Map User) (k : Bytes) (u : User)
      → Map.get k m ≡ some u
      → Map.get k (bootstrap_from_env new_id hash_key now keys basic m) ≡ some u
  unfolding bootstrap_from_env add_api_key
  bootstrap_keeps_users keys basic m k u g =
      each_entry-Extends (add_basic_user new_id hash_key now) (split_comma basic)
        add_basic_user-Extends
        (each_entry new_id hash_key now (add_api_key new_id hash_key now) (split_comma keys) m) k u
        (each_entry-Extends (add_api_key new_id hash_key now) (split_comma keys)
          (λ e. add_user-Extends _ _ _ _ now) m k u g)
