-- ===== src/Cache/Lookup.antt =====
-- What a lookup returns, after a store and over the eviction that the store may cause.
use stackly.Base.{
  ℕ, ◌+◌, ◌≤◌, ◌<◌, ◌≡◌, ◌≢◌, inl, inr, Bool, false, not, none, some, [], ◌∷◌, Bytes, bytes_eq,
  bytes_eq_iff, bytes_eq_refl, ltb, length, if◌then◌else◌, Bool-cases, filter_some, is_some, ◌∙◌,
  arith,
}
use stackly.Base.Map
use stackly.Base.Map.{
  Map, get-put, get-remove, get-retain, get-retain-none, put-Distinct, retain-Distinct,
}
use stackly.Cache.Url.{url_key}
use stackly.Cache.{
  Entry, Cache, has_expired, drop_oldest, evict_oldest, persist, save, enforce_max, new_entry, get,
  set,
}
use stackly.Cache.Eviction.{drop_oldest-least}
use stackly.Cache.Bounds.{IsValid, url_key-ne-empty}

module _ {V : Type 0} where
  -- A map whose only key is `k` has one entry at most.
  length-only :
      (k : Bytes) (m : Map V)
      → Map.Distinct m
      → ((x : Bytes) (v : V) → Map.get x m ≡ some v → x ≡ k)
      → length m ≤ 1
  unfolding Map.get
  length-only k [] d h = omega arith
  length-only k ((i, v) ∷ []) d h = omega arith
  length-only k ((i, v) ∷ (j, w) ∷ m) d h = absurd (
      ground (
        arith,
        bytes_eq_iff i i,
        bytes_eq_iff i j,
        bytes_eq_iff j j,
        bytes_eq_iff j i,
        h i v,
        h j w,
        d.0,
      ))

module _ {R : Type 0} where
  -- `f` is the newest of the map.
  abbrev pub Newest : Bytes → Entry R → Map (Entry R) → Type 0
  Newest k e m =
      (x : Bytes) (f : Entry R) → Map.get x m ≡ some f → x ≢ k → f.cached_at < e.cached_at

  drop_oldest-Newest :
      (m : Map (Entry R)) (k : Bytes) (e : Entry R)
      → Map.Distinct m
      → Map.get [] m ≡ none
      → 1 < length m
      → Map.get k m ≡ some e
      → Newest k e m
      → Map.get k (drop_oldest m) ≡ some e
  drop_oldest-Newest m k e d n room found newer =
      let (j, g, at, eq, least) = drop_oldest-least m d n (omega arith) in
      elim (Bool-cases (bytes_eq j k)) [
        | inr b ↦ rw (eq, get-remove j k m, b) found
        | inl b ↦ absurd (
            omega (
              arith,
              length-only k m d λ x f h. elim (Bool-cases (bytes_eq x k)) [
                | inl q ↦ (bytes_eq_iff x k).0 q
                | inr q ↦
                    absurd
                      (ground (arith, least x f h, newer x f h, bytes_eq_iff x k, bytes_eq_iff j k))
              ],
            ))
      ]

  -- An entry that is not expired, and newer than any other, stays.
  evict_oldest-Newest :
      (now : ℕ) (c : Cache R) (k : Bytes) (e : Entry R)
      → Map.Distinct c.entries
      → Map.get [] c.entries ≡ none
      → 0 < c.max_size
      → Map.get k c.entries ≡ some e
      → has_expired now e ≡ false
      → Newest k e c.entries
      → Map.get k (evict_oldest now c).entries ≡ some e
  unfolding evict_oldest
  evict_oldest-Newest now c k e d n room found fresh newer =
      elim (Bool-cases (ltb c.max_size (length m))) [
        | inr b ↦ rw (b, evict_oldest) kept
        | inl b ↦
            rw (b, evict_oldest)
              (drop_oldest-Newest m k e (retain-Distinct _ c.entries d)
                (get-retain-none _ [] c.entries n) (ground arith) kept newer_kept)
      ]
    where
      p : Bytes → Entry R → Bool
      p _ x = not (has_expired now x)

      m : Map (Entry R)
      m = Map.retain p c.entries

      kept : Map.get k m ≡ some e
      kept = rw (get-retain p k c.entries d, found, fresh)

      newer_kept : Newest k e m
      newer_kept x f h ne = newer x f (ground (arith, get-retain p x c.entries d)) ne

  abbrev pub AllOlder : ℕ → Map (Entry R) → Type 0
  AllOlder now m = (x : Bytes) (f : Entry R) → Map.get x m ≡ some f → f.cached_at < now

  entries-save : (now : ℕ) (c : Cache R) → (save now c).entries ≡ c.entries
  unfolding save persist
  entries-save now c = ground arith

  module _ (sha256 : Bytes → Bytes) where
    -- A lookup returns what is stored under the key of the URL unless it has expired, leaves the
    -- entries alone, and counts one hit if it returns an entry and one miss if not.
    pub get-exact :
        (url : Bytes) (now : ℕ) (c : Cache R)
        → let r = get sha256 url now c in
          (r.1
            ≡ filter_some (λ e. not (has_expired now e)) (Map.get (url_key sha256 url) c.entries))
          × (r.0.entries ≡ c.entries)
          × (r.0.hits ≡ c.hits + (if is_some r.1 then 1 else 0))
          × (r.0.misses ≡ c.misses + (if is_some r.1 then 0 else 1))
    unfolding get
    get-exact url now c = (ground arith, ground arith, ground arith, ground arith)

    -- A result that was just stored is found until its time to live is over, although storing it
    -- may evict: the cache is valid and takes an entry at all, what it holds is older, and the clock
    -- that `evictOldest` and the lookup read has not passed the expiry.
    pub get-set :
        (sha256_length : (s : Bytes) → length (sha256 s) ≡ 32) (url : Bytes) (result : R)
        (ua : Bytes) (now evicted saved later : ℕ) (c : Cache R)
        → IsValid c
        → 0 < c.max_size
        → AllOlder now c.entries
        → evicted ≤ now + c.ttl
        → later ≤ now + c.ttl
        → (get sha256 url later (set sha256 url result ua now evicted saved c)).1
          ≡ some (new_entry c url result ua now)
    unfolding set enforce_max Map.get
    get-set sha256_length url result ua now evicted saved later c valid room older he hl =
        (get-exact url later _).0
        ∙ rw (entries-save saved (enforce_max evicted stored), stays) (ground arith)
      where
        key : Bytes
        key = url_key sha256 url

        entry : Entry R
        entry = new_entry c url result ua now

        stored : Cache R
        stored = record c { entries = Map.put key entry c.entries }

        found : Map.get key stored.entries ≡ some entry
        found = rw (get-put key key entry c.entries, bytes_eq_refl key)

        newer : Newest key entry stored.entries
        newer x f h ne =
            ground (arith, get-put key x entry c.entries, bytes_eq_iff key x, older x f)

        named : Map.get [] stored.entries ≡ none
        named = ground (
          arith,
          get-put key [] entry c.entries,
          bytes_eq_iff key [],
          valid.named,
          url_key-ne-empty sha256 sha256_length url,
        )

        stays : Map.get key (enforce_max evicted stored).entries ≡ some entry
        stays = elim (Bool-cases (ltb stored.max_size (length stored.entries))) [
          | inr b ↦ rw (b, enforce_max) found
          | inl b ↦
              rw (b, enforce_max)
                (evict_oldest-Newest evicted stored key entry
                  (put-Distinct key entry c.entries valid.distinct) named room found (ground arith)
                  newer)
        ]
