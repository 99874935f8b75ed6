-- ===== src/Cache/Bounds.antt =====
-- The size limit of the cache, over any history of its operations.
use stackly.Base.{
  Option-cases, ℕ, suc, ◌-◌, ◌≤◌, ◌≡◌, ◌≢◌, refl, ap, inl, inr, Bool, true, false, not, none, List,
  [], ◌∷◌, Bytes, bytes_eq, bytes_eq_iff, ltb, length, if◌then◌else◌, Bool-cases, Option-cases,
  arith,
}
use stackly.Base.Map
use stackly.Base.Map.{
  Map, get-put, get-retain-none, length-put, length-retain-le, put-Distinct, retain-Distinct,
}
use stackly.Cache.Url.{url_key, normalize_url, length-url_key}
use stackly.Cache.{
  Entry, Cache, has_expired, is_valid, evict_oldest, persist, get, set, clear, cleanup_expired,
  save, enforce_max,
}
use stackly.Cache.Eviction.{drop_oldest-room, drop_oldest-none, drop_oldest-Distinct}

-- The map has each key once, no empty key, and at most `limit` entries.
module _ {R : Type 0} where
  pub record Holds (limit : ℕ) (m : Map (Entry R)) : Type 0 where
    pub distinct : Map.Distinct m
    pub named : Map.get [] m ≡ none
    pub bounded : length m ≤ limit

  abbrev pub IsValid : Cache R → Type 0
  IsValid c = Holds c.max_size c.entries

module _ {R : Type 0} where
  retain-Holds :
      (n : ℕ) (p : Bytes → Entry R → Bool) (m : Map (Entry R))
      → Holds n m
      → Holds n (Map.retain p m)
  retain-Holds n p m h = record {
    distinct = retain-Distinct p m h.distinct;
    named = get-retain-none p [] m h.named;
    bounded = omega (arith, length-retain-le p m, h.bounded);
  }

  -- `evictOldest` finds room for the one entry that is too many.
  pub evict_oldest-IsValid :
      (now : ℕ) (c : Cache R) → Holds (suc c.max_size) c.entries → IsValid (evict_oldest now c)
  unfolding evict_oldest
  evict_oldest-IsValid now c h = elim (Bool-cases (ltb c.max_size (length fresh))) [
    | inl e ↦
        rw (e, evict_oldest)
          (record {
            distinct = drop_oldest-Distinct fresh kept.distinct;
            named = drop_oldest-none [] fresh kept.named;
            bounded = ground (
              arith,
              kept.bounded,
              drop_oldest-room fresh kept.distinct kept.named (ground arith),
            );
          })
    | inr e ↦
        rw (e, evict_oldest)
          (record { distinct = kept.distinct; named = kept.named; bounded = ground arith })
  ]
    where
      fresh : Map (Entry R)
      fresh = Map.retain (λ _ e. not (has_expired now e)) c.entries

      kept : Holds (suc c.max_size) fresh
      kept = retain-Holds (suc c.max_size) _ c.entries h

  if-IsValid : (b : Bool) (c d : Cache R) → IsValid c → IsValid d → IsValid (if b then c else d)
  if-IsValid true c d p q = p
  if-IsValid false c d p q = q

  save-IsValid : (now : ℕ) (c : Cache R) → IsValid c → IsValid (save now c)
  unfolding save persist
  save-IsValid now c h = elim (Bool-cases (bytes_eq c.path [])) [
    | inl e ↦ rw (e, save) h
    | inr e ↦
        elim (Option-cases (c.storage.marshal (Map.retain (λ _ x. is_valid now x) c.entries))) [
          | inl failed ↦ rw (e, save, persist, failed) h
          | inr (bytes, done) ↦ rw (e, save, persist, done) h
        ]
  ]

  enforce_max-IsValid :
      (now : ℕ) (c : Cache R) → Holds (suc c.max_size) c.entries → IsValid (enforce_max now c)
  unfolding enforce_max
  enforce_max-IsValid now c h = elim (Bool-cases (ltb c.max_size (length c.entries))) [
    | inl e ↦ rw (e, enforce_max) (evict_oldest-IsValid now c h)
    | inr e ↦
        rw (e, enforce_max)
          (record { distinct = h.distinct; named = h.named; bounded = ground arith })
  ]

  put-Holds :
      (n : ℕ) (k : Bytes) (e : Entry R) (m : Map (Entry R))
      → k ≢ []
      → Holds n m
      → Holds (suc n) (Map.put k e m)
  put-Holds n k e m named h = record {
    distinct = put-Distinct k e m h.distinct;
    named = ground (arith, get-put k [] e m, bytes_eq_iff k [], h.named);
    bounded = ground (arith, length-put k e m, h.bounded);
  }

-- The calls on a cache, each with what the clock reads in it.
pub data Op (R : Type 0) : Type 0 where
  looks_up : Bytes → ℕ → Op R
  stores : Bytes → R → Bytes → ℕ → ℕ → ℕ → Op R
  clears : ℕ → Op R
  cleans : ℕ → ℕ → Op R

module _ {R : Type 0} (sha256 : Bytes → Bytes) where
  pub step : Cache R → Op R → Cache R
  step c (looks_up url now) = (get sha256 url now c).0
  step c (stores url result ua now evicted saved) = set sha256 url result ua now evicted saved c
  step c (clears now) = clear now c
  step c (cleans now later) = (cleanup_expired now later c).0

  pub run : Cache R → List (Op R) → Cache R
  unfolding step
  run c [] = c
  run c (op ∷ ops) = run (step c op) ops

module _ (sha256 : Bytes → Bytes) (sha256_length : (s : Bytes) → length (sha256 s) ≡ 32) where
  pub url_key-ne-empty : (url : Bytes) → url_key sha256 url ≢ []
  url_key-ne-empty url e =
      absurd
        (omega (arith, ap length e, length-url_key sha256 url (sha256_length (normalize_url url))))

  module _ {R : Type 0} where
    get-IsValid :
        (url : Bytes) (now : ℕ) (c : Cache R) → IsValid c → IsValid (get sha256 url now c).0
    unfolding get
    get-IsValid url now c h = elim (Option-cases (Map.get (url_key sha256 url) c.entries)) [
      | inl e ↦ rw (e, get) (record { distinct = h.distinct; named = h.named; bounded = h.bounded })
      | inr (x, e) ↦ elim (Bool-cases (has_expired now x)) [
        | inl b ↦
            rw (e, get, b) (record { distinct = h.distinct; named = h.named; bounded = h.bounded })
        | inr b ↦
            rw (e, get, b) (record { distinct = h.distinct; named = h.named; bounded = h.bounded })
      ]
    ]

    set-IsValid :
        (url : Bytes) (r : R) (ua : Bytes) (now evicted saved : ℕ) (c : Cache R)
        → IsValid c
        → IsValid (set sha256 url r ua now evicted saved c)
    unfolding set
    set-IsValid url r ua now evicted saved c h = save-IsValid saved _ (
        enforce_max-IsValid evicted _
          (put-Holds c.max_size (url_key sha256 url) _ c.entries (url_key-ne-empty url) h))

    cleanup_expired-IsValid :
        (now later : ℕ) (c : Cache R) → IsValid c → IsValid (cleanup_expired now later c).0
    unfolding cleanup_expired
    cleanup_expired-IsValid now later c h =
        let kept = retain-Holds c.max_size (λ _ e. not (has_expired now e)) c.entries h in
        let cleaned : Cache R = record c {
          entries = Map.retain (λ _ e. not (has_expired now e)) c.entries;
        } in
        if-IsValid (ltb 0 (length c.entries - length cleaned.entries)) (save later cleaned) cleaned
          (save-IsValid later cleaned kept) kept

    step-IsValid : (c : Cache R) (op : Op R) → IsValid c → IsValid (step sha256 c op)
    unfolding step clear Map.get
    step-IsValid c (looks_up url now) h = get-IsValid url now c h
    step-IsValid c (stores url r ua now evicted saved) h =
        set-IsValid url r ua now evicted saved c h
    step-IsValid c (clears now) h =
        save-IsValid now _ (record { distinct = tt; named = refl; bounded = omega arith })
    step-IsValid c (cleans now later) h = cleanup_expired-IsValid now later c h

    -- Whatever is called on a cache that has each key once, no empty key and at most `max_size`
    -- entries, it has them so afterwards, if the digest has 32 bytes.
    pub run-IsValid : (ops : List (Op R)) (c : Cache R) → IsValid c → IsValid (run sha256 c ops)
    unfolding run
    run-IsValid [] c h = h
    run-IsValid (op ∷ ops) c h = run-IsValid ops (step sha256 c op) (step-IsValid c op h)
