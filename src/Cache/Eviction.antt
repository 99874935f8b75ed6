-- ===== src/Cache/Eviction.antt =====
-- What `evictOldest` throws out, and that it makes room.
use stackly.Base.{
  ℕ, suc, ◌≤◌, ◌<◌, ◌≡◌, refl, ◌⊎◌, inl, inr, false, Option, none, some, [], ◌∷◌, Bytes, bytes_eq,
  bytes_eq_iff, bytes_eq_refl, ltb, length, Bool-cases, Option-cases, arith,
}
use stackly.Base.Map
use stackly.Base.Map.{
  Map, get-remove, get-retain, get-retain-none, length-remove-lt, length-remove-le,
  length-retain-le, remove-Distinct, retain-Distinct,
}
use stackly.Cache.{Entry, oldest_from, drop_oldest}

module _ {R : Type 0} where
  -- What the loop of `evictOldest` returns once it has seen an entry.
  abbrev pub Oldest : Bytes → ℕ → Map (Entry R) → Option (Bytes × ℕ) → Type 0
  Oldest j s m r =
      (k : Bytes) × (t : ℕ) × (r ≡ some (k, t))
      × (t ≤ s)
      × ((x : Bytes) (e : Entry R) → Map.get x m ≡ some e → t ≤ e.cached_at)
      × (((k ≡ j) × (t ≡ s)) ⊎ ((e : Entry R) × (Map.get k m ≡ some e) × (e.cached_at ≡ t)))

  oldest_from-Oldest :
      (j : Bytes) (s : ℕ) (m : Map (Entry R))
      → Map.Distinct m
      → Oldest j s m (oldest_from (some (j, s)) m)
  unfolding oldest_from Map.get
  oldest_from-Oldest j s [] d = (j, s, refl, omega arith, (λ x e h. cc), inl (refl, refl))
  oldest_from-Oldest j s ((i, e) ∷ m) d = elim (Bool-cases (ltb e.cached_at s)) [
    | inl c ↦
        let (k, t, eq, le, least, place) = oldest_from-Oldest i e.cached_at m d.1 in
        (
          k,
          t,
          rw c eq,
          ground arith,
          (λ x f h. ground (arith, least x f)),
          inr (elim place [
            | inl p ↦ (e, ground (arith, bytes_eq_iff i k), ground arith)
            | inr (f, g, q) ↦ (f, ground (arith, bytes_eq_iff i k), q)
          ]),
        )
    | inr c ↦
        let (k, t, eq, le, least, place) = oldest_from-Oldest j s m d.1 in
        (
          k,
          t,
          rw c eq,
          le,
          (λ x f h. ground (arith, least x f)),
          elim place [
            | inl p ↦ inl p
            | inr (f, g, q) ↦ inr (f, ground (arith, bytes_eq_iff i k), q)
          ],
        )
  ]

  -- The entry that goes is one that no other entry is older than.
  pub drop_oldest-least :
      (m : Map (Entry R))
      → Map.Distinct m
      → Map.get [] m ≡ none
      → 0 < length m
      → (k : Bytes) × (e : Entry R) × (Map.get k m ≡ some e)
        × (drop_oldest m ≡ Map.remove k m)
        × ((x : Bytes) (f : Entry R) → Map.get x m ≡ some f → e.cached_at ≤ f.cached_at)
  unfolding drop_oldest oldest_from Map.get
  drop_oldest-least [] d n h = absurd (omega arith)
  drop_oldest-least ((i, e) ∷ m) d n h =
      let (k, t, eq, le, least, place) = oldest_from-Oldest i e.cached_at m d.1 in
      let named : bytes_eq i [] ≡ false = ground arith in
      elim place [
        | inl p ↦ (
          i,
          e,
          rw bytes_eq_refl,
          rw (eq, drop_oldest) (ground (arith, bytes_eq_iff i [], bytes_eq_iff k [])),
          (λ x f g. ground (arith, least x f)),
        )
        | inr (f, g, q) ↦ (
          k,
          f,
          ground (arith, bytes_eq_iff i k),
          rw (eq, drop_oldest) (ground (arith, bytes_eq_iff k [])),
          (λ x y z. ground (arith, least x y)),
        )
      ]

  pub drop_oldest-room :
      (m : Map (Entry R))
      → Map.Distinct m
      → Map.get [] m ≡ none
      → 0 < length m
      → suc (length (drop_oldest m)) ≤ length m
  drop_oldest-room m d n h =
      let (k, e, found, eq, least) = drop_oldest-least m d n h in
      rw eq (length-remove-lt k m (ground arith))

  pub drop_oldest-none :
      (x : Bytes) (m : Map (Entry R)) → Map.get x m ≡ none → Map.get x (drop_oldest m) ≡ none
  unfolding drop_oldest
  drop_oldest-none x m h = elim (Option-cases (oldest_from none m)) [
    | inl e ↦ rw (e, drop_oldest) h
    | inr ((k, t), e) ↦ rw (e, drop_oldest) (ground (arith, get-remove k x m))
  ]

  pub drop_oldest-Distinct : (m : Map (Entry R)) → Map.Distinct m → Map.Distinct (drop_oldest m)
  unfolding drop_oldest
  drop_oldest-Distinct m d = elim (Option-cases (oldest_from none m)) [
    | inl e ↦ rw (e, drop_oldest) d
    | inr ((k, t), e) ↦ elim (Bool-cases (bytes_eq k [])) [
      | inl b ↦ rw (e, drop_oldest, b) d
      | inr b ↦ rw (e, drop_oldest, b) (remove-Distinct k m d)
    ]
  ]
