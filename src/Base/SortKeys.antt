-- ===== src/Base/SortKeys.antt =====
-- Strings in bytewise order, as sort.Strings puts them. The order is total, so that each correct sort
-- of distinct strings has the same result; the exchange sort is one.
use stackly.Base.{
  ℕ, zero, suc, ◌≡◌, ◌≢◌, refl, subst, sym, ◌∙◌, ap, Bool, true, false, ◌||◌, List, [], ◌∷◌, ◌++◌,
  Bytes, bytes_eq, bytes_eq_iff, ltb, ◌==◌, any, length, if◌then◌else◌, arith,
}
use stackly.Base.Keys.{has, Nodup}
use stackly.Base.Sort.{
  exchange_sort, sweep, rounds, sweep-any, rounds-any, exchange_sort-any, Sorted,
  exchange_sort-Sorted,
}

-- `s < t`.
unfoldable pub bytes_lt : Bytes → Bytes → Bool
bytes_lt s [] = false
bytes_lt [] (c ∷ t) = true
bytes_lt (b ∷ s) (c ∷ t) = let rest = bytes_lt s t in if b == c then rest else ltb b c

bytes_lt_asym : (s t : Bytes) → bytes_lt s t ≡ true → bytes_lt t s ≡ false
unfolding bytes_lt
bytes_lt_asym [] [] h = refl
bytes_lt_asym (b ∷ s) [] h = cc
bytes_lt_asym [] (c ∷ t) h = refl
bytes_lt_asym (b ∷ s) (c ∷ t) h = ground (arith, bytes_lt_asym s t)

bytes_lt_trans :
    (s t u : Bytes) → bytes_lt t s ≡ false → bytes_lt u t ≡ false → bytes_lt u s ≡ false
unfolding bytes_lt
bytes_lt_trans [] [] u h k = k
bytes_lt_trans [] (c ∷ t) [] h k = refl
bytes_lt_trans [] (c ∷ t) (d ∷ u) h k = refl
bytes_lt_trans (b ∷ s) [] u h k = cc
bytes_lt_trans (b ∷ s) (c ∷ t) [] h k = cc
bytes_lt_trans (b ∷ s) (c ∷ t) (d ∷ u) h k = ground (arith, bytes_lt_trans s t u)

unfoldable pub sort_strings : List Bytes → List Bytes
sort_strings = exchange_sort bytes_lt

pub has-any : (k : Bytes) (ks : List Bytes) → has k ks ≡ any (bytes_eq k) ks
unfolding has
has-any k [] = refl
has-any k (j ∷ ks) = ap (λ b. bytes_eq k j || b) (has-any k ks)

pub has-sort_strings : (k : Bytes) (ks : List Bytes) → has k (sort_strings ks) ≡ has k ks
unfolding sort_strings
has-sort_strings k ks =
    rw (has-any k (exchange_sort bytes_lt ks), has-any k ks)
      (exchange_sort-any bytes_lt (bytes_eq k) ks)

pub sort_strings-Sorted : (ks : List Bytes) → Sorted bytes_lt (sort_strings ks)
unfolding sort_strings
sort_strings-Sorted ks = exchange_sort-Sorted bytes_lt bytes_lt_asym bytes_lt_trans ks

-- The keys of a list's entries.
unfoldable pub keys {ℓ} : {A : Type ℓ} → (A → Bytes) → List A → List Bytes
keys key [] = []
keys key (x ∷ xs) = key x ∷ keys key xs

module _ {ℓ} {A : Type ℓ} (key : A → Bytes) where
  pub has-keys : (k : Bytes) (xs : List A) → has k (keys key xs) ≡ any (λ x. bytes_eq k (key x)) xs
  unfolding has keys
  has-keys k [] = refl
  has-keys k (x ∷ xs) = ap (λ b. bytes_eq k (key x) || b) (has-keys k xs)

  pub keys-snoc : (xs : List A) (x : A) → keys key (xs ++ x ∷ []) ≡ keys key xs ++ key x ∷ []
  unfolding keys
  keys-snoc [] x = refl
  keys-snoc (y ∷ xs) x = ap (λ l. key y ∷ l) (keys-snoc xs x)

module _ {ℓ} {A : Type ℓ} (key : A → Bytes) (before : A → A → Bool) where
  has-sweep :
      (k : Bytes) (x : A) (ys : List A)
      → (bytes_eq k (key (sweep before x ys).0) || has k (keys key (sweep before x ys).1))
        ≡ (bytes_eq k (key x) || has k (keys key ys))
  has-sweep k x ys =
      rw (has-keys key k (sweep before x ys).1, has-keys key k ys)
        (sweep-any before (λ y. bytes_eq k (key y)) x ys)

  -- The first entry's key is not that of another, and no key stands twice.
  abbrev Parted : A → List A → Type 0
  Parted x ys = (has (key x) (keys key ys) ≡ false) × Nodup (keys key ys)

  abbrev Swept : A → A → List A → Type 0
  Swept a c ys =
      let r = sweep before a ys in
      ((bytes_eq (key r.0) (key c) || has (key r.0) (keys key r.1)) ≡ false)
      × (has (key c) (keys key r.1) ≡ false)
      × Nodup (keys key r.1)

  -- `a` goes on through the slice, and `c` is left behind.
  leave_behind :
      (a c : A) (ys : List A)
      → key a ≢ key c
      → has (key c) (keys key ys) ≡ false
      → Parted (sweep before a ys).0 (sweep before a ys).1
      → Swept a c ys
  leave_behind a c ys ne h (head, tail) =
      let k = key (sweep before a ys).0 in
      (
        ground (
          arith,
          has-sweep (key c) a ys,
          bytes_eq_iff (key c) (key a),
          bytes_eq_iff (key c) k,
          bytes_eq_iff k (key c),
        ),
        ground (arith, has-sweep (key c) a ys, bytes_eq_iff (key c) (key a)),
        tail,
      )

  sweep-Parted :
      (x : A) (ys : List A) → Parted x ys → Parted (sweep before x ys).0 (sweep before x ys).1
  unfolding sweep has keys
  sweep-Parted x [] h = (refl, tt)
  sweep-Parted x (y ∷ ys) (h, n) =
      let r = either (before y x) (sweep-Parted y ys n) (λ k. sweep-Parted x ys (k, n.1)) in
      (r.0, (r.1, r.2))
    where
      either :
          (b : Bool)
          → Parted (sweep before y ys).0 (sweep before y ys).1
          → (has (key x) (keys key ys) ≡ false → Parted (sweep before x ys).0 (sweep before x ys).1)
          → Swept (if b then y else x) (if b then x else y) ys
      either true p q =
          leave_behind y x ys (ground (arith, bytes_eq_iff (key x) (key y))) (ground arith) p
      either false p q =
          leave_behind x y ys (ground (arith, bytes_eq_iff (key x) (key y))) n.0 (q (ground arith))

  has-rounds :
      (k : Bytes) (n : ℕ) (xs : List A)
      → has k (keys key (rounds before n xs)) ≡ has k (keys key xs)
  has-rounds k n xs =
      rw (has-keys key k (rounds before n xs), has-keys key k xs)
        (rounds-any before (λ y. bytes_eq k (key y)) n xs)

  rounds-Nodup : (n : ℕ) (xs : List A) → Nodup (keys key xs) → Nodup (keys key (rounds before n xs))
  unfolding rounds keys
  rounds-Nodup zero xs h = h
  rounds-Nodup (suc n) [] h = h
  rounds-Nodup (suc n) (x ∷ xs) h =
      let s = sweep-Parted x xs h in
      let r = sweep before x xs in (has-rounds (key r.0) n r.1 ∙ s.0, rounds-Nodup n r.1 s.1)

  -- The sort keeps the set of keys, and that none stands twice.
  pub has-exchange_sort :
      (k : Bytes) (xs : List A) → has k (keys key (exchange_sort before xs)) ≡ has k (keys key xs)
  unfolding exchange_sort
  has-exchange_sort k xs = has-rounds k (length xs) xs

  pub exchange_sort-Nodup :
      (xs : List A) → Nodup (keys key xs) → Nodup (keys key (exchange_sort before xs))
  unfolding exchange_sort
  exchange_sort-Nodup xs h = rounds-Nodup (length xs) xs h

keys_self : (ks : List Bytes) → keys (λ k. k) ks ≡ ks
unfolding keys
keys_self [] = refl
keys_self (k ∷ ks) = ap (λ l. k ∷ l) (keys_self ks)

pub sort_strings-Nodup : (ks : List Bytes) → Nodup ks → Nodup (sort_strings ks)
unfolding sort_strings
sort_strings-Nodup ks h =
    subst (λ l. Nodup l) (keys_self (exchange_sort bytes_lt ks))
      (exchange_sort-Nodup (λ k. k) bytes_lt ks (subst (λ l. Nodup l) (sym (keys_self ks)) (h)))
