-- ===== src/Scanner/Walk.antt =====
-- walkJSONLDForEmails of internal/scanner/email.go against a description of where an address stands.
use stackly.Base.{
  ◌≡◌, refl, sym, subst, ◌↔◌, ◌⊎◌, inl, inr, Bool, true, false, ◌||◌, List, [], ◌∷◌, ◌++◌, Bytes,
  text, bytes_eq_iff, bytes_eq_refl, if◌then◌else◌, Bool-cases, arith,
}
use stackly.Base.Keys.{has}
use stackly.Base.Search.{contains}
use stackly.Scanner.Emails.{
  Json, string, array, object, other, Items, nil, item, Members, end, member, when_email,
  email_items, email_value, is_email_key, walk, walk_items, walk_members,
}

pub has-append : (k : Bytes) (xs ys : List Bytes) → has k (xs ++ ys) ≡ (has k xs || has k ys)
unfolding has
has-append k [] ys = refl
has-append k (x ∷ xs) ys = ground (arith, has-append k xs ys)

-- A string in an array.
pub data InItems (s : Bytes) : Items → Type 0 where
  here_item : {xs : Items} → InItems s (item (string s) xs)
  later_item : {v : Json} {xs : Items} → InItems s xs → InItems s (item v xs)

-- The value of a key `email`, or a string in its array.
pub data IsGiven (s : Bytes) : Json → Type 0 where
  alone : IsGiven s (string s)
  among : {xs : Items} → InItems s xs → IsGiven s (array xs)

-- A value names an address where some object in it has the address under an e-mail key; what stands
-- under such a key is not searched further.
mutual
  pub data Names (s : Bytes) : Json → Type 0 where
    in_array : {xs : Items} → NamesItem s xs → Names s (array xs)
    in_object : {ms : Members} → NamesMember s ms → Names s (object ms)

  pub data NamesItem (s : Bytes) : Items → Type 0 where
    this_item : {v : Json} {xs : Items} → Names s v → NamesItem s (item v xs)
    next_item : {v : Json} {xs : Items} → NamesItem s xs → NamesItem s (item v xs)

  pub data NamesMember (s : Bytes) : Members → Type 0 where
    at_key :
        {k : Bytes} {v : Json} {ms : Members}
        → is_email_key k ≡ true
        → IsGiven s v
        → NamesMember s (member k v ms)
    below :
        {k : Bytes} {v : Json} {ms : Members}
        → is_email_key k ≡ false
        → Names s v
        → NamesMember s (member k v ms)
    next_member :
        {k : Bytes} {v : Json} {ms : Members} → NamesMember s ms → NamesMember s (member k v ms)

or_cases : (a b : Bool) → (a || b) ≡ true → (a ≡ true) ⊎ (b ≡ true)
or_cases true b h = inl refl
or_cases false b h = inr h

-- An entry of an array, or one after it.
item_split :
    {s : Bytes} (v : Json) (rest : Items)
    → (has s (walk v) ≡ true → Names s v × (contains s (text "@") ≡ true))
    → (has s (walk_items rest) ≡ true → NamesItem s rest × (contains s (text "@") ≡ true))
    → (has s (walk v) ≡ true) ⊎ (has s (walk_items rest) ≡ true)
    → NamesItem s (item v rest) × (contains s (text "@") ≡ true)
item_split v rest here later (inl h) = let (n, at) = here h in (this_item n, at)
item_split v rest here later (inr h) = let (n, at) = later h in (next_item n, at)

-- A member of an object, its key being an e-mail key or not, or one after it.
member_split :
    {s : Bytes} (k : Bytes) (v : Json) (rest : Members) (b : Bool)
    → is_email_key k ≡ b
    → (has s (email_value v) ≡ true → IsGiven s v × (contains s (text "@") ≡ true))
    → (has s (walk v) ≡ true → Names s v × (contains s (text "@") ≡ true))
    → (has s (walk_members rest) ≡ true → NamesMember s rest × (contains s (text "@") ≡ true))
    → (has s (if b then email_value v else walk v) ≡ true) ⊎ (has s (walk_members rest) ≡ true)
    → NamesMember s (member k v rest) × (contains s (text "@") ≡ true)
member_split k v rest true e given here later (inl h) = let (n, at) = given h in (at_key e n, at)
member_split k v rest false e given here later (inl h) = let (n, at) = here h in (below e n, at)
member_split k v rest b e given here later (inr h) = let (n, at) = later h in (next_member n, at)

or_left : (a b : Bool) → a ≡ true → (a || b) ≡ true
or_left a b h = ground (arith, h)

or_right : (a b : Bool) → b ≡ true → (a || b) ≡ true
or_right a b h = ground (arith, h)

module _ (s : Bytes) where
  abbrev HasAt : Type 0
  HasAt = contains s (text "@") ≡ true

  when_email_only : (t : Bytes) → has s (when_email t) ≡ true → (s ≡ t) × HasAt
  unfolding when_email has
  when_email_only t h = elim (Bool-cases (contains t (text "@"))) [
    | inl e ↦
        let same : s ≡ t = (bytes_eq_iff s t).0 (ground (arith, rw e at h)) in
        (same, subst (λ x. contains x (text "@") ≡ true) (sym same) e)
    | inr e ↦ let impossible : false ≡ true = rw e at h in cc
  ]

  when_email_self : HasAt → has s (when_email s) ≡ true
  unfolding when_email has
  when_email_self h = rw h (ground (arith, bytes_eq_refl s))

  email_items-only : (xs : Items) → has s (email_items xs) ≡ true → InItems s xs × HasAt
  unfolding email_items has
  email_items-only nil h = cc
  email_items-only (item (string t) rest) h =
      split
        (or_cases (has s (when_email t)) (has s (email_items rest))
          (rw (has-append s (when_email t) (email_items rest)) at h))
        (email_items-only rest)
    where
      split :
          (has s (when_email t) ≡ true) ⊎ (has s (email_items rest) ≡ true)
          → (has s (email_items rest) ≡ true → InItems s rest × HasAt)
          → InItems s (item (string t) rest) × HasAt
      split (inl m) ih =
          let (same, at) = when_email_only t m in
          (subst (λ x. InItems s (item (string x) rest)) same here_item, at)
      split (inr m) ih = let (i, at) = ih m in (later_item i, at)
  email_items-only (item (array ys) rest) h =
      let (i, at) = email_items-only rest h in (later_item i, at)
  email_items-only (item (object ms) rest) h =
      let (i, at) = email_items-only rest h in (later_item i, at)
  email_items-only (item other rest) h = let (i, at) = email_items-only rest h in (later_item i, at)

  email_items-finds : (xs : Items) → InItems s xs → HasAt → has s (email_items xs) ≡ true
  unfolding email_items
  email_items-finds nil i at = elim i [ ]
  email_items-finds (item (string t) rest) here_item at =
      rw (has-append s (when_email s) (email_items rest))
        (or_left (has s (when_email s)) (has s (email_items rest)) (when_email_self at))
  email_items-finds (item (string t) rest) (later_item i) at =
      rw (has-append s (when_email t) (email_items rest))
        (or_right (has s (when_email t)) (has s (email_items rest)) (email_items-finds rest i at))
  email_items-finds (item (array ys) rest) (later_item i) at = email_items-finds rest i at
  email_items-finds (item (object ms) rest) (later_item i) at = email_items-finds rest i at
  email_items-finds (item other rest) (later_item i) at = email_items-finds rest i at

  email_value-only : (v : Json) → has s (email_value v) ≡ true → IsGiven s v × HasAt
  unfolding email_value has
  email_value-only (string t) h =
      let (same, at) = when_email_only t h in (subst (λ x. IsGiven s (string x)) same alone, at)
  email_value-only (array xs) h = let (i, at) = email_items-only xs h in (among i, at)
  email_value-only (object ms) h = cc
  email_value-only other h = cc

  email_value-finds : (v : Json) → IsGiven s v → HasAt → has s (email_value v) ≡ true
  unfolding email_value
  email_value-finds (string t) alone at = when_email_self at
  email_value-finds (array xs) (among i) at = email_items-finds xs i at
  email_value-finds (object ms) g at = elim g [ ]
  email_value-finds other g at = elim g [ ]

  mutual
    unfolding walk has

    walk-only : (v : Json) → has s (walk v) ≡ true → Names s v × HasAt
    walk-only (string t) h = cc
    walk-only (array xs) h = let (n, at) = items-only xs h in (in_array n, at)
    walk-only (object ms) h = let (n, at) = members-only ms h in (in_object n, at)
    walk-only other h = cc

    items-only : (xs : Items) → has s (walk_items xs) ≡ true → NamesItem s xs × HasAt
    items-only nil h = cc
    items-only (item v rest) h = item_split v rest (walk-only v) (items-only rest) (
        or_cases (has s (walk v)) (has s (walk_items rest))
          (rw (has-append s (walk v) (walk_items rest)) at h))

    members-only : (ms : Members) → has s (walk_members ms) ≡ true → NamesMember s ms × HasAt
    members-only end h = cc
    members-only (member k v rest) h =
        member_split k v rest (is_email_key k) refl (email_value-only v) (walk-only v)
          (members-only rest)
          (or_cases (has s (if is_email_key k then email_value v else walk v))
            (has s (walk_members rest))
            (rw
              (has-append s (if is_email_key k then email_value v else walk v) (walk_members rest))
              at h))

  mutual
    unfolding walk has

    walk-finds : (v : Json) → Names s v → HasAt → has s (walk v) ≡ true
    walk-finds (string t) n at = elim n [ ]
    walk-finds (array xs) (in_array n) at = items-finds xs n at
    walk-finds (object ms) (in_object n) at = members-finds ms n at
    walk-finds other n at = elim n [ ]

    items-finds : (xs : Items) → NamesItem s xs → HasAt → has s (walk_items xs) ≡ true
    items-finds nil n at = elim n [ ]
    items-finds (item v rest) (this_item n) at =
        rw (has-append s (walk v) (walk_items rest))
          (or_left (has s (walk v)) (has s (walk_items rest)) (walk-finds v n at))
    items-finds (item v rest) (next_item n) at =
        rw (has-append s (walk v) (walk_items rest))
          (or_right (has s (walk v)) (has s (walk_items rest)) (items-finds rest n at))

    members-finds : (ms : Members) → NamesMember s ms → HasAt → has s (walk_members ms) ≡ true
    members-finds end n at = elim n [ ]
    members-finds (member k v rest) (at_key e g) at =
        rw (has-append s (if is_email_key k then email_value v else walk v) (walk_members rest), e)
          (or_left (has s (email_value v)) (has s (walk_members rest)) (email_value-finds v g at))
    members-finds (member k v rest) (below e n) at =
        rw (has-append s (if is_email_key k then email_value v else walk v) (walk_members rest), e)
          (or_left (has s (walk v)) (has s (walk_members rest)) (walk-finds v n at))
    members-finds (member k v rest) (next_member n) at =
        rw (has-append s (if is_email_key k then email_value v else walk v) (walk_members rest)) (
          or_right (has s (if is_email_key k then email_value v else walk v))
            (has s (walk_members rest)) (members-finds rest n at))

-- The walk over a decoded document returns exactly the strings with an `@` that the document names:
-- those under an e-mail key of an object, alone or in an array, at any depth outside such keys.
pub walk_iff :
    (v : Json) (s : Bytes) → (has s (walk v) ≡ true) ↔ (Names s v × (contains s (text "@") ≡ true))
walk_iff v s = (walk-only s v, λ (n, at). walk-finds s v n at)
