-- ===== src/Base/Fresh.antt =====
-- Go's idiom of a set and a slice: a key that is not in the set is added to both.
use stackly.Base.{
  ◌≡◌, refl, true, not, ◌&&◌, ◌||◌, List, [], ◌∷◌, ◌++◌, Bytes, bytes_eq, bytes_eq_iff,
  if◌then◌else◌, Bool-cases, inl, inr, arith,
}
use stackly.Base.Keys.{has, Nodup, has-snoc, snoc-Nodup}

pub record Fresh : Type 0 where
  pub seen : List Bytes
  pub out : List Bytes

unfoldable pub add : Bytes → Fresh → Fresh
add k s = if has k s.seen then s else record { seen = k ∷ s.seen; out = s.out ++ k ∷ [] }

unfoldable pub add_all : List Bytes → Fresh → Fresh
add_all [] s = s
add_all (k ∷ ks) s = add_all ks (add k s)

pub has_cons : (k j : Bytes) (ks : List Bytes) → has k (j ∷ ks) ≡ (bytes_eq k j || has k ks)
unfolding has
has_cons k j ks = refl

-- The set has what it had and the key.
pub has-seen-add : (k j : Bytes) (s : Fresh) → has k (add j s).seen ≡ (has k s.seen || bytes_eq k j)
unfolding add
has-seen-add k j s = ground (arith, has_cons k j s.seen, bytes_eq_iff k j)

pub has-out-add :
    (k j : Bytes) (s : Fresh)
    → has k (add j s).out ≡ (has k s.out || (bytes_eq k j && not (has k s.seen)))
unfolding add
has-out-add k j s = ground (arith, has-snoc j k s.out, bytes_eq_iff k j)

-- The slice has what it had, and the keys of the list that were not in the set.
pub has-out-add_all :
    (k : Bytes) (ks : List Bytes) (s : Fresh)
    → has k (add_all ks s).out ≡ (has k s.out || (has k ks && not (has k s.seen)))
unfolding add_all has
has-out-add_all k [] s = ground arith
has-out-add_all k (j ∷ ks) s =
    ground (arith, has-out-add_all k ks (add j s), has-out-add k j s, has-seen-add k j s)

pub has-seen-add_all :
    (k : Bytes) (ks : List Bytes) (s : Fresh)
    → has k (add_all ks s).seen ≡ (has k s.seen || has k ks)
unfolding add_all has
has-seen-add_all k [] s = ground arith
has-seen-add_all k (j ∷ ks) s = ground (arith, has-seen-add_all k ks (add j s), has-seen-add k j s)

-- The slice has no key twice, and its keys are in the set.
pub record IsFresh (s : Fresh) : Type 0 where
  pub nodup : Nodup s.out
  pub kept : (k : Bytes) → has k s.out ≡ true → has k s.seen ≡ true

pub add-IsFresh : (j : Bytes) (s : Fresh) → IsFresh s → IsFresh (add j s)
add-IsFresh j s h = record {
  nodup = nodup;
  kept = λ k e. ground (arith, h.kept k, has-out-add k j s, has-seen-add k j s);
}
  where
    nodup : Nodup (add j s).out
    nodup = elim (Bool-cases (has j s.seen)) [
      | inl e ↦ unfold add in rw e h.nodup
      | inr e ↦ unfold add in rw e (snoc-Nodup j s.out (ground (arith, h.kept j)) h.nodup)
    ]

pub add_all-IsFresh : (ks : List Bytes) (s : Fresh) → IsFresh s → IsFresh (add_all ks s)
unfolding add_all
add_all-IsFresh [] s h = h
add_all-IsFresh (k ∷ ks) s h = add_all-IsFresh ks (add k s) (add-IsFresh k s h)

-- An empty slice beside any set.
abbrev pub start : List Bytes → Fresh
start seen = record { seen = seen; out = [] }

pub start-IsFresh : (seen : List Bytes) → IsFresh (start seen)
unfolding has
start-IsFresh seen = record { nodup = tt; kept = λ k e. cc }
