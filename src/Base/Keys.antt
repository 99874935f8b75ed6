-- ===== src/Base/Keys.antt =====
-- Lists of string keys, as sets.
use stackly.Base.{
  ℕ, zero, suc, true, take, ◌≡◌, refl, Bool, false, ◌||◌, List, [], ◌∷◌, ◌++◌, Bytes, bytes_eq,
  bytes_eq_iff, if◌then◌else◌, arith,
}

unfoldable pub has : Bytes → List Bytes → Bool
has k [] = false
has k (j ∷ js) = bytes_eq k j || has k js

unfoldable pub without : Bytes → List Bytes → List Bytes
without k [] = []
without k (j ∷ js) = if bytes_eq k j then without k js else j ∷ without k js

abbrev pub Nodup : List Bytes → Type 0
Nodup [] = Unit
Nodup (j ∷ js) = (has j js ≡ false) × Nodup js

pub has-without :
    (k j : Bytes) (js : List Bytes)
    → has j (without k js) ≡ (if bytes_eq k j then false else has j js)
unfolding has without
has-without k j [] = ground arith
has-without k j (i ∷ js) =
    ground (arith, has-without k j js, bytes_eq_iff k i, bytes_eq_iff j i, bytes_eq_iff k j)

pub has-snoc : (k j : Bytes) (js : List Bytes) → has j (js ++ k ∷ []) ≡ (has j js || bytes_eq j k)
unfolding has
has-snoc k j [] = ground arith
has-snoc k j (i ∷ js) = ground (arith, has-snoc k j js)

pub snoc-Nodup : (k : Bytes) (js : List Bytes) → has k js ≡ false → Nodup js → Nodup (js ++ k ∷ [])
unfolding has
snoc-Nodup k [] h n = (refl, tt)
snoc-Nodup k (i ∷ js) h n =
    ground (arith, has-snoc k i js, snoc-Nodup k js, bytes_eq_iff k i, bytes_eq_iff i k)

pub has-take : (n : ℕ) (k : Bytes) (js : List Bytes) → has k (take n js) ≡ true → has k js ≡ true
unfolding has
has-take zero k js h = cc
has-take (suc n) k [] h = h
has-take (suc n) k (j ∷ js) h = ground (arith, has-take n k js)

pub take-Nodup : (n : ℕ) (js : List Bytes) → Nodup js → Nodup (take n js)
take-Nodup zero js h = tt
take-Nodup (suc n) [] h = tt
take-Nodup (suc n) (j ∷ js) h = (absent (has j (take n js)) refl, take-Nodup n js h.1)
  where
    absent : (b : Bool) → has j (take n js) ≡ b → has j (take n js) ≡ false
    absent true e = ground (arith, has-take n j js)
    absent false e = e
