-- ===== src/Base/Sort.antt =====
-- The exchange sort that the program writes out by hand,
-- `for i { for j > i { if before(a[j], a[i]) { a[i], a[j] = a[j], a[i] } } }`.
use Prim.Native.Nat.{ℕ, zero, suc, ◌≤◌}
use mathlib.Core.Path.{◌≡◌, refl, ap, ◌∙◌}
use mathlib.Core.Bool.{Bool, true, false, ◌||◌}
use mathlib.Core.List.{List, [], ◌∷◌, Perm}
use mathlib.Core.List.Perm
use native.Mathlib.Omega.{arith}
use stackly.Base.Tests.{if◌then◌else◌, Bool-cases}
use stackly.Base.Lists.{length, All, any}
use mathlib.Core.Logic.{inl, inr}

module _ {ℓ} {A : Type ℓ} (before : A → A → Bool) where
  -- One round of the inner loop, `x` being `a[i]` and `ys` what stands behind it.
  unfoldable pub sweep : A → List A → A × List A
  sweep x [] = (x, [])
  sweep x (y ∷ ys) =
      let r = sweep (if before y x then y else x) ys in (r.0, (if before y x then x else y) ∷ r.1)

  unfoldable pub rounds : ℕ → List A → List A
  rounds zero xs = xs
  rounds (suc n) [] = []
  rounds (suc n) (x ∷ xs) = let r = sweep x xs in r.0 ∷ rounds n r.1

  -- The loop runs as often as the slice is long.
  unfoldable pub exchange_sort : List A → List A
  unfolding rounds sweep
  exchange_sort xs = rounds (length xs) xs

  length-sweep : (x : A) (ys : List A) → length (sweep x ys).1 ≡ length ys
  unfolding sweep
  length-sweep x [] = refl
  length-sweep x (y ∷ ys) = ap suc (length-sweep (if before y x then y else x) ys)

  sweep-perm : (x : A) (ys : List A) → Perm ((sweep x ys).0 ∷ (sweep x ys).1) (x ∷ ys)
  unfolding sweep
  sweep-perm x [] = Perm.rfl
  sweep-perm x (y ∷ ys) = elim (Bool-cases (before y x)) [
    | inl e ↦ rw e (Perm.trans (Perm.swap x _ _) (Perm.cons x (sweep-perm y ys)))
    | inr e ↦ rw e (
        Perm.trans (Perm.swap y _ _)
          (Perm.trans (Perm.cons y (sweep-perm x ys)) (Perm.swap x y ys)))
  ]

  rounds-perm : (n : ℕ) (xs : List A) → Perm (rounds n xs) xs
  unfolding rounds
  rounds-perm zero xs = Perm.rfl
  rounds-perm (suc n) [] = Perm.rfl
  rounds-perm (suc n) (x ∷ xs) =
      Perm.trans (Perm.cons (sweep x xs).0 (rounds-perm n (sweep x xs).1)) (sweep-perm x xs)

  -- The sort drops nothing and makes nothing up.
  pub exchange_sort-perm : (xs : List A) → Perm (exchange_sort xs) xs
  unfolding exchange_sort
  exchange_sort-perm xs = rounds-perm (length xs) xs

  length-rounds : (n : ℕ) (xs : List A) → length (rounds n xs) ≡ length xs
  unfolding rounds
  length-rounds zero xs = refl
  length-rounds (suc n) [] = refl
  length-rounds (suc n) (x ∷ xs) = ap suc (length-rounds n (sweep x xs).1 ∙ length-sweep x xs)

  pub length-exchange_sort : (xs : List A) → length (exchange_sort xs) ≡ length xs
  unfolding exchange_sort
  length-exchange_sort xs = length-rounds (length xs) xs

  -- Nothing that follows an entry should stand before it.
  abbrev pub Sorted : List A → Type 0
  Sorted [] = Unit
  Sorted (x ∷ xs) = All (λ y. before y x ≡ false) xs × Sorted xs

module _ {ℓ} {A : Type ℓ} (P : A → Type 0) where
  if-All : (b : Bool) (x y : A) → P x → P y → P (if b then x else y)
  if-All true x y p q = p
  if-All false x y p q = q

  sweep-All :
      (before : A → A → Bool) (x : A) (ys : List A)
      → P x
      → All P ys
      → All P ((sweep before x ys).0 ∷ (sweep before x ys).1)
  unfolding sweep
  sweep-All before x [] p h = (p, tt)
  sweep-All before x (y ∷ ys) p h =
      let b = before y x in
      let rest = sweep-All before (if before y x then y else x) ys (if-All b y x h.0 p) h.1 in
      (rest.0, (if-All b x y p h.0, rest.1))

  rounds-All : (before : A → A → Bool) (n : ℕ) (xs : List A) → All P xs → All P (rounds before n xs)
  unfolding rounds
  rounds-All before zero xs h = h
  rounds-All before (suc n) [] h = h
  rounds-All before (suc n) (x ∷ xs) h =
      let s = sweep-All before x xs h.0 h.1 in (s.0, rounds-All before n (sweep before x xs).1 s.1)

  pub exchange_sort-All :
      (before : A → A → Bool) (xs : List A) → All P xs → All P (exchange_sort before xs)
  unfolding exchange_sort
  exchange_sort-All before xs h = rounds-All before (length xs) xs h

module _ {ℓ} {A : Type ℓ} (before : A → A → Bool)
    (asym : (a b : A) → before a b ≡ true → before b a ≡ false)
    (trans : (a b c : A) → before b a ≡ false → before c b ≡ false → before c a ≡ false) where
  irrefl : (x : A) → before x x ≡ false
  irrefl x = elim (Bool-cases (before x x)) [ inl e ↦ asym x x e | inr e ↦ e ]

  pick-least :
      (x y : A)
      → (before x (if before y x then y else x) ≡ false)
        × (before (if before y x then x else y) (if before y x then y else x) ≡ false)
  pick-least x y = elim (Bool-cases (before y x)) [
    | inl e ↦ rw e (asym y x e, asym y x e)
    | inr e ↦ rw e (irrefl x, e)
  ]

  sweep-least :
      (x : A) (ys : List A)
      → (before x (sweep before x ys).0 ≡ false)
        × All (λ y. before y (sweep before x ys).0 ≡ false) (sweep before x ys).1
  unfolding sweep
  sweep-least x [] = (irrefl x, tt)
  sweep-least x (y ∷ ys) =
      let h = sweep-least (if before y x then y else x) ys in
      let p = pick-least x y in (trans _ _ x h.0 p.0, (trans _ _ _ h.0 p.1, h.1))

  rounds-Sorted : (n : ℕ) (xs : List A) → length xs ≤ n → Sorted before (rounds before n xs)
  unfolding rounds
  rounds-Sorted zero [] h = tt
  rounds-Sorted zero (x ∷ xs) h = absurd (omega arith)
  rounds-Sorted (suc n) [] h = tt
  rounds-Sorted (suc n) (x ∷ xs) h =
      let r = sweep before x xs in
      (
        rounds-All (λ y. before y r.0 ≡ false) before n r.1 (sweep-least x xs).1,
        rounds-Sorted n r.1 (omega (arith, length-sweep before x xs)),
      )

  -- For a strict weak order the loops leave the slice sorted.
  pub exchange_sort-Sorted : (xs : List A) → Sorted before (exchange_sort before xs)
  unfolding exchange_sort
  exchange_sort-Sorted xs = rounds-Sorted (length xs) xs (omega arith)

module _ {ℓ} {A : Type ℓ} (before : A → A → Bool) (p : A → Bool) where
  pub sweep-any :
      (x : A) (ys : List A)
      → (p (sweep before x ys).0 || any p (sweep before x ys).1) ≡ (p x || any p ys)
  unfolding sweep
  sweep-any x [] = refl
  sweep-any x (y ∷ ys) = elim (Bool-cases (before y x)) [
    | inl e ↦ rw e (ground (arith, sweep-any y ys))
    | inr e ↦ rw e (ground (arith, sweep-any x ys))
  ]

  pub rounds-any : (n : ℕ) (xs : List A) → any p (rounds before n xs) ≡ any p xs
  unfolding rounds
  rounds-any zero xs = refl
  rounds-any (suc n) [] = refl
  rounds-any (suc n) (x ∷ xs) =
      ap (λ b. p (sweep before x xs).0 || b) (rounds-any n (sweep before x xs).1) ∙ sweep-any x xs

  pub exchange_sort-any : (xs : List A) → any p (exchange_sort before xs) ≡ any p xs
  unfolding exchange_sort
  exchange_sort-any xs = rounds-any (length xs) xs
