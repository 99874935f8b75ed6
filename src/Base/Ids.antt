-- ===== src/Base/Ids.antt =====
-- Sets of object identities, as lists of numbers, and a store that maps them to objects.
use stackly.Base.{ℕ, ◌≡◌, Bool, false, ◌||◌, List, [], ◌∷◌, ◌==◌, if◌then◌else◌, arith}

unfoldable pub has : ℕ → List ℕ → Bool
has i [] = false
has i (j ∷ js) = (i == j) || has i js

-- `delete(set, i)`.
unfoldable pub without : ℕ → List ℕ → List ℕ
without i [] = []
without i (j ∷ js) = if i == j then without i js else j ∷ without i js

abbrev pub Nodup : List ℕ → Type 0
Nodup [] = Unit
Nodup (j ∷ js) = (has j js ≡ false) × Nodup js

pub has-without :
    (i j : ℕ) (js : List ℕ) → has j (without i js) ≡ (if i == j then false else has j js)
unfolding has without
has-without i j [] = ground arith
has-without i j (k ∷ js) = ground (arith, has-without i j js)

pub without-Nodup : (i : ℕ) (js : List ℕ) → Nodup js → Nodup (without i js)
unfolding without
without-Nodup i [] h = tt
without-Nodup i (j ∷ js) h = ground (arith, has-without i j js, without-Nodup i js h.1)

-- A store with one object replaced.
abbrev pub update {ℓ} : {A : Type ℓ} → (ℕ → A) → ℕ → A → ℕ → A
update f i a j = if i == j then a else f j
