-- ===== src/Command/Counts.antt =====
-- The modes of cmd/techstack/main.go.
use stackly.Base.{
  ℕ, ◌+◌, ◌≡◌, refl, ap, ◌∙◌, Bool, List, [], ◌∷◌, Bytes, bytes_eq, bytes_eq_iff, select, length,
  Bool-cases, inl, inr, arith,
}
use stackly.Base.Map.{Map, get, put, get-put}
use stackly.Scan.{Technology}
use stackly.Command.{count_of, count_categories}

abbrev pub in_category : Bytes → Technology → Bool
in_category c t = bytes_eq t.category c

counted :
    (c : Bytes) (ts : List Technology) (cats : Map ℕ)
    → count_of (get c (count_categories ts cats))
      ≡ count_of (get c cats) + length (select (in_category c) ts)
unfolding count_categories
counted c [] cats = omega arith
counted c (t ∷ ts) cats =
    let k = t.category in
    let n = count_of (get k cats) + 1 in
    counted c ts (put k n cats) ∙ elim (Bool-cases (in_category c t)) [
      | inl e ↦
          rw (get-put k c n cats)
            (rw e (omega (arith, ap (λ j. count_of (get j cats)) ((bytes_eq_iff k c).0 e))))
      | inr e ↦ rw (get-put k c n cats) (rw e refl)
    ]

-- Under each category stands the number of technologies of the database that are in it, and none where
-- there is none.
pub count_categories-exact :
    (c : Bytes) (ts : List Technology)
    → count_of (get c (count_categories ts [])) ≡ length (select (in_category c) ts)
count_categories-exact c ts = counted c ts [] ∙ unfold get in omega arith
