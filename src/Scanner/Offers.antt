-- ===== src/Scanner/Offers.antt =====
-- Which link of a page a candidate of FindContactPages of internal/scanner/contact.go comes from.
use mathlib.Core.List.{append_assoc, append-nil}
use stackly.Base.{
  ◌≡◌, refl, sym, ap, ◌∙◌, subst, Bool, false, ◌||◌, Option, none, some, List, [], ◌∷◌, ◌++◌, Bytes,
  bytes_eq, bytes_eq_refl, bytes_eq_iff, Option-cases, or_else, any, All, All-append, if◌then◌else◌,
  Bool-cases, inl, inr, arith,
}
use stackly.Base.Keys.{has}
use stackly.Base.Fresh.{has_cons}
use stackly.Scanner.Contact.{Link, Candidate, Pages, Urls, candidate_of, add_page, collect}

abbrev pub offers : Bytes → Option Candidate → Bool
offers k none = false
offers k (some c) = bytes_eq k c.href

choose-or_else :
    (k : Bytes) (o a b : Option Candidate)
    → (if offers k o then o else or_else a b) ≡ or_else (if offers k o then o else a) b
choose-or_else k none a b = refl
choose-or_else k (some c) a b = elim (Bool-cases (bytes_eq k c.href)) [
  | inl e ↦ rw e refl
  | inr e ↦ rw e refl
]

All-implies {ℓ κ μ} :
    {A : Type ℓ} (P : A → Type κ) (Q : A → Type μ) (xs : List A)
    → ((x : A) → P x → Q x)
    → All P xs
    → All Q xs
All-implies P Q [] f h = tt
All-implies P Q (x ∷ xs) f h = (f x h.0, All-implies P Q xs f h.1)

any-snoc {ℓ} :
    {A : Type ℓ} (p : A → Bool) (xs : List A) (x : A) → any p (xs ++ x ∷ []) ≡ (any p xs || p x)
any-snoc p [] x = ground arith
any-snoc p (y ∷ ys) x = ground (arith, any-snoc p ys x)

module _ (urls : Urls) (base : urls.Url) where
  -- What the first link that offers an address offers.
  abbrev pub first_offer : Bytes → List Link → Option Candidate
  first_offer k [] = none
  first_offer k (l ∷ ls) =
      let rest = first_offer k ls in
      if offers k (candidate_of urls base l) then candidate_of urls base l else rest

  abbrev offered : Bytes → Link → Bool
  offered k l = offers k (candidate_of urls base l)

  first_offer-snoc :
      (k : Bytes) (ls : List Link) (l : Link)
      → first_offer k (ls ++ l ∷ [])
        ≡ or_else (first_offer k ls) (if offered k l then candidate_of urls base l else none)
  first_offer-snoc k [] l = refl
  first_offer-snoc k (m ∷ ls) l =
      let o = candidate_of urls base m in
      ap (λ r. if offers k o then o else r) (first_offer-snoc k ls l)
      ∙ choose-or_else k o (first_offer k ls)
          (if offered k l then candidate_of urls base l else none)

  first_offer-none :
      (k : Bytes) (ls : List Link) → any (offered k) ls ≡ false → first_offer k ls ≡ none
  first_offer-none k [] h = refl
  first_offer-none k (l ∷ ls) h = elim (Bool-cases (offered k l)) [
    | inl e ↦ absurd (ground (arith, e, h))
    | inr e ↦ rw e (first_offer-none k ls (ground (arith, e, h)))
  ]

  -- After the links `done`.
  pub record IsFirst (done : List Link) (p : Pages) : Type 0 where
    pub seen : (k : Bytes) → has k p.seen ≡ any (offered k) done
    pub first : All (λ c. first_offer c.href done ≡ some c) p.candidates

  -- What was offered first before one more link still is.
  still_first :
      (done : List Link) (l : Link) (cs : List Candidate)
      → All (λ c. first_offer c.href done ≡ some c) cs
      → All (λ c. first_offer c.href (done ++ l ∷ []) ≡ some c) cs
  still_first done l cs h =
      All-implies (λ c. first_offer c.href done ≡ some c)
        (λ c. first_offer c.href (done ++ l ∷ []) ≡ some c) cs
        (λ c e.
          first_offer-snoc c.href done l
          ∙ ap (λ r. or_else r (if offered c.href l then candidate_of urls base l else none)) e)
        h

  seen_more :
      (done : List Link) (l : Link) (o : Option Candidate) (p : Pages)
      → candidate_of urls base l ≡ o
      → IsFirst done p
      → (k : Bytes) → any (offered k) (done ++ l ∷ []) ≡ (has k p.seen || offers k o)
  seen_more done l o p e h k = any-snoc (offered k) done l ∙ rw (← h.seen k, e) refl

  add_page-IsFirst :
      (done : List Link) (l : Link) (p : Pages)
      → IsFirst done p
      → IsFirst (done ++ l ∷ []) (add_page urls (candidate_of urls base l) p)
  unfolding add_page
  add_page-IsFirst done l p h = elim (Option-cases (candidate_of urls base l)) [
    | inl e ↦ rw e (record {
      seen = λ k. ground (arith, seen_more done l none p e h k);
      first = still_first done l p.candidates h.first;
    })
    | inr (c, e) ↦ elim (Bool-cases (has c.href p.seen)) [
      | inl there ↦
          rw (e, there)
            (record {
              seen = λ k.
                  ground (arith, seen_more done l (some c) p e h k, there, bytes_eq_iff k c.href);
              first = still_first done l p.candidates h.first;
            })
      | inr new ↦
          let none_yet = first_offer-none c.href done (sym (h.seen c.href) ∙ new) in
          let now : first_offer c.href (done ++ l ∷ []) ≡ some c =
            first_offer-snoc c.href done l ∙ rw (none_yet, e, bytes_eq_refl c.href) refl in
          rw (e, new)
            (record {
              seen =
                  λ k. ground (arith, seen_more done l (some c) p e h k, has_cons k c.href p.seen);
              first =
                  All-append _ p.candidates (c ∷ []) (still_first done l p.candidates h.first)
                    (now, tt);
            })
    ]
  ]

  pub collect-first :
      (done ls : List Link) (p : Pages)
      → IsFirst done p
      → All (λ c. first_offer c.href (done ++ ls) ≡ some c) (collect urls base ls p).candidates
  unfolding collect
  collect-first done [] p h =
      subst (λ ds. All (λ c. first_offer c.href ds ≡ some c) p.candidates) (sym (append-nil done))
        h.first
  collect-first done (l ∷ ls) p h =
      let p' = add_page urls (candidate_of urls base l) p in
      subst (λ ds. All (λ c. first_offer c.href ds ≡ some c) (collect urls base ls p').candidates)
        (append_assoc done (l ∷ []) ls)
        (collect-first (done ++ l ∷ []) ls p' (add_page-IsFirst done l p h))
