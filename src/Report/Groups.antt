-- ===== src/Report/Groups.antt =====
-- The grouping of technologies by category in renderTechPills of internal/report/report.go.
use mathlib.Core.List.{append_assoc}
use stackly.Base.{
  ◌≡◌, refl, ap, ◌∙◌, Bool, ◌||◌, Option, none, some, List, [], ◌∷◌, ◌++◌, Bytes, select, any,
  is_some, bytes_eq, bytes_eq_iff, if◌then◌else◌, Bool-cases, Option-cases, inl, inr, arith,
}
use stackly.Base.Map.{get, get-put}
use stackly.Base.Keys.{has, Nodup, has-snoc, snoc-Nodup}
use stackly.Scan.{Result}
use stackly.Report.Pills.{Groups, members, note_category, group, group_all, no_groups}

abbrev pub in_cat : Bytes → Result → Bool
in_cat c t = bytes_eq t.technology.category c

-- A slot after more members.
abbrev extend : Option (List Result) → List Result → Option (List Result)
extend o [] = o
extend o (t ∷ ts) = some (members o ++ t ∷ ts)

extend-snoc :
    (o : Option (List Result)) (t : Result) (ts : List Result)
    → extend (some (members o ++ t ∷ [])) ts ≡ extend o (t ∷ ts)
extend-snoc o t [] = refl
extend-snoc o t (u ∷ us) = ap some (append_assoc (members o) (t ∷ []) (u ∷ us))

get-group :
    (c : Bytes) (t : Result) (g : Groups)
    → get c (group t g).by_cat
      ≡ (if in_cat c t then some (members (get c g.by_cat) ++ t ∷ []) else get c g.by_cat)
unfolding group
get-group c t g =
    let k = t.technology.category in
    let new = members (get k g.by_cat) ++ t ∷ [] in
    get-put k c new g.by_cat ∙ elim (Bool-cases (in_cat c t)) [
      | inl e ↦ rw e (ap (λ j. some (members (get j g.by_cat) ++ t ∷ [])) ((bytes_eq_iff k c).0 e))
      | inr e ↦ rw e refl
    ]

get-group_all :
    (c : Bytes) (ts : List Result) (g : Groups)
    → get c (group_all ts g).by_cat ≡ extend (get c g.by_cat) (select (in_cat c) ts)
unfolding group_all
get-group_all c [] g = refl
get-group_all c (t ∷ ts) g = elim (Bool-cases (in_cat c t)) [
  | inl e ↦
      get-group_all c ts (group t g)
      ∙ rw (get-group c t g) (rw e (extend-snoc (get c g.by_cat) t (select (in_cat c) ts)))
  | inr e ↦ get-group_all c ts (group t g) ∙ rw (get-group c t g) (rw e refl)
]

-- The order has each category of the map once.
record IsOrdered (g : Groups) : Type 0 where
  nodup : Nodup g.order
  same : (c : Bytes) → has c g.order ≡ is_some (get c g.by_cat)

group-IsOrdered : (t : Result) (g : Groups) → IsOrdered g → IsOrdered (group t g)
group-IsOrdered t g h = record { nodup = nodup; same = same }
  where
    k : Bytes
    k = t.technology.category

    nodup : Nodup (group t g).order
    nodup =
        unfold group in
        elim (Option-cases (get k g.by_cat)) [
          | inl e ↦ rw e (snoc-Nodup k g.order (h.same k ∙ ap is_some e) h.nodup)
          | inr (ts, e) ↦ rw e h.nodup
        ]

    noted :
        (c : Bytes)
        → has c (note_category k (get k g.by_cat) g.order) ≡ (has c g.order || bytes_eq k c)
    noted c = elim (Option-cases (get k g.by_cat)) [
      | inl e ↦ rw e (ground (arith, has-snoc k c g.order, bytes_eq_iff k c, bytes_eq_iff c k))
      | inr (ts, e) ↦ rw e (ground (arith, h.same k, e, bytes_eq_iff k c))
    ]

    same : (c : Bytes) → has c (group t g).order ≡ is_some (get c (group t g).by_cat)
    same c = unfold group in noted c ∙ ground (arith, h.same c, get-group c t g)

group_all-IsOrdered : (ts : List Result) (g : Groups) → IsOrdered g → IsOrdered (group_all ts g)
unfolding group_all
group_all-IsOrdered [] g h = h
group_all-IsOrdered (t ∷ ts) g h = group_all-IsOrdered ts (group t g) (group-IsOrdered t g h)

is_some-extend :
    (p : Result → Bool) (ts : List Result) → is_some (extend none (select p ts)) ≡ any p ts
is_some-extend p [] = refl
is_some-extend p (t ∷ ts) = ground (arith, is_some-extend p ts)

members-extend : (ts : List Result) → members (extend none ts) ≡ ts
members-extend [] = refl
members-extend (t ∷ ts) = refl

no_groups-IsOrdered : IsOrdered no_groups
unfolding has get
no_groups-IsOrdered = record { nodup = tt; same = λ c. refl }

-- The categories stand in the order once each, those that some technology has and no others; and under
-- each category stand exactly its technologies, in their order.
pub group_all-exact :
    (ts : List Result)
    → Nodup (group_all ts no_groups).order
      × ((c : Bytes) → has c (group_all ts no_groups).order ≡ any (in_cat c) ts)
      × ((c : Bytes) → members (get c (group_all ts no_groups).by_cat) ≡ select (in_cat c) ts)
unfolding get
group_all-exact ts =
    let h = group_all-IsOrdered ts no_groups no_groups-IsOrdered in
    (
      h.nodup,
      λ c. h.same c ∙ ap is_some (get-group_all c ts no_groups) ∙ is_some-extend (in_cat c) ts,
      λ c. ap members (get-group_all c ts no_groups) ∙ members-extend (select (in_cat c) ts),
    )
