-- ===== src/Base/Search.antt =====
-- The searches of package strings that the scanner uses.
use stackly.Base.{
  ℕ, ◌+◌, ◌≡◌, refl, ap, ◌∙◌, Bool, true, false, ◌&&◌, ◌||◌, Option, none, some, List, [], ◌∷◌,
  ◌++◌, Bytes, has_prefix, ◌==◌, if◌then◌else◌, arith, reverse, take, drop, length, ◌-◌, leb,
}

-- strings.Contains(s, p).
unfoldable pub contains : Bytes → Bytes → Bool
contains [] p = has_prefix p []
contains (c ∷ s) p = has_prefix p (c ∷ s) || contains s p

pub has_prefix_split : (p s : Bytes) → has_prefix p s ≡ true → (rest : Bytes) × (s ≡ p ++ rest)
unfolding has_prefix
has_prefix_split [] s h = (s, refl)
has_prefix_split (b ∷ p) [] h = cc
has_prefix_split (b ∷ p) (c ∷ s) h =
    let (rest, e) = has_prefix_split p s (ground arith) in
    (rest, let eb : c ≡ b = ground arith in ap (λ l. c ∷ l) e ∙ ap (λ k. k ∷ (p ++ rest)) eb)

pub has_prefix-append : (p rest : Bytes) → has_prefix p (p ++ rest) ≡ true
unfolding has_prefix
has_prefix-append [] rest = refl
has_prefix-append (b ∷ p) rest = ground (arith, has_prefix-append p rest)

pub contains_split :
    (s p : Bytes) → contains s p ≡ true → (pre : Bytes) × (post : Bytes) × (s ≡ pre ++ (p ++ post))
unfolding contains
contains_split [] p h = let (rest, e) = has_prefix_split p [] h in ([], rest, e)
contains_split (c ∷ s) p h = go (has_prefix p (c ∷ s)) refl h (contains_split s p)
  where
    go :
        (b : Bool)
        → has_prefix p (c ∷ s) ≡ b
        → (b || contains s p) ≡ true
        → (contains s p ≡ true → (pre : Bytes) × (post : Bytes) × (s ≡ pre ++ (p ++ post)))
        → (pre : Bytes) × (post : Bytes) × (c ∷ s ≡ pre ++ (p ++ post))
    go true e t ih = let (rest, e') = has_prefix_split p (c ∷ s) e in ([], rest, e')
    go false e t ih = let (pre, post, e') = ih t in (c ∷ pre, post, ap (λ l. c ∷ l) e')

pub contains_head : (s p : Bytes) → has_prefix p s ≡ true → contains s p ≡ true
unfolding contains
contains_head [] p h = h
contains_head (c ∷ s) p h = ground (arith, h)

pub contains-middle : (pre p post : Bytes) → contains (pre ++ (p ++ post)) p ≡ true
contains-middle [] p post = contains_head (p ++ post) p (has_prefix-append p post)
contains-middle (c ∷ pre) p post = later (contains-middle pre p post)
  where
    later : contains (pre ++ (p ++ post)) p ≡ true → contains (c ∷ (pre ++ (p ++ post))) p ≡ true
    later ih = unfold contains in ground (arith, ih)

-- strings.HasSuffix and strings.TrimSuffix, arguments the other way round.
unfoldable pub has_suffix : Bytes → Bytes → Bool
has_suffix p s = has_prefix (reverse p) (reverse s)

unfoldable pub trim_suffix : Bytes → Bytes → Bytes
unfolding has_suffix
trim_suffix p s = if has_suffix p s then take (length s - length p) s else s

-- strings.TrimPrefix.
unfoldable pub trim_prefix : Bytes → Bytes → Bytes
trim_prefix p s = if has_prefix p s then drop (length p) s else s

-- strings.TrimSpace, on ASCII.
abbrev pub is_space : ℕ → Bool
is_space c = (c == 32) || (leb 9 c && leb c 13)

unfoldable pub skip_space : Bytes → Bytes
skip_space [] = []
skip_space (c ∷ s) = if is_space c then skip_space s else c ∷ s

unfoldable pub trim_space : Bytes → Bytes
unfolding skip_space
trim_space s = reverse (skip_space (reverse (skip_space s)))

-- strings.Split by one byte: never empty.
unfoldable pub split_by : ℕ → Bytes → List Bytes
split_by d [] = [] ∷ []
split_by d (c ∷ s) = let rest = split_by d s in if c == d then [] ∷ rest else push c rest
  where
    push : ℕ → List Bytes → List Bytes
    push c [] = (c ∷ []) ∷ []
    push c (p ∷ ps) = (c ∷ p) ∷ ps

-- strings.Index(s, "c") for one byte; `none` for -1.
abbrev one_more : Option ℕ → Option ℕ
one_more none = none
one_more (some n) = some (n + 1)

unfoldable pub index_byte : ℕ → Bytes → Option ℕ
index_byte c [] = none
index_byte c (b ∷ s) = let rest = index_byte c s in if b == c then some 0 else one_more rest

-- strings.Index(s, p), arguments the other way round; `none` for -1.
unfoldable pub index : Bytes → Bytes → Option ℕ
index p [] = if has_prefix p [] then some 0 else none
index p (c ∷ s) = let rest = index p s in if has_prefix p (c ∷ s) then some 0 else one_more rest
