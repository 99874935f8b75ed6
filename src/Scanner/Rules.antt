-- ===== src/Scanner/Rules.antt =====
-- detect of internal/scanner/scanner.go finds a technology by the rules that fire.
use stackly.Base.{
  ℕ, ◌+◌, ◌≤◌, ◌≡◌, refl, ap, ◌∙◌, Bool, true, false, not, ◌&&◌, ◌||◌, Option, none, some, List, [],
  ◌∷◌, ◌++◌, Bytes, bytes_eq, to_lower, length, length-append, select, any, All, is_some, is_some,
  if◌then◌else◌, ◌==◌, Bool-cases, Option-cases, inl, inr, arith,
}
use stackly.Base.Map
use stackly.Base.Map.{Map}
use stackly.Scan.{DetectionRule, Detectors, Technology, Match, Result, ScanResult}
use stackly.Scanner.Detect.{
  header_get, match_pattern, rule_matches, text_hit, list_hit, header_hit, meta_hit, Found, weight,
  count_hit, each_rule, detect_one, detect,
}

abbrev pub total : List DetectionRule → ℕ
total [] = 0
total (r ∷ rs) = weight r + total rs

-- The rules of a technology that fire on a page: those on the HTML, on the headers, on a script, on a
-- style sheet, on the URL, on a meta tag, on a global or on a cookie.
module _ (regex_match : Bytes → Bytes → Bool) (page : ScanResult) where
  abbrev pub value_fires : Option Bytes → DetectionRule → Bool
  value_fires none r = false
  value_fires (some v) r = rule_matches regex_match r v

  abbrev pub list_fires : List Bytes → DetectionRule → Bool
  list_fires entries r = any (rule_matches regex_match r) entries

  abbrev pub header_fires : DetectionRule → Bool
  header_fires r =
      not (bytes_eq (header_get r.header page.headers) [])
      && rule_matches regex_match r (header_get r.header page.headers)

  abbrev pub evidence : Detectors → List DetectionRule
  evidence d =
      select (λ r. rule_matches regex_match r page.html) d.html
      ++ select header_fires d.headers
      ++ select (list_fires page.scripts) d.scripts
      ++ select (list_fires page.css_links) d.css
      ++ select (λ r. rule_matches regex_match r page.url) d.url
      ++ select (λ r. value_fires (Map.get (to_lower r.name) page.meta_tags) r) d.meta
      ++ select (list_fires page.js_globals) d.js_globals
      ++ select (list_fires page.cookies) d.cookies

  abbrev pub fires : Technology → Bool
  fires t = not (length (evidence t.detectors) == 0)

total-append : (xs ys : List DetectionRule) → total (xs ++ ys) ≡ total xs + total ys
total-append [] ys = omega arith
total-append (x ∷ xs) ys = omega (arith, total-append xs ys)

weight_pos : (r : DetectionRule) → 1 ≤ weight r
unfolding weight
weight_pos r = ground arith

length-le-total : (rs : List DetectionRule) → length rs ≤ total rs
length-le-total [] = omega arith
length-le-total (r ∷ rs) = omega (arith, weight_pos r, length-le-total rs)

-- No rule has no weight.
has_weight : (rs : List DetectionRule) (n : ℕ) → n ≡ 0 + total rs → (length rs == 0) ≡ (n == 0)
has_weight [] n e = ground arith
has_weight (r ∷ rs) n e = ground (arith, weight_pos r)

some_weight :
    (rs : List DetectionRule) (n : ℕ) → n ≡ 0 + total rs → (n == 0) ≡ false → 1 ≤ length rs
some_weight [] n e h = ground arith
some_weight (r ∷ rs) n e h = omega arith

abbrev nothing : Found
nothing = record { confidence = 0; matches = [] }

-- A loop adds the weights of the rules that fire, and one match for each.
record Adds (rules : List DetectionRule) (f g : Found) : Type 0 where
  pub weighs : g.confidence ≡ f.confidence + total rules
  pub counts : length g.matches ≡ length f.matches + length rules

Adds-trans :
    (xs ys : List DetectionRule) (f g h : Found) → Adds xs f g → Adds ys g h → Adds (xs ++ ys) f h
Adds-trans xs ys f g h a b = record {
  weighs = omega (arith, a.weighs, b.weighs, total-append xs ys);
  counts = omega (arith, a.counts, b.counts, length-append {0} xs ys);
}

count_hit-weighs :
    (rule : DetectionRule) (o : Option Match) (f : Found)
    → ((count_hit rule o f).confidence
        ≡ (if is_some o then f.confidence + weight rule else f.confidence))
      × (length (count_hit rule o f).matches
          ≡ (if is_some o then length f.matches + 1 else length f.matches))
unfolding count_hit
count_hit-weighs rule none f = (refl, refl)
count_hit-weighs rule (some m) f = (refl, omega (arith, length-append {0} f.matches (m ∷ [])))

each_rule-Adds :
    (hit : DetectionRule → Option Match) (p : DetectionRule → Bool)
    → ((r : DetectionRule) → is_some (hit r) ≡ p r)
    → (rules : List DetectionRule) (f : Found) → Adds (select p rules) f (each_rule hit rules f)
unfolding each_rule
each_rule-Adds hit p same [] f = record { weighs = omega arith; counts = omega arith }
each_rule-Adds hit p same (r ∷ rs) f =
    let g = count_hit r (hit r) f in
    let rest = each_rule-Adds hit p same rs g in
    record {
      weighs = ground (arith, count_hit-weighs r (hit r) f, same r, rest.weighs);
      counts = ground (arith, count_hit-weighs r (hit r) f, same r, rest.counts);
    }

module _ (regex_match : Bytes → Bytes → Bool) where
  is_some-text_hit :
      (input type detail : Bytes) (r : DetectionRule)
      → is_some (text_hit regex_match input type detail r) ≡ rule_matches regex_match r input
  unfolding text_hit
  is_some-text_hit input type detail r = elim (Bool-cases (rule_matches regex_match r input)) [
    | inl e ↦ rw e refl
    | inr e ↦ rw e refl
  ]

  is_some-list_hit :
      (type : Bytes) (entries : List Bytes) (r : DetectionRule)
      → is_some (list_hit regex_match type entries r) ≡ any (rule_matches regex_match r) entries
  unfolding list_hit
  is_some-list_hit type [] r = refl
  is_some-list_hit type (x ∷ xs) r =
      let ih = is_some-list_hit type xs r in
      elim (Bool-cases (rule_matches regex_match r x)) [ inl e ↦ rw e refl | inr e ↦ rw e ih ]

  -- A header's rule with no pattern fires on each value that is not empty, as the matcher would.
  header_test :
      (r : DetectionRule) (v : Bytes)
      → (not (bytes_eq v []) && (bytes_eq r.pattern [] || rule_matches regex_match r v))
        ≡ (not (bytes_eq v []) && rule_matches regex_match r v)
  unfolding rule_matches match_pattern
  header_test r v = elim (Bool-cases (bytes_eq r.pattern [])) [
    | inl e ↦ elim (Bool-cases (bytes_eq v [])) [ inl f ↦ rw (e, f) refl | inr f ↦ rw (e, f) refl ]
    | inr e ↦ rw e refl
  ]

  is_some-if : (b : Bool) (m : Match) → is_some (if b then some m else none) ≡ b
  is_some-if true m = refl
  is_some-if false m = refl

  is_some-header_hit :
      (page : ScanResult) (r : DetectionRule)
      → is_some (header_hit regex_match page.headers r) ≡ header_fires regex_match page r
  unfolding header_hit
  is_some-header_hit page r = is_some-if _ _ ∙ header_test r (header_get r.header page.headers)

  is_some-meta_hit :
      (page : ScanResult) (r : DetectionRule)
      → is_some (meta_hit regex_match page.meta_tags r)
        ≡ value_fires regex_match page (Map.get (to_lower r.name) page.meta_tags) r
  unfolding meta_hit
  is_some-meta_hit page r = elim (Option-cases (Map.get (to_lower r.name) page.meta_tags)) [
    | inl e ↦ rw (e, meta_hit) refl
    | inr (v, e) ↦ rw (e, meta_hit) (is_some-if _ _)
  ]

  detect_one-Adds :
      (page : ScanResult) (t : Technology)
      → Adds (evidence regex_match page t.detectors) nothing (detect_one regex_match page t)
  unfolding detect_one
  detect_one-Adds page t = onward _ (list page.cookies _) _ d.cookies (
      onward _ (list page.js_globals _) _ d.js_globals (
        onward _ (is_some-meta_hit page) _ d.meta (
          onward _ (is_some-text_hit page.url _ _) _ d.url (
            onward _ (list page.css_links _) _ d.css (
              onward _ (list page.scripts _) _ d.scripts (
                onward _ (is_some-header_hit page) _ d.headers
                  (each_rule-Adds _ _ (is_some-text_hit page.html _ _) d.html nothing)))))))
    where
      d : Detectors
      d = t.detectors

      list :
          (entries : List Bytes) (type : Bytes) (r : DetectionRule)
          → is_some (list_hit regex_match type entries r) ≡ any (rule_matches regex_match r) entries
      list entries type = is_some-list_hit type entries

      onward :
          {p : DetectionRule → Bool} {xs : List DetectionRule} (hit : DetectionRule → Option Match)
          → ((r : DetectionRule) → is_some (hit r) ≡ p r)
          → (f : Found) (rules : List DetectionRule) → Adds xs nothing f
          → Adds (xs ++ select p rules) nothing (each_rule hit rules f)
      onward {p} {xs} hit same f rules a =
          Adds-trans xs (select p rules) nothing f (each_rule hit rules f) a
            (each_rule-Adds hit p same rules f)

abbrev pub technologies : List Result → List Technology
technologies [] = []
technologies (r ∷ rs) = r.technology ∷ technologies rs

-- What a result of `detect` says of its technology.
abbrev pub Reports : (Bytes → Bytes → Bool) → ScanResult → Result → Type 0
Reports regex_match page r =
    (r.confidence ≡ total (evidence regex_match page r.technology.detectors))
    × (length r.matches ≡ length (evidence regex_match page r.technology.detectors))
    × (1 ≤ length r.matches)
    × (length r.matches ≤ r.confidence)

-- `detect` returns the technologies of the database with at least one rule that fires, in the
-- database's order. The confidence of a result is the sum of the weights of the rules that fire, it
-- has one match for each of them, and at least one match and at most as many as its confidence.
pub detect-exact :
    (regex_match : Bytes → Bytes → Bool) (page : ScanResult) (db : List Technology)
    → (technologies (detect regex_match page db) ≡ select (fires regex_match page) db)
      × All (Reports regex_match page) (detect regex_match page db)
unfolding detect
detect-exact regex_match page [] = (refl, tt)
detect-exact regex_match page (t ∷ ts) =
    go (detect_one regex_match page t) (detect_one-Adds regex_match page t)
      (detect-exact regex_match page ts)
  where
    e : List DetectionRule
    e = evidence regex_match page t.detectors

    go :
        (f : Found)
        → Adds e (nothing) f
        → (technologies (detect regex_match page ts) ≡ select (fires regex_match page) ts)
          × All (Reports regex_match page) (detect regex_match page ts)
        → (technologies (
              if f.confidence == 0
              then detect regex_match page ts
              else record { technology = t; confidence = f.confidence; matches = f.matches }
                ∷ detect regex_match page ts)
            ≡ (if not (length e == 0)
                then t ∷ select (fires regex_match page) ts
                else select (fires regex_match page) ts))
          × All (Reports regex_match page) (
              if f.confidence == 0
              then detect regex_match page ts
              else record { technology = t; confidence = f.confidence; matches = f.matches }
                ∷ detect regex_match page ts)
    go f a (same, all) = elim (Bool-cases (f.confidence == 0)) [
      | inl z ↦ rw (has_weight e f.confidence a.weighs, z) (same, all)
      | inr z ↦
          rw (has_weight e f.confidence a.weighs, z)
            (
              ap (λ l. t ∷ l) same,
              (
                (
                  omega (arith, a.weighs),
                  omega (arith, a.counts),
                  omega (arith, a.counts, some_weight e f.confidence a.weighs z),
                  omega (arith, a.weighs, a.counts, length-le-total e),
                ),
                all,
              ),
            )
    ]
