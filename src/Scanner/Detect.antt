-- ===== src/Scanner/Detect.antt =====
-- detect, matchPattern, GetImplied and FormatResults of internal/scanner/scanner.go. A confidence is a
-- natural number: the fingerprints have no negative one.
use stackly.Base.{
  ℕ, zero, suc, ◌+◌, ◌-◌, Bool, true, false, not, ◌&&◌, ◌||◌, Option, none, some, List, [], ◌∷◌,
  ◌++◌, Bytes, text, bytes_eq, to_lower, if◌then◌else◌, ◌==◌, leb,
}
use stackly.Base.Map
use stackly.Base.Map.{Map}
use stackly.Base.Fresh.{Fresh, add_all, start}
use stackly.Base.Search.{contains}
use stackly.Scan.{DetectionRule, Technology, Match, Result, ScanResult}

abbrev in_range : ℕ → ℕ → ℕ → Bool
in_range lo hi c = leb lo c && leb c hi

-- The characters of a token, which the name of a header is made of.
is_token : ℕ → Bool
is_token c =
    in_range b'a' b'z' c
    || (in_range b'A' b'Z' c || (in_range b'0' b'9' c || mark c (text "!#$%&'*+-.^_`|~")))
  where
    mark : ℕ → Bytes → Bool
    mark c [] = false
    mark c (m ∷ ms) = (c == m) || mark c ms

unfoldable all_token : Bytes → Bool
unfolding is_token
all_token [] = true
all_token (c ∷ s) = is_token c && all_token s

-- The Boolean tells whether the next letter is a capital.
recase : Bool → Bytes → Bytes
recase up [] = []
recase true (c ∷ s) = (if in_range b'a' b'z' c then c - 32 else c) ∷ recase (c == b'-') s
recase false (c ∷ s) = (if in_range b'A' b'Z' c then c + 32 else c) ∷ recase (c == b'-') s

-- textproto.CanonicalMIMEHeaderKey: a name with another character is left as it is.
unfoldable pub canonical : Bytes → Bytes
unfolding recase all_token
canonical s = if all_token s then recase true s else s

-- http.Header.Get: the first value, or an empty string.
unfoldable pub header_get : Bytes → Map (List Bytes) → Bytes
unfolding canonical
header_get k h = elim (Map.get (canonical k) h) [ none ↦ [] | some vs ↦ first vs ]
  where
    first : List Bytes → Bytes
    first [] = []
    first (v ∷ vs) = v

-- The matcher of regular expressions, pattern first; a pattern that does not compile matches nothing.
module _ (regex_match : Bytes → Bytes → Bool) where
  unfoldable pub match_pattern : Bytes → Bytes → Bytes → Bool
  match_pattern input pattern match_type =
      if bytes_eq pattern []
      then not (bytes_eq input [])
      else if bytes_eq match_type (text "exact")
      then bytes_eq input pattern
      else if bytes_eq match_type (text "regex")
      then regex_match pattern input
      else if bytes_eq match_type (text "exists")
      then not (bytes_eq input [])
      else contains input pattern

  unfoldable pub rule_matches : DetectionRule → Bytes → Bool
  unfolding match_pattern
  rule_matches rule input = match_pattern input rule.pattern rule.match

  -- A rule on the page's text: the HTML or the URL.
  unfoldable pub text_hit : Bytes → Bytes → Bytes → DetectionRule → Option Match
  unfolding rule_matches
  text_hit input type detail rule =
      if rule_matches rule input
      then some (record { type = type; rule = rule.pattern; detail = detail })
      else none

  -- The first entry that matches ends the loop.
  unfoldable pub list_hit : Bytes → List Bytes → DetectionRule → Option Match
  unfolding rule_matches
  list_hit type [] rule = none
  list_hit type (entry ∷ entries) rule =
      let rest = list_hit type entries rule in
      if rule_matches rule entry
      then some (record { type = type; rule = rule.pattern; detail = entry })
      else rest

  unfoldable pub header_hit : Map (List Bytes) → DetectionRule → Option Match
  unfolding rule_matches
  header_hit headers rule =
      let value = header_get rule.header headers in
      if not (bytes_eq value []) && (bytes_eq rule.pattern [] || rule_matches rule value)
      then some (record {
        type = text "header";
        rule = rule.header ++ (text ": " ++ rule.pattern);
        detail = value;
      })
      else none

  unfoldable pub meta_hit : Map Bytes → DetectionRule → Option Match
  unfolding rule_matches
  meta_hit tags rule = elim (Map.get (to_lower rule.name) tags) [
    | none ↦ none
    | some value ↦
        if rule_matches rule value
        then some (record {
          type = text "meta";
          rule = rule.name ++ (text "=" ++ rule.pattern);
          detail = value;
        })
        else none
  ]

-- The two variables of the loop over the technologies.
pub record Found : Type 0 where
  pub confidence : ℕ
  pub matches : List Match

unfoldable pub weight : DetectionRule → ℕ
weight rule = if rule.confidence == 0 then 100 else rule.confidence

unfoldable pub count_hit : DetectionRule → Option Match → Found → Found
unfolding weight
count_hit rule none f = f
count_hit rule (some m) f = record {
  confidence = f.confidence + weight rule;
  matches = f.matches ++ m ∷ [];
}

-- One of the eight loops.
unfoldable pub each_rule : (DetectionRule → Option Match) → List DetectionRule → Found → Found
unfolding count_hit
each_rule hit [] f = f
each_rule hit (rule ∷ rules) f = each_rule hit rules (count_hit rule (hit rule) f)

module _ (regex_match : Bytes → Bytes → Bool) where
  unfoldable pub detect_one : ScanResult → Technology → Found
  unfolding each_rule
  detect_one page tech =
      let d = tech.detectors in
      let rm = regex_match in
      each_rule (list_hit rm (text "cookie") page.cookies) d.cookies (
        each_rule (list_hit rm (text "js_global") page.js_globals) d.js_globals (
          each_rule (meta_hit rm page.meta_tags) d.meta (
            each_rule (text_hit rm page.url (text "url") (text "URL match")) d.url (
              each_rule (list_hit rm (text "css") page.css_links) d.css (
                each_rule (list_hit rm (text "script") page.scripts) d.scripts (
                  each_rule (header_hit rm page.headers) d.headers (
                    each_rule (text_hit rm page.html (text "html") (text "HTML match")) d.html
                      (record { confidence = 0; matches = [] }))))))))

  unfoldable pub detect : ScanResult → List Technology → List Result
  unfolding detect_one
  detect page [] = []
  detect page (tech ∷ techs) =
      let rest = detect page techs in
      let f = detect_one page tech in
      if f.confidence == 0
      then rest
      else record { technology = tech; confidence = f.confidence; matches = f.matches } ∷ rest

-- The map `detected` and the slice `implied`.
unfoldable pub slugs : List Result → List Bytes
slugs [] = []
slugs (r ∷ rs) = r.technology.slug ∷ slugs rs

unfoldable pub each_result : List Result → Fresh → Fresh
unfolding add_all
each_result [] s = s
each_result (r ∷ rs) s = each_result rs (add_all r.technology.implies s)

unfoldable pub get_implied : List Result → List Bytes
unfolding each_result slugs
get_implied results = (each_result results (start (slugs results))).out

-- `%-20s`: blanks up to twenty characters.
pad : ℕ → Bytes → Bytes
pad zero s = s
pad (suc n) [] = b' ' ∷ pad n []
pad (suc n) (c ∷ s) = c ∷ pad n s

format_matches : List Match → Bytes
format_matches [] = []
format_matches (m ∷ ms) =
    text "  [" ++ (m.type ++ (text "] " ++ (m.rule ++ (text "\n" ++ format_matches ms))))

format_each : List Result → Bytes
unfolding format_matches pad
format_each [] = []
format_each (r ∷ rs) =
    pad 20 r.technology.name
    ++ (text " "
        ++ (r.technology.category ++ (text "\n" ++ (format_matches r.matches ++ format_each rs))))

unfoldable pub format_results : List Result → Bytes
unfolding format_each
format_results [] = text "No technologies detected."
format_results (r ∷ rs) = format_each (r ∷ rs)
