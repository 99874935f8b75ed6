-- ===== src/Scanner/Contact.antt =====
-- internal/scanner/contact.go: the links that look like contact pages, and the fetch of one. The parser
-- of net/url and the regular expression for links are parameters.
use stackly.Base.{
  ℕ, zero, suc, ◌+◌, ◌*◌, Bool, true, false, not, ◌&&◌, ◌||◌, Option, none, some, List, [], ◌∷◌,
  ◌++◌, map, Bytes, text, bytes_eq, has_prefix, to_lower, length, take, select, any, ltb, leb,
  if◌then◌else◌, ◌==◌,
}
use stackly.Base.Keys.{has}
use stackly.Base.Search.{contains, split_by, trim_space, is_space}
use stackly.Base.Sort.{exchange_sort}
use stackly.Base.SortKeys.{keys}

abbrev pub max_contact_pages : ℕ
max_contact_pages = 2

abbrev contact_keywords : List Bytes
contact_keywords =
    text "contact"
    ∷ text "kontak"
    ∷ text "hubungi"
    ∷ text "tentang"
    ∷ text "about"
    ∷ text "team"
    ∷ text "staff"
    ∷ text "author"
    ∷ text "profil"
    ∷ text "profile"
    ∷ text "get in touch"
    ∷ text "reach us"
    ∷ text "write to us"
    ∷ text "customer service"
    ∷ text "support"
    ∷ text "help"
    ∷ text "redaksi"
    ∷ text "kotak pos"
    ∷ text "kotakpos"
    ∷ []

abbrev contact_href_fragments : List Bytes
contact_href_fragments =
    text "/contact"
    ∷ text "/kontak"
    ∷ text "/hubungi"
    ∷ text "/tentang"
    ∷ text "/about"
    ∷ text "/team"
    ∷ text "/staff"
    ∷ text "/author"
    ∷ text "/profile"
    ∷ text "/customer-service"
    ∷ text "/support"
    ∷ text "/help"
    ∷ text "contact-us"
    ∷ text "contact.php"
    ∷ text "contact.html"
    ∷ text "kontak-kami"
    ∷ text "hubungi-kami"
    ∷ text "tentang-kami"
    ∷ text "/redaksi"
    ∷ text "/kotak-pos"
    ∷ text "/kotakpos"
    ∷ text "/karir"
    ∷ []

-- `<[^>]*>` is replaced by a blank; a `<` that is never closed stays. The Boolean tells whether the
-- text stands inside a tag.
replace_tags : Bool → Bytes → Bytes
replace_tags inside [] = []
replace_tags true (c ∷ s) = replace_tags (not (c == b'>')) s
replace_tags false (c ∷ s) =
    let opens = (c == b'<') && any (λ d. d == b'>') s in
    (if opens then b' ' else c) ∷ replace_tags opens s

-- strings.Fields, on ASCII.
fields : Bytes → List Bytes
unfolding split_by
fields s =
    select (λ w. not (bytes_eq w [])) (split_by b' ' (map (λ c. if is_space c then b' ' else c) s))

join : Bytes → List Bytes → Bytes
join sep [] = []
join sep (w ∷ []) = w
join sep (w ∷ v ∷ ws) = w ++ (sep ++ join sep (v ∷ ws))

unfoldable pub strip_tags : Bytes → Bytes
unfolding replace_tags fields join
strip_tags s = join (text " ") (fields (replace_tags false s))

pub record Link : Type 0 where
  pub href : Bytes
  pub label : Bytes

pub record Candidate : Type 0 where
  pub href : Bytes
  pub score : ℕ

unfoldable pub has_web_prefix : Bytes → Bool
has_web_prefix raw =
    has_prefix (text "http://") raw
    || (has_prefix (text "https://") raw
        || (has_prefix (text "/") raw
            || (has_prefix (text "./") raw || has_prefix (text "../") raw)))

-- Two points for a word in the label, five for a part of the address.
unfoldable pub link_score : Bytes → Bytes → ℕ
link_score label href =
    (if any (contains label) contact_keywords then 2 else 0)
    + (if any (contains href) contact_href_fragments then 5 else 0)

-- `seen` and `candidates`.
pub record Pages : Type 0 where
  pub seen : List Bytes
  pub candidates : List Candidate

abbrev pub better : Candidate → Candidate → Bool
better a b = ltb b.score a.score

abbrev pub hrefs : List Candidate → List Bytes
hrefs = keys (λ c. c.href)

-- What the code uses of net/url: a URL's host, its text without the fragment, and the resolution of a
-- reference.
pub record Urls : Type 1 where
  pub Url : Type 0
  pub parse : Bytes → Option Url
  pub resolve : Url → Bytes → Option Url
  pub host : Url → Bytes
  pub without_fragment : Url → Bytes

module _ (urls : Urls) where
  -- What a link is worth; `none` where the loop goes on to the next.
  unfoldable pub candidate_of : urls.Url → Link → Option Candidate
  unfolding has_web_prefix link_score strip_tags trim_space
  candidate_of base link =
      let raw = trim_space link.href in
      let score = link_score (strip_tags (to_lower link.label)) (to_lower raw) in
      if not (has_web_prefix raw)
      then none
      else if score == 0
      then none
      else elim (urls.resolve base raw) [
        | none ↦ none
        | some u ↦
            if bytes_eq (urls.host u) (urls.host base)
            then some (record { href = urls.without_fragment u; score = score })
            else none
      ]

  unfoldable pub add_page : Option Candidate → Pages → Pages
  add_page none p = p
  add_page (some c) p =
      if has c.href p.seen
      then p
      else record { seen = c.href ∷ p.seen; candidates = p.candidates ++ c ∷ [] }

  unfoldable pub collect : urls.Url → List Link → Pages → Pages
  unfolding candidate_of add_page
  collect base [] p = p
  collect base (l ∷ ls) p = collect base ls (add_page (candidate_of base l) p)

  unfoldable pub best_pages : List Candidate → List Bytes
  unfolding exchange_sort keys
  best_pages cs =
      let sorted = exchange_sort better cs in
      hrefs
        (if ltb max_contact_pages (length sorted) then take max_contact_pages sorted else sorted)

  -- `find_links` is the regular expression for links.
  unfoldable pub find_contact_pages : (Bytes → List Link) → Bytes → Bytes → List Bytes
  unfolding collect best_pages
  find_contact_pages find_links html base_url = elim (urls.parse base_url) [
    | none ↦ []
    | some base ↦
        best_pages
          (collect base (find_links html) (record { seen = []; candidates = [] })).candidates
  ]

-- What a server answers to one request.
pub data Answer : Type 0 where
  unreachable : Answer
  redirect : Bytes → Answer
  page : ℕ → Bytes → Answer

pub data Fetch : Type 0 where
  fetched : Bytes → Fetch
  failed : Fetch

-- The client follows a redirect while fewer than three requests have been made. `left` counts the
-- requests that may still be made, and the result has the addresses requested, in order.
unfoldable pub follow : (Bytes → Answer) → ℕ → Bytes → List Bytes × Answer
follow serve zero url = (url ∷ [], serve url)
follow serve (suc left) url = elim (serve url) [
  | redirect next ↦ let r = follow serve left next in (url ∷ r.0, r.1)
  | unreachable ↦ (url ∷ [], unreachable)
  | page status body ↦ (url ∷ [], page status body)
]

abbrev pub max_body : ℕ
max_body = 2 * 1024 * 1024

-- A redirect that is not followed is an answer with a status of 3xx.
unfoldable pub read_answer : Answer → Fetch
read_answer unreachable = failed
read_answer (redirect next) = failed
read_answer (page status body) =
    if ltb status 200 || leb 300 status then failed else fetched (take max_body body)

unfoldable pub fetch_contact_page : (Bytes → Answer) → Bytes → Fetch
unfolding follow read_answer
fetch_contact_page serve url =
    if bytes_eq url [] then fetched [] else read_answer (follow serve 2 url).1
