-- ===== src/Report/Pills.antt =====
-- renderTechPills and renderEmails of internal/report/report.go.
use stackly.Base.{
  ℕ, ◌-◌, Bool, not, ◌&&◌, ◌||◌, Option, none, some, List, [], ◌∷◌, ◌++◌, Bytes, ltb, leb,
  if◌then◌else◌,
}
use stackly.Base.Map.{Map, get, put}
use stackly.Base.Decimal.{show_nat}
use stackly.Scan.{Result}
use stackly.Report.{raw, html_escape, when, is_empty}

-- byCat and order.
pub record Groups : Type 0 where
  pub by_cat : Map (List Result)
  pub order : List Bytes

-- What a map of slices holds under a key: nil without one.
abbrev pub members : Option (List Result) → List Result
members none = []
members (some ts) = ts

abbrev pub note_category : Bytes → Option (List Result) → List Bytes → List Bytes
note_category cat none order = order ++ cat ∷ []
note_category cat (some ts) order = order

unfoldable pub group : Result → Groups → Groups
group t g =
    let cat = t.technology.category in
    let slot = get cat g.by_cat in
    record {
      by_cat = put cat (members slot ++ t ∷ []) g.by_cat;
      order = note_category cat slot g.order;
    }

unfoldable pub group_all : List Result → Groups → Groups
group_all [] g = g
group_all (t ∷ ts) g = group_all ts (group t g)

abbrev pub no_groups : Groups
no_groups = record { by_cat = []; order = [] }

unfoldable pub cat_names : Map Bytes
cat_names =
    (raw "webserver", raw "Web Servers")
    ∷ (raw "cdn", raw "CDN")
    ∷ (raw "cms", raw "CMS")
    ∷ (raw "framework", raw "Frameworks")
    ∷ (raw "analytics", raw "Analytics")
    ∷ (raw "database", raw "Databases")
    ∷ (raw "language", raw "Languages")
    ∷ (raw "security", raw "Security")
    ∷ (raw "ssl", raw "SSL/TLS")
    ∷ (raw "hosting", raw "Hosting")
    ∷ (raw "marketing", raw "Marketing")
    ∷ (raw "javascript", raw "JavaScript Libraries")
    ∷ []

abbrev is_lower : ℕ → Bool
is_lower c = leb b'a' c && leb c b'z'

-- strings.Title, on ASCII: a lower-case letter after a byte that is no letter, digit or underscore.
abbrev is_separator : ℕ → Bool
is_separator c =
    not ((is_lower c || (leb b'A' c && leb c b'Z')) || ((leb b'0' c && leb c b'9') || leb 128 c))
    && not (leb b'_' c && leb c b'_')

abbrev upper_after : ℕ → ℕ → ℕ
upper_after prev c = if is_separator prev && is_lower c then c - 32 else c

unfoldable pub title_from : ℕ → Bytes → Bytes
title_from prev [] = []
title_from prev (c ∷ s) = upper_after prev c ∷ title_from c s

unfoldable pub display_name : Bytes → Bytes
display_name cat = elim (get cat cat_names) [ some name ↦ name | none ↦ title_from b' ' cat ]

unfoldable pub pill_conf : Result → Bytes
pill_conf t =
    when (ltb 0 t.confidence && ltb t.confidence 100)
      (raw " <span class=\"pill-conf\">" ++ show_nat t.confidence ++ raw "%</span>")

unfoldable pub pill : Result → Bytes
pill t =
    if is_empty t.technology.website
    then raw "<span class=\"pill\">"
      ++ html_escape t.technology.name
      ++ pill_conf t
      ++ raw "</span>"
    else raw "<a class=\"pill pill-link\" href=\""
      ++ html_escape t.technology.website
      ++ raw "\" target=\"_blank\" rel=\"noopener\">"
      ++ html_escape t.technology.name
      ++ pill_conf t
      ++ raw "</a>"

unfoldable pub pills : List Result → Bytes
pills [] = []
pills (t ∷ ts) = pill t ++ pills ts

unfoldable pub category_blocks : Map (List Result) → List Bytes → Bytes
category_blocks by_cat [] = []
category_blocks by_cat (cat ∷ order) =
    raw "<div class=\"cat-block\"><h3 class=\"cat-title\">"
    ++ html_escape (display_name cat)
    ++ raw "</h3><div class=\"pills\">"
    ++ pills (members (get cat by_cat))
    ++ raw "</div></div>"
    ++ category_blocks by_cat order

unfoldable pub render_groups : Groups → Bytes
render_groups g = category_blocks g.by_cat g.order

unfoldable pub render_tech_pills : List Result → Bytes
render_tech_pills [] = raw "<div class=\"empty\">No technologies detected.</div>"
render_tech_pills (t ∷ ts) = render_groups (group_all (t ∷ ts) no_groups)

unfoldable pub email_pills : List Bytes → Bytes
email_pills [] = []
email_pills (e ∷ es) =
    raw "<a class=\"email-pill\" href=\"mailto:"
    ++ html_escape e
    ++ raw "\">"
    ++ html_escape e
    ++ raw "</a>"
    ++ email_pills es

unfoldable pub render_emails : List Bytes → Bytes
render_emails es = raw "<div class=\"emails\">" ++ email_pills es ++ raw "</div>"
