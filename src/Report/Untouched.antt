-- ===== src/Report/Untouched.antt =====
-- The markup of a whole page of internal/report/report.go does not depend on the texts of the scan.
use mathlib.Core.Option
use stackly.Base.{
  ℕ, ◌≡◌, refl, sym, ap, ◌∙◌, Option, none, some, List, [], ◌∷◌, ◌++◌, Bytes, map, length,
  Bool-cases, inl, inr, bytes_eq, suc, Option-cases,
}
use stackly.Base.Map.{Map, get, put}
use stackly.Scan.{Result, ScanResult}
use stackly.Report.{render_section}
use stackly.Report.Pills.{
  Groups, members, group, group_all, no_groups, pill_conf, pill, pills, category_blocks,
  render_groups, render_tech_pills, email_pills, render_emails, note_category,
}
use stackly.Report.Page.{Data, Formats, render, render_header, render_footer, stat}
use stackly.Report.Markup.{
  markup, hide, markup_rules, hide_dns, hide_whois, hide_ssl, render_dns-hide, render_whois-hide,
  render_ssl-hide,
}

-- A technology whose name and website are hidden. Its category is one of the database, and stays.
unfoldable pub hide_result : Result → Result
hide_result t = record t {
  technology = record t.technology {
    name = hide t.technology.name;
    website = hide t.technology.website;
  };
}

abbrev hide_slots : Map (List Result) → Map (List Result)
hide_slots [] = []
hide_slots ((k, ts) ∷ m) = (k, map hide_result ts) ∷ hide_slots m

get-hide :
    (k : Bytes) (m : Map (List Result))
    → get k (hide_slots m) ≡ Option.map (map hide_result) (get k m)
unfolding get
get-hide k [] = refl
get-hide k ((j, ts) ∷ m) = elim (Bool-cases (bytes_eq j k)) [
  | inl e ↦ rw e refl
  | inr e ↦ rw e (get-hide k m)
]

put-hide :
    (k : Bytes) (ts : List Result) (m : Map (List Result))
    → put k (map hide_result ts) (hide_slots m) ≡ hide_slots (put k ts m)
unfolding put
put-hide k ts [] = refl
put-hide k ts ((j, us) ∷ m) = elim (Bool-cases (bytes_eq j k)) [
  | inl e ↦ rw e refl
  | inr e ↦ rw e (ap (λ n. (j, map hide_result us) ∷ n) (put-hide k ts m))
]

map-snoc :
    (t : Result) (ts : List Result)
    → map hide_result ts ++ hide_result t ∷ [] ≡ map hide_result (ts ++ t ∷ [])
map-snoc t [] = refl
map-snoc t (u ∷ ts) = ap (λ l. hide_result u ∷ l) (map-snoc t ts)

abbrev hide_groups : Groups → Groups
hide_groups g = record { by_cat = hide_slots g.by_cat; order = g.order }

slot-hide :
    (t : Result) (o : Option (List Result))
    → members (Option.map (map hide_result) o) ++ hide_result t ∷ []
      ≡ map hide_result (members o ++ t ∷ [])
slot-hide t none = refl
slot-hide t (some ts) = map-snoc t ts

note-hide :
    (k : Bytes) (o : Option (List Result)) (ks : List Bytes)
    → note_category k (Option.map (map hide_result) o) ks ≡ note_category k o ks
note-hide k none ks = refl
note-hide k (some ts) ks = refl

group-hide :
    (t : Result) (g : Groups) → group (hide_result t) (hide_groups g) ≡ hide_groups (group t g)
unfolding group hide_result
group-hide t g = simp (get-hide, slot-hide, note-hide, put-hide)

group_all-hide :
    (ts : List Result) (g : Groups)
    → group_all (map hide_result ts) (hide_groups g) ≡ hide_groups (group_all ts g)
unfolding group_all
group_all-hide [] g = refl
group_all-hide (t ∷ ts) g =
    ap (group_all (map hide_result ts)) (group-hide t g) ∙ group_all-hide ts (group t g)

pill_conf-hide : (t : Result) → pill_conf (hide_result t) ≡ pill_conf t
unfolding pill_conf hide_result
pill_conf-hide t = refl

pill-hide : (t : Result) → markup (pill (hide_result t)) ≡ markup (pill t)
unfolding pill hide_result
pill-hide t = simp (markup_rules, pill_conf-hide)

pills-hide : (ts : List Result) → markup (pills (map hide_result ts)) ≡ markup (pills ts)
unfolding pills
pills-hide [] = refl
pills-hide (t ∷ ts) = simp (markup_rules, pill-hide, pills-hide ts)

members-hide :
    (o : Option (List Result))
    → members (Option.map (map hide_result) o) ≡ map hide_result (members o)
members-hide none = refl
members-hide (some ts) = refl

blocks-hide :
    (m : Map (List Result)) (ks : List Bytes)
    → markup (category_blocks (hide_slots m) ks) ≡ markup (category_blocks m ks)
unfolding category_blocks
blocks-hide m [] = refl
blocks-hide m (k ∷ ks) = simp (markup_rules, get-hide, members-hide, pills-hide, blocks-hide m ks)

pub render_tech_pills-hide :
    (ts : List Result)
    → markup (render_tech_pills (map hide_result ts)) ≡ markup (render_tech_pills ts)
unfolding render_tech_pills render_groups
render_tech_pills-hide [] = refl
render_tech_pills-hide (t ∷ ts) =
    let g = group_all (t ∷ ts) no_groups in
    ap (λ g. markup (render_groups g)) (group_all-hide (t ∷ ts) no_groups)
    ∙ blocks-hide g.by_cat g.order

email_pills-hide : (es : List Bytes) → markup (email_pills (map hide es)) ≡ markup (email_pills es)
unfolding email_pills
email_pills-hide [] = refl
email_pills-hide (e ∷ es) = simp (markup_rules, email_pills-hide es)

render_emails-hide :
    (es : List Bytes) → markup (render_emails (map hide es)) ≡ markup (render_emails es)
unfolding render_emails
render_emails-hide es = simp (markup_rules, email_pills-hide)

length-hide {ℓ} : {A : Type ℓ} (f : A → A) (xs : List A) → length (map f xs) ≡ length xs
length-hide f [] = refl
length-hide f (x ∷ xs) = ap suc (length-hide f xs)

unfoldable pub hide_scan : ScanResult → ScanResult
hide_scan r = record r {
  url = hide r.url;
  results = map hide_result r.results;
  emails = map hide r.emails;
}

-- The data of a report with every text of the scan and of the request hidden.
unfoldable pub hide_data : Data → Data
hide_data d = record {
  result = Option.map hide_scan d.result;
  enrichment = record {
    dns = Option.map hide_dns d.enrichment.dns;
    whois = Option.map hide_whois d.enrichment.whois;
    ssl = Option.map hide_ssl d.enrichment.ssl;
    perf = d.enrichment.perf;
  };
  job_id = hide d.job_id;
  generated = d.generated;
  server_url = hide d.server_url;
}

render_header-hide :
    (minute duration id : Bytes) (r : ScanResult)
    → markup (render_header minute duration (hide id) (hide_scan r))
      ≡ markup (render_header minute duration id r)
unfolding render_header hide_scan stat
render_header-hide minute duration id r = simp (markup_rules, length-hide)

render_footer-hide : (url : Bytes) → markup (render_footer (hide url)) ≡ markup (render_footer url)
unfolding render_footer
render_footer-hide url = simp markup_rules

render-hide :
    (f : Formats) (now later : ℕ) (d : Data)
    → markup (render f now later (hide_data d)) ≡ markup (render f now later d)
unfolding render hide_data render_section hide_scan
render-hide f now later d = elim (Option-cases d.result) [
  | inl e ↦ rw e refl
  | inr (r, e) ↦ rw e (
      simp (
        markup_rules, render_header-hide, render_footer-hide, render_emails-hide,
        render_tech_pills-hide, render_dns-hide, render_whois-hide, render_ssl-hide, length-hide,
      ))
]

-- Two reports whose data differ only in texts of the scan and of the request, with the same texts empty
-- and the same categories, have the same markup: the bytes <, > and the quotes, in their order.
pub render-hide_data :
    (f : Formats) (now later : ℕ) (d e : Data)
    → hide_data d ≡ hide_data e
    → markup (render f now later d) ≡ markup (render f now later e)
render-hide_data f now later d e h =
    sym (render-hide f now later d)
    ∙ ap (λ x. markup (render f now later x)) h
    ∙ render-hide f now later e
