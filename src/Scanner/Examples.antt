-- ===== src/Scanner/Examples.antt =====
-- The scanner at work, and its theorems at concrete inputs.
use stackly.Base.{
  ◌<◌, ◌≡◌, ◌≢◌, refl, ◌↔◌, Bool, true, false, ◌&&◌, Option, none, some, List, [], ◌∷◌, Bytes, text,
  bytes_eq, has_prefix, to_lower, length, take, select, any, All, arith, if◌then◌else◌, ◌%◌,
}
use stackly.Base.Keys.{has, Nodup}
use stackly.Base.Map
use stackly.Base.Sort.{Sorted, sweep, rounds, exchange_sort}
use stackly.Base.SortKeys.{bytes_lt, keys}
use stackly.Base.Search.{contains, skip_space}
use stackly.Scan.{DetectionRule, Technology, ScanResult}
use stackly.Scanner.Detect.{
  text_hit, list_hit, header_hit, meta_hit, header_get, detect_one, detect,
}
use stackly.Scanner.Rules.{technologies, fires, Reports, detect-exact}
use stackly.Scanner.Agents.{new_scanner, user_agents, get_user_agent}
use stackly.Scanner.Rotation.{draw, turns, next-cycles}
use stackly.Scanner.Emails.{
  Json, string, array, object, nil, item, end, member, Patterns, is_valid_email, is_email_noise,
  is_contact, max_emails, walk, when_email, add_emails, extract_emails,
}
use stackly.Scanner.Contacts.{is_named, extract_emails-exact}
use stackly.Scanner.Walk.{Names, walk_iff}
use stackly.Scanner.Contact.{
  strip_tags, link_score, Link, Candidate, better, hrefs, Urls, candidate_of, max_contact_pages,
  Answer, page, redirect, fetched, find_contact_pages, fetch_contact_page, max_body,
}
use stackly.Scanner.Offers.{offers, first_offer}
use stackly.Scanner.Pages.{IsOwn, find_contact_pages-ranked, redirect_is_followed}
use stackly.Scanner.Append.{merge_all, next, section, finish, race}
use stackly.Scanner.Flow.{
  Browsed, Outcome, loaded, World, Scanned, scan_url, visit, crawl_for_emails,
}
use stackly.Scanner.Outcome.{CanDraw, IsScanOf, scan_url-IsScanOf}
use stackly.Scanner.Progress.{Tells, scan_url-Tells, first_page_is_silent}

abbrev no_regex : Bytes → Bytes → Bool
no_regex p s = false

abbrev rule : Bytes → DetectionRule
rule p = record { pattern = p; match = []; confidence = 0; name = []; header = text "server" }

abbrev nginx : Technology
nginx = record {
  slug = text "nginx";
  name = text "Nginx";
  website = [];
  category = text "webserver";
  icon = [];
  detectors = record {
    html = rule (text "nginx") ∷ [];
    headers = rule (text "ngi") ∷ [];
    scripts = [];
    cookies = [];
    url = [];
    js_globals = [];
    css = [];
    meta = [];
  };
  implies = text "linux" ∷ [];
  excludes = [];
}

abbrev front : ScanResult
front = record {
  url = text "http://x";
  html = text "<a>";
  headers = (text "Server", text "nginx/1.2" ∷ []) ∷ [];
  scripts = [];
  css_links = [];
  js_globals = [];
  meta_tags = [];
  cookies = [];
  results = [];
  emails = [];
  scan_duration = 0;
  error = none;
}

contains_runs : contains (text "abcabd") (text "abd") ≡ true
unfolding contains has_prefix
contains_runs = refl

header_found : header_get (text "sERVER") front.headers ≡ text "nginx/1.2"
unfolding header_get Map.get bytes_eq
header_found = refl

detected : (detect_one no_regex front nginx).confidence ≡ 100
unfolding detect_one text_hit list_hit header_hit meta_hit header_get Map.get bytes_eq contains
    has_prefix
detected = refl

detect-exact_example :
    (technologies (detect no_regex front (nginx ∷ [])) ≡ select (fires no_regex front) (nginx ∷ []))
    × All (Reports no_regex front) (detect no_regex front (nginx ∷ []))
detect-exact_example = detect-exact no_regex front (nginx ∷ [])

valid_runs :
    (is_valid_email (text "a@b.c") ≡ true)
    × (is_valid_email (text "a.b@") ≡ false)
    × (is_email_noise (text "icon@2x.png") ≡ true)
    × (is_email_noise (text "a@b.c") ≡ false)
unfolding is_valid_email is_email_noise contains has_prefix to_lower
valid_runs = (refl, refl, refl, refl)

-- Every source finds the same few strings.
abbrev found : Patterns
found = record {
  mailto = λ html. text " A@b.c" ∷ [];
  plaintext = λ html. text "a@b.c" ∷ text "x@example.com" ∷ [];
  data_attr = λ html. [];
  json_ld = λ html. [];
  ssr_script = λ html. [];
}

abbrev no_json : Bytes → Option Json
no_json s = none

extract_emails-exact_example :
    (all : List Bytes) × (extract_emails no_json found (text "<a>") ≡ take max_emails all)
    × Sorted bytes_lt all
    × Nodup all
    × ((k : Bytes) → has k all ≡ (is_contact k && is_named no_json found (text "<a>") k))
extract_emails-exact_example = extract_emails-exact no_json found (text "<a>")

abbrev document : Json
document = object (
    member (text "name") (string (text "x@y.z")) (
      member (text "contact")
        (array (item (object (member (text "Email") (string (text "a@b.c")) end)) nil)) end))

walk_runs : walk document ≡ text "a@b.c" ∷ []
unfolding walk when_email contains has_prefix bytes_eq to_lower
walk_runs = refl

walk_iff_example :
    (has (text "a@b.c") (walk document) ≡ true)
    ↔ (Names (text "a@b.c") document × (contains (text "a@b.c") (text "@") ≡ true))
walk_iff_example = walk_iff document (text "a@b.c")

-- URLs that are their own text, all on one host.
abbrev plain_urls : Urls
plain_urls = record {
  Url = Bytes;
  parse = λ s. some s;
  resolve = λ base s. some s;
  host = λ u. text "x";
  without_fragment = λ u. u;
}

abbrev links : Bytes → List Link
links html =
    record { href = text "/about"; label = text "About" }
    ∷ record { href = text "/contact"; label = text "Write" }
    ∷ []

find_contact_pages-ranked_example :
    (all : List Candidate) × (find_contact_pages plain_urls links (text "<a>") (text "http://x")
      ≡ hrefs (take max_contact_pages all))
    × Sorted better all
    × Nodup (hrefs all)
    × All (IsOwn plain_urls (text "http://x")) all
    × All (λ c. first_offer plain_urls (text "http://x") c.href (links (text "<a>")) ≡ some c) all
    × ((k : Bytes)
        → has k (hrefs all)
          ≡ any (λ l. offers k (candidate_of plain_urls (text "http://x") l)) (links (text "<a>")))
find_contact_pages-ranked_example =
    find_contact_pages-ranked plain_urls (text "http://x") links (text "<a>") (text "http://x") refl

abbrev inside : Bytes → Answer
inside url =
    if bytes_eq url (text "http://x/contact")
    then redirect (text "http://10.0.0.1/")
    else page 200 (text "secret")

inside_is_reached :
    fetch_contact_page inside (text "http://x/contact") ≡ fetched (take max_body (text "secret"))
unfolding bytes_eq
inside_is_reached =
    redirect_is_followed inside (text "http://x/contact") (text "http://10.0.0.1/") (text "secret")
      200 (λ e. cc) refl refl (omega arith, omega arith)

abbrev world : World
world = record {
  urls = plain_urls;
  regex_match = no_regex;
  unmarshal = no_json;
  patterns = record found {
    mailto = λ html. if bytes_eq html (text "in") then text "a@b.c" ∷ [] else [];
    plaintext = λ html. [];
  };
  find_links = links;
  serve = λ agent url. page 200 (text "in");
  render = λ url. none;
  draw = λ url. 0;
  turns = λ page. true ∷ false ∷ [];
}

abbrev browsed : Browsed
browsed = record {
  html = text "<a>";
  headers = [];
  scripts = [];
  css_links = [];
  meta_tags = [];
  js_globals = [];
  cookies = [];
}

abbrev run_browser : Bytes → Outcome
run_browser agent = loaded browsed

draws_in_range : CanDraw world new_scanner
unfolding new_scanner
draws_in_range = record { each = λ p. omega arith }

pool_has_agents : 0 < length new_scanner.pool.agents
unfolding new_scanner
pool_has_agents = omega arith

scan_url-IsScanOf_example :
    (agent : Bytes) × (c : Scanned) × (get_user_agent 0 new_scanner
      ≡ some (agent, record new_scanner { last_ua = agent }))
    × (scan_url world (nginx ∷ []) (text "7") (text "http://x") 0 5 run_browser new_scanner
        ≡ some c)
    × IsScanOf world
        (nginx ∷ [])
        (text "http://x")
        5
        (run_browser agent)
        (record new_scanner { last_ua = agent })
        c
scan_url-IsScanOf_example =
    scan_url-IsScanOf world (nginx ∷ []) (text "7") (text "http://x") 0 5 run_browser new_scanner
      pool_has_agents draws_in_range

scan_url-Tells_example :
    Tells
      (text "7")
      0
      (scan_url world (nginx ∷ []) (text "7") (text "http://x") 0 5 run_browser new_scanner)
scan_url-Tells_example =
    scan_url-Tells world (text "7") (nginx ∷ []) (text "http://x") 0 5 run_browser new_scanner

agents_cycle :
    (draw 14 (record { agents = user_agents; index = 0 % length user_agents })
      ≡ turns 14 0 user_agents)
    × (turns 14 0 user_agents ≢ none)
agents_cycle = next-cycles 14 0 user_agents (omega arith)

abbrev home : ScanResult
home = record front { html = text "<a>" }

contact_pages :
    find_contact_pages plain_urls links home.html home.url ≡ text "/about" ∷ text "/contact" ∷ []
unfolding find_contact_pages has keys sweep rounds bytes_eq has_prefix contains to_lower skip_space
    strip_tags link_score
contact_pages = refl

page_has_email : 0 < length (visit world (text "ua") (text "/about") [])
unfolding visit race finish merge_all fetch_contact_page extract_emails sweep rounds exchange_sort
    bytes_lt has bytes_eq has_prefix contains to_lower skip_space add_emails is_valid_email
    is_email_noise
page_has_email = omega arith

front_is_silent :
    (c : Scanned) × (crawl_for_emails world
        (text "7")
        home
        (record new_scanner { user_agent = text "ua" })
      ≡ some c)
    × (c.result.emails ≡ visit world (text "ua") (text "/about") [])
    × (length c.events ≡ 1)
unfolding new_scanner get_user_agent
front_is_silent =
    first_page_is_silent world (text "7") home (record new_scanner { user_agent = text "ua" })
      (record new_scanner { user_agent = text "ua"; last_ua = text "ua" }) (text "ua")
      (text "/about") (text "/contact") [] contact_pages refl refl page_has_email

-- Both goroutines of a page find the same address missing, and both append it.
kept_twice :
    race
      (true ∷ false ∷ true ∷ true ∷ true ∷ [])
      (next (text "a@b.c" ∷ []))
      (next (text "a@b.c" ∷ []))
      []
    ≡ text "a@b.c" ∷ text "a@b.c" ∷ []
unfolding race section finish merge_all has bytes_eq
kept_twice = refl

-- Both read the empty slice in `append`, so that the first assignment is lost.
lost :
    race
      (true ∷ true ∷ true ∷ false ∷ false ∷ false ∷ true ∷ [])
      (next (text "a@b.c" ∷ []))
      (next (text "d@e.f" ∷ []))
      []
    ≡ text "d@e.f" ∷ []
unfolding race section finish merge_all has bytes_eq
lost = refl
