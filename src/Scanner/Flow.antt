-- ===== src/Scanner/Flow.antt =====
-- ScanURL and crawlForEmails of internal/scanner/scanner.go. What the browser and the contact pages
-- return are arguments. The two goroutines of a contact page append to the same slice with no lock:
-- Append.antt has their sections, and `turns` how they follow each other.
use stackly.Base.{
  ℕ, Bool, true, false, Option, none, some, List, [], ◌∷◌, ◌++◌, Bytes, text, bytes_eq, length, ltb,
  if◌then◌else◌,
}
use stackly.Base.Map
use stackly.Base.Map.{Map}
use stackly.Base.Decimal.{show_nat}
use stackly.Scan.{Technology, Result, ScanResult}
use stackly.Scanner.Detect.{canonical, detect}
use stackly.Scanner.Agents.{Scanner, get_user_agent}
use stackly.Scanner.Append.{next, race}
use stackly.Scanner.Emails.{Json, Patterns, extract_emails}
use stackly.Scanner.Contact.{
  Link, Urls, Answer, Fetch, fetched, failed, find_contact_pages, fetch_contact_page,
}

-- One call of the callback.
pub record Progress : Type 0 where
  pub job_id : Bytes
  pub phase : Bytes
  pub progress : ℕ
  pub message : Bytes
  pub partial : List Result

-- What the browser collects from a page, the headers as they arrive.
pub record Browsed : Type 0 where
  pub html : Bytes
  pub headers : Map Bytes
  pub scripts : List Bytes
  pub css_links : List Bytes
  pub meta_tags : Map Bytes
  pub js_globals : List Bytes
  pub cookies : List Bytes

pub data Outcome : Type 0 where
  broken : Bytes → Outcome
  loaded : Browsed → Outcome

-- http.Header.Set for each header.
unfoldable pub set_headers : Map Bytes → Map (List Bytes) → Map (List Bytes)
unfolding canonical
set_headers [] h = h
set_headers ((k, v) ∷ m) h = set_headers m (Map.put (canonical k) (v ∷ []) h)

unfoldable pub start_result : Bytes → ScanResult
start_result url = record {
  url = url;
  html = [];
  headers = [];
  scripts = [];
  css_links = [];
  js_globals = [];
  meta_tags = [];
  cookies = [];
  results = [];
  emails = [];
  scan_duration = 0;
  error = none;
}

unfoldable pub collected : Bytes → ℕ → Browsed → ScanResult
unfolding set_headers start_result
collected url duration b = record (start_result url) {
  html = b.html;
  headers = set_headers b.headers [];
  scripts = b.scripts;
  css_links = b.css_links;
  meta_tags = b.meta_tags;
  js_globals = b.js_globals;
  cookies = b.cookies;
  scan_duration = duration;
}

-- The world that a scan meets: what the regular expressions find, what servers answer to an agent, the
-- page that the browser renders, what the generator draws for a contact page, and the turns of the two
-- goroutines that append its addresses.
pub record World : Type 1 where
  pub urls : Urls
  pub regex_match : Bytes → Bytes → Bool
  pub unmarshal : Bytes → Option Json
  pub patterns : Patterns
  pub find_links : Bytes → List Link
  pub serve : Bytes → Bytes → Answer
  pub render : Bytes → Option Bytes
  pub draw : Bytes → ℕ
  pub turns : Bytes → List Bool

pub record Crawl : Type 0 where
  pub emails : List Bytes
  pub scanner : Scanner

pub record Scanned : Type 0 where
  pub result : ScanResult
  pub events : List Progress
  pub scanner : Scanner

-- What is told when a scan reaches a phase.
unfoldable pub tell : Bytes → Bytes → ℕ → Bytes → List Result → Progress
tell job_id phase progress message partial = record {
  job_id = job_id;
  phase = phase;
  progress = progress;
  message = message;
  partial = partial;
}

unfoldable pub crawl_end : Bytes → Crawl → Bool → List Progress
unfolding tell
crawl_end job_id c ended =
    if ended
    then if ltb 0 (length c.emails)
      then tell job_id (text "detecting") 96
          (text "Found " ++ (show_nat (length c.emails) ++ text " email(s) via contact pages")) []
        ∷ []
      else []
    else []

-- What is told before the page is opened, and when it has been read.
unfoldable pub opening : Bytes → List Progress
unfolding tell
opening job_id = tell job_id (text "fetching") 20 (text "Opening page in headless browser") [] ∷ []

unfoldable pub matched : Bytes → List Result → List Progress
unfolding tell
matched job_id results =
    tell job_id (text "parsing") 60 (text "Parsing HTML, scripts, and JS globals") []
    ∷ tell job_id (text "detecting") 90
        (text "Matched " ++ (show_nat (length results) ++ text " technologies")) results
    ∷ []

-- What came before is told first.
abbrev pub preceded : List Progress → Option Scanned → Option Scanned
preceded events none = none
preceded events (some c) = some (record c { events = events ++ c.events })

module _ (w : World) where
  unfoldable pub extract : Bytes → List Bytes
  unfolding extract_emails
  extract html = extract_emails w.unmarshal w.patterns html

  unfoldable pub from_http : Fetch → List Bytes
  unfolding extract
  from_http failed = []
  from_http (fetched body) = if bytes_eq body [] then [] else extract body

  unfoldable pub from_browser : Option Bytes → List Bytes
  unfolding extract
  from_browser none = []
  from_browser (some html) = if bytes_eq html [] then [] else extract html

  -- The addresses after the two goroutines of a page.
  unfoldable pub visit : Bytes → Bytes → List Bytes → List Bytes
  unfolding from_http from_browser race
  visit agent page emails =
      race (w.turns page) (next (from_http (fetch_contact_page (w.serve agent) page)))
        (next (from_browser (w.render page))) emails

  -- The Boolean tells whether the loop came to its end; it is false after `return`.
  unfoldable pub each_page : List Bytes → Crawl → Option (Crawl × Bool)
  unfolding get_user_agent visit
  each_page [] c = some (c, true)
  each_page (page ∷ pages) c = elim (ltb 0 (length c.emails)) [
    | true ↦ some (c, false)
    | false ↦ elim (get_user_agent (w.draw page) c.scanner) [
      | none ↦ none
      | some (agent, s) ↦
          each_page pages (record { emails = visit agent page c.emails; scanner = s })
    ]
  ]

  abbrev pub crawled : Bytes → ScanResult → Option (Crawl × Bool) → Option Scanned
  crawled job_id r none = none
  crawled job_id r (some (c, ended)) = some (record {
    result = record r { emails = c.emails };
    events =
        tell job_id (text "detecting") 95 (text "Searching contact pages for emails") []
        ∷ crawl_end job_id c ended;
    scanner = c.scanner;
  })

  unfoldable pub crawl_candidates : Bytes → ScanResult → Scanner → List Bytes → Option Scanned
  unfolding each_page crawl_end tell
  crawl_candidates job_id r s [] = some (record { result = r; events = []; scanner = s })
  crawl_candidates job_id r s (page ∷ pages) =
      crawled job_id r (each_page (page ∷ pages) (record { emails = r.emails; scanner = s }))

  unfoldable pub crawl_for_emails : Bytes → ScanResult → Scanner → Option Scanned
  unfolding crawl_candidates
  crawl_for_emails job_id r s =
      crawl_candidates job_id r s (find_contact_pages w.urls w.find_links r.html r.url)

  -- The addresses of the page itself, or those of its contact pages.
  unfoldable pub find_emails : Bytes → ScanResult → Scanner → Option Scanned
  unfolding crawl_for_emails extract tell
  find_emails job_id r s =
      let emails = extract r.html in
      if ltb 0 (length emails)
      then some (record {
        result = record r { emails = emails };
        events =
            tell job_id (text "detecting") 95
              (text "Found " ++ (show_nat (length emails) ++ text " email(s)")) []
            ∷ [];
        scanner = s;
      })
      else crawl_for_emails job_id r s

  unfoldable pub after_page : List Technology → Bytes → ScanResult → Scanner → Option Scanned
  unfolding find_emails matched
  after_page db job_id r s =
      let results = detect w.regex_match r db in
      preceded (matched job_id results) (find_emails job_id (record r { results = results }) s)

  unfoldable pub after_run :
      List Technology → Bytes → Bytes → ℕ → Outcome → Scanner → Option Scanned
  unfolding after_page start_result collected
  after_run db job_id url duration (broken err) s = some (record {
    result = record (start_result url) { scan_duration = duration; error = some err };
    events = [];
    scanner = s;
  })
  after_run db job_id url duration (loaded b) s = after_page db job_id (collected url duration b) s

  -- `none` is the panic of a draw out of range. `run` is what the browser returns to an agent. The
  -- progress is told whether or not a callback is set.
  unfoldable pub scan_url :
      List Technology → Bytes → Bytes → ℕ → ℕ → (Bytes → Outcome) → Scanner → Option Scanned
  unfolding after_run get_user_agent opening
  scan_url db job_id url drawn duration run s = elim (get_user_agent drawn s) [
    | none ↦ none
    | some (agent, s') ↦ preceded (opening job_id) (after_run db job_id url duration (run agent) s')
  ]
