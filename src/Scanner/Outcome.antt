-- ===== src/Scanner/Outcome.antt =====
-- What ScanURL of internal/scanner/scanner.go returns, and the progress that it tells.
use stackly.Base.{
  ℕ, ◌<◌, ◌≡◌, refl, ap, Bool, true, false, ◌||◌, Option, none, some, List, [], ◌∷◌, ◌++◌, Bytes,
  text, bytes_eq, bytes_eq_iff, bytes_eq_refl, length, ltb, leb, if◌then◌else◌, Bool-cases, inl,
  inr, arith,
}
use stackly.Base.Keys.{has, has-snoc, has-take}
use stackly.Scan.{Technology, ScanResult}
use stackly.Scanner.Detect.{detect}
use stackly.Scanner.Agents.{Scanner, get_user_agent, random}
use stackly.Scanner.Rotation.{get_elem?-some}
use stackly.Scanner.Emails.{is_contact, max_emails}
use stackly.Scanner.Contacts.{extract_emails-exact}
use stackly.Scanner.Contact.{Fetch, fetched, failed, find_contact_pages, fetch_contact_page}
use stackly.Scanner.Append.{
  merge_unique, merge_all, Appender, next, unseen, room, appending, section, finish, race,
}
use stackly.Scanner.Flow.{
  Progress, Outcome, broken, loaded, start_result, collected, World, Crawl, Scanned, preceded,
  opening, matched, extract, from_http, from_browser, visit, each_page, tell, crawl_end, crawled,
  crawl_candidates, crawl_for_emails, find_emails, after_page, after_run, scan_url,
}

-- Each address passes the filters.
abbrev pub AreContacts : List Bytes → Type 0
AreContacts es = (k : Bytes) → has k es ≡ true → is_contact k ≡ true

-- So does each that a goroutine holds.
abbrev Holds : Appender → Type 0
Holds (next es) = AreContacts es
Holds (unseen e es) = (is_contact e ≡ true) × AreContacts es
Holds (room e es) = (is_contact e ≡ true) × AreContacts es
Holds (appending old e es) = (is_contact e ≡ true) × AreContacts es × AreContacts old

head-AreContacts : (e : Bytes) (es : List Bytes) → AreContacts (e ∷ es) → is_contact e ≡ true
unfolding has
head-AreContacts e es v = v e (ground (arith, bytes_eq_refl e))

tail-AreContacts : (e : Bytes) (es : List Bytes) → AreContacts (e ∷ es) → AreContacts es
unfolding has
tail-AreContacts e es v k m = v k (ground (arith, m))

snoc-AreContacts :
    (e : Bytes) (es : List Bytes)
    → is_contact e ≡ true
    → AreContacts es
    → AreContacts (es ++ e ∷ [])
snoc-AreContacts e es v h k m = elim (Bool-cases (has k es)) [
  | inl b ↦ h k b
  | inr b ↦ ground (arith, m, has-snoc e k es, b, v, bytes_eq_iff k e, bytes_eq_iff e k)
]

if-AreContacts :
    (b : Bool) (xs ys : List Bytes)
    → AreContacts xs
    → AreContacts ys
    → AreContacts (if b then xs else ys)
if-AreContacts true xs ys v h = v
if-AreContacts false xs ys v h = h

merge_all-AreContacts :
    (es dst : List Bytes) → AreContacts es → AreContacts dst → AreContacts (merge_all es dst)
unfolding merge_all merge_unique
merge_all-AreContacts [] dst v h = h
merge_all-AreContacts (e ∷ es) dst v h = merge_all-AreContacts es _ (tail-AreContacts e es v) (
    if-AreContacts (bytes_eq e []) _ _ h (
      if-AreContacts (has e dst) _ _ h (
        if-AreContacts (leb 20 (length dst)) _ _ h
          (snoc-AreContacts e dst (head-AreContacts e es v) h))))

finish-AreContacts :
    (a : Appender) (dst : List Bytes) → Holds a → AreContacts dst → AreContacts (finish a dst)
unfolding finish
finish-AreContacts (next es) dst v h = merge_all-AreContacts es dst v h
finish-AreContacts (unseen e es) dst (c, v) h =
    merge_all-AreContacts es _ v
      (if-AreContacts (leb 20 (length dst)) _ _ h (snoc-AreContacts e dst c h))
finish-AreContacts (room e es) dst (c, v) h =
    merge_all-AreContacts es _ v (snoc-AreContacts e dst c h)
finish-AreContacts (appending old e es) dst (c, v, o) h =
    merge_all-AreContacts es _ v (snoc-AreContacts e old c o)

section-AreContacts :
    (a : Appender) (dst : List Bytes)
    → Holds a
    → AreContacts dst
    → Holds (section a dst).0 × AreContacts (section a dst).1
unfolding section
section-AreContacts (next []) dst v h = (v, h)
section-AreContacts (next (e ∷ es)) dst v h = (
  elim (Bool-cases (bytes_eq e [] || has e dst)) [
    | inl b ↦ rw b (tail-AreContacts e es v)
    | inr b ↦ rw b (head-AreContacts e es v, tail-AreContacts e es v)
  ],
  h,
)
section-AreContacts (unseen e es) dst v h =
    (elim (Bool-cases (leb 20 (length dst))) [ inl b ↦ rw b v.1 | inr b ↦ rw b v ], h)
section-AreContacts (room e es) dst (c, v) h = ((c, v, h), h)
section-AreContacts (appending old e es) dst (c, v, o) h = (v, snoc-AreContacts e old c o)

-- However the sections of the two follow each other.
race-AreContacts :
    (turns : List Bool) (a b : Appender) (dst : List Bytes)
    → Holds a
    → Holds b
    → AreContacts dst
    → AreContacts (race turns a b dst)
unfolding race
race-AreContacts [] a b dst v w h = finish-AreContacts b _ w (finish-AreContacts a dst v h)
race-AreContacts (true ∷ turns) a b dst v w h =
    let (v', h') = section-AreContacts a dst v h in race-AreContacts turns _ b _ v' w h'
race-AreContacts (false ∷ turns) a b dst v w h =
    let (w', h') = section-AreContacts b dst w h in race-AreContacts turns a _ _ v w' h'

-- Each draw is an index into the pool of agents.
pub record CanDraw (w : World) (s : Scanner) : Type 0 where
  pub each : (page : Bytes) → w.draw page < length s.pool.agents

get_user_agent-some :
    (drawn : ℕ) (s : Scanner)
    → drawn < length s.pool.agents
    → (agent : Bytes) × (get_user_agent drawn s ≡ some (agent, record s { last_ua = agent }))
unfolding get_user_agent
get_user_agent-some drawn s h =
    let (agent, e) = picked s.rotate_ua in (agent, rw (e, get_user_agent) refl)
  where
    picked :
        (rotate : Bool)
        → (agent : Bytes) × ((if rotate then random drawn s.pool else some s.user_agent)
            ≡ some agent)
    picked true = unfold random in get_elem?-some s.pool.agents drawn h
    picked false = (s.user_agent, refl)

module _ (w : World) where
  extract-AreContacts : (html : Bytes) → AreContacts (extract w html)
  unfolding extract
  extract-AreContacts html =
      let (all, same, sorted, nodup, exact) = extract_emails-exact w.unmarshal w.patterns html in
      rw same (λ k m. ground (arith, has-take max_emails k all m, exact k))

  no_emails : AreContacts []
  unfolding has
  no_emails k m = cc

  from_http-AreContacts : (f : Fetch) → AreContacts (from_http w f)
  unfolding from_http
  from_http-AreContacts failed = no_emails
  from_http-AreContacts (fetched body) =
      if-AreContacts (bytes_eq body []) _ _ no_emails (extract-AreContacts body)

  from_browser-AreContacts : (o : Option Bytes) → AreContacts (from_browser w o)
  unfolding from_browser
  from_browser-AreContacts none = no_emails
  from_browser-AreContacts (some html) =
      if-AreContacts (bytes_eq html []) _ _ no_emails (extract-AreContacts html)

  visit-AreContacts :
      (agent page : Bytes) (es : List Bytes) → AreContacts es → AreContacts (visit w agent page es)
  unfolding visit
  visit-AreContacts agent page es h =
      let f = fetch_contact_page (w.serve agent) page in
      race-AreContacts (w.turns page) (next (from_http w f)) (next (from_browser w (w.render page)))
        es (from_http-AreContacts f) (from_browser-AreContacts (w.render page)) h

  each_page-total :
      (pages : List Bytes) (c : Crawl)
      → CanDraw w c.scanner
      → AreContacts c.emails
      → (d : Crawl) × (ended : Bool) × (each_page w pages c ≡ some (d, ended))
        × AreContacts d.emails
  unfolding each_page
  each_page-total [] c h g = (c, true, refl, g)
  each_page-total (page ∷ pages) c h g = elim (Bool-cases (ltb 0 (length c.emails))) [
    | inl e ↦ (c, false, rw (e, each_page) refl, g)
    | inr e ↦
        let (agent, a) = get_user_agent-some (w.draw page) c.scanner (h.each page) in
        let (d, ended, r, k) =
          each_page-total pages
            (record {
              emails = visit w agent page c.emails;
              scanner = record c.scanner { last_ua = agent };
            })
            (record { each = h.each }) (visit-AreContacts agent page c.emails g) in
        (d, ended, rw (e, each_page, a) r, k)
  ]

  -- The rest of a scan changes the addresses of the result and nothing else of it; and if the page has
  -- addresses, they are those of the page, and nothing is drawn.
  abbrev Finds : ScanResult → Scanner → Option Scanned → Type 0
  Finds r s o =
      (c : Scanned) × (o ≡ some c)
      × (c.result ≡ record r { emails = c.result.emails })
      × AreContacts c.result.emails
      × (0 < length (extract w r.html) → (c.result.emails ≡ extract w r.html) × (c.scanner ≡ s))

  crawl_candidates-Finds :
      (job_id : Bytes) (r : ScanResult) (s : Scanner) (pages : List Bytes)
      → CanDraw w s
      → r.emails ≡ []
      → ltb 0 (length (extract w r.html)) ≡ false
      → Finds r s (crawl_candidates w job_id r s pages)
  unfolding crawl_candidates
  crawl_candidates-Finds job_id r s [] h e none_here = (
    record { result = r; events = []; scanner = s },
    refl,
    refl,
    rw e no_emails,
    λ some_here. absurd (ground (arith, some_here, none_here)),
  )
  crawl_candidates-Finds job_id r s (page ∷ pages) h e none_here =
      let (d, ended, same, good) =
        each_page-total (page ∷ pages) (record { emails = r.emails; scanner = s })
          (record { each = h.each }) (rw e no_emails) in
      (
        record {
          result = record r { emails = d.emails };
          events =
              tell job_id (text "detecting") 95 (text "Searching contact pages for emails") []
              ∷ crawl_end job_id d ended;
          scanner = d.scanner;
        },
        ap (crawled w job_id r) same,
        refl,
        good,
        λ some_here. absurd (ground (arith, some_here, none_here)),
      )

  find_emails-Finds :
      (job_id : Bytes) (r : ScanResult) (s : Scanner)
      → CanDraw w s
      → r.emails ≡ []
      → Finds r s (find_emails w job_id r s)
  unfolding find_emails crawl_for_emails
  find_emails-Finds job_id r s h e = elim (Bool-cases (ltb 0 (length (extract w r.html)))) [
    | inl here ↦ rw here (_, refl, refl, extract-AreContacts r.html, λ _. (refl, refl))
    | inr none_here ↦ rw none_here (
        crawl_candidates-Finds job_id r s (find_contact_pages w.urls w.find_links r.html r.url) h e
          none_here)
  ]

  -- What a scan returns for what the browser returned. `s` is the scanner after the page's agent was
  -- picked.
  abbrev pub IsScanOf : List Technology → Bytes → ℕ → Outcome → Scanner → Scanned → Type 0
  IsScanOf db url duration (broken err) s c =
      (c.result ≡ record (start_result url) { scan_duration = duration; error = some err })
      × (c.scanner ≡ s)
  IsScanOf db url duration (loaded b) s c =
      (c.result ≡ record (collected url duration b) {
        results = detect w.regex_match (collected url duration b) db;
        emails = c.result.emails;
      })
      × AreContacts c.result.emails
      × (0 < length (extract w b.html) → (c.result.emails ≡ extract w b.html) × (c.scanner ≡ s))

  after_run-IsScanOf :
      (db : List Technology) (job_id url : Bytes) (duration : ℕ) (o : Outcome) (s : Scanner)
      → CanDraw w s
      → (c : Scanned) × (after_run w db job_id url duration o s ≡ some c)
        × IsScanOf db url duration o s c
  unfolding after_run after_page collected start_result
  after_run-IsScanOf db job_id url duration (broken err) s h = (_, refl, (refl, refl))
  after_run-IsScanOf db job_id url duration (loaded b) s h =
      let r = record (collected url duration b) {
        results = detect w.regex_match (collected url duration b) db;
      } in
      let (c, same, kept, good, own) = find_emails-Finds job_id r s h refl in
      (_, ap (preceded (matched job_id r.results)) same, (kept, good, own))

  told-IsScanOf :
      (db : List Technology) (url : Bytes) (duration : ℕ) (o : Outcome) (s : Scanner) (c : Scanned)
      (events : List Progress)
      → IsScanOf db url duration o s c
      → IsScanOf db url duration o s (record c { events = events ++ c.events })
  told-IsScanOf db url duration (broken err) s c events h = h
  told-IsScanOf db url duration (loaded b) s c events h = h

  -- With draws in range of the agents, `ScanURL` always returns, and it asks for the page as the agent
  -- that the settings pick. If the browser fails, the result has the error and nothing that was found;
  -- otherwise it has the page as the browser collected it, with its headers under their canonical
  -- names, and what `detect` finds on that page. Its addresses are those of the page itself if the page
  -- has any; in any case each passes the filters, however the two goroutines of a contact page take
  -- turns. The agent of the page is kept as the last one used if the browser fails or the page has
  -- addresses; else contact pages may pick others.
  pub scan_url-IsScanOf :
      (db : List Technology) (job_id url : Bytes) (drawn duration : ℕ) (run : Bytes → Outcome)
      (s : Scanner)
      → drawn < length s.pool.agents
      → CanDraw w s
      → (agent : Bytes) × (c : Scanned) × (get_user_agent drawn s
          ≡ some (agent, record s { last_ua = agent }))
        × (scan_url w db job_id url drawn duration run s ≡ some c)
        × IsScanOf db url duration (run agent) (record s { last_ua = agent }) c
  unfolding scan_url
  scan_url-IsScanOf db job_id url drawn duration run s d h =
      let (agent, e) = get_user_agent-some drawn s d in
      let (c, same, good) =
        after_run-IsScanOf db job_id url duration (run agent) (record s { last_ua = agent })
          (record { each = h.each }) in
      (
        agent,
        record c { events = opening job_id ++ c.events },
        e,
        rw (e, scan_url) (ap (preceded (opening job_id)) same),
        told-IsScanOf db url duration (run agent) (record s { last_ua = agent }) c (opening job_id)
            good,
      )
