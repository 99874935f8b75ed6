-- ===== src/Scanner/Progress.antt =====
-- The progress that ScanURL of internal/scanner/scanner.go tells.
use stackly.Base.{
  ℕ, ◌≤◌, ◌<◌, ◌≡◌, refl, ap, Bool, true, false, Option, none, some, List, [], ◌∷◌, Bytes, text,
  length, ltb, lt→ltb, Bool-cases, Option-cases, inl, inr, arith,
}
use stackly.Scan.{Technology, Result, ScanResult}
use stackly.Scanner.Agents.{Scanner, get_user_agent}
use stackly.Scanner.Contact.{find_contact_pages}
use stackly.Scanner.Flow.{
  Progress, Outcome, broken, loaded, World, Crawl, Scanned, opening, matched, preceded, tell,
  crawl_end, extract, visit, crawled, crawl_candidates, each_page, crawl_for_emails, find_emails,
  after_page, after_run, scan_url,
}

-- Every event is about the job, none is behind the one before, and none is past 96 percent.
abbrev pub Rising : Bytes → ℕ → List Progress → Type 0
Rising job_id low [] = Unit
Rising job_id low (e ∷ es) =
    (e.job_id ≡ job_id) × (low ≤ e.progress) × (e.progress ≤ 96) × Rising job_id e.progress es

abbrev pub Tells : Bytes → ℕ → Option Scanned → Type 0
Tells job_id low none = Unit
Tells job_id low (some c) = Rising job_id low c.events

module _ (w : World) (job_id : Bytes) where
  crawl_end-Rising : (c : Crawl) (ended : Bool) → Rising job_id 95 (crawl_end job_id c ended)
  unfolding crawl_end tell
  crawl_end-Rising c false = tt
  crawl_end-Rising c true = elim (Bool-cases (ltb 0 (length c.emails))) [
    | inl e ↦ rw e (refl, omega arith, omega arith, tt)
    | inr e ↦ rw e tt
  ]

  crawled-Tells :
      (r : ScanResult) (o : Option (Crawl × Bool)) → Tells job_id 90 (crawled w job_id r o)
  unfolding tell
  crawled-Tells r none = tt
  crawled-Tells r (some (c, ended)) = (refl, omega arith, omega arith, crawl_end-Rising c ended)

  crawl_candidates-Tells :
      (r : ScanResult) (s : Scanner) (pages : List Bytes)
      → Tells job_id 90 (crawl_candidates w job_id r s pages)
  unfolding crawl_candidates
  crawl_candidates-Tells r s [] = tt
  crawl_candidates-Tells r s (page ∷ pages) =
      crawled-Tells r (each_page w (page ∷ pages) (record { emails = r.emails; scanner = s }))

  find_emails-Tells : (r : ScanResult) (s : Scanner) → Tells job_id 90 (find_emails w job_id r s)
  unfolding find_emails crawl_for_emails tell
  find_emails-Tells r s = elim (Bool-cases (ltb 0 (length (extract w r.html)))) [
    | inl e ↦ rw e (refl, omega arith, omega arith, tt)
    | inr e ↦
        rw e (crawl_candidates-Tells r s (find_contact_pages w.urls w.find_links r.html r.url))
  ]

  matched-Tells :
      (results : List Result) (o : Option Scanned)
      → Tells job_id 90 o
      → Tells job_id 20 (preceded (matched job_id results) o)
  unfolding matched tell
  matched-Tells results none h = tt
  matched-Tells results (some c) h =
      (refl, omega arith, omega arith, (refl, omega arith, omega arith, h))

  opening-Tells :
      (o : Option Scanned) → Tells job_id 20 o → Tells job_id 0 (preceded (opening job_id) o)
  unfolding opening tell
  opening-Tells none h = tt
  opening-Tells (some c) h = (refl, omega arith, omega arith, h)

  after_run-Tells :
      (db : List Technology) (url : Bytes) (duration : ℕ) (o : Outcome) (s : Scanner)
      → Tells job_id 20 (after_run w db job_id url duration o s)
  unfolding after_run after_page
  after_run-Tells db url duration (broken err) s = tt
  after_run-Tells db url duration (loaded b) s = matched-Tells _ _ (find_emails-Tells _ s)

  -- The progress that `ScanURL` tells never goes back, is always about the job that is scanned, and
  -- stays at or below 96 percent, whatever the page and its contact pages return.
  pub scan_url-Tells :
      (db : List Technology) (url : Bytes) (drawn duration : ℕ) (run : Bytes → Outcome)
      (s : Scanner)
      → Tells job_id 0 (scan_url w db job_id url drawn duration run s)
  unfolding scan_url
  scan_url-Tells db url drawn duration run s = elim (Option-cases (get_user_agent drawn s)) [
    | inl e ↦ rw (e, scan_url) tt
    | inr ((agent, t), e) ↦
        rw (e, scan_url) (opening-Tells _ (after_run-Tells db url duration (run agent) t))
  ]

  -- Where the first of two contact pages has an address, the scan finds it and never tells so: the
  -- loop returns at the second page, before the event.
  pub first_page_is_silent :
      (r : ScanResult) (s t : Scanner) (agent page other : Bytes) (pages : List Bytes)
      → find_contact_pages w.urls w.find_links r.html r.url ≡ page ∷ other ∷ pages
      → get_user_agent (w.draw page) s ≡ some (agent, t)
      → r.emails ≡ []
      → 0 < length (visit w agent page [])
      → (c : Scanned) × (crawl_for_emails w job_id r s ≡ some c)
        × (c.result.emails ≡ visit w agent page [])
        × (length c.events ≡ 1)
  unfolding crawl_for_emails crawl_candidates crawl_end tell
  first_page_is_silent r s t agent page other pages found drawn none_yet some_there = (
    record {
      result = record r { emails = visit w agent page [] };
      events =
          tell job_id (text "detecting") 95 (text "Searching contact pages for emails") [] ∷ [];
      scanner = t;
    },
    rw (found, crawl_candidates, none_yet) (ap (crawled w job_id r) loop),
    refl,
    refl,
  )
    where
      after_first : Crawl
      after_first = record { emails = visit w agent page []; scanner = t }

      second : each_page w (other ∷ pages) after_first ≡ some (after_first, false)
      second =
          unfold each_page in
          rw (lt→ltb 0 (length (visit w agent page [])) some_there, each_page) refl

      loop :
          each_page w (page ∷ other ∷ pages) (record { emails = []; scanner = s })
          ≡ some (after_first, false)
      loop = unfold each_page in rw (drawn, each_page) second
