-- ===== src/Scanner/Pages.antt =====
-- Which pages FindContactPages of internal/scanner/contact.go returns, and what FetchContactPage does.
use stackly.Base.{
  ℕ, zero, suc, ◌+◌, ◌≤◌, ◌<◌, ◌≡◌, ◌≢◌, refl, sym, ◌∙◌, Bool, true, false, ◌||◌, Option, none,
  some, List, [], ◌∷◌, Bytes, bytes_eq, bytes_eq_iff, bytes_eq-false, length, take, any, to_lower,
  All, All-append, ltb, leb, take-all, length-take, if◌then◌else◌, ◌==◌, Bool-cases, Option-cases,
  inl, inr, arith,
}
use stackly.Base.Keys.{has, Nodup, has-snoc, snoc-Nodup}
use stackly.Base.Fresh.{has_cons}
use stackly.Base.Sort.{exchange_sort, Sorted, exchange_sort-Sorted, exchange_sort-All}
use stackly.Base.SortKeys.{keys, keys-snoc, has-exchange_sort, exchange_sort-Nodup}
use stackly.Base.Search.{trim_space}
use stackly.Scanner.Offers.{offers, first_offer, collect-first}
use stackly.Scanner.Contact.{
  strip_tags, has_web_prefix, max_contact_pages, Link, Candidate, Pages, better, hrefs, link_score,
  Urls, candidate_of, add_page, collect, best_pages, find_contact_pages, Answer, page, redirect,
  unreachable, fetched, failed, follow, max_body, read_answer, fetch_contact_page,
}

points : (a b : Bool) → (if a then 2 else 0) + (if b then 5 else 0) ≤ 7
points true true = omega arith
points true false = omega arith
points false true = omega arith
points false false = omega arith

some_points :
    (a b : Bool)
    → (((if a then 2 else 0) + (if b then 5 else 0)) == 0) ≡ false
    → 2 ≤ (if a then 2 else 0) + (if b then 5 else 0)
some_points true b h = omega arith
some_points false true h = omega arith
some_points false false h = cc

link_score_range :
    (label href : Bytes)
    → (link_score label href == 0) ≡ false
    → (2 ≤ link_score label href) × (link_score label href ≤ 7)
unfolding link_score
link_score_range label href h = (some_points _ _ h, points _ _)

module _ (urls : Urls) (base : urls.Url) where
  -- A page of the same host as the base, and the points for its link.
  abbrev pub IsOwn : Candidate → Type 0
  IsOwn c =
      (u : urls.Url) × (urls.without_fragment u ≡ c.href)
      × (urls.host u ≡ urls.host base)
      × (2 ≤ c.score)
      × (c.score ≤ 7)

  abbrev OwnOption : Option Candidate → Type 0
  OwnOption none = Unit
  OwnOption (some c) = IsOwn c

  candidate_of-IsOwn : (l : Link) → OwnOption (candidate_of urls base l)
  unfolding candidate_of
  candidate_of-IsOwn l =
      let raw = trim_space l.href in
      let label = strip_tags (to_lower l.label) in
      let score = link_score label (to_lower raw) in
      elim (Bool-cases (has_web_prefix raw)) [
        | inr no_web ↦ rw no_web tt
        | inl web ↦ elim (Bool-cases (score == 0)) [
          | inl zero_score ↦ rw (web, zero_score) tt
          | inr scored ↦ elim (Option-cases (urls.resolve base raw)) [
            | inl none_there ↦ rw (web, scored, none_there, candidate_of) tt
            | inr (u, found) ↦ elim (Bool-cases (bytes_eq (urls.host u) (urls.host base))) [
              | inl own ↦
                  let (lo, hi) = link_score_range label (to_lower raw) scored in
                  rw (web, scored, found, candidate_of, own)
                    (u, refl, (bytes_eq_iff (urls.host u) (urls.host base)).0 own, lo, hi)
              | inr foreign ↦ rw (web, scored, found, candidate_of, foreign) tt
            ]
          ]
        ]
      ]

  record IsKept (p : Pages) : Type 0 where
    nodup : Nodup (hrefs p.candidates)
    same : (k : Bytes) → has k p.seen ≡ has k (hrefs p.candidates)
    own : All IsOwn p.candidates

  has-add_page :
      (k : Bytes) (o : Option Candidate) (p : Pages)
      → IsKept p
      → has k (hrefs (add_page urls o p).candidates) ≡ (has k (hrefs p.candidates) || offers k o)
  unfolding add_page
  has-add_page k none p h = ground arith
  has-add_page k (some c) p h =
      let snoc = has-snoc c.href k (hrefs p.candidates) in
      elim (Bool-cases (has c.href p.seen)) [
        | inl e ↦ rw e (ground (arith, h.same c.href, bytes_eq_iff k c.href))
        | inr e ↦ rw (e, keys-snoc (λ (x : Candidate). x.href) p.candidates c) snoc
      ]

  add_page-IsKept :
      (o : Option Candidate) (p : Pages) → OwnOption o → IsKept p → IsKept (add_page urls o p)
  unfolding add_page
  add_page-IsKept none p w h = h
  add_page-IsKept (some c) p w h = elim (Bool-cases (has c.href p.seen)) [
    | inl e ↦ rw e h
    | inr e ↦
        let e' : has c.href (hrefs p.candidates) ≡ false = sym (h.same c.href) ∙ e in
        let snoc = keys-snoc (λ (x : Candidate). x.href) p.candidates c in
        rw e (record {
          nodup = rw snoc (snoc-Nodup c.href (hrefs p.candidates) e' h.nodup);
          same = λ k. rw snoc (
              ground (
                arith,
                has-snoc c.href k (hrefs p.candidates),
                has_cons k c.href p.seen,
                h.same k,
              ));
          own = All-append IsOwn p.candidates (c ∷ []) h.own (w, tt);
        })
  ]

  collect-IsKept : (ls : List Link) (p : Pages) → IsKept p → IsKept (collect urls base ls p)
  unfolding collect
  collect-IsKept [] p h = h
  collect-IsKept (l ∷ ls) p h =
      collect-IsKept ls (add_page urls (candidate_of urls base l) p)
        (add_page-IsKept (candidate_of urls base l) p (candidate_of-IsOwn l) h)

  has-collect :
      (k : Bytes) (ls : List Link) (p : Pages)
      → IsKept p
      → has k (hrefs (collect urls base ls p).candidates)
        ≡ (has k (hrefs p.candidates) || any (λ l. offers k (candidate_of urls base l)) ls)
  unfolding collect
  has-collect k [] p h = ground arith
  has-collect k (l ∷ ls) p h =
      let o = candidate_of urls base l in
      ground (
        arith,
        has-add_page k o p h,
        has-collect k ls (add_page urls o p) (add_page-IsKept o p (candidate_of-IsOwn l) h),
      )

  -- The pages that `FindContactPages` returns on a base that parses are the first two of a list that
  -- is ranked by points, higher points first, and that has exactly the addresses that some link offers,
  -- each once, with the points of the first link that offers it. Each of them is on the base's host and
  -- has two to seven points.
  pub find_contact_pages-ranked :
      (find_links : Bytes → List Link) (html base_url : Bytes)
      → urls.parse base_url ≡ some base
      → (all : List Candidate) × (find_contact_pages urls find_links html base_url
          ≡ hrefs (take max_contact_pages all))
        × Sorted better all
        × Nodup (hrefs all)
        × All IsOwn all
        × All (λ c. first_offer urls base c.href (find_links html) ≡ some c) all
        × ((k : Bytes)
            → has k (hrefs all) ≡ any (λ l. offers k (candidate_of urls base l)) (find_links html))
  unfolding find_contact_pages best_pages
  find_contact_pages-ranked find_links html base_url parsed =
      let none_yet : Pages = record { seen = []; candidates = [] } in
      let start : IsKept none_yet =
        unfold keys has in record { nodup = tt; same = λ k. refl; own = tt } in
      let links = find_links html in
      let found = collect urls base links none_yet in
      let kept = collect-IsKept links none_yet start in
      let all = exchange_sort better found.candidates in
      (
        all,
        rw (parsed, find_contact_pages)
            (elim (Bool-cases (ltb max_contact_pages (length all))) [
              | inl e ↦ rw e refl
              | inr e ↦ rw (e, take-all max_contact_pages all (ground arith)) refl
            ]),
        exchange_sort-Sorted better (λ a b h. ground arith) (λ a b c h k. ground arith)
            found.candidates,
        exchange_sort-Nodup (λ (x : Candidate). x.href) better found.candidates kept.nodup,
        exchange_sort-All IsOwn better found.candidates kept.own,
        exchange_sort-All (λ c. first_offer urls base c.href links ≡ some c) better found.candidates
            (collect-first urls base [] links none_yet
              (unfold has in record { seen = λ k. refl; first = tt })),
        λ k.
            has-exchange_sort (λ (x : Candidate). x.href) better k found.candidates
            ∙ (has-collect k links none_yet start ∙ empty k links),
      )
    where
      empty :
          (k : Bytes) (links : List Link)
          → (has k (hrefs []) || any (λ l. offers k (candidate_of urls base l)) links)
            ≡ any (λ l. offers k (candidate_of urls base l)) links
      empty k links = unfold keys has in refl

length-follow :
    (serve : Bytes → Answer) (left : ℕ) (url : Bytes) → length (follow serve left url).0 ≤ left + 1
unfolding follow
length-follow serve zero url = omega arith
length-follow serve (suc left) url = go (serve url) (length-follow serve left)
  where
    go :
        (a : Answer)
        → ((next : Bytes) → length (follow serve left next).0 ≤ left + 1)
        → length
            (elim a as (λ _. List Bytes × Answer) [
              | redirect next ↦ let r = follow serve left next in (url ∷ r.0, r.1)
              | unreachable ↦ (url ∷ [], unreachable)
              | page status body ↦ (url ∷ [], page status body)
            ]).0
          ≤ suc left + 1
    go (redirect next) ih = omega (arith, ih next)
    go unreachable ih = omega arith
    go (page status body) ih = omega arith

read_answer-bounded :
    (a : Answer) (body : Bytes) → read_answer a ≡ fetched body → length body ≤ max_body
unfolding read_answer
read_answer-bounded unreachable body e = cc
read_answer-bounded (redirect next) body e = cc
read_answer-bounded (page status sent) body e =
    elim (Bool-cases (ltb status 200 || leb 300 status)) [
      | inl refused ↦ let impossible : failed ≡ fetched body = rw refused at e in cc
      | inr passed ↦
          let same : fetched (take max_body sent) ≡ fetched body = rw passed at e in
          let same' : take max_body sent ≡ body = cc in
          rw (← same') (omega (arith, length-take max_body sent))
    ]

-- What the fetch of a contact page returns has at most 2 MiB, and it comes after at most three requests.
pub fetch_contact_page-bounded :
    (serve : Bytes → Answer) (url body : Bytes)
    → fetch_contact_page serve url ≡ fetched body
    → (length body ≤ max_body) × (length (follow serve 2 url).0 ≤ 3)
unfolding fetch_contact_page
fetch_contact_page-bounded serve url body e = (
  elim (Bool-cases (bytes_eq url [])) [
    | inl none_given ↦
        let same : fetched [] ≡ fetched body = rw none_given at e in
        let same' : [] ≡ body = cc in rw (← same') (omega arith)
    | inr given ↦ read_answer-bounded (follow serve 2 url).1 body (rw given at e)
  ],
  length-follow serve 2 url,
)

-- A redirect is followed to whatever address it names: what the page returns there is the result.
pub redirect_is_followed :
    (serve : Bytes → Answer) (url target body : Bytes) (status : ℕ)
    → url ≢ []
    → serve url ≡ redirect target
    → serve target ≡ page status body
    → (200 ≤ status) × (status < 300)
    → fetch_contact_page serve url ≡ fetched (take max_body body)
unfolding fetch_contact_page follow read_answer
redirect_is_followed serve url target body status ne first second range =
    rw (bytes_eq-false url [] ne, first, second, follow) (ground arith)
