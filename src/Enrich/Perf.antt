-- ===== src/Enrich/Perf.antt =====
-- computePerfMetrics of internal/scanner/enrich.go.
use stackly.Base.{
  ℕ, zero, suc, ◌+◌, ◌-◌, ◌/◌, ◌≤◌, ◌<◌, ◌≡◌, refl, ap, true, Option, none, some, List, [], ◌∷◌,
  Bytes, text, has_prefix, to_lower, length, take, drop, length-append, length-drop, if◌then◌else◌,
  Option-cases, inl, inr, arith,
}
use stackly.Base.Map.{Map}
use stackly.Base.Search.{contains, has_prefix_split, index}
use stackly.Enrich.{PerfMetrics}

-- strings.Count of a text that is not empty; `skip` bytes of the last occurrence are still to pass.
unfoldable pub count_from : Bytes → ℕ → Bytes → ℕ
count_from p skip [] = 0
count_from p (suc skip) (c ∷ s) = count_from p skip s
count_from p zero (c ∷ s) =
    let here = count_from p (length p - 1) s in
    let later = count_from p zero s in if has_prefix p (c ∷ s) then 1 + here else later

unfoldable pub count : Bytes → Bytes → ℕ
unfolding count_from
count p s = count_from p 0 s

pub record Scripts : Type 0 where
  pub inline : ℕ
  pub external : ℕ

abbrev pub add_block : Bytes → ℕ → Scripts → Scripts
add_block block j p =
    if contains block (text " src=")
    then record p { external = p.external + j }
    else record p { inline = p.inline + j }

-- The loop over the part of the page that is left; `none` is running out of rounds.
unfoldable pub scan_scripts : ℕ → Bytes → Scripts → Option Scripts
unfolding contains index
scan_scripts zero rest p = none
scan_scripts (suc n) rest p = elim (index (text "<script") rest) [
  | none ↦ some p
  | some i ↦ elim (index (text "</script>") (drop i rest)) [
    | none ↦ some p
    | some j ↦ scan_scripts n (drop (i + j + 9) rest) (add_block (take j (drop i rest)) j p)
  ]
]

abbrev pub no_scripts : Scripts
no_scripts = record { inline = 0; external = 0 }

-- Durations in milliseconds, as Milliseconds() cuts them.
abbrev ms : ℕ → ℕ
ms ns = ns / 1000000

abbrev metrics_of :
    Bytes → Bytes → List Bytes → List Bytes → ℕ → ℕ → ℕ → Map Bytes → Scripts → PerfMetrics
metrics_of html lower scripts css_links html_size ttfb total meta_tags p = record {
  ttfb = ms ttfb;
  total_duration = ms total;
  html_size_bytes = html_size;
  js_bundle_size_bytes = length html / 20;
  css_bundle_size_bytes = length html / 40;
  script_count = length scripts;
  stylesheet_count = length css_links;
  inline_script_bytes = p.inline;
  external_script_bytes = p.external;
  total_asset_bytes = html_size + length html / 20 + length html / 40;
  headings_count = count (text "<h1") lower + count (text "<h2") lower + count (text "<h3") lower;
  meta_tags_count = length meta_tags;
  links_count = count (text "<a ") lower + count (text "<a\t") lower + count (text "<link ") lower;
  images_count = count (text "<img ") lower + count (text "<img\t") lower;
}

-- `to_lower` is strings.ToLower on all of Unicode, which may change the length of a page.
-- A round passes at least the nine bytes of the closing tag, so that one round for each byte and one
-- more are enough.
unfoldable pub compute_perf_metrics :
    (Bytes → Bytes) → Bytes → List Bytes → List Bytes → ℕ → ℕ → ℕ → Map Bytes → Option PerfMetrics
unfolding count scan_scripts
compute_perf_metrics to_lower html scripts css_links html_size ttfb total meta_tags =
    let lower = to_lower html in
    elim (scan_scripts (suc (length lower)) lower no_scripts) [
      | none ↦ none
      | some p ↦ some (metrics_of html lower scripts css_links html_size ttfb total meta_tags p)
    ]

has_prefix-length : (p s : Bytes) → has_prefix p s ≡ true → length p ≤ length s
has_prefix-length p s h =
    let (rest, e) = has_prefix_split p s h in omega (arith, length-append p rest, ap length e)

-- An occurrence lies inside the text.
index-length : (p s : Bytes) (i : ℕ) → index p s ≡ some i → i + length p ≤ length s
unfolding index
index-length p [] i h = ground (arith, h, has_prefix-length p [])
index-length p (c ∷ s) i h = elim (Option-cases (index p s)) [
  | inl e ↦ ground (arith, h, e, has_prefix-length p (c ∷ s))
  | inr (j, e) ↦
      let ih = index-length p s j e in ground (arith, h, e, ih, has_prefix-length p (c ∷ s))
]

-- What two occurrences, the second behind the first, say of the rest of the page.
shrinks :
    (s : Bytes) (i j : ℕ)
    → index (text "<script") s ≡ some i
    → index (text "</script>") (drop i s) ≡ some j
    → (i + j + 9 ≤ length s) × (length (drop (i + j + 9) s) ≡ length s - (i + j + 9))
shrinks s i j hi hj = (
  omega (
    arith,
    index-length (text "<script") s i hi,
    index-length (text "</script>") (drop i s) j hj,
    length-drop i s,
  ),
  length-drop (i + j + 9) s,
)

block_adds :
    (block : Bytes) (j : ℕ) (p : Scripts)
    → (add_block block j p).inline + (add_block block j p).external ≡ p.inline + p.external + j
block_adds block j p = ground arith

scan_scripts-ends :
    (n : ℕ) (s : Bytes) (p : Scripts)
    → length s < n
    → (q : Scripts) × (scan_scripts n s p ≡ some q)
      × (q.inline + q.external ≤ p.inline + p.external + length s)
unfolding scan_scripts
scan_scripts-ends zero s p h = absurd (omega arith)
scan_scripts-ends (suc n) s p h = elim (Option-cases (index (text "<script") s)) [
  | inl e ↦ rw (e, scan_scripts) (p, refl, omega arith)
  | inr (i, e) ↦
      rw (e, scan_scripts)
        (elim (Option-cases (index (text "</script>") (drop i s))) [
          | inl e' ↦ rw e' (p, refl, omega arith)
          | inr (j, e') ↦
              let (le, left) = shrinks s i j e e' in
              let block = take j (drop i s) in
              let (q, eq, bound) =
                scan_scripts-ends n (drop (i + j + 9) s) (add_block block j p) (omega arith) in
              rw e' (q, eq, omega (arith, block_adds block j p))
        ])
]

-- The loop over the scripts always ends, for every page and however the page is lowered; the bytes that
-- it counts as inline and as external are together no more than those of the lowered page; and the
-- assets are at least the page.
pub compute_perf_metrics-ends :
    (to_lower : Bytes → Bytes) (html : Bytes) (scripts css_links : List Bytes) (ttfb total : ℕ)
    (meta_tags : Map Bytes)
    → (p : PerfMetrics) × (compute_perf_metrics to_lower html scripts css_links
          (length html)
          ttfb
          total
          meta_tags
        ≡ some p)
      × (p.inline_script_bytes + p.external_script_bytes ≤ length (to_lower html))
      × (p.html_size_bytes ≤ p.total_asset_bytes)
unfolding compute_perf_metrics
compute_perf_metrics-ends to_lower html scripts css_links ttfb total meta_tags =
    let lower = to_lower html in
    let (q, e, bound) = scan_scripts-ends (suc (length lower)) lower no_scripts (omega arith) in
    rw (e, compute_perf_metrics)
      (
        metrics_of html lower scripts css_links (length html) ttfb total meta_tags q,
        refl,
        omega (arith, bound),
        omega arith,
      )
