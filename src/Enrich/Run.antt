-- ===== src/Enrich/Run.antt =====
-- enrichResult, extractHost and rootDomain of internal/scanner/scanner.go.
use stackly.Base.{
  ℕ, ◌-◌, ◌≡◌, refl, sym, ◌∙◌, true, false, not, Option, none, some, List, [], ◌∷◌, ◌++◌, Bytes,
  text, bytes_eq, length, drop, ltb, is_some, if◌then◌else◌, Bool-cases, inl, inr,
}
use stackly.Base.Search.{trim_suffix, split_by}
use stackly.Scan.{ScanResult}
use stackly.Enrich.{Enrichment}
use stackly.Enrich.Dns.{DohReply, query_dns}
use stackly.Enrich.Perf.{compute_perf_metrics, compute_perf_metrics-ends}
use stackly.Enrich.Whois.{RdapReply, Handshake, query_whois, query_ssl}

-- The hosts that are asked, url.QueryEscape, time.Parse, strings.ToLower, and the host name that url.Parse finds.
pub record Peers : Type 0 where
  pub doh : Bytes → DohReply
  pub rdap : Bytes → RdapReply
  pub dial : Bytes → Handshake
  pub escape : Bytes → Bytes
  pub parse_time : Bytes → Option ℕ
  pub to_lower : Bytes → Bytes
  pub hostname : Bytes → Option Bytes

unfoldable pub extract_host : Peers → Bytes → Bytes
extract_host w url = elim (w.hostname url) [ none ↦ [] | some h ↦ h ]

abbrev join_dot : List Bytes → Bytes
join_dot [] = []
join_dot (s ∷ ss) = let rest = join_dot ss in elim ss [ [] ↦ s | t ∷ ts ↦ s ++ b'.' ∷ rest ]

unfoldable pub root_domain : Bytes → Bytes
unfolding trim_suffix split_by
root_domain host =
    let h = trim_suffix (text ".") host in
    let parts = split_by b'.' h in
    if ltb (length parts) 2 then h else join_dot (drop (length parts - 2) parts)

abbrev pub not_enriched : Enrichment
not_enriched = record { dns = none; whois = none; ssl = none; perf = none }

abbrev at_domain {ℓ} : {A : Type ℓ} → Bytes → A → Option A
at_domain domain a = if bytes_eq domain [] then none else some a

-- The two goroutines fill different fields. `none` is a loop over the scripts that does not end.
unfoldable pub enrich_result : Peers → ℕ → ScanResult → Option Enrichment
enrich_result w now r =
    let host = extract_host w r.url in
    let domain = root_domain host in
    if bytes_eq host []
    then some not_enriched
    else elim (compute_perf_metrics w.to_lower r.html r.scripts r.css_links (length r.html)
        r.scan_duration r.scan_duration r.meta_tags) [
          | none ↦ none
          | some p ↦ some (record {
            dns = at_domain domain (query_dns w.escape w.doh domain);
            whois = at_domain domain (query_whois w.rdap w.parse_time now domain);
            ssl = some (query_ssl w.dial now host);
            perf = some p;
          })
        ]

at_domain-same {ℓ κ} :
    {A : Type ℓ} {B : Type κ} (domain : Bytes) (a : A) (b : B)
    → is_some (at_domain domain a) ≡ is_some (at_domain domain b)
at_domain-same domain a b = elim (Bool-cases (bytes_eq domain [])) [
  | inl e ↦ rw e refl
  | inr e ↦ rw e refl
]

enrich-host :
    (w : Peers) (now : ℕ) (r : ScanResult)
    → bytes_eq (extract_host w r.url) [] ≡ false
    → (e : Enrichment) × (enrich_result w now r ≡ some e)
      × (is_some e.ssl ≡ true)
      × (is_some e.perf ≡ true)
      × (is_some e.whois ≡ is_some e.dns)
unfolding enrich_result
enrich-host w now r h =
    let (p, ends, _, _) =
      compute_perf_metrics-ends w.to_lower r.html r.scripts r.css_links r.scan_duration
        r.scan_duration r.meta_tags in
    let domain = root_domain (extract_host w r.url) in
    let whois = query_whois w.rdap w.parse_time now domain in
    let dns = query_dns w.escape w.doh domain in
    rw (h, enrich_result)
      (rw (ends, enrich_result)
        (
          record {
            dns = at_domain domain dns;
            whois = at_domain domain whois;
            ssl = some (query_ssl w.dial now (extract_host w r.url));
            perf = some p;
          },
          refl,
          refl,
          refl,
          at_domain-same domain whois dns,
        ))

-- The enrichment always ends, whatever the peers answer. Without a host nothing is filled in; with one
-- the certificate and the performance are, and the records of the domain if the host has one.
pub enrich_result-ends :
    (w : Peers) (now : ℕ) (r : ScanResult)
    → (e : Enrichment) × (enrich_result w now r ≡ some e)
      × (is_some e.ssl ≡ not (bytes_eq (extract_host w r.url) []))
      × (is_some e.perf ≡ is_some e.ssl)
      × (is_some e.whois ≡ is_some e.dns)
unfolding enrich_result
enrich_result-ends w now r = elim (Bool-cases (bytes_eq (extract_host w r.url) [])) [
  | inl e ↦ rw (e, enrich_result) (not_enriched, refl, refl, refl, refl)
  | inr e ↦
      let (out, ends, ssl, perf, same) = enrich-host w now r e in
      (out, ends, rw e ssl, perf ∙ sym ssl, same)
]
