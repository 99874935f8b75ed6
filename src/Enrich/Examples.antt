-- ===== src/Enrich/Examples.antt =====
-- Enrichment on concrete data.
use mathlib.Core.List.{Perm}
use stackly.Base.{
  ◌+◌, ◌≤◌, ◌≡◌, ◌↔◌, refl, Bool, true, false, none, some, [], ◌∷◌, Bytes, text, bytes_eq, length,
  All, map, has_prefix, to_lower,
}
use stackly.Base.Search.{contains, index, split_by, trim_suffix, has_suffix}
use stackly.Base.Sort.{Sorted}
use stackly.Base.Keys.{has}
use stackly.Scanner.Emails.{Json, Items}
use stackly.Enrich.{PerfMetrics}
use stackly.Enrich.Perf.{
  no_scripts, scan_scripts, count, compute_perf_metrics, compute_perf_metrics-ends,
}
use stackly.Enrich.Dns.{
  DohAnswer, DohReply, no_answer, answered, doh_query, parse_mx_data, answers_of, ask_all,
  any_answer, by_pref, query_dns,
}
use stackly.Enrich.Providers.{detect_dns_provider}
use stackly.Enrich.Records.{query_dns-exact}
use stackly.Enrich.Whois.{Rdap, whois_info, tls_version_string}
use stackly.Enrich.Run.{root_domain}

abbrev html : Bytes
html = text "<h1>a</h1><script src=x></script><a href=y><SCRIPT>let z</SCRIPT><script"

-- The first script is external, the second inline; the third is never closed.
scripts_found :
    scan_scripts 100 (to_lower html) no_scripts ≡ some (record { inline = 13; external = 14 })
unfolding scan_scripts index contains to_lower has_prefix
scripts_found = refl

links_counted : count (text "<a ") html ≡ 1
unfolding count has_prefix
links_counted = refl

compute_perf_metrics-ends_example :
    (p : PerfMetrics) × (compute_perf_metrics to_lower html
        (text "x" ∷ [])
        []
        (length html)
        7000000
        9000000
        []
      ≡ some p)
    × (p.inline_script_bytes + p.external_script_bytes ≤ length (to_lower html))
    × (p.html_size_bytes ≤ p.total_asset_bytes)
compute_perf_metrics-ends_example =
    compute_perf_metrics-ends to_lower html (text "x" ∷ []) [] 7000000 9000000 []

mx_parsed :
    parse_mx_data (text "10 mail.example.com.")
    ≡ record { host = text "mail.example.com"; pref = 10 }
unfolding parse_mx_data trim_suffix has_suffix has_prefix
mx_parsed = refl

mx_overflows : (parse_mx_data (text "70000 m.")).pref ≡ 0
unfolding parse_mx_data
mx_overflows = refl

abbrev answer : Bytes → DohAnswer
answer s = record { name = text "x"; type = 15; ttl = 60; «data» = s }

abbrev same : Bytes → Bytes
same s = s

-- The first endpoint is down for everything, the second answers for mail only.
abbrev doh : Bytes → DohReply
doh u = if_mail (bytes_eq u (text "https://dns.google/resolve?name=x.org&type=MX"))
  where
    if_mail : Bool → DohReply
    if_mail true =
        answered 200
          (some (answer (text "20 alt.x.org.") ∷ answer (text "5 aspmx.google.com.") ∷ []))
    if_mail false = no_answer

second_endpoint : (length (answers_of (doh_query same doh (text "x.org") (text "MX")))) ≡ 2
unfolding doh_query bytes_eq
second_endpoint = refl

mail_provider : (query_dns same doh (text "x.org")).email_provider ≡ text "Google Workspace"
unfolding query_dns bytes_eq
mail_provider = refl

query_dns-exact_example :
    Perm
      (query_dns same doh (text "x.org")).mx
      (map parse_mx_data (answers_of (ask_all same doh (text "x.org")).mx))
    × Sorted by_pref (query_dns same doh (text "x.org")).mx
    × All (λ t. length t ≤ 200) (query_dns same doh (text "x.org")).txt
    × ((bytes_eq (query_dns same doh (text "x.org")).error [] ≡ false)
        ↔ (any_answer (ask_all same doh (text "x.org")) ≡ false))
unfolding bytes_eq
query_dns-exact_example = query_dns-exact same doh (text "x.org") refl

name_servers_known : detect_dns_provider (text "ns1.AWSDNS-3.com" ∷ []) ≡ text "Amazon Route 53"
unfolding detect_dns_provider has_prefix
name_servers_known = refl

abbrev tuple : Bytes → Bytes → Json
tuple name v = Json.array (
    Items.item (Json.string name)
      (Items.item Json.other (Items.item Json.other (Items.item (Json.string v) Items.nil))))

abbrev answer_of_rdap : Rdap
answer_of_rdap = record {
  events =
      record { event_action = text "last changed"; event_date = text "b" }
      ∷ record { event_action = text "registration"; event_date = text "a" }
      ∷ record { event_action = text "last update of RDAP database"; event_date = text "c" }
      ∷ [];
  status = [];
  entities =
      record {
        roles = text "registrar" ∷ [];
        vcard = Json.array (
            Items.item (tuple (text "version") (text "4.0"))
              (Items.item (tuple (text "fn") (text "Acme")) Items.nil));
      }
      ∷ [];
  nameservers = text "ns.x.org." ∷ [];
}

registrar_found : (whois_info (λ s. none) 0 (text "r") answer_of_rdap).registrar ≡ text "Acme"
unfolding whois_info has
registrar_found = refl

first_change_kept : (whois_info (λ s. none) 0 (text "r") answer_of_rdap).updated_date ≡ text "b"
unfolding whois_info
first_change_kept = refl

version_unknown : tls_version_string 768 ≡ text "unknown (0x0300)"
unfolding tls_version_string
version_unknown = refl

two_labels : root_domain (text "a.b.co.") ≡ text "b.co"
unfolding root_domain trim_suffix has_suffix has_prefix split_by
two_labels = refl
