-- ===== src/Report/Cards.antt =====
-- renderDNS, renderWHOIS, renderSSL and renderPerf of internal/report/report.go.
use stackly.Base.{
  ℕ, ◌-◌, ◌/◌, not, Option, none, some, List, [], ◌∷◌, ◌++◌, Bytes, ltb, if◌then◌else◌,
}
use stackly.Base.Decimal.{show_nat}
use stackly.Enrich.{
  ℤ, pos, negsuc, cap, ns_per_day, DnsMx, DnsInfo, WhoisInfo, SslInfo, PerfMetrics,
}
use stackly.Report.{
  raw, html_escape, when, is_empty, row, write_kv, write_kv_list, empty_card, human_bytes,
}

unfoldable pub mx_lines : List DnsMx → List Bytes
mx_lines [] = []
mx_lines (m ∷ ms) =
    if is_empty m.host
    then mx_lines ms
    else (m.host ++ raw " (pref " ++ show_nat m.pref ++ raw ")") ∷ mx_lines ms

unfoldable pub render_dns : Option DnsInfo → Bytes
render_dns none = empty_card (raw "DNS")
render_dns (some d) =
    raw "<div class=\"card\"><div class=\"card-title\">DNS</div>"
    ++ when (not (is_empty d.dns_provider)) (row "Provider" "v" (html_escape d.dns_provider))
    ++ write_kv_list (raw "A Records") d.a
    ++ write_kv_list (raw "AAAA Records") d.aaaa
    ++ write_kv_list (raw "NS Records") d.ns
    ++ write_kv_list (raw "TXT Records") d.txt
    ++ write_kv_list (raw "MX Records") (mx_lines d.mx)
    ++ when (not (is_empty d.email_provider))
        (row "Email Provider" "v" (html_escape d.email_provider))
    ++ when (not (is_empty d.error)) (row "Error" "v err" (html_escape d.error))
    ++ raw "</div>"

-- A number where it is positive, and 0 elsewhere.
abbrev pub positive : ℤ → ℕ
positive (pos n) = n
positive (negsuc n) = 0

unfoldable pub render_whois : Option WhoisInfo → Bytes
render_whois none = empty_card (raw "WHOIS")
render_whois (some w) =
    raw "<div class=\"card\"><div class=\"card-title\">WHOIS</div>"
    ++ write_kv (raw "Registrar") w.registrar
    ++ write_kv (raw "Created") w.created_date
    ++ write_kv (raw "Expires") w.expiry_date
    ++ write_kv (raw "Updated") w.updated_date
    ++ when (ltb 0 (positive w.domain_age_days))
        (row "Age" "v" (show_nat (positive w.domain_age_days) ++ raw " days"))
    ++ when (ltb 0 (positive w.days_to_expiry))
        (row "Expires in" "v" (show_nat (positive w.days_to_expiry) ++ raw " days"))
    ++ write_kv_list (raw "Status") w.status
    ++ write_kv_list (raw "Name Servers") w.name_servers
    ++ when (not (is_empty w.error)) (row "Error" "v err" (html_escape w.error))
    ++ raw "</div>"

-- The days until or since the end, cut towards zero: a certificate that ended less than a day ago has 0.
unfoldable pub render_expiry : Bytes → ℕ → ℕ → Bytes
render_expiry date now end =
    let left = cap (end - now) / ns_per_day in
    let gone = cap (now - end) / ns_per_day in
    if ltb 0 gone
    then row "Expires" "v err" (date ++ raw " (-" ++ show_nat gone ++ raw " days)")
    else if ltb left 30
    then row "Expires" "v warn" (date ++ raw " (" ++ show_nat left ++ raw " days)")
    else row "Expires" "v" (date ++ raw " (" ++ show_nat left ++ raw " days)")

-- `date` formats a time as 2006-01-02.
unfoldable pub render_ssl : (ℕ → Bytes) → ℕ → Option SslInfo → Bytes
render_ssl date now none = empty_card (raw "SSL / TLS")
render_ssl date now (some s) =
    raw "<div class=\"card\"><div class=\"card-title\">SSL / TLS</div>"
    ++ write_kv (raw "Issuer") s.issuer
    ++ write_kv (raw "Subject") s.subject
    ++ write_kv (raw "TLS Version") s.tls_version
    ++ write_kv (raw "Cipher") s.cipher_suite
    ++ when (ltb 0 s.san_count) (row "SAN Count" "v" (show_nat s.san_count))
    ++ when s.self_signed (row "Self-Signed" "v warn" (raw "Yes"))
    ++ when (ltb 0 s.not_after) (render_expiry (date s.not_after) now s.not_after)
    ++ when (not (is_empty s.error)) (row "Error" "v err" (html_escape s.error))
    ++ raw "</div>"

unfoldable pub render_perf : Option PerfMetrics → Bytes
render_perf none = empty_card (raw "Performance")
render_perf (some p) =
    raw "<div class=\"card\"><div class=\"card-title\">Performance</div>"
    ++ when (ltb 0 p.ttfb) (row "TTFB" "v" (show_nat p.ttfb ++ raw " ms"))
    ++ when (ltb 0 p.total_duration) (row "Total" "v" (show_nat p.total_duration ++ raw " ms"))
    ++ row "HTML Size" "v" (human_bytes p.html_size_bytes)
    ++ row "JS Bundle" "v" (human_bytes p.js_bundle_size_bytes)
    ++ row "CSS Bundle" "v" (human_bytes p.css_bundle_size_bytes)
    ++ row "Scripts" "v" (show_nat p.script_count)
    ++ row "Stylesheets" "v" (show_nat p.stylesheet_count)
    ++ row "Images" "v" (show_nat p.images_count)
    ++ row "Links" "v" (show_nat p.links_count)
    ++ row "Headings" "v" (show_nat p.headings_count)
    ++ raw "</div>"
