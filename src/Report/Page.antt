-- ===== src/Report/Page.antt =====
-- Data, Render and minimalErrorPage of internal/report/report.go.
use stackly.Base.{ℕ, Option, none, some, [], ◌∷◌, ◌++◌, Bytes, ltb, length, if◌then◌else◌}
use stackly.Base.Decimal.{show_nat}
use stackly.Scan.{ScanResult}
use stackly.Enrich.{Enrichment}
use stackly.Report.{raw, html_escape, when, is_empty, render_section}
use stackly.Report.Cards.{render_dns, render_whois, render_ssl, render_perf}
use stackly.Report.Pills.{render_tech_pills, render_emails}
use stackly.Report.Styles.{report_css}

-- The enrichment of the result stands beside it.
pub record Data : Type 0 where
  pub result : Option ScanResult
  pub enrichment : Enrichment
  pub job_id : Bytes
  pub generated : ℕ
  pub server_url : Bytes

-- What package time prints: a time in UTC to the minute, as a date and as RFC 3339, and a duration
-- rounded to milliseconds.
pub record Formats : Type 0 where
  pub minute : ℕ → Bytes
  pub date : ℕ → Bytes
  pub rfc3339 : ℕ → Bytes
  pub duration : ℕ → Bytes

unfoldable pub minimal_error_page : Bytes → Bytes → Bytes
minimal_error_page msg ts =
    raw "<!DOCTYPE html><html><body><h1>Report unavailable</h1><p>"
    ++ html_escape msg
    ++ raw "</p><p>"
    ++ ts
    ++ raw "</p></body></html>"

unfoldable pub stat : Bytes → Bytes → Bytes → Bytes
stat label cls v =
    raw "<div class=\"hdr-stat\"><div class=\"hdr-stat-label\">"
    ++ label
    ++ raw "</div><div class=\""
    ++ cls
    ++ raw "\">"
    ++ v
    ++ raw "</div></div>"

-- The em dash is three bytes of UTF-8.
unfoldable pub render_header : Bytes → Bytes → Bytes → ScanResult → Bytes
render_header minute duration job_id r =
    raw "<!DOCTYPE html><html lang=\"en\"><head><meta charset=\"utf-8\">"
    ++ raw "<title>Stackly Report "
    ++ 226 ∷ 128 ∷ 148 ∷ []
    ++ raw " "
    ++ html_escape r.url
    ++ raw "</title><style>"
    ++ report_css
    ++ raw "</style></head><body><header class=\"hdr\">"
    ++ raw "<div class=\"hdr-row\"><div class=\"hdr-brand\">Stackly</div><div class=\"hdr-meta\">"
    ++ minute
    ++ raw "</div></div><h1 class=\"hdr-url\">"
    ++ html_escape r.url
    ++ raw "</h1><div class=\"hdr-stats\">"
    ++ stat (raw "Scan ID") (raw "hdr-stat-val mono") (html_escape job_id)
    ++ when (ltb 0 r.scan_duration) (stat (raw "Duration") (raw "hdr-stat-val") duration)
    ++ when (ltb 0 (length r.results))
        (stat (raw "Technologies") (raw "hdr-stat-val") (show_nat (length r.results)))
    ++ raw "</div></header>"

unfoldable pub render_footer : Bytes → Bytes
render_footer url =
    if is_empty url
    then raw "<footer class=\"ftr\">Generated by Stackly</footer>"
    else raw "<footer class=\"ftr\">Generated by <a href=\""
      ++ html_escape url
      ++ raw "\">"
      ++ html_escape url
      ++ raw "</a></footer>"

-- `now` and `later` are what time.Now returns here and in renderSSL.
unfoldable pub render : Formats → ℕ → ℕ → Data → Bytes
render f now later d =
    let generated = if ltb 0 d.generated then d.generated else now in
    elim d.result [
      | none ↦ minimal_error_page (raw "no result") (f.rfc3339 generated)
      | some r ↦
          render_header (f.minute generated) (f.duration r.scan_duration) d.job_id r
          ++ render_section (raw "Tech Stack") (raw "technologies") (render_tech_pills r.results)
          ++ raw "<section class=\"sec\"><h2>Enrichment</h2><div class=\"grid-2\">"
          ++ render_dns d.enrichment.dns
          ++ render_whois d.enrichment.whois
          ++ render_ssl f.date later d.enrichment.ssl
          ++ render_perf d.enrichment.perf
          ++ raw "</div></section>"
          ++ when (ltb 0 (length r.emails))
              (render_section (raw "Contact Emails") (raw "emails") (render_emails r.emails))
          ++ render_footer d.server_url
          ++ raw "</body></html>"
    ]
