-- ===== src/Report/Examples.antt =====
-- Reports on concrete data.
use stackly.Base.{◌+◌, ◌≡◌, refl, none, some, List, [], ◌∷◌, Bytes, text, select, any, bytes_eq}
use stackly.Base.Map
use stackly.Base.Keys.{has, Nodup}
use stackly.Base.Decimal.{show_nat}
use stackly.Scan.{Result, ScanResult}
use stackly.Enrich.{pos, WhoisInfo}
use stackly.Report.{raw, html_escape, row, write_kv_list, human_bytes}
use stackly.Report.Cards.{render_expiry}
use stackly.Report.Pills.{members, group, group_all, no_groups, cat_names, title_from, display_name}
use stackly.Report.Page.{Data, Formats, render}
use stackly.Report.Markup.{markup, hide, hide_whois}
use stackly.Report.Untouched.{hide_result, hide_scan, hide_data, render-hide_data}
use stackly.Report.Groups.{in_cat, group_all-exact}
use stackly.Report.DataUrl.{hex_digit, is_escaped, escape_for_data_url}

escaped : html_escape (text "<a href='x'>\"&") ≡ text "&lt;a href=&#39;x&#39;&gt;&#34;&amp;"
unfolding html_escape
escaped = refl

kilobytes : human_bytes 1536 ≡ text "1.5 KB"
unfolding human_bytes raw show_nat
kilobytes = refl

-- 5243 bytes above 1 MB are nearer to 1.01 MB than to 1.00 MB.
megabytes : human_bytes (1048576 + 5243) ≡ text "1.01 MB"
unfolding human_bytes raw show_nat
megabytes = refl

titled : display_name (text "live-chat tool") ≡ text "Live-Chat Tool"
unfolding display_name title_from cat_names raw Map.get bytes_eq
titled = refl

-- Two lists under different labels look the same.
label_lost :
    write_kv_list (text "A Records") (text "10.0.0.1" ∷ [])
    ≡ write_kv_list (text "NS Records") (text "10.0.0.1" ∷ [])
unfolding write_kv_list
label_lost = refl

-- A certificate that ended an hour ago is shown as one that has 0 days left.
ended_today :
    render_expiry (text "2026-01-01") 7200000000000 3600000000000
    ≡ row "Expires" "v warn" (text "2026-01-01 (0 days)")
unfolding render_expiry raw show_nat
ended_today = refl

abbrev formats : Formats
formats = record {
  minute = λ t. text "2026-01-01 10:00 UTC";
  date = λ t. text "2026-01-01";
  rfc3339 = λ t. text "2026-01-01T10:00:00Z";
  duration = λ t. text "1.2s";
}

abbrev tech : Bytes → Bytes → Bytes → Result
tech name website category = record {
  technology = record {
    slug = text "t";
    name = name;
    website = website;
    category = category;
    icon = [];
    detectors = record {
      html = [];
      headers = [];
      scripts = [];
      cookies = [];
      url = [];
      js_globals = [];
      css = [];
      meta = [];
    };
    implies = [];
    excludes = [];
  };
  confidence = 50;
  matches = [];
}

abbrev page_of : Bytes → Bytes → Bytes → ScanResult
page_of url name email = record {
  url = url;
  html = [];
  headers = [];
  scripts = [];
  css_links = [];
  js_globals = [];
  meta_tags = [];
  cookies = [];
  results = tech name (text "http://t") (text "cms") ∷ [];
  emails = email ∷ [];
  scan_duration = 1200000000;
  error = none;
}

abbrev registered : Bytes → WhoisInfo
registered by = record {
  registrar = by;
  created_date = [];
  expiry_date = [];
  updated_date = [];
  status = by ∷ [];
  name_servers = [];
  domain_age_days = pos 3;
  days_to_expiry = pos 0;
  rdap_endpoint = [];
  error = [];
}

abbrev data_of : ScanResult → Bytes → Data
data_of r by = record {
  result = some r;
  enrichment = record { dns = none; whois = some (registered by); ssl = none; perf = none };
  job_id = text "7";
  generated = 5;
  server_url = [];
}

abbrev plain : Data
plain = data_of (page_of (text "http://a") (text "WordPress") (text "me@a.org")) (text "Acme")

abbrev hostile : Data
hostile =
    data_of (page_of (text "http://b/<script>") (text "\"><img>") (text "'onload='x'@b.org"))
      (text "</span><script>alert(1)</script>")

same_shape : hide_data hostile ≡ hide_data plain
unfolding hide_data hide_scan hide_result hide_whois hide
same_shape = refl

render-hide_data_example : markup (render formats 9 10 hostile) ≡ markup (render formats 9 10 plain)
render-hide_data_example = render-hide_data formats 9 10 hostile plain same_shape

abbrev found : List Result
found =
    tech (text "WordPress") [] (text "cms")
    ∷ tech (text "nginx") [] (text "webserver")
    ∷ tech (text "Ghost") [] (text "cms")
    ∷ []

ordered : (group_all found no_groups).order ≡ text "cms" ∷ text "webserver" ∷ []
unfolding group_all group Map.get Map.put bytes_eq
ordered = refl

group_all-exact_example :
    Nodup (group_all found no_groups).order
    × ((c : Bytes) → has c (group_all found no_groups).order ≡ any (in_cat c) found)
    × ((c : Bytes)
        → members (Map.get c (group_all found no_groups).by_cat) ≡ select (in_cat c) found)
group_all-exact_example = group_all-exact found

data_url : escape_for_data_url (text "<b>100%</b>#") ≡ text "<b>100%25</b>%23"
unfolding escape_for_data_url hex_digit is_escaped
data_url = refl
