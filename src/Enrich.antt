-- ===== src/Enrich.antt =====
-- The reports that internal/scanner/enrich.go fills in: DNS, registration, certificate and performance.
pub mod Providers
pub mod Dns
pub mod Records
pub mod Whois
pub mod Run
pub mod Perf
mod Examples
use stackly.Base.{
  ℕ, zero, suc, ◌-◌, ◌*◌, ◌/◌, ◌^◌, Bool, Option, List, Bytes, ltb, leb, if◌then◌else◌,
}

pub record DnsMx : Type 0 where
  pub host : Bytes
  pub pref : ℕ

pub record DnsInfo : Type 0 where
  pub a : List Bytes
  pub aaaa : List Bytes
  pub mx : List DnsMx
  pub ns : List Bytes
  pub txt : List Bytes
  pub cname : Bytes
  pub email_provider : Bytes
  pub dns_provider : Bytes
  pub error : Bytes

-- A Go int that may be negative.
pub data ℤ : Type 0 where
  pos : ℕ → ℤ
  negsuc : ℕ → ℤ

unfoldable pub negative : ℕ → ℤ
negative zero = pos 0
negative (suc n) = negsuc n

-- A time.Duration goes no further than 2^63 nanoseconds.
abbrev pub cap : ℕ → ℕ
cap n = if ltb n (2 ^ 63) then n else 2 ^ 63 - 1

abbrev pub ns_per_day : ℕ
ns_per_day = 24 * 3600 * 1000000000

-- The whole days from one time to another, cut towards zero.
unfoldable pub days_between : ℕ → ℕ → ℤ
unfolding negative
days_between from to =
    if leb from to
    then pos (cap (to - from) / ns_per_day)
    else negative (cap (from - to) / ns_per_day)

pub record WhoisInfo : Type 0 where
  pub registrar : Bytes
  pub created_date : Bytes
  pub expiry_date : Bytes
  pub updated_date : Bytes
  pub status : List Bytes
  pub name_servers : List Bytes
  pub domain_age_days : ℤ
  pub days_to_expiry : ℤ
  pub rdap_endpoint : Bytes
  pub error : Bytes

-- Times count nanoseconds from year 1: 0 is the zero time.
pub record SslInfo : Type 0 where
  pub issuer : Bytes
  pub subject : Bytes
  pub not_before : ℕ
  pub not_after : ℕ
  pub days_until_expiry : ℤ
  pub san_count : ℕ
  pub self_signed : Bool
  pub tls_version : Bytes
  pub cipher_suite : Bytes
  pub error : Bytes

pub record PerfMetrics : Type 0 where
  pub ttfb : ℕ
  pub total_duration : ℕ
  pub html_size_bytes : ℕ
  pub js_bundle_size_bytes : ℕ
  pub css_bundle_size_bytes : ℕ
  pub script_count : ℕ
  pub stylesheet_count : ℕ
  pub inline_script_bytes : ℕ
  pub external_script_bytes : ℕ
  pub total_asset_bytes : ℕ
  pub headings_count : ℕ
  pub meta_tags_count : ℕ
  pub links_count : ℕ
  pub images_count : ℕ

-- The fields DNS, WHOIS, SSL and Perf of a ScanResult, which stand apart from the others here.
pub record Enrichment : Type 0 where
  pub dns : Option DnsInfo
  pub whois : Option WhoisInfo
  pub ssl : Option SslInfo
  pub perf : Option PerfMetrics
