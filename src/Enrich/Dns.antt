-- ===== src/Enrich/Dns.antt =====
-- dohQuery, QueryDNS and parseMXData of internal/scanner/enrich.go.
use stackly.Base.{
  ℕ, ◌+◌, ◌-◌, ◌*◌, Bool, ◌&&◌, ◌||◌, Option, none, some, List, [], ◌∷◌, ◌++◌, Bytes, text,
  bytes_eq, length, map, reverse, select, ltb, leb, ◌==◌, is_some, if◌then◌else◌,
}
use stackly.Base.Search.{trim_suffix, is_space}
use stackly.Base.Sort.{exchange_sort}
use stackly.Enrich.{DnsMx, DnsInfo}
use stackly.Enrich.Providers.{detect_email_provider, detect_dns_provider}

pub record DohAnswer : Type 0 where
  pub name : Bytes
  pub type : ℕ
  pub ttl : ℕ
  pub «data» : Bytes

-- What a GET of an endpoint gives: no answer, or a status and the answers that the body holds if it is
-- JSON of the right form.
pub data DohReply : Type 0 where
  no_answer : DohReply
  answered : ℕ → Option (List DohAnswer) → DohReply

abbrev pub doh_endpoints : List Bytes
doh_endpoints = text "https://cloudflare-dns.com/dns-query" ∷ text "https://dns.google/resolve" ∷ []

-- `none` is the error that all endpoints failed.
unfoldable pub read_reply : DohReply → Option (List DohAnswer)
read_reply no_answer = none
read_reply (answered status body) = if status == 200 then body else none

abbrev or_else {ℓ} : {A : Type ℓ} → Option A → Option A → Option A
or_else none o = o
or_else (some a) o = some a

module _ (escape : Bytes → Bytes) (peer : Bytes → DohReply) where
  unfoldable pub try_endpoints : List Bytes → Bytes → Bytes → Option (List DohAnswer)
  unfolding read_reply
  try_endpoints [] domain typ = none
  try_endpoints (e ∷ es) domain typ =
      let u = e ++ text "?name=" ++ escape domain ++ text "&type=" ++ typ in
      or_else (read_reply (peer u)) (try_endpoints es domain typ)

  unfoldable pub doh_query : Bytes → Bytes → Option (List DohAnswer)
  unfolding try_endpoints
  doh_query = try_endpoints doh_endpoints

-- strings.Fields; `word` is what was read of a word.
unfoldable pub fields_from : Bytes → Bytes → List Bytes
fields_from [] [] = []
fields_from (b ∷ word) [] = (b ∷ word) ∷ []
fields_from [] (c ∷ s) = if is_space c then fields_from [] s else fields_from (c ∷ []) s
fields_from (b ∷ word) (c ∷ s) =
    let next = fields_from [] s in
    let same = fields_from (b ∷ word ++ c ∷ []) s in if is_space c then (b ∷ word) ∷ next else same

-- fmt.Sscanf with %d into a uint16: the digits in front, and 0 where there are none or too many.
unfoldable pub digits_from : ℕ → Bytes → ℕ
digits_from n [] = n
digits_from n (c ∷ s) =
    let rest = digits_from (10 * n + (c - b'0')) s in if leb b'0' c && leb c b'9' then rest else n

unfoldable pub scan_uint16 : Bytes → ℕ
unfolding digits_from
scan_uint16 s = let n = digits_from 0 s in if ltb n 65536 then n else 0

abbrev dot : Bytes
dot = text "."

abbrev mx_of_fields : Bytes → List Bytes → DnsMx
mx_of_fields s (pref ∷ host ∷ more) = record {
  host = trim_suffix dot host;
  pref = scan_uint16 pref;
}
mx_of_fields s parts = record { host = trim_suffix dot s; pref = 0 }

unfoldable pub parse_mx_data : Bytes → DnsMx
unfolding fields_from scan_uint16 trim_suffix
parse_mx_data s = mx_of_fields s (fields_from [] s)

-- strings.Trim(s, "\"").
unfoldable pub skip_quotes : Bytes → Bytes
skip_quotes [] = []
skip_quotes (c ∷ s) = if c == b'"' then skip_quotes s else c ∷ s

unfoldable pub trim_quotes : Bytes → Bytes
unfolding skip_quotes
trim_quotes s = reverse (skip_quotes (reverse (skip_quotes s)))

abbrev pub data_of : DohAnswer → Bytes
data_of a = a.«data»

-- results[typ]: empty where the query failed.
abbrev pub answers_of : Option (List DohAnswer) → List Bytes
answers_of none = []
answers_of (some found) = map data_of found

abbrev pub by_pref : DnsMx → DnsMx → Bool
by_pref m n = ltb m.pref n.pref

abbrev pub is_short : Bytes → Bool
is_short t = leb (length t) 200

-- The answers of the five queries.
pub record Answers : Type 0 where
  pub a : Option (List DohAnswer)
  pub aaaa : Option (List DohAnswer)
  pub mx : Option (List DohAnswer)
  pub ns : Option (List DohAnswer)
  pub txt : Option (List DohAnswer)

abbrev pub any_answer : Answers → Bool
any_answer r = ((is_some r.a || is_some r.aaaa) || (is_some r.mx || is_some r.ns)) || is_some r.txt

unfoldable pub dns_info : Answers → DnsInfo
unfolding parse_mx_data exchange_sort trim_suffix trim_quotes detect_email_provider
    detect_dns_provider
dns_info r =
    let mx = exchange_sort by_pref (map parse_mx_data (answers_of r.mx)) in
    let ns = map (trim_suffix dot) (answers_of r.ns) in
    let txt = select is_short (map trim_quotes (answers_of r.txt)) in
    record {
      a = answers_of r.a;
      aaaa = answers_of r.aaaa;
      mx = mx;
      ns = ns;
      txt = txt;
      cname = [];
      email_provider = detect_email_provider mx txt;
      dns_provider = detect_dns_provider ns;
      error = if any_answer r then [] else text "all DNS queries failed";
    }

abbrev pub no_dns : DnsInfo
no_dns = record {
  a = [];
  aaaa = [];
  mx = [];
  ns = [];
  txt = [];
  cname = [];
  email_provider = [];
  dns_provider = [];
  error = text "empty domain";
}

module _ (escape : Bytes → Bytes) (peer : Bytes → DohReply) where
  unfoldable pub ask_all : Bytes → Answers
  unfolding doh_query
  ask_all domain =
      let ask = doh_query escape peer domain in
      record {
        a = ask (text "A");
        aaaa = ask (text "AAAA");
        mx = ask (text "MX");
        ns = ask (text "NS");
        txt = ask (text "TXT");
      }

  -- The queries run side by side; each answer has its own key, so that their order does not matter.
  unfoldable pub query_dns : Bytes → DnsInfo
  unfolding bytes_eq dns_info ask_all
  query_dns domain = if bytes_eq domain [] then no_dns else dns_info (ask_all domain)
