-- ===== src/Report/Markup.antt =====
-- What a report writes of a scan cannot change the markup of the page.
use stackly.Base.{
  ℕ, ◌≡◌, refl, Bool, true, false, ◌||◌, Option, none, some, List, [], ◌∷◌, ◌++◌, Bytes, map, ◌==◌,
  if◌then◌else◌, arith, bytes_eq, Bool-cases, inl, inr,
}
use mathlib.Core.Option
use stackly.Enrich.{DnsMx, DnsInfo, WhoisInfo, SslInfo}
use stackly.Report.Cards.{mx_lines, render_dns, render_whois, render_ssl}
use stackly.Report.{
  html_escape, when, is_empty, row, write_kv, more_lines, write_kv_list, render_section,
}

-- The bytes that can end a text, open a tag or end an attribute.
abbrev pub is_markup : ℕ → Bool
is_markup c = ((c == b'<') || (c == b'>')) || ((c == b'"') || (c == b'\''))

-- The markup of a page: its bytes of that kind, in their order.
unfoldable pub markup : Bytes → Bytes
markup [] = []
markup (c ∷ s) = if is_markup c then c ∷ markup s else markup s

-- Another text that is empty where the text is.
unfoldable pub hide : Bytes → Bytes
hide [] = []
hide (c ∷ s) = b'x' ∷ []

pub markup-append : (s t : Bytes) → markup (s ++ t) ≡ markup s ++ markup t
unfolding markup
markup-append [] t = refl
markup-append (c ∷ s) t = ground (arith, markup-append s t)

pub markup-escape : (s : Bytes) → markup (html_escape s) ≡ []
unfolding markup html_escape
markup-escape [] = refl
markup-escape (c ∷ s) = ground (arith, markup-escape s)

pub markup-when : (b : Bool) (s : Bytes) → markup (when b s) ≡ when b (markup s)
unfolding markup when
markup-when true s = refl
markup-when false s = refl

pub is_empty-hide : (s : Bytes) → is_empty (hide s) ≡ is_empty s
unfolding is_empty hide bytes_eq
is_empty-hide [] = refl
is_empty-hide (c ∷ s) = refl

pub markup-if :
    (b : Bool) (s t : Bytes) → markup (if b then s else t) ≡ (if b then markup s else markup t)
markup-if true s t = refl
markup-if false s t = refl

pub ruleset markup_rules = (markup-append, markup-escape, markup-when, markup-if, is_empty-hide)

pub markup-write_kv : (k v : Bytes) → markup (write_kv k (hide v)) ≡ markup (write_kv k v)
unfolding write_kv
markup-write_kv k v = simp markup_rules

markup-more_lines : (vs : List Bytes) → markup (more_lines (map hide vs)) ≡ markup (more_lines vs)
unfolding more_lines
markup-more_lines [] = refl
markup-more_lines (v ∷ vs) = simp (markup_rules, markup-more_lines vs)

pub markup-write_kv_list :
    (k : Bytes) (vs : List Bytes)
    → markup (write_kv_list k (map hide vs)) ≡ markup (write_kv_list k vs)
unfolding write_kv_list
markup-write_kv_list k [] = refl
markup-write_kv_list k (v ∷ vs) = simp (markup_rules, markup-more_lines vs)

pub markup-section :
    (title id s t : Bytes)
    → markup s ≡ markup t
    → markup (render_section title id s) ≡ markup (render_section title id t)
unfolding render_section
markup-section title id s t h = simp (markup_rules, h)

unfoldable pub hide_mx : DnsMx → DnsMx
hide_mx m = record { host = hide m.host; pref = m.pref }

unfoldable pub hide_dns : DnsInfo → DnsInfo
hide_dns d = record {
  a = map hide d.a;
  aaaa = map hide d.aaaa;
  mx = map hide_mx d.mx;
  ns = map hide d.ns;
  txt = map hide d.txt;
  cname = hide d.cname;
  email_provider = hide d.email_provider;
  dns_provider = hide d.dns_provider;
  error = hide d.error;
}

unfoldable pub hide_whois : WhoisInfo → WhoisInfo
hide_whois w = record w {
  registrar = hide w.registrar;
  created_date = hide w.created_date;
  expiry_date = hide w.expiry_date;
  updated_date = hide w.updated_date;
  status = map hide w.status;
  name_servers = map hide w.name_servers;
  rdap_endpoint = hide w.rdap_endpoint;
  error = hide w.error;
}

unfoldable pub hide_ssl : SslInfo → SslInfo
hide_ssl s = record s {
  issuer = hide s.issuer;
  subject = hide s.subject;
  tls_version = hide s.tls_version;
  cipher_suite = hide s.cipher_suite;
  error = hide s.error;
}

markup-more_mx :
    (ms : List DnsMx)
    → markup (more_lines (mx_lines (map hide_mx ms))) ≡ markup (more_lines (mx_lines ms))
unfolding more_lines mx_lines hide_mx
markup-more_mx [] = refl
markup-more_mx (m ∷ ms) = elim (Bool-cases (is_empty m.host)) [
  | inl e ↦ simp (markup_rules, e, markup-more_mx ms)
  | inr e ↦ simp (markup_rules, e, markup-more_mx ms)
]

markup-mx :
    (k : Bytes) (ms : List DnsMx)
    → markup (write_kv_list k (mx_lines (map hide_mx ms))) ≡ markup (write_kv_list k (mx_lines ms))
unfolding mx_lines write_kv_list hide_mx
markup-mx k [] = refl
markup-mx k (m ∷ ms) = elim (Bool-cases (is_empty m.host)) [
  | inl e ↦ simp (markup_rules, e, markup-mx k ms)
  | inr e ↦ simp (markup_rules, e, markup-more_mx ms)
]

pub render_dns-hide :
    (d : Option DnsInfo) → markup (render_dns (Option.map hide_dns d)) ≡ markup (render_dns d)
unfolding render_dns hide_dns row
render_dns-hide none = refl
render_dns-hide (some d) = simp (markup_rules, markup-write_kv_list, markup-mx)

pub render_whois-hide :
    (w : Option WhoisInfo)
    → markup (render_whois (Option.map hide_whois w)) ≡ markup (render_whois w)
unfolding render_whois hide_whois row
render_whois-hide none = refl
render_whois-hide (some w) = simp (markup_rules, markup-write_kv, markup-write_kv_list)

pub render_ssl-hide :
    (date : ℕ → Bytes) (now : ℕ) (s : Option SslInfo)
    → markup (render_ssl date now (Option.map hide_ssl s)) ≡ markup (render_ssl date now s)
unfolding render_ssl hide_ssl row
render_ssl-hide date now none = refl
render_ssl-hide date now (some s) = simp (markup_rules, markup-write_kv)
