-- ===== src/Enrich/Whois.antt =====
-- QueryWHOIS, QuerySSL and tlsVersionString of internal/scanner/enrich.go, and enrichResult, extractHost
-- and rootDomain of internal/scanner/scanner.go.
use stackly.Base.{
  ℕ, ◌+◌, ◌/◌, ◌%◌, false, ◌&&◌, ◌||◌, Option, none, some, List, [], ◌∷◌, ◌++◌, Bytes, text,
  bytes_eq, length, map, ◌==◌, if◌then◌else◌,
}
use stackly.Base.Search.{contains, trim_suffix}
use stackly.Base.Keys.{has}
use stackly.Base.Decimal.{show_nat}
use stackly.Base.Hex
use stackly.Scanner.Emails.{Json, Items}
use stackly.Enrich.{ℤ, pos, days_between, WhoisInfo, SslInfo}

pub record Event : Type 0 where
  pub event_action : Bytes
  pub event_date : Bytes

-- `vcard` is the second entry of vcardArray.
pub record Entity : Type 0 where
  pub roles : List Bytes
  pub vcard : Json

pub record Rdap : Type 0 where
  pub events : List Event
  pub status : List Bytes
  pub entities : List Entity
  pub nameservers : List Bytes

-- What the GET from rdap.org gives: an error, or a status, the host that answered in the end, and the
-- body or the error of its decoding.
pub data RdapReply : Type 0 where
  failed : Bytes → RdapReply
  answered : ℕ → Bytes → RdapReply
  broken : Bytes → Bytes → RdapReply
  decoded : Bytes → Rdap → RdapReply

unfoldable pub note_event : Event → WhoisInfo → WhoisInfo
unfolding bytes_eq
note_event e w =
    if bytes_eq e.event_action (text "registration")
    then record w { created_date = e.event_date }
    else if bytes_eq e.event_action (text "expiration")
    then record w { expiry_date = e.event_date }
    else if (bytes_eq e.event_action (text "last changed")
          || bytes_eq e.event_action (text "last update of RDAP database"))
        && bytes_eq w.updated_date []
    then record w { updated_date = e.event_date }
    else w

unfoldable pub note_events : List Event → WhoisInfo → WhoisInfo
unfolding note_event
note_events [] w = w
note_events (e ∷ es) w = note_events es (note_event e w)

-- The value of a tuple whose name is fn, if it is a text.
abbrev full_name : Json → Option Bytes
full_name
      (Json.array (
        Items.item
          (Json.string name)
          (Items.item t (Items.item p (Items.item (Json.string v) more))))) =
    if bytes_eq name (text "fn") then some v else none
full_name f = none

unfoldable pub first_name : Items → Option Bytes
unfolding bytes_eq
first_name Items.nil = none
first_name (Items.item f more) =
    let rest = first_name more in elim (full_name f) [ some v ↦ some v | none ↦ rest ]

unfoldable pub registrar_of : Json → Option Bytes
unfolding first_name
registrar_of (Json.array inner) = first_name inner
registrar_of v = none

-- A later registrar replaces an earlier one.
unfoldable pub last_registrar : List Entity → Bytes → Bytes
unfolding has registrar_of
last_registrar [] r = r
last_registrar (e ∷ es) r =
    let skip = last_registrar es r in
    if has (text "registrar") e.roles
    then elim (registrar_of e.vcard) [ some v ↦ last_registrar es v | none ↦ skip ]
    else skip

abbrev pub no_whois : WhoisInfo
no_whois = record {
  registrar = [];
  created_date = [];
  expiry_date = [];
  updated_date = [];
  status = [];
  name_servers = [];
  domain_age_days = pos 0;
  days_to_expiry = pos 0;
  rdap_endpoint = [];
  error = [];
}

abbrev days_since : ℕ → Option ℕ → ℤ
days_since now none = pos 0
days_since now (some t) = days_between t now

abbrev days_until : ℕ → Option ℕ → ℤ
days_until now none = pos 0
days_until now (some t) = days_between now t

-- time.Parse of a text that is not empty.
abbrev parse_date : (Bytes → Option ℕ) → Bytes → Option ℕ
parse_date parse s = if bytes_eq s [] then none else parse s

unfoldable pub whois_info : (Bytes → Option ℕ) → ℕ → Bytes → Rdap → WhoisInfo
unfolding bytes_eq trim_suffix note_events last_registrar days_between
whois_info parse now endpoint r =
    let w = note_events r.events (record no_whois {
      status = r.status;
      name_servers = map (trim_suffix (text ".")) r.nameservers;
      rdap_endpoint = endpoint;
    }) in
    record w {
      registrar = last_registrar r.entities [];
      domain_age_days = days_since now (parse_date parse w.created_date);
      days_to_expiry = days_until now (parse_date parse w.expiry_date);
    }

-- One `now` stands for the readings of the clock, which are made in a row. `rdap` answers the URL of a
-- request, and `parse` is time.Parse for RFC 3339.
unfoldable pub query_whois : (Bytes → RdapReply) → (Bytes → Option ℕ) → ℕ → Bytes → WhoisInfo
unfolding bytes_eq show_nat whois_info
query_whois rdap parse now domain =
    if bytes_eq domain []
    then record no_whois { error = text "empty domain" }
    else elim (rdap (text "https://rdap.org/domain/" ++ domain)) [
      | failed err ↦ record no_whois { error = err }
      | answered status host ↦ record no_whois { error = text "RDAP status " ++ show_nat status }
      | broken host err ↦ record no_whois {
        rdap_endpoint = host;
        error = text "RDAP parse: " ++ err;
      }
      | decoded host r ↦ whois_info parse now host r
    ]

pub record Certificate : Type 0 where
  pub issuer_name : Bytes
  pub issuer_organization : List Bytes
  pub subject_name : Bytes
  pub not_before : ℕ
  pub not_after : ℕ
  pub dns_names : List Bytes
  pub ip_addresses : List Bytes
  pub raw_issuer : Bytes
  pub raw_subject : Bytes

-- What the handshake gives: an error, no certificate, or the first certificate, the version and the
-- name of the cipher suite.
pub data Handshake : Type 0 where
  refused : Bytes → Handshake
  no_peer_certs : Handshake
  shaken : Certificate → ℕ → Bytes → Handshake

unfoldable pub tls_version_string : ℕ → Bytes
unfolding Hex.encode
tls_version_string v =
    if v == 769
    then text "TLS 1.0"
    else if v == 770
    then text "TLS 1.1"
    else if v == 771
    then text "TLS 1.2"
    else if v == 772
    then text "TLS 1.3"
    else text "unknown (0x" ++ Hex.encode ((v / 256) ∷ (v % 256) ∷ []) ++ text ")"

abbrev issuer_of : Bytes → List Bytes → Bytes
issuer_of cn [] = cn
issuer_of cn (o ∷ os) = if bytes_eq cn [] then o else cn

abbrev no_ssl : SslInfo
no_ssl = record {
  issuer = [];
  subject = [];
  not_before = 0;
  not_after = 0;
  days_until_expiry = pos 0;
  san_count = 0;
  self_signed = false;
  tls_version = [];
  cipher_suite = [];
  error = [];
}

unfoldable pub query_ssl : (Bytes → Handshake) → ℕ → Bytes → SslInfo
unfolding bytes_eq contains tls_version_string days_between
query_ssl dial now host =
    let address = if contains host (text ":") then host else host ++ text ":443" in
    if bytes_eq host [] then record no_ssl { error = text "empty host" } else elim (dial address) [
      | refused err ↦ record no_ssl { error = err }
      | no_peer_certs ↦ record no_ssl { error = text "no peer certs" }
      | shaken cert version suite ↦ record {
        issuer = issuer_of cert.issuer_name cert.issuer_organization;
        subject = cert.subject_name;
        not_before = cert.not_before;
        not_after = cert.not_after;
        days_until_expiry = days_between now cert.not_after;
        san_count = length cert.dns_names + length cert.ip_addresses;
        self_signed = bytes_eq cert.raw_issuer cert.raw_subject;
        tls_version = tls_version_string version;
        cipher_suite = suite;
        error = [];
      }
    ]
