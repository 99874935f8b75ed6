-- ===== src/Enrich/Providers.antt =====
-- detectEmailProvider and detectDNSProvider of internal/scanner/enrich.go.
use stackly.Base.{
  not, List, [], ◌∷◌, ◌++◌, Bytes, text, bytes_eq, has_prefix, to_lower, any, if◌then◌else◌,
}
use stackly.Base.Search.{contains}
use stackly.Enrich.{DnsMx}

-- A switch over texts that the host may contain: the first case that applies.
abbrev pub Cases : Type 0
Cases = List (List Bytes × Bytes)

unfoldable pub first_case : Bytes → Cases → Bytes
unfolding contains
first_case host [] = []
first_case host ((patterns, name) ∷ more) =
    let rest = first_case host more in if any (contains host) patterns then name else rest

abbrev pub email_cases : Cases
email_cases =
    (text "google.com" ∷ text "googlemail.com" ∷ [], text "Google Workspace")
    ∷ (text "outlook.com" ∷ text "protection.outlook" ∷ [], text "Microsoft 365")
    ∷ (text "zoho.com" ∷ [], text "Zoho Mail")
    ∷ (text "protonmail" ∷ text "proton.ch" ∷ [], text "ProtonMail")
    ∷ (text "fastmail.com" ∷ text "messagingengine" ∷ [], text "Fastmail")
    ∷ (text "mailgun.org" ∷ [], text "Mailgun")
    ∷ (text "sendgrid.net" ∷ [], text "SendGrid")
    ∷ (text "amazonaws.com" ∷ [], text "Amazon SES")
    ∷ (text "mimecast" ∷ text "mimecast-offshore" ∷ [], text "Mimecast")
    ∷ (text "icloud.com" ∷ text "apple-dns" ∷ [], text "iCloud Mail")
    ∷ (text "yandex.net" ∷ [], text "Yandex Mail")
    ∷ (text "hover.com" ∷ [], text "Hover")
    ∷ (text "mxhero.com" ∷ [], text "mxhero")
    ∷ []

unfoldable pub spf_hint : List Bytes → Bytes
unfolding contains has_prefix to_lower
spf_hint [] = []
spf_hint (t ∷ ts) =
    let lower = to_lower t in
    let rest = spf_hint ts in
    if not (has_prefix (text "v=spf1") lower)
    then rest
    else if contains lower (text "include:_spf.google.com")
    then text "Google Workspace"
    else if contains lower (text "include:spf.protection.outlook.com")
    then text "Microsoft 365"
    else rest

unfoldable pub detect_email_provider : List DnsMx → List Bytes → Bytes
unfolding first_case spf_hint to_lower bytes_eq
detect_email_provider [] txt = []
detect_email_provider (m ∷ mx) txt =
    let name = first_case (to_lower m.host) email_cases in
    if bytes_eq name [] then spf_hint txt else name

-- strings.Join with a space.
unfoldable pub join_space : List Bytes → Bytes
join_space [] = []
join_space (s ∷ []) = s
join_space (s ∷ t ∷ ss) = s ++ b' ' ∷ join_space (t ∷ ss)

abbrev pub dns_cases : Cases
dns_cases =
    (text "cloudflare.com" ∷ [], text "Cloudflare")
    ∷ (text "awsdns" ∷ [], text "Amazon Route 53")
    ∷ (text "domaincontrol.com" ∷ [], text "GoDaddy")
    ∷ (text "googledomains" ∷ text "google.com" ∷ [], text "Google Cloud DNS")
    ∷ (text "azure-dns" ∷ text "azure.com" ∷ [], text "Azure DNS")
    ∷ (text "digitalocean.com" ∷ [], text "DigitalOcean")
    ∷ (text "hetzner.com" ∷ [], text "Hetzner DNS")
    ∷ (text "linode.com" ∷ [], text "Linode DNS")
    ∷ (text "namecheap.com" ∷ [], text "Namecheap")
    ∷ (text "verisign" ∷ text "networksolutions" ∷ [], text "Verisign")
    ∷ (text "nsone.net" ∷ [], text "NS1")
    ∷ (text "dnsmadeeasy" ∷ text "digicert" ∷ [], text "DNS Made Easy")
    ∷ (text "ultradns" ∷ text "neustar" ∷ [], text "UltraDNS")
    ∷ (text "constellix" ∷ text "cnsglobal" ∷ [], text "Constellix")
    ∷ (text "rage4.com" ∷ [], text "Rage4")
    ∷ (text "yandex.net" ∷ [], text "Yandex DNS")
    ∷ []

unfoldable pub detect_dns_provider : List Bytes → Bytes
unfolding first_case join_space to_lower
detect_dns_provider [] = []
detect_dns_provider (n ∷ ns) = first_case (to_lower (join_space (n ∷ ns))) dns_cases
