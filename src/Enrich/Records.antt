-- ===== src/Enrich/Records.antt =====
-- What QueryDNS of internal/scanner/enrich.go returns.
use mathlib.Core.List.{Perm}
use stackly.Base.{
  ◌≤◌, ◌≡◌, refl, Bool, true, false, List, [], ◌∷◌, Bytes, text, length, map, select, All,
  if◌then◌else◌, arith, bytes_eq, ◌↔◌,
}
use stackly.Base.Sort.{Sorted, exchange_sort-perm, exchange_sort-Sorted}
use stackly.Enrich.Dns.{
  DohReply, any_answer, by_pref, parse_mx_data, answers_of, dns_info, ask_all, query_dns, is_short,
  trim_quotes,
}

short-All : (ts : List Bytes) → All (λ t. length t ≤ 200) (select is_short ts)
short-All [] = tt
short-All (t ∷ ts) = ground (arith, short-All ts)

-- For a domain that is not empty: the mail servers are those of the answers, each as often, the most
-- preferred first; no text is longer than 200 bytes; and there is an error exactly when all five queries
-- failed.
pub query_dns-exact :
    (escape : Bytes → Bytes) (peer : Bytes → DohReply) (domain : Bytes)
    → bytes_eq domain [] ≡ false
    → Perm
        (query_dns escape peer domain).mx
        (map parse_mx_data (answers_of (ask_all escape peer domain).mx))
      × Sorted by_pref (query_dns escape peer domain).mx
      × All (λ t. length t ≤ 200) (query_dns escape peer domain).txt
      × ((bytes_eq (query_dns escape peer domain).error [] ≡ false)
          ↔ (any_answer (ask_all escape peer domain) ≡ false))
unfolding query_dns dns_info
query_dns-exact escape peer domain h =
    let r = ask_all escape peer domain in
    rw h (
      exchange_sort-perm by_pref (map parse_mx_data (answers_of r.mx)),
      exchange_sort-Sorted by_pref (λ a b h. ground arith) (λ a b c h k. ground arith)
          (map parse_mx_data (answers_of r.mx)),
      short-All (map trim_quotes (answers_of r.txt)),
      error_iff (any_answer r),
    )
  where
    error_iff :
        (b : Bool)
        → (bytes_eq (if b then [] else text "all DNS queries failed") [] ≡ false) ↔ (b ≡ false)
    error_iff true = unfold bytes_eq in (λ e. cc, λ e. cc)
    error_iff false = unfold bytes_eq in (λ e. refl, λ e. refl)
