-- ===== src/Scanner/Contacts.antt =====
-- Which addresses ExtractEmails of internal/scanner/email.go returns.
use stackly.Base.{
  ◌≡◌, refl, sym, Bool, ◌&&◌, ◌||◌, Option, List, [], ◌∷◌, Bytes, bytes_eq, bytes_eq_iff, length,
  take, any, ltb, take-all, if◌then◌else◌, Bool-cases, inl, inr, arith,
}
use stackly.Base.Keys.{has, Nodup}
use stackly.Base.Fresh.{has_cons}
use stackly.Base.Sort.{Sorted}
use stackly.Base.SortKeys.{
  bytes_lt, sort_strings, has-sort_strings, sort_strings-Sorted, sort_strings-Nodup,
}
use stackly.Scanner.Emails.{
  Json, Patterns, clean, is_contact, add_emails, data_attr_emails, json_ld_emails, ssr_data_emails,
  seen_emails, max_emails, extract_emails,
}

-- Whether an address is one of the strings found, trimmed and in lower case.
abbrev pub finds : Bytes → List Bytes → Bool
finds k es = any (λ e. bytes_eq k (clean e)) es

-- One string: it is added if it is a contact's address and not there yet.
abbrev keep : Bytes → List Bytes → List Bytes
keep c seen = if is_contact c then if has c seen then seen else c ∷ seen else seen

has-keep :
    (k c : Bytes) (seen : List Bytes)
    → has k (keep c seen) ≡ (has k seen || (is_contact k && bytes_eq k c))
has-keep k c seen = elim (Bool-cases (bytes_eq k c)) [
  | inl same ↦
      let e : k ≡ c = (bytes_eq_iff k c).0 same in
      rw (same, e) (ground (arith, has_cons c c seen, bytes_eq_iff c c))
  | inr other ↦ rw other (ground (arith, has_cons k c seen, other))
]

keep-Nodup : (c : Bytes) (seen : List Bytes) → Nodup seen → Nodup (keep c seen)
keep-Nodup c seen h = ground arith

has-add_emails :
    (k : Bytes) (es seen : List Bytes)
    → has k (add_emails es seen) ≡ (has k seen || (is_contact k && finds k es))
unfolding add_emails
has-add_emails k [] seen = ground arith
has-add_emails k (e ∷ es) seen =
    ground (arith, has-add_emails k es (keep (clean e) seen), has-keep k (clean e) seen)

add_emails-Nodup : (es seen : List Bytes) → Nodup seen → Nodup (add_emails es seen)
unfolding add_emails
add_emails-Nodup [] seen h = h
add_emails-Nodup (e ∷ es) seen h =
    add_emails-Nodup es (keep (clean e) seen) (keep-Nodup (clean e) seen h)

module _ (unmarshal : Bytes → Option Json) (p : Patterns) (html : Bytes) where
  -- The five sources of addresses.
  abbrev pub is_named : Bytes → Bool
  is_named k =
      finds k (p.mailto html)
      || (finds k (p.plaintext html)
          || (finds k (data_attr_emails (p.data_attr html))
              || (finds k (json_ld_emails unmarshal (p.json_ld html))
                  || finds k (ssr_data_emails unmarshal (p.ssr_script html)))))

  has-seen_emails :
      (k : Bytes) → has k (seen_emails unmarshal p html) ≡ (is_contact k && is_named k)
  unfolding seen_emails has
  has-seen_emails k =
      let a = add_emails (p.mailto html) [] in
      let b = add_emails (p.plaintext html) a in
      let c = add_emails (data_attr_emails (p.data_attr html)) b in
      let d = add_emails (json_ld_emails unmarshal (p.json_ld html)) c in
      ground (
        arith,
        has-add_emails k (p.mailto html) [],
        has-add_emails k (p.plaintext html) a,
        has-add_emails k (data_attr_emails (p.data_attr html)) b,
        has-add_emails k (json_ld_emails unmarshal (p.json_ld html)) c,
        has-add_emails k (ssr_data_emails unmarshal (p.ssr_script html)) d,
      )

  seen_emails-Nodup : Nodup (seen_emails unmarshal p html)
  unfolding seen_emails
  seen_emails-Nodup = add_emails-Nodup (ssr_data_emails unmarshal (p.ssr_script html)) _ (
      add_emails-Nodup (json_ld_emails unmarshal (p.json_ld html)) _ (
        add_emails-Nodup (data_attr_emails (p.data_attr html)) _
          (add_emails-Nodup (p.plaintext html) _ (add_emails-Nodup (p.mailto html) [] tt))))

  -- `ExtractEmails` returns the first 20 of a list, sorted and with no address twice, that has exactly
  -- the addresses which pass both filters and which one of the five sources names, trimmed and in
  -- lower case.
  pub extract_emails-exact :
      (all : List Bytes) × (extract_emails unmarshal p html ≡ take max_emails all)
      × Sorted bytes_lt all
      × Nodup all
      × ((k : Bytes) → has k all ≡ (is_contact k && is_named k))
  unfolding extract_emails
  extract_emails-exact =
      let found = seen_emails unmarshal p html in
      let all = sort_strings found in
      (
        all,
        elim (Bool-cases (ltb max_emails (length all))) [
          | inl e ↦ rw e refl
          | inr e ↦ rw e (sym (take-all max_emails all (ground arith)))
        ],
        sort_strings-Sorted found,
        sort_strings-Nodup found seen_emails-Nodup,
        λ k. rw (has-sort_strings k found) (has-seen_emails k),
      )
