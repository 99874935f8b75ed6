-- ===== src/Scanner/Emails.antt =====
-- internal/scanner/email.go. The regular expressions are parameters, each as the list of what it finds
-- in a text, and so is the JSON decoder.
use stackly.Base.{
  ℕ, ◌+◌, ◌-◌, Bool, false, not, ◌&&◌, ◌||◌, Option, none, some, List, [], ◌∷◌, ◌++◌, Bytes, text,
  bytes_eq, to_lower, length, take, drop, any, ltb, if◌then◌else◌, ◌==◌,
}
use stackly.Base.Keys.{has}
use stackly.Base.Search.{contains, index_byte, trim_space, trim_prefix, trim_suffix}
use stackly.Base.SortKeys.{sort_strings}

-- A decoded JSON value; `other` is a number, a Boolean or null.
mutual
  pub data Json : Type 0 where
    string : Bytes → Json
    array : Items → Json
    object : Members → Json
    other : Json

  pub data Items : Type 0 where
    nil : Items
    item : Json → Items → Items

  pub data Members : Type 0 where
    end : Members
    member : Bytes → Json → Members → Members

unfoldable pub when_email : Bytes → List Bytes
when_email s = if contains s (text "@") then s ∷ [] else []

-- The strings among the entries of the array under an e-mail key.
unfoldable pub email_items : Items → List Bytes
unfolding when_email
email_items nil = []
email_items (item (string s) rest) = when_email s ++ email_items rest
email_items (item (array xs) rest) = email_items rest
email_items (item (object ms) rest) = email_items rest
email_items (item other rest) = email_items rest

unfoldable pub email_value : Json → List Bytes
unfolding email_items when_email
email_value (string s) = when_email s
email_value (array xs) = email_items xs
email_value (object ms) = []
email_value other = []

abbrev pub is_email_key : Bytes → Bool
is_email_key k = bytes_eq (to_lower k) (text "email")

unfoldable mutual
  unfolding email_value

  pub walk : Json → List Bytes
  walk (string s) = []
  walk (array xs) = walk_items xs
  walk (object ms) = walk_members ms
  walk other = []

  pub walk_items : Items → List Bytes
  walk_items nil = []
  walk_items (item v rest) = walk v ++ walk_items rest

  pub walk_members : Members → List Bytes
  walk_members end = []
  walk_members (member k v rest) =
      (if is_email_key k then email_value v else walk v) ++ walk_members rest

unfoldable pub strip_js_assignment : Bytes → Bytes
unfolding trim_space trim_suffix index_byte
strip_js_assignment s =
    trim_suffix (text ";") (assigned (trim_space s) (index_byte b'=' (trim_space s)))
  where
    assigned : Bytes → Option ℕ → Bytes
    assigned t none = t
    assigned t (some i) = if ltb i 60 then trim_space (drop (i + 1) t) else t

unfoldable pub is_valid_email : Bytes → Bool
unfolding index_byte
is_valid_email e =
    if ltb (length e) 5 || ltb 254 (length e) then false else elim (index_byte b'@' e) [
      | none ↦ false
      | some at ↦
          if (at == 0) || (at == (length e - 1))
          then false
          else contains (drop (at + 1) e) (text ".")
    ]

abbrev noise : List Bytes
noise =
    text "@2x.png"
    ∷ text "@3x.png"
    ∷ text "@1x.png"
    ∷ text "@1x.jpg"
    ∷ text "@2x.jpg"
    ∷ text "@3x.jpg"
    ∷ text "@1x.webp"
    ∷ text "@2x.webp"
    ∷ text "@1x.gif"
    ∷ text "@2x.gif"
    ∷ text "example.com"
    ∷ text "example.org"
    ∷ text "example.net"
    ∷ text "yourdomain.com"
    ∷ text "domain.com"
    ∷ text "company.com"
    ∷ text "email.com"
    ∷ text "wixpress.com"
    ∷ text "sentry.io"
    ∷ text "cloudflare.com"
    ∷ text "schema.org"
    ∷ []

-- `e[atIdx(e)+1:]`: all of it where there is no `@`.
unfoldable pub after_at : Bytes → Bytes
unfolding index_byte
after_at e = elim (index_byte b'@' e) [ none ↦ e | some at ↦ drop (at + 1) e ]

unfoldable pub is_email_noise : Bytes → Bool
unfolding after_at
is_email_noise e =
    any (contains (to_lower e)) noise
    || any (contains (after_at e))
        (text ".png" ∷ text ".jpg" ∷ text ".gif" ∷ text ".webp" ∷ text ".svg" ∷ [])

abbrev pub clean : Bytes → Bytes
clean e = to_lower (trim_space e)

abbrev pub is_contact : Bytes → Bool
is_contact e = is_valid_email e && not (is_email_noise e)

-- The map `seen`, in an order in which `range` may visit it.
unfoldable pub add_emails : List Bytes → List Bytes → List Bytes
add_emails [] seen = seen
add_emails (e ∷ es) seen =
    add_emails es
      (if is_contact (clean e) then if has (clean e) seen then seen else clean e ∷ seen else seen)

-- What the regular expressions find: the first group of each match of `mailto`, `data_attr`, `json_ld`
-- and `ssr_script`, and the whole match of `plaintext`.
pub record Patterns : Type 0 where
  pub mailto : Bytes → List Bytes
  pub plaintext : Bytes → List Bytes
  pub data_attr : Bytes → List Bytes
  pub json_ld : Bytes → List Bytes
  pub ssr_script : Bytes → List Bytes

unfoldable pub data_attr_emails : List Bytes → List Bytes
unfolding trim_space trim_prefix when_email
data_attr_emails [] = []
data_attr_emails (v ∷ vs) =
    when_email (trim_prefix (text "MAILTO:") (trim_prefix (text "mailto:") (trim_space v)))
    ++ data_attr_emails vs

abbrev pub max_emails : ℕ
max_emails = 20

module _ (unmarshal : Bytes → Option Json) where
  abbrev walked : Option Json → List Bytes
  walked none = []
  walked (some v) = walk v

  unfoldable pub json_ld_emails : List Bytes → List Bytes
  unfolding trim_space
  json_ld_emails [] = []
  json_ld_emails (b ∷ bs) =
      (if bytes_eq (trim_space b) [] then [] else walked (unmarshal (trim_space b)))
      ++ json_ld_emails bs

  -- Strict JSON first, then what is left without the assignment.
  abbrev lenient : Bytes → Option Json
  lenient raw = elim (unmarshal raw) [
    | none ↦ unmarshal (strip_js_assignment raw)
    | some v ↦ some v
  ]

  unfoldable pub ssr_data_emails : List Bytes → List Bytes
  unfolding trim_space
  ssr_data_emails [] = []
  ssr_data_emails (b ∷ bs) =
      (if bytes_eq (trim_space b) [] then [] else walked (lenient (trim_space b)))
      ++ ssr_data_emails bs

  unfoldable pub seen_emails : Patterns → Bytes → List Bytes
  unfolding add_emails data_attr_emails json_ld_emails ssr_data_emails
  seen_emails p html = add_emails (ssr_data_emails (p.ssr_script html)) (
      add_emails (json_ld_emails (p.json_ld html)) (
        add_emails (data_attr_emails (p.data_attr html))
          (add_emails (p.plaintext html) (add_emails (p.mailto html) []))))

  unfoldable pub extract_emails : Patterns → Bytes → List Bytes
  unfolding seen_emails sort_strings
  extract_emails p html =
      let out = sort_strings (seen_emails p html) in
      if ltb max_emails (length out) then take max_emails out else out
