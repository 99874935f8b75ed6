-- ===== src/Report/DataUrl.antt =====
-- escapeForDataURL and hexDigit of internal/report/pdf.go, and a decoder of percent escapes.
use stackly.Base.{
  ℕ, ◌+◌, ◌-◌, ◌*◌, ◌/◌, ◌%◌, ◌<◌, ◌≡◌, refl, ap, ◌∙◌, Bool, false, ◌&&◌, ◌||◌, [], ◌∷◌, Bytes, All,
  ltb, leb, ◌==◌, if◌then◌else◌, arith, inl, inr, Bool-cases,
}

unfoldable pub hex_digit : ℕ → ℕ
hex_digit b = if ltb b 10 then b'0' + b else b'A' + (b - 10)

unfoldable pub is_escaped : ℕ → Bool
is_escaped c =
    ((((c == b'"') || (c == b'#')) || ((c == b'%') || (c == b'?'))) || ((c == 10) || (c == 13)))
    || (ltb c 32 || leb 127 c)

-- `c >> 4` and `c & 0xF` are the digits of c to the base 16.
unfoldable pub escape_for_data_url : Bytes → Bytes
unfolding hex_digit is_escaped
escape_for_data_url [] = []
escape_for_data_url (c ∷ s) =
    let rest = escape_for_data_url s in
    if is_escaped c then b'%' ∷ hex_digit (c / 16) ∷ hex_digit (c % 16) ∷ rest else c ∷ rest

-- What a browser reads: a hexadecimal digit of either case, and 0 for any other byte.
abbrev pub digit_value : ℕ → ℕ
digit_value c =
    if leb b'0' c && leb c b'9'
    then c - b'0'
    else if leb b'A' c && leb c b'F'
    then c - b'A' + 10
    else if leb b'a' c && leb c b'f'
    then c - b'a' + 10
    else 0

unfoldable pub percent_decode : Bytes → Bytes
percent_decode [] = []
percent_decode (c ∷ []) = c ∷ []
percent_decode (c ∷ x ∷ []) = c ∷ x ∷ []
percent_decode (c ∷ x ∷ y ∷ s) =
    let short = percent_decode s in
    let long = percent_decode (x ∷ y ∷ s) in
    if c == b'%' then (16 * digit_value x + digit_value y) ∷ short else c ∷ long

digit_value-hex_digit : (b : ℕ) → b < 16 → digit_value (hex_digit b) ≡ b
unfolding hex_digit
digit_value-hex_digit b h = ground arith

percent_decode-plain :
    (c : ℕ) (t : Bytes) → (c == b'%') ≡ false → percent_decode (c ∷ t) ≡ c ∷ percent_decode t
unfolding percent_decode
percent_decode-plain c [] h = refl
percent_decode-plain c (x ∷ []) h = refl
percent_decode-plain c (x ∷ y ∷ s) h = ground (arith, h)

percent_decode-escaped :
    (x y : ℕ) (s : Bytes)
    → percent_decode (b'%' ∷ x ∷ y ∷ s) ≡ (16 * digit_value x + digit_value y) ∷ percent_decode s
unfolding percent_decode
percent_decode-escaped x y s = refl

percent_decode-byte :
    (c : ℕ) (s : Bytes)
    → c < 256
    → percent_decode (b'%' ∷ hex_digit (c / 16) ∷ hex_digit (c % 16) ∷ s) ≡ c ∷ percent_decode s
percent_decode-byte c s h =
    percent_decode-escaped (hex_digit (c / 16)) (hex_digit (c % 16)) s
    ∙ ap (λ n. n ∷ percent_decode s)
        (omega (arith, digit_value-hex_digit (c / 16), digit_value-hex_digit (c % 16)))

kept_is_plain : (c : ℕ) → is_escaped c ≡ false → (c == b'%') ≡ false
unfolding is_escaped
kept_is_plain c h = ground (arith, h)

-- Decoding the data URL gives the bytes of the page back.
pub percent_decode-escape_for_data_url :
    (s : Bytes) → All (λ c. c < 256) s → percent_decode (escape_for_data_url s) ≡ s
unfolding escape_for_data_url percent_decode
percent_decode-escape_for_data_url [] h = refl
percent_decode-escape_for_data_url (c ∷ s) h =
    let ih = percent_decode-escape_for_data_url s h.1 in
    elim (Bool-cases (is_escaped c)) [
      | inl e ↦ rw e (percent_decode-byte c (escape_for_data_url s) h.0 ∙ ap (λ t. c ∷ t) ih)
      | inr e ↦
          rw e (
            percent_decode-plain c (escape_for_data_url s) (kept_is_plain c e) ∙ ap (λ t. c ∷ t) ih)
    ]
