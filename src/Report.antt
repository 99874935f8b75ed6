-- ===== src/Report.antt =====
-- The small helpers of internal/report/report.go. A strings.Builder is the bytes that were written to it;
-- a helper that writes to one returns what it adds.
pub mod Cards
pub mod Pills
pub mod Styles
pub mod Page
pub mod Markup
pub mod Untouched
pub mod Groups
pub mod DataUrl
mod Examples
use stackly.Base.{
  ℕ, ◌+◌, ◌*◌, ◌/◌, ◌%◌, Bool, true, false, not, List, [], ◌∷◌, ◌++◌, Bytes, String, text, bytes_eq,
  ltb, ◌==◌, if◌then◌else◌,
}
use stackly.Base.Decimal.{show_nat}

-- A literal of the source.
unfoldable pub raw : String → Bytes
raw s = text s

-- html.EscapeString.
abbrev escape_byte : ℕ → Bytes
escape_byte c =
    if c == b'&'
    then text "&amp;"
    else if c == b'\''
    then text "&#39;"
    else if c == b'<'
    then text "&lt;"
    else if c == b'>'
    then text "&gt;"
    else if c == b'"'
    then text "&#34;"
    else c ∷ []

unfoldable pub html_escape : Bytes → Bytes
html_escape [] = []
html_escape (c ∷ s) = escape_byte c ++ html_escape s

-- `if test { b.WriteString(s) }`.
unfoldable pub when : Bool → Bytes → Bytes
when true s = s
when false s = []

unfoldable pub is_empty : Bytes → Bool
is_empty s = bytes_eq s []

-- A row of a card, between the two opening tags, which the source writes out each time, and the last.
unfoldable pub row : String → String → Bytes → Bytes
row k cls v =
    raw "<div class=\"kv\"><span class=\"k\">"
    ++ raw k
    ++ raw "</span><span class=\""
    ++ raw cls
    ++ raw "\">"
    ++ v
    ++ raw "</span></div>"

unfoldable pub write_kv : Bytes → Bytes → Bytes
write_kv k v =
    if is_empty v
    then []
    else raw "<div class=\"kv\"><span class=\"k\">"
      ++ html_escape k
      ++ raw "</span><span class=\"v\">"
      ++ html_escape v
      ++ raw "</span></div>"

-- The values after the first.
unfoldable pub more_lines : List Bytes → Bytes
more_lines [] = []
more_lines (v ∷ vs) = raw "<br>" ++ html_escape v ++ more_lines vs

-- What html.EscapeString returns for `k` is not written.
unfoldable pub write_kv_list : Bytes → List Bytes → Bytes
write_kv_list k [] = []
write_kv_list k (v ∷ vs) =
    raw "<div class=\"kv\"><span class=\"k\">"
    ++ raw "</span><span class=\"v\">"
    ++ html_escape v
    ++ more_lines vs
    ++ raw "</span></div>"

unfoldable pub empty_card : Bytes → Bytes
empty_card name =
    raw "<div class=\"card\"><div class=\"card-title\">"
    ++ html_escape name
    ++ raw "</div><div class=\"empty\">Not available</div></div>"

unfoldable pub render_section : Bytes → Bytes → Bytes → Bytes
render_section title id body =
    raw "<section class=\"sec\" id=\""
    ++ html_escape id
    ++ raw "\"><h2>"
    ++ html_escape title
    ++ raw "</h2>"
    ++ body
    ++ raw "</section>"

-- A quotient rounded to the nearest number, a tie to the even one, as fmt rounds.
abbrev rounded : ℕ → ℕ → ℕ
rounded n d =
    if ltb (2 * (n % d)) d
    then n / d
    else if ltb d (2 * (n % d))
    then n / d + 1
    else if (n / d) % 2 == 0
    then n / d
    else n / d + 1

-- A float64 holds the quotients exactly while n < 2^53.
unfoldable pub human_bytes : ℕ → Bytes
human_bytes n =
    let tenths = rounded (10 * n) 1024 in
    let cents = rounded (100 * n) (1024 * 1024) in
    if ltb n 1024
    then show_nat n ++ raw " B"
    else if ltb n (1024 * 1024)
    then show_nat (tenths / 10) ++ raw "." ++ show_nat (tenths % 10) ++ raw " KB"
    else show_nat (cents / 100)
      ++ raw "."
      ++ show_nat ((cents / 10) % 10)
      ++ show_nat (cents % 10)
      ++ raw " MB"
