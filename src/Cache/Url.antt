-- ===== src/Cache/Url.antt =====
-- urlKey and normalizeURL of internal/cache/cache.go. SHA-256 is the argument `sha256`.
use mathlib.Core.List.{reverse-append, reverse-reverse}
use stackly.Base.{
  ℕ, zero, suc, ◌≡◌, refl, ap, ◌≢◌, inl, inr, [], ◌∷◌, ◌++◌, reverse, Bytes, ◌==◌, if◌then◌else◌,
  Bool-cases, length, length-take, take, arith,
}
use stackly.Base.Hex

-- `for len(out) > 0 && out[len(out)-1] == '/' { out = out[:len(out)-1] }`, on the bytes read from
-- the end.
strip_slashes : Bytes → Bytes
strip_slashes [] = []
strip_slashes (c ∷ cs) = if c == b'/' then strip_slashes cs else c ∷ cs

unfoldable pub normalize_url : Bytes → Bytes
unfolding strip_slashes
normalize_url url = reverse (strip_slashes (reverse url))

unfoldable pub url_key : (Bytes → Bytes) → Bytes → Bytes
unfolding Hex.encode
url_key sha256 url = Hex.encode (take 16 (sha256 (normalize_url url)))

-- The last byte, read from the end, is no slash.
abbrev pub NoSlashFirst : Bytes → Type 0
NoSlashFirst [] = Unit
NoSlashFirst (c ∷ cs) = c ≢ b'/'

strip_slashes-NoSlash : (s : Bytes) → NoSlashFirst (strip_slashes s)
unfolding strip_slashes
strip_slashes-NoSlash [] = tt
strip_slashes-NoSlash (c ∷ cs) = elim (Bool-cases (c == b'/')) [
  | inl e ↦ rw e (strip_slashes-NoSlash cs)
  | inr e ↦ rw e (λ h. ground arith)
]

strip_slashes-done : (s : Bytes) → NoSlashFirst s → strip_slashes s ≡ s
unfolding strip_slashes
strip_slashes-done [] h = refl
strip_slashes-done (c ∷ cs) h = ground arith

-- A normalized URL does not end in a slash, and normalizing it again changes nothing.
pub normalize_url_idem :
    (url : Bytes)
    → NoSlashFirst (reverse (normalize_url url))
      × (normalize_url (normalize_url url) ≡ normalize_url url)
unfolding normalize_url
normalize_url_idem url = rw reverse-reverse (
  strip_slashes-NoSlash (reverse url),
  ap reverse (strip_slashes-done _ (strip_slashes-NoSlash (reverse url))),
)

abbrev pub slashes : ℕ → Bytes
slashes zero = []
slashes (suc n) = b'/' ∷ slashes n

strip_slashes-slashes : (n : ℕ) (s : Bytes) → strip_slashes (slashes n ++ s) ≡ strip_slashes s
unfolding strip_slashes
strip_slashes-slashes zero s = refl
strip_slashes-slashes (suc n) s = strip_slashes-slashes n s

-- Any number of slashes at the end of a URL leaves its cache key as it is.
pub url_key-slashes :
    (sha256 : Bytes → Bytes) (url : Bytes) (n : ℕ)
    → url_key sha256 (url ++ reverse (slashes n)) ≡ url_key sha256 url
unfolding url_key normalize_url
url_key-slashes sha256 url n = rw (
  reverse-append url (reverse (slashes n)),
  reverse-reverse (slashes n),
  strip_slashes-slashes n (reverse url),
)

-- A digest of 32 bytes gives a key of 32 digits, so no key is the empty string.
pub length-url_key :
    (sha256 : Bytes → Bytes) (url : Bytes)
    → length (sha256 (normalize_url url)) ≡ 32
    → length (url_key sha256 url) ≡ 32
unfolding url_key
length-url_key sha256 url h = omega (
  arith,
  Hex.length-encode (take 16 (sha256 (normalize_url url))),
  length-take 16 (sha256 (normalize_url url)),
)
