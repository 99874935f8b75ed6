-- ===== src/Base/GoString.antt =====
-- A Go string is a sequence of bytes: a list of numbers, compared and cut byte by byte.
use Prim.Native.Nat.{ℕ, ◌+◌, compare, Ordering}
use Prim.Native.Char.{code}
use Prim.Native.String.{String}
use mathlib.Core.Path.{◌≡◌, refl}
use mathlib.Core.Logic.{◌≢◌, ◌↔◌}
use mathlib.Core.Bool.{Bool, true, false, ◌&&◌}
use mathlib.Core.List.{List, [], ◌∷◌, map}
use native.Mathlib.Omega.{arith}

abbrev pub Bytes : Type 0
Bytes = List ℕ

-- The bytes of an ASCII literal.
abbrev pub text : String → Bytes
text String.[] = []
text (String.◌∷◌ c s) = code c ∷ text s

abbrev eq : ℕ → ℕ → Bool
eq a b = elim (compare a b) [ Ordering.eq ↦ true | _ ↦ false ]

-- `s == t`.
unfoldable pub bytes_eq : Bytes → Bytes → Bool
bytes_eq [] [] = true
bytes_eq [] (c ∷ t) = false
bytes_eq (b ∷ s) [] = false
bytes_eq (b ∷ s) (c ∷ t) = eq b c && bytes_eq s t

pub bytes_eq_iff : (s t : Bytes) → (bytes_eq s t ≡ true) ↔ (s ≡ t)
unfolding bytes_eq
bytes_eq_iff [] [] = (λ _. refl, λ _. refl)
bytes_eq_iff [] (c ∷ t) = (λ h. cc, λ h. cc)
bytes_eq_iff (b ∷ s) [] = (λ h. cc, λ h. cc)
bytes_eq_iff (b ∷ s) (c ∷ t) =
    (λ h. ground (arith, bytes_eq_iff s t), λ h. ground (arith, bytes_eq_iff s t))

pub bytes_eq_refl : (s : Bytes) → bytes_eq s s ≡ true
bytes_eq_refl s = (bytes_eq_iff s s).1 refl

pub bytes_eq-false : (s t : Bytes) → s ≢ t → bytes_eq s t ≡ false
bytes_eq-false s t h = ground (arith, bytes_eq_iff s t)

-- strings.HasPrefix(s, p), arguments the other way round.
unfoldable pub has_prefix : Bytes → Bytes → Bool
has_prefix [] s = true
has_prefix (b ∷ p) [] = false
has_prefix (b ∷ p) (c ∷ s) = eq b c && has_prefix p s

abbrev in_range : ℕ → ℕ → ℕ → Bool
in_range lo hi c = elim (compare c lo) [
  | Ordering.lt ↦ false
  | _ ↦ elim (compare hi c) [ Ordering.lt ↦ false | _ ↦ true ]
]

abbrev lower_byte : ℕ → ℕ
lower_byte c = elim (in_range b'A' b'Z' c) [ true ↦ c + 32 | false ↦ c ]

-- strings.ToLower, on ASCII.
unfoldable pub to_lower : Bytes → Bytes
to_lower = map lower_byte
