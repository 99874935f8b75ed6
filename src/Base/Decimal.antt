-- ===== src/Base/Decimal.antt =====
-- `%d` of fmt and strconv.Itoa, on a number that is not negative.
use stackly.Base.{ℕ, zero, suc, ◌+◌, ◌/◌, ◌%◌, [], ◌∷◌, Bytes, ltb, if◌then◌else◌}

-- `n` rounds are enough for the digits of `n`.
show_digits : ℕ → ℕ → Bytes → Bytes
show_digits zero n acc = (b'0' + n % 10) ∷ acc
show_digits (suc f) n acc =
    let rest = show_digits f (n / 10) ((b'0' + n % 10) ∷ acc) in
    if ltb n 10 then (b'0' + n) ∷ acc else rest

unfoldable pub show_nat : ℕ → Bytes
unfolding show_digits
show_nat n = show_digits n n []
