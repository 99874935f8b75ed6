-- ===== src/Auth/Bucket.antt =====
-- `allow` of internal/auth/auth.go. The tokens of a bucket are counted in units of one token divided by
-- the nanoseconds of the window, in which a refill is a whole number: rate units for each nanosecond.
-- The source computes the same with float64, whose rounding is not modelled.
use stackly.Base.{ℕ, ◌+◌, ◌-◌, ◌*◌, Bool, true, false, none, some, Bytes, ltb, if◌then◌else◌}
use stackly.Base.Map
use stackly.Base.Map.{Map}

pub record Bucket : Type 0 where
  pub tokens : ℕ
  pub last_fill : ℕ

abbrev pub window : ℕ
window = 60_000_000_000

unfoldable pub full_bucket : ℕ → ℕ → Bucket
full_bucket rate now = record { tokens = rate * window; last_fill = now }

unfoldable pub refill : ℕ → ℕ → Bucket → Bucket
refill rate now b =
    let more = (now - b.last_fill) * rate in
    record {
      tokens = if ltb (rate * window) (b.tokens + more) then rate * window else b.tokens + more;
      last_fill = now;
    }

unfoldable pub spend : Bucket → Bucket × Bool
spend b =
    if ltb b.tokens window then (b, false) else (record b { tokens = b.tokens - window }, true)

unfoldable pub bucket_of : Bytes → ℕ → ℕ → Map Bucket → Bucket
unfolding full_bucket
bucket_of key rate now m = elim (Map.get key m) [ none ↦ full_bucket rate now | some b ↦ b ]

unfoldable pub allow : Bytes → ℕ → ℕ → Map Bucket → Map Bucket × Bool
unfolding bucket_of refill spend
allow key rate now m =
    let (b, ok) = spend (refill rate now (bucket_of key rate now m)) in (Map.put key b m, ok)
