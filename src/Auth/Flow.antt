-- ===== src/Auth/Flow.antt =====
-- How much `allow` of internal/auth/auth.go lets through.
use stackly.Base.{
  ℕ, ◌+◌, ◌-◌, ◌*◌, ◌≤◌, ◌≡◌, refl, inl, inr, none, some, List, [], ◌∷◌, Bytes, bytes_eq_refl, ltb,
  if◌then◌else◌, Bool-cases, ltb→lt, ltb-false→le, arith, subst, ◌∙◌,
}
use native.Mathlib.Nat.{add-mul}
use stackly.Base.Map
use stackly.Base.Map.{Map, get-put}
use stackly.Auth.Bucket.{Bucket, window, full_bucket, refill, spend, bucket_of, allow}

-- Calls for one key, each some nanoseconds after the one before: the buckets and how many were let
-- through.
unfoldable pub run_allow : Bytes → ℕ → ℕ → List ℕ → Map Bucket → Map Bucket × ℕ
run_allow key rate t [] m = (m, 0)
run_allow key rate t (g ∷ gs) m =
    let r = allow key rate (t + g) m in
    let rest = run_allow key rate (t + g) gs r.0 in (rest.0, (if r.1 then 1 else 0) + rest.1)

abbrev pub sum : List ℕ → ℕ
sum [] = 0
sum (g ∷ gs) = g + sum gs

spend-tokens :
    (b : Bucket)
    → let r = spend b in
      (r.0.last_fill ≡ b.last_fill) × ((if r.1 then window else 0) + r.0.tokens ≡ b.tokens)
unfolding spend
spend-tokens b = elim (Bool-cases (ltb b.tokens window)) [
  | inl h ↦ rw (h) (refl, omega arith)
  | inr h ↦ rw (h) (refl, omega (arith, ltb-false→le b.tokens window h))
]

refill-tokens :
    (rate now : ℕ) (b : Bucket) → (refill rate now b).tokens ≤ b.tokens + (now - b.last_fill) * rate
unfolding refill
refill-tokens rate now b =
    elim (Bool-cases (ltb (rate * window) (b.tokens + (now - b.last_fill) * rate))) [
      | inl h ↦
          rw (h) (omega (arith, ltb→lt (rate * window) (b.tokens + (now - b.last_fill) * rate) h))
      | inr h ↦ rw (h) (omega arith)
    ]

-- What one call does to its bucket.
allow-bucket :
    (key : Bytes) (rate now : ℕ) (m : Map Bucket)
    → let b = bucket_of key rate now m in
      let r = allow key rate now m in
      (b' : Bucket) × (Map.get key r.0 ≡ some b')
      × (b'.last_fill ≡ now)
      × ((if r.1 then window else 0) + b'.tokens ≤ b.tokens + (now - b.last_fill) * rate)
unfolding allow
allow-bucket key rate now m =
    let b = bucket_of key rate now m in
    let s = spend (refill rate now b) in
    (
      s.0,
      get-put key key s.0 m ∙ rw (bytes_eq_refl key),
      (spend-tokens (refill rate now b)).0 ∙ (unfold refill in refl),
      omega (arith, (spend-tokens (refill rate now b)).1, refill-tokens rate now b),
    )

run_allow-bucket :
    (key : Bytes) (rate t : ℕ) (gs : List ℕ) (m : Map Bucket) (b : Bucket)
    → Map.get key m ≡ some b
    → b.last_fill ≡ t
    → (run_allow key rate t gs m).1 * window ≤ b.tokens + sum gs * rate
unfolding run_allow
run_allow-bucket key rate t [] m b h l = omega arith
run_allow-bucket key rate t (g ∷ gs) m b h l =
    let r = allow key rate (t + g) m in
    let (b', h', l', c) = allow-bucket key rate (t + g) m in
    let ih = run_allow-bucket key rate (t + g) gs r.0 b' h' l' in
    let gap : t + g - b.last_fill ≡ g = omega (arith, l) in
    let same : bucket_of key rate (t + g) m ≡ b = unfold bucket_of in rw (h, bucket_of) in
    let d : (if r.1 then window else 0) + b'.tokens ≤ b.tokens + (t + g - b.last_fill) * rate =
      subst (λ x. (if r.1 then window else 0) + b'.tokens ≤ x.tokens + (t + g - x.last_fill) * rate)
        same c in
    let d' : (if r.1 then window else 0) + b'.tokens ≤ b.tokens + g * rate =
      subst (λ x. (if r.1 then window else 0) + b'.tokens ≤ b.tokens + x * rate) gap d in
    elim (Bool-cases r.1) [
      | inl e ↦ ground (arith, e, d', ih, add-mul g (sum gs) rate)
      | inr e ↦ ground (arith, e, d', ih, add-mul g (sum gs) rate)
    ]

-- A key that is new is let through at most as often as its rate says and its rate again for each minute
-- that passes: in units of a token's nanoseconds, the calls let through are at most the full bucket and
-- the rate times the time from the first call to the last.
pub allow-bounded :
    (key : Bytes) (rate t : ℕ) (gs : List ℕ) (m : Map Bucket)
    → Map.get key m ≡ none
    → (run_allow key rate t (0 ∷ gs) m).1 * window ≤ rate * window + sum gs * rate
unfolding run_allow
allow-bounded key rate t gs m h =
    let r = allow key rate (t + 0) m in
    let (b', h', l', c) = allow-bucket key rate (t + 0) m in
    let rest = run_allow-bucket key rate (t + 0) gs r.0 b' h' l' in
    let same : bucket_of key rate (t + 0) m ≡ full_bucket rate (t + 0) =
      unfold bucket_of in rw (h, bucket_of) in
    let d : (if r.1 then window else 0) + b'.tokens ≤ rate * window + (t + 0 - (t + 0)) * rate =
      unfold full_bucket in
      subst (λ x. (if r.1 then window else 0) + b'.tokens ≤ x.tokens + (t + 0 - x.last_fill) * rate)
        same c in
    let none_yet : t + 0 - (t + 0) ≡ 0 = omega arith in
    let d' : (if r.1 then window else 0) + b'.tokens ≤ rate * window + 0 * rate =
      subst (λ x. (if r.1 then window else 0) + b'.tokens ≤ rate * window + x * rate) none_yet d in
    elim (Bool-cases r.1) [
      | inl e ↦ ground (arith, e, d', rest)
      | inr e ↦ ground (arith, e, d', rest)
    ]
