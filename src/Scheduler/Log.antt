-- ===== src/Scheduler/Log.antt =====
-- LogDelivery and RecentDeliveries of internal/scheduler/store_api.go.
use mathlib.Core.List.{reverse-cons, reverse-append, append_assoc, append-nil}
use stackly.Base.{
  ℕ, zero, suc, ◌-◌, ◌≤◌, ◌≡◌, refl, inl, inr, false, ◌||◌, List, [], ◌∷◌, ◌++◌, Bytes, ltb, ◌==◌,
  length, length-append, length-take, take-all, take-append, take-take, drop, take, reverse,
  if◌then◌else◌, Bool-cases, arith, sym, ap, ◌∙◌,
}
use stackly.Scheduler.{WebhookDelivery, Store, max_delivery_log}
use stackly.Scheduler.Ops.{
  stamp, trim_log, log_delivery, mark_dirty, recent_from, recent_deliveries,
}

-- A delivery to log, with what `genID` and the clock return for it.
abbrev pub Logged : Type 0
Logged = WebhookDelivery × Bytes × ℕ

unfoldable pub log_all : List Logged → Store → Store
log_all [] st = st
log_all ((d, gen, now) ∷ ds) st = log_all ds (log_delivery d gen now st)

-- Every delivery that was ever logged, the newest first.
abbrev pub newest_first : List Logged → List WebhookDelivery → List WebhookDelivery
newest_first [] older = older
newest_first ((d, gen, now) ∷ ds) older = newest_first ds (stamp d gen now ∷ older)

module _ {A : Type 0} where
  take-take-cons : (n : ℕ) (x : A) (xs : List A) → take n (x ∷ take n xs) ≡ take n (x ∷ xs)
  take-take-cons zero x xs = refl
  take-take-cons (suc n) x xs = rw (go n xs)
    where
      go : (n : ℕ) (xs : List A) → take n (take (suc n) xs) ≡ take n xs
      go zero xs = refl
      go (suc n) [] = refl
      go (suc n) (x ∷ xs) = rw (go n xs)

  length-reverse_lem : (xs : List A) → length (reverse xs) ≡ length xs
  length-reverse_lem [] = refl
  length-reverse_lem (x ∷ xs) =
      rw (reverse-cons x xs, length-append (reverse xs) (x ∷ []), length-reverse_lem xs)
        (omega arith)

  reverse-drop :
      (n : ℕ) (xs : List A)
      → n ≤ length xs
      → reverse (drop n xs) ≡ take (length xs - n) (reverse xs)
  reverse-drop zero xs h =
      rw (take-all (length xs - 0) (reverse xs) (rw (length-reverse_lem xs) (omega arith)))
  reverse-drop (suc n) [] h = absurd (omega arith)
  reverse-drop (suc n) (x ∷ xs) h =
      let e : suc (length xs) - suc n ≡ length xs - n = omega arith in
      rw (
        e,
        reverse-cons x xs,
        take-append (length xs - n) (reverse xs) (x ∷ [])
            (rw (length-reverse_lem xs) (omega arith)),
        reverse-drop n xs (omega arith),
      )

reverse-trim_log :
    (log : List WebhookDelivery) → reverse (trim_log log) ≡ take max_delivery_log (reverse log)
unfolding trim_log
reverse-trim_log log = elim (Bool-cases (ltb max_delivery_log (length log))) [
  | inl b ↦
      let e : length log - (length log - max_delivery_log) ≡ max_delivery_log = ground (arith, b) in
      rw (b, reverse-drop (length log - max_delivery_log) log (omega arith), e)
  | inr b ↦
      rw (
        b,
        take-all max_delivery_log (reverse log) (rw (length-reverse_lem log) (ground (arith, b))),
      )
]

reverse-log_delivery :
    (d : WebhookDelivery) (gen : Bytes) (now : ℕ) (st : Store)
    → reverse (log_delivery d gen now st).log
      ≡ take max_delivery_log (stamp d gen now ∷ reverse st.log)
unfolding log_delivery mark_dirty
reverse-log_delivery d gen now st = rw (
  reverse-trim_log (st.log ++ stamp d gen now ∷ []),
  reverse-append st.log (stamp d gen now ∷ []),
)

-- Lists that agree up to the limit still agree when the same deliveries go in front.
take-newest_first :
    (ds : List Logged) (xs ys : List WebhookDelivery)
    → take max_delivery_log xs ≡ take max_delivery_log ys
    → take max_delivery_log (newest_first ds xs) ≡ take max_delivery_log (newest_first ds ys)
take-newest_first [] xs ys h = h
take-newest_first ((d, gen, now) ∷ ds) xs ys h =
    take-newest_first ds (stamp d gen now ∷ xs) (stamp d gen now ∷ ys) cons
  where
    new : WebhookDelivery
    new = stamp d gen now

    cons : take max_delivery_log (new ∷ xs) ≡ take max_delivery_log (new ∷ ys)
    cons =
        sym (take-take-cons max_delivery_log new xs)
        ∙ ap (λ l. take max_delivery_log (new ∷ l)) h
        ∙ take-take-cons max_delivery_log new ys

reverse-log_all :
    (ds : List Logged) (st : Store)
    → length st.log ≤ max_delivery_log
    → reverse (log_all ds st).log ≡ take max_delivery_log (newest_first ds (reverse st.log))
unfolding log_all
reverse-log_all [] st h =
    sym (take-all max_delivery_log (reverse st.log) (rw (length-reverse_lem st.log) h))
reverse-log_all ((d, gen, now) ∷ ds) st h =
    reverse-log_all ds after short
    ∙ take-newest_first ds (reverse after.log) (stamp d gen now ∷ reverse st.log) (
        rw (reverse-log_delivery d gen now st)
          (take-take max_delivery_log (stamp d gen now ∷ reverse st.log)))
  where
    after : Store
    after = log_delivery d gen now st

    short : length after.log ≤ max_delivery_log
    short = omega (
      arith,
      length-reverse_lem after.log,
      ap length (reverse-log_delivery d gen now st),
      length-take max_delivery_log (stamp d gen now ∷ reverse st.log),
    )

take-nil : {A : Type 0} (n : ℕ) → take {A = A} n [] ≡ []
take-nil zero = refl
take-nil (suc n) = refl

recent_from-take :
    (n : ℕ) (ds out : List WebhookDelivery) → recent_from n ds out ≡ out ++ take (n - length out) ds
unfolding recent_from
recent_from-take n [] out = rw (take-nil (n - length out), append-nil out)
recent_from-take n (d ∷ ds) out = elim (Bool-cases (ltb (length out) n)) [
  | inl b ↦
      let e : n - length out ≡ suc (n - length (out ++ d ∷ [])) =
        ground (arith, b, length-append out (d ∷ [])) in
      rw (b, e, recent_from-take n ds (out ++ d ∷ []))
        (append_assoc out (d ∷ []) (take (n - length (out ++ d ∷ [])) ds))
  | inr b ↦ let e : n - length out ≡ 0 = ground (arith, b) in rw (b, e, append-nil out)
]

recent_from-nil : (n : ℕ) (ds : List WebhookDelivery) → recent_from n ds [] ≡ take n ds
recent_from-nil n ds =
    let e : n - 0 ≡ n = omega arith in recent_from-take n ds [] ∙ ap (λ m. take m ds) e

-- After any deliveries are logged, `RecentDeliveries(n)` returns the last `n` of all that were ever
-- logged, the newest first and at most 100 of them; with a count of 0 it returns the last 100. The log
-- is within its limit at the start.
pub recent_deliveries-newest :
    (ds : List Logged) (n : ℕ) (st : Store)
    → length st.log ≤ max_delivery_log
    → recent_deliveries n (log_all ds st)
      ≡ take
          (if n == 0 then max_delivery_log else n)
          (take max_delivery_log (newest_first ds (reverse st.log)))
unfolding recent_deliveries
recent_deliveries-newest ds n st h = elim (Bool-cases ((n == 0) || ltb (length log) n)) [
  | inl b ↦
      rw (b, recent_from-nil (length log) (reverse log))
        (all
          ∙ sym (elim (Bool-cases (n == 0)) [
            | inl z ↦ rw (z) (rw (sym e) (take-all max_delivery_log (reverse log) short))
            | inr z ↦ rw (z) (rw (sym e) (take-all n (reverse log) (ground (arith, z, b, size))))
          ]))
  | inr b ↦
      let z : (n == 0) ≡ false = ground (arith, b) in
      rw (b, recent_from-nil n (reverse log), z, sym e)
]
  where
    log : List WebhookDelivery
    log = (log_all ds st).log

    e : reverse log ≡ take max_delivery_log (newest_first ds (reverse st.log))
    e = reverse-log_all ds st h

    size : length (reverse log) ≡ length log
    size = length-reverse_lem log

    short : length (reverse log) ≤ max_delivery_log
    short =
        omega (arith, ap length e, length-take max_delivery_log (newest_first ds (reverse st.log)))

    all : take (length log) (reverse log) ≡ reverse log
    all = take-all (length log) (reverse log) (omega (arith, size))
