-- ===== src/Server/Wait.antt =====
-- waitForJob of internal/api/server.go. `clock` gives the time at the check of each round, and `view`
-- what GetJob returns in it; times are nanoseconds.
use stackly.Base.{
  ℕ, zero, suc, ◌+◌, ◌*◌, ◌≤◌, ◌<◌, ◌⊎◌, ◌≡◌, refl, subst, Bool, true, false, Option, none, some,
  ltb, ltb-false→le, ltb→lt, if◌then◌else◌, ◌==◌, Bool-cases, inl, inr, arith,
}
use stackly.Queue.{Job, is_done}

abbrev half_second : ℕ
half_second = 500_000_000

-- Sixty seconds for a time that is not positive, and at most three hundred.
unfoldable pub wait_seconds : ℕ → ℕ
wait_seconds max_seconds =
    if max_seconds == 0 then 60 else if ltb 300 max_seconds then 300 else max_seconds

abbrev pub is_finished : Option Job → Bool
is_finished none = false
is_finished (some j) = is_done j.status

-- The round in which the loop ends; `none` is a loop that has run out of fuel.
unfoldable pub poll : ℕ → ℕ → ℕ → (ℕ → ℕ) → (ℕ → Option Job) → Option ℕ
poll zero n deadline clock view = none
poll (suc fuel) n deadline clock view =
    let rest = poll fuel (n + 1) deadline clock view in
    if ltb (clock n) deadline then if is_finished (view n) then some n else rest else some n

unfoldable pub wait_for_job : ℕ → ℕ → (ℕ → ℕ) → (ℕ → Option Job) → Option ℕ
unfolding poll wait_seconds
wait_for_job max_seconds start clock view =
    poll (2 * wait_seconds max_seconds + 1) 0 (start + wait_seconds max_seconds * 1_000_000_000)
      clock view

-- How a wait ends: at a round before which the job was never seen finished, with the job finished or
-- the deadline reached.
abbrev pub EndsAt : ℕ → (ℕ → ℕ) → (ℕ → Option Job) → ℕ → Type 0
EndsAt deadline clock view n =
    ((j : ℕ) → j < n → is_finished (view j) ≡ false)
    × ((is_finished (view n) ≡ true) ⊎ (deadline ≤ clock n))

-- One more round in which the job was not finished.
not_before :
    (n : ℕ) (view : ℕ → Option Job)
    → ((j : ℕ) → j < n → is_finished (view j) ≡ false)
    → is_finished (view n) ≡ false
    → (j : ℕ) → j < n + 1
    → is_finished (view j) ≡ false
not_before n view before unseen j h = elim (Bool-cases (ltb j n)) [
  | inl e ↦ before j (ltb→lt j n e)
  | inr e ↦
      let same : n ≡ j = omega (arith, ltb-false→le j n e) in
      subst (λ k. is_finished (view k) ≡ false) same unseen
]

module _ (deadline : ℕ) (clock : ℕ → ℕ) (view : ℕ → Option Job)
    (ticks : (i : ℕ) → clock i + half_second ≤ clock (i + 1)) where
  abbrev Ends : ℕ → ℕ → Type 0
  Ends fuel n =
      (m : ℕ) × (poll (suc fuel) n deadline clock view ≡ some m)
      × (m ≤ n + fuel)
      × EndsAt deadline clock view m

  -- A round that ends the loop at once, or the next round.
  one_round :
      (fuel n : ℕ)
      → ((j : ℕ) → j < n → is_finished (view j) ≡ false)
      → (clock n < deadline
          → is_finished (view n) ≡ false
          → (m : ℕ) × (poll fuel (n + 1) deadline clock view ≡ some m)
            × (m ≤ n + fuel)
            × EndsAt deadline clock view m)
      → Ends fuel n
  unfolding poll
  one_round fuel n before next = elim (Bool-cases (ltb (clock n) deadline)) [
    | inr late ↦
        (n, rw late refl, omega arith, (before, inr (ltb-false→le (clock n) deadline late)))
    | inl early ↦ elim (Bool-cases (is_finished (view n))) [
      | inl seen ↦ (n, rw (early, seen) refl, omega arith, (before, inl seen))
      | inr unseen ↦
          let (m, e, le, ends) = next (ltb→lt (clock n) deadline early) unseen in
          (m, rw (early, unseen) e, le, ends)
    ]
  ]

  poll-Ends :
      (fuel n : ℕ)
      → deadline ≤ clock n + fuel * half_second
      → ((j : ℕ) → j < n → is_finished (view j) ≡ false)
      → Ends fuel n
  poll-Ends zero n enough before = one_round zero n before (λ early unseen. absurd (omega arith))
  poll-Ends (suc fuel) n enough before = one_round (suc fuel) n before (λ early unseen.
      let (m, e, le, ends) =
        poll-Ends fuel (n + 1) (omega (arith, ticks n)) (not_before n view before unseen) in
      (m, e, omega arith, ends))

wait_seconds_range : (s : ℕ) → (1 ≤ wait_seconds s) × (wait_seconds s ≤ 300)
unfolding wait_seconds
wait_seconds_range s = ground arith

-- Where half a second or more goes by between two rounds, `waitForJob` ends, whatever the queue does,
-- after at most two rounds for each second that it may wait, and so after at most 600. It ends at the
-- first round in which the job is completed or failed, or once its time is up.
pub wait_for_job-ends :
    (max_seconds start : ℕ) (clock : ℕ → ℕ) (view : ℕ → Option Job)
    → start ≤ clock 0
    → ((i : ℕ) → clock i + half_second ≤ clock (i + 1))
    → (m : ℕ) × (wait_for_job max_seconds start clock view ≡ some m)
      × (m ≤ 2 * wait_seconds max_seconds)
      × (m ≤ 600)
      × EndsAt (start + wait_seconds max_seconds * 1_000_000_000) clock view m
unfolding wait_for_job
wait_for_job-ends max_seconds start clock view begins ticks =
    let s = wait_seconds max_seconds in
    let (m, e, le, ends) =
      poll-Ends (start + s * 1_000_000_000) clock view ticks (2 * s) 0 (omega arith)
        (λ j h. absurd (omega arith)) in
    let rounds : suc (2 * s) ≡ 2 * s + 1 = omega arith in
    (
      m,
      subst (λ f. poll f 0 (start + s * 1_000_000_000) clock view ≡ some m) rounds e,
      omega arith,
      omega (arith, wait_seconds_range max_seconds),
      ends,
    )
