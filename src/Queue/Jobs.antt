-- ===== src/Queue/Jobs.antt =====
-- What the job table of internal/queue/queue.go goes through: lemmas on the table alone.
use stackly.Base.{
  ℕ, ◌≤◌, ◌≡◌, refl, ◌∙◌, ◌⊎◌, inl, inr, Bool, true, false, not, ◌&&◌, Option, none, some, [], ◌∷◌,
  Bytes, bytes_eq, bytes_eq_iff, ltb, leb, length, if◌then◌else◌, Bool-cases, Option-cases, arith,
}
use stackly.Base.Map
use stackly.Base.Map.{
  Map, get-put, get-remove, get-retain, length-put, length-retain-le, length-remove-le,
  put-Distinct, remove-Distinct, retain-Distinct,
}
use stackly.Queue.{
  Status, pending, running, completed, failed, Job, Queue, is_done, is_stale, oldest_done,
  drop_oldest, cleanup_locked,
}
use stackly.Queue.Worker.{update_job}

abbrev pub status : Option Job → Option Status
status none = none
status (some j) = some j.status

abbrev pub status_of : Bytes → Map Job → Option Status
status_of id jobs = status (Map.get id jobs)

-- The moves of a job's status from one moment to the next; `none` is no entry in the table.
unfoldable pub allowed : Option Status → Option Status → Bool
allowed none none = true
allowed none (some pending) = true
allowed (some pending) (some pending) = true
allowed (some pending) (some running) = true
allowed (some running) (some running) = true
allowed (some running) (some completed) = true
allowed (some running) (some failed) = true
allowed (some completed) (some completed) = true
allowed (some completed) none = true
allowed (some failed) (some failed) = true
allowed (some failed) none = true
allowed s t = false

pub allowed_refl : (s : Option Status) → allowed s s ≡ true
unfolding allowed
allowed_refl none = refl
allowed_refl (some pending) = refl
allowed_refl (some running) = refl
allowed_refl (some completed) = refl
allowed_refl (some failed) = refl

pub get-update_job :
    (id k : Bytes) (f : Job → Job) (jobs : Map Job)
    → Map.get k (update_job id f jobs) ≡ (
        if bytes_eq id k
        then (elim (Map.get k jobs) [ none ↦ none | some j ↦ some (f j) ])
        else Map.get k jobs)
unfolding update_job
get-update_job id k f jobs = elim (Option-cases (Map.get id jobs)) [
  | inl e ↦ rw (e, update_job) (ground (arith, bytes_eq_iff id k))
  | inr (j, e) ↦ rw (e, update_job) (ground (arith, bytes_eq_iff id k, get-put id k (f j) jobs))
]

pub length-update_job :
    (id : Bytes) (f : Job → Job) (jobs : Map Job) → length (update_job id f jobs) ≡ length jobs
unfolding update_job
length-update_job id f jobs = elim (Option-cases (Map.get id jobs)) [
  | inl e ↦ rw (e, update_job)
  | inr (j, e) ↦ rw (e, update_job, length-put id (f j) jobs, e)
]

pub update_job-Distinct :
    (id : Bytes) (f : Job → Job) (jobs : Map Job)
    → Map.Distinct jobs
    → Map.Distinct (update_job id f jobs)
unfolding update_job
update_job-Distinct id f jobs d = elim (Option-cases (Map.get id jobs)) [
  | inl e ↦ rw (e, update_job) d
  | inr (j, e) ↦ rw (e, update_job) (put-Distinct id (f j) jobs d)
]

abbrev pub done : Option Job → Bool
done none = false
done (some j) = is_done j.status

abbrev pub done_at : Bytes → Map Job → Bool
done_at id m = done (Map.get id m)

-- The loop over the finished jobs returns one of them.
oldest_done-from :
    (k : Bytes) (s : ℕ) (m : Map Job) (id : Bytes) (t : ℕ)
    → Map.Distinct m
    → oldest_done (some (k, s)) m ≡ some (id, t)
    → (k ≡ id) ⊎ (done_at id m ≡ true)
unfolding oldest_done Map.get
oldest_done-from k s [] id t d e = inl (ground arith)
oldest_done-from k s ((i, j) ∷ m) id t d e =
    elim (Bool-cases (is_done j.status && ltb j.created_at s)) [
      | inl b ↦ elim (oldest_done-from i j.created_at m id t d.1 (rw (b, oldest_done) at e)) [
        | inl q ↦ inr (ground (arith, bytes_eq_iff i id))
        | inr q ↦ inr (ground (arith, bytes_eq_iff i id))
      ]
      | inr b ↦ elim (oldest_done-from k s m id t d.1 (rw (b, oldest_done) at e)) [
        | inl q ↦ inl q
        | inr q ↦ inr (ground (arith, bytes_eq_iff i id))
      ]
    ]

oldest_done-IsDone :
    (m : Map Job) (id : Bytes) (t : ℕ)
    → Map.Distinct m
    → oldest_done none m ≡ some (id, t)
    → done_at id m ≡ true
unfolding oldest_done Map.get
oldest_done-IsDone [] id t d e = cc
oldest_done-IsDone ((i, j) ∷ m) id t d e = elim (Bool-cases (is_done j.status)) [
  | inl b ↦ elim (oldest_done-from i j.created_at m id t d.1 (rw (b, oldest_done) at e)) [
    | inl q ↦ ground (arith, bytes_eq_iff i id)
    | inr q ↦ ground (arith, bytes_eq_iff i id)
  ]
  | inr b ↦
      let rest = oldest_done-IsDone m id t d.1 (rw (b, oldest_done) at e) in
      ground (arith, bytes_eq_iff i id)
]

-- `delete(q.jobs, oldestID)`, if there is one.
drop_oldest-cases :
    (m : Map Job) (id : Bytes)
    → Map.Distinct m
    → let m' = drop_oldest m in
      (Map.get id m' ≡ Map.get id m) ⊎ ((Map.get id m' ≡ none) × (done_at id m ≡ true))
unfolding drop_oldest
drop_oldest-cases m id d = elim (Option-cases (oldest_done none m)) [
  | inl e ↦ rw (e, drop_oldest) (inl refl)
  | inr ((k, t), e) ↦ elim (Bool-cases (bytes_eq k [])) [
    | inl b ↦ rw (e, drop_oldest, b) (inl refl)
    | inr b ↦
        rw (e, drop_oldest, b)
          (elim (Bool-cases (bytes_eq k id)) [
            | inl q ↦
                inr (
                  ground
                    (arith, get-remove k id m, bytes_eq_iff k id, oldest_done-IsDone m k t d e))
            | inr q ↦ inl (ground (arith, get-remove k id m))
          ])
  ]
]

drop_oldest-Distinct : (m : Map Job) → Map.Distinct m → Map.Distinct (drop_oldest m)
unfolding drop_oldest
drop_oldest-Distinct m d = elim (Option-cases (oldest_done none m)) [
  | inl e ↦ rw (e, drop_oldest) d
  | inr ((k, t), e) ↦ elim (Bool-cases (bytes_eq k [])) [
    | inl b ↦ rw (e, drop_oldest, b) d
    | inr b ↦ rw (e, drop_oldest, b) (remove-Distinct k m d)
  ]
]

length-drop_oldest-le : (m : Map Job) → length (drop_oldest m) ≤ length m
unfolding drop_oldest
length-drop_oldest-le m = elim (Option-cases (oldest_done none m)) [
  | inl e ↦ rw (e, drop_oldest) (omega arith)
  | inr ((k, t), e) ↦ elim (Bool-cases (bytes_eq k [])) [
    | inl b ↦ rw (e, drop_oldest, b) (omega arith)
    | inr b ↦ rw (e, drop_oldest, b) (length-remove-le k m)
  ]
]

retain-cases :
    (now ttl : ℕ) (m : Map Job) (id : Bytes)
    → Map.Distinct m
    → let m' = Map.retain (λ _ j. not (is_stale now ttl j)) m in
      (Map.get id m' ≡ Map.get id m) ⊎ ((Map.get id m' ≡ none) × (done_at id m ≡ true))
retain-cases now ttl m id d = elim (Option-cases (Map.get id m)) [
  | inl e ↦ inl (ground (arith, get-retain (λ _ j. not (is_stale now ttl j)) id m d))
  | inr (j, e) ↦ elim (Bool-cases (is_stale now ttl j)) [
    | inl b ↦
        inr (ground (arith, get-retain (λ _ j. not (is_stale now ttl j)) id m d), ground arith)
    | inr b ↦ inl (ground (arith, get-retain (λ _ j. not (is_stale now ttl j)) id m d))
  ]
]

join_cases :
    (a b c : Option Job)
    → (b ≡ a) ⊎ ((b ≡ none) × (done a ≡ true))
    → (c ≡ b) ⊎ ((c ≡ none) × (done b ≡ true))
    → (c ≡ a) ⊎ ((c ≡ none) × (done a ≡ true))
join_cases a b c (inl p) (inl q) = inl (q ∙ p)
join_cases a b c (inl p) (inr (q, r)) = inr (q, rw (← p) r)
join_cases a b c (inr (p, r)) (inl q) = inr (q ∙ p, r)
join_cases a b c (inr (p, r)) (inr (q, _)) = inr (q, r)

pub cases-allowed :
    (a c : Option Job)
    → (c ≡ a) ⊎ ((c ≡ none) × (done a ≡ true))
    → allowed (status a) (status c) ≡ true
unfolding allowed
cases-allowed a c (inl e) = rw e (allowed_refl (status a))
cases-allowed a c (inr (e, h)) = rw e (ground arith)

-- A job that changes from `s` to `t` while the others stay.
pub update_job-allowed :
    (id k : Bytes) (f : Job → Job) (t : Status) (jobs : Map Job)
    → ((j : Job) → (f j).status ≡ t)
    → allowed (status_of id jobs) (some t) ≡ true
    → allowed (status_of k jobs) (status_of k (update_job id f jobs)) ≡ true
update_job-allowed id k f t jobs to h = elim (Bool-cases (bytes_eq id k)) [
  | inr b ↦ rw (get-update_job id k f jobs, b) (allowed_refl (status_of k jobs))
  | inl b ↦
      rw (get-update_job id k f jobs, b)
        (elim (Option-cases (Map.get k jobs)) [
          | inl e ↦ rw e (unfold allowed in refl)
          | inr (j, e) ↦ rw e (ground (arith, to j, bytes_eq_iff id k))
        ])
]

-- `cleanupLocked` leaves an entry as it is, or takes a finished one out.
pub cleanup_locked-cases :
    (now : ℕ) (q : Queue) (id : Bytes)
    → Map.Distinct q.jobs
    → let q' = cleanup_locked now q in
      (Map.get id q'.jobs ≡ Map.get id q.jobs)
      ⊎ ((Map.get id q'.jobs ≡ none) × (done_at id q.jobs ≡ true))
unfolding cleanup_locked
cleanup_locked-cases now q id d = elim (Bool-cases (leb q.max_jobs (length kept))) [
  | inl b ↦
      rw (b, cleanup_locked)
        (join_cases (Map.get id q.jobs) (Map.get id kept) _ kept_case
          (drop_oldest-cases kept id (retain-Distinct p q.jobs d)))
  | inr b ↦ rw (b, cleanup_locked) kept_case
]
  where
    p : Bytes → Job → Bool
    p _ j = not (is_stale now q.result_ttl j)

    kept : Map Job
    kept = Map.retain p q.jobs

    kept_case :
        (Map.get id kept ≡ Map.get id q.jobs)
        ⊎ ((Map.get id kept ≡ none) × (done_at id q.jobs ≡ true))
    kept_case = retain-cases now q.result_ttl q.jobs id d

pub cleanup_locked-Distinct :
    (now : ℕ) (q : Queue) → Map.Distinct q.jobs → Map.Distinct (cleanup_locked now q).jobs
unfolding cleanup_locked
cleanup_locked-Distinct now q d =
    elim (Bool-cases
      (leb q.max_jobs (length (Map.retain (λ _ j. not (is_stale now q.result_ttl j)) q.jobs)))) [
        | inl b ↦ rw (b, cleanup_locked) (drop_oldest-Distinct _ (retain-Distinct _ q.jobs d))
        | inr b ↦ rw (b, cleanup_locked) (retain-Distinct _ q.jobs d)
      ]

pub length-cleanup_locked-le :
    (now : ℕ) (q : Queue) → length (cleanup_locked now q).jobs ≤ length q.jobs
unfolding cleanup_locked
length-cleanup_locked-le now q = ground (
  arith,
  length-retain-le (λ _ j. not (is_stale now q.result_ttl j)) q.jobs,
  length-drop_oldest-le (Map.retain (λ _ j. not (is_stale now q.result_ttl j)) q.jobs),
)
