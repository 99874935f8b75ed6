-- ===== src/Queue/Listing.antt =====
-- ListJobs and Stats of internal/queue/queue.go.
use mathlib.Core.List.{Perm}
use stackly.Base.{
  ℕ, ◌+◌, ◌≡◌, refl, inl, inr, Bool, true, false, List, [], ◌∷◌, ltb, length, take, take-all,
  if◌then◌else◌, Bool-cases, arith, ◌&&◌,
}
use stackly.Base.Map
use stackly.Base.Map.{Map}
use stackly.Base.Sort.{exchange_sort, Sorted, exchange_sort-perm, exchange_sort-Sorted}
use stackly.Queue.{
  Status, pending, running, completed, failed, Job, Queue, Stats, count, count_all, list_jobs,
  stats,
}

abbrev pub newer : Job → Job → Bool
newer a b = ltb b.created_at a.created_at

-- `ListJobs` returns the jobs of the table from the newest to the oldest, each as often as it
-- stands in the table: the first `limit` of them, or all if `limit` is 0.
pub list_jobs-newest :
    (limit : ℕ) (q : Queue)
    → (jobs : List Job) × Perm jobs (Map.values q.jobs)
      × Sorted newer jobs
      × (list_jobs limit q ≡ (if ltb 0 limit then take limit jobs else jobs))
unfolding list_jobs
list_jobs-newest limit q = (
  jobs,
  exchange_sort-perm newer (Map.values q.jobs),
  exchange_sort-Sorted newer (λ a b h. ground arith) (λ a b c h k. ground arith)
      (Map.values q.jobs),
  cut,
)
  where
    jobs : List Job
    jobs = exchange_sort newer (Map.values q.jobs)

    cut :
        (if ltb 0 limit && ltb limit (length jobs) then take limit jobs else jobs)
        ≡ (if ltb 0 limit then take limit jobs else jobs)
    cut = elim (Bool-cases (ltb limit (length jobs))) [
      | inl b ↦ ground (arith, b)
      | inr b ↦ ground (arith, b, take-all limit jobs (ground arith))
    ]

abbrev is_status : Status → Status → Bool
is_status pending pending = true
is_status running running = true
is_status completed completed = true
is_status failed failed = true
is_status s t = false

-- How many jobs have a status.
pub jobs_with : Status → Map Job → ℕ
jobs_with s [] = 0
jobs_with s ((id, j) ∷ m) = (if is_status s j.status then 1 else 0) + jobs_with s m

count_all-jobs :
    (s : Stats) (m : Map Job)
    → ((count_all s m).total ≡ s.total)
      × ((count_all s m).pending ≡ s.pending + jobs_with pending m)
      × ((count_all s m).running ≡ s.running + jobs_with running m)
      × ((count_all s m).completed ≡ s.completed + jobs_with completed m)
      × ((count_all s m).failed ≡ s.failed + jobs_with failed m)
unfolding count_all jobs_with
count_all-jobs s [] = omega arith
count_all-jobs s ((id, j) ∷ m) = ground (arith, count_all-jobs (count s j.status) m)

jobs_with-sum :
    (m : Map Job)
    → jobs_with pending m + jobs_with running m + jobs_with completed m + jobs_with failed m
      ≡ length m
unfolding jobs_with
jobs_with-sum [] = refl
jobs_with-sum ((id, j) ∷ m) = ground (arith, jobs_with-sum m)

-- `Stats` counts the jobs of each status, and its four counts add up to its total, the size of the
-- table.
pub stats-exact :
    (q : Queue)
    → let s = stats q in
      (s.total ≡ length q.jobs)
      × (s.pending + s.running + s.completed + s.failed ≡ s.total)
      × (s.pending ≡ jobs_with pending q.jobs)
      × (s.running ≡ jobs_with running q.jobs)
      × (s.completed ≡ jobs_with completed q.jobs)
      × (s.failed ≡ jobs_with failed q.jobs)
unfolding stats
stats-exact q = omega (
  arith,
  count_all-jobs
      (record { total = length q.jobs; pending = 0; running = 0; completed = 0; failed = 0 })
      q.jobs,
  jobs_with-sum q.jobs,
)
