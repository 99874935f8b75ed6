-- ===== src/Queue.antt =====
-- internal/queue/queue.go: the job table, its channel and the steps of a worker.
-- Jobs are named by their id, which stands for the pointer that the table, the channel and a worker
-- share. What comes from outside (clock, ids, the scan's outcome, the rendered duration) is an
-- argument. `none` is a panic, which only `Publish` can raise.
pub mod Worker
pub mod Steps
pub mod Jobs
pub mod Admission
pub mod Lifecycle
pub mod Moves
pub mod Safety
pub mod Silent
pub mod Listing
mod Examples
use stackly.Base.{
  ℕ, suc, ◌+◌, ◌*◌, Bool, true, false, not, ◌&&◌, ◌||◌, Option, none, some, is_some, List, [], ◌∷◌,
  ◌++◌, Bytes, text, bytes_eq, ltb, leb, length, take, map, if◌then◌else◌,
}
use stackly.Base.Map
use stackly.Base.Map.{Map}
use stackly.Base.Sort.{exchange_sort}
use stackly.Base.Decimal.{show_nat}
use stackly.Scan.{Result, ScanResult}
use stackly.Cache
use stackly.Cache.{Cache, Entry}
use stackly.Hub
use stackly.Hub.{Hub, Event, EventType, DetectedTech}

pub data Status : Type 0 where
  pending running completed failed : Status

pub record Job : Type 0 where
  pub id : Bytes
  pub url : Bytes
  pub status : Status
  pub created_at : ℕ
  pub started_at : Option ℕ
  pub finished_at : Option ℕ
  pub duration : Bytes
  pub error : Bytes
  pub result : Option ScanResult
  pub from_cache : Bool
  pub ua : Bytes

-- The counters of internal/metrics that this package touches.
pub record Metrics : Type 0 where
  pub queue_depth : ℕ
  pub queue_completed : ℕ
  pub queue_failed : ℕ
  pub cache_hits : ℕ
  pub cache_misses : ℕ
  pub completed_hit : ℕ
  pub completed_miss : ℕ
  pub failed_miss : ℕ
  pub scan_detections : Map ℕ
  pub scan_tech_matches : Map ℕ

pub record Queue : Type 0 where
  pub jobs : Map Job
  pub channel : List Bytes
  pub cache : Option (Cache ScanResult)
  pub hub : Hub
  pub max_jobs : ℕ
  pub result_ttl : ℕ
  pub metrics : Metrics

-- The room of the channel `pending`.
abbrev pub channel_size : ℕ
channel_size = 100

abbrev pub hour : ℕ
hour = 3_600_000_000_000

abbrev no_metrics : Metrics
no_metrics = record {
  queue_depth = 0;
  queue_completed = 0;
  queue_failed = 0;
  cache_hits = 0;
  cache_misses = 0;
  completed_hit = 0;
  completed_miss = 0;
  failed_miss = 0;
  scan_detections = [];
  scan_tech_matches = [];
}

unfoldable pub new_job_queue : Option (Cache ScanResult) → Hub → Queue
new_job_queue cache hub = record {
  jobs = [];
  channel = [];
  cache = cache;
  hub = hub;
  max_jobs = 1000;
  result_ttl = 24 * hour;
  metrics = no_metrics;
}

abbrev pub is_done : Status → Bool
is_done completed = true
is_done failed = true
is_done s = false

-- The loop that looks for the oldest finished job.
pub oldest_done : Option (Bytes × ℕ) → Map Job → Option (Bytes × ℕ)
oldest_done best [] = best
oldest_done none ((id, j) ∷ m) =
    oldest_done (if is_done j.status then some (id, j.created_at) else none) m
oldest_done (some (i, t)) ((id, j) ∷ m) =
    oldest_done
      (if is_done j.status && ltb j.created_at t then some (id, j.created_at) else some (i, t)) m

-- `job.CreatedAt.Before(now.Add(-ttl))`, without a difference that could be negative.
abbrev is_stale : ℕ → ℕ → Job → Bool
is_stale now ttl j = is_done j.status && ltb (j.created_at + ttl) now

-- The second half of `cleanupLocked`: the oldest finished job goes.
drop_oldest : Map Job → Map Job
drop_oldest m = elim (oldest_done none m) [
  | none ↦ m
  | some (id, t) ↦ if bytes_eq id [] then m else Map.remove id m
]

pub cleanup_locked : ℕ → Queue → Queue
cleanup_locked now q =
    let kept = Map.retain (λ _ j. not (is_stale now q.result_ttl j)) q.jobs in
    record q { jobs = if leb q.max_jobs (length kept) then drop_oldest kept else kept }

pub data Enqueued : Type 0 where
  queued : Job → Enqueued
  queue_full : Enqueued

abbrev progress_event : Bytes → ℕ → Bytes → Event
progress_event status percent message = record {
  type = EventType.progress;
  job_id = [];
  status = status;
  percent = percent;
  message = message;
  techs = [];
  error = [];
  ts = [];
}

abbrev new_job : Bytes → Bytes → ℕ → Job
new_job id url now = record {
  id = id;
  url = url;
  status = pending;
  created_at = now;
  started_at = none;
  finished_at = none;
  duration = [];
  error = [];
  result = none;
  from_cache = false;
  ua = [];
}

-- The job goes into the table, and into the channel if there is room.
insert_job : Job → Queue → Queue
insert_job job q =
    let channel =
      if ltb (length q.channel) channel_size then q.channel ++ job.id ∷ [] else q.channel in
    record q {
      jobs = Map.put job.id job q.jobs;
      channel = channel;
      metrics = record q.metrics { queue_depth = length channel };
    }

-- `Publish` on the queue's hub, at a time whose text is `ts`.
pub publish : Bytes → Bytes → Event → Queue → Option Queue
publish id ts ev q = elim (Hub.publish id ts ev q.hub) [
  | none ↦ none
  | some hub ↦ some (record q { hub = hub })
]

pub make_room : ℕ → Queue → Queue
make_room now q = if leb q.max_jobs (length q.jobs) then cleanup_locked now q else q

-- What `Enqueue` does once it has tried to make room.
admit : Bytes → Bytes → ℕ → Bytes → Queue → Option (Queue × Enqueued)
admit url id now ts q =
    if leb q.max_jobs (length q.jobs)
    then some (q, queue_full)
    else elim (publish id ts (progress_event (text "pending") 0 (text "Queued for scan"))
        (insert_job (new_job id url now) q)) [
          | none ↦ none
          | some q' ↦ some (q', queued (new_job id url now))
        ]

-- `id` is what `generateID` returns; `now` is read by `cleanupLocked`, then for the job.
pub enqueue : Bytes → Bytes → ℕ → Bytes → Queue → Option (Queue × Enqueued)
enqueue url id now ts q = admit url id now ts (make_room now q)

pub get_job : Bytes → Queue → Option Job
get_job id q = Map.get id q.jobs

-- Newest first, `limit` of them if it is positive.
pub list_jobs : ℕ → Queue → List Job
list_jobs limit q =
    let jobs = exchange_sort (λ a b. ltb b.created_at a.created_at) (Map.values q.jobs) in
    if ltb 0 limit && ltb limit (length jobs) then take limit jobs else jobs

pub record Stats : Type 0 where
  pub total : ℕ
  pub pending : ℕ
  pub running : ℕ
  pub completed : ℕ
  pub failed : ℕ

count : Stats → Status → Stats
count s pending = record s { pending = s.pending + 1 }
count s running = record s { running = s.running + 1 }
count s completed = record s { completed = s.completed + 1 }
count s failed = record s { failed = s.failed + 1 }

count_all : Stats → Map Job → Stats
unfolding count
count_all s [] = s
count_all s ((id, j) ∷ m) = count_all (count s j.status) m

pub stats : Queue → Stats
unfolding count_all
stats q =
    count_all
      (record { total = length q.jobs; pending = 0; running = 0; completed = 0; failed = 0 }) q.jobs
