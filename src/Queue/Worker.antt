-- ===== src/Queue/Worker.antt =====
-- processJob of internal/queue/queue.go, in the pieces that a worker runs without interruption:
-- other goroutines may run between them, while the scanner is at work.
use stackly.Base.{
  ℕ, ◌+◌, true, Option, none, some, List, [], ◌∷◌, ◌++◌, Bytes, text, bytes_eq, length,
  if◌then◌else◌,
}
use stackly.Base.Map
use stackly.Base.Map.{Map}
use stackly.Base.Decimal.{show_nat}
use stackly.Scan.{Result, ScanResult}
use stackly.Cache
use stackly.Cache.{Cache, Entry}
use stackly.Hub.{EventType, Event, DetectedTech}
use stackly.Queue.{running, completed, failed, Job, Metrics, Queue, progress_event, publish}

-- A change of a job through its pointer: a job that is no longer in the table is out of sight.
unfoldable pub update_job : Bytes → (Job → Job) → Map Job → Map Job
update_job id f jobs = elim (Map.get id jobs) [ none ↦ jobs | some j ↦ Map.put id (f j) jobs ]

-- `<-q.pending`.
unfoldable pub take_job : Queue → Option (Bytes × Queue)
take_job q = elim q.channel [ [] ↦ none | id ∷ ids ↦ some (id, record q { channel = ids }) ]

abbrev pub started : ℕ → Job → Job
started now j = record j { status = running; started_at = some now }

unfoldable pub begin : Bytes → ℕ → Bytes → Queue → Option Queue
unfolding update_job
begin id now ts q =
    publish id ts (progress_event (text "running") 10 (text "Worker picked up job"))
      (record q { jobs = update_job id (started now) q.jobs })

bump : Bytes → Map ℕ → Map ℕ
bump k m = elim (Map.get k m) [ none ↦ Map.put k 1 m | some n ↦ Map.put k (n + 1) m ]

unfoldable pub record_scan_detections : List Result → Metrics → Metrics
unfolding bump
record_scan_detections [] m = m
record_scan_detections (r ∷ rs) m =
    let t = r.technology in
    record_scan_detections rs (record m {
      scan_detections =
          if bytes_eq t.category [] then m.scan_detections else bump t.category m.scan_detections;
      scan_tech_matches =
          if bytes_eq t.slug [] then m.scan_tech_matches else bump t.slug m.scan_tech_matches;
    })

pub to_detected_techs : List Result → List DetectedTech
to_detected_techs [] = []
to_detected_techs (r ∷ rs) =
    record {
      slug = r.technology.slug;
      name = r.technology.name;
      category = r.technology.category;
      confidence = r.confidence;
    }
    ∷ to_detected_techs rs

abbrev pub finished_cached : Entry ScanResult → ℕ → Job → Job
finished_cached e now j = record j {
  status = completed;
  finished_at = some now;
  duration = text "0s (cached)";
  result = some e.result;
  from_cache = true;
  ua = e.user_agent;
}

abbrev cached_metrics : List Result → Metrics → Metrics
cached_metrics rs m = record_scan_detections rs (record m {
  cache_hits = m.cache_hits + 1;
  completed_hit = m.completed_hit + 1;
  queue_completed = m.queue_completed + 1;
})

-- The branch of a cache hit.
unfoldable pub finish_cached : Bytes → Entry ScanResult → ℕ → Queue → Queue
unfolding update_job record_scan_detections
finish_cached id e now q = record q {
  jobs = update_job id (finished_cached e now) q.jobs;
  metrics = cached_metrics e.result.results q.metrics;
}

-- What a scan and the clock give: the result, the last user agent, the time at the end and the
-- rendered duration, the text of the time of the event, and what `Cache.Set` reads of the clock.
pub record Outcome : Type 0 where
  pub result : ScanResult
  pub ua : Bytes
  pub finished : ℕ
  pub duration : Bytes
  pub ts : Bytes
  pub cached_at : ℕ
  pub evicted_at : ℕ
  pub saved_at : ℕ

pub terminal_event : ScanResult → Event
terminal_event r = elim r.error [
  | some e ↦ record {
    type = EventType.failed;
    job_id = [];
    status = text "failed";
    percent = 0;
    message = [];
    techs = [];
    error = e;
    ts = [];
  }
  | none ↦ record {
    type = EventType.completed;
    job_id = [];
    status = text "completed";
    percent = 100;
    message = text "Detected " ++ (show_nat (length r.results) ++ text " technologies");
    techs = to_detected_techs r.results;
    error = [];
    ts = [];
  }
]

abbrev pub finished_failed : Outcome → Bytes → Job → Job
finished_failed o e j = record j {
  status = failed;
  finished_at = some o.finished;
  duration = o.duration;
  ua = o.ua;
  error = e;
}

abbrev pub finished_completed : Outcome → Job → Job
finished_completed o j = record j {
  status = completed;
  finished_at = some o.finished;
  duration = o.duration;
  ua = o.ua;
  result = some o.result;
}

module _ (sha256 : Bytes → Bytes) where
  -- The section after the event, under the lock.
  unfoldable pub record_outcome : Bytes → Bytes → Outcome → Queue → Queue
  unfolding update_job record_scan_detections
  record_outcome id url o q = elim o.result.error [
    | some e ↦ record q {
      jobs = update_job id (finished_failed o e) q.jobs;
      metrics = record q.metrics {
        failed_miss = q.metrics.failed_miss + 1;
        queue_failed = q.metrics.queue_failed + 1;
      };
    }
    | none ↦ record q {
      jobs = update_job id (finished_completed o) q.jobs;
      metrics = record_scan_detections o.result.results (record q.metrics {
        completed_miss = q.metrics.completed_miss + 1;
        queue_completed = q.metrics.queue_completed + 1;
      });
      cache = elim q.cache [
        | none ↦ none
        | some c ↦ some (Cache.set sha256 url o.result o.ua o.cached_at o.evicted_at o.saved_at c)
      ];
    }
  ]

  unfoldable pub finish_scan : Bytes → Bytes → Outcome → Queue → Option Queue
  unfolding terminal_event record_outcome
  finish_scan id url o q = elim (publish id o.ts (terminal_event o.result) q) [
    | none ↦ none
    | some q' ↦ some (record_outcome id url o q')
  ]

  -- `q.cache.Get(job.URL)` with its counters; a queue with no cache finds nothing.
  unfoldable pub lookup_cache : Bytes → ℕ → Queue → Queue × Option (Entry ScanResult)
  lookup_cache url now q = elim q.cache [
    | none ↦ (q, none)
    | some c ↦
        let (c', found) = Cache.get sha256 url now c in
        (
          elim found [
            | none ↦ record q {
              cache = some c';
              metrics = record q.metrics { cache_misses = q.metrics.cache_misses + 1 };
            }
            | some e ↦ record q { cache = some c' }
          ],
          found,
        )
  ]

  -- The whole handler, with nothing in between. `looked` and `done` are read in the branch of a hit.
  unfoldable pub process_job : Bytes → Bytes → ℕ → Bytes → ℕ → ℕ → Outcome → Queue → Option Queue
  process_job id url now ts looked done o q = elim (begin id now ts q) [
    | none ↦ none
    | some q' ↦
        let (q'', found) = lookup_cache url looked q' in
        elim found [ some e ↦ some (finish_cached id e done q'') | none ↦ finish_scan id url o q'' ]
  ]
