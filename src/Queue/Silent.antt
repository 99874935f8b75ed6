-- ===== src/Queue/Silent.antt =====
-- The branch of a cache hit in processJob, as a subscriber of the job's events sees it.
use stackly.Base.{ℕ, ◌≡◌, some, [], ◌∷◌, ◌++◌, Bytes, text, bytes_eq_refl, arith}
use stackly.Scan.{ScanResult}
use stackly.Cache.{Entry}
use stackly.Hub.{replay_of, last_n, stamp, Event}
use stackly.Hub.Open.{IsOpen, publish-Delivered}
use stackly.Hub.Replay.{publish-replay}
use stackly.Queue.{pending, running, completed, Queue, publish, progress_event}
use stackly.Queue.Worker.{
  Outcome, update_job, started, finished_cached, begin, lookup_cache, finish_cached, process_job,
}
use stackly.Queue.Jobs.{status_of, get-update_job}

module _ (sha256 : Bytes → Bytes) (id url : Bytes) (e : Entry ScanResult) (looked n : ℕ)
    (q : Queue) where
  jobs-lookup : (lookup_cache sha256 url looked q).0.jobs ≡ q.jobs
  unfolding lookup_cache
  jobs-lookup = ground arith

  hub-finish : (finish_cached id e n (lookup_cache sha256 url looked q).0).hub ≡ q.hub
  unfolding finish_cached lookup_cache
  hub-finish = ground arith

  status-finish :
      status_of id q.jobs ≡ some running
      → status_of id (finish_cached id e n (lookup_cache sha256 url looked q).0).jobs
        ≡ some completed
  unfolding finish_cached
  status-finish r =
      rw (jobs-lookup, get-update_job id id (finished_cached e n) q.jobs, bytes_eq_refl id)
        (ground (arith, r))

-- A job whose page is cached is completed without a word: after the event that says it is running,
-- nothing is published for it, although its status is then completed.
pub cached_job_is_silent :
    (sha256 : Bytes → Bytes) (id url : Bytes) (now : ℕ) (ts : Bytes) (looked finished : ℕ)
    (o : Outcome) (q : Queue) (e : Entry ScanResult)
    → IsOpen q.hub
    → status_of id q.jobs ≡ some pending
    → (lookup_cache sha256 url looked q).1 ≡ some e
    → (q' : Queue) × (process_job sha256 id url now ts looked finished o q ≡ some q')
      × (status_of id q'.jobs ≡ some completed)
      × (replay_of q'.hub id
          ≡ last_n q.hub.replay_size (
              replay_of q.hub id
              ++ stamp id ts (progress_event (text "running") 10 (text "Worker picked up job"))
                ∷ []))
unfolding process_job
cached_job_is_silent sha256 id url now ts looked finished o q e v p h =
    let (hub, e0, _, _) = publish-Delivered id ts working q.hub v in
    let q1 : Queue = record q { jobs = update_job id (started now) q.jobs; hub = hub } in
    let b : begin id now ts q ≡ some q1 = unfold begin publish in rw (e0, publish) in
    let f : (lookup_cache sha256 url looked q1).1 ≡ some e =
      unfold lookup_cache in ground (arith, h) in
    (
      finish_cached id e finished (lookup_cache sha256 url looked q1).0,
      rw (b, process_job) (rw f),
      status-finish sha256 id url e looked finished q1
          (rw (get-update_job id id (started now) q.jobs, bytes_eq_refl id) (ground (arith, p))),
      rw (hub-finish sha256 id url e looked finished q1)
          (rw ((publish-replay id id ts working q.hub hub e0).0, bytes_eq_refl id)),
    )
  where
    working : Event
    working = progress_event (text "running") 10 (text "Worker picked up job")
