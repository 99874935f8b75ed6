-- ===== src/Queue/Examples.antt =====
-- The queue at work, and its theorems at concrete inputs.
use stackly.Base.{◌≡◌, refl, none, some, List, [], ◌∷◌, ◌++◌, Bytes, text, bytes_eq, arith}
use stackly.Base.Map
use stackly.Base.Keys.{has}
use stackly.Scan.{ScanResult}
use stackly.Cache.{Cache, Entry}
use stackly.Cache.Url.{url_key, normalize_url}
use stackly.Cache.Lookup.{get-exact}
use stackly.Hub.{new_hub, replay_of, last_n, stamp}
use stackly.Hub.Open.{IsOpen, new_hub-IsOpen}
use stackly.Queue.{
  pending, completed, Queue, Enqueued, new_job, new_job_queue, make_room, enqueue, progress_event,
}
use stackly.Queue.Admission.{Answers, enqueue-Answers}
use stackly.Queue.Worker.{Outcome, lookup_cache, process_job}
use stackly.Queue.Jobs.{status_of}
use stackly.Queue.Steps.{World, Op, enqueues, picks, scans, sweeps, step, run}
use stackly.Queue.Lifecycle.{IsGood, Advances}
use stackly.Queue.Safety.{step-Advances, run-IsGood, run_strands, IsFresh, new_ids}
use stackly.Queue.Silent.{cached_job_is_silent}

abbrev digest : Bytes → Bytes
digest s = s

abbrev page : ScanResult
page = record {
  url = text "a";
  html = [];
  headers = [];
  scripts = [];
  css_links = [];
  js_globals = [];
  meta_tags = [];
  cookies = [];
  results = [];
  emails = [];
  scan_duration = 0;
  error = none;
}

abbrev outcome : Outcome
outcome = record {
  result = page;
  ua = text "ua";
  finished = 9;
  duration = text "4ns";
  ts = text "t";
  cached_at = 9;
  evicted_at = 9;
  saved_at = 9;
}

abbrev empty : World
empty = record { queue = new_job_queue none new_hub; working = [] }

empty-IsGood : IsGood empty
unfolding new_job_queue Map.get has
empty-IsGood = record {
  distinct = tt;
  bounded = omega arith;
  once = tt;
  room = omega arith;
  queued = λ id h. absurd (ground arith);
  busy = λ id h. absurd (ground arith);
}

empty-IsOpen : IsOpen empty.queue.hub
unfolding new_job_queue
empty-IsOpen = new_hub-IsOpen

abbrev history : List Op
history =
    enqueues (text "a") (text "1") 3 (text "t")
    ∷ enqueues (text "b") (text "2") 4 (text "t")
    ∷ picks 5 (text "t")
    ∷ scans (text "1") (text "a") outcome
    ∷ sweeps 6
    ∷ []

step-Advances_example :
    (w : World) × (step digest empty (enqueues (text "a") (text "1") 3 (text "t")) ≡ some w)
    × Advances empty w (text "1" ∷ [])
unfolding new_job_queue Map.get
step-Advances_example =
    step-Advances digest empty (enqueues (text "a") (text "1") 3 (text "t")) empty-IsGood
      empty-IsOpen (λ id h. refl)

run-IsGood_example :
    (w : World) × (run digest empty history ≡ some w) × IsGood w × IsOpen w.queue.hub
unfolding new_job_queue Map.get has bytes_eq
run-IsGood_example =
    run-IsGood digest history empty empty-IsGood empty-IsOpen (refl, (refl, tt)) (λ id h. refl)

-- A table whose job 7 found the channel full.
abbrev stranded : World
stranded = record {
  queue = record (new_job_queue none new_hub) {
    jobs = (text "7", new_job (text "7") (text "c") 1) ∷ [];
  };
  working = [];
}

stranded-IsGood : IsGood stranded
unfolding new_job_queue Map.get has
stranded-IsGood = record {
  distinct = (refl, tt);
  bounded = omega arith;
  once = tt;
  room = omega arith;
  queued = λ id h. absurd (ground arith);
  busy = λ id h. absurd (ground arith);
}

stranded-IsOpen : IsOpen stranded.queue.hub
unfolding new_job_queue
stranded-IsOpen = new_hub-IsOpen

abbrev sweeping : List Op
sweeping = picks 5 (text "t") ∷ sweeps 900_000_000_000_000 ∷ []

nothing_new : IsFresh stranded (new_ids sweeping)
unfolding has
nothing_new id h = absurd (ground arith)

abbrev swept : World
swept = (run-IsGood digest sweeping stranded stranded-IsGood stranded-IsOpen tt nothing_new).0

run_strands_example : status_of (text "7") swept.queue.jobs ≡ some pending
unfolding new_job_queue Map.get has bytes_eq
run_strands_example =
    run_strands digest sweeping stranded swept (text "7") stranded-IsGood stranded-IsOpen tt
      nothing_new refl refl
      (run-IsGood digest sweeping stranded stranded-IsGood stranded-IsOpen tt nothing_new).1

abbrev cached_page : Entry ScanResult
cached_page = record {
  url = text "c";
  result = page;
  cached_at = 0;
  expires_at = 50;
  user_agent = text "ua";
}

abbrev warm : Cache ScanResult
warm = record {
  entries = (text "63", cached_page) ∷ [];
  ttl = 50;
  path = [];
  max_size = 5;
  hits = 0;
  misses = 0;
  file = none;
  storage = record {
    marshal = λ m. none;
    unmarshal = λ bytes. none;
    write_file = λ bytes old. old;
  };
}

abbrev cached : Queue
cached = record stranded.queue { cache = some warm }

cached_found : (lookup_cache digest (text "c") 6 cached).1 ≡ some cached_page
unfolding lookup_cache url_key normalize_url Map.get bytes_eq
cached_found = (get-exact digest (text "c") 6 warm).0

hit_is_silent :
    (q : Queue) × (process_job digest (text "7") (text "c") 5 (text "t") 6 7 outcome cached
      ≡ some q)
    × (status_of (text "7") q.jobs ≡ some completed)
    × (replay_of q.hub (text "7")
        ≡ last_n cached.hub.replay_size (
            replay_of cached.hub (text "7")
            ++ stamp
                (text "7")
                (text "t")
                (progress_event (text "running") 10 (text "Worker picked up job"))
              ∷ []))
unfolding new_job_queue Map.get bytes_eq
hit_is_silent =
    cached_job_is_silent digest (text "7") (text "c") 5 (text "t") 6 7 outcome cached cached_page
      stranded-IsOpen refl cached_found

enqueue-Answers_example :
    (q : Queue) × (e : Enqueued) × (enqueue (text "a") (text "1") 3 (text "t") empty.queue
      ≡ some (q, e))
    × Answers (make_room 3 empty.queue) (text "a") (text "1") 3 q e
enqueue-Answers_example =
    enqueue-Answers (text "a") (text "1") 3 (text "t") empty.queue empty-IsOpen
