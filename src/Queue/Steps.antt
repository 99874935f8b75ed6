-- ===== src/Queue/Steps.antt =====
-- The queue with its workers: `working` names the jobs that a worker has taken and not finished.
-- A step is a call of `Enqueue` or `cleanup`, of `Subscribe` or `Unsubscribe`, or a piece of `worker` and
-- `processJob`: the receive from the channel up to the event that the job is running; the lookup in the
-- cache; and all that follows a hit or a scan. A step runs without interruption, although the code
-- gives its lock back inside: what another goroutine does between the sections of one step, such as
-- an `Unsubscribe` between the two sections of `Publish`, is not a run of these steps. Hub/Race.antt is
-- about that.
use stackly.Base.{ℕ, Bool, Option, none, some, List, [], ◌∷◌, Bytes, if◌then◌else◌}
use stackly.Base.Keys.{has, without}
use stackly.Scan.{ScanResult}
use stackly.Cache.{Entry}
use stackly.Hub.{subscribe, unsubscribe}
use stackly.Queue.{Queue, enqueue, cleanup_locked}
use stackly.Queue.Worker.{Outcome, take_job, begin, lookup_cache, finish_cached, finish_scan}

pub record World : Type 0 where
  pub queue : Queue
  pub working : List Bytes

pub data Op : Type 0 where
  enqueues : Bytes → Bytes → ℕ → Bytes → Op
  picks : ℕ → Bytes → Op
  looks_up : Bytes → ℕ → Op
  hits : Bytes → Entry ScanResult → ℕ → Op
  scans : Bytes → Bytes → Outcome → Op
  sweeps : ℕ → Op
  joins : Bytes → Bool → Op
  leaves : ℕ → Op

abbrev with_queue : World → Option Queue → Option World
with_queue w none = none
with_queue w (some q) = some (record w { queue = q })

module _ (sha256 : Bytes → Bytes) where
  -- A step that its guard does not allow changes nothing; `none` is a panic.
  unfoldable pub step : World → Op → Option World
  step w (enqueues url id now ts) = elim (enqueue url id now ts w.queue) [
    | none ↦ none
    | some (q, r) ↦ some (record w { queue = q })
  ]
  step w (picks now ts) = elim (take_job w.queue) [
    | none ↦ some w
    | some (id, q) ↦ with_queue (record w { working = id ∷ w.working }) (begin id now ts q)
  ]
  step w (looks_up url now) = some (record w { queue = (lookup_cache sha256 url now w.queue).0 })
  step w (hits id e now) =
      if has id w.working
      then some (record { queue = finish_cached id e now w.queue; working = without id w.working })
      else some w
  step w (scans id url o) =
      if has id w.working
      then with_queue (record w { working = without id w.working })
          (finish_scan sha256 id url o w.queue)
      else some w
  step w (sweeps now) = some (record w { queue = cleanup_locked now w.queue })
  step w (joins job replays) =
      some (record w { queue = record w.queue { hub = (subscribe job replays w.queue.hub).0 } })
  step w (leaves sub) =
      some (record w { queue = record w.queue { hub = unsubscribe sub w.queue.hub } })

  unfoldable pub run : World → List Op → Option World
  run w [] = some w
  run w (op ∷ ops) = elim (step w op) [ none ↦ none | some w' ↦ run w' ops ]
