-- ===== src/Scheduler/Run.antt =====
-- The ticker of internal/scheduler/scheduler.go, and what a run does to a schedule. The goroutines of
-- the scheduler meet in the store and in `inflight`, the keys of the map of that name.
use stackly.Base.{
  ℕ, suc, ◌+◌, ◌-◌, ◌/◌, not, Option, none, some, List, [], ◌∷◌, ◌++◌, Bytes, text, bytes_eq,
  if◌then◌else◌,
}
use stackly.Base.Decimal.{show_nat}
use stackly.Base.Keys.{has, without}
use stackly.Scan.{ScanResult}
use stackly.Scheduler.{Schedule, Store, interval_dur, second}
use stackly.Scheduler.Ops.{due_schedules, get_schedule, update_schedule}

pub record Scheduler : Type 0 where
  pub store : Store
  pub inflight : List Bytes

-- The loop of `tick`: the new state, and the IDs for which `runOne` was started.
unfoldable pub start_each : List Schedule → Scheduler → List Bytes → Scheduler × List Bytes
start_each [] s started = (s, started)
start_each (sch ∷ due) s started =
    if has sch.id s.inflight
    then start_each due s started
    else start_each due (record s { inflight = s.inflight ++ sch.id ∷ [] }) (started ++ sch.id ∷ [])

unfoldable pub tick : ℕ → Scheduler → Scheduler × List Bytes
unfolding start_each
tick now s = start_each (due_schedules now s.store) s []

-- What `runOne` writes before and after the scan.
unfoldable pub advance : ℕ → Schedule → Schedule → Schedule
advance now sch s = record s {
  next_run = now + interval_dur sch.interval;
  run_count = suc s.run_count;
}

unfoldable pub record_run : ℕ → Bytes → Bytes → Schedule → Schedule
record_run now status err s = record s { last_run = now; last_status = status; last_error = err }

-- The seconds from the start of year 1 to 1970.
abbrev unix_epoch : ℕ
unix_epoch = 62_135_596_800

unfoldable pub job_id : Bytes → ℕ → Bytes
job_id id now = text "sched-" ++ (id ++ (text "-" ++ show_nat (now / second - unix_epoch)))

-- The status and the error text of a result.
unfoldable pub status_of : Option ScanResult → Bytes × Bytes
status_of none = (text "failed", text "scan returned nil")
status_of (some r) = elim r.error [ none ↦ (text "success", []) | some e ↦ (text "failed", e) ]

-- The webhook that a run hands to the dispatcher.
pub record Dispatch : Type 0 where
  pub schedule : Schedule
  pub result : Option ScanResult
  pub status : Bytes
  pub error : Bytes

-- `scan` is the ScannerFunc, and `meanwhile` what other goroutines do to the store during the scan. The
-- pointer to the schedule that `runOne` holds is the store's own: after the scan it shows the store's
-- schedule, or the last one that this goroutine saw if that was deleted.
unfoldable pub run_one :
    (Bytes → Bytes → Option ScanResult)
    → (Store → Store)
    → Bytes
    → ℕ
    → Scheduler
    → Scheduler × Option Dispatch
unfolding get_schedule update_schedule advance record_run job_id status_of
run_one scan meanwhile id now s = elim (get_schedule id s.store) [
  | none ↦ (record s { inflight = without id s.inflight }, none)
  | some sch ↦
      let result = scan (job_id id now) sch.url in
      let (status, err) = status_of result in
      let st = meanwhile (update_schedule id (advance now sch) s.store).0 in
      let (st, updated) = update_schedule id (record_run now status err) st in
      let seen : Schedule = elim updated [ none ↦ advance now sch sch | some s' ↦ s' ] in
      (
        record { store = st; inflight = without id s.inflight },
        if not (bytes_eq seen.webhook_url [])
            then some (record { schedule = seen; result = result; status = status; error = err })
            else none,
      )
]
