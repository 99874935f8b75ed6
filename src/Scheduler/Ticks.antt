-- ===== src/Scheduler/Ticks.antt =====
-- What a tick starts, and when a run lets the next one start.
use stackly.Base.{
  ℕ, suc, ◌+◌, ◌≤◌, ◌<◌, ◌≡◌, refl, inl, inr, Bool, true, false, not, ◌&&◌, ◌||◌, Option, none,
  some, List, [], ◌∷◌, ◌++◌, Bytes, bytes_eq, bytes_eq_iff, bytes_eq_refl, select, any,
  if◌then◌else◌, Bool-cases, arith, ◌∙◌,
}
use stackly.Base.Keys.{has, Nodup, has-without, has-snoc, snoc-Nodup}
use stackly.Base.Map
use stackly.Base.Map.{Map, get-put, values}
use stackly.Base.Sort.{exchange_sort, exchange_sort-any}
use stackly.Scan.{ScanResult}
use stackly.Scheduler.{Schedule, Store, interval_dur, hour}
use stackly.Scheduler.Persist.{Keyed}
use stackly.Scheduler.Ops.{
  sooner, is_due, list_all_schedules, due_schedules, get_schedule, update_schedule,
}
use stackly.Scheduler.Run.{
  Scheduler, start_each, tick, advance, record_run, run_one, status_of, job_id,
}

abbrev due_id : ℕ → Bytes → Schedule → Bool
due_id now id s = bytes_eq id s.id && is_due now s

abbrev ids : List Schedule → List Bytes
ids [] = []
ids (s ∷ ss) = s.id ∷ ids ss

has-ids-select :
    (now : ℕ) (id : Bytes) (xs : List Schedule)
    → has id (ids (select (is_due now) xs)) ≡ any (due_id now id) xs
unfolding has
has-ids-select now id [] = refl
has-ids-select now id (s ∷ ss) = ground (arith, has-ids-select now id ss)

-- Whether the schedule that stands under an ID is due.
abbrev pub due_at : ℕ → Option Schedule → Bool
due_at now none = false
due_at now (some s) = is_due now s

due_in-none :
    (now : ℕ) (id : Bytes) (m : Map Schedule)
    → Keyed m
    → Map.get id m ≡ none
    → any (due_id now id) (values m) ≡ false
unfolding Map.get values
due_in-none now id [] k h = refl
due_in-none now id ((j, s) ∷ m) k h =
    ground (arith, k.0, bytes_eq_iff j id, bytes_eq_iff id s.id, due_in-none now id m k.2)

due_in-get :
    (now : ℕ) (id : Bytes) (m : Map Schedule)
    → Keyed m
    → any (due_id now id) (values m) ≡ due_at now (Map.get id m)
unfolding Map.get values
due_in-get now id [] k = refl
due_in-get now id ((j, s) ∷ m) k = ground (
  arith,
  k.0,
  k.1,
  bytes_eq_iff j id,
  bytes_eq_iff id s.id,
  due_in-none now id m k.2,
  due_in-get now id m k.2,
)

has-due_schedules :
    (now : ℕ) (id : Bytes) (st : Store)
    → Keyed st.schedules
    → has id (ids (due_schedules now st)) ≡ due_at now (Map.get id st.schedules)
unfolding due_schedules list_all_schedules
has-due_schedules now id st k =
    has-ids-select now id (exchange_sort sooner (values st.schedules))
    ∙ exchange_sort-any sooner (due_id now id) (values st.schedules)
    ∙ due_in-get now id st.schedules k

start_each-has :
    (id : Bytes) (due : List Schedule) (s : Scheduler) (started : List Bytes)
    → let r = start_each due s started in
      (has id r.0.inflight ≡ (has id s.inflight || has id (ids due)))
      × (has id r.1 ≡ (has id started || (has id (ids due) && not (has id s.inflight))))
      × (r.0.store ≡ s.store)
unfolding start_each has
start_each-has id [] s started = ground arith
start_each-has id (d ∷ due) s started = elim (Bool-cases (has d.id s.inflight)) [
  | inl b ↦ rw (b) (ground (arith, start_each-has id due s started, b, bytes_eq_iff id d.id))
  | inr b ↦ rw (b) (
      ground (
        arith,
        b,
        bytes_eq_iff id d.id,
        has-snoc d.id id started,
        has-snoc d.id id s.inflight,
        start_each-has id due (record s { inflight = s.inflight ++ d.id ∷ [] })
            (started ++ d.id ∷ []),
      ))
]

start_each-Nodup :
    (due : List Schedule) (s : Scheduler) (started : List Bytes)
    → Nodup started
    → ((id : Bytes) → has id started ≡ true → has id s.inflight ≡ true)
    → Nodup (start_each due s started).1
unfolding start_each
start_each-Nodup [] s started n h = n
start_each-Nodup (d ∷ due) s started n h = elim (Bool-cases (has d.id s.inflight)) [
  | inl b ↦ rw (b, start_each) (start_each-Nodup due s started n h)
  | inr b ↦
      rw (b, start_each)
        (start_each-Nodup due (record s { inflight = s.inflight ++ d.id ∷ [] })
          (started ++ d.id ∷ []) (snoc-Nodup d.id started (ground (arith, b, h d.id)) n)
          (λ id e. ground (arith, e, h id, has-snoc d.id id started, has-snoc d.id id s.inflight)))
]

-- A tick starts a run for exactly the schedules that are enabled, whose next run is not after `now`,
-- and that are not in flight; it starts each once, marks it as in flight, and changes no schedule.
-- Every schedule of the store stands under its own ID.
pub tick-starts :
    (now : ℕ) (s : Scheduler)
    → Keyed s.store.schedules
    → let r = tick now s in
      (r.0.store ≡ s.store)
      × Nodup r.1
      × ((id : Bytes)
          → (has id r.1 ≡ (due_at now (get_schedule id s.store) && not (has id s.inflight)))
            × (has id r.0.inflight ≡ (has id s.inflight || has id r.1)))
unfolding tick get_schedule has
tick-starts now s k = (
  (start_each-has [] (due_schedules now s.store) s []).2,
  start_each-Nodup (due_schedules now s.store) s [] tt (λ id e. absurd cc),
  λ id. ground (
    arith,
    start_each-has id (due_schedules now s.store) s [],
    has-due_schedules now id s.store k,
  ),
)

hour-interval_dur : (s : Bytes) → hour ≤ interval_dur s
unfolding interval_dur
hour-interval_dur s = ground arith

if-not : {A : Type 0} (b : Bool) (x y : A) → (if not b then x else y) ≡ (if b then y else x)
if-not true x y = refl
if-not false x y = refl

pub update_schedule-some :
    (id : Bytes) (f : Schedule → Schedule) (st : Store) (sch : Schedule)
    → get_schedule id st ≡ some sch
    → (update_schedule id f st
        ≡ (record st { schedules = Map.put id (f sch) st.schedules }, some (f sch)))
      × (get_schedule id (update_schedule id f st).0 ≡ some (f sch))
unfolding update_schedule get_schedule
update_schedule-some id f st sch g = (
  rw (g, update_schedule),
  rw (g, update_schedule) (get-put id id (f sch) st.schedules ∙ rw (bytes_eq_refl id)),
)

-- The schedule as a run leaves it.
abbrev pub after_run : ℕ → Option ScanResult → Schedule → Schedule
after_run now result sch = record sch {
  next_run = now + interval_dur sch.interval;
  run_count = suc sch.run_count;
  last_run = now;
  last_status = (status_of result).0;
  last_error = (status_of result).1;
}

-- A run of a schedule that no other goroutine touches meanwhile advances its next run by its interval,
-- counts the run, records the outcome of the scan, leaves the ID out of `inflight`, and hands the
-- webhook over if there is one. No tick finds the schedule due for at least an hour.
pub run_one-waits :
    (scan : Bytes → Bytes → Option ScanResult) (meanwhile : Store → Store) (id : Bytes) (now : ℕ)
    (s : Scheduler) (sch : Schedule)
    → get_schedule id s.store ≡ some sch
    → ((st : Store) → get_schedule id (meanwhile st) ≡ get_schedule id st)
    → let r = run_one scan meanwhile id now s in
      let result = scan (job_id id now) sch.url in
      let sch' = after_run now result sch in
      (get_schedule id r.0.store ≡ some sch')
      × (has id r.0.inflight ≡ false)
      × (r.1 ≡ (
          if bytes_eq sch.webhook_url []
          then none
          else some (record {
            schedule = sch';
            result = result;
            status = (status_of result).0;
            error = (status_of result).1;
          })))
      × ((t : ℕ) → t < now + hour → due_at t (get_schedule id r.0.store) ≡ false)
unfolding run_one advance record_run
run_one-waits scan meanwhile id now s sch g m =
    let outcome = status_of (scan (job_id id now) sch.url) in
    let st = meanwhile (update_schedule id (advance now sch) s.store).0 in
    let seen : get_schedule id st ≡ some (advance now sch sch) =
      m (update_schedule id (advance now sch) s.store).0
      ∙ (update_schedule-some id (advance now sch) s.store sch g).1 in
    let (u, g') =
      update_schedule-some id (record_run now outcome.0 outcome.1) st (advance now sch sch) seen in
    rw (g, run_one)
      (
        g',
        has-without id id s.inflight ∙ rw (bytes_eq_refl id),
        rw (u) (if-not (bytes_eq sch.webhook_url []) _ _),
        λ t h. rw (g') (ground (arith, hour-interval_dur sch.interval)),
      )
