-- ===== src/Scheduler/Ops.antt =====
-- The operations of internal/scheduler/store.go and store_api.go.
use stackly.Base.{
  ℕ, ◌+◌, ◌-◌, Bool, true, false, not, ◌&&◌, ◌||◌, Option, none, some, is_some, List, [], ◌∷◌, ◌++◌,
  Bytes, bytes_eq, ltb, ◌==◌, length, drop, reverse, select, if◌then◌else◌,
}
use stackly.Base.Map
use stackly.Base.Map.{Map}
use stackly.Base.Sort.{exchange_sort}
use stackly.Scheduler.{Schedule, WebhookDelivery, File, Store, interval_dur, max_delivery_log}

abbrev pub empty_store : Option File → Store
empty_store file = record { schedules = []; log = []; dirty = false; file = file }

unfoldable pub put_each : List Schedule → Map Schedule → Map Schedule
put_each [] m = m
put_each (s ∷ ss) m = put_each ss (Map.put s.id s m)

-- A missing file leaves the store as it is. A corrupt one is the error of `load`, which is not here.
unfoldable pub load : Store → Store
unfolding put_each
load s = elim s.file [
  | none ↦ s
  | some f ↦ record s { schedules = put_each f.schedules []; log = f.log }
]

unfoldable pub save : Store → Store
save s = record s { file = some (record { schedules = Map.values s.schedules; log = s.log }) }

unfoldable pub mark_dirty : Store → Store
mark_dirty s = record s { dirty = true }

-- One turn of `saveLoop`: a mark is taken from the channel, then the store is saved.
unfoldable pub save_loop : Store → Store
unfolding save
save_loop s = if s.dirty then save (record s { dirty = false }) else s

-- `Close` saves whatever the marks say.
unfoldable pub close : Store → Store
unfolding save
close s = save s

-- `gen` is what `genID` returns, `now` what the clock reads.
unfoldable pub with_defaults : Schedule → Bytes → ℕ → Schedule
with_defaults s gen now = record s {
  id = if bytes_eq s.id [] then gen else s.id;
  created_at = if s.created_at == 0 then now else s.created_at;
  next_run = if s.next_run == 0 then now + interval_dur s.interval else s.next_run;
}

unfoldable pub add_schedule : Schedule → Bytes → ℕ → Store → Store × Bytes
unfolding with_defaults mark_dirty
add_schedule s gen now st =
    let s' = with_defaults s gen now in
    (mark_dirty (record st { schedules = Map.put s'.id s' st.schedules }), s'.id)

unfoldable pub get_schedule : Bytes → Store → Option Schedule
get_schedule id st = Map.get id st.schedules

unfoldable pub update_schedule : Bytes → (Schedule → Schedule) → Store → Store × Option Schedule
update_schedule id mut st = elim (Map.get id st.schedules) [
  | none ↦ (st, none)
  | some s ↦ (record st { schedules = Map.put id (mut s) st.schedules }, some (mut s))
]

unfoldable pub delete_schedule : Bytes → Store → Store × Bool
delete_schedule id st =
    if is_some (Map.get id st.schedules)
    then (record st { schedules = Map.remove id st.schedules }, true)
    else (st, false)

abbrev pub sooner : Schedule → Schedule → Bool
sooner a b = ltb a.next_run b.next_run

-- `sort.Slice` may order equal times either way; this is one such order.
unfoldable pub list_schedules_by_owner : Bytes → Store → List Schedule
list_schedules_by_owner owner st =
    exchange_sort sooner (select (λ s. bytes_eq s.owner owner) (Map.values st.schedules))

unfoldable pub list_all_schedules : Store → List Schedule
list_all_schedules st = exchange_sort sooner (Map.values st.schedules)

abbrev pub is_due : ℕ → Schedule → Bool
is_due now s = s.enabled && not (ltb now s.next_run)

unfoldable pub due_schedules : ℕ → Store → List Schedule
unfolding list_all_schedules
due_schedules now st = select (is_due now) (list_all_schedules st)

-- The delivery with the fields that LogDelivery fills in.
unfoldable pub stamp : WebhookDelivery → Bytes → ℕ → WebhookDelivery
stamp d gen now = record d {
  id = if bytes_eq d.id [] then gen else d.id;
  timestamp = if d.timestamp == 0 then now else d.timestamp;
}

unfoldable pub trim_log : List WebhookDelivery → List WebhookDelivery
trim_log log =
    if ltb max_delivery_log (length log) then drop (length log - max_delivery_log) log else log

unfoldable pub log_delivery : WebhookDelivery → Bytes → ℕ → Store → Store
unfolding mark_dirty
log_delivery d gen now st =
    mark_dirty (record st { log = trim_log (st.log ++ stamp d gen now ∷ []) })

-- The loop from the end of the log, over the log read backwards.
unfoldable pub recent_from : ℕ → List WebhookDelivery → List WebhookDelivery → List WebhookDelivery
recent_from n [] out = out
recent_from n (d ∷ ds) out = if ltb (length out) n then recent_from n ds (out ++ d ∷ []) else out

-- A count of 0 stands for every count that is not positive.
unfoldable pub recent_deliveries : ℕ → Store → List WebhookDelivery
unfolding recent_from
recent_deliveries n st =
    let size = length st.log in
    recent_from (if (n == 0) || ltb size n then size else n) (reverse st.log) []
