-- ===== src/Scheduler/Order.antt =====
-- ListAllSchedules, ListSchedulesByOwner and DueSchedules of internal/scheduler/store_api.go.
use mathlib.Core.List.{Perm}
use stackly.Base.{ℕ, ◌≡◌, refl, Bool, List, [], ◌∷◌, select, All-select, arith}
use stackly.Base.Map
use stackly.Base.Sort.{exchange_sort, Sorted, exchange_sort-perm, exchange_sort-Sorted}
use stackly.Scheduler.{Schedule, Store}
use stackly.Scheduler.Ops.{sooner, is_due, list_all_schedules, due_schedules}

select-Sorted :
    (p : Schedule → Bool) (xs : List Schedule) → Sorted sooner xs → Sorted sooner (select p xs)
select-Sorted p [] h = tt
select-Sorted p (x ∷ xs) h = ground (arith, select-Sorted p xs h.1, All-select _ p xs h.0)

-- `DueSchedules` returns exactly the schedules that are enabled and whose next run is not after
-- `now`, each as often as it stands in the store, the soonest first: it selects them from a list of all
-- schedules, and leaves none out however the map was visited.
pub due_schedules-exact :
    (now : ℕ) (st : Store)
    → (all : List Schedule) × Perm all (Map.values st.schedules)
      × Sorted sooner all
      × (due_schedules now st ≡ select (is_due now) all)
      × Sorted sooner (due_schedules now st)
unfolding due_schedules list_all_schedules
due_schedules-exact now st = (
  exchange_sort sooner (Map.values st.schedules),
  exchange_sort-perm sooner (Map.values st.schedules),
  sorted,
  refl,
  select-Sorted (is_due now) (exchange_sort sooner (Map.values st.schedules)) sorted,
)
  where
    sorted : Sorted sooner (exchange_sort sooner (Map.values st.schedules))
    sorted =
        exchange_sort-Sorted sooner (λ a b h. ground arith) (λ a b c h k. ground arith)
          (Map.values st.schedules)
