-- ===== src/Scheduler/Persist.antt =====
-- load, save and the save loop of internal/scheduler/store.go and store_api.go.
use stackly.Base.{
  or_else, ◌≡◌, refl, inl, inr, true, false, none, is_some, [], ◌∷◌, Bytes, bytes_eq_iff,
  bytes_eq_refl, Option-cases, arith, ◌∙◌,
}
use stackly.Base.Map
use stackly.Base.Map.{Map, get-put, get-remove, values}
use stackly.Scheduler.{Schedule, Store}
use stackly.Scheduler.Ops.{
  put_each, empty_store, load, save, close, save_loop, delete_schedule, get_schedule,
}

-- Every schedule of the store stands under its own ID, and no key stands twice.
abbrev pub Keyed : Map Schedule → Type 0
Keyed [] = Unit
Keyed ((k, s) ∷ m) = (s.id ≡ k) × (Map.get k m ≡ none) × Keyed m

put_each-get :
    (k : Bytes) (m acc : Map Schedule)
    → Keyed m
    → Map.get k (put_each (values m) acc) ≡ or_else (Map.get k m) (Map.get k acc)
unfolding put_each Map.get values
put_each-get k [] acc h = refl
put_each-get k ((j, s) ∷ m) acc h =
    rw (put_each-get k m (Map.put s.id s acc) h.2, get-put s.id k s acc)
      (ground (arith, h.0, h.1, bytes_eq_iff j k, bytes_eq_iff s.id k))

-- A store that is closed comes back: a new process that loads its file finds under every ID the
-- schedule that was there, and the same delivery log. Every schedule stands under its own ID.
pub load-close :
    (st : Store) (id : Bytes)
    → Keyed st.schedules
    → let st' = load (empty_store (close st).file) in
      (get_schedule id st' ≡ get_schedule id st) × (st'.log ≡ st.log)
unfolding load close save get_schedule Map.get
load-close st id h = (
  put_each-get id st.schedules [] h
      ∙ elim (Option-cases (Map.get id st.schedules)) [ inl e ↦ rw (e) | inr (s, e) ↦ rw (e) ],
  refl,
)

-- `DeleteSchedule` asks for no save: if nothing else has, the save loop leaves the file as it is, and
-- a process that starts from that file finds the schedule again.
pub deleted_schedule_returns :
    (st : Store) (id : Bytes)
    → Keyed st.schedules
    → st.file ≡ (save st).file
    → st.dirty ≡ false
    → is_some (get_schedule id st) ≡ true
    → let st' = save_loop (delete_schedule id st).0 in
      (get_schedule id st' ≡ none)
      × (get_schedule id (load (empty_store st'.file)) ≡ get_schedule id st)
unfolding save_loop save close delete_schedule get_schedule
deleted_schedule_returns st id h f d g =
    rw (g, d, delete_schedule, save_loop)
      (get-remove id id st.schedules ∙ rw (bytes_eq_refl id), rw (f) (load-close st id h).0)
