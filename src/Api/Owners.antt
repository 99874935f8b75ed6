-- ===== src/Api/Owners.antt =====
-- Whose schedules the handlers of internal/api/schedules.go can change.
use stackly.Base.{
  ℕ, ◌≡◌, refl, inl, inr, true, false, Option, none, some, List, [], ◌∷◌, Bytes, text, bytes_eq,
  bytes_eq_iff, Bool-cases, Option-cases, List-cases, arith, ◌∙◌,
}
use stackly.Base.Map
use stackly.Base.Map.{Map, get-put, get-remove}
use stackly.Scheduler.{Schedule, Store}
use stackly.Scheduler.Ops.{get_schedule, update_schedule, delete_schedule}
use stackly.Scheduler.Persist.{Keyed}
use stackly.Scheduler.Validate.{Ip, Url}
use stackly.Api.Requests.{
  Method, get_method, post_method, patch_method, delete_method, other_method, Caller, PatchBody,
  schedule_owner, redact_schedule, split_slash, trim_prefix,
}
use stackly.Api.Schedules.{
  apply_patch, check_patch, update_redacted, patch_schedule, handle_schedule_run, handle_schedule,
  route_schedule, own_schedule, handle_schedule_subpath,
}

Keyed-get :
    (m : Map Schedule) (k : Bytes) (s : Schedule)
    → Keyed m
    → Map.get k m ≡ some s
    → bytes_eq s.id k ≡ true
unfolding Map.get
Keyed-get [] k s h g = absurd cc
Keyed-get ((j, t) ∷ m) k s h g =
    ground (arith, bytes_eq_iff j k, bytes_eq_iff s.id k, h.0, Keyed-get m k s h.2)

get-update_other :
    (id j : Bytes) (f : Schedule → Schedule) (st : Store)
    → bytes_eq id j ≡ false
    → get_schedule j (update_schedule id f st).0 ≡ get_schedule j st
unfolding update_schedule get_schedule
get-update_other id j f st h = elim (Option-cases (Map.get id st.schedules)) [
  | inl e ↦ rw (e, update_schedule)
  | inr (s, e) ↦ rw (e, update_schedule) (get-put id j (f s) st.schedules ∙ rw (h))
]

get-delete_other :
    (id j : Bytes) (st : Store)
    → bytes_eq id j ≡ false
    → get_schedule j (delete_schedule id st).0 ≡ get_schedule j st
unfolding delete_schedule get_schedule
get-delete_other id j st h = elim (Option-cases (Map.get id st.schedules)) [
  | inl e ↦ rw (e, delete_schedule)
  | inr (s, e) ↦ rw (e, delete_schedule) (get-remove id j st.schedules ∙ rw (h))
]

get-update_redacted :
    (id j : Bytes) (f : Schedule → Schedule) (st : Store)
    → bytes_eq id j ≡ false
    → get_schedule j (update_redacted id f st).0 ≡ get_schedule j st
unfolding update_redacted
get-update_redacted id j f st h = elim (Option-cases (update_schedule id f st).1) [
  | inl e ↦ rw (e, update_redacted) (get-update_other id j f st h)
  | inr (s, e) ↦
      rw (e, update_redacted)
        (get-update_other id j redact_schedule (update_schedule id f st).0 h
          ∙ get-update_other id j f st h)
]

module _ (parse : Bytes → Option Url) (parse_ip : Bytes → Option Ip)
    (lookup_ip : Bytes → Option (List Ip)) where
  get-patch_schedule :
      (id j : Bytes) (body : Option PatchBody) (st : Store)
      → bytes_eq id j ≡ false
      → get_schedule j (patch_schedule parse parse_ip lookup_ip id body st).0 ≡ get_schedule j st
  unfolding patch_schedule
  get-patch_schedule id j none st h = refl
  get-patch_schedule id j (some body) st h =
      elim (Option-cases (check_patch parse parse_ip lookup_ip body)) [
        | inl e ↦ rw (e, patch_schedule) (get-update_redacted id j (apply_patch body) st h)
        | inr (x, e) ↦ rw (e, patch_schedule)
      ]

  get-handle_schedule :
      (m : Method) (id j : Bytes) (body : Option PatchBody) (sch : Schedule) (st : Store)
      → bytes_eq id j ≡ false
      → get_schedule j (handle_schedule parse parse_ip lookup_ip m id body sch st).0
        ≡ get_schedule j st
  unfolding handle_schedule
  get-handle_schedule get_method id j body sch st h = get-update_other id j redact_schedule st h
  get-handle_schedule patch_method id j body sch st h = get-patch_schedule id j body st h
  get-handle_schedule delete_method id j body sch st h = get-delete_other id j st h
  get-handle_schedule post_method id j body sch st h = refl
  get-handle_schedule other_method id j body sch st h = refl

  get-route_schedule :
      (m : Method) (id j : Bytes) (rest : List Bytes) (body : Option PatchBody) (now : ℕ)
      (sch : Schedule) (st : Store)
      → bytes_eq id j ≡ false
      → sch.id ≡ id
      → get_schedule j (route_schedule parse parse_ip lookup_ip m id rest body now sch st).0
        ≡ get_schedule j st
  unfolding route_schedule
  get-route_schedule m id j [] body now sch st h k = get-handle_schedule m id j body sch st h
  get-route_schedule m id j (p ∷ []) body now sch st h k =
      elim (Bool-cases (bytes_eq p (text "run"))) [ inl b ↦ rw (b) (get-run m) | inr b ↦ rw (b) ]
    where
      get-run :
          (m : Method) → get_schedule j (handle_schedule_run m now sch st).0 ≡ get_schedule j st
      get-run post_method =
          unfold handle_schedule_run in
          get-update_other sch.id j (λ s. record s { next_run = now }) st (rw (k) h)
      get-run get_method = unfold handle_schedule_run in refl
      get-run patch_method = unfold handle_schedule_run in refl
      get-run delete_method = unfold handle_schedule_run in refl
      get-run other_method = unfold handle_schedule_run in refl
  get-route_schedule m id j (p ∷ q ∷ ps) body now sch st h k = refl

  get-own_schedule :
      (m : Method) (id : Bytes) (rest : List Bytes) (body : Option PatchBody)
      (caller : Option Caller) (now : ℕ) (st : Store) (j : Bytes) (s : Schedule)
      → Keyed st.schedules
      → get_schedule j st ≡ some s
      → bytes_eq s.owner (schedule_owner caller) ≡ false
      → get_schedule j (own_schedule parse parse_ip lookup_ip m id rest body caller now st).0
        ≡ some s
  unfolding own_schedule
  get-own_schedule m id rest body caller now st j s k g o = elim (Bool-cases (bytes_eq id [])) [
    | inl b ↦ rw (b, own_schedule) g
    | inr b ↦ elim (Option-cases (get_schedule id st)) [
      | inl e ↦ rw (b, e, own_schedule) g
      | inr (sch, e) ↦ elim (Bool-cases (bytes_eq sch.owner (schedule_owner caller))) [
        | inl c ↦
            rw (b, e, c, own_schedule)
              (get-route_schedule m id j rest body now sch st (apart sch e c) (
                  (bytes_eq_iff sch.id id).0
                    (Keyed-get st.schedules id sch k (unfold get_schedule in e)))
                ∙ g)
        | inr c ↦ rw (b, e, c, own_schedule) g
      ]
    ]
  ]
    where
      apart :
          (sch : Schedule)
          → get_schedule id st ≡ some sch
          → bytes_eq sch.owner (schedule_owner caller) ≡ true
          → bytes_eq id j ≡ false
      apart sch e c = elim (Bool-cases (bytes_eq id j)) [
        | inr h ↦ h
        | inl h ↦ let same : id ≡ j = (bytes_eq_iff id j).0 h in absurd cc
      ]

  -- A request to one schedule, whatever its method, path and body, leaves every schedule of another
  -- owner as it was. Every schedule of the store stands under its own ID.
  pub subpath_isolates :
      (m : Method) (path : Bytes) (body : Option PatchBody) (caller : Option Caller) (now : ℕ)
      (st : Store) (j : Bytes) (s : Schedule)
      → Keyed st.schedules
      → get_schedule j st ≡ some s
      → bytes_eq s.owner (schedule_owner caller) ≡ false
      → (st' : Store) × ((handle_schedule_subpath parse parse_ip lookup_ip m path body caller now
            (some st)).0
          ≡ some st')
        × (get_schedule j st' ≡ some s)
  unfolding handle_schedule_subpath
  subpath_isolates m path body caller now st j s k g o =
      elim (List-cases (split_slash (trim_prefix (text "/api/schedules/") path))) [
        | inl e ↦ (st, rw (e, handle_schedule_subpath), g)
        | inr (id, rest, e) ↦ (
          (own_schedule parse parse_ip lookup_ip m id rest body caller now st).0,
          rw (e, handle_schedule_subpath),
          get-own_schedule m id rest body caller now st j s k g o,
        )
      ]
