-- ===== src/Api/Admission.antt =====
-- What a POST of internal/api/schedules.go lets in.
use stackly.Base.{
  ℕ, suc, ◌≤◌, ◌≡◌, refl, ◌⊎◌, inl, inr, Bool, true, false, not, ◌||◌, Option, none, some, List, [],
  ◌∷◌, Bytes, bytes_eq, bytes_eq_iff, bytes_eq_refl, ◌≢◌, leb, length, select, if◌then◌else◌,
  Bool-cases, Option-cases, leb→le, leb-false→lt, arith, subst, ap, ◌∙◌,
}
use stackly.Base.Map
use stackly.Base.Map.{Map, get-put, values}
use stackly.Base.Sort.{length-exchange_sort}
use stackly.Scheduler.{Schedule, Store}
use stackly.Scheduler.Ops.{
  sooner, get_schedule, add_schedule, with_defaults, mark_dirty, list_schedules_by_owner,
}
use stackly.Scheduler.Ticks.{update_schedule-some}
use stackly.Scheduler.Validate.{Ip, Url, UrlError, validate_scan_url, validate_webhook_url}
use stackly.Api.Requests.{
  Response, Caller, CreateBody, BadRequest, bad_request, quota_exceeded, created, schedule_owner,
  redact_schedule, is_interval, url_required, invalid_url, invalid_webhook_url, invalid_interval,
}
use stackly.Api.Schedules.{
  check_create, create_schedule, new_schedule, insert_redacted, quota_of, tier_of, interval_of,
}

-- How many schedules an owner has.
abbrev pub owned : Bytes → Map Schedule → ℕ
owned owner m = length (select (λ s. bytes_eq s.owner owner) (values m))

length-list_schedules_by_owner :
    (owner : Bytes) (st : Store)
    → length (list_schedules_by_owner owner st) ≡ owned owner st.schedules
unfolding list_schedules_by_owner
length-list_schedules_by_owner owner st =
    length-exchange_sort sooner (select (λ s. bytes_eq s.owner owner) (values st.schedules))

owned-put :
    (owner k : Bytes) (v : Schedule) (m : Map Schedule)
    → owned owner (Map.put k v m) ≤ suc (owned owner m)
unfolding Map.put values
owned-put owner k v [] = ground arith
owned-put owner k v ((j, w) ∷ m) = ground (arith, owned-put owner k v m)

owned-put_same :
    (owner k : Bytes) (v w : Schedule) (m : Map Schedule)
    → Map.get k m ≡ some w
    → v.owner ≡ w.owner
    → owned owner (Map.put k v m) ≡ owned owner m
unfolding Map.get Map.put values
owned-put_same owner k v w [] g o = absurd cc
owned-put_same owner k v w ((j, u) ∷ m) g o = ground (arith, owned-put_same owner k v w m)

-- The schedule that is stored and returned.
abbrev pub stored_schedule : Schedule → Bytes → ℕ → Schedule
stored_schedule sch gen now = redact_schedule (with_defaults sch gen now)

add_schedule_lem :
    (sch : Schedule) (gen : Bytes) (now : ℕ) (st : Store)
    → let r = add_schedule sch gen now st in
      let s = with_defaults sch gen now in
      (r.1 ≡ s.id) × (get_schedule r.1 r.0 ≡ some s) × (r.0.schedules ≡ Map.put r.1 s st.schedules)
unfolding add_schedule get_schedule mark_dirty
add_schedule_lem sch gen now st =
    let s = with_defaults sch gen now in
    (refl, get-put s.id s.id s st.schedules ∙ rw (bytes_eq_refl s.id), refl)

-- What is added is returned and stored redacted, under its ID, and the owner has one more schedule at
-- most.
pub insert_redacted_lem :
    (sch : Schedule) (gen : Bytes) (now : ℕ) (st : Store)
    → let s = stored_schedule sch gen now in
      let r = insert_redacted sch gen now st in
      (r.1 ≡ created s)
      × (get_schedule s.id r.0 ≡ some s)
      × (owned sch.owner r.0.schedules ≤ suc (owned sch.owner st.schedules))
unfolding insert_redacted add_schedule get_schedule redact_schedule with_defaults mark_dirty
insert_redacted_lem sch gen now st =
    let (same, g, p) = add_schedule_lem sch gen now st in
    let s = with_defaults sch gen now in
    let added = add_schedule sch gen now st in
    let (u, g') =
      update_schedule-some added.1 redact_schedule added.0 (with_defaults sch gen now) g in
    rw (u, insert_redacted)
      (
        refl,
        get-put s.id s.id (redact_schedule s) (Map.put s.id s st.schedules)
            ∙ rw (bytes_eq_refl s.id),
        omega (
          arith,
          owned-put sch.owner s.id s st.schedules,
          owned-put_same sch.owner s.id (redact_schedule s) s (Map.put s.id s st.schedules) g refl,
        ),
      )

module _ (parse : Bytes → Option Url) (parse_ip : Bytes → Option Ip)
    (lookup_ip : Bytes → Option (List Ip)) (allow_private : Bytes) where
  -- What the check of a POST's body asks for.
  abbrev pub IsCreatable : CreateBody → Type 0
  IsCreatable body =
      (validate_scan_url parse parse_ip lookup_ip allow_private body.url ≡ none)
      × ((body.webhook_url ≡ [])
          ⊎ (validate_webhook_url parse parse_ip lookup_ip body.webhook_url ≡ none))
      × ((body.interval ≡ []) ⊎ (is_interval body.interval ≡ true))

  -- Why a POST's body is refused: the first check that fails, with its error.
  abbrev pub IsRefusedFor : CreateBody → BadRequest → Type 0
  IsRefusedFor body e =
      ((body.url ≡ []) × (e ≡ url_required))
      ⊎ ((body.url ≢ [])
          × ((x : UrlError) × (validate_scan_url parse parse_ip lookup_ip allow_private body.url
                ≡ some x)
              × (e ≡ invalid_url x)))
      ⊎ ((body.url ≢ [])
          × (validate_scan_url parse parse_ip lookup_ip allow_private body.url ≡ none)
          × (body.webhook_url ≢ [])
          × ((x : UrlError) × (validate_webhook_url parse parse_ip lookup_ip body.webhook_url
                ≡ some x)
              × (e ≡ invalid_webhook_url x)))
      ⊎ ((body.url ≢ [])
          × (validate_scan_url parse parse_ip lookup_ip allow_private body.url ≡ none)
          × ((body.webhook_url ≡ [])
              ⊎ (validate_webhook_url parse parse_ip lookup_ip body.webhook_url ≡ none))
          × (body.interval ≢ [])
          × (is_interval body.interval ≡ false)
          × (e ≡ invalid_interval))

  check_create-some :
      (body : CreateBody) (e : BadRequest)
      → check_create parse parse_ip lookup_ip allow_private body ≡ some e
      → IsRefusedFor body e
  unfolding check_create
  check_create-some body e h = elim (Bool-cases (bytes_eq body.url [])) [
    | inl b ↦
        let same : some url_required ≡ some e = rw b at h in
        inl ((bytes_eq_iff body.url []).0 b, cc)
    | inr b ↦
        let given = not_empty body.url b in
        elim (Option-cases (validate_scan_url parse parse_ip lookup_ip allow_private body.url)) [
          | inr (x, v) ↦
              let same : some (invalid_url x) ≡ some e = rw (b, v) at h in
              inr (inl (given, (x, v, cc)))
          | inl v ↦ elim (Bool-cases (bytes_eq body.webhook_url [])) [
            | inl w ↦
                let rest : Interval body e = rw (b, v, w) at h in
                inr
                  (inr (inr (interval given v (inl ((bytes_eq_iff body.webhook_url []).0 w)) rest)))
            | inr w ↦
                elim (Option-cases
                  (validate_webhook_url parse parse_ip lookup_ip body.webhook_url)) [
                    | inr (x, k) ↦
                        let same : some (invalid_webhook_url x) ≡ some e = rw (b, v, w, k) at h in
                        inr (inr (inl (given, v, not_empty body.webhook_url w, (x, k, cc))))
                    | inl k ↦
                        let rest : Interval body e = rw (b, v, w, k) at h in
                        inr (inr (inr (interval given v (inr k) rest)))
                  ]
          ]
        ]
  ]
    where
      not_empty : (s : Bytes) → bytes_eq s [] ≡ false → s ≢ []
      not_empty s b = λ t. absurd (ground (arith, b, (bytes_eq_iff s []).1 t))

      Interval : CreateBody → BadRequest → Type 0
      Interval body e =
          (if bytes_eq body.interval [] || is_interval body.interval
            then none
            else some invalid_interval)
          ≡ some e

      interval :
          body.url ≢ []
          → validate_scan_url parse parse_ip lookup_ip allow_private body.url ≡ none
          → (body.webhook_url ≡ [])
            ⊎ (validate_webhook_url parse parse_ip lookup_ip body.webhook_url ≡ none)
          → Interval body e
          → (body.url ≢ [])
            × (validate_scan_url parse parse_ip lookup_ip allow_private body.url ≡ none)
            × ((body.webhook_url ≡ [])
                ⊎ (validate_webhook_url parse parse_ip lookup_ip body.webhook_url ≡ none))
            × (body.interval ≢ [])
            × (is_interval body.interval ≡ false)
            × (e ≡ invalid_interval)
      interval u v w r = elim (Bool-cases (bytes_eq body.interval [])) [
        | inl a ↦ let impossible : none ≡ some e = rw a at r in absurd cc
        | inr a ↦ elim (Bool-cases (is_interval body.interval)) [
          | inl b ↦ let impossible : none ≡ some e = rw (a, b) at r in absurd cc
          | inr b ↦
              let same : some invalid_interval ≡ some e = rw (a, b) at r in
              (u, v, w, not_empty body.interval a, b, cc)
        ]
      ]

  check_create-none :
      (body : CreateBody)
      → check_create parse parse_ip lookup_ip allow_private body ≡ none
      → IsCreatable body
  unfolding check_create
  check_create-none body h =
      let (v, w, i) =
        go (bytes_eq body.url [])
          (validate_scan_url parse parse_ip lookup_ip allow_private body.url)
          (if not (bytes_eq body.webhook_url [])
            then validate_webhook_url parse parse_ip lookup_ip body.webhook_url
            else none)
          (bytes_eq body.interval [] || is_interval body.interval) h in
      (
        v,
        (elim (Bool-cases (bytes_eq body.webhook_url [])) [
          | inl b ↦ inl ((bytes_eq_iff body.webhook_url []).0 b)
          | inr b ↦ inr (
              subst
                (λ t.
                  (if not t
                    then validate_webhook_url parse parse_ip lookup_ip body.webhook_url
                    else none)
                  ≡ none)
                b w)
        ]),
        elim (Bool-cases (bytes_eq body.interval [])) [
          | inl b ↦ inl ((bytes_eq_iff body.interval []).0 b)
          | inr b ↦ inr (subst (λ t. (t || is_interval body.interval) ≡ true) b i)
        ],
      )
    where
      go :
          (a : Bool) (v w : Option UrlError) (i : Bool)
          → (if a then some url_required else elim v [
            | some e ↦ some (invalid_url e)
            | none ↦ elim w [
              | some e ↦ some (invalid_webhook_url e)
              | none ↦ if i then none else some invalid_interval
            ]
          ])
            ≡ none
          → (v ≡ none) × (w ≡ none) × (i ≡ true)
      go true v w i e = absurd cc
      go false (some x) w i e = absurd cc
      go false none (some x) i e = absurd cc
      go false none none false e = absurd cc
      go false none none true e = (refl, refl, refl)

  -- What a POST comes to.
  abbrev pub Outcome : CreateBody → Option Caller → Store → Store × Response → Type 0
  Outcome body caller st r =
      ((e : BadRequest) × (r ≡ (st, bad_request e)) × IsRefusedFor body e)
      ⊎ ((r ≡ (
        st,
        quota_exceeded (owned (schedule_owner caller) st.schedules) (quota_of caller)
            (tier_of caller),
      ))
          × IsCreatable body
          × (quota_of caller ≤ owned (schedule_owner caller) st.schedules))
      ⊎ (IsCreatable body
          × ((s : Schedule) × (r.1 ≡ created s)
              × (get_schedule s.id r.0 ≡ some s)
              × (s.owner ≡ schedule_owner caller)
              × (s.url ≡ body.url)
              × (s.webhook_url ≡ body.webhook_url)
              × (s.enabled ≡ true)
              × (s.webhook_secret ≡ [])
              × (owned (schedule_owner caller) r.0.schedules ≤ quota_of caller)))

  -- A POST has one of three outcomes. It is refused for its body, with the error of the first check that
  -- the body fails; or the body is acceptable and the owner has as many schedules as the quota allows;
  -- and then the store is as it was. Or the body is acceptable, and the schedule is stored for the
  -- caller as it is returned, without the secret and enabled, with the owner still within the quota.
  pub create_schedule-outcome :
      (body : CreateBody) (caller : Option Caller) (gen : Bytes) (now : ℕ) (st : Store)
      → Outcome body caller st
          (create_schedule parse parse_ip lookup_ip allow_private (some body) caller gen now st)
  unfolding create_schedule new_schedule redact_schedule with_defaults
  create_schedule-outcome body caller gen now st =
      elim (Option-cases (check_create parse parse_ip lookup_ip allow_private body)) [
        | inr (e, h) ↦ inl (e, rw (h, create_schedule), check_create-some body e h)
        | inl h ↦
            elim (Bool-cases (leb (quota_of caller) (length (list_schedules_by_owner owner st)))) [
              | inl b ↦ inr (
                  inl (
                    rw (h, b, create_schedule)
                        (ap (λ n. (st, quota_exceeded n (quota_of caller) (tier_of caller))) size),
                    check_create-none body h,
                    omega (
                      arith,
                      size,
                      leb→le (quota_of caller) (length (list_schedules_by_owner owner st)) b,
                    ),
                  ))
              | inr b ↦
                  let sch = new_schedule body (interval_of body) owner in
                  let (r, g, o) = insert_redacted_lem sch gen now st in
                  let e : create_schedule parse parse_ip lookup_ip allow_private (some body) caller
                        gen now st
                      ≡ insert_redacted sch gen now st =
                    rw (h, b, create_schedule) in
                  let bound : owned owner (insert_redacted sch gen now st).0.schedules
                      ≤ quota_of caller =
                    omega (
                      arith,
                      o,
                      size,
                      leb-false→lt (quota_of caller) (length (list_schedules_by_owner owner st)) b,
                    ) in
                  inr (
                    inr (
                      check_create-none body h,
                      (
                        stored_schedule sch gen now,
                        rw (e) r,
                        rw (e) g,
                        refl,
                        refl,
                        refl,
                        refl,
                        refl,
                        rw (e) bound,
                      ),
                    ))
            ]
      ]
    where
      owner : Bytes
      owner = schedule_owner caller

      size : length (list_schedules_by_owner owner st) ≡ owned owner st.schedules
      size = length-list_schedules_by_owner owner st
