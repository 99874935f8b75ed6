-- ===== src/Api/Secrets.antt =====
-- The secrets of webhooks in the handlers of internal/api/schedules.go: what they show, and what they
-- erase.
use stackly.Base.{
  ℕ, ◌≡◌, refl, inl, inr, true, false, Option, none, some, List, [], ◌∷◌, Bytes, text, bytes_eq,
  leb, length, map, All, Bool-cases, Option-cases, List-cases, sym, ap, subst, ◌≢◌, ◌∙◌,
}
use stackly.Scheduler.{Schedule, Store}
use stackly.Scheduler.Ops.{get_schedule, update_schedule, list_schedules_by_owner, delete_schedule}
use stackly.Scheduler.Ticks.{update_schedule-some}
use stackly.Scheduler.Dispatch.{request_of}
use stackly.Scheduler.Validate.{Ip, Url}
use stackly.Api.Requests.{
  Method, get_method, post_method, patch_method, delete_method, other_method, Caller, CreateBody,
  PatchBody, BadRequest, Response, created, shown, listed, bad_request, quota_exceeded,
  schedule_owner, redact_schedule, split_slash, trim_prefix,
}
use stackly.Api.Schedules.{
  check_patch, apply_patch, update_redacted, patch_schedule, handle_schedule_run, handle_schedule,
  route_schedule, own_schedule, handle_schedule_subpath, handle_schedules, list_schedules,
  create_schedule, check_create, new_schedule, insert_redacted, quota_of, interval_of,
}
use stackly.Api.Admission.{insert_redacted_lem, create_schedule-outcome}

-- A schedule without its secret, and a response that shows no other.
abbrev pub IsRedacted : Schedule → Type 0
IsRedacted s = s.webhook_secret ≡ []

abbrev pub Hides : Response → Type 0
Hides (created s) = IsRedacted s
Hides (shown s) = IsRedacted s
Hides (listed ss) = All IsRedacted ss
Hides r = Unit

map-IsRedacted : (ss : List Schedule) → All IsRedacted (map redact_schedule ss)
unfolding redact_schedule
map-IsRedacted [] = tt
map-IsRedacted (s ∷ ss) = (refl, map-IsRedacted ss)

update_redacted-Hides :
    (id : Bytes) (f : Schedule → Schedule) (st : Store) → Hides (update_redacted id f st).1
unfolding update_redacted redact_schedule
update_redacted-Hides id f st = elim (Option-cases (update_schedule id f st).1) [
  | inl e ↦ rw (e, update_redacted) tt
  | inr (s, e) ↦ rw (e, update_redacted) refl
]

insert_redacted-Hides :
    (sch : Schedule) (gen : Bytes) (now : ℕ) (st : Store) → Hides (insert_redacted sch gen now st).1
unfolding redact_schedule
insert_redacted-Hides sch gen now st = rw ((insert_redacted_lem sch gen now st).0) refl

module _ (parse : Bytes → Option Url) (parse_ip : Bytes → Option Ip)
    (lookup_ip : Bytes → Option (List Ip)) where
  patch_schedule-Hides :
      (id : Bytes) (body : Option PatchBody) (st : Store)
      → Hides (patch_schedule parse parse_ip lookup_ip id body st).1
  unfolding patch_schedule
  patch_schedule-Hides id none st = tt
  patch_schedule-Hides id (some body) st =
      elim (Option-cases (check_patch parse parse_ip lookup_ip body)) [
        | inl e ↦ rw (e, patch_schedule) (update_redacted-Hides id (apply_patch body) st)
        | inr (x, e) ↦ rw (e, patch_schedule) tt
      ]

  handle_schedule-Hides :
      (m : Method) (id : Bytes) (body : Option PatchBody) (sch : Schedule) (st : Store)
      → Hides (handle_schedule parse parse_ip lookup_ip m id body sch st).1
  unfolding handle_schedule redact_schedule
  handle_schedule-Hides get_method id body sch st = refl
  handle_schedule-Hides patch_method id body sch st = patch_schedule-Hides id body st
  handle_schedule-Hides delete_method id body sch st = elim (Bool-cases (delete_schedule id st).1) [
    | inl e ↦ rw (e, handle_schedule) tt
    | inr e ↦ rw (e, handle_schedule) tt
  ]
  handle_schedule-Hides post_method id body sch st = tt
  handle_schedule-Hides other_method id body sch st = tt

  route_schedule-Hides :
      (m : Method) (id : Bytes) (rest : List Bytes) (body : Option PatchBody) (now : ℕ)
      (sch : Schedule) (st : Store)
      → Hides (route_schedule parse parse_ip lookup_ip m id rest body now sch st).1
  unfolding route_schedule
  route_schedule-Hides m id [] body now sch st = handle_schedule-Hides m id body sch st
  route_schedule-Hides m id (p ∷ []) body now sch st = elim (Bool-cases (bytes_eq p (text "run"))) [
    | inl b ↦ rw (b) (run m)
    | inr b ↦ rw (b) tt
  ]
    where
      run : (m : Method) → Hides (handle_schedule_run m now sch st).1
      run post_method = unfold handle_schedule_run in tt
      run get_method = unfold handle_schedule_run in tt
      run patch_method = unfold handle_schedule_run in tt
      run delete_method = unfold handle_schedule_run in tt
      run other_method = unfold handle_schedule_run in tt
  route_schedule-Hides m id (p ∷ q ∷ ps) body now sch st = tt

  own_schedule-Hides :
      (m : Method) (id : Bytes) (rest : List Bytes) (body : Option PatchBody)
      (caller : Option Caller) (now : ℕ) (st : Store)
      → Hides (own_schedule parse parse_ip lookup_ip m id rest body caller now st).1
  unfolding own_schedule
  own_schedule-Hides m id rest body caller now st = elim (Bool-cases (bytes_eq id [])) [
    | inl b ↦ rw (b, own_schedule) tt
    | inr b ↦ elim (Option-cases (get_schedule id st)) [
      | inl e ↦ rw (b, e, own_schedule) tt
      | inr (sch, e) ↦ elim (Bool-cases (bytes_eq sch.owner (schedule_owner caller))) [
        | inl c ↦ rw (b, e, c, own_schedule) (route_schedule-Hides m id rest body now sch st)
        | inr c ↦ rw (b, e, c, own_schedule) tt
      ]
    ]
  ]

  -- No response of the two handlers of schedules shows the secret of a webhook, whatever the request
  -- and the caller are.
  pub schedules_hide_secrets :
      (m : Method) (path allow gen : Bytes) (patch : Option PatchBody) (create : Option CreateBody)
      (caller : Option Caller) (now : ℕ) (server : Option Store)
      → Hides (handle_schedule_subpath parse parse_ip lookup_ip m path patch caller now server).1
        × Hides (handle_schedules parse parse_ip lookup_ip allow m create caller gen now server).1
  unfolding handle_schedule_subpath handle_schedules list_schedules create_schedule
  schedules_hide_secrets m path allow gen patch create caller now none = (tt, tt)
  schedules_hide_secrets m path allow gen patch create caller now (some st) = (
    (elim (List-cases (split_slash (trim_prefix (text "/api/schedules/") path))) [
      | inl e ↦ rw (e, handle_schedule_subpath) tt
      | inr (id, rest, e) ↦
          rw (e, handle_schedule_subpath) (own_schedule-Hides m id rest patch caller now st)
    ]),
    all m,
  )
    where
      post :
          (create : Option CreateBody)
          → Hides (create_schedule parse parse_ip lookup_ip allow create caller gen now st).1
      post none = tt
      post (some body) = elim (Option-cases (check_create parse parse_ip lookup_ip allow body)) [
        | inr (e, h) ↦ rw (h, create_schedule) tt
        | inl h ↦
            elim (Bool-cases (
              leb (quota_of caller)
                (length (list_schedules_by_owner (schedule_owner caller) st)))) [
                  | inl b ↦ rw (h, b, create_schedule) tt
                  | inr b ↦
                      rw (h, b, create_schedule)
                        (insert_redacted-Hides
                          (new_schedule body (interval_of body) (schedule_owner caller)) gen now st)
                ]
      ]

      all :
          (m : Method)
          → Hides
              (handle_schedules parse parse_ip lookup_ip allow m create caller gen now (some st)).1
      all get_method = map-IsRedacted (list_schedules_by_owner (schedule_owner caller) st)
      all post_method = post create
      all patch_method = tt
      all delete_method = tt
      all other_method = tt

  -- Reading a schedule erases the secret of its webhook: after a GET by its owner the stored schedule
  -- has none, and the requests that the dispatcher sends for it carry no signature.
  pub get_erases_secret :
      (hmac : Bytes → Bytes → Bytes) (payload : Bytes) (id : Bytes) (caller : Option Caller)
      (now : ℕ) (st : Store) (sch : Schedule)
      → bytes_eq id [] ≡ false
      → get_schedule id st ≡ some sch
      → bytes_eq sch.owner (schedule_owner caller) ≡ true
      → let st' = (own_schedule parse parse_ip lookup_ip get_method id [] none caller now st).0 in
        (s : Schedule) × (get_schedule id st' ≡ some s)
        × (s.webhook_url ≡ sch.webhook_url)
        × ((request_of hmac s.webhook_url payload s.webhook_secret).signature ≡ none)
  unfolding own_schedule route_schedule handle_schedule redact_schedule request_of bytes_eq
  get_erases_secret hmac payload id caller now st sch n g o =
      let e = (update_schedule-some id redact_schedule st sch g).1 in
      (redact_schedule sch, rw (n, g, o, own_schedule) e, refl, refl)

  -- A POST stores its schedule with no secret, whatever secret it was sent: the requests that the
  -- dispatcher sends for it carry no signature.
  pub post_erases_secret :
      (hmac : Bytes → Bytes → Bytes) (payload allow gen : Bytes) (body : CreateBody)
      (caller : Option Caller) (now : ℕ) (st : Store) (s : Schedule)
      → let r = create_schedule parse parse_ip lookup_ip allow (some body) caller gen now st in
        r.1 ≡ created s
        → (get_schedule s.id r.0 ≡ some s)
          × (s.webhook_url ≡ body.webhook_url)
          × ((request_of hmac s.webhook_url payload s.webhook_secret).signature ≡ none)
  unfolding request_of bytes_eq
  post_erases_secret hmac payload allow gen body caller now st s h =
      elim (create_schedule-outcome parse parse_ip lookup_ip allow body caller gen now st) [
        | inl (e, r, _) ↦ absurd (rejected e (sym h ∙ ap (λ p. p.1) r))
        | inr (inl (r, _, q)) ↦ absurd (over _ _ _ (sym h ∙ ap (λ p. p.1) r))
        | inr (inr (ok, (s', r, g, o, u, w, a, k, q))) ↦
            let same : s' ≡ s = cc in
            subst
              (λ t.
                (get_schedule t.id
                    (create_schedule parse parse_ip lookup_ip allow (some body) caller gen now st).0
                  ≡ some t)
                × (t.webhook_url ≡ body.webhook_url)
                × ((request_of hmac t.webhook_url payload t.webhook_secret).signature ≡ none))
              same (g, w, rw (k))
      ]
    where
      rejected : (e : BadRequest) → created s ≢ bad_request e
      rejected e p = cc

      over : (a b : ℕ) (t : Bytes) → created s ≢ quota_exceeded a b t
      over a b t p = cc
