-- ===== src/Api/Schedules.antt =====
-- handleSchedules, handleScheduleSubpath and handleScheduleRun of internal/api/schedules.go.
use stackly.Base.{
  ℕ, true, false, not, ◌||◌, Option, none, some, List, [], ◌∷◌, Bytes, text, bytes_eq, leb, length,
  map, if◌then◌else◌,
}
use stackly.Base.Map.{Map}
use stackly.Scheduler.{Schedule, Store}
use stackly.Scheduler.Ops.{
  add_schedule, get_schedule, update_schedule, delete_schedule, list_schedules_by_owner,
}
use stackly.Scheduler.Validate.{
  Ip, Url, UrlError, validate_scan_url, validate_webhook_url, quota_for_owner,
}
use stackly.Api.Requests.{
  Method, get_method, post_method, patch_method, delete_method, Caller, CreateBody, PatchBody,
  BadRequest, invalid_json, url_required, invalid_url, invalid_webhook_url, invalid_interval,
  Response, unavailable, bad_request, quota_exceeded, method_not_allowed, not_found,
  schedule_not_found, listed, created, shown, deleted, queued_run, schedule_owner, redact_schedule,
  is_interval, split_slash, trim_prefix,
}

-- The loop of the listing, on the objects that the owner's pointers name.
unfoldable pub redact_owned : Bytes → Map Schedule → Map Schedule
redact_owned owner [] = []
redact_owned owner ((k, s) ∷ m) =
    (k, if bytes_eq s.owner owner then redact_schedule s else s) ∷ redact_owned owner m

unfoldable pub list_schedules : Bytes → Store → Store × Response
unfolding redact_owned
list_schedules owner st = (
  record st { schedules = redact_owned owner st.schedules },
  listed (map redact_schedule (list_schedules_by_owner owner st)),
)

-- The schedule that a POST makes.
unfoldable pub new_schedule : CreateBody → Bytes → Bytes → Schedule
new_schedule body interval owner = record {
  id = [];
  url = body.url;
  interval = interval;
  owner = owner;
  enabled = true;
  webhook_url = body.webhook_url;
  webhook_secret = body.webhook_secret;
  has_secret = not (bytes_eq body.webhook_secret []);
  last_run = 0;
  last_status = [];
  last_error = [];
  next_run = 0;
  run_count = 0;
  created_at = 0;
}

-- AddSchedule, and then the redaction of the object that was added.
unfoldable pub insert_redacted : Schedule → Bytes → ℕ → Store → Store × Response
unfolding add_schedule update_schedule
insert_redacted sch gen now st =
    let (st, id) = add_schedule sch gen now st in
    let (st, updated) = update_schedule id redact_schedule st in
    (st, elim updated [ none ↦ schedule_not_found | some s ↦ created s ])

abbrev pub interval_of : CreateBody → Bytes
interval_of body = if bytes_eq body.interval [] then text "daily" else body.interval

abbrev pub quota_of : Option Caller → ℕ
quota_of none = quota_for_owner (text "free") false
quota_of (some u) = quota_for_owner u.tier true

abbrev pub tier_of : Option Caller → Bytes
tier_of none = text "free"
tier_of (some u) = u.tier

-- The mutator of a PATCH.
unfoldable pub apply_patch : PatchBody → Schedule → Schedule
apply_patch body sch = record sch {
  enabled = elim body.enabled [ none ↦ sch.enabled | some b ↦ b ];
  interval = elim body.interval [
    | none ↦ sch.interval
    | some i ↦ if is_interval i then i else sch.interval
  ];
  webhook_url = elim body.webhook_url [ none ↦ sch.webhook_url | some u ↦ u ];
  webhook_secret = elim body.webhook_secret [ none ↦ sch.webhook_secret | some k ↦ k ];
  has_secret = elim body.webhook_secret [ none ↦ sch.has_secret | some k ↦ not (bytes_eq k []) ];
}

-- UpdateSchedule by a mutator, and then the redaction of what it returns.
unfoldable pub update_redacted : Bytes → (Schedule → Schedule) → Store → Store × Response
unfolding update_schedule
update_redacted id f st =
    let (st, updated) = update_schedule id f st in
    elim updated [
      | none ↦ (st, schedule_not_found)
      | some s ↦ ((update_schedule id redact_schedule st).0, shown (redact_schedule s))
    ]

unfoldable pub handle_schedule_run : Method → ℕ → Schedule → Store → Store × Response
unfolding update_schedule
handle_schedule_run post_method now sch st =
    ((update_schedule sch.id (λ s. record s { next_run = now }) st).0, queued_run sch.id)
handle_schedule_run m now sch st = (st, method_not_allowed)

module _ (parse : Bytes → Option Url) (parse_ip : Bytes → Option Ip)
    (lookup_ip : Bytes → Option (List Ip)) (allow_private : Bytes) where
  -- The checks of a POST on its body: the interval to use, or the error.
  unfoldable pub check_create : CreateBody → Option BadRequest
  check_create body =
      if bytes_eq body.url []
      then some url_required
      else elim (validate_scan_url parse parse_ip lookup_ip allow_private body.url) [
        | some e ↦ some (invalid_url e)
        | none ↦
            elim (if not (bytes_eq body.webhook_url [])
              then validate_webhook_url parse parse_ip lookup_ip body.webhook_url
              else none) [
                | some e ↦ some (invalid_webhook_url e)
                | none ↦
                    if bytes_eq body.interval [] || is_interval body.interval
                    then none
                    else some invalid_interval
              ]
      ]

  unfoldable pub create_schedule :
      Option CreateBody → Option Caller → Bytes → ℕ → Store → Store × Response
  unfolding check_create insert_redacted new_schedule
  create_schedule none caller gen now st = (st, bad_request invalid_json)
  create_schedule (some body) caller gen now st = elim (check_create body) [
    | some e ↦ (st, bad_request e)
    | none ↦
        let owner = schedule_owner caller in
        let existing = length (list_schedules_by_owner owner st) in
        if leb (quota_of caller) existing
        then (st, quota_exceeded existing (quota_of caller) (tier_of caller))
        else insert_redacted (new_schedule body (interval_of body) owner) gen now st
  ]

  -- `none` is a server with no schedule store.
  unfoldable pub handle_schedules :
      Method
      → Option CreateBody
      → Option Caller
      → Bytes
      → ℕ
      → Option Store
      → Option Store × Response
  unfolding create_schedule list_schedules
  handle_schedules m body caller gen now none = (none, unavailable)
  handle_schedules get_method body caller gen now (some st) =
      let (st, r) = list_schedules (schedule_owner caller) st in (some st, r)
  handle_schedules post_method body caller gen now (some st) =
      let (st, r) = create_schedule body caller gen now st in (some st, r)
  handle_schedules m body caller gen now (some st) = (some st, method_not_allowed)

module _ (parse : Bytes → Option Url) (parse_ip : Bytes → Option Ip)
    (lookup_ip : Bytes → Option (List Ip)) where
  unfoldable pub check_patch : PatchBody → Option UrlError
  check_patch body = elim body.webhook_url [
    | none ↦ none
    | some u ↦ if not (bytes_eq u []) then validate_webhook_url parse parse_ip lookup_ip u else none
  ]

  unfoldable pub patch_schedule : Bytes → Option PatchBody → Store → Store × Response
  unfolding check_patch update_redacted apply_patch
  patch_schedule id none st = (st, bad_request invalid_json)
  patch_schedule id (some body) st = elim (check_patch body) [
    | some e ↦ (st, bad_request (invalid_webhook_url e))
    | none ↦ update_redacted id (apply_patch body) st
  ]

  -- The handler of one schedule, after the check of its owner.
  unfoldable pub handle_schedule :
      Method → Bytes → Option PatchBody → Schedule → Store → Store × Response
  unfolding patch_schedule update_schedule delete_schedule
  handle_schedule get_method id body sch st =
      ((update_schedule id redact_schedule st).0, shown (redact_schedule sch))
  handle_schedule patch_method id body sch st = patch_schedule id body st
  handle_schedule delete_method id body sch st =
      let (st, existed) = delete_schedule id st in
      (st, if existed then deleted else schedule_not_found)
  handle_schedule m id body sch st = (st, method_not_allowed)

  -- What follows the ID in the path decides between the two handlers.
  unfoldable pub route_schedule :
      Method → Bytes → List Bytes → Option PatchBody → ℕ → Schedule → Store → Store × Response
  unfolding handle_schedule_run handle_schedule
  route_schedule m id [] body now sch st = handle_schedule m id body sch st
  route_schedule m id (p ∷ []) body now sch st =
      if bytes_eq p (text "run") then handle_schedule_run m now sch st else (st, not_found)
  route_schedule m id (p ∷ q ∷ ps) body now sch st = (st, not_found)

  unfoldable pub own_schedule :
      Method → Bytes → List Bytes → Option PatchBody → Option Caller → ℕ → Store → Store × Response
  unfolding route_schedule get_schedule
  own_schedule m id rest body caller now st =
      if bytes_eq id [] then (st, not_found) else elim (get_schedule id st) [
        | none ↦ (st, schedule_not_found)
        | some sch ↦
            if not (bytes_eq sch.owner (schedule_owner caller))
            then (st, schedule_not_found)
            else route_schedule m id rest body now sch st
      ]

  unfoldable pub handle_schedule_subpath :
      Method → Bytes → Option PatchBody → Option Caller → ℕ → Option Store → Option Store × Response
  unfolding own_schedule
  handle_schedule_subpath m path body caller now none = (none, unavailable)
  handle_schedule_subpath m path body caller now (some st) =
      elim (split_slash (trim_prefix (text "/api/schedules/") path)) [
        | [] ↦ (some st, not_found)
        | id ∷ rest ↦ let (st, r) = own_schedule m id rest body caller now st in (some st, r)
      ]
