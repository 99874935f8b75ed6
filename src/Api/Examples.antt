-- ===== src/Api/Examples.antt =====
-- The handlers at work, and their theorems at concrete inputs.
use stackly.Base.{
  ◌≡◌, refl, true, false, Option, none, some, List, [], ◌∷◌, ◌++◌, Bytes, text, bytes_eq, to_lower,
  has_prefix,
}
use stackly.Base.Map
use stackly.Scheduler.{Schedule, Store, interval_dur}
use stackly.Scheduler.Ops.{
  get_schedule, update_schedule, add_schedule, with_defaults, mark_dirty, list_schedules_by_owner,
}
use stackly.Scheduler.Validate.{
  Ip, ip_v4, Url, validate_scan_url, validate_webhook_url, validate_url, check_host, addresses,
  allowed_scheme, first_blocked, is_blocked_ip, is_unspecified, is_loopback, is_multicast,
  is_link_local_unicast, is_link_local_multicast, is_private, quota_for_owner,
  schedule_quota_by_tier,
}
use stackly.Base.Sort.{exchange_sort}
use stackly.Scheduler.Dispatch.{answered, request_of}
use stackly.Api.Requests.{
  get_method, post_method, delete_method, TestBody, Caller, CreateBody, created, schedule_owner,
  split_slash, trim_prefix, redact_schedule,
}
use stackly.Api.Schedules.{
  check_create, handle_schedules, handle_schedule_subpath, create_schedule, new_schedule,
  insert_redacted,
}
use stackly.Api.Owners.{subpath_isolates}
use stackly.Api.Admission.{Outcome, stored_schedule, create_schedule-outcome}
use stackly.Api.Webhooks.{handle_webhook_subpath}
use stackly.Api.Outbound.{GoesOutside, ShowsOwn, webhooks_are_guarded}
use stackly.Api.Secrets.{Hides, schedules_hide_secrets, post_erases_secret}

abbrev parse : Bytes → Option Url
parse raw = some (record { scheme = text "https"; hostname = text "h" })

abbrev parse_ip : Bytes → Option Ip
parse_ip host = some (ip_v4 93 184 216 34)

abbrev lookup_ip : Bytes → Option (List Ip)
lookup_ip host = none

abbrev hmac : Bytes → Bytes → Bytes
hmac secret body = secret ++ body

abbrev ann : Option Caller
ann = some (record { id = text "ann"; tier = text "pro" })

abbrev bob : Option Caller
bob = some (record { id = text "bob"; tier = text "free" })

abbrev hers : Schedule
hers = record {
  id = text "a";
  url = text "https://h";
  interval = text "daily";
  owner = text "ann";
  enabled = true;
  webhook_url = text "https://w";
  webhook_secret = text "k";
  has_secret = true;
  last_run = 0;
  last_status = [];
  last_error = [];
  next_run = 50;
  run_count = 0;
  created_at = 1;
}

abbrev stored : Store
stored = record { schedules = (text "a", hers) ∷ []; log = []; dirty = false; file = none }

abbrev wanted : CreateBody
wanted = record {
  url = text "https://h";
  interval = [];
  webhook_url = text "https://w";
  webhook_secret = text "k";
}

split_test :
    split_slash (trim_prefix (text "/api/schedules/") (text "/api/schedules/a/run"))
    ≡ text "a" ∷ text "run" ∷ []
unfolding split_slash trim_prefix has_prefix
split_test = refl

subpath_isolates_example :
    (st' : Store) × ((handle_schedule_subpath parse parse_ip lookup_ip delete_method
        (text "/api/schedules/a")
        none
        bob
        60
        (some stored)).0
      ≡ some st')
    × (get_schedule (text "a") st' ≡ some hers)
unfolding get_schedule schedule_owner Map.get bytes_eq
subpath_isolates_example =
    subpath_isolates parse parse_ip lookup_ip delete_method (text "/api/schedules/a") none bob 60
      stored (text "a") hers (refl, refl, tt) refl refl

create_schedule-outcome_example :
    Outcome parse parse_ip lookup_ip [] wanted bob stored
      (create_schedule parse parse_ip lookup_ip [] (some wanted) bob (text "g") 60 stored)
create_schedule-outcome_example =
    create_schedule-outcome parse parse_ip lookup_ip [] wanted bob (text "g") 60 stored

schedules_hide_secrets_example :
    Hides
      (handle_schedule_subpath parse parse_ip lookup_ip get_method
        (text "/api/schedules/a")
        none
        ann
        60
        (some stored)).1
    × Hides
        (handle_schedules parse parse_ip lookup_ip [] get_method none ann
          (text "g")
          60
          (some stored)).1
schedules_hide_secrets_example =
    schedules_hide_secrets parse parse_ip lookup_ip get_method (text "/api/schedules/a") []
      (text "g") none none ann 60 (some stored)

abbrev made : Schedule
made = stored_schedule (new_schedule wanted (text "daily") (text "bob")) (text "g") 60

post_test :
    (create_schedule parse parse_ip lookup_ip [] (some wanted) bob (text "g") 60 stored).1
    ≡ created made
unfolding create_schedule check_create validate_scan_url validate_webhook_url validate_url
    check_host addresses allowed_scheme to_lower first_blocked is_blocked_ip is_unspecified
    is_loopback is_multicast is_link_local_unicast is_link_local_multicast is_private bytes_eq
    quota_for_owner schedule_quota_by_tier list_schedules_by_owner exchange_sort schedule_owner
    insert_redacted update_schedule add_schedule with_defaults new_schedule redact_schedule
    mark_dirty interval_dur Map.get Map.put Map.values
post_test = refl

post_erases_secret_example :
    let r = create_schedule parse parse_ip lookup_ip [] (some wanted) bob (text "g") 60 stored in
    (get_schedule made.id r.0 ≡ some made)
    × (made.webhook_url ≡ wanted.webhook_url)
    × ((request_of hmac made.webhook_url (text "p") made.webhook_secret).signature ≡ none)
post_erases_secret_example =
    post_erases_secret parse parse_ip lookup_ip hmac (text "p") [] (text "g") wanted bob 60 stored
      made post_test

abbrev ping : TestBody
ping = record { url = text "https://h"; secret = text "k" }

webhooks_are_guarded_example :
    let r =
      handle_webhook_subpath hmac parse parse_ip lookup_ip post_method
        (text "/api/webhooks/test")
        (some ping)
        ann
        (text "p")
        (λ req. answered 204)
        (some stored) in
    GoesOutside parse parse_ip lookup_ip r.0 × ShowsOwn (schedule_owner ann) stored r.1
webhooks_are_guarded_example =
    webhooks_are_guarded hmac parse parse_ip lookup_ip post_method (text "/api/webhooks/test")
      (some ping) ann (text "p") (λ req. answered 204) stored
