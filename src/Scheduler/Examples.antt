-- ===== src/Scheduler/Examples.antt =====
-- The scheduler at work, and its theorems at concrete inputs.
use stackly.Base.{
  ℕ, ◌+◌, ◌-◌, ◌*◌, ◌≤◌, ◌<◌, ◌≡◌, refl, inl, ◌↔◌, ◌⊎◌, true, false, not, ◌&&◌, ◌||◌, Option, none,
  some, List, [], ◌∷◌, ◌++◌, Bytes, text, bytes_eq, to_lower, take, if◌then◌else◌, arith, ◌==◌,
}
use stackly.Base.Keys.{has, Nodup}
use stackly.Base.Map
use stackly.Scan.{ScanResult}
use stackly.Scheduler.{Schedule, WebhookDelivery, Store, hour, second, max_delivery_log}
use stackly.Scheduler.Ops.{
  empty_store, get_schedule, load, save, save_loop, delete_schedule, log_delivery,
  recent_deliveries,
}
use stackly.Scheduler.Log.{log_all, newest_first, recent_deliveries-newest}
use stackly.Scheduler.Persist.{deleted_schedule_returns}
use stackly.Scheduler.Validate.{
  Ip, ip_v4, Url, UrlError, blocked, is_blocked_ip, validate_url, validate_webhook_url, check_host,
  addresses, allowed_scheme, first_blocked, is_unspecified, is_loopback, is_multicast,
  is_link_local_unicast, is_link_local_multicast, is_private,
}
use stackly.Scheduler.Targets.{
  Acceptable, address, in_blocked_range, validate_url-accepts, is_blocked_ip-ranges,
}
use stackly.Scheduler.Dispatch.{
  WebhookPayload, Answer, answered, World, Outbox, max_attempts, delivery_of, outcome, read_answer,
  dispatch_webhook,
}
use stackly.Scheduler.Delivery.{tries, posts, dispatch_webhook-retries}
use stackly.Scheduler.Run.{Scheduler, tick, run_one, status_of}
use stackly.Scheduler.Ticks.{due_at, after_run, tick-starts, run_one-waits}

abbrev hourly : Schedule
hourly = record {
  id = text "a";
  url = text "http://x";
  interval = text "hourly";
  owner = text "u";
  enabled = true;
  webhook_url = text "http://h";
  webhook_secret = text "k";
  has_secret = true;
  last_run = 0;
  last_status = [];
  last_error = [];
  next_run = 50;
  run_count = 0;
  created_at = 1;
}

abbrev stored : Store
stored = record {
  schedules = (text "a", hourly) ∷ [];
  log = [];
  dirty = false;
  file = some (record { schedules = hourly ∷ []; log = [] });
}

abbrev idle : Scheduler
idle = record { store = stored; inflight = [] }

abbrev page : ScanResult
page = record {
  url = text "u";
  html = text "<p>";
  headers = [];
  scripts = [];
  css_links = [];
  js_globals = [];
  meta_tags = [];
  cookies = [];
  results = [];
  emails = [];
  scan_duration = 5;
  error = none;
}

-- A parser and a resolver that know one name.
abbrev parse : Bytes → Option Url
parse raw = some (record { scheme = text "HTTP"; hostname = text "h" })

abbrev parse_ip : Bytes → Option Ip
parse_ip host = none

abbrev outside : Bytes → Option (List Ip)
outside host = some (ip_v4 93 184 216 34 ∷ [])

abbrev inside : Bytes → Option (List Ip)
inside host = some (ip_v4 169 254 169 254 ∷ [])

abbrev hmac : Bytes → Bytes → Bytes
hmac secret body = secret ++ body

abbrev marshal : WebhookPayload → Bytes ⊎ Bytes
marshal p = inl (text "body")

abbrev describe : UrlError → Bytes
describe e = text "no"

-- A peer that fails twice and then accepts.
abbrev answer : ℕ → Answer
answer i = if i == 3 then answered 204 else answered 500

-- The secret is erased after the first attempt.
abbrev world : World
world = record {
  held = λ i. if i == 1 then hourly else record hourly { webhook_secret = [] };
  logged = λ i. hourly;
  answer = answer;
  duration = λ i. 7;
  now = 99;
  gen = text "g";
}

abbrev outbox : Outbox
outbox = record { sent = []; slept = []; store = stored }

abbrev posted : WebhookDelivery
posted = delivery_of (text "a") (text "http://h") 1 (text "success") 200 [] 7

recent_deliveries-newest_example :
    recent_deliveries 1 (log_all ((posted, text "x", 5) ∷ (posted, text "y", 6) ∷ []) stored)
    ≡ take 1 (
        take max_delivery_log
          (newest_first ((posted, text "x", 5) ∷ (posted, text "y", 6) ∷ []) []))
recent_deliveries-newest_example =
    recent_deliveries-newest ((posted, text "x", 5) ∷ (posted, text "y", 6) ∷ []) 1 stored
      (omega arith)

deleted_is_back :
    let st' = save_loop (delete_schedule (text "a") stored).0 in
    (get_schedule (text "a") st' ≡ none)
    × (get_schedule (text "a") (load (empty_store st'.file)) ≡ get_schedule (text "a") stored)
unfolding save get_schedule Map.get Map.values bytes_eq
deleted_is_back = deleted_schedule_returns stored (text "a") (refl, refl, tt) refl refl refl

validate_url-accepts_example :
    (validate_url parse parse_ip outside (text "HTTP://h") false ≡ none)
    ↔ Acceptable parse parse_ip outside (text "HTTP://h") false
validate_url-accepts_example = validate_url-accepts parse parse_ip outside (text "HTTP://h") false

is_blocked_ip-ranges_example :
    (is_blocked_ip (ip_v4 240 0 0 1) ≡ in_blocked_range (address 240 0 0 1))
    × (240 ≤ 240 → is_blocked_ip (ip_v4 240 0 0 1) ≡ false)
is_blocked_ip-ranges_example =
    is_blocked_ip-ranges 240 0 0 1 (omega arith) (omega arith) (omega arith) (omega arith)

url_test : validate_webhook_url parse parse_ip outside (text "http://h") ≡ none
unfolding validate_webhook_url validate_url check_host addresses allowed_scheme first_blocked
    is_blocked_ip is_unspecified is_loopback is_multicast is_link_local_unicast
    is_link_local_multicast is_private bytes_eq to_lower
url_test = refl

blocked_url_test :
    validate_webhook_url parse parse_ip inside (text "http://h")
    ≡ some (blocked (ip_v4 169 254 169 254))
unfolding validate_webhook_url validate_url check_host addresses allowed_scheme first_blocked
    is_blocked_ip is_unspecified is_loopback is_multicast is_link_local_unicast
    is_link_local_multicast is_private bytes_eq to_lower
blocked_url_test = refl

dispatch_webhook-retries_example :
    let k = tries world 2 1 in
    let o' =
      dispatch_webhook hmac parse parse_ip outside describe marshal hourly none
        (text "failed")
        []
        world
        outbox in
    (k ≤ max_attempts)
    × (o'.sent ≡ posts hmac (text "body") world k 1)
    × (o'.slept ≡ take (k - 1) (second ∷ 3 * second ∷ []))
    × (o'.store ≡ log_delivery (outcome world k (read_answer (answer k))) (text "g") 99 stored)
dispatch_webhook-retries_example =
    dispatch_webhook-retries hmac parse parse_ip outside describe marshal hourly none
      (text "failed") [] world outbox (text "body") refl url_test

tick-starts_example :
    let r = tick 60 idle in
    (r.0.store ≡ idle.store)
    × Nodup r.1
    × ((id : Bytes)
        → (has id r.1 ≡ (due_at 60 (get_schedule id idle.store) && not (has id idle.inflight)))
          × (has id r.0.inflight ≡ (has id idle.inflight || has id r.1)))
unfolding Map.get
tick-starts_example = tick-starts 60 idle (refl, refl, tt)

run_one-waits_example :
    let r = run_one (λ job url. some page) (λ st. st) (text "a") 60 idle in
    let sch' = after_run 60 (some page) hourly in
    (get_schedule (text "a") r.0.store ≡ some sch')
    × (has (text "a") r.0.inflight ≡ false)
    × (r.1
        ≡ some
            (record { schedule = sch'; result = some page; status = text "success"; error = [] }))
    × ((t : ℕ) → t < 60 + hour → due_at t (get_schedule (text "a") r.0.store) ≡ false)
unfolding get_schedule Map.get bytes_eq status_of
run_one-waits_example =
    run_one-waits (λ job url. some page) (λ st. st) (text "a") 60 idle hourly refl (λ st. refl)
