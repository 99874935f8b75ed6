-- ===== src/Server/Examples.antt =====
-- The server at work, and its theorems at concrete inputs.
use stackly.Base.{
  ℕ, ◌+◌, ◌*◌, ◌≤◌, ◌≡◌, refl, true, false, not, ◌&&◌, Option, none, some, List, [], ◌∷◌, Bytes,
  text, bytes_eq, has_prefix, any, arith,
}
use stackly.Base.Keys.{has, Nodup}
use stackly.Base.Map
use stackly.Scan.{ScanResult}
use stackly.Scanner.Detect.{slugs}
use stackly.Scanner.Implied.{implies}
use stackly.Hub.{Event, EventType, new_hub}
use stackly.Queue.{Job, completed, new_job_queue}
use stackly.Auth.{User, Users}
use stackly.Auth.Calendar.{utc}
use stackly.Auth.Login.{authenticate, by_key}
use stackly.Auth.Quota.{authenticate_api_key, all_users}
use stackly.Auth.Middleware.{is_enabled}
use stackly.Scheduler.Validate.{ip_v4}
use stackly.Scheduler.Dispatch.{answered}
use stackly.Api.Requests.{post_method}
use stackly.Base.{to_lower, if◌then◌else◌}
use stackly.Base.Decimal.{show_nat}
use stackly.Base.Search.{contains}
use stackly.Server.Metrics
use stackly.Server.Metrics.{
  Handled, returns, panics, serve_all, http_middleware, is_websocket_upgrade, inc, recorded,
}
use stackly.Server.{Server, Call, plain, Env, Reply}
use stackly.Server.Wait.{EndsAt, wait_for_job, wait_seconds, wait_for_job-ends}
use stackly.Server.Scans.{make_compact}
use stackly.Server.Socket.{Turn, event, ping, client_gone, write_events, extract_ws_token}
use stackly.Server.Routes.{scan_route, unknown_route, route, route_pattern, switch, serve}
use stackly.Server.Anonymous.{IsPublicReply, left_by, anonymous_is_kept_out}
use stackly.Server.Compact.{
  in_category, up_to_end, all_sent, ends, make_compact-exact, write_events-exact,
}

abbrev ann : User
ann = record {
  id = text "1";
  key = text "k";
  name = text "ann";
  tier = text "free";
  rate_limit = 60;
  created_at = 0;
  last_seen_at = 0;
  request_count = 0;
  disabled = false;
  scan_count = 99;
  month_reset = 50;
}

abbrev users : Users
users = record { users = (text "k", ann) ∷ []; dirty = false; file = none }

abbrev server : Server
server = record {
  queue = new_job_queue none new_hub;
  auth = record {
    store = some users;
    enabled = true;
    default_rate = 60;
    jwt_secret = [];
    anon_buckets = [];
  };
  fingerprints = record { version = []; updated = []; technologies = [] };
  schedules = none;
}

abbrev env : Env
env = record {
  sha256 = λ s. s;
  hash_key = λ s. s;
  base64_decode = λ s. none;
  parse_jwt = λ secret token. none;
  parse = λ s. some (record { scheme = text "https"; hostname = text "x" });
  parse_ip = λ s. none;
  lookup_ip = λ s. some (ip_v4 8 8 8 8 ∷ []);
  allow_private = [];
  no_auth = [];
  zone = utc;
  now = 10;
  ts = text "t";
  new_id = text "7";
  ping = [];
  peer = λ r. answered 200;
  queue_after_wait = λ q. q;
  queue_after_socket = λ q. q;
}

abbrev hmac : Bytes → Bytes → Bytes
hmac k s = s

abbrev asked : Bytes → Bytes → Call
asked path key = record {
  verb = plain post_method;
  login = record {
    path = path;
    api_key_header = key;
    authorization = [];
    api_key_param = [];
    client_ip = text "1.2.3.4";
  };
  wait_param = [];
  compact_param = [];
  ws_protocol = [];
  upgrades = true;
  token_param = [];
  host = [];
  tls = false;
  forwarded_proto = [];
  scan_body = some (record { url = text " x"; wait = false; timeout = 0 });
  create_body = none;
  patch_body = none;
  test_body = none;
}

routes_run :
    (route (text "/api/scan") ≡ scan_route)
    × (route (text "/api/nothing") ≡ unknown_route)
    × (route_pattern (text "/api/results/7") ≡ text "/api/results/:id")
    × (route_pattern (text "/api/schedules") ≡ text "/")
unfolding route route_pattern switch bytes_eq has_prefix
routes_run = (refl, refl, refl, refl)

token_runs :
    (extract_ws_token (text "stackly-auth-v1, t") (text "p") ≡ text "t")
    × (extract_ws_token (text "stackly-auth-v1") (text "p") ≡ text "p")
unfolding extract_ws_token bytes_eq has_prefix
token_runs = (refl, refl)

is_on : is_enabled env.no_auth server.auth ≡ true
unfolding is_enabled bytes_eq all_users Map.values
is_on = refl

nobody :
    authenticate env.hash_key env.base64_decode env.parse_jwt server.auth.jwt_secret
      (asked (text "/metrics") (text "z")).login
      server.auth.store
    ≡ none
unfolding authenticate by_key authenticate_api_key Map.get bytes_eq
nobody = refl

anonymous_is_kept_out_example :
    (reply : Reply) × (serve env hmac (asked (text "/metrics") (text "z")) server
      ≡ some (left_by env server reply, reply))
    × IsPublicReply env (asked (text "/metrics") (text "z")) server reply
anonymous_is_kept_out_example =
    anonymous_is_kept_out env hmac (asked (text "/metrics") (text "z")) server is_on nobody

abbrev ticking : ℕ → ℕ
ticking n = n * 500_000_000

abbrev never : ℕ → Option Job
never n = none

half_seconds : (i : ℕ) → ticking i + 500_000_000 ≤ ticking (i + 1)
half_seconds i = omega arith

wait_for_job-ends_example :
    (m : ℕ) × (wait_for_job 2 0 ticking never ≡ some m)
    × (m ≤ 2 * wait_seconds 2)
    × (m ≤ 600)
    × EndsAt (0 + wait_seconds 2 * 1_000_000_000) ticking never m
wait_for_job-ends_example = wait_for_job-ends 2 0 ticking never (omega arith) half_seconds

abbrev page : ScanResult
page = record {
  url = text "x";
  html = [];
  headers = [];
  scripts = [];
  css_links = [];
  js_globals = [];
  meta_tags = [];
  cookies = [];
  results = [];
  emails = [];
  scan_duration = 0;
  error = none;
}

abbrev done : Job
done = record {
  id = text "7";
  url = text "x";
  status = completed;
  created_at = 1;
  started_at = some 2;
  finished_at = some 3;
  duration = [];
  error = [];
  result = some page;
  from_cache = false;
  ua = [];
}

make_compact-exact_example :
    Nodup (make_compact done).categories
    × ((k : Bytes) → has k (make_compact done).categories ≡ in_category k page.results)
    × Nodup (make_compact done).implied
    × ((k : Bytes)
        → has k (make_compact done).implied
          ≡ (implies k page.results && not (has k (slugs page.results))))
make_compact-exact_example = make_compact-exact done page refl

abbrev finished : Event
finished = record {
  type = EventType.completed;
  job_id = text "7";
  status = text "completed";
  percent = 100;
  message = [];
  techs = [];
  error = [];
  ts = text "t";
}

abbrev turns : List Turn
turns = ping true ∷ event finished true ∷ client_gone ∷ []

write_events-exact_example : write_events turns ≡ (all_sent (up_to_end turns), any ends turns)
write_events-exact_example = write_events-exact turns

abbrev request_to : Bytes → Bytes → Metrics.Header
request_to path upgrade = record {
  method = text "GET";
  path = path;
  upgrade = upgrade;
  connection = text "Upgrade";
}

abbrev breaks_on_scan : Metrics.Header → ℕ → Handled ℕ
breaks_on_scan r n =
    if bytes_eq r.path (text "/api/scan") then panics (n + 1) else returns (404 ∷ []) (n + 1)

-- One request is counted, one panics and stays in flight, and one is a handshake.
counters :
    (serve_all
      (λ p. p)
      breaks_on_scan
      (request_to (text "/x") []
        ∷ request_to (text "/api/scan") []
        ∷ request_to (text "/ws") (text "WebSocket")
        ∷ [])
      (0, record { in_flight = 0; requests = [] }))
    ≡ (
      3,
      record {
        in_flight = 1;
        requests = (record { method = text "GET"; path = text "/x"; status = text "404" }, 1) ∷ [];
      },
    )
unfolding serve_all http_middleware is_websocket_upgrade bytes_eq contains to_lower has_prefix inc
    recorded show_nat
counters = refl
