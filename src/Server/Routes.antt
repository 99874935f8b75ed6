-- ===== src/Server/Routes.antt =====
-- The routes of internal/api/server.go, and a request's way through the middleware to its handler.
-- The multiplexer of net/http is given paths that are clean; it takes the longest pattern that fits.
use stackly.Base.{
  ◌||◌, Option, none, some, List, [], ◌∷◌, ◌++◌, Bytes, text, bytes_eq, has_prefix, if◌then◌else◌,
}
use stackly.Base.Search.{contains, trim_prefix}
use stackly.Auth.{User}
use stackly.Auth.Middleware.{Auth, Passed, served, middleware}
use stackly.Scheduler.{Store}
use stackly.Api.Requests
use stackly.Api.Requests.{Method, Caller}
use stackly.Api.Schedules.{handle_schedules, handle_schedule_subpath}
use stackly.Api.Webhooks.{handle_webhook_subpath}
use stackly.Server.{
  Server, Env, Call, options, plain, Reply, preflight, unauthorized, rate_limited, page_not_found,
  health, openapi, swagger_ui, metrics, file, scheduled,
}
use stackly.Server.Scans.{handle_scan, handle_results, handle_reports}
use stackly.Server.Info.{
  handle_cache_stats, handle_cache_clear, handle_list_jobs, handle_stats, handle_auth_stats,
  handle_usage, handle_users_list, handle_quota, handle_fingerprints,
}
use stackly.Server.Socket.{handle_scan_ws}

pub data Route : Type 0 where
  root_route static_route extension_route metrics_route socket_route : Route
  scan_route stats_route health_route jobs_route cache_stats_route cache_clear_route : Route
  auth_stats_route usage_route users_route quota_route docs_route docs_ui_route : Route
  fingerprints_route schedules_route results_route report_route schedule_route webhook_route : Route
  unknown_route : Route

-- The prefixes that `handleAPI` tests after the exact paths.
unfoldable pub api_prefix_route : Bytes → Route
api_prefix_route p =
    if has_prefix (text "/api/results/") p
    then results_route
    else if has_prefix (text "/api/report/") p
    then report_route
    else if has_prefix (text "/api/schedules/") p
    then schedule_route
    else if has_prefix (text "/api/webhooks/") p
    then webhook_route
    else unknown_route

-- The first entry with the path, as a `switch` finds it.
unfoldable pub switch {ℓ} : {A : Type ℓ} → List (Bytes × A) → A → Bytes → A
switch [] other p = other
switch ((k, a) ∷ cases) other p =
    let rest = switch cases other p in if bytes_eq p k then a else rest

abbrev api_paths : List (Bytes × Route)
api_paths =
    (text "/api/scan", scan_route)
    ∷ (text "/api/stats", stats_route)
    ∷ (text "/api/health", health_route)
    ∷ (text "/api/jobs", jobs_route)
    ∷ (text "/api/cache/stats", cache_stats_route)
    ∷ (text "/api/cache/clear", cache_clear_route)
    ∷ (text "/api/auth/stats", auth_stats_route)
    ∷ (text "/api/auth/usage", usage_route)
    ∷ (text "/api/auth/users", users_route)
    ∷ (text "/api/auth/quota", quota_route)
    ∷ (text "/api/docs", docs_route)
    ∷ (text "/api/docs/ui", docs_ui_route)
    ∷ (text "/api/fingerprints", fingerprints_route)
    ∷ (text "/api/schedules", schedules_route)
    ∷ []

unfoldable pub api_route : Bytes → Route
unfolding switch api_prefix_route
api_route p = switch api_paths (api_prefix_route p) p

-- The patterns of the multiplexer; what is under `/` alone goes to `handleRoot`.
unfoldable pub route : Bytes → Route
unfolding api_route
route p =
    if has_prefix (text "/api/ws/scan/") p
    then socket_route
    else if has_prefix (text "/api/") p
    then api_route p
    else if has_prefix (text "/static/") p
    then static_route
    else if has_prefix (text "/extension/") p
    then extension_route
    else if bytes_eq p (text "/metrics")
    then metrics_route
    else root_route

-- The label of a request for the metrics.
abbrev label_paths : List (Bytes × Bytes)
label_paths =
    (text "/metrics", text "/metrics")
    ∷ (text "/api/health", text "/api/health")
    ∷ (text "/api/scan", text "/api/scan")
    ∷ (text "/api/stats", text "/api/stats")
    ∷ (text "/api/jobs", text "/api/jobs")
    ∷ (text "/api/cache/stats", text "/api/cache/stats")
    ∷ (text "/api/cache/clear", text "/api/cache/clear")
    ∷ (text "/api/auth/stats", text "/api/auth/stats")
    ∷ (text "/api/auth/usage", text "/api/auth/usage")
    ∷ (text "/api/auth/users", text "/api/auth/users")
    ∷ (text "/api/docs", text "/api/docs")
    ∷ (text "/api/docs/ui", text "/api/docs/ui")
    ∷ []

abbrev label_prefix : Bytes → Bytes
label_prefix p =
    if has_prefix (text "/api/results/") p
    then text "/api/results/:id"
    else if has_prefix (text "/static/") p
    then text "/static/*"
    else if has_prefix (text "/extension/") p
    then text "/extension/*"
    else text "/"

unfoldable pub route_pattern : Bytes → Bytes
unfolding switch
route_pattern p = switch label_paths (label_prefix p) p

unfoldable pub handle_root : Bytes → Reply
handle_root p = if bytes_eq p (text "/") then file (text "index.html") else page_not_found

unfoldable pub handle_static : Bytes → Reply
unfolding trim_prefix
handle_static p = file (text "static/" ++ trim_prefix (text "/static/") p)

unfoldable pub handle_extension : Bytes → Reply
unfolding trim_prefix contains
handle_extension p =
    let name = trim_prefix (text "/extension/") p in
    if bytes_eq name [] || contains name (text "..")
    then page_not_found
    else file (text "extension/" ++ name)

-- What the handlers of schedules read of a user.
abbrev pub caller_of : Option User → Option Caller
caller_of none = none
caller_of (some u) = some (record { id = u.id; tier = u.tier })

abbrev keeps : Server → Reply → Option (Server × Reply)
keeps s r = some (s, r)

abbrev keeps_option : Server → Option Reply → Option (Server × Reply)
keeps_option s none = none
keeps_option s (some r) = some (s, r)

abbrev with_schedules : Server → Option Store × Requests.Response → Option (Server × Reply)
with_schedules s (st, r) = some (record s { schedules = st }, scheduled r)

module _ (e : Env) (hmac : Bytes → Bytes → Bytes) where
  -- The handler of a route, with the user that the middleware passed on.
  unfoldable pub handle : Route → Method → Call → Option User → Server → Option (Server × Reply)
  unfolding handle_scan handle_results handle_reports handle_quota handle_cache_clear handle_root
      handle_static handle_extension handle_scan_ws handle_fingerprints handle_stats
      handle_cache_stats handle_list_jobs handle_auth_stats handle_usage handle_users_list
      handle_schedules handle_schedule_subpath handle_webhook_subpath
  handle root_route m c user s = keeps s (handle_root c.login.path)
  handle static_route m c user s = keeps s (handle_static c.login.path)
  handle extension_route m c user s = keeps s (handle_extension c.login.path)
  handle metrics_route m c user s = keeps s metrics
  handle socket_route m c user s = some (handle_scan_ws e c s)
  handle scan_route m c user s = handle_scan e m c user s
  handle stats_route m c user s = keeps s (handle_stats e s)
  handle health_route m c user s = keeps s health
  handle jobs_route m c user s = keeps s (handle_list_jobs e m s)
  handle cache_stats_route m c user s = keeps s (handle_cache_stats e m s)
  handle cache_clear_route m c user s = some (handle_cache_clear e m s)
  handle auth_stats_route m c user s = keeps s (handle_auth_stats e m s)
  handle usage_route m c user s = keeps_option s (handle_usage e m user s)
  handle users_route m c user s = keeps_option s (handle_users_list e m user s)
  handle quota_route m c user s = handle_quota e m user s
  handle docs_route m c user s = keeps s openapi
  handle docs_ui_route m c user s = keeps s swagger_ui
  handle fingerprints_route m c user s = keeps s (handle_fingerprints s)
  handle schedules_route m c user s = with_schedules s (
      handle_schedules e.parse e.parse_ip e.lookup_ip e.allow_private m c.create_body
        (caller_of user) e.new_id e.now s.schedules)
  handle results_route m c user s = handle_results e m c s
  handle report_route m c user s = keeps s (handle_reports c s)
  handle schedule_route m c user s = with_schedules s (
      handle_schedule_subpath e.parse e.parse_ip e.lookup_ip m c.login.path c.patch_body
        (caller_of user) e.now s.schedules)
  handle webhook_route m c user s = keeps s (
      scheduled
        (handle_webhook_subpath hmac e.parse e.parse_ip e.lookup_ip m c.login.path c.test_body
          (caller_of user) e.ping e.peer s.schedules).1)
  handle unknown_route m c user s = keeps s page_not_found

  -- What follows the middleware.
  abbrev pub pass : Method → Call → Server → Auth × Passed → Option (Server × Reply)
  pass m c s (a, served user) = handle (route c.login.path) m c user (record s { auth = a })
  pass m c s (a, Passed.unauthorized) = some (record s { auth = a }, unauthorized)
  pass m c s (a, Passed.rate_limited) = some (record s { auth = a }, rate_limited)

  -- The middleware of CORS answers OPTIONS by itself; all else passes that of `auth`.
  unfoldable pub serve : Call → Server → Option (Server × Reply)
  unfolding middleware
  serve c s = elim c.verb [
    | options ↦ some (s, preflight)
    | plain m ↦
        pass m c s
          (middleware e.hash_key e.base64_decode e.parse_jwt e.no_auth e.now c.login s.auth)
  ]
