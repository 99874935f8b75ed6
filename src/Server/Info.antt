-- ===== src/Server/Info.antt =====
-- The handlers of internal/api/server.go and internal/api/quota.go that tell of the queue, the cache,
-- the users and the fingerprints. `none` is a panic.
use stackly.Base.{ℕ, Option, none, some, List, [], ◌∷◌, text, has_prefix, if◌then◌else◌}
use stackly.Base.Map
use stackly.Base.Map.{Map}
use stackly.Scan.{Technology}
use stackly.Cache
use stackly.Queue
use stackly.Queue.{list_jobs}
use stackly.Auth.{User, Users}
use stackly.Auth.Quota.{quota, all_users}
use stackly.Auth.Middleware.{is_enabled}
use stackly.Auth.Client
use stackly.Auth.Client.{usage, is_admin_caller}
use stackly.Api.Requests.{Method, get_method, post_method, delete_method}
use stackly.Server.{
  Server, Env, TechInfo, Reply, method_not_allowed, listed_jobs, queue_stats, cache_disabled,
  cache_cleared, cache_stats, auth_stats, no_user, no_such_user, admin_only, quota_off,
  no_authenticated_user, jwt_usage, shown_usage, listed_users, shown_quota, shown_fingerprints,
}

module _ (e : Env) where
  unfoldable pub handle_cache_stats : Method → Server → Reply
  handle_cache_stats get_method s = elim s.queue.cache [
    | none ↦ cache_disabled
    | some c ↦ cache_stats (Cache.stats c e.now)
  ]
  handle_cache_stats m s = method_not_allowed

  abbrev clear_cache : Server → Server × Reply
  clear_cache s = elim s.queue.cache [
    | none ↦ (s, cache_disabled)
    | some c ↦
        (record s { queue = record s.queue { cache = some (Cache.clear e.now c) } }, cache_cleared)
  ]

  unfoldable pub handle_cache_clear : Method → Server → Server × Reply
  handle_cache_clear post_method s = clear_cache s
  handle_cache_clear delete_method s = clear_cache s
  handle_cache_clear m s = (s, method_not_allowed)

  abbrev pub job_limit : ℕ
  job_limit = 50

  unfoldable pub handle_list_jobs : Method → Server → Reply
  handle_list_jobs get_method s = listed_jobs (list_jobs job_limit s.queue)
  handle_list_jobs m s = method_not_allowed

  -- Any method.
  unfoldable pub handle_stats : Server → Reply
  handle_stats s =
      queue_stats (Queue.stats s.queue)
        (elim s.queue.cache [ none ↦ none | some c ↦ some (Cache.stats c e.now) ])

  unfoldable pub handle_auth_stats : Method → Server → Reply
  handle_auth_stats get_method s = auth_stats (Client.stats s.auth)
  handle_auth_stats m s = method_not_allowed

  -- The user of a token is not stored.
  unfoldable pub usage_of : Option User → Option Users → Option Reply
  unfolding usage
  usage_of none store = some no_user
  usage_of (some u) store =
      if has_prefix (text "jwt:") u.key then some (jwt_usage u) else elim store [
        | none ↦ none
        | some st ↦ elim (usage u.key st) [
          | none ↦ some no_such_user
          | some x ↦ some (shown_usage x)
        ]
      ]

  unfoldable pub handle_usage : Method → Option User → Server → Option Reply
  unfolding usage_of
  handle_usage get_method user s = usage_of user s.auth.store
  handle_usage m user s = some method_not_allowed

  unfoldable pub users_of : Option User → Option Users → Option Reply
  users_of user store =
      if is_admin_caller user
      then elim store [ none ↦ none | some st ↦ some (listed_users (all_users st)) ]
      else some admin_only

  unfoldable pub handle_users_list : Method → Option User → Server → Option Reply
  unfolding users_of
  handle_users_list get_method user s = users_of user s.auth.store
  handle_users_list m user s = some method_not_allowed

  -- Reading the quota may start a new month.
  abbrev quota_in : User → Server → Option Users → Option (Server × Reply)
  quota_in u s none = none
  quota_in u s (some st) =
      let r = quota e.zone e.now u.key st in
      some (
        record s { auth = record s.auth { store = some r.0 } },
        elim r.1 [ none ↦ no_such_user | some info ↦ shown_quota info ],
      )

  abbrev quota_of : Option User → Server → Option (Server × Reply)
  quota_of none s = some (s, no_authenticated_user)
  quota_of (some u) s = quota_in u s s.auth.store

  unfoldable pub handle_quota : Method → Option User → Server → Option (Server × Reply)
  handle_quota get_method user s =
      if is_enabled e.no_auth s.auth then quota_of user s else some (s, quota_off)
  handle_quota m user s = some (s, method_not_allowed)

-- The map from a slug to what the frontend shows; a later technology replaces an earlier one.
unfoldable pub tech_infos : List Technology → Map TechInfo → Map TechInfo
tech_infos [] m = m
tech_infos (t ∷ ts) m =
    tech_infos ts
      (Map.put t.slug (record { name = t.name; website = t.website; category = t.category }) m)

unfoldable pub handle_fingerprints : Server → Reply
unfolding tech_infos
handle_fingerprints s = shown_fingerprints (tech_infos s.fingerprints.technologies [])
