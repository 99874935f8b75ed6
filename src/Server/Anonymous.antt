-- ===== src/Server/Anonymous.antt =====
-- What internal/api/server.go does for a request that names nobody.
use stackly.Base.{
  ◌≡◌, ap, refl, sym, subst, inl, inr, true, not, ◌&&◌, ◌||◌, Option, none, some, [], ◌++◌, Bytes,
  text, bytes_eq, bytes_eq_iff, has_prefix, Bool-cases, Option-cases, arith,
}
use stackly.Base.Search.{contains, has_prefix_split, trim_prefix}
use stackly.Auth.{Users}
use stackly.Auth.Login.{authenticate}
use stackly.Auth.Middleware.{is_enabled, is_public, pass_request, middleware}
use stackly.Api.Requests.{Method}
use stackly.Server.{
  Server, Env, Call, Verb, options, plain, Reply, preflight, unauthorized, page_not_found, health,
  openapi, swagger_ui, shown_fingerprints, file, invalid_socket_id, socket_refused, upgrade_failed,
  socket,
}
use stackly.Server.Info.{handle_fingerprints, tech_infos}
use stackly.Server.Socket.{
  extract_ws_token, is_valid_token, authenticator, allows, serve_socket, handle_scan_ws,
}
use stackly.Server.Routes.{
  Route, root_route, static_route, extension_route, socket_route, health_route, docs_route,
  docs_ui_route, fingerprints_route, unknown_route, switch, api_prefix_route, route, handle_root,
  handle_static, handle_extension, handle, pass, serve,
}

-- The routes that the middleware lets pass for everyone.
abbrev IsOpenRoute : Route → Type 0
IsOpenRoute root_route = Unit
IsOpenRoute static_route = Unit
IsOpenRoute extension_route = Unit
IsOpenRoute socket_route = Unit
IsOpenRoute health_route = Unit
IsOpenRoute docs_route = Unit
IsOpenRoute docs_ui_route = Unit
IsOpenRoute fingerprints_route = Unit
IsOpenRoute unknown_route = Unit
IsOpenRoute other = ⊥

module _ (p : Bytes) where
  at_path : (k : Bytes) → bytes_eq p k ≡ true → IsOpenRoute (route k) → IsOpenRoute (route p)
  at_path k e o = subst (λ q. IsOpenRoute (route q)) (sym ((bytes_eq_iff p k).0 e)) o

  under :
      (k : Bytes)
      → has_prefix k p ≡ true
      → ((rest : Bytes) → IsOpenRoute (route (k ++ rest)))
      → IsOpenRoute (route p)
  under k e o =
      let (rest, same) = has_prefix_split k p e in
      subst (λ q. IsOpenRoute (route q)) (sym same) (o rest)

socket_or_unknown : (rest : Bytes) → IsOpenRoute (route (text "/api/ws/" ++ rest))
unfolding route switch api_prefix_route has_prefix bytes_eq
socket_or_unknown rest = elim (Bool-cases (has_prefix (text "scan/") rest)) [
  | inl e ↦ rw e tt
  | inr e ↦ rw e tt
]

-- A path that the middleware skips has a route that is open.
public-IsOpenRoute : (p : Bytes) → is_public p ≡ true → IsOpenRoute (route p)
unfolding is_public
public-IsOpenRoute p h = elim (Bool-cases (bytes_eq p (text "/"))) [
  | inl e ↦ at_path p (text "/") e (unfold route switch api_prefix_route has_prefix bytes_eq in tt)
  | inr e0 ↦ elim (Bool-cases (has_prefix (text "/static/") p)) [
    | inl e ↦ under p (text "/static/") e (λ rest. unfold route has_prefix bytes_eq in tt)
    | inr e1 ↦ elim (Bool-cases (has_prefix (text "/extension/") p)) [
      | inl e ↦ under p (text "/extension/") e (λ rest. unfold route has_prefix bytes_eq in tt)
      | inr e2 ↦ elim (Bool-cases (bytes_eq p (text "/api/health"))) [
        | inl e ↦
            at_path p (text "/api/health") e
              (unfold route switch api_prefix_route has_prefix bytes_eq in tt)
        | inr e3 ↦ elim (Bool-cases (bytes_eq p (text "/api/docs"))) [
          | inl e ↦
              at_path p (text "/api/docs") e
                (unfold route switch api_prefix_route has_prefix bytes_eq in tt)
          | inr e4 ↦ elim (Bool-cases (bytes_eq p (text "/api/docs/ui"))) [
            | inl e ↦
                at_path p (text "/api/docs/ui") e
                  (unfold route switch api_prefix_route has_prefix bytes_eq in tt)
            | inr e5 ↦ elim (Bool-cases (bytes_eq p (text "/api/fingerprints"))) [
              | inl e ↦
                  at_path p (text "/api/fingerprints") e
                    (unfold route switch api_prefix_route has_prefix bytes_eq in tt)
              | inr e6 ↦ elim (Bool-cases (has_prefix (text "/api/ws/") p)) [
                | inl e ↦ under p (text "/api/ws/") e socket_or_unknown
                | inr e7 ↦ absurd (ground (arith, h, e0, e1, e2, e3, e4, e5, e6, e7))
              ]
            ]
          ]
        ]
      ]
    ]
  ]
]

-- Replies that tell nothing of the jobs, the users or the schedules; a socket only for the job of the
-- path, with a token that is valid.
abbrev pub IsPublicReply : Env → Call → Server → Reply → Type 0
IsPublicReply e c s preflight = Unit
IsPublicReply e c s unauthorized = Unit
IsPublicReply e c s page_not_found = Unit
IsPublicReply e c s health = Unit
IsPublicReply e c s openapi = Unit
IsPublicReply e c s swagger_ui = Unit
IsPublicReply e c s (file name) = Unit
IsPublicReply e c s (shown_fingerprints m) = m ≡ tech_infos s.fingerprints.technologies []
IsPublicReply e c s invalid_socket_id = Unit
IsPublicReply e c s socket_refused = Unit
IsPublicReply e c s upgrade_failed = Unit
IsPublicReply e c s (socket id) =
    (id ≡ trim_prefix (text "/api/ws/scan/") c.login.path)
    × (st : Users) × (s.auth.store ≡ some st)
    × (is_valid_token e s.auth st (extract_ws_token c.ws_protocol c.token_param) ≡ true)
IsPublicReply e c s other = ⊥

-- The server after a reply: after that of a socket, which had subscribed to its job and has left again,
-- it is what others made of it meanwhile; after any other it is as it was.
abbrev pub left_by : Env → Server → Reply → Server
left_by e s (socket id) = serve_socket e id s
left_by e s other = s

module _ (e : Env) (hmac : Bytes → Bytes → Bytes) (c : Call) (s : Server)
    (on : is_enabled e.no_auth s.auth ≡ true) where
  -- A reply that is public and leaves the server as it was.
  abbrev IsStill : Reply → Type 0
  IsStill reply = (left_by e s reply ≡ s) × IsPublicReply e c s reply

  root-IsStill : (p : Bytes) → IsStill (handle_root p)
  unfolding handle_root
  root-IsStill p = elim (Bool-cases (bytes_eq p (text "/"))) [
    | inl b ↦ rw b (refl, tt)
    | inr b ↦ rw b (refl, tt)
  ]

  extension-IsStill : (p : Bytes) → IsStill (handle_extension p)
  unfolding handle_extension
  extension-IsStill p =
      let name = trim_prefix (text "/extension/") p in
      elim (Bool-cases (bytes_eq name [] || contains name (text ".."))) [
        | inl b ↦ rw b (refl, tt)
        | inr b ↦ rw b (refl, tt)
      ]

  -- With authentication on, a socket is opened only for a token that is valid.
  socket-IsPublicReply :
      (reply : Reply) × (handle_scan_ws e c s ≡ (left_by e s reply, reply))
      × IsPublicReply e c s reply
  unfolding handle_scan_ws allows
  socket-IsPublicReply =
      elim (Bool-cases (bytes_eq id [] || contains id (text "/") || contains id (text ".."))) [
        | inl bad ↦ (invalid_socket_id, rw bad refl, tt)
        | inr fine ↦ elim (Option-cases s.auth.store) [
          | inl no_store ↦ absurd (unfold is_enabled in ground (arith, on, no_store))
          | inr (st, e0) ↦
              elim (Bool-cases (not (bytes_eq token []) && is_valid_token e s.auth st token)) [
                | inl ok ↦ elim (Bool-cases c.upgrades) [
                  | inl up ↦ (
                    socket id,
                    rw (fine, checks st e0, ok, up) refl,
                    (refl, st, e0, ground (arith, ok)),
                  )
                  | inr down ↦ (upgrade_failed, rw (fine, checks st e0, ok, down) refl, tt)
                ]
                | inr refused ↦ (socket_refused, rw (fine, checks st e0, refused) refl, tt)
              ]
        ]
      ]
    where
      id : Bytes
      id = trim_prefix (text "/api/ws/scan/") c.login.path

      token : Bytes
      token = extract_ws_token c.ws_protocol c.token_param

      checks :
          (st : Users)
          → s.auth.store ≡ some st
          → authenticator e s.auth ≡ some (is_valid_token e s.auth st)
      checks st e0 = unfold authenticator in rw (e0, authenticator, on) refl

  static-IsStill : (p : Bytes) → IsStill (handle_static p)
  unfolding handle_static
  static-IsStill p = (refl, tt)

  still :
      (reply : Reply)
      → IsStill reply
      → ◌≡◌ {A = Option (Server × Reply)} (some (s, reply)) (some (left_by e s reply, reply))
  still reply h = ap (λ x. some (x, reply)) (sym h.0)

  open_route :
      (r : Route) (m : Method)
      → IsOpenRoute r
      → (reply : Reply) × (handle e hmac r m c none s ≡ some (left_by e s reply, reply))
        × IsPublicReply e c s reply
  unfolding handle
  open_route root_route m o =
      let p = root-IsStill c.login.path in (handle_root c.login.path, still _ p, p.1)
  open_route static_route m o =
      let p = static-IsStill c.login.path in (handle_static c.login.path, still _ p, p.1)
  open_route extension_route m o =
      let p = extension-IsStill c.login.path in (handle_extension c.login.path, still _ p, p.1)
  open_route socket_route m o =
      let (reply, same, p) = socket-IsPublicReply in (reply, ap some same, p)
  open_route health_route m o = (health, refl, tt)
  open_route docs_route m o = (openapi, refl, tt)
  open_route docs_ui_route m o = (swagger_ui, refl, tt)
  open_route fingerprints_route m o = (
    handle_fingerprints s,
    unfold handle_fingerprints in refl,
    unfold handle_fingerprints in refl,
  )
  open_route unknown_route m o = (page_not_found, refl, tt)
  open_route other m o = absurd o

  -- With authentication on, a request that names nobody whom the store or a token's signature vouches
  -- for is kept out, whatever its method and path. The reply tells nothing of the jobs, the users or the
  -- schedules. It opens a socket only if it shows a token that is valid, and then it subscribes to the
  -- job of its path and leaves it at the end; in every other case it changes nothing.
  pub anonymous_is_kept_out :
      authenticate e.hash_key e.base64_decode e.parse_jwt s.auth.jwt_secret c.login s.auth.store
        ≡ none
      → (reply : Reply) × (serve e hmac c s ≡ some (left_by e s reply, reply))
        × IsPublicReply e c s reply
  unfolding serve middleware pass_request
  anonymous_is_kept_out nobody = go c.verb
    where
      path : Bytes
      path = c.login.path

      go :
          (v : Verb)
          → (reply : Reply) × (elim v as (λ _. Option (Server × Reply)) [
            | options ↦ some (s, preflight)
            | plain m ↦
                pass e hmac m c s
                  (middleware e.hash_key e.base64_decode e.parse_jwt e.no_auth e.now c.login s.auth)
          ]
              ≡ some (left_by e s reply, reply))
            × IsPublicReply e c s reply
      go options = (preflight, refl, tt)
      go (plain m) = elim (Bool-cases (is_public path)) [
        | inl b ↦
            let (reply, same, p) = open_route (route path) m (public-IsOpenRoute path b) in
            (reply, rw b same, p)
        | inr b ↦ (unauthorized, rw (b, nobody, on) refl, tt)
      ]
