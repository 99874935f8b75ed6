-- ===== src/Server/Socket.antt =====
-- The gate of HandleScanWS in internal/ws/handler.go, with the authenticator of handleScanWS in
-- internal/api/server.go, the subscription that it holds while the socket is open, and the loop that
-- writes to the socket.
use stackly.Base.{
  ◌+◌, Bool, true, false, not, ◌&&◌, ◌||◌, Option, none, some, List, [], ◌∷◌, ◌++◌, Bytes, text,
  bytes_eq, has_prefix, drop, length, if◌then◌else◌,
}
use stackly.Base.Search.{contains, trim_space, trim_prefix, split_by}
use stackly.Hub.{Event, EventType, subscribe, unsubscribe}
use stackly.Auth.{Users}
use stackly.Auth.Quota.{authenticate_api_key}
use stackly.Auth.Middleware.{Auth, is_enabled}
use stackly.Auth.Client.{verify_token}
use stackly.Server.{
  Server, Env, Call, Reply, invalid_socket_id, socket_refused, upgrade_failed, socket,
}

abbrev pub auth_subprotocol : Bytes
auth_subprotocol = text "stackly-auth-v1"

-- The first protocol that carries a token.
unfoldable pub protocol_token : List Bytes → Option Bytes
unfolding trim_space
protocol_token [] = none
protocol_token (part ∷ parts) =
    let rest = protocol_token parts in
    let p = trim_space part in
    if bytes_eq p auth_subprotocol
    then rest
    else if has_prefix (auth_subprotocol ++ text " ") p
    then some (trim_space (drop (length auth_subprotocol + 1) p))
    else if not (bytes_eq p [])
    then some p
    else rest

unfoldable pub extract_ws_token : Bytes → Bytes → Bytes
unfolding protocol_token split_by
extract_ws_token protocol param =
    if not (bytes_eq protocol [])
    then elim (protocol_token (split_by b',' protocol)) [ none ↦ param | some t ↦ t ]
    else param

-- An API key, or the token of the JWT package.
unfoldable pub is_valid_token : Env → Auth → Users → Bytes → Bool
unfolding authenticate_api_key verify_token
is_valid_token e a st token = elim (authenticate_api_key token st) [
  | some u ↦ true
  | none ↦ verify_token e.parse_jwt token a
]

-- `none` where every connection is allowed.
unfoldable pub authenticator : Env → Auth → Option (Bytes → Bool)
unfolding is_valid_token
authenticator e a = elim a.store [
  | none ↦ none
  | some st ↦ if is_enabled e.no_auth a then some (is_valid_token e a st) else none
]

unfoldable pub allows : Option (Bytes → Bool) → Bytes → Bool
allows none token = true
allows (some check) token = not (bytes_eq token []) && check token

-- Subscribe, what others do to the queue and its hub while the socket is open, and the deferred
-- Unsubscribe.
abbrev pub serve_socket : Env → Bytes → Server → Server
serve_socket e id s =
    let (h, sub) = subscribe id true s.queue.hub in
    let later = e.queue_after_socket (record s.queue { hub = h }) in
    record s { queue = record later { hub = unsubscribe sub later.hub } }

unfoldable pub handle_scan_ws : Env → Call → Server → Server × Reply
unfolding authenticator allows extract_ws_token contains trim_prefix
handle_scan_ws e c s =
    let id = trim_prefix (text "/api/ws/scan/") c.login.path in
    if bytes_eq id [] || contains id (text "/") || contains id (text "..")
    then (s, invalid_socket_id)
    else if not (allows (authenticator e s.auth) (extract_ws_token c.ws_protocol c.token_param))
    then (s, socket_refused)
    else if c.upgrades
    then (serve_socket e id s, socket id)
    else (s, upgrade_failed)

-- What the writer's `select` meets in a turn. The Boolean is whether the write succeeds.
pub data Turn : Type 0 where
  client_gone idle_timeout closed : Turn
  ping : Bool → Turn
  event : Event → Bool → Turn

abbrev pub is_terminal : EventType → Bool
is_terminal EventType.progress = false
is_terminal EventType.completed = true
is_terminal EventType.failed = true

-- The events written, and whether the loop has returned.
unfoldable pub write_events : List Turn → List Event × Bool
write_events [] = ([], false)
write_events (client_gone ∷ turns) = ([], true)
write_events (idle_timeout ∷ turns) = ([], true)
write_events (closed ∷ turns) = ([], true)
write_events (ping ok ∷ turns) = let rest = write_events turns in if ok then rest else ([], true)
write_events (event ev ok ∷ turns) =
    let rest = write_events turns in
    if not ok
    then ([], true)
    else if is_terminal ev.type
    then (ev ∷ [], true)
    else (ev ∷ rest.0, rest.1)
