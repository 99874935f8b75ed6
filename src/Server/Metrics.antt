-- ===== src/Server/Metrics.antt =====
-- HTTPMiddleware of internal/metrics/middleware.go, with the counters that it drives, and Handler of
-- internal/api/server.go, which labels a request by its route pattern.
use stackly.Base.{
  ℕ, ◌+◌, ◌-◌, ◌≡◌, Bool, not, ◌&&◌, List, [], ◌∷◌, Bytes, text, bytes_eq, to_lower, length, select,
  if◌then◌else◌, Bool-cases, inl, inr, arith,
}
use stackly.Base.Search.{contains}
use stackly.Base.Decimal.{show_nat}
use stackly.Server.Routes.{route_pattern}

pub record Labels : Type 0 where
  pub method : Bytes
  pub path : Bytes
  pub status : Bytes

abbrev same_labels : Labels → Labels → Bool
same_labels k l =
    (bytes_eq k.method l.method && bytes_eq k.path l.path) && bytes_eq k.status l.status

-- HTTPInFlight and HTTPRequests. HTTPDuration has an observation for each count, and is left out.
pub record Metrics : Type 0 where
  pub in_flight : ℕ
  pub requests : List (Labels × ℕ)

-- `WithLabelValues(k).Inc()`.
unfoldable pub inc : Labels → List (Labels × ℕ) → List (Labels × ℕ)
inc k [] = (k, 1) ∷ []
inc k ((l, n) ∷ c) = if same_labels l k then (l, n + 1) ∷ c else (l, n) ∷ inc k c

pub record Header : Type 0 where
  pub method : Bytes
  pub path : Bytes
  pub upgrade : Bytes
  pub connection : Bytes

-- strings.EqualFold on ASCII compares the texts in lower case.
unfoldable pub is_websocket_upgrade : Header → Bool
is_websocket_upgrade r =
    bytes_eq (to_lower r.upgrade) (text "websocket")
    && contains (to_lower r.connection) (text "upgrade")

-- statusRecorder: 200 until WriteHeader is called, and then the code of the last call.
unfoldable pub recorded : ℕ → List ℕ → ℕ
recorded status [] = status
recorded status (code ∷ codes) = recorded code codes

-- What a handler does: it changes its state and calls WriteHeader with some codes, or it panics.
pub data Handled (S : Type 0) : Type 0 where
  returns : List ℕ → S → Handled S
  panics : S → Handled S

abbrev pub state_of : {S : Type 0} → Handled S → S
state_of (returns codes s) = s
state_of (panics s) = s

-- HTTPInFlight.Dec is not deferred: a panic passes it by.
abbrev pub record_request : {S : Type 0} → Header → Bytes → Metrics → Handled S → Metrics
record_request r path m (panics s) = record m { in_flight = m.in_flight + 1 }
record_request r path m (returns codes s) = record {
  in_flight = m.in_flight + 1 - 1;
  requests =
      inc (record { method = r.method; path = path; status = show_nat (recorded 200 codes) })
        m.requests;
}

module _ {S : Type 0} (path_of : Bytes → Bytes) (next : Header → S → Handled S) where
  unfoldable pub http_middleware : Header → S × Metrics → S × Metrics
  http_middleware r (s, m) =
      let h = next r s in
      (state_of h, if is_websocket_upgrade r then m else record_request r (path_of r.path) m h)

  -- The requests one after another; net/http recovers from a panic of a handler.
  unfoldable pub serve_all : List Header → S × Metrics → S × Metrics
  serve_all [] x = x
  serve_all (r ∷ rs) x = serve_all rs (http_middleware r x)

module _ {S : Type 0} (next : Header → S → Handled S) where
  -- Handler: the inner handlers under the middleware, with the labels of the routes.
  unfoldable pub handler : Header → S × Metrics → S × Metrics
  handler = http_middleware route_pattern next

abbrev pub total : List (Labels × ℕ) → ℕ
total [] = 0
total ((l, n) ∷ c) = n + total c

total-inc : (k : Labels) (c : List (Labels × ℕ)) → total (inc k c) ≡ total c + 1
unfolding inc
total-inc k [] = omega arith
total-inc k ((l, n) ∷ c) = ground (arith, total-inc k c)

abbrev pub is_counted : Header → Bool
is_counted r = not (is_websocket_upgrade r)

recorded_once :
    {S : Type 0} (r : Header) (path : Bytes) (m : Metrics) (h : Handled S)
    → (record_request r path m h).in_flight + total (record_request r path m h).requests
      ≡ m.in_flight + total m.requests + 1
recorded_once r path m (panics s) = omega arith
recorded_once r path m (returns codes s) = omega (
  arith,
  total-inc (record { method = r.method; path = path; status = show_nat (recorded 200 codes) })
      m.requests,
)

module _ {S : Type 0} (path_of : Bytes → Bytes) (next : Header → S → Handled S) where
  abbrev sum_of : S × Metrics → ℕ
  sum_of x = x.1.in_flight + total x.1.requests

  counted :
      (r : Header) (x : S × Metrics)
      → sum_of (http_middleware path_of next r x) ≡ sum_of x + length (select is_counted (r ∷ []))
  unfolding http_middleware
  counted r (s, m) = elim (Bool-cases (is_websocket_upgrade r)) [
    | inl e ↦ rw (e, http_middleware) (omega arith)
    | inr e ↦ rw (e, http_middleware) (recorded_once r (path_of r.path) m (next r s))
  ]

  -- Whatever the handlers do, the gauge of requests in flight and the counters together grow by the
  -- number of requests that are no WebSocket handshakes: one that panics stays in flight for ever.
  pub serve_all-counts :
      (rs : List Header) (x : S × Metrics)
      → (serve_all path_of next rs x).1.in_flight + total (serve_all path_of next rs x).1.requests
        ≡ x.1.in_flight + total x.1.requests + length (select is_counted rs)
  unfolding serve_all
  serve_all-counts [] x = omega arith
  serve_all-counts (r ∷ rs) x =
      let ih = serve_all-counts rs (http_middleware path_of next r x) in
      let one = counted r x in ground (arith, ih, one)
