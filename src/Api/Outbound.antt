-- ===== src/Api/Outbound.antt =====
-- What handleWebhookSubpath of internal/api/schedules.go shows, and where it sends.
use stackly.Base.{
  ℕ, zero, suc, ◌≤◌, ◌≡◌, refl, inl, inr, Bool, true, Option, none, some, List, [], ◌∷◌, Bytes,
  text, bytes_eq, ltb, length, length-take, take, select, All, Bool-cases, Option-cases, arith,
}
use stackly.Scheduler.{WebhookDelivery, Store}
use stackly.Scheduler.Ops.{recent_deliveries}
use stackly.Scheduler.Validate.{Ip, Url, validate_webhook_url}
use stackly.Scheduler.Dispatch.{Answer, Request, request_of}
use stackly.Api.Requests.{
  Method, get_method, post_method, patch_method, delete_method, other_method, Caller, TestBody,
  Response, deliveries, schedule_owner, trim_prefix,
}
use stackly.Api.Webhooks.{
  is_own, log_cap, webhook_log, test_webhook_delivery, webhook_test, handle_log, handle_test,
  handle_webhook_subpath,
}

-- A response that shows at most 50 deliveries, all of them of schedules of the owner.
abbrev pub ShowsOwn : Bytes → Store → Response → Type 0
ShowsOwn owner st (deliveries ds) = All (λ d. is_own owner st d ≡ true) ds × (length ds ≤ log_cap)
ShowsOwn owner st r = Unit

-- A request that goes to a URL that the validator accepts, if there is one.
abbrev pub GoesOutside :
    (Bytes → Option Url)
    → (Bytes → Option Ip)
    → (Bytes → Option (List Ip))
    → Option Request
    → Type 0
GoesOutside parse parse_ip lookup_ip none = Unit
GoesOutside parse parse_ip lookup_ip (some req) =
    validate_webhook_url parse parse_ip lookup_ip req.url ≡ none

select-All :
    (p : WebhookDelivery → Bool) (ds : List WebhookDelivery) → All (λ d. p d ≡ true) (select p ds)
select-All p [] = tt
select-All p (d ∷ ds) = ground (arith, select-All p ds)

take-All :
    (p : WebhookDelivery → Bool) (n : ℕ) (ds : List WebhookDelivery)
    → All (λ d. p d ≡ true) ds
    → All (λ d. p d ≡ true) (take n ds)
take-All p zero ds h = tt
take-All p (suc n) [] h = tt
take-All p (suc n) (d ∷ ds) h = (h.0, take-All p n ds h.1)

webhook_log-ShowsOwn :
    (owner : Bytes) (st : Store) → ShowsOwn owner st (deliveries (webhook_log owner st))
unfolding webhook_log
webhook_log-ShowsOwn owner st =
    let out = select (is_own owner st) (recent_deliveries 100 st) in
    let own = select-All (is_own owner st) (recent_deliveries 100 st) in
    elim (Bool-cases (ltb log_cap (length out))) [
      | inl b ↦
          rw (b, webhook_log)
            (take-All (is_own owner st) log_cap out own, omega (arith, length-take log_cap out))
      | inr b ↦ rw (b, webhook_log) (own, ground (arith, b))
    ]

log-guarded :
    (m : Method) (caller : Option Caller) (st : Store)
    → ((handle_log m caller st).0 ≡ none)
      × ShowsOwn (schedule_owner caller) st (handle_log m caller st).1
unfolding handle_log
log-guarded get_method caller st = (refl, webhook_log-ShowsOwn (schedule_owner caller) st)
log-guarded post_method caller st = (refl, tt)
log-guarded patch_method caller st = (refl, tt)
log-guarded delete_method caller st = (refl, tt)
log-guarded other_method caller st = (refl, tt)

module _ (hmac : Bytes → Bytes → Bytes) (parse : Bytes → Option Url) (parse_ip : Bytes → Option Ip)
    (lookup_ip : Bytes → Option (List Ip)) where
  webhook_test-guarded :
      (owner : Bytes) (st : Store) (body : Option TestBody) (ping : Bytes) (peer : Request → Answer)
      → let r = webhook_test hmac parse parse_ip lookup_ip body ping peer in
        GoesOutside parse parse_ip lookup_ip r.0 × ShowsOwn owner st r.1
  unfolding webhook_test test_webhook_delivery request_of
  webhook_test-guarded owner st none ping peer = (tt, tt)
  webhook_test-guarded owner st (some body) ping peer = elim (Bool-cases (bytes_eq body.url [])) [
    | inl b ↦ rw (b, webhook_test) (tt, tt)
    | inr b ↦ elim (Option-cases (validate_webhook_url parse parse_ip lookup_ip body.url)) [
      | inl e ↦ rw (b, e, webhook_test) (e, tt)
      | inr (x, e) ↦ rw (b, e, webhook_test) (tt, tt)
    ]
  ]

  test-guarded :
      (owner : Bytes) (st : Store) (m : Method) (body : Option TestBody) (ping : Bytes)
      (peer : Request → Answer)
      → let r = handle_test hmac parse parse_ip lookup_ip m body ping peer in
        GoesOutside parse parse_ip lookup_ip r.0 × ShowsOwn owner st r.1
  unfolding handle_test
  test-guarded owner st post_method body ping peer = webhook_test-guarded owner st body ping peer
  test-guarded owner st get_method body ping peer = (tt, tt)
  test-guarded owner st patch_method body ping peer = (tt, tt)
  test-guarded owner st delete_method body ping peer = (tt, tt)
  test-guarded owner st other_method body ping peer = (tt, tt)

  -- The webhook handler sends its test only to a URL that the validator accepts, and shows at most 50
  -- deliveries, all of them of schedules that the caller owns, whatever the request is.
  pub webhooks_are_guarded :
      (m : Method) (path : Bytes) (body : Option TestBody) (caller : Option Caller) (ping : Bytes)
      (peer : Request → Answer) (st : Store)
      → let r =
          handle_webhook_subpath hmac parse parse_ip lookup_ip m path body caller ping peer
            (some st) in
        GoesOutside parse parse_ip lookup_ip r.0 × ShowsOwn (schedule_owner caller) st r.1
  unfolding handle_webhook_subpath
  webhooks_are_guarded m path body caller ping peer st =
      elim (Bool-cases (bytes_eq (trim_prefix (text "/api/webhooks/") path) (text "log"))) [
        | inl b ↦ let (sent, shown) = log-guarded m caller st in rw (b, sent) (tt, shown)
        | inr b ↦
            elim (Bool-cases (bytes_eq (trim_prefix (text "/api/webhooks/") path) (text "test"))) [
              | inl c ↦ rw (b, c) (test-guarded (schedule_owner caller) st m body ping peer)
              | inr c ↦ rw (b, c) (tt, tt)
            ]
      ]
