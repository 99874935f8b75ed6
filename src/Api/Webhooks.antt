-- ===== src/Api/Webhooks.antt =====
-- handleWebhookSubpath of internal/api/schedules.go, and its POST in webhook_test_helper.go.
use stackly.Base.{
  ℕ, Bool, false, Option, none, some, List, [], Bytes, text, bytes_eq, ltb, length, take, select,
  if◌then◌else◌,
}
use stackly.Scheduler.{WebhookDelivery, Store}
use stackly.Scheduler.Ops.{get_schedule, recent_deliveries}
use stackly.Scheduler.Validate.{Ip, Url, validate_webhook_url}
use stackly.Scheduler.Dispatch.{Answer, Request, request_of, read_answer, delivered}
use stackly.Api.Requests.{
  Method, get_method, post_method, Caller, TestBody, invalid_json, url_required, invalid_url,
  Response, unavailable, bad_request, method_not_allowed, not_found, deliveries, tested,
  schedule_owner, trim_prefix,
}

unfoldable pub is_own : Bytes → Store → WebhookDelivery → Bool
unfolding get_schedule
is_own owner st d = elim (get_schedule d.schedule_id st) [
  | none ↦ false
  | some sch ↦ bytes_eq sch.owner owner
]

abbrev pub log_cap : ℕ
log_cap = 50

unfoldable pub webhook_log : Bytes → Store → List WebhookDelivery
unfolding is_own
webhook_log owner st =
    let out = select (is_own owner st) (recent_deliveries 100 st) in
    if ltb log_cap (length out) then take log_cap out else out

-- The endpoint `log`.
unfoldable pub handle_log : Method → Option Caller → Store → Option Request × Response
unfolding webhook_log
handle_log get_method caller st = (none, deliveries (webhook_log (schedule_owner caller) st))
handle_log m caller st = (none, method_not_allowed)

-- The request that the test sends: signed as the scheduler signs, with an event of its own.
unfoldable pub test_webhook_delivery : (Bytes → Bytes → Bytes) → Bytes → Bytes → Bytes → Request
test_webhook_delivery hmac url body secret = record (request_of hmac url body secret) {
  event = text "test";
}

module _ (hmac : Bytes → Bytes → Bytes) (parse : Bytes → Option Url) (parse_ip : Bytes → Option Ip)
    (lookup_ip : Bytes → Option (List Ip)) where
  -- The request that is sent, if one is, and the response. `ping` is the payload.
  unfoldable pub webhook_test :
      Option TestBody → Bytes → (Request → Answer) → Option Request × Response
  unfolding test_webhook_delivery
  webhook_test none ping peer = (none, bad_request invalid_json)
  webhook_test (some body) ping peer =
      if bytes_eq body.url []
      then (none, bad_request url_required)
      else elim (validate_webhook_url parse parse_ip lookup_ip body.url) [
        | some e ↦ (none, bad_request (invalid_url e))
        | none ↦
            let req = test_webhook_delivery hmac body.url ping body.secret in
            let r = read_answer (peer req) in (some req, tested r.0 (delivered r) r.1)
      ]

  -- The endpoint `test`.
  unfoldable pub handle_test :
      Method → Option TestBody → Bytes → (Request → Answer) → Option Request × Response
  unfolding webhook_test
  handle_test post_method body ping peer = webhook_test body ping peer
  handle_test m body ping peer = (none, method_not_allowed)

  unfoldable pub handle_webhook_subpath :
      Method
      → Bytes
      → Option TestBody
      → Option Caller
      → Bytes
      → (Request → Answer)
      → Option Store
      → Option Request × Response
  unfolding handle_log handle_test
  handle_webhook_subpath m path body caller ping peer none = (none, unavailable)
  handle_webhook_subpath m path body caller ping peer (some st) =
      let sub = trim_prefix (text "/api/webhooks/") path in
      if bytes_eq sub (text "log")
      then handle_log m caller st
      else if bytes_eq sub (text "test")
      then handle_test m body ping peer
      else (none, not_found)
