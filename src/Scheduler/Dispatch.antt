-- ===== src/Scheduler/Dispatch.antt =====
-- The webhooks of internal/scheduler/scheduler.go: the payload, the signed POST and its retries.
-- json.Marshal, HMAC-SHA256 and the peer's answers are parameters, and so is the text of an error of
-- the validator.
use stackly.Base.{
  ℕ, zero, suc, ◌*◌, Bool, false, not, ◌&&◌, Option, none, some, List, [], ◌∷◌, ◌++◌, Bytes, text,
  bytes_eq, ltb, leb, length, take, if◌then◌else◌, ◌⊎◌, inl, inr,
}
use stackly.Base.Decimal.{show_nat}
use stackly.Base.Hex.{encode}
use stackly.Scan.{ScanResult}
use stackly.Scheduler.{Schedule, WebhookDelivery, Store, second}
use stackly.Scheduler.Ops.{log_delivery}
use stackly.Scheduler.Validate.{Ip, Url, UrlError, validate_webhook_url}

pub record WebhookPayload : Type 0 where
  pub version : Bytes
  pub event : Bytes
  pub schedule_id : Bytes
  pub url : Bytes
  pub status : Bytes
  pub error : Bytes
  pub timestamp : ℕ
  pub result : Option ScanResult

abbrev pub max_payload_html_bytes : ℕ
max_payload_html_bytes = 4096

unfoldable pub sanitize_for_webhook : ScanResult → ScanResult
sanitize_for_webhook r =
    if ltb max_payload_html_bytes (length r.html)
    then record r {
      html =
          take max_payload_html_bytes r.html
          ++ (text "...[truncated, fetch full result via /api/results/" ++ r.url ++ text "]");
    }
    else r

abbrev pub sanitize_option : Option ScanResult → Option ScanResult
sanitize_option none = none
sanitize_option (some r) = some (sanitize_for_webhook r)

unfoldable pub payload_of : Schedule → Option ScanResult → Bytes → Bytes → ℕ → WebhookPayload
payload_of sch result status err now = record {
  version = text "v1";
  event =
      if not (bytes_eq status (text "success")) then text "scan.failed" else text "scan.completed";
  schedule_id = sch.id;
  url = sch.url;
  status = status;
  error = err;
  timestamp = now;
  result = sanitize_option result;
}

-- What `postOnce` sends, and what `client.Do` can come back with.
pub record Request : Type 0 where
  pub url : Bytes
  pub event : Bytes
  pub body : Bytes
  pub signature : Option Bytes

pub data Answer : Type 0 where
  refused : Bytes → Answer
  answered : ℕ → Answer

-- What one dispatch sees of the world: an answer and a duration in ms for each attempt, the clock, and
-- the ID that `genID` returns. The schedule is an object that the store shares, so that others may
-- change it between the attempts: `held` is what it holds when an attempt is posted, and `logged` when
-- its delivery is logged, with 0 for the delivery of a dispatch that makes no attempt.
pub record World : Type 0 where
  pub held : ℕ → Schedule
  pub logged : ℕ → Schedule
  pub answer : ℕ → Answer
  pub duration : ℕ → ℕ
  pub now : ℕ
  pub gen : Bytes

-- What a dispatch does: the requests it sends, the time it sleeps between them, and the store.
pub record Outbox : Type 0 where
  pub sent : List Request
  pub slept : List ℕ
  pub store : Store

abbrev pub is_2xx : ℕ → Bool
is_2xx code = leb 200 code && ltb code 300

-- The code and the error that `postOnce` returns.
unfoldable pub read_answer : Answer → ℕ × Option Bytes
read_answer (refused e) = (0, some e)
read_answer (answered code) =
    if is_2xx code then (code, none) else (code, some (text "non-2xx response: " ++ show_nat code))

module _ (hmac : Bytes → Bytes → Bytes) where
  unfoldable pub request_of : Bytes → Bytes → Bytes → Request
  request_of url body secret = record {
    url = url;
    event = text "scan";
    body = body;
    signature =
        if not (bytes_eq secret [])
        then some (text "sha256=" ++ encode (hmac secret body))
        else none;
  }

  unfoldable pub post_once : Bytes → Bytes → Bytes → Answer → Outbox → Outbox × (ℕ × Option Bytes)
  unfolding request_of read_answer
  post_once url body secret a o =
      (record o { sent = o.sent ++ request_of url body secret ∷ [] }, read_answer a)

unfoldable pub delivery_of : Bytes → Bytes → ℕ → Bytes → ℕ → Bytes → ℕ → WebhookDelivery
delivery_of schedule_id url attempt status code err dur = record {
  id = [];
  schedule_id = schedule_id;
  url = url;
  attempt = attempt;
  status = status;
  http_code = code;
  error = err;
  duration_ms = dur;
  timestamp = 0;
}

-- logDelivery.
unfoldable pub log_attempt : WebhookDelivery → World → Outbox → Outbox
log_attempt d w o = record o { store = log_delivery d w.gen w.now o.store }

abbrev pub max_attempts : ℕ
max_attempts = 3

unfoldable pub delivered : ℕ × Option Bytes → Bool
delivered (code, none) = is_2xx code
delivered (code, some e) = false

unfoldable pub error_message : ℕ × Option Bytes → Bytes
error_message (code, none) = text "HTTP " ++ show_nat code
error_message (code, some e) = e

-- The delivery of an attempt, by what `postOnce` returned.
unfoldable pub outcome : World → ℕ → ℕ × Option Bytes → WebhookDelivery
outcome w attempt r =
    let sch = w.logged attempt in
    if delivered r
    then delivery_of sch.id sch.webhook_url attempt (text "success") r.0 [] (w.duration attempt)
    else delivery_of sch.id sch.webhook_url attempt (text "failed") r.0 (error_message r)
        (w.duration attempt)

abbrev pub refusal : World → Bytes → WebhookDelivery
refusal w message =
    delivery_of (w.logged 0).id (w.logged 0).webhook_url 0 (text "failed") 0 message 0

module _ (hmac : Bytes → Bytes → Bytes) where
  -- The loop over the attempts: `left` attempts may follow this one. Each reads the URL and the secret
  -- again.
  unfoldable pub attempts : Bytes → World → ℕ → ℕ → ℕ → Outbox → Outbox
  unfolding post_once log_attempt
  attempts body w zero attempt backoff o =
      let sch = w.held attempt in
      let (o, r) = post_once hmac sch.webhook_url body sch.webhook_secret (w.answer attempt) o in
      log_attempt (outcome w attempt r) w o
  attempts body w (suc left) attempt backoff o =
      let sch = w.held attempt in
      let (o, r) = post_once hmac sch.webhook_url body sch.webhook_secret (w.answer attempt) o in
      let rest =
        attempts body w left (suc attempt) (backoff * 3)
          (record o { slept = o.slept ++ backoff ∷ [] }) in
      if delivered r then log_attempt (outcome w attempt r) w o else rest

  module _ (parse : Bytes → Option Url) (parse_ip : Bytes → Option Ip)
      (lookup_ip : Bytes → Option (List Ip)) (describe : UrlError → Bytes)
      (marshal : WebhookPayload → Bytes ⊎ Bytes) where
    -- `marshal` returns the body, or the text of an error. The schedule is what the object holds at the
    -- start.
    unfoldable pub dispatch_webhook :
        Schedule → Option ScanResult → Bytes → Bytes → World → Outbox → Outbox
    unfolding payload_of attempts log_attempt
    dispatch_webhook sch result status err w o =
        elim (marshal (payload_of sch result status err w.now)) [
          | inr e ↦ log_attempt (refusal w (text "marshal: " ++ e)) w o
          | inl body ↦ elim (validate_webhook_url parse parse_ip lookup_ip sch.webhook_url) [
            | some e ↦ log_attempt (refusal w (text "validation: " ++ describe e)) w o
            | none ↦ attempts body w 2 1 second o
          ]
        ]
