-- ===== src/Scheduler/Delivery.antt =====
-- What a dispatch of internal/scheduler/scheduler.go sends, waits and logs.
use mathlib.Core.List.{append_assoc, append-nil}
use stackly.Base.{
  Sum-cases, ℕ, zero, suc, ◌+◌, ◌-◌, ◌*◌, ◌≤◌, ◌≡◌, refl, inl, inr, ◌⊎◌, Bool, Option, none, some,
  List, [], ◌∷◌, ◌++◌, Bytes, text, ltb, length, length-append, length-take, take, take-append,
  take-take, if◌then◌else◌, Bool-cases, ltb→lt, ltb-false→le, arith, ap, sym, ◌∙◌,
}
use stackly.Scan.{ScanResult}
use stackly.Scheduler.{Schedule, second}
use stackly.Scheduler.Ops.{log_delivery}
use stackly.Scheduler.Validate.{Ip, Url, UrlError, validate_webhook_url}
use stackly.Scheduler.Dispatch.{
  Request, outcome, refusal, WebhookPayload, World, Outbox, max_attempts, max_payload_html_bytes,
  sanitize_for_webhook, payload_of, request_of, read_answer, post_once, log_attempt, delivered,
  attempts, dispatch_webhook,
}

-- `sanitizeForWebhook` bounds the HTML of a result, whatever the page was: at most 4096 bytes of it and
-- a marker of 51 bytes and the URL. Those bytes are the page's first ones, and nothing else changes.
pub sanitize_for_webhook-bounded :
    (r : ScanResult)
    → let r' = sanitize_for_webhook r in
      (length r'.html ≤ max_payload_html_bytes + 51 + length r.url)
      × (take max_payload_html_bytes r'.html ≡ take max_payload_html_bytes r.html)
      × (record r' { html = r.html } ≡ r)
unfolding sanitize_for_webhook
sanitize_for_webhook-bounded r = elim (Bool-cases (ltb max_payload_html_bytes (length r.html))) [
  | inl b ↦
      rw (b, sanitize_for_webhook)
        (
          omega (
            arith,
            length-append kept marker,
            length-take max_payload_html_bytes r.html,
            length-append r.url (text "]"),
          ),
          take-append max_payload_html_bytes kept marker (
                omega (
                  arith,
                  length-take max_payload_html_bytes r.html,
                  ltb→lt max_payload_html_bytes (length r.html) b,
                ))
              ∙ take-take max_payload_html_bytes r.html,
          refl,
        )
  | inr b ↦
      rw (b, sanitize_for_webhook)
        (omega (arith, ltb-false→le max_payload_html_bytes (length r.html) b), refl, refl)
]
  where
    kept : Bytes
    kept = take max_payload_html_bytes r.html

    marker : Bytes
    marker = text "...[truncated, fetch full result via /api/results/" ++ (r.url ++ text "]")

-- The requests of `n` attempts from attempt `i` on: each with the same body, to the URL and with the
-- secret that the schedule has when the attempt is made.
abbrev pub posts : (Bytes → Bytes → Bytes) → Bytes → World → ℕ → ℕ → List Request
posts hmac body w zero i = []
posts hmac body w (suc n) i =
    request_of hmac (w.held i).webhook_url body (w.held i).webhook_secret
    ∷ posts hmac body w n (suc i)

pub accepted : World → ℕ → Bool
accepted w i = delivered (read_answer (w.answer i))

-- How many attempts a dispatch makes that may follow attempt `i` with `left` more: up to the one that
-- the peer accepts.
pub tries : World → ℕ → ℕ → ℕ
tries w zero i = 1
tries w (suc left) i = let rest = tries w left (suc i) in if accepted w i then 1 else suc rest

abbrev pub waits : ℕ → ℕ → List ℕ
waits zero b = []
waits (suc n) b = b ∷ waits n (b * 3)

tries-pos : (w : World) (left i : ℕ) → 1 ≤ tries w left i
unfolding tries
tries-pos w zero i = omega arith
tries-pos w (suc left) i = ground (arith, tries-pos w left (suc i))

attempts-tries :
    (hmac : Bytes → Bytes → Bytes) (body : Bytes) (w : World) (left i backoff : ℕ) (o : Outbox)
    → let k = tries w left i in
      let o' = attempts hmac body w left i backoff o in
      let last = i + k - 1 in
      (o'.sent ≡ o.sent ++ posts hmac body w k i)
      × (o'.slept ≡ o.slept ++ waits (k - 1) backoff)
      × (o'.store ≡ log_delivery (outcome w last (read_answer (w.answer last))) w.gen w.now o.store)
unfolding attempts post_once log_attempt tries accepted
attempts-tries hmac body w zero i backoff o =
    let e : i + 1 - 1 ≡ i = omega arith in rw e (refl, sym (append-nil o.slept), refl)
attempts-tries hmac body w (suc left) i backoff o =
    elim (Bool-cases (delivered (read_answer (w.answer i)))) [
      | inl a ↦
          let e : i + 1 - 1 ≡ i = omega arith in rw (a, e) (refl, sym (append-nil o.slept), refl)
      | inr a ↦
          let req = request_of hmac (w.held i).webhook_url body (w.held i).webhook_secret in
          let t = tries w left (suc i) in
          let o1 : Outbox = record o {
            sent = o.sent ++ req ∷ [];
            slept = o.slept ++ backoff ∷ [];
          } in
          let ih = attempts-tries hmac body w left (suc i) (backoff * 3) o1 in
          let slept_eq : suc t - 1 ≡ suc (t - 1) = omega (arith, tries-pos w left (suc i)) in
          let last_eq : i + suc t - 1 ≡ suc i + t - 1 = omega arith in
          rw (a, slept_eq, last_eq)
            (
              ih.0 ∙ append_assoc o.sent (req ∷ []) (posts hmac body w t (suc i)),
              ih.1 ∙ append_assoc o.slept (backoff ∷ []) (waits (t - 1) (backoff * 3)),
              ih.2,
            )
    ]

module _ (hmac : Bytes → Bytes → Bytes) (parse : Bytes → Option Url) (parse_ip : Bytes → Option Ip)
    (lookup_ip : Bytes → Option (List Ip)) (describe : UrlError → Bytes)
    (marshal : WebhookPayload → Bytes ⊎ Bytes) where
  -- A dispatch whose payload has a body and whose URL is valid at the start posts that body until the peer
  -- accepts it, at most three times, each time to the URL and signed with the secret that the shared
  -- schedule has then; it sleeps 1 s and then 3 s between the attempts, and logs exactly one delivery,
  -- that of the last attempt.
  pub dispatch_webhook-retries :
      (sch : Schedule) (result : Option ScanResult) (status err : Bytes) (w : World) (o : Outbox)
      (body : Bytes)
      → marshal (payload_of sch result status err w.now) ≡ inl body
      → validate_webhook_url parse parse_ip lookup_ip sch.webhook_url ≡ none
      → let k = tries w 2 1 in
        let o' =
          dispatch_webhook hmac parse parse_ip lookup_ip describe marshal sch result status err w
            o in
        (k ≤ max_attempts)
        × (o'.sent ≡ o.sent ++ posts hmac body w k 1)
        × (o'.slept ≡ o.slept ++ take (k - 1) (second ∷ 3 * second ∷ []))
        × (o'.store ≡ log_delivery (outcome w k (read_answer (w.answer k))) w.gen w.now o.store)
  unfolding dispatch_webhook tries
  dispatch_webhook-retries sch result status err w o body m v =
      let run = attempts-tries hmac body w 2 1 second o in
      rw (m, v, dispatch_webhook)
        (
          bound,
          run.0,
          run.1 ∙ ap (λ l. o.slept ++ l) slept,
          run.2
              ∙ ap (λ i. log_delivery (outcome w i (read_answer (w.answer i))) w.gen w.now o.store)
                  last,
        )
    where
      bound : tries w 2 1 ≤ max_attempts
      bound = ground arith

      slept : waits (tries w 2 1 - 1) second ≡ take (tries w 2 1 - 1) (second ∷ 3 * second ∷ [])
      slept = elim (Bool-cases (accepted w 1)) [
        | inl a ↦ rw (a)
        | inr a ↦ elim (Bool-cases (accepted w 2)) [ inl b ↦ rw (a, b) | inr b ↦ rw (a, b) ]
      ]

      last : 1 + tries w 2 1 - 1 ≡ tries w 2 1
      last = omega arith

  -- A dispatch to a URL that the validator refuses sends nothing and does not wait, whatever the
  -- schedule and the result are: it only logs one delivery, a failed one with attempt 0.
  pub dispatch_webhook-blocked :
      (sch : Schedule) (result : Option ScanResult) (status err : Bytes) (w : World) (o : Outbox)
      (e : UrlError)
      → validate_webhook_url parse parse_ip lookup_ip sch.webhook_url ≡ some e
      → let o' =
          dispatch_webhook hmac parse parse_ip lookup_ip describe marshal sch result status err w
            o in
        (o'.sent ≡ o.sent)
        × (o'.slept ≡ o.slept)
        × ((message : Bytes) × (o'.store ≡ log_delivery (refusal w message) w.gen w.now o.store))
  unfolding dispatch_webhook log_attempt
  dispatch_webhook-blocked sch result status err w o e v =
      elim (Sum-cases (marshal (payload_of sch result status err w.now))) [
        | inl (body, m) ↦
            rw (m, v, dispatch_webhook) (refl, refl, (text "validation: " ++ describe e, refl))
        | inr (x, m) ↦ rw (m, dispatch_webhook) (refl, refl, (text "marshal: " ++ x, refl))
      ]
