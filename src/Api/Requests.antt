-- ===== src/Api/Requests.antt =====
-- The requests and answers of internal/api/schedules.go, and its helpers.
use stackly.Base.{
  ℕ, Bool, true, not, ◌||◌, Option, none, some, List, [], ◌∷◌, Bytes, text, bytes_eq, ◌==◌,
  if◌then◌else◌,
}
use stackly.Scheduler.{Schedule, WebhookDelivery}
use stackly.Scheduler.Validate.{UrlError}
unfoldable pub use stackly.Base.Search.{trim_prefix}

pub data Method : Type 0 where
  get_method : Method
  post_method : Method
  patch_method : Method
  delete_method : Method
  other_method : Method

-- What is read of the user in the request's context.
pub record Caller : Type 0 where
  pub id : Bytes
  pub tier : Bytes

pub record CreateBody : Type 0 where
  pub url : Bytes
  pub interval : Bytes
  pub webhook_url : Bytes
  pub webhook_secret : Bytes

-- A field that the JSON leaves out is `none`.
pub record PatchBody : Type 0 where
  pub enabled : Option Bool
  pub interval : Option Bytes
  pub webhook_url : Option Bytes
  pub webhook_secret : Option Bytes

pub record TestBody : Type 0 where
  pub url : Bytes
  pub secret : Bytes

pub data BadRequest : Type 0 where
  invalid_json : BadRequest
  url_required : BadRequest
  invalid_url : UrlError → BadRequest
  invalid_webhook_url : UrlError → BadRequest
  invalid_interval : BadRequest

pub data Response : Type 0 where
  unavailable : Response
  bad_request : BadRequest → Response
  quota_exceeded : ℕ → ℕ → Bytes → Response
  method_not_allowed : Response
  not_found : Response
  schedule_not_found : Response
  listed : List Schedule → Response
  created : Schedule → Response
  shown : Schedule → Response
  deleted : Response
  queued_run : Bytes → Response
  deliveries : List WebhookDelivery → Response
  tested : ℕ → Bool → Option Bytes → Response

unfoldable pub schedule_owner : Option Caller → Bytes
schedule_owner none = text "default"
schedule_owner (some u) = u.id

unfoldable pub redact_schedule : Schedule → Schedule
redact_schedule sch = record sch {
  has_secret = if not (bytes_eq sch.webhook_secret []) then true else sch.has_secret;
  webhook_secret = [];
}

unfoldable pub is_interval : Bytes → Bool
is_interval s =
    bytes_eq s (text "hourly") || bytes_eq s (text "daily") || bytes_eq s (text "weekly")

-- strings.Split by a slash: never empty.
unfoldable pub split_slash : Bytes → List Bytes
split_slash [] = [] ∷ []
split_slash (c ∷ s) = let rest = split_slash s in if c == b'/' then [] ∷ rest else push c rest
  where
    push : ℕ → List Bytes → List Bytes
    push c [] = (c ∷ []) ∷ []
    push c (p ∷ ps) = (c ∷ p) ∷ ps
