-- ===== src/Server.antt =====
-- internal/api/server.go, internal/api/quota.go, internal/api/reports.go and the gate of
-- internal/ws/handler.go: the state that the handlers share, their requests and their replies.
-- cmd/server/main.go hands the same cache to the queue and to the server, and the same user store to the
-- middleware and to the server: each stands here once.
pub mod Wait
pub mod Scans
pub mod Info
pub mod Socket
pub mod Routes
pub mod Metrics
pub mod Anonymous
pub mod Admission
pub mod Compact
mod Examples
use stackly.Base.{ℕ, Bool, true, false, Option, none, some, List, Bytes}
use stackly.Base.Map.{Map}
use stackly.Scan.{Technology, ScanResult}
use stackly.Cache
use stackly.Queue
use stackly.Queue.{Queue, Job, Status}
use stackly.Auth.{User}
use stackly.Auth.Calendar.{Zone}
use stackly.Auth.Quota.{QuotaInfo}
use stackly.Auth.Login
use stackly.Auth.Login.{Claims}
use stackly.Auth.Middleware.{Auth}
use stackly.Auth.Client
use stackly.Auth.Client.{Usage}
use stackly.Fingerprint.{Database}
use stackly.Scheduler.{Store}
use stackly.Scheduler.Validate.{Ip, Url, UrlError}
use stackly.Scheduler.Dispatch
use stackly.Scheduler.Dispatch.{Answer}
use stackly.Api.Requests
use stackly.Api.Requests.{Method, CreateBody, PatchBody, TestBody}

pub record Server : Type 0 where
  pub queue : Queue
  pub auth : Auth
  pub fingerprints : Database
  pub schedules : Option Store

pub data Verb : Type 0 where
  options : Verb
  plain : Method → Verb

-- A timeout of 0 stands for one that is not positive.
pub record ScanBody : Type 0 where
  pub url : Bytes
  pub wait : Bool
  pub timeout : ℕ

-- What the handlers read of a request; a body that does not decode is `none`. `upgrades` is whether the
-- connection becomes a WebSocket.
pub record Call : Type 0 where
  pub verb : Verb
  pub login : Login.Request
  pub wait_param : Bytes
  pub compact_param : Bytes
  pub ws_protocol : Bytes
  pub token_param : Bytes
  pub upgrades : Bool
  pub host : Bytes
  pub tls : Bool
  pub forwarded_proto : Bytes
  pub scan_body : Option ScanBody
  pub create_body : Option CreateBody
  pub patch_body : Option PatchBody
  pub test_body : Option TestBody

pub record TechInfo : Type 0 where
  pub name : Bytes
  pub website : Bytes
  pub category : Bytes

pub record CompactResult : Type 0 where
  pub id : Bytes
  pub url : Bytes
  pub status : Status
  pub duration : Bytes
  pub error : Bytes
  pub detected : List Bytes
  pub categories : List Bytes
  pub implied : List Bytes

-- What report.Render is given.
pub record ReportData : Type 0 where
  pub result : ScanResult
  pub job_id : Bytes
  pub server_url : Bytes

pub data Reply : Type 0 where
  preflight unauthorized rate_limited page_not_found method_not_allowed : Reply
  invalid_json url_required queue_is_full : Reply
  invalid_url : UrlError → Reply
  over_quota : QuotaInfo → Reply
  accepted : Option QuotaInfo → Bytes → Bytes → Status → Reply
  invalid_id job_not_found : Reply
  shown_job : Option Job → Reply
  compact : CompactResult → Reply
  listed_jobs : List Job → Reply
  not_complete : Status → Reply
  no_result : Reply
  report : Bool → ReportData → Reply
  queue_stats : Queue.Stats → Option Cache.Stats → Reply
  cache_disabled cache_cleared : Reply
  cache_stats : Cache.Stats → Reply
  auth_stats : Client.Stats → Reply
  no_user no_such_user admin_only quota_off no_authenticated_user : Reply
  jwt_usage : User → Reply
  shown_usage : Usage → Reply
  listed_users : List User → Reply
  shown_quota : QuotaInfo → Reply
  shown_fingerprints : Map TechInfo → Reply
  health openapi swagger_ui metrics : Reply
  file : Bytes → Reply
  invalid_socket_id socket_refused upgrade_failed : Reply
  socket : Bytes → Reply
  scheduled : Requests.Response → Reply

-- What the handlers take from outside: the digests and parsers of libraries, the environment, the
-- clock, fresh IDs, the peer of a webhook test, and what others have made of the queue when a wait
-- ends, or a socket.
pub record Env : Type 0 where
  pub sha256 : Bytes → Bytes
  pub hash_key : Bytes → Bytes
  pub base64_decode : Bytes → Option Bytes
  pub parse_jwt : Bytes → Bytes → Option Claims
  pub parse : Bytes → Option Url
  pub parse_ip : Bytes → Option Ip
  pub lookup_ip : Bytes → Option (List Ip)
  pub allow_private : Bytes
  pub no_auth : Bytes
  pub zone : Zone
  pub now : ℕ
  pub ts : Bytes
  pub new_id : Bytes
  pub ping : Bytes
  pub peer : Dispatch.Request → Answer
  pub queue_after_socket : Queue → Queue
  pub queue_after_wait : Queue → Queue
