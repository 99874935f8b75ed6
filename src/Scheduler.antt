-- ===== src/Scheduler.antt =====
-- internal/scheduler/store.go and store_api.go: schedules, the delivery log, and their file.
-- Times are nanoseconds since the start of year 1, so that 0 is Go's zero time. `dirty` is the one
-- place of the channel `dirtyCh`, and `file` is what the last save left on disk.
pub mod Ops
pub mod Order
pub mod Log
pub mod Persist
pub mod Validate
pub mod Targets
pub mod Dispatch
pub mod Delivery
pub mod Run
pub mod Ticks
mod Examples
use stackly.Base.{
  ℕ, ◌+◌, ◌-◌, ◌*◌, Bool, true, false, not, ◌&&◌, Option, none, some, List, [], ◌∷◌, ◌++◌, Bytes,
  text, bytes_eq, ltb, leb, length, drop, take, reverse, select, if◌then◌else◌,
}
use stackly.Base.Map
use stackly.Base.Map.{Map}

abbrev pub second : ℕ
second = 1_000_000_000

abbrev pub hour : ℕ
hour = 3600 * second

-- IntervalDur: an unknown preset counts as daily.
unfoldable pub interval_dur : Bytes → ℕ
interval_dur s =
    if bytes_eq s (text "hourly")
    then 1 * hour
    else if bytes_eq s (text "weekly")
    then 7 * 24 * hour
    else 24 * hour

pub record Schedule : Type 0 where
  pub id : Bytes
  pub url : Bytes
  pub interval : Bytes
  pub owner : Bytes
  pub enabled : Bool
  pub webhook_url : Bytes
  pub webhook_secret : Bytes
  pub has_secret : Bool
  pub last_run : ℕ
  pub last_status : Bytes
  pub last_error : Bytes
  pub next_run : ℕ
  pub run_count : ℕ
  pub created_at : ℕ

pub record WebhookDelivery : Type 0 where
  pub id : Bytes
  pub schedule_id : Bytes
  pub url : Bytes
  pub attempt : ℕ
  pub status : Bytes
  pub http_code : ℕ
  pub error : Bytes
  pub duration_ms : ℕ
  pub timestamp : ℕ

-- The JSON file, as the two lists that it holds.
pub record File : Type 0 where
  pub schedules : List Schedule
  pub log : List WebhookDelivery

pub record Store : Type 0 where
  pub schedules : Map Schedule
  pub log : List WebhookDelivery
  pub dirty : Bool
  pub file : Option File

abbrev pub max_delivery_log : ℕ
max_delivery_log = 100
