-- ===== src/Api.antt =====
-- internal/api/schedules.go: the handlers of /api/schedules and /api/webhooks, over the scheduler's
-- store. A pointer to a schedule that a handler holds is the store's own, so what `redactSchedule`
-- writes to it is written to the store. The validators' parsers and resolver, what the environment
-- holds, and the decoding of JSON are parameters.
pub mod Requests
pub mod Schedules
pub mod Webhooks
pub mod Owners
pub mod Admission
pub mod Secrets
pub mod Outbound
mod Examples
