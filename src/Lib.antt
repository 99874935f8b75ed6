-- ===== src/Lib.antt =====
-- A verification library for stackly, a service that opens web pages in a browser and tells which
-- technologies they use.
--
-- The parts and how they interact. A client posts a URL; internal/queue makes a job of it, and a worker
-- looks it up in internal/cache, or scans it and stores the result there. While a job runs, the queue
-- publishes its progress through internal/ws to the sockets that watch the job. Schedules
-- (internal/scheduler) scan a URL again and again and post the outcome to a webhook; they are made and
-- changed through internal/api/schedules.go. Every request passes the middleware of internal/auth,
-- which knows the users, their rate and their monthly quota.
--
-- The files:
--   Base      shared names, Boolean tests, lists over native numbers, Go's strings as bytes (GoString),
--             searching in strings (Search), maps as association lists (Map), the exchange sort (Sort)
--             and sorted keys (SortKeys), the idiom of a set of seen strings (Fresh), hex and decimal
--             text, sets of object identities (Ids) and of keys (Keys).
--   Scan      the data of internal/fingerprint/loader.go and internal/scanner/scanner.go.
--   Cache     internal/cache/cache.go: the record Cache and its operations Get, Set, Clear,
--             CleanupExpired, Stats, persistLocked and load, with encoding/json and the file system
--             as a field; Cache/Url has normalizeURL and urlKey, Eviction, Bounds, Lookup and Persist
--             have lemmas and theorems.
--   Hub       internal/ws/hub.go: subscribers are objects in a heap, numbered as they are made; Publish
--             is publish_locked, under the lock, and deliver, after it. `none` is a panic. Open,
--             Replay and Race have the theorems.
--   Queue     internal/queue/queue.go: the table of jobs, the channel of IDs, the cache, the hub and
--             the counters. Queue/Worker has processJob in the sections between which other goroutines
--             run, and Queue/Steps the step relation of all goroutines as a function. Jobs, Lifecycle,
--             Moves, Safety, Silent, Listing and Admission have lemmas and theorems.
--   Scheduler internal/scheduler: Ops has store.go and store_api.go, Validate has validate.go, Dispatch
--             and Run have scheduler.go. Order, Log, Persist, Targets, Delivery and Ticks have lemmas
--             and theorems.
--   Api       internal/api/schedules.go: Requests has the requests, the responses and small helpers,
--             Schedules and Webhooks have the handlers. Owners, Admission, Secrets and Outbound have theorems.
--   Auth      internal/auth/auth.go: Calendar, Quota, Bucket, Login, Client, Middleware and Env have the
--             operations, Months, Grants, Flow and Gate theorems; those on Env stand in Env.
--   Fingerprint  internal/fingerprint/loader.go: the parser of the database and its lookups.
--   Scanner   internal/scanner/scanner.go, email.go, contact.go and useragent.go. Detect and Implied have
--             the matching of rules, Agents the rotation of user agents, Emails, Walk and Contact the
--             discovery of addresses, Append the two goroutines that append addresses to one slice, Flow
--             ScanURL after the browser has run. Rules, Contacts, Offers, Pages, Outcome, Progress
--             and Rotation have lemmas and theorems.
--   Enrich    internal/scanner/enrich.go and enrichResult of scanner.go: Dns, Providers, Whois and
--             Perf have the queries and the metrics, Run their composition; Records has theorems on Dns, those on Perf
--             and Run stand beside them.
--   Files     internal/fsutil/fsutil.go: the operations of an atomic write and their faults; Atomic has the theorem.
--   Command   cmd/techstack/main.go, and the callbacks of cmd/server/main.go; Counts has a theorem.
--   Report    internal/report: Cards, Pills, Styles and Page have the sections of the page and Render,
--             DataUrl the escaping of pdf.go. Markup, Untouched, Groups and DataUrl have theorems.
--   Server    internal/api/server.go, quota.go and reports.go, and internal/ws/handler.go: Scans and
--             Info have the handlers, Wait the waiting loop, Socket the WebSocket handler, Routes the
--             routes with their middleware, Metrics the middleware of internal/metrics/middleware.go.
--             Anonymous, Admission, Compact and Metrics have theorems.
-- A module Examples of each part runs the definitions on concrete inputs.
--
-- How the code is modelled. A method that changes its receiver is a function from the state to the
-- new state and the result. A pointer into a map is the map's entry: what is written through it is
-- written to the map. What such a pointer finds when it is read again after a sleep is an argument, in
-- the dispatch of a webhook. A Go map is an association list in an order in which `range` may visit it,
-- and theorems are for every such list. What the clock, a random ID or the environment gives is an
-- argument, one for each reading that can differ. Times are natural numbers of nanoseconds; in
-- Scheduler and Auth they count from year 1, so that 0 is the zero time. Go's int is unbounded: the
-- counters cannot reach 2^63. A mutex makes the section that it guards one step; the steps of
-- Queue/Steps are larger, as it says.
--
-- Parameters. SHA-256, HMAC, JSON, base64, regular expressions, the parsers of net/url and net, the
-- resolver, the check of a token by the JWT package, the draws of a random number, what the browser
-- collects from a page, the formats of time, strings.ToLower where the metrics of a page use it, and
-- the peers of HTTP and TLS are arguments of the definitions that use them. To the queue and the
-- scheduler the scanner is a parameter as well. A theorem that needs something of one says so in a
-- hypothesis.
--
-- Fuel. The walk over months in Auth/Calendar has one more step than there are days left, and a
-- month has at least 28 days, so that it always ends by itself. The digits of a number have as many
-- rounds as the number. The attempts of a dispatch count down the attempts that are left. The
-- handler that waits for a job looks every half second, so two rounds for each second of the
-- timeout are enough. The loop over the scripts of a page passes nine bytes each time, so a round
-- for each byte is enough.
--
-- Not modelled: the sockets and the pump that reads from them, the scripts that run in the browser,
-- the ticker, the semaphore of dispatches and the stopping of goroutines, errors of the file system
-- outside Files and Cache, float64 rounding in the rate limit, the Prometheus registry, the wiring
-- and the text output of the commands, the extension.
pub mod Base
pub mod Cache
pub mod Hub
pub mod Report
pub mod Scan
pub mod Queue
pub mod Scheduler
pub mod Api
pub mod Auth
pub mod Scanner
pub mod Enrich
pub mod Files
pub mod Command
pub mod Fingerprint
pub mod Server
