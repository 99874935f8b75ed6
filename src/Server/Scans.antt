-- ===== src/Server/Scans.antt =====
-- handleScan, handleResults and makeCompact of internal/api/server.go, and handleReports of
-- internal/api/reports.go. `none` is a panic.
use stackly.Base.{
  Bool, true, false, not, ◌&&◌, ◌||◌, ◌⊎◌, inl, inr, Option, none, some, List, [], ◌∷◌, ◌++◌, Bytes,
  text, bytes_eq, has_prefix, if◌then◌else◌,
}
use stackly.Base.Fresh.{Fresh, add, start}
use stackly.Base.Search.{contains, trim_space, trim_prefix, has_suffix, trim_suffix}
use stackly.Scan.{Result}
use stackly.Scanner.Detect.{get_implied}
use stackly.Queue.{
  Queue, Job, Status, pending, completed, Enqueued, queued, queue_full, enqueue, get_job,
}
use stackly.Auth.{User, Users}
use stackly.Auth.Quota.{
  QuotaInfo, Reserved, user_not_found, quota_exceeded, reserved, check_and_increment_quota,
}
use stackly.Auth.Middleware.{is_enabled}
use stackly.Scheduler.Validate.{validate_scan_url}
use stackly.Api.Requests.{Method, get_method, post_method}
use stackly.Server.{
  Server, ScanBody, Call, Env, CompactResult, Reply, page_not_found, method_not_allowed,
  invalid_json, url_required, queue_is_full, invalid_url, over_quota, accepted, invalid_id,
  job_not_found, shown_job, compact, not_complete, no_result, report,
}

unfoldable pub with_scheme : Bytes → Bytes
with_scheme url =
    if not (has_prefix (text "http://") url) && not (has_prefix (text "https://") url)
    then text "https://" ++ url
    else url

-- What the quota says: to refuse, or to go on with or without headers.
pub data Granted : Type 0 where
  refused : QuotaInfo → Granted
  granted : Option QuotaInfo → Granted

-- A user who is not in the store, such as the bearer of a token, has no quota.
abbrev pub granted_of : Reserved → Granted
granted_of user_not_found = granted none
granted_of (quota_exceeded info) = refused info
granted_of (reserved info) = granted (some info)

abbrev pub with_store : Server → Users → Server
with_store s st = record s { auth = record s.auth { store = some st } }

module _ (e : Env) where
  -- The URL to scan, or the reply to a body that is not accepted.
  unfoldable pub check_scan : Option ScanBody → Reply ⊎ Bytes
  unfolding trim_space with_scheme
  check_scan none = inl invalid_json
  check_scan (some body) =
      let url = with_scheme (trim_space body.url) in
      if bytes_eq (trim_space body.url) []
      then inl url_required
      else elim (validate_scan_url e.parse e.parse_ip e.lookup_ip e.allow_private url) [
        | some err ↦ inl (invalid_url err)
        | none ↦ inr url
      ]

  -- `none` is a user in the context with no store.
  abbrev pub spend : User → Server → Option Users → Option (Server × Granted)
  spend u s none = none
  spend u s (some st) =
      let r = check_and_increment_quota e.zone e.now u.key st in
      some (with_store s r.0, granted_of r.1)

  unfoldable pub reserve : Option User → Server → Option (Server × Granted)
  reserve none s = some (s, granted none)
  reserve (some u) s =
      if is_enabled e.no_auth s.auth then spend u s s.auth.store else some (s, granted none)

  -- The reply to a job that is in the queue; a wait reads the job again, and a job that is gone by
  -- then is a nil pointer.
  unfoldable pub accept : Option QuotaInfo → Bool → Job → Server → Option (Server × Reply)
  accept info false job s = some (s, accepted info job.id job.url job.status)
  accept info true job s =
      let later = e.queue_after_wait s.queue in
      elim (get_job job.id later) [
        | none ↦ none
        | some j ↦ some (record s { queue = later }, accepted info j.id j.url j.status)
      ]

  abbrev pub answer_enqueued :
      Option QuotaInfo → Bool → Server → Option (Queue × Enqueued) → Option (Server × Reply)
  answer_enqueued info wait s none = none
  answer_enqueued info wait s (some (q, queue_full)) = some (record s { queue = q }, queue_is_full)
  answer_enqueued info wait s (some (q, queued job)) = accept info wait job (record s { queue = q })

  abbrev pub submit : Bytes → Bool → Option (Server × Granted) → Option (Server × Reply)
  submit url wait none = none
  submit url wait (some (s, refused info)) = some (s, over_quota info)
  submit url wait (some (s, granted info)) =
      answer_enqueued info wait s (enqueue url e.new_id e.now e.ts s.queue)

  abbrev wants_wait : Option ScanBody → Bool
  wants_wait none = false
  wants_wait (some body) = body.wait

  unfoldable pub scan : Call → Option User → Server → Option (Server × Reply)
  unfolding check_scan reserve accept
  scan c user s = elim (check_scan c.scan_body) [
    | inl refusal ↦ some (s, refusal)
    | inr url ↦ submit url (wants_wait c.scan_body) (reserve user s)
  ]

  unfoldable pub handle_scan : Method → Call → Option User → Server → Option (Server × Reply)
  unfolding scan
  handle_scan post_method c user s = scan c user s
  handle_scan m c user s = some (s, method_not_allowed)

-- The loop over the results: the names, and each category once.
unfoldable pub detected_names : List Result → List Bytes
detected_names [] = []
detected_names (r ∷ rs) = r.technology.name ∷ detected_names rs

unfoldable pub each_category : List Result → Fresh → Fresh
unfolding add
each_category [] c = c
each_category (r ∷ rs) c = each_category rs (add r.technology.category c)

unfoldable pub make_compact : Job → CompactResult
unfolding detected_names each_category get_implied
make_compact job =
    let results : List Result = elim job.result [ none ↦ [] | some r ↦ r.results ] in
    record {
      id = job.id;
      url = job.url;
      status = job.status;
      duration = job.duration;
      error = job.error;
      detected = detected_names results;
      categories = (each_category results (start [])).out;
      implied = get_implied results;
    }

abbrev pub is_pending : Status → Bool
is_pending pending = true
is_pending status = false

abbrev pub is_true : Bytes → Bool
is_true v = bytes_eq v (text "true")

module _ (e : Env) where
  -- The reply with the job; a compact one of a job that is gone is a nil pointer.
  unfoldable pub show_job : Call → Option Job → Option Reply
  unfolding make_compact
  show_job c job =
      if is_true c.compact_param || bytes_eq c.compact_param (text "1")
      then elim job [ none ↦ none | some j ↦ some (compact (make_compact j)) ]
      else some (shown_job job)

  abbrev shown : Server → Option Reply → Option (Server × Reply)
  shown s none = none
  shown s (some r) = some (s, r)

  unfoldable pub results_of : Bytes → Call → Server → Option (Server × Reply)
  unfolding show_job contains
  results_of id c s =
      if bytes_eq id [] || contains id (text "/")
      then some (s, invalid_id)
      else elim (get_job id s.queue) [
        | none ↦ some (s, job_not_found)
        | some job ↦
            let later = e.queue_after_wait s.queue in
            if is_true c.wait_param && is_pending job.status
            then shown (record s { queue = later }) (show_job c (get_job id later))
            else shown s (show_job c (some job))
      ]

  unfoldable pub handle_results : Method → Call → Server → Option (Server × Reply)
  unfolding results_of trim_prefix
  handle_results get_method c s = results_of (trim_prefix (text "/api/results/") c.login.path) c s
  handle_results m c s = some (s, method_not_allowed)

unfoldable pub server_base_url : Call → Bytes
server_base_url c =
    let scheme =
      if not (bytes_eq c.forwarded_proto [])
      then c.forwarded_proto
      else if c.tls
      then text "https"
      else text "http" in
    let host = if bytes_eq c.host [] then text "stackly.local" else c.host in
    scheme ++ (text "://" ++ (host ++ text "/"))

abbrev report_job : Bool → Bytes → Call → Option Job → Reply
report_job pdf id c none = job_not_found
report_job pdf id c (some job) = elim job.status [
  | completed ↦ elim job.result [
    | none ↦ no_result
    | some r ↦ report pdf (record { result = r; job_id = id; server_url = server_base_url c })
  ]
  | other ↦ not_complete other
]

unfoldable pub handle_reports : Call → Server → Reply
unfolding server_base_url trim_prefix has_suffix trim_suffix contains
handle_reports c s =
    let trimmed = trim_prefix (text "/api/report/") c.login.path in
    if bytes_eq trimmed [] || contains trimmed (text "/")
    then page_not_found
    else let pdf = has_suffix (text ".pdf") trimmed in
      let id = trim_suffix (text ".pdf") trimmed in report_job pdf id c (get_job id s.queue)
