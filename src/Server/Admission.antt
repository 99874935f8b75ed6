-- ===== src/Server/Admission.antt =====
-- What POST /api/scan of internal/api/server.go does with the quota of its user and with the queue.
use stackly.Base.{
  ◌++◌, text, suc, ◌≡◌, ◌⊎◌, inl, true, false, not, Option, none, some, [], Bytes, bytes_eq,
}
use stackly.Base.Map
use stackly.Base.Search.{trim_space}
use stackly.Queue.{Queue, Enqueued, queued, queue_full, make_room}
use stackly.Queue.Admission.{Answers}
use stackly.Auth.{User, Users}
use stackly.Auth.Quota.{QuotaInfo, Reserved, is_over, maybe_reset, check_and_increment_quota}
use stackly.Scheduler.Targets.{Acceptable}
use stackly.Server.{Server, ScanBody, Call, Env, Reply, queue_is_full, over_quota, accepted}
use stackly.Server.Scans.{with_store, check_scan}

abbrev pub reply_of : QuotaInfo → Enqueued → Reply
reply_of info queue_full = queue_is_full
reply_of info (queued job) = accepted (some info) job.id job.url job.status

-- A text that names the scheme http or https.
abbrev pub HasScheme : Bytes → Type 0
HasScheme t = (rest : Bytes) × ((t ≡ text "http://" ++ rest) ⊎ (t ≡ text "https://" ++ rest))

-- The URL that a text of a body stands for: the text itself if it has a scheme, and the text behind
-- https:// if it has none.
abbrev pub IsUrlOf : Bytes → Bytes → Type 0
IsUrlOf t url = (HasScheme t × (url ≡ t)) ⊎ (¬ HasScheme t × (url ≡ text "https://" ++ t))

module _ (e : Env) where
  -- What a body asks to scan, without the space around it.
  abbrev pub asked : Option ScanBody → Bytes
  asked none = []
  asked (some body) = trim_space body.url

  -- What one request does, `v` being the user as the store has it.
  module _ (c : Call) (s : Server) (u v : User) (st : Users) where
    abbrev pub now_user : User
    now_user = (maybe_reset e.zone e.now v).0

    abbrev pub after_check : Users × Reserved
    after_check = check_and_increment_quota e.zone e.now u.key st

    abbrev pub Spends : Bytes → Option (Server × Reply) → Type 0
    Spends url o =
        ((is_over now_user ≡ true)
          × ((info : QuotaInfo) × (o ≡ some (with_store s after_check.0, over_quota info))))
        ⊎ ((is_over now_user ≡ false)
            × (Map.get u.key after_check.0.users
                ≡ some (record now_user { scan_count = suc now_user.scan_count }))
            × ((info : QuotaInfo) × (q : Queue) × (answer : Enqueued) × Answers
                  (make_room e.now s.queue) url e.new_id e.now q answer
                × (o
                    ≡ some
                        (record (with_store s after_check.0) { queue = q }, reply_of info answer))))

    abbrev pub Outcome : Option (Server × Reply) → Type 0
    Outcome o =
        ((reply : Reply) × (check_scan e c.scan_body ≡ inl reply) × (o ≡ some (s, reply)))
        ⊎ ((url : Bytes) × IsUrlOf (asked c.scan_body) url
            × Acceptable e.parse e.parse_ip e.lookup_ip url (not (bytes_eq e.allow_private []))
            × Spends url o)
