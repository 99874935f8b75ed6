-- ===== src/Server/Compact.antt =====
-- makeCompact of internal/api/server.go, and the loop of internal/ws/handler.go that writes to a socket.
use stackly.Base.{
  ◌≡◌, refl, ap, Bool, true, false, not, ◌&&◌, ◌||◌, some, List, [], ◌∷◌, ◌++◌, Bytes, bytes_eq,
  any, if◌then◌else◌, Bool-cases, inl, inr, arith,
}
use stackly.Base.Keys.{has, Nodup}
use stackly.Base.Fresh.{
  Fresh, IsFresh, add, start, start-IsFresh, add-IsFresh, has-out-add, has-seen-add,
}
use stackly.Scan.{Result, ScanResult}
use stackly.Scanner.Detect.{slugs}
use stackly.Scanner.Implied.{implies, get_implied-exact}
use stackly.Queue.{Job}
use stackly.Hub.{Event}
use stackly.Server.Scans.{each_category, make_compact}
use stackly.Server.Socket.{
  Turn, client_gone, idle_timeout, closed, ping, event, is_terminal, write_events,
}

abbrev pub in_category : Bytes → List Result → Bool
in_category k = any (λ r. bytes_eq k r.technology.category)

has-each_category :
    (k : Bytes) (rs : List Result) (c : Fresh)
    → has k (each_category rs c).out ≡ (has k c.out || (in_category k rs && not (has k c.seen)))
unfolding each_category
has-each_category k [] c = ground arith
has-each_category k (r ∷ rs) c =
    let next = add r.technology.category c in
    ground (
      arith,
      has-each_category k rs next,
      has-out-add k r.technology.category c,
      has-seen-add k r.technology.category c,
    )

each_category-IsFresh : (rs : List Result) (c : Fresh) → IsFresh c → IsFresh (each_category rs c)
unfolding each_category
each_category-IsFresh [] c h = h
each_category-IsFresh (r ∷ rs) c h =
    each_category-IsFresh rs (add r.technology.category c) (add-IsFresh r.technology.category c h)

-- The compact view of a job with a result names each category of its technologies once and no other,
-- and each slug that they imply once, without those that were detected.
pub make_compact-exact :
    (job : Job) (r : ScanResult)
    → job.result ≡ some r
    → Nodup (make_compact job).categories
      × ((k : Bytes) → has k (make_compact job).categories ≡ in_category k r.results)
      × Nodup (make_compact job).implied
      × ((k : Bytes)
          → has k (make_compact job).implied
            ≡ (implies k r.results && not (has k (slugs r.results))))
unfolding make_compact has
make_compact-exact job r e =
    let (nodup, exact) = get_implied-exact r.results in
    rw e (
      (each_category-IsFresh r.results (start []) (start-IsFresh [])).nodup,
      (λ k. ground (arith, has-each_category k r.results (start []))),
      nodup,
      exact,
    )

-- Whether the writer returns at a turn, and what it has written in it.
abbrev pub ends : Turn → Bool
ends client_gone = true
ends idle_timeout = true
ends closed = true
ends (ping ok) = not ok
ends (event ev ok) = not ok || is_terminal ev.type

abbrev pub sent : Turn → List Event
sent (event ev true) = ev ∷ []
sent turn = []

-- The turns up to the first at which the writer returns.
abbrev pub up_to_end : List Turn → List Turn
up_to_end [] = []
up_to_end (t ∷ ts) = if ends t then t ∷ [] else t ∷ up_to_end ts

abbrev pub all_sent : List Turn → List Event
all_sent [] = []
all_sent (t ∷ ts) = sent t ++ all_sent ts

-- The writer sends the events of its turns in order, and returns at the first turn at which the client
-- is gone, its time is up, the channel is closed, a write fails or the event was a terminal one; it
-- sends nothing after that.
pub write_events-exact :
    (turns : List Turn) → write_events turns ≡ (all_sent (up_to_end turns), any ends turns)
unfolding write_events
write_events-exact [] = refl
write_events-exact (client_gone ∷ ts) = refl
write_events-exact (idle_timeout ∷ ts) = refl
write_events-exact (closed ∷ ts) = refl
write_events-exact (ping true ∷ ts) = write_events-exact ts
write_events-exact (ping false ∷ ts) = refl
write_events-exact (event ev false ∷ ts) = refl
write_events-exact (event ev true ∷ ts) = elim (Bool-cases (is_terminal ev.type)) [
  | inl e ↦ rw e refl
  | inr e ↦ rw e (ap (λ r. (ev ∷ r.0, r.1)) (write_events-exact ts))
]
