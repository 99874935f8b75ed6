-- ===== src/Hub.antt =====
-- internal/ws/hub.go: per-job subscribers with a replay buffer.
-- A subscriber is an object with an identity: `heap` holds the objects, and `next` is the identity
-- that the next one gets. Its channel is the list of the events that wait in it. A send on a closed
-- channel panics, which is `none`. The connection and its writes are not part of the model.
pub mod Open
pub mod Replay
pub mod Race
mod Examples
use stackly.Base.{
  ℕ, suc, ◌+◌, ◌-◌, Bool, true, false, not, Option, none, some, List, [], ◌∷◌, ◌++◌, Bytes,
  bytes_eq, ltb, length, drop, if◌then◌else◌,
}
use stackly.Base.Map
use stackly.Base.Map.{Map}
use stackly.Base.Ids.{without, update}

pub data EventType : Type 0 where
  progress completed failed : EventType

pub record DetectedTech : Type 0 where
  pub slug : Bytes
  pub name : Bytes
  pub category : Bytes
  pub confidence : ℕ

pub record Event : Type 0 where
  pub type : EventType
  pub job_id : Bytes
  pub status : Bytes
  pub percent : ℕ
  pub message : Bytes
  pub techs : List DetectedTech
  pub error : Bytes
  pub ts : Bytes

pub record Subscriber : Type 0 where
  pub job_id : Bytes
  pub send : List Event
  pub closed : Bool

pub record Hub : Type 0 where
  pub subscribers : Map (List ℕ)
  pub replay : Map (List Event)
  pub replay_size : ℕ
  pub heap : ℕ → Subscriber
  pub next : ℕ

-- The room of a subscriber's channel.
abbrev pub send_size : ℕ
send_size = 32

-- `m[k]` where a missing key reads as an empty slice or set.
abbrev pub or_empty {ℓ} : {A : Type ℓ} → Option (List A) → List A
or_empty none = []
or_empty (some xs) = xs

abbrev pub subscribers_of : Hub → Bytes → List ℕ
subscribers_of h job = or_empty (Map.get job h.subscribers)

abbrev pub replay_of : Hub → Bytes → List Event
replay_of h job = or_empty (Map.get job h.replay)

abbrev pub nobody : Subscriber
nobody = record { job_id = []; send = []; closed = false }

pub new_hub : Hub
new_hub = record { subscribers = []; replay = []; replay_size = 32; heap = λ _. nobody; next = 0 }

-- `select { case s.Send <- ev: default: }`.
pub offer : Event → Subscriber → Option Subscriber
offer ev s =
    if s.closed
    then none
    else if ltb (length s.send) send_size
    then some (record s { send = s.send ++ ev ∷ [] })
    else some s

-- The loop over the buffer in `Subscribe`: the `break` leaves the `select` only.
pub catch_up : List Event → Subscriber → Subscriber
catch_up [] s = s
catch_up (ev ∷ evs) s =
    catch_up evs
      (if ltb (length s.send) send_size then record s { send = s.send ++ ev ∷ [] } else s)

pub subscribe : Bytes → Bool → Hub → Hub × ℕ
subscribe job replays h =
    let sub : Subscriber = record { job_id = job; send = []; closed = false } in
    (
      record h {
        subscribers = Map.put job (h.next ∷ subscribers_of h job) h.subscribers;
        heap = update h.heap h.next (if replays then catch_up (replay_of h job) sub else sub);
        next = suc h.next;
      },
      h.next,
    )

close_once : Subscriber → Subscriber
close_once s = record s { closed = true }

-- `delete(subs, sub)`, and the job's entries if nobody is left.
leave : ℕ → Bytes → Hub → Hub
leave id job h = elim (Map.get job h.subscribers) [
  | none ↦ h
  | some subs ↦ elim (without id subs) [
    | [] ↦ record h { subscribers = Map.remove job h.subscribers; replay = Map.remove job h.replay }
    | s ∷ ss ↦ record h { subscribers = Map.put job (s ∷ ss) h.subscribers }
  ]
]

pub unsubscribe : ℕ → Hub → Hub
unfolding leave close_once
unsubscribe id h =
    let left = leave id (h.heap id).job_id h in
    record left { heap = update left.heap id (close_once (left.heap id)) }

abbrev pub last_n {ℓ} : {A : Type ℓ} → ℕ → List A → List A
last_n n xs = drop (length xs - n) xs

abbrev pub stamp : Bytes → Bytes → Event → Event
stamp job now ev = record ev { job_id = job; ts = if bytes_eq ev.ts [] then now else ev.ts }

-- What `Publish` does under the lock: it returns the recipients of its snapshot. `now` is the time
-- as it is written into an event.
pub publish_locked : Bytes → Event → Hub → Hub × List ℕ
publish_locked job ev h =
    let buf = replay_of h job ++ ev ∷ [] in
    let kept = if ltb h.replay_size (length buf) then last_n h.replay_size buf else buf in
    (record h { replay = Map.put job kept h.replay }, subscribers_of h job)

-- What it does after the lock is given back.
pub deliver : Event → List ℕ → Hub → Option Hub
deliver ev [] h = some h
deliver ev (id ∷ ids) h = elim (offer ev (h.heap id)) [
  | none ↦ none
  | some s ↦ deliver ev ids (record h { heap = update h.heap id s })
]

pub publish : Bytes → Bytes → Event → Hub → Option Hub
publish job now ev h =
    let stamped = stamp job now ev in
    let r = publish_locked job stamped h in deliver stamped r.1 r.0

pub subscriber_count : Bytes → Hub → ℕ
subscriber_count job h = length (subscribers_of h job)

-- The calls on a hub.
pub data Op : Type 0 where
  joins : Bytes → Bool → Op
  leaves : ℕ → Op
  publishes : Bytes → Bytes → Event → Op

pub step : Hub → Op → Option Hub
step h (joins job replays) = some (subscribe job replays h).0
step h (leaves id) = some (unsubscribe id h)
step h (publishes job now ev) = publish job now ev h

-- Calls that do not overlap; `none` is a panic.
pub run : Hub → List Op → Option Hub
run h [] = some h
run h (op ∷ ops) = elim (step h op) [ none ↦ none | some h' ↦ run h' ops ]
