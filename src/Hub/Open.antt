-- ===== src/Hub/Open.antt =====
-- While calls run one after the other, every registered subscriber's channel is open, so `Publish`
-- never panics; and each recipient gets the event or drops it.
use stackly.Base.{
  ℕ, suc, ◌<◌, ◌≡◌, refl, inl, inr, Bool, true, false, some, List, [], ◌∷◌, ◌++◌, Bytes, bytes_eq,
  bytes_eq_iff, ltb, ◌&&◌, length, if◌then◌else◌, Bool-cases, Option-cases, List-cases, arith,
}
use stackly.Base.Map
use stackly.Base.Map.{Map, get-put, get-remove}
use stackly.Base.Ids.{has, without, Nodup, has-without, without-Nodup, update}
use stackly.Hub.{
  Event, Subscriber, Hub, replay_of, send_size, subscribers_of, new_hub, offer, catch_up, subscribe,
  leave, unsubscribe, stamp, publish_locked, deliver, publish, Op, joins, leaves, publishes, step,
  run,
}

-- `ids` are known, open subscribers of `job`, each once.
pub record Safe (ids : List ℕ) (job : Bytes) (heap : ℕ → Subscriber) (next : ℕ) : Type 0 where
  pub nodup : Nodup ids
  pub member :
      (id : ℕ)
      → has id ids ≡ true
      → ((heap id).closed ≡ false) × ((heap id).job_id ≡ job) × (id < next)

abbrev pub IsOpen : Hub → Type 0
IsOpen h = (job : Bytes) → Safe (subscribers_of h job) job h.heap h.next

pub new_hub-IsOpen : IsOpen new_hub
unfolding new_hub Map.get has
new_hub-IsOpen job = record { nodup = tt; member = λ id h. cc }

module _ (ids : List ℕ) (job : Bytes) (heap : ℕ → Subscriber) (next : ℕ)
    (v : Safe ids job heap next) where
  next-fresh : has next ids ≡ false
  next-fresh = elim (Bool-cases (has next ids)) [
    | inl e ↦ absurd (omega (arith, (v.member next e).2))
    | inr e ↦ e
  ]

  Safe-new :
      (s : Subscriber)
      → s.closed ≡ false
      → s.job_id ≡ job
      → Safe (next ∷ ids) job (update heap next s) (suc next)
  unfolding has
  Safe-new s open_ own = record {
    nodup = (next-fresh, v.nodup);
    member = λ id h. ground (arith, v.member id, next-fresh);
  }

  Safe-grown : (s : Subscriber) → Safe ids job (update heap next s) (suc next)
  Safe-grown s = record {
    nodup = v.nodup;
    member = λ id h. ground (arith, v.member id h, next-fresh);
  }

  Safe-without : (id : ℕ) (s : Subscriber) → Safe (without id ids) job (update heap id s) next
  Safe-without id s = record {
    nodup = without-Nodup id ids v.nodup;
    member = λ i h. ground (arith, v.member i, has-without id i ids);
  }

  Safe-apart : (id : ℕ) (s : Subscriber) → has id ids ≡ false → Safe ids job (update heap id s) next
  Safe-apart id s apart = record { nodup = v.nodup; member = λ i h. ground (arith, v.member i h) }

  Safe-kept :
      (id : ℕ) (s : Subscriber)
      → s.closed ≡ (heap id).closed
      → s.job_id ≡ (heap id).job_id
      → Safe ids job (update heap id s) next
  Safe-kept id s c j = record { nodup = v.nodup; member = λ i h. ground (arith, v.member i h) }

catch_up-closed : (evs : List Event) (s : Subscriber) → (catch_up evs s).closed ≡ s.closed
unfolding catch_up
catch_up-closed [] s = refl
catch_up-closed (ev ∷ evs) s = ground (
  arith,
  catch_up-closed evs
      (if ltb (length s.send) send_size then record s { send = s.send ++ ev ∷ [] } else s),
)

catch_up-job : (evs : List Event) (s : Subscriber) → (catch_up evs s).job_id ≡ s.job_id
unfolding catch_up
catch_up-job [] s = refl
catch_up-job (ev ∷ evs) s = ground (
  arith,
  catch_up-job evs
      (if ltb (length s.send) send_size then record s { send = s.send ++ ev ∷ [] } else s),
)

pub subscribe-IsOpen :
    (job : Bytes) (replays : Bool) (h : Hub) → IsOpen h → IsOpen (subscribe job replays h).0
unfolding subscribe
subscribe-IsOpen job replays h v j = elim (Bool-cases (bytes_eq job j)) [
  | inl e ↦
      rw (get-put job j (h.next ∷ subscribers_of h job) h.subscribers, e)
        (rw (← (bytes_eq_iff job j).0 e) (
          Safe-new (subscribers_of h job) job h.heap h.next (v job) _
            (ground (arith, catch_up-closed (replay_of h job) fresh))
            (ground (arith, catch_up-job (replay_of h job) fresh))))
  | inr e ↦
      rw (get-put job j (h.next ∷ subscribers_of h job) h.subscribers, e)
        (Safe-grown (subscribers_of h j) j h.heap h.next (v j) _)
]
  where
    fresh : Subscriber
    fresh = record { job_id = job; send = []; closed = false }

-- `Unsubscribe` takes the subscriber out of its job and touches no other job.
subscribers_of-leave :
    (id : ℕ) (job j : Bytes) (h : Hub)
    → subscribers_of (leave id job h) j
      ≡ (if bytes_eq job j then without id (subscribers_of h j) else subscribers_of h j)
unfolding leave without
subscribers_of-leave id job j h = elim (Option-cases (Map.get job h.subscribers)) [
  | inl e ↦ rw (e, leave) (ground (arith, bytes_eq_iff job j))
  | inr (subs, e) ↦ elim (List-cases (without id subs)) [
    | inl w ↦ rw (e, leave, w) (ground (arith, bytes_eq_iff job j, get-remove job j h.subscribers))
    | inr (s, ss, w) ↦
        rw (e, leave, w) (ground (arith, bytes_eq_iff job j, get-put job j (s ∷ ss) h.subscribers))
  ]
]

heap-leave : (id : ℕ) (job : Bytes) (h : Hub) → (leave id job h).heap ≡ h.heap
unfolding leave
heap-leave id job h = ground arith

next-leave : (id : ℕ) (job : Bytes) (h : Hub) → (leave id job h).next ≡ h.next
unfolding leave
next-leave id job h = ground arith

pub unsubscribe-IsOpen : (id : ℕ) (h : Hub) → IsOpen h → IsOpen (unsubscribe id h)
unfolding unsubscribe
unsubscribe-IsOpen id h v j =
    rw (heap-leave id job h, next-leave id job h, subscribers_of-leave id job j h)
      (elim (Bool-cases (bytes_eq job j)) [
        | inl e ↦ rw e (Safe-without (subscribers_of h j) j h.heap h.next (v j) id _)
        | inr e ↦ rw e (
            Safe-apart (subscribers_of h j) j h.heap h.next (v j) id _
              (elim (Bool-cases (has id (subscribers_of h j))) [
                | inl m ↦ absurd (ground (arith, (v j).member id m, bytes_eq_iff job j))
                | inr m ↦ m
              ]))
      ])
  where
    job : Bytes
    job = (h.heap id).job_id

publish_locked-IsOpen :
    (job : Bytes) (ev : Event) (h : Hub) → IsOpen h → IsOpen (publish_locked job ev h).0
unfolding publish_locked
publish_locked-IsOpen job ev h v j = v j

-- What `deliver` does to the store: every recipient with room in its channel gets the event at the
-- end, nothing else changes.
abbrev pub Delivered : Event → List ℕ → Hub → Hub → Type 0
Delivered ev ids h h' =
    (h'.subscribers ≡ h.subscribers)
    × (h'.replay ≡ h.replay)
    × (h'.replay_size ≡ h.replay_size)
    × (h'.next ≡ h.next)
    × ((id : ℕ)
        → h'.heap id ≡ (
            if has id ids && ltb (length (h.heap id).send) send_size
            then record (h.heap id) { send = (h.heap id).send ++ ev ∷ [] }
            else h.heap id))

deliver-Delivered :
    (ev : Event) (ids : List ℕ) (h : Hub)
    → Nodup ids
    → ((id : ℕ) → has id ids ≡ true → (h.heap id).closed ≡ false)
    → (h' : Hub) × (deliver ev ids h ≡ some h') × Delivered ev ids h h'
unfolding deliver has
deliver-Delivered ev [] h d o = (h, refl, (refl, refl, refl, refl, λ id. refl))
deliver-Delivered ev (i ∷ ids) h d o =
    let s : Subscriber =
      if ltb (length (h.heap i).send) send_size
      then record (h.heap i) { send = (h.heap i).send ++ ev ∷ [] }
      else h.heap i in
    let g : Hub = record h { heap = update h.heap i s } in
    let got : offer ev (h.heap i) ≡ some s = unfold offer in ground (arith, o i) in
    let (h', eq, (a, b, c, n, all)) =
      deliver-Delivered ev ids g d.1 (λ id m. ground (arith, o id, d.0)) in
    (h', rw (got, deliver) eq, (a, b, c, n, λ id. ground (arith, all id, d.0)))

Delivered-IsOpen :
    (ev : Event) (ids : List ℕ) (h h' : Hub) → Delivered ev ids h h' → IsOpen h → IsOpen h'
Delivered-IsOpen ev ids h h' d v j = record {
  nodup = rw d.0 (v j).nodup;
  member = λ id m. ground (arith, (v j).member id (rw d.0 at m), d.4 id, d.3);
}

-- With the registered channels open, `Publish` does not panic: it returns, every subscriber of the
-- job that has room in its channel has the stamped event at the end of it, every other subscriber is
-- as before, and the registered channels are open again.
pub publish-Delivered :
    (job now : Bytes) (ev : Event) (h : Hub)
    → IsOpen h
    → (h' : Hub) × (publish job now ev h ≡ some h')
      × Delivered
          (stamp job now ev)
          (subscribers_of h job)
          (publish_locked job (stamp job now ev) h).0
          h'
      × IsOpen h'
unfolding publish publish_locked
publish-Delivered job now ev h v =
    let (h', eq, d) =
      deliver-Delivered (stamp job now ev) (subscribers_of h job)
        (publish_locked job (stamp job now ev) h).0 (v job).nodup
        (λ id m. ((v job).member id m).0) in
    (h', eq, d, Delivered-IsOpen (stamp job now ev) (subscribers_of h job) _ h' d v)

step-total : (h : Hub) (op : Op) → IsOpen h → (h' : Hub) × (step h op ≡ some h') × IsOpen h'
unfolding step
step-total h (joins job replays) v = (_, refl, subscribe-IsOpen job replays h v)
step-total h (leaves id) v = (_, refl, unsubscribe-IsOpen id h v)
step-total h (publishes job now ev) v =
    let (h', eq, d, v') = publish-Delivered job now ev h v in (h', eq, v')

-- No sequence of calls that do not overlap panics, and each leaves the channels of the registered
-- subscribers open: a subscriber that left, even twice, is never sent to.
pub run-total :
    (ops : List Op) (h : Hub) → IsOpen h → (h' : Hub) × (run h ops ≡ some h') × IsOpen h'
unfolding run
run-total [] h v = (h, refl, v)
run-total (op ∷ ops) h v =
    let (g, eq, v') = step-total h op v in
    let (h', eq', v'') = run-total ops g v' in (h', rw (eq, run) eq', v'')
