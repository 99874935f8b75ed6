-- ===== src/Hub/Replay.antt =====
-- The replay buffer holds the last events of a job, and a late joiner gets them in order.
use stackly.Base.{
  ℕ, zero, suc, ◌+◌, ◌-◌, ◌≤◌, ◌≡◌, refl, ap, ◌∙◌, inl, inr, true, some, List, [], ◌∷◌, ◌++◌, Bytes,
  bytes_eq, bytes_eq_iff, ltb, length, length-append, length-drop, drop, if◌then◌else◌, Bool-cases,
  Option-cases, sym, arith, ==_iff,
}
use mathlib.Core.List.{append-nil, append_assoc}
use stackly.Base.Map
use stackly.Base.Map.{Map, get-put, get-remove}
use stackly.Hub.{
  Event, Subscriber, Hub, send_size, replay_of, last_n, catch_up, subscribe, stamp, publish_locked,
  offer, deliver, publish, new_hub, Op, joins, leaves, publishes, step, run,
}
use stackly.Base.Ids.{update}

module _ {ℓ} {A : Type ℓ} where
  drop-append : (n : ℕ) (xs ys : List A) → n ≤ length xs → drop n (xs ++ ys) ≡ drop n xs ++ ys
  drop-append zero xs ys h = refl
  drop-append (suc n) [] ys h = absurd (omega arith)
  drop-append (suc n) (x ∷ xs) ys h = drop-append n xs ys (omega arith)

  drop-drop : (m n p : ℕ) (xs : List A) → n + m ≡ p → drop m (drop n xs) ≡ drop p xs
  drop-drop m zero p xs h = let e : m ≡ p = omega arith in rw e
  drop-drop m (suc n) zero xs h = absurd (omega arith)
  drop-drop zero (suc n) (suc p) [] h = refl
  drop-drop (suc m) (suc n) (suc p) [] h = refl
  drop-drop m (suc n) (suc p) (x ∷ xs) h = drop-drop m n p xs (omega arith)

  length-last_n-le : (n : ℕ) (xs : List A) → length (last_n n xs) ≤ n
  length-last_n-le n xs = omega (arith, length-drop (length xs - n) xs)

  last_n-all : (n : ℕ) (xs : List A) → length xs ≤ n → last_n n xs ≡ xs
  last_n-all n xs h = let e : length xs - n ≡ 0 = omega arith in rw e

  -- Cutting a buffer before more entries come changes nothing.
  last_n-append : (n : ℕ) (xs ys : List A) → last_n n (last_n n xs ++ ys) ≡ last_n n (xs ++ ys)
  last_n-append n xs ys = rw (← drop-append (length xs - n) xs ys (omega arith)) (
      drop-drop _ (length xs - n) (length (xs ++ ys) - n) (xs ++ ys)
        (omega (arith, length-append xs ys, length-drop (length xs - n) (xs ++ ys))))

deliver-replay :
    (ev : Event) (ids : List ℕ) (h h' : Hub)
    → deliver ev ids h ≡ some h'
    → (h'.replay ≡ h.replay) × (h'.replay_size ≡ h.replay_size)
unfolding deliver
deliver-replay ev [] h h' e = (ground arith, ground arith)
deliver-replay ev (id ∷ ids) h h' e = elim (Option-cases (offer ev (h.heap id))) [
  | inl n ↦ cc (rw (n, deliver) at e)
  | inr (s, n) ↦
      deliver-replay ev ids (record h { heap = update h.heap id s }) h' (rw (n, deliver) at e)
]

-- What is published for a job, stamped, in the order of the calls.
abbrev pub published : Bytes → List Op → List Event
published job [] = []
published job (publishes j now ev ∷ ops) =
    if bytes_eq j job then stamp j now ev ∷ published job ops else published job ops
published job (op ∷ ops) = published job ops

-- No call is `Unsubscribe`, which may drop a buffer.
abbrev pub NoLeaves : List Op → Type 0
NoLeaves [] = Unit
NoLeaves (leaves id ∷ ops) = ⊥
NoLeaves (op ∷ ops) = NoLeaves ops

replay-publish_locked :
    (j job : Bytes) (ev : Event) (h : Hub)
    → replay_of (publish_locked j ev h).0 job ≡ (
        if bytes_eq j job
        then last_n h.replay_size (replay_of h job ++ ev ∷ [])
        else replay_of h job)
unfolding publish_locked
replay-publish_locked j job ev h = elim (Bool-cases (bytes_eq j job)) [
  | inr e ↦ rw (get-put j job _ h.replay, e)
  | inl e ↦
      rw (get-put j job _ h.replay, e, (bytes_eq_iff j job).0 e)
        (elim (Bool-cases (ltb h.replay_size (length (replay_of h job ++ ev ∷ [])))) [
          | inl b ↦ rw b
          | inr b ↦ rw b (sym (last_n-all h.replay_size _ (ground arith)))
        ])
]

pub publish-replay :
    (j job now : Bytes) (ev : Event) (h h' : Hub)
    → publish j now ev h ≡ some h'
    → (replay_of h' job ≡ (
        if bytes_eq j job
        then last_n h.replay_size (replay_of h job ++ stamp j now ev ∷ [])
        else replay_of h job))
      × (h'.replay_size ≡ h.replay_size)
unfolding publish
publish-replay j job now ev h h' e =
    let (same, size) =
      deliver-replay (stamp j now ev) _ (publish_locked j (stamp j now ev) h).0 h' e in
    (
      rw same (replay-publish_locked j job (stamp j now ev) h),
      size ∙ (unfold publish_locked in refl),
    )

replay-fits :
    (j job : Bytes) (ev : Event) (h : Hub)
    → length (replay_of h job) ≤ h.replay_size
    → length (
        if bytes_eq j job
        then last_n h.replay_size (replay_of h job ++ ev ∷ [])
        else replay_of h job)
      ≤ h.replay_size
replay-fits j job ev h b = elim (Bool-cases (bytes_eq j job)) [
  | inl q ↦ rw q (length-last_n-le h.replay_size (replay_of h job ++ ev ∷ []))
  | inr q ↦ rw q b
]

replay-next :
    (j job : Bytes) (n : ℕ) (buf : List Event) (ev : Event) (evs : List Event)
    → last_n n ((if bytes_eq j job then last_n n (buf ++ ev ∷ []) else buf) ++ evs)
      ≡ last_n n (buf ++ (if bytes_eq j job then ev ∷ evs else evs))
replay-next j job n buf ev evs = elim (Bool-cases (bytes_eq j job)) [
  | inl q ↦
      rw q (last_n-append n (buf ++ ev ∷ []) evs ∙ ap (last_n n) (append_assoc buf (ev ∷ []) evs))
  | inr q ↦ rw q
]

-- After calls that may publish for any job and subscribe, the buffer of a job holds the last events
-- published for it, after what it held before, and never more than `replay_size`.
pub replay-run :
    (job : Bytes) (ops : List Op) (h h' : Hub)
    → NoLeaves ops
    → length (replay_of h job) ≤ h.replay_size
    → run h ops ≡ some h'
    → (replay_of h' job ≡ last_n h.replay_size (replay_of h job ++ published job ops))
      × (h'.replay_size ≡ h.replay_size)
unfolding run step subscribe
replay-run job [] h h' n b e =
    (rw append-nil (ground (arith, last_n-all h.replay_size (replay_of h job) b)), ground arith)
replay-run job (joins j r ∷ ops) h h' n b e = replay-run job ops (subscribe j r h).0 h' n b e
replay-run job (leaves id ∷ ops) h h' n b e = absurd n
replay-run job (publishes j now ev ∷ ops) h h' n b e = elim (Option-cases (publish j now ev h)) [
  | inl f ↦ cc (rw (f, run, step) at e)
  | inr (g, f) ↦
      let (same, size) = publish-replay j job now ev h g f in
      let fits : length (replay_of g job) ≤ g.replay_size =
        rw (size, same) (replay-fits j job _ h b) in
      let rest = replay-run job ops g h' n fits (rw (f, run, step) at e) in
      (
        rest.0
            ∙ rw (size, same)
                (replay-next j job h.replay_size (replay_of h job) (stamp j now ev)
                  (published job ops)),
        rest.1 ∙ size,
      )
]

catch_up-send :
    (evs : List Event) (s : Subscriber)
    → length s.send + length evs ≤ send_size
    → (catch_up evs s).send ≡ s.send ++ evs
unfolding catch_up
catch_up-send [] s h = sym (append-nil s.send)
catch_up-send (ev ∷ evs) s h =
    let room : ltb (length s.send) send_size ≡ true = ground arith in
    rw (room, catch_up)
      (catch_up-send evs (record s { send = s.send ++ ev ∷ [] })
          (omega (arith, length-append s.send (ev ∷ [])))
        ∙ append_assoc s.send (ev ∷ []) evs)

-- A subscriber that joins a fresh hub late, after any calls but `Unsubscribe`, finds in its channel
-- the last 32 events that were published for its job, in order.
pub late_joiner :
    (job : Bytes) (ops : List Op) (h : Hub)
    → NoLeaves ops
    → run new_hub ops ≡ some h
    → let (h', id) = subscribe job true h in (h'.heap id).send ≡ last_n 32 (published job ops)
unfolding subscribe new_hub Map.get
late_joiner job ops h n e =
    let (buf, size) = replay-run job ops new_hub h n (omega arith) e in
    rw ((==_iff h.next h.next).1 refl) (
      catch_up-send (replay_of h job) _
        (rw buf (omega (arith, length-last_n-le 32 (published job ops))))
      ∙ buf)
