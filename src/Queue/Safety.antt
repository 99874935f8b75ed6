-- ===== src/Queue/Safety.antt =====
-- What holds of the queue over any interleaving of its steps.
use stackly.Base.{
  ◌≡◌, refl, inl, inr, true, false, none, some, List, [], ◌∷◌, Bytes, bytes_eq_iff, bytes_eq_refl,
  Bool-cases, arith,
}
use stackly.Base.Map
use stackly.Base.Keys.{has, Nodup}
use stackly.Hub.Open.{IsOpen, subscribe-IsOpen, unsubscribe-IsOpen}
use stackly.Queue.{pending}
use stackly.Queue.Jobs.{status_of}
use stackly.Queue.Steps.{
  World, Op, enqueues, picks, looks_up, hits, scans, sweeps, joins, leaves, step, run,
}
use stackly.Queue.Lifecycle.{IsGood, Advances, hub-Advances, sweeps-Advances}
use stackly.Queue.Moves.{
  enqueue-Advances, picks-Advances, looks_up-Advances, hits-Advances, scans-Advances,
}

-- The id that a step may add.
abbrev pub new_of : Op → List Bytes
new_of (enqueues url id now ts) = id ∷ []
new_of op = []

abbrev pub IsFresh : World → List Bytes → Type 0
IsFresh w ids = (id : Bytes) → has id ids ≡ true → Map.get id w.queue.jobs ≡ none

abbrev pub new_ids : List Op → List Bytes
new_ids [] = []
new_ids (enqueues url id now ts ∷ ops) = id ∷ new_ids ops
new_ids (op ∷ ops) = new_ids ops

split-IsFresh :
    (op : Op) (ops : List Op) (w : World)
    → Nodup (new_ids (op ∷ ops))
    → IsFresh w (new_ids (op ∷ ops))
    → IsFresh w (new_of op)
      × Nodup (new_ids ops)
      × ((id : Bytes)
          → has id (new_ids ops) ≡ true
          → (has id (new_of op) ≡ false) × (Map.get id w.queue.jobs ≡ none))
unfolding has
split-IsFresh (enqueues url id now ts) ops w n f = (
  (λ k h. f k (ground arith)),
  n.1,
  λ k h. (ground (arith, n.0, bytes_eq_iff k id), f k (ground arith)),
)
split-IsFresh op ops w n f = ((λ k h. cc), n, λ k h. (refl, f k h))

module _ (sha256 : Bytes → Bytes) where
  -- From a good world whose hub has its registered channels open, a step that enqueues no id of the
  -- table returns, in such a world again: each status stays or goes from pending to running, from
  -- running to completed or failed, from either of these out of the table, or starts as pending.
  pub step-Advances :
      (w : World) (op : Op)
      → IsGood w
      → IsOpen w.queue.hub
      → IsFresh w (new_of op)
      → (w' : World) × (step sha256 w op ≡ some w') × Advances w w' (new_of op)
  unfolding step has
  step-Advances w (enqueues url id now ts) g v f =
      let (q, e, eq, a) =
        enqueue-Advances w url id now ts g v (f id (ground (arith, bytes_eq_refl id))) in
      (record w { queue = q }, rw (eq, step), a)
  step-Advances w (picks now ts) g v f = picks-Advances sha256 w [] g v now ts
  step-Advances w (looks_up url now) g v f = looks_up-Advances sha256 w [] g v url now
  step-Advances w (hits id e now) g v f = hits-Advances sha256 w [] g v id e now
  step-Advances w (scans id url o) g v f = scans-Advances sha256 w [] g v id url o
  step-Advances w (sweeps now) g v f = (_, refl, sweeps-Advances w now [] g v)
  step-Advances w (joins job replays) g v f =
      (_, refl, hub-Advances w _ [] g (subscribe-IsOpen job replays w.queue.hub v))
  step-Advances w (leaves sub) g v f =
      (_, refl, hub-Advances w _ [] g (unsubscribe-IsOpen sub w.queue.hub v))

  -- Any run that enqueues distinct new ids returns, whoever joins and leaves between its steps, and ends
  -- in a good world with an open hub: the table is within its limit, waiting jobs are pending and held
  -- jobs are running.
  pub run-IsGood :
      (ops : List Op) (w : World)
      → IsGood w
      → IsOpen w.queue.hub
      → Nodup (new_ids ops)
      → IsFresh w (new_ids ops)
      → (w' : World) × (run sha256 w ops ≡ some w') × IsGood w' × IsOpen w'.queue.hub
  unfolding run has
  run-IsGood [] w g v n f = (w, refl, g, v)
  run-IsGood (op ∷ ops) w g v n f =
      let (now_fresh, rest, later) = split-IsFresh op ops w n f in
      let (w1, e, a) = step-Advances w op g v now_fresh in
      let (w', e', g', v') =
        run-IsGood ops w1 a.good a.open_ rest (λ id h. a.others id (later id h).1 (later id h).0) in
      (w', rw (e, run) e', g', v')

  -- A job that is pending and not in the channel, as when the channel was full while it was
  -- enqueued, is never run: whatever the workers, the sweeps, the sockets and later calls of `Enqueue`
  -- do, it stays in the table as pending.
  pub run_strands :
      (ops : List Op) (w w' : World) (id : Bytes)
      → IsGood w
      → IsOpen w.queue.hub
      → Nodup (new_ids ops)
      → IsFresh w (new_ids ops)
      → status_of id w.queue.jobs ≡ some pending
      → has id w.queue.channel ≡ false
      → run sha256 w ops ≡ some w'
      → status_of id w'.queue.jobs ≡ some pending
  unfolding run
  run_strands [] w w' id g v n f p c e = ground arith
  run_strands (op ∷ ops) w w' id g v n f p c e =
      let (now_fresh, rest, later) = split-IsFresh op ops w n f in
      let (w1, e1, a) = step-Advances w op g v now_fresh in
      let known : has id (new_of op) ≡ false = elim (Bool-cases (has id (new_of op))) [
        | inl h ↦ absurd (ground (arith, now_fresh id h, p))
        | inr h ↦ h
      ] in
      let (p1, c1) = a.waits id p c known in
      run_strands ops w1 w' id a.good a.open_ rest (λ k h. a.others k (later k h).1 (later k h).0)
        p1 c1 (rw (e1, run) at e)
