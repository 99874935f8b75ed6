-- ===== src/Queue/Moves.antt =====
-- Every step of the queue keeps the table good and moves each status forward; so does every run.
use stackly.Base.{
  ℕ, ◌<◌, ◌≡◌, refl, subst, inl, inr, true, false, none, some, List, [], ◌∷◌, Bytes, text, bytes_eq,
  bytes_eq_iff, bytes_eq_refl, leb, length, Bool-cases, Option-cases, List-cases, arith,
}
use stackly.Base.Map
use stackly.Base.Map.{Map, get-put}
use stackly.Base.Keys.{has, without, has-snoc}
use stackly.Scan.{ScanResult}
use stackly.Cache.{Entry}
use stackly.Hub.{Hub}
use stackly.Hub.Open.{IsOpen}
use stackly.Queue.{
  Status, Enqueued, queued, queue_full, running, completed, failed, Job, Queue, new_job, insert_job,
  make_room, admit, enqueue, progress_event,
}
use stackly.Queue.Worker.{
  Outcome, update_job, started, take_job, begin, finished_cached, finished_completed,
  finished_failed, finish_cached, finish_scan, lookup_cache, terminal_event, record_outcome,
}
use stackly.Queue.Jobs.{status_of, allowed, allowed_refl, get-update_job, update_job-allowed}
use stackly.Queue.Steps.{World, Op, picks, looks_up, hits, scans, step}
use stackly.Queue.Lifecycle.{
  Good, IsGood, Good-insert, Good-begin, Good-end, Advances, publish-IsOpen, stays, sweeps-Advances,
}

make_room-Advances :
    (w : World) (now : ℕ) (new : List Bytes)
    → IsGood w
    → IsOpen w.queue.hub
    → Advances w (record w { queue = make_room now w.queue }) new
unfolding make_room
make_room-Advances w now new g v = elim (Bool-cases (leb w.queue.max_jobs (length w.queue.jobs))) [
  | inl b ↦ rw (b, make_room) (sweeps-Advances w now new g v)
  | inr b ↦ rw (b, make_room) (stays w new g v)
]

-- A new job is added to a table that another step came to.
insert-Advances :
    (w r : World) (id url : Bytes) (now : ℕ) (hub : Hub)
    → Advances w r (id ∷ [])
    → Map.get id w.queue.jobs ≡ none
    → Map.get id r.queue.jobs ≡ none
    → length r.queue.jobs < r.queue.max_jobs
    → IsOpen hub
    → Advances w
        (record r { queue = record (insert_job (new_job id url now) r.queue) { hub = hub } })
        (id ∷ [])
unfolding insert_job has
insert-Advances w r id url now hub a n m space v = record {
  good =
      Good-insert r.queue.jobs r.queue.channel r.working r.queue.max_jobs a.good id
        (new_job id url now) m refl space;
  open_ = v;
  moves = λ k. elim (Bool-cases (bytes_eq id k)) [
    | inl b ↦
        rw (get-put id k (new_job id url now) r.queue.jobs, b, ← (bytes_eq_iff id k).0 b, n)
          (unfold allowed in refl)
    | inr b ↦ rw (get-put id k (new_job id url now) r.queue.jobs, b) (a.moves k)
  ];
  others = λ k h f. ground (
    arith,
    get-put id k (new_job id url now) r.queue.jobs,
    a.others k h f,
    bytes_eq_iff id k,
    bytes_eq_iff k id,
  );
  waits = λ k p c f.
      let h = a.waits k p c f in
      (
        ground (
          arith,
          get-put id k (new_job id url now) r.queue.jobs,
          h.0,
          bytes_eq_iff id k,
          bytes_eq_iff k id,
        ),
        ground (arith, has-snoc id k r.queue.channel, h.1),
      );
}

admit-Advances :
    (w r : World) (url id : Bytes) (now : ℕ) (ts : Bytes)
    → Advances w r (id ∷ [])
    → Map.get id w.queue.jobs ≡ none
    → Map.get id r.queue.jobs ≡ none
    → (q : Queue) × (e : Enqueued) × (admit url id now ts r.queue ≡ some (q, e))
      × Advances w (record r { queue = q }) (id ∷ [])
unfolding admit
admit-Advances w r url id now ts a n fresh =
    elim (Bool-cases (leb r.queue.max_jobs (length r.queue.jobs))) [
      | inl b ↦ (r.queue, queue_full, rw (b, admit), a)
      | inr b ↦
          let (hub, e, o) =
            publish-IsOpen id ts (progress_event (text "pending") 0 (text "Queued for scan"))
              (insert_job (new_job id url now) r.queue) (unfold insert_job in a.open_) in
          (
            record (insert_job (new_job id url now) r.queue) { hub = hub },
            queued (new_job id url now),
            rw (b, admit) (rw e),
            insert-Advances w r id url now hub a n fresh (ground arith) o,
          )
    ]

-- `Enqueue` with a new id returns: it adds the job or reports that the queue is full.
pub enqueue-Advances :
    (w : World) (url id : Bytes) (now : ℕ) (ts : Bytes)
    → IsGood w
    → IsOpen w.queue.hub
    → Map.get id w.queue.jobs ≡ none
    → (q : Queue) × (e : Enqueued) × (enqueue url id now ts w.queue ≡ some (q, e))
      × Advances w (record w { queue = q }) (id ∷ [])
unfolding enqueue
enqueue-Advances w url id now ts g v n =
    let a = make_room-Advances w now (id ∷ []) g v in
    let bare = make_room-Advances w now [] g v in
    admit-Advances w (record w { queue = make_room now w.queue }) url id now ts a n
      (bare.others id n (unfold has in refl))

ends-Advances :
    (w : World) (id : Bytes) (f : Job → Job) (t : Status) (q : Queue) (new : List Bytes)
    → IsGood w
    → has id w.working ≡ true
    → ((j : Job) → (f j).status ≡ t)
    → allowed (some running) (some t) ≡ true
    → q.jobs ≡ update_job id f w.queue.jobs
    → q.channel ≡ w.queue.channel
    → q.max_jobs ≡ w.queue.max_jobs
    → IsOpen q.hub
    → Advances w (record { queue = q; working = without id w.working }) new
ends-Advances w id f t q new g h to ok e c m v = record {
  good = rw (e, c, m) (Good-end w.queue.jobs w.queue.channel w.working w.queue.max_jobs g id f h);
  open_ = v;
  moves = λ k. rw e (update_job-allowed id k f t w.queue.jobs to (rw (g.busy id h) ok));
  others = λ k n b. rw (e, get-update_job id k f w.queue.jobs, n) (ground arith);
  waits = λ k p b u. (
    rw (e, get-update_job id k f w.queue.jobs) (ground (arith, p, g.busy id h, bytes_eq_iff id k)),
    rw c b,
  );
}

-- A step that leaves the table, the channel and the hub alone.
kept-Advances :
    (w : World) (q : Queue) (new : List Bytes)
    → IsGood w
    → IsOpen w.queue.hub
    → q.jobs ≡ w.queue.jobs
    → q.channel ≡ w.queue.channel
    → q.max_jobs ≡ w.queue.max_jobs
    → q.hub ≡ w.queue.hub
    → Advances w (record w { queue = q }) new
kept-Advances w q new g v j c m h = record {
  good = rw (j, c, m) g;
  open_ = rw h v;
  moves = λ k. rw j (allowed_refl (status_of k w.queue.jobs));
  others = λ k n b. rw j n;
  waits = λ k p b f. (rw j p, rw c b);
}

-- The end of a scan: the error decides between the two ends.
record_outcome-Advances :
    (sha256 : Bytes → Bytes) (w : World) (id url : Bytes) (o : Outcome) (hub : Hub)
    (new : List Bytes)
    → IsGood w
    → IsOpen hub
    → has id w.working ≡ true
    → Advances w
        (record {
          queue = record_outcome sha256 id url o (record w.queue { hub = hub });
          working = without id w.working;
        })
        new
unfolding record_outcome
record_outcome-Advances sha256 w id url o hub new g v b = elim (Option-cases o.result.error) [
  | inl e ↦
      rw (e, record_outcome)
        (ends-Advances w id (finished_completed o) completed _ new g b (λ j. refl)
          (unfold allowed in refl) refl refl refl v)
  | inr (t, e) ↦
      rw (e, record_outcome)
        (ends-Advances w id (finished_failed o t) failed _ new g b (λ j. refl)
          (unfold allowed in refl) refl refl refl v)
]

module _ (sha256 : Bytes → Bytes) (w : World) (new : List Bytes) (g : IsGood w)
    (v : IsOpen w.queue.hub) where
  abbrev pub Steps : Op → Type 0
  Steps op = (w' : World) × (step sha256 w op ≡ some w') × Advances w w' new

  pub picks-Advances : (now : ℕ) (ts : Bytes) → Steps (picks now ts)
  unfolding step begin
  picks-Advances now ts = elim (List-cases w.queue.channel) [
    | inl e ↦
        let t : take_job w.queue ≡ none = unfold take_job in ground arith in
        (w, rw (t, step), stays w new g v)
    | inr (id, rest, e) ↦
        let t : take_job w.queue ≡ some (id, record w.queue { channel = rest }) =
          unfold take_job in ground arith in
        let (hub, p, o) =
          publish-IsOpen id ts (progress_event (text "running") 10 (text "Worker picked up job"))
            (record w.queue { channel = rest; jobs = update_job id (started now) w.queue.jobs })
            v in
        (
          record {
            queue = record w.queue {
              channel = rest;
              jobs = update_job id (started now) w.queue.jobs;
              hub = hub;
            };
            working = id ∷ w.working;
          },
          rw (t, step) (rw p),
          record {
            good =
                Good-begin w.queue.jobs id rest w.working w.queue.max_jobs now
                  (subst (λ c. Good w.queue.jobs c w.working w.queue.max_jobs) e g);
            open_ = o;
            moves = λ k.
                update_job-allowed id k (started now) running w.queue.jobs (λ j. refl)
                  (rw (g.queued id (rw e (unfold has in ground (arith, bytes_eq_refl id))))
                    (unfold allowed in refl));
            others = λ k n b. rw (get-update_job id k (started now) w.queue.jobs, n) (ground arith);
            waits = λ k p b f.
                let apart : (bytes_eq k id ≡ false) × (has k rest ≡ false) =
                  unfold has in ground (arith, rw e at b) in
                (
                  rw (get-update_job id k (started now) w.queue.jobs)
                      (ground (arith, p, apart, bytes_eq_iff id k, bytes_eq_iff k id)),
                  apart.1,
                );
          },
        )
  ]

  pub looks_up-Advances : (url : Bytes) (now : ℕ) → Steps (looks_up url now)
  unfolding step lookup_cache
  looks_up-Advances url now =
      let q = (lookup_cache sha256 url now w.queue).0 in
      (
        record w { queue = q },
        refl,
        kept-Advances w q new g v (ground arith) (ground arith) (ground arith) (ground arith),
      )

  pub hits-Advances : (id : Bytes) (e : Entry ScanResult) (now : ℕ) → Steps (hits id e now)
  unfolding step
  hits-Advances id e now = elim (Bool-cases (has id w.working)) [
    | inr b ↦ (w, rw (b, step), stays w new g v)
    | inl b ↦ (
      record { queue = finish_cached id e now w.queue; working = without id w.working },
      rw (b, step),
      unfold finish_cached in
          (ends-Advances w id (finished_cached e now) completed _ new g b (λ j. refl)
            (unfold allowed in refl) refl refl refl v),
    )
  ]

  pub scans-Advances : (id url : Bytes) (o : Outcome) → Steps (scans id url o)
  unfolding step finish_scan
  scans-Advances id url o = elim (Bool-cases (has id w.working)) [
    | inr b ↦ (w, rw (b, step), stays w new g v)
    | inl b ↦
        let (hub, p, q) = publish-IsOpen id o.ts (terminal_event o.result) w.queue v in
        (
          record {
            queue = record_outcome sha256 id url o (record w.queue { hub = hub });
            working = without id w.working;
          },
          rw (b, step) (rw (p, finish_scan)),
          record_outcome-Advances sha256 w id url o hub new g q b,
        )
  ]
