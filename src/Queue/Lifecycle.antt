-- ===== src/Queue/Lifecycle.antt =====
-- The life of a job: its status only moves forward, and the table, the channel and the workers agree.
use stackly.Base.{
  ℕ, ◌≤◌, ◌<◌, ◌≡◌, true, false, none, some, List, [], ◌∷◌, ◌++◌, Bytes, bytes_eq_iff, ltb, length,
  length-append, if◌then◌else◌, arith,
}
use stackly.Base.Map
use stackly.Base.Map.{Map, get-put, length-put, put-Distinct}
use stackly.Base.Keys.{has, without, Nodup, has-without, has-snoc, snoc-Nodup}
use stackly.Hub.{Hub, Event}
use stackly.Hub.Open.{IsOpen, publish-Delivered}
use stackly.Queue.{pending, running, Job, Queue, channel_size, publish, cleanup_locked}
use stackly.Queue.Worker.{update_job, started}
use stackly.Queue.Jobs.{
  status_of, allowed, allowed_refl, get-update_job, cases-allowed, length-update_job,
  update_job-Distinct, cleanup_locked-cases, cleanup_locked-Distinct, length-cleanup_locked-le,
}
use stackly.Queue.Steps.{World}

-- Each id stands once in a table that is not over its limit; what waits in the channel is pending,
-- each job once; what a worker holds is running.
pub record Good (jobs : Map Job) (channel working : List Bytes) (limit : ℕ) : Type 0 where
  pub distinct : Map.Distinct jobs
  pub bounded : length jobs ≤ limit
  pub once : Nodup channel
  pub room : length channel ≤ channel_size
  pub queued : (id : Bytes) → has id channel ≡ true → status_of id jobs ≡ some pending
  pub busy : (id : Bytes) → has id working ≡ true → status_of id jobs ≡ some running

abbrev pub IsGood : World → Type 0
IsGood w = Good w.queue.jobs w.queue.channel w.working w.queue.max_jobs

module _ (jobs : Map Job) (channel working : List Bytes) (limit : ℕ)
    (g : Good jobs channel working limit) where
  -- A new job goes into the table, and into the channel or not.
  pub Good-insert :
      (id : Bytes) (j : Job)
      → Map.get id jobs ≡ none
      → j.status ≡ pending
      → length jobs < limit
      → Good
          (Map.put id j jobs)
          (if ltb (length channel) channel_size then channel ++ id ∷ [] else channel)
          working
          limit
  Good-insert id j fresh new space = record {
    distinct = put-Distinct id j jobs g.distinct;
    bounded = ground (arith, length-put id j jobs);
    once = ground (arith, snoc-Nodup id channel, g.once, g.queued id);
    room = ground (arith, length-append channel (id ∷ []), g.room);
    queued = λ k h. ground (
      arith,
      get-put id k j jobs,
      has-snoc id k channel,
      bytes_eq_iff k id,
      bytes_eq_iff id k,
      g.queued k,
    );
    busy = λ k h. ground (arith, get-put id k j jobs, bytes_eq_iff id k, g.busy k h);
  }

  -- A worker lets go of a job.
  pub Good-end :
      (id : Bytes) (f : Job → Job)
      → has id working ≡ true
      → Good (update_job id f jobs) channel (without id working) limit
  Good-end id f h = record {
    distinct = update_job-Distinct id f jobs g.distinct;
    bounded = rw length-update_job g.bounded;
    once = g.once;
    room = g.room;
    queued = λ k m.
        ground (arith, get-update_job id k f jobs, g.queued k m, g.busy id h, bytes_eq_iff id k);
    busy = λ k m. ground (arith, get-update_job id k f jobs, g.busy k, has-without id k working);
  }

-- A worker takes the first job of the channel.
pub Good-begin :
    (jobs : Map Job) (id : Bytes) (rest working : List Bytes) (limit now : ℕ)
    → Good jobs (id ∷ rest) working limit
    → Good (update_job id (started now) jobs) rest (id ∷ working) limit
unfolding has
Good-begin jobs id rest working limit now g = record {
  distinct = update_job-Distinct id (started now) jobs g.distinct;
  bounded = rw length-update_job g.bounded;
  once = g.once.1;
  room = omega (arith, g.room);
  queued = λ k m. ground (
    arith,
    get-update_job id k (started now) jobs,
    g.queued k,
    bytes_eq_iff k id,
    bytes_eq_iff id k,
    g.once.0,
  );
  busy = λ k m. ground (
    arith,
    get-update_job id k (started now) jobs,
    g.queued k,
    g.busy k,
    bytes_eq_iff k id,
    bytes_eq_iff id k,
  );
}

Good-sweep :
    (now : ℕ) (q : Queue) (working : List Bytes)
    → Good q.jobs q.channel working q.max_jobs
    → Good (cleanup_locked now q).jobs q.channel working q.max_jobs
Good-sweep now q working g = record {
  distinct = cleanup_locked-Distinct now q g.distinct;
  bounded = omega (arith, length-cleanup_locked-le now q, g.bounded);
  once = g.once;
  room = g.room;
  queued = λ k m. ground (arith, cleanup_locked-cases now q k g.distinct, g.queued k m);
  busy = λ k m. ground (arith, cleanup_locked-cases now q k g.distinct, g.busy k m);
}

-- `Publish` changes the hub only.
pub publish-IsOpen :
    (id ts : Bytes) (ev : Event) (q : Queue)
    → IsOpen q.hub
    → (hub : Hub) × (publish id ts ev q ≡ some (record q { hub = hub })) × IsOpen hub
unfolding publish
publish-IsOpen id ts ev q v =
    let (hub, e, d, v') = publish-Delivered id ts ev q.hub v in (hub, rw (e, publish), v')

-- What a step may do to the table, `new` being the id that it may add.
pub record Advances (w w' : World) (new : List Bytes) : Type 0 where
  pub good : IsGood w'
  pub open_ : IsOpen w'.queue.hub
  pub moves : (id : Bytes) → allowed (status_of id w.queue.jobs) (status_of id w'.queue.jobs) ≡ true
  pub others :
      (id : Bytes)
      → Map.get id w.queue.jobs ≡ none
      → has id new ≡ false
      → Map.get id w'.queue.jobs ≡ none
  pub waits :
      (id : Bytes)
      → status_of id w.queue.jobs ≡ some pending
      → has id w.queue.channel ≡ false
      → has id new ≡ false
      → (status_of id w'.queue.jobs ≡ some pending) × (has id w'.queue.channel ≡ false)

pub stays : (w : World) (new : List Bytes) → IsGood w → IsOpen w.queue.hub → Advances w w new
stays w new g v = record {
  good = g;
  open_ = v;
  moves = λ id. allowed_refl _;
  others = λ id n h. n;
  waits = λ id p c h. (p, c);
}

-- A change of the hub that leaves it open.
pub hub-Advances :
    (w : World) (hub : Hub) (new : List Bytes)
    → IsGood w
    → IsOpen hub
    → Advances w (record w { queue = record w.queue { hub = hub } }) new
hub-Advances w hub new g v = record {
  good = g;
  open_ = v;
  moves = λ id. allowed_refl _;
  others = λ id n h. n;
  waits = λ id p c h. (p, c);
}

pub sweeps-Advances :
    (w : World) (now : ℕ) (new : List Bytes)
    → IsGood w
    → IsOpen w.queue.hub
    → Advances w (record w { queue = cleanup_locked now w.queue }) new
unfolding cleanup_locked
sweeps-Advances w now new g v = record {
  good = Good-sweep now w.queue w.working g;
  open_ = v;
  moves = λ id. cases-allowed _ _ (cleanup_locked-cases now w.queue id g.distinct);
  others = λ id n h. ground (arith, cleanup_locked-cases now w.queue id g.distinct);
  waits = λ id p c h. (ground (arith, cleanup_locked-cases now w.queue id g.distinct), c);
}
