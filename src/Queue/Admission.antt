-- ===== src/Queue/Admission.antt =====
-- What Enqueue answers, on each of its branches.
use stackly.Base.{
  ℕ, ◌≤◌, ◌≡◌, refl, ◌⊎◌, inl, inr, some, [], ◌∷◌, ◌++◌, Bytes, text, bytes_eq_refl, ltb, leb,
  length, if◌then◌else◌, Bool-cases, arith,
}
use stackly.Base.Map.{get-put, length-put}
use stackly.Hub.{Event}
use stackly.Hub.Open.{IsOpen, publish-Delivered}
use stackly.Queue.{
  Queue, Enqueued, queued, queue_full, channel_size, new_job, insert_job, publish, make_room,
  cleanup_locked, admit, enqueue, get_job, progress_event,
}

-- The two answers of `Enqueue`, after it has tried to make room: full, with nothing added; or the new
-- job, which stands in the table, pending, and in the channel if that had room, with a table still
-- within its limit.
abbrev pub Answers : Queue → Bytes → Bytes → ℕ → Queue → Enqueued → Type 0
Answers r url id now q e =
    ((e ≡ queue_full) × (q ≡ r) × (r.max_jobs ≤ length r.jobs))
    ⊎ ((e ≡ queued (new_job id url now))
        × (get_job id q ≡ some (new_job id url now))
        × (length q.jobs ≤ q.max_jobs)
        × (q.channel
            ≡ (if ltb (length r.channel) channel_size then r.channel ++ id ∷ [] else r.channel)))

hub-make_room : (now : ℕ) (q : Queue) → (make_room now q).hub ≡ q.hub
unfolding make_room cleanup_locked
hub-make_room now q = ground arith

-- With the hub's registered channels open, `Enqueue` returns one of its two answers.
pub enqueue-Answers :
    (url id : Bytes) (now : ℕ) (ts : Bytes) (q : Queue)
    → IsOpen q.hub
    → (q' : Queue) × (e : Enqueued) × (enqueue url id now ts q ≡ some (q', e))
      × Answers (make_room now q) url id now q' e
unfolding enqueue
enqueue-Answers url id now ts q v = elim (Bool-cases (leb r.max_jobs (length r.jobs))) [
  | inl b ↦ (r, queue_full, unfold admit in rw (b, admit), inl (refl, refl, ground arith))
  | inr b ↦
      let (hub, e, _, _) = publish-Delivered id ts event r.hub (rw (hub-make_room now q) v) in
      let p : publish id ts event (insert_job (new_job id url now) r)
          ≡ some (record (insert_job (new_job id url now) r) { hub = hub }) =
        unfold publish insert_job in rw (e, publish) in
      (
        record (insert_job (new_job id url now) r) { hub = hub },
        queued (new_job id url now),
        unfold admit in rw (b, admit) (rw p),
        inr (
          refl,
          (unfold get_job insert_job in
              rw (get-put id id (new_job id url now) r.jobs, bytes_eq_refl id)),
          (unfold insert_job in ground (arith, length-put id (new_job id url now) r.jobs)),
          (unfold insert_job in refl),
        ),
      )
]
  where
    r : Queue
    r = make_room now q

    event : Event
    event = progress_event (text "pending") 0 (text "Queued for scan")
