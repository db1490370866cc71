-- ===== src/Jobs/Pending.antt =====
-- `JobQueue.enqueue` and `stats` (backend/synqc_backend/jobs.py): the limit on pending jobs with and
-- without another thread between the sections.
use syn_qc_temporal_dynamics.Prelude.{
  ℕ, ◌+◌, ◌≤◌, ◌<◌, String, str_eq, eq_iff, true, false, none, some, [], ◌∷◌, ◌≡◌, refl, ◌⊎◌, arith,
  ok, raise, length, Bool-cases, inl, inr, ltb,
}
use syn_qc_temporal_dynamics.Dict.{Dict, get, pop, get-put, get-put_ne, get-pop, Unique}
use syn_qc_temporal_dynamics.Dict.Tally.{tally, tally-put}
use syn_qc_temporal_dynamics.Models.{RunExperimentRequest}
use syn_qc_temporal_dynamics.Jobs.Records.{
  queued, succeeded, failed, JobRecord, new_record, is_active, is_running,
}
use syn_qc_temporal_dynamics.Jobs.{
  pending, JobQueue, active, admit, insert, submit, enqueue, shutdown, cancel_all,
}
use syn_qc_temporal_dynamics.Jobs.Statistics.{stats, count_status}
use syn_qc_temporal_dynamics.Jobs.Failures.{cancel_all-Unique}

module _ (Real : Type 0) (id : String) (now : ℕ) (req : RunExperimentRequest Real) where
  active-insert :
      (q : JobQueue Real)
      → get id q.jobs ≡ none
      → active Real (insert Real id now req q).jobs ≡ active Real q.jobs + 1
  unfolding active insert new_record
  active-insert q n =
      ground (arith, n, tally-put (λ r. is_active r.status) id (new_record id now req) q.jobs)

  -- What an accepted job leaves: a queued record with a pending future, and one more active job.
  pub Accepted : JobQueue Real → JobQueue Real → Type 0
  Accepted q q' =
      (get id q'.jobs ≡ some (new_record id now req))
      × (get id q'.futures ≡ some pending)
      × (active Real q'.jobs ≡ active Real q.jobs + 1)
      × (active Real q'.jobs ≤ q'.max_pending)

  module _ (q : JobQueue Real) (new : get id q.jobs ≡ none) where
    accepted :
        q.is_shutdown ≡ false
        → q.executor_closed ≡ false
        → active Real q.jobs < q.max_pending
        → let r = enqueue Real id now req q in (r.1 ≡ ok id) × Accepted q r.0
    unfolding enqueue Accepted
    accepted s open_ room = ground (
      arith,
      eq_iff id id,
      get-put id id (new_record id now req) q.jobs,
      get-put id id pending (pop id q.futures),
      active-insert q new,
    )

    -- With no thread between its sections, where the executor takes tasks until the queue is shut
    -- down, `enqueue` does one of three things. It accepts a job with a new id only if the queue is
    -- open and has room: the job is queued with a pending future, it is one more active job, and
    -- the limit still holds. A queue that is shut down refuses it, and so does an open one that is
    -- full, each with its own message and without any change.
    pub enqueue_decides :
        (q.is_shutdown ≡ false → q.executor_closed ≡ false)
        → let r = enqueue Real id now req q in
          ((q.is_shutdown ≡ false)
            × (active Real q.jobs < q.max_pending)
            × (r.1 ≡ ok id)
            × Accepted q r.0)
          ⊎ ((q.is_shutdown ≡ true)
              × (r ≡ (q, raise "JobQueue is shutting down; cannot enqueue new jobs")))
          ⊎ ((q.is_shutdown ≡ false)
              × (q.max_pending ≤ active Real q.jobs)
              × (r ≡ (q, raise "Queue is full; try again later")))
    enqueue_decides open_ = elim (Bool-cases q.is_shutdown) [
      | inl s ↦ inr (inl (s, unfold enqueue in ground (arith, s)))
      | inr s ↦ elim (Bool-cases (ltb (active Real q.jobs) q.max_pending)) [
        | inl room ↦
            let h : active Real q.jobs < q.max_pending = ground (arith, room) in
            let r = accepted s (open_ s) h in inl (s, h, r.0, r.1)
        | inr full ↦
            let h : q.max_pending ≤ active Real q.jobs = ground (arith, full) in
            inr (inr (s, h, unfold enqueue in ground (arith, s, h)))
      ]
    ]

    -- A thread that was admitted before a shutdown and inserts after it gets an exception from the
    -- executor, and leaves behind a queued record with no future: a job that nothing will ever run.
    pub enqueue_stranded :
        Unique q.futures
        → let q' = insert Real id now req (shutdown Real q) in
          ((submit Real id q').1 ≡ raise "cannot schedule new futures after shutdown")
          × (get id (submit Real id q').0.jobs ≡ some (new_record id now req))
          × (get id (submit Real id q').0.futures ≡ none)
    unfolding submit insert shutdown
    enqueue_stranded u = ground (
      arith,
      eq_iff id id,
      get-put id id (new_record id now req) q.jobs,
      get-pop id id (cancel_all Real q.futures) (cancel_all-Unique Real q.futures u),
    )

module _ (Real : Type 0) (q : JobQueue Real) where
  -- The check and the insertion are two sections of the lock: at one free place two threads are
  -- both admitted, both insert, and the limit is passed.
  pub enqueue_race :
      (id id' : String) (now now' : ℕ) (req req' : RunExperimentRequest Real)
      → str_eq id id' ≡ false
      → get id q.jobs ≡ none
      → get id' q.jobs ≡ none
      → q.is_shutdown ≡ false
      → active Real q.jobs + 1 ≡ q.max_pending
      → (admit Real q ≡ ok tt)
        × (q.max_pending < active Real (insert Real id' now' req' (insert Real id now req q)).jobs)
  unfolding admit
  enqueue_race id id' now now' req req' ne n n' s room = ground (
    arith,
    active-insert Real id now req q n,
    active-insert Real id' now' req' (insert Real id now req q) fresh,
  )
    where
      fresh : get id' (insert Real id now req q).jobs ≡ none
      fresh = unfold insert in rw (get-put_ne id id' (new_record id now req) q.jobs ne) n'

  tally_statuses :
      (jobs : Dict (JobRecord Real))
      → count_status Real (λ s. elim s [ queued ↦ true | _ ↦ false ]) jobs
          + count_status Real is_running jobs
          + count_status Real (λ s. elim s [ succeeded ↦ true | _ ↦ false ]) jobs
          + count_status Real (λ s. elim s [ failed ↦ true | _ ↦ false ]) jobs
        ≡ length jobs
  unfolding count_status tally
  tally_statuses [] = refl
  tally_statuses ((k, r) ∷ jobs) = ground (arith, tally_statuses jobs)

  active_statuses :
      (jobs : Dict (JobRecord Real))
      → count_status Real (λ s. elim s [ queued ↦ true | _ ↦ false ]) jobs
          + count_status Real is_running jobs
        ≡ active Real jobs
  unfolding count_status active tally
  active_statuses [] = refl
  active_statuses ((k, r) ∷ jobs) = ground (arith, active_statuses jobs)

  -- The four counts of `stats` make up the total, and the first two are the jobs that `enqueue`
  -- holds against the limit.
  stats_total :
      (now : ℕ)
      → let s = stats Real now q in
        (s.queued_count + s.running_count + s.succeeded_count + s.failed_count ≡ s.total)
        × (s.queued_count + s.running_count ≡ active Real q.jobs)
  unfolding stats
  stats_total now = (tally_statuses q.jobs, active_statuses q.jobs)
