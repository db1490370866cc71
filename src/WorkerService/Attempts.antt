-- ===== src/WorkerService/Attempts.antt =====
-- The attempts of a job in backend/synqc_backend/worker_service.py.
use syn_qc_temporal_dynamics.Prelude.{
  ℕ, zero, suc, ◌+◌, ◌≤◌, ◌<◌, String, eq_iff, ◌≡◌, ◌⊎◌, refl, Bool, true, false, ◌&&◌, some, List,
  [], ◌∷◌, arith, ltb, if◌then◌else◌, length, ok, ltb→lt, Bool-cases, inl, inr, ap,
}
use syn_qc_temporal_dynamics.Dict.{get}
use syn_qc_temporal_dynamics.JobStore.Redis.{RedisServer, JobErrorInfo}
use syn_qc_temporal_dynamics.JobStore.{
  JobStatus, queued, running, succeeded, failed, cancelled, job_key, update_status,
  increment_attempts, is_text, set_result, set_error,
}
use syn_qc_temporal_dynamics.JobStore.Fields.{field, IsJob, same-IsJob}
use syn_qc_temporal_dynamics.JobStore.Updates.{
  update_status-IsJob, increment_attempts-IsJob, set_result-IsJob, set_error-IsJob, get_job-IsJob,
}
use syn_qc_temporal_dynamics.Queueing.{schedule_delayed, delayed_key}
use syn_qc_temporal_dynamics.WorkerService.{
  Outcome, timed_out, no_result, result, error, is_transient_error, delay_of, attempts_allowed,
  retry_error, fail_with, settle, work,
}

-- The job has ended.
abbrev pub is_ended : JobStatus → Bool
is_ended queued = false
is_ended running = false
is_ended succeeded = true
is_ended failed = true
is_ended cancelled = true

attempts_allowed_pos : (k : ℕ) → 0 < attempts_allowed k
unfolding attempts_allowed
attempts_allowed_pos zero = omega arith
attempts_allowed_pos (suc k) = omega arith

both : (a b : Bool) → (a && b) ≡ true → a ≡ true
both a b h = ground (arith, h)

module _ (redis : RedisServer) where
  open redis use {Server, score, zadd, field-zadd, score-zadd}

  zadd-IsJob :
      (key m id : String) (due : ℕ) (st : JobStatus) (n k : ℕ) (s : Server)
      → IsJob redis id st n k s
      → IsJob redis id st n k (zadd key m due s)
  zadd-IsJob key m id due st n k s =
      same-IsJob redis id st n k s (zadd key m due s)
        (λ f. ap (λ h. get f h) (field-zadd key (job_key id) m due s))

  -- Queued again for a later time, or ended.
  abbrev pub Settled : ℕ → String → String → ℕ → ℕ → Server → Type 0
  Settled now q id n k s =
      (IsJob redis id queued n k s
        × (n < attempts_allowed k)
        × (score (delayed_key q) id s ≡ some (now + delay_of n)))
      ⊎ ((st : JobStatus) × IsJob redis id st n k s × (is_ended st ≡ true))

  fail_with-Settled :
      (now : ℕ) (q id : String) (e : JobErrorInfo) (st : JobStatus) (n k : ℕ) (s : Server)
      → IsJob redis id st n k s
      → Settled now q id n k (fail_with redis now id e s)
  fail_with-Settled now q id e st n k s j = inr (
    failed,
    update_status-IsJob redis now id st failed false true n k (set_error redis id e s)
        (set_error-IsJob redis id e st n k s j),
    refl,
  )

  requeued-IsJob :
      (now : ℕ) (q id : String) (e : JobErrorInfo) (st : JobStatus) (n k : ℕ) (s : Server)
      → IsJob redis id st n k s
      → IsJob redis id queued n k (
          schedule_delayed redis now q id
            (delay_of n)
            (update_status redis now id queued false false (set_error redis id e s)))
  unfolding schedule_delayed
  requeued-IsJob now q id e st n k s j =
      let noted = set_error redis id e s in
      zadd-IsJob (delayed_key q) id id (now + delay_of n) queued n k
        (update_status redis now id queued false false noted)
        (update_status-IsJob redis now id st queued false false n k noted
          (set_error-IsJob redis id e st n k s j))

  due :
      (now : ℕ) (q id : String) (n : ℕ) (s : Server)
      → score (delayed_key q) id (schedule_delayed redis now q id (delay_of n) s)
        ≡ some (now + delay_of n)
  unfolding schedule_delayed
  due now q id n s = ground (
    arith,
    eq_iff (delayed_key q) (delayed_key q),
    eq_iff id id,
    score-zadd (delayed_key q) (delayed_key q) id id (now + delay_of n) s,
  )

  settle-Settled :
      (now : ℕ) (q id : String) (st : JobStatus) (n k : ℕ) (o : Outcome) (s : Server)
      → IsJob redis id st n k s
      → Settled now q id n k (settle redis now q id k n o s)
  unfolding settle
  settle-Settled now q id st n k timed_out s j = fail_with-Settled now q id _ st n k s j
  settle-Settled now q id st n k no_result s j = fail_with-Settled now q id _ st n k s j
  settle-Settled now q id st n k (result r) s j = inr (
    succeeded,
    update_status-IsJob redis now id st succeeded false true n k (set_result redis id r s)
        (set_result-IsJob redis id r st n k s j),
    refl,
  )
  settle-Settled now q id st n k (error t m tb low) s j =
      elim (Bool-cases (ltb n (attempts_allowed k) && is_transient_error low)) [
        | inl again ↦ rw again (
            inl (
              requeued-IsJob now q id (retry_error t m) st n k s j,
              ltb→lt _ _ (both _ _ again),
              due now q id n _,
            ))
        | inr over ↦ rw over (fail_with-Settled now q id _ st n k s j)
      ]

  -- One piece of work on a job that is not cancelled counts one attempt. After it the job has
  -- ended, or it is queued again: then its attempts are still below the number allowed, and it is
  -- due after a delay that doubles with each attempt and is at most a minute.
  pub work-Settled :
      (now : ℕ) (q id : String) (st : JobStatus) (n k : ℕ) (o : Outcome) (s : Server)
      → IsJob redis id st n k s
      → ((work redis now q id o s).1 ≡ ok tt)
        × Settled now q id (n + 1) k (work redis now q id o s).0
  unfolding work
  work-Settled now q id st n k o s j =
      let (job, found, _, _, allowed, kept) = get_job-IsJob redis id st n k s j in
      let begun = update_status redis now id running true false s in
      let j' = update_status-IsJob redis now id st running true false n k s j in
      let (j'', attempt) = increment_attempts-IsJob redis id running n k begun j' in
      rw (work, found)
        (
          refl,
          rw (kept, allowed, attempt)
              (settle-Settled now q id running (n + 1) k o (increment_attempts redis id begun).0
                j''),
        )

  -- Rounds of work on one job, for as long as it is queued.
  unfoldable pub rounds : String → String → List (ℕ × Outcome) → Server → Server
  rounds q id [] s = s
  rounds q id ((now, o) ∷ os) s =
      let rest = rounds q id os (work redis now q id o s).0 in
      if is_text (field redis id "status" s) "queued" then rest else s

  -- Where an ended job stands, the rounds have stopped.
  rounds-ended :
      (q id : String) (st : JobStatus) (n k : ℕ) (os : List (ℕ × Outcome)) (s : Server)
      → IsJob redis id st n k s
      → is_ended st ≡ true
      → rounds q id os s ≡ s
  unfolding rounds
  rounds-ended q id st n k [] s j e = refl
  rounds-ended q id queued n k ((now, o) ∷ os) s j e = absurd (ground (arith, e))
  rounds-ended q id running n k ((now, o) ∷ os) s j e = absurd (ground (arith, e))
  rounds-ended q id succeeded n k ((now, o) ∷ os) s j e = rw j.status_field refl
  rounds-ended q id failed n k ((now, o) ∷ os) s j e = rw j.status_field refl
  rounds-ended q id cancelled n k ((now, o) ∷ os) s j e = rw j.status_field refl

  rounds-step :
      (q id : String) (n k now : ℕ) (o : Outcome) (os : List (ℕ × Outcome)) (s : Server)
      → IsJob redis id queued n k s
      → rounds q id ((now, o) ∷ os) s ≡ rounds q id os (work redis now q id o s).0
  unfolding rounds
  rounds-step q id n k now o os s j = rw j.status_field refl

  rounds-from :
      (q id : String) (n k : ℕ) (os : List (ℕ × Outcome)) (s : Server)
      → IsJob redis id queued n k s
      → attempts_allowed k ≤ n + length os
      → n < attempts_allowed k
      → (st : JobStatus) × (m : ℕ) × IsJob redis id st m k (rounds q id os s)
        × (is_ended st ≡ true)
        × (m ≤ attempts_allowed k)
  rounds-from q id n k [] s j enough below = absurd (omega (arith, enough, below))
  rounds-from q id n k ((now, o) ∷ os) s j enough below =
      let s' = (work redis now q id o s).0 in
      rw (rounds-step q id n k now o os s j) (elim ((work-Settled now q id queued n k o s j).1) [
        | inl (j', more, later) ↦ rounds-from q id (n + 1) k os s' j' (omega (arith, enough)) more
        | inr (st, j', ended) ↦ (
          st,
          n + 1,
          rw (rounds-ended q id st (n + 1) k os s' j' ended) j',
          ended,
          omega (arith, below),
        )
      ])

  -- A new job ends: after as many rounds of work as it has attempts, whatever their outcomes, it
  -- has ended, with no more attempts than it is allowed.
  pub rounds-end :
      (q id : String) (k : ℕ) (os : List (ℕ × Outcome)) (s : Server)
      → IsJob redis id queued 0 k s
      → attempts_allowed k ≤ length os
      → (st : JobStatus) × (m : ℕ) × IsJob redis id st m k (rounds q id os s)
        × (is_ended st ≡ true)
        × (m ≤ attempts_allowed k)
  rounds-end q id k os s j enough =
      rounds-from q id 0 k os s j (omega (arith, enough)) (attempts_allowed_pos k)
