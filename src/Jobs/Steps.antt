-- ===== src/Jobs/Steps.antt =====
-- The interleavings of `JobQueue` (backend/synqc_backend/jobs.py): one step is one section of one
-- thread. Every step changes at most one record, and in one of few ways.
use syn_qc_temporal_dynamics.Prelude.{
  ℕ, ◌+◌, String, eq_iff, Bool, true, false, Option, none, some, [], ◌∷◌, ◌≡◌, refl, inl, inr,
  arith, ltb, if◌then◌else◌, Bool-cases, Option-cases, ◌∙◌,
}
use syn_qc_temporal_dynamics.Dict.{get, put, get-put}
use syn_qc_temporal_dynamics.Models.{
  ErrorCode, budget_exhausted, invalid_request, internal_error, number, code_value, Detail,
  RunExperimentRequest, RunExperimentResponse,
}
use syn_qc_temporal_dynamics.Jobs.Records.{
  JobStatus, queued, running, succeeded, failed, JobRecord, new_record, is_active, is_terminal,
  is_running,
}
use syn_qc_temporal_dynamics.Jobs.{
  Task, pending, working, closing, finished, Outcome, returned, budget_exceeded, provider_failed,
  value_error, other_error, JobQueue, insert, submit, count_failure, cancel, timeout_job, shutdown,
}
use syn_qc_temporal_dynamics.Jobs.Threads.{
  start, fail_record, provider_hint, settle, complete, stamp, finalize,
}

module _ (Real : Type 0) where
  -- One section of one thread. An id is new when its record is inserted, is submitted once, and its
  -- thread runs its sections in order, each when its future is there.
  pub data Step (q : JobQueue Real) : JobQueue Real → Type 0 where
    inserts :
        (id : String) (now : ℕ) (req : RunExperimentRequest Real)
        → get id q.jobs ≡ none
        → Step q (insert Real id now req q)
    submits : (id : String) → get id q.futures ≡ none → Step q (submit Real id q).0
    cancels :
        (written : Option ℕ) (now : ℕ) (id reason : String)
        → Step q (cancel Real written now id reason q).0
    times_out :
        (written : Option ℕ) (now : ℕ) (id : String) → Step q (timeout_job Real written now id q)
    starts :
        (now : ℕ) (id : String) → get id q.futures ≡ some pending → Step q (start Real now id q)
    completes :
        (written : Option ℕ) (now : ℕ) (id : String) (outcome : Outcome Real)
        → get id q.futures ≡ some working
        → Step q (complete Real written now id outcome q)
    finalizes :
        (now : ℕ) (id : String) → get id q.futures ≡ some closing → Step q (finalize Real now id q)
    shuts : Step q (shutdown Real q)

  pub data Reach (q : JobQueue Real) : JobQueue Real → Type 0 where
    here : Reach q q
    next : {q' q'' : JobQueue Real} → Reach q q' → Step q' q'' → Reach q q''

  -- A change of one record that is no failure.
  pub data Moves (r : JobRecord Real) : JobRecord Real → Type 0 where
    begins :
        (now : ℕ)
        → r.status ≡ queued
        → Moves r (record r { status = running; started_at = some now })
    succeeds :
        (result : RunExperimentResponse Real)
        → r.status ≡ running
        → Moves r (record r { result = some result; status = succeeded })
    stamps :
        (now : ℕ)
        → r.finished_at ≡ none
        → is_terminal r.status ≡ true
        → Moves r (record r { finished_at = some now })
    stays : Moves r r

  -- A failed record, as `r` becomes it.
  abbrev pub failed_record :
      ℕ → String → ErrorCode → String → Option String → Detail → JobRecord Real → JobRecord Real
  failed_record now error code message hint detail r = record r {
    error = some error;
    error_code = some code;
    error_message = some message;
    action_hint = hint;
    error_detail = some detail;
    finished_at = some now;
    status = failed;
  }

  abbrev pub is_started : JobStatus → Bool
  is_started running = true
  is_started succeeded = true
  is_started _ = false

  abbrev pub is_taken : Option Task → Bool
  is_taken (some working) = true
  is_taken (some closing) = true
  is_taken (some finished) = true
  is_taken _ = false

  abbrev pub started_or : Option (JobRecord Real) → Bool
  started_or none = false
  started_or (some r) = is_started r.status

  -- A record is past `queued` without a failure only once a thread has taken its future.
  unfoldable pub Linked : JobQueue Real → Type 0
  Linked q = (k : String) → started_or (get k q.jobs) ≡ true → is_taken (get k q.futures) ≡ true

  -- What a step does to the records and to the failure counts.
  pub data Change (q q' : JobQueue Real) : Type 0 where
    idle : q'.jobs ≡ q.jobs → q'.failure_counts ≡ q.failure_counts → Change q q'
    adds :
        (id : String) (now : ℕ) (req : RunExperimentRequest Real)
        → get id q.jobs ≡ none
        → q'.jobs ≡ put id (new_record id now req) q.jobs
        → q'.failure_counts ≡ q.failure_counts
        → Change q q'
    moves :
        (id : String) (r r' : JobRecord Real)
        → get id q.jobs ≡ some r
        → Moves r r'
        → is_taken (get id q'.futures) ≡ true
        → q'.jobs ≡ put id r' q.jobs
        → q'.failure_counts ≡ q.failure_counts
        → Change q q'
    fails :
        (id : String) (r : JobRecord Real) (now : ℕ) (error : String) (code : ErrorCode)
        (message : String) (hint : Option String) (detail : Detail)
        → get id q.jobs ≡ some r
        → is_active r.status ≡ true
        → q'.jobs ≡ put id (failed_record now error code message hint detail r) q.jobs
        → q'.failure_counts ≡ count_failure Real (code_value code) q.failure_counts
        → Change q q'

  cancel-Change :
      (q : JobQueue Real) (written : Option ℕ) (now : ℕ) (id reason : String)
      → Change q (cancel Real written now id reason q).0
  unfolding cancel
  cancel-Change q written now id reason = elim (Option-cases (get id q.jobs)) [
    | inl e ↦ rw (e, cancel) (idle refl refl)
    | inr (r, e) ↦
        rw (e, cancel)
          (elim (Bool-cases (is_terminal r.status)) [
            | inl t ↦ rw t (idle refl refl)
            | inr a ↦ rw a (fails id r now _ _ _ _ _ e (ground arith) refl refl)
          ])
  ]

  timeout_job-Change :
      (q : JobQueue Real) (written : Option ℕ) (now : ℕ) (id : String)
      → Change q (timeout_job Real written now id q)
  unfolding timeout_job
  timeout_job-Change q written now id = elim (Option-cases (get id q.jobs)) [
    | inl e ↦ rw (e, timeout_job) (idle refl refl)
    | inr (r, e) ↦
        rw (e, timeout_job)
          (elim (Bool-cases (is_running r.status)) [
            | inl t ↦ rw t (fails id r now _ _ _ _ _ e (ground arith) refl refl)
            | inr a ↦ rw a (idle refl refl)
          ])
  ]

  start-Change :
      (q : JobQueue Real) (now : ℕ) (id : String)
      → Linked q
      → get id q.futures ≡ some pending
      → Change q (start Real now id q)
  unfolding start Linked
  start-Change q now id linked p = elim (Option-cases (get id q.jobs)) [
    | inl e ↦ rw (e, start) (idle refl refl)
    | inr (r, e) ↦ rw (e, start) (by_status r e r.status refl)
  ]
    where
      by_status :
          (r : JobRecord Real)
          → get id q.jobs ≡ some r
          → (s : JobStatus) → r.status ≡ s
          → Change q (elim s as (λ _. JobQueue Real) [
            | failed ↦ record q { futures = put id finished q.futures }
            | _ ↦ record q {
              jobs = put id (record r { status = running; started_at = some now }) q.jobs;
              timers =
                  if ltb 0 q.job_timeout_seconds
                  then put id (now + q.job_timeout_seconds) q.timers
                  else q.timers;
              futures = put id working q.futures;
            }
          ])
      by_status r e queued s =
          moves id r _ e (begins now s)
            (ground (arith, eq_iff id id, get-put id id working q.futures)) refl refl
      by_status r e running s = absurd (ground (arith, linked id))
      by_status r e succeeded s = absurd (ground (arith, linked id))
      by_status r e failed s = idle refl refl

  fail_record-Change :
      (q : JobQueue Real) (written : Option ℕ) (now : ℕ) (id : String) (code : ErrorCode)
      (message : String) (extra : Option Detail) (hint : Option String)
      → Change q (fail_record Real written now id code message extra hint q)
  unfolding fail_record
  fail_record-Change q written now id code message extra hint =
      elim (Option-cases (get id q.jobs)) [
        | inl e ↦ rw (e, fail_record) (idle refl refl)
        | inr (r, e) ↦
            rw (e, fail_record)
              (elim (Bool-cases (is_running r.status)) [
                | inl t ↦ rw t (fails id r now _ _ _ _ _ e (ground arith) refl refl)
                | inr a ↦ rw a (idle refl refl)
              ])
      ]

  settle-Change :
      (q : JobQueue Real) (written : Option ℕ) (now : ℕ) (id : String) (outcome : Outcome Real)
      → get id q.futures ≡ some working
      → Change q (settle Real written now id outcome q)
  unfolding settle
  settle-Change q written now id (returned result) p = elim (Option-cases (get id q.jobs)) [
    | inl e ↦ rw (e, settle) (idle refl refl)
    | inr (r, e) ↦
        rw (e, settle)
          (elim (Bool-cases (is_running r.status)) [
            | inl t ↦
                rw t (moves id r _ e (succeeds result (ground arith)) (ground arith) refl refl)
            | inr a ↦ rw a (idle refl refl)
          ])
  ]
  settle-Change q written now id (budget_exceeded message remaining) p =
      fail_record-Change q written now id budget_exhausted message
        (some (("remaining", number remaining) ∷ []))
        (some "Lower the shot budget or wait for the session budget to reset.")
  settle-Change q written now id (provider_failed code message hint detail) p =
      fail_record-Change q written now id code message detail (provider_hint Real hint)
  settle-Change q written now id (value_error message) p =
      fail_record-Change q written now id invalid_request message none
        (some "Verify the request payload and try again.")
  settle-Change q written now id (other_error message) p =
      fail_record-Change q written now id internal_error message none
        (some "Check backend logs for details and retry after remediation.")

  -- Only the records and the counts matter for a change.
  Change-congr :
      (q q' q'' : JobQueue Real)
      → q''.jobs ≡ q'.jobs
      → q''.failure_counts ≡ q'.failure_counts
      → ((k : String) → is_taken (get k q'.futures) ≡ true → is_taken (get k q''.futures) ≡ true)
      → Change q q'
      → Change q q''
  Change-congr q q' q'' j f u (idle a b) = idle (j ∙ a) (f ∙ b)
  Change-congr q q' q'' j f u (adds id now req a b c) = adds id now req a (j ∙ b) (f ∙ c)
  Change-congr q q' q'' j f u (moves id r r' a m v b c) = moves id r r' a m (u id v) (j ∙ b) (f ∙ c)
  Change-congr q q' q'' j f u (fails id r now e c m h d g a b z) =
      fails id r now e c m h d g a (j ∙ b) (f ∙ z)

  stamp-Moves : (now : ℕ) (r : JobRecord Real) → Moves r (stamp Real now r)
  unfolding stamp
  stamp-Moves now r = go r.finished_at (is_terminal r.status) refl refl
    where
      go :
          (f : Option ℕ) (b : Bool)
          → r.finished_at ≡ f
          → is_terminal r.status ≡ b
          → Moves r (elim f as (λ _. JobRecord Real) [
            | some _ ↦ r
            | none ↦ if b then record r { finished_at = some now } else r
          ])
      go (some t) b e f = stays
      go none true e f = stamps now e f
      go none false e f = stays

  finalize-Change : (q : JobQueue Real) (now : ℕ) (id : String) → Change q (finalize Real now id q)
  unfolding finalize
  finalize-Change q now id = elim (Option-cases (get id q.jobs)) [
    | inl e ↦ rw (e, finalize) (idle refl refl)
    | inr (r, e) ↦
        rw (e, finalize)
          (moves id r (stamp Real now r) e (stamp-Moves now r)
            (ground (arith, eq_iff id id, get-put id id finished q.futures)) refl refl)
  ]

  submit-Change : (q : JobQueue Real) (id : String) → Change q (submit Real id q).0
  unfolding submit
  submit-Change q id = elim (Bool-cases q.executor_closed) [
    | inl e ↦ rw (e, submit) (idle refl refl)
    | inr e ↦ rw (e, submit) (idle refl refl)
  ]

  pub Step-Change : (q q' : JobQueue Real) → Linked q → Step q q' → Change q q'
  unfolding insert complete shutdown
  Step-Change q _ linked (inserts id now req n) = adds id now req n refl refl
  Step-Change q _ linked (submits id n) = submit-Change q id
  Step-Change q _ linked (cancels written now id reason) = cancel-Change q written now id reason
  Step-Change q _ linked (times_out written now id) = timeout_job-Change q written now id
  Step-Change q _ linked (starts now id p) = start-Change q now id linked p
  Step-Change q _ linked (completes written now id outcome p) =
      Change-congr q (settle Real written now id outcome q) _ refl refl
        (λ k h. ground (arith, get-put id k closing (settle Real written now id outcome q).futures))
        (settle-Change q written now id outcome p)
  Step-Change q _ linked (finalizes now id p) = finalize-Change q now id
  Step-Change q _ linked shuts = idle refl refl
