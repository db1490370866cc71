-- ===== src/RunWorker/Outcomes.antt =====
-- What `_process_job` of backend/synqc_backend/worker.py leaves of a run, for each of its ends.
use syn_qc_temporal_dynamics.Prelude.{
  ℕ, suc, String, str_eq, eq_iff, ◌≡◌, refl, ap, ◌∙◌, false, Option, some, [], ◌∷◌, Bool-cases, inl,
  inr,
}
use syn_qc_temporal_dynamics.Prelude.Int.{ℤ, pos, negsuc, ◌+ℤ◌}
use syn_qc_temporal_dynamics.Dict.{Dict, get}
use syn_qc_temporal_dynamics.Models.{Detail, ErrorCode, code_value, RunExperimentResponse}
use syn_qc_temporal_dynamics.RunQueue.Redis.{Value, text, number, response, RunServer, int_or_zero}
use syn_qc_temporal_dynamics.RunQueue.Keys.{
  job_key-status_counts, job_key-failure_code, job_key-failure_target, apart_sym,
}
use syn_qc_temporal_dynamics.RunQueue.Counters.{
  Counted, complete_success-Counted, complete_failure-Counted,
}
use syn_qc_temporal_dynamics.RunQueue.{
  QueuedRun, job_key, status_counts_key, failure_code_key, failure_target_key, or_empty,
  failure_fields, count_target, mark_running, complete_success, complete_failure,
}
use syn_qc_temporal_dynamics.RunWorker.{
  RunOutcome, finished, timed_out, budget_exceeded, provider_failed, value_error, other_error,
  Failure, timeout_failure, budget_failure, provider_failure, value_failure, internal_failure,
  handle_failure, finish_job,
}

module _ {Real : Type 0} (redis : RunServer Real) where
  open redis use {
    Server, fields, counts, hset, hincrby, field-hset, field-hincrby, count-hset, count-hincrby,
  }

  status_fields :
      (j g : String) (d : ℤ) (s : Server)
      → fields (job_key j) (hincrby status_counts_key g d s) ≡ fields (job_key j) s
  status_fields j g d s =
      field-hincrby status_counts_key (job_key j) g d s
        (apart_sym (job_key j) status_counts_key (job_key-status_counts j))

  target_fields :
      (j target : String) (s : Server)
      → fields (job_key j) (count_target redis target s) ≡ fields (job_key j) s
  target_fields j target s = elim (Bool-cases (str_eq target "")) [
    | inl e ↦ rw e refl
    | inr e ↦ rw e (
        field-hincrby failure_target_key (job_key j) target (pos 1) s
          (apart_sym (job_key j) failure_target_key (job_key-failure_target j)))
  ]

  pub mark_running-fields :
      (j : String) (now : ℕ) (job : QueuedRun Real) (s : Server)
      → (m : Dict (Value Real)) × (fields (job_key j) (mark_running redis now job s).0
          ≡ fields (job_key j) (hset (job_key job.id) m s))
  unfolding mark_running
  mark_running-fields j now job s =
      (_, status_fields j "running" (pos 1) _ ∙ status_fields j "queued" (negsuc 0) _)

  complete_success-fields :
      (j : String) (now : ℕ) (job : QueuedRun Real) (result : RunExperimentResponse Real)
      (s : Server)
      → fields (job_key j) (complete_success redis now job result s).0
        ≡ fields (job_key j) (
            hset
              (job_key job.id)
              (("status", text "succeeded")
                ∷ ("finished_at", number now)
                ∷ ("result_json", response result)
                ∷ ("created_at", number job.created_at)
                ∷ [])
              s)
  unfolding complete_success
  complete_success-fields j now job result s =
      status_fields j "succeeded" (pos 1) _ ∙ status_fields j "running" (negsuc 0) _

  complete_failure-fields :
      (j : String) (now : ℕ) (job : QueuedRun Real) (code : ErrorCode) (message : String)
      (hint : Option String) (given : Option Detail) (s : Server)
      → fields (job_key j) (complete_failure redis now job code message hint given s).0
        ≡ fields
            (job_key j)
            (hset (job_key job.id) (failure_fields redis now job code message hint given) s)
  unfolding complete_failure
  complete_failure-fields j now job code message hint given s =
      target_fields j job.run_request.hardware_target _
      ∙ field-hincrby failure_code_key (job_key j) (code_value code) (pos 1) _
          (apart_sym (job_key j) failure_code_key (job_key-failure_code j))
      ∙ status_fields j "failed" (pos 1) _
      ∙ status_fields j "running" (negsuc 0) _

  -- The fields of one job.
  abbrev pub field : String → String → Server → Option (Value Real)
  field id f s = get f (fields (job_key id) s)

  field-hset_own :
      (id f : String) (m : Dict (Value Real)) (v : Value Real) (s : Server)
      → get f m ≡ some v
      → field id f (hset (job_key id) m s) ≡ some v
  field-hset_own id f m v s e =
      field-hset (job_key id) (job_key id) f m s
      ∙ rw ((eq_iff (job_key id) (job_key id)).1 refl, e) refl

  pub field-hset_other :
      (id j f : String) (m : Dict (Value Real)) (s : Server)
      → str_eq (job_key id) (job_key j) ≡ false
      → field j f (hset (job_key id) m s) ≡ field j f s
  field-hset_other id j f m s apart = field-hset (job_key id) (job_key j) f m s ∙ rw apart refl

  -- Every field of every other job is as before.
  abbrev pub Apart : String → Server → Server → Type 0
  Apart id s s' =
      (j f : String) → str_eq (job_key id) (job_key j) ≡ false → field j f s' ≡ field j f s

  -- The run has succeeded with a result.
  pub record Succeeded (q r o f : ℕ) (id : String) (result : RunExperimentResponse Real)
      (s' : Server) : Type 0 where
    pub counted : Counted redis q r (suc o) f s'
    pub status_field : field id "status" s' ≡ some (text "succeeded")
    pub result_field : field id "result_json" s' ≡ some (response result)

  abbrev pub code_count : ErrorCode → Server → Option ℤ
  code_count code s = get (code_value code) (counts failure_code_key s)

  -- The run has failed, which its hash says with code, message and hint, and the count of its code
  -- is one more than on the first server.
  pub record Failed (q r o f : ℕ) (id : String) (e : Failure) (s s' : Server) : Type 0 where
    pub counted : Counted redis q r o (suc f) s'
    pub status_field : field id "status" s' ≡ some (text "failed")
    pub code_field : field id "error_code" s' ≡ some (text (code_value e.code))
    pub message_field : field id "error_message" s' ≡ some (text e.message)
    pub hint_field : field id "action_hint" s' ≡ some (text (or_empty e.action_hint))
    pub coded : code_count e.code s' ≡ some (int_or_zero (code_count e.code s) +ℤ pos 1)

  -- The end of a run as each outcome asks for it.
  abbrev pub Reported : ℕ → (q r o f : ℕ) → String → RunOutcome Real → Server → Server → Type 0
  Reported limit q r o f id (finished result) s s' = Succeeded q r o f id result s'
  Reported limit q r o f id timed_out s s' = Failed q r o f id (timeout_failure limit) s s'
  Reported limit q r o f id (budget_exceeded left message) s s' =
      Failed q r o f id (budget_failure left message) s s'
  Reported limit q r o f id (provider_failed e) s s' = Failed q r o f id (provider_failure e) s s'
  Reported limit q r o f id (value_error message) s s' =
      Failed q r o f id (value_failure message) s s'
  Reported limit q r o f id (other_error message) s s' =
      Failed q r o f id (internal_failure message) s s'

  success-Succeeded :
      (q r o f now : ℕ) (job : QueuedRun Real) (result : RunExperimentResponse Real) (s : Server)
      → Counted redis q (suc r) o f s
      → Succeeded q r o f job.id result (complete_success redis now job result s).0
        × Apart job.id s (complete_success redis now job result s).0
  unfolding get
  success-Succeeded q r o f now job result s c =
      let same = λ (j k : String). ap (λ d. get k d) (complete_success-fields j now job result s) in
      (
        record {
          counted = complete_success-Counted redis q r o f now job result s c;
          status_field =
              same job.id "status" ∙ field-hset_own job.id "status" _ (text "succeeded") s refl;
          result_field =
              same job.id "result_json"
              ∙ field-hset_own job.id "result_json" _ (response result) s refl;
        },
        λ j k apart. same j k ∙ field-hset_other job.id j k _ s apart,
      )

  target_count :
      (code : ErrorCode) (target : String) (s : Server)
      → code_count code (count_target redis target s) ≡ code_count code s
  target_count code target s = elim (Bool-cases (str_eq target "")) [
    | inl e ↦ rw e refl
    | inr e ↦
        rw e (count-hincrby failure_target_key failure_code_key target (code_value code) (pos 1) s)
  ]

  pub status_code_count :
      (code : ErrorCode) (g : String) (d : ℤ) (s : Server)
      → code_count code (hincrby status_counts_key g d s) ≡ code_count code s
  status_code_count code g d s =
      count-hincrby status_counts_key failure_code_key g (code_value code) d s

  pub hset_code_count :
      (code : ErrorCode) (id : String) (m : Dict (Value Real)) (s : Server)
      → code_count code (hset (job_key id) m s) ≡ code_count code s
  hset_code_count code id m s =
      ap (λ d. get (code_value code) d)
        (count-hset (job_key id) failure_code_key m s (job_key-failure_code id))

  own_code_count :
      (code : ErrorCode) (s : Server)
      → code_count code (hincrby failure_code_key (code_value code) (pos 1) s)
        ≡ some (int_or_zero (code_count code s) +ℤ pos 1)
  own_code_count code s =
      count-hincrby failure_code_key failure_code_key (code_value code) (code_value code) (pos 1) s
      ∙ rw ((eq_iff (code_value code) (code_value code)).1 refl) refl

  complete_failure-code_count :
      (now : ℕ) (job : QueuedRun Real) (code : ErrorCode) (message : String) (hint : Option String)
      (given : Option Detail) (s : Server)
      → code_count code (complete_failure redis now job code message hint given s).0
        ≡ some (int_or_zero (code_count code s) +ℤ pos 1)
  unfolding complete_failure
  complete_failure-code_count now job code message hint given s =
      target_count code job.run_request.hardware_target _
      ∙ own_code_count code _
      ∙ ap (λ n. some (int_or_zero n +ℤ pos 1))
          (status_code_count code "failed" (pos 1) _
            ∙ status_code_count code "running" (negsuc 0) _
            ∙ hset_code_count code job.id _ s)

  failure-Failed :
      (q r o f now : ℕ) (job : QueuedRun Real) (e : Failure) (s : Server)
      → Counted redis q (suc r) o f s
      → Failed q r o f job.id e s (handle_failure redis now job e s).0
        × Apart job.id s (handle_failure redis now job e s).0
  unfolding handle_failure get
  failure-Failed q r o f now job e s c =
      let m = failure_fields redis now job e.code e.message e.action_hint e.detail in
      let same = λ (j k : String).
        ap (λ d. get k d)
          (complete_failure-fields j now job e.code e.message e.action_hint e.detail s) in
      (
        record {
          counted =
              complete_failure-Counted redis q r o f now job e.code e.message e.action_hint e.detail
                s c;
          status_field = same job.id "status" ∙ field-hset_own job.id "status" m _ s refl;
          code_field = same job.id "error_code" ∙ field-hset_own job.id "error_code" m _ s refl;
          message_field =
              same job.id "error_message" ∙ field-hset_own job.id "error_message" m _ s refl;
          hint_field = same job.id "action_hint" ∙ field-hset_own job.id "action_hint" m _ s refl;
          coded = complete_failure-code_count now job e.code e.message e.action_hint e.detail s;
        },
        λ j k apart. same j k ∙ field-hset_other job.id j k m s apart,
      )

  pub finish_job-Reported :
      (limit q r o f now : ℕ) (job : QueuedRun Real) (outcome : RunOutcome Real) (s : Server)
      → Counted redis q (suc r) o f s
      → Reported limit q r o f job.id outcome s (finish_job redis limit now job outcome s).0
        × Apart job.id s (finish_job redis limit now job outcome s).0
  unfolding finish_job
  finish_job-Reported limit q r o f now job (finished result) s c =
      success-Succeeded q r o f now job result s c
  finish_job-Reported limit q r o f now job timed_out s c = failure-Failed q r o f now job _ s c
  finish_job-Reported limit q r o f now job (budget_exceeded left message) s c =
      failure-Failed q r o f now job _ s c
  finish_job-Reported limit q r o f now job (provider_failed e) s c =
      failure-Failed q r o f now job _ s c
  finish_job-Reported limit q r o f now job (value_error message) s c =
      failure-Failed q r o f now job _ s c
  finish_job-Reported limit q r o f now job (other_error message) s c =
      failure-Failed q r o f now job _ s c
