-- ===== src/JobStore/Updates.antt =====
-- The updates of one job in backend/synqc_backend/job_store.py.
use syn_qc_temporal_dynamics.Prelude.{
  ℕ, ◌+◌, String, str_eq, eq_iff, ◌≡◌, refl, Bool, true, false, none, some, [], ◌∷◌, arith,
  if◌then◌else◌, ok, ◌∙◌, ap,
}
use syn_qc_temporal_dynamics.Dict.{get}
use syn_qc_temporal_dynamics.Models.{Detail}
use syn_qc_temporal_dynamics.JobStore.Redis.{
  text, number, encoded, error_json, JobErrorInfo, number_or, RedisServer,
}
use syn_qc_temporal_dynamics.JobStore.{
  JobStatus, status_value, JobRecord, job_key, parse_result, get_job, update_status, times,
  increment_attempts, set_result, set_error,
}
use syn_qc_temporal_dynamics.JobStore.Fields.{
  record_or_none-some, read_record-ok, field, IsJob, field-hset_own, hset-IsJob,
}

module _ (redis : RedisServer) where
  open redis use {Server, hgetall, hset, hincr, field-hset, field-hincr}

  get-times :
      (f : String) (now : ℕ) (b e : Bool)
      → str_eq "started_at_unix" f ≡ false
      → str_eq "finished_at_unix" f ≡ false
      → get f (times redis now b e) ≡ none
  unfolding get
  get-times f now true true p q = rw (p, q) refl
  get-times f now true false p q = rw p refl
  get-times f now false true p q = rw q refl
  get-times f now false false p q = refl

  pub update_status-IsJob :
      (now : ℕ) (id : String) (st st' : JobStatus) (b e : Bool) (n k : ℕ) (s : Server)
      → IsJob redis id st n k s
      → IsJob redis id st' n k (update_status redis now id st' b e s)
  unfolding update_status get
  update_status-IsJob now id st st' b e n k s j =
      let m = ("status", text (status_value st')) ∷ times redis now b e in
      let kept = λ (f : String). field-hset_own redis id f m s in
      record {
        created = j.created;
        input = j.input;
        status_field = kept "status";
        attempts_field =
            kept "attempts" ∙ rw (get-times "attempts" now b e refl refl) j.attempts_field;
        max_field =
            kept "max_attempts" ∙ rw (get-times "max_attempts" now b e refl refl) j.max_field;
        created_field =
            kept "created_at_unix"
            ∙ rw (get-times "created_at_unix" now b e refl refl) j.created_field;
        input_field =
            kept "run_input_json" ∙ rw (get-times "run_input_json" now b e refl refl) j.input_field;
        cancel_field =
            kept "cancel_requested"
            ∙ rw (get-times "cancel_requested" now b e refl refl) j.cancel_field;
        found = j.found;
        result_field =
            ap parse_result (kept "result_json")
            ∙ rw (get-times "result_json" now b e refl refl) j.result_field;
      }

  field-hincr_own :
      (id g : String) (n : ℕ) (s : Server)
      → field redis id "attempts" s ≡ some (number n)
      → field redis id g (hincr (job_key id) "attempts" s)
        ≡ (if str_eq "attempts" g then some (number (n + 1)) else field redis id g s)
  field-hincr_own id g n s h = ground (
    arith,
    eq_iff (job_key id) (job_key id),
    field-hincr (job_key id) (job_key id) "attempts" g n s h,
  )

  pub increment_attempts-IsJob :
      (id : String) (st : JobStatus) (n k : ℕ) (s : Server)
      → IsJob redis id st n k s
      → IsJob redis id st (n + 1) k (increment_attempts redis id s).0
        × ((increment_attempts redis id s).1 ≡ n + 1)
  unfolding increment_attempts
  increment_attempts-IsJob id st n k s j =
      let new = λ (g : String). field-hincr_own id g n s j.attempts_field in
      (
        record {
          created = j.created;
          input = j.input;
          status_field = new "status" ∙ j.status_field;
          attempts_field = new "attempts";
          max_field = new "max_attempts" ∙ j.max_field;
          created_field = new "created_at_unix" ∙ j.created_field;
          input_field = new "run_input_json" ∙ j.input_field;
          cancel_field = new "cancel_requested" ∙ j.cancel_field;
          found = j.found;
          result_field = ap parse_result (new "result_json") ∙ j.result_field;
        },
        ap (λ v. number_or 0 v) (new "attempts"),
      )

  -- A write of the result or of the error keeps the job.
  pub set_result-IsJob :
      (id : String) (r : Detail) (st : JobStatus) (n k : ℕ) (s : Server)
      → IsJob redis id st n k s
      → IsJob redis id st n k (set_result redis id r s)
  unfolding set_result get parse_result
  set_result-IsJob id r st n k s j =
      hset-IsJob redis id st n k (("result_json", encoded r) ∷ []) s (some r) refl refl refl refl
        refl refl refl j

  pub set_error-IsJob :
      (id : String) (e : JobErrorInfo) (st : JobStatus) (n k : ℕ) (s : Server)
      → IsJob redis id st n k s
      → IsJob redis id st n k (set_error redis id e s)
  unfolding set_error get
  set_error-IsJob id e st n k s j =
      hset-IsJob redis id st n k (("error_json", error_json e) ∷ []) s j.found refl refl refl refl
        refl refl j.result_field j

  -- `get_job` finds the job.
  pub get_job-IsJob :
      (id : String) (st : JobStatus) (n k : ℕ) (s : Server)
      → IsJob redis id st n k s
      → (job : JobRecord) × (get_job redis id s ≡ ok (some job))
        × (job.status ≡ st)
        × (job.attempts ≡ n)
        × (job.max_attempts ≡ k)
        × (job.cancel_requested ≡ false)
  unfolding get_job
  get_job-IsJob id st n k s j =
      let (job, e, a, b, c, d) =
        read_record-ok id (hgetall (job_key id) s) st n k j.created j.input j.found j.status_field
          j.attempts_field j.max_field j.created_field j.input_field j.cancel_field
          j.result_field in
      (
        job,
        record_or_none-some id (hgetall (job_key id) s) (text (status_value st)) job j.status_field
            e,
        a,
        b,
        c,
        d,
      )
