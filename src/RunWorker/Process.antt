-- ===== src/RunWorker/Process.antt =====
-- `_process_job` of backend/synqc_backend/worker.py from the claimed run to its end.
use syn_qc_temporal_dynamics.Prelude.{ℕ, suc, String, ◌≡◌, ap, ◌∙◌, some}
use syn_qc_temporal_dynamics.Prelude.Int.{pos, negsuc, ◌+ℤ◌}
use syn_qc_temporal_dynamics.Dict.{get}
use syn_qc_temporal_dynamics.Models.{ErrorCode}
use syn_qc_temporal_dynamics.RunQueue.Redis.{RunServer, int_or_zero}
use syn_qc_temporal_dynamics.RunQueue.Counters.{Counted, mark_running-Counted}
use syn_qc_temporal_dynamics.RunQueue.{QueuedRun, mark_running}
use syn_qc_temporal_dynamics.RunWorker.{
  RunOutcome, finished, timed_out, budget_exceeded, provider_failed, value_error, other_error,
  Failure, timeout_failure, budget_failure, provider_failure, value_failure, internal_failure,
  process_job,
}
use syn_qc_temporal_dynamics.RunWorker.Outcomes.{
  code_count, status_code_count, hset_code_count, field-hset_other, mark_running-fields, Failed,
  Reported, Apart, finish_job-Reported,
}

module _ {Real : Type 0} (redis : RunServer Real) where
  open redis use {Server}

  mark_running-code_count :
      (code : ErrorCode) (now : ℕ) (job : QueuedRun Real) (s : Server)
      → code_count redis code (mark_running redis now job s).0 ≡ code_count redis code s
  unfolding mark_running
  mark_running-code_count code now job s =
      status_code_count redis code "running" (pos 1) _
      ∙ status_code_count redis code "queued" (negsuc 0) _
      ∙ hset_code_count redis code job.id _ s

  mark_running-Apart :
      (now : ℕ) (job : QueuedRun Real) (s : Server)
      → Apart redis job.id s (mark_running redis now job s).0
  mark_running-Apart now job s j f apart =
      let (m, same) = mark_running-fields redis j now job s in
      ap (λ d. get f d) same ∙ field-hset_other redis job.id j f m s apart

  rebase-Failed :
      (q r o f : ℕ) (id : String) (e : Failure) (s s₁ s' : Server)
      → code_count redis e.code s₁ ≡ code_count redis e.code s
      → Failed redis q r o f id e s₁ s'
      → Failed redis q r o f id e s s'
  rebase-Failed q r o f id e s s₁ s' same h = record {
    counted = h.counted;
    status_field = h.status_field;
    code_field = h.code_field;
    message_field = h.message_field;
    hint_field = h.hint_field;
    coded = h.coded ∙ ap (λ n. some (int_or_zero n +ℤ pos 1)) same;
  }

  rebase-Reported :
      (limit q r o f : ℕ) (id : String) (outcome : RunOutcome Real) (s s₁ s' : Server)
      → ((code : ErrorCode) → code_count redis code s₁ ≡ code_count redis code s)
      → Reported redis limit q r o f id outcome s₁ s'
      → Reported redis limit q r o f id outcome s s'
  rebase-Reported limit q r o f id (finished result) s s₁ s' same h = h
  rebase-Reported limit q r o f id timed_out s s₁ s' same h =
      rebase-Failed q r o f id (timeout_failure limit) s s₁ s' (same _) h
  rebase-Reported limit q r o f id (budget_exceeded left message) s s₁ s' same h =
      rebase-Failed q r o f id (budget_failure left message) s s₁ s' (same _) h
  rebase-Reported limit q r o f id (provider_failed e) s s₁ s' same h =
      rebase-Failed q r o f id (provider_failure e) s s₁ s' (same _) h
  rebase-Reported limit q r o f id (value_error message) s s₁ s' same h =
      rebase-Failed q r o f id (value_failure message) s s₁ s' (same _) h
  rebase-Reported limit q r o f id (other_error message) s s₁ s' same h =
      rebase-Failed q r o f id (internal_failure message) s s₁ s' (same _) h

  -- From a server where the run is counted as queued, the worker moves one count from queued to
  -- succeeded or to failed, whatever the run ends in. The run's hash then has the result, or the
  -- code, the message and the hint that belong to the exception, whose code is counted once more;
  -- no field of another job's hash has changed.
  pub process_job-Reported :
      (limit started now q r o f : ℕ) (job : QueuedRun Real) (outcome : RunOutcome Real)
      (s : Server)
      → Counted redis (suc q) r o f s
      → Reported redis limit q r o f job.id outcome s
          (process_job redis limit started now job outcome s).0
        × Apart redis job.id s (process_job redis limit started now job outcome s).0
  unfolding process_job mark_running
  process_job-Reported limit started now q r o f job outcome s c =
      let s₁ = (mark_running redis started job s).0 in
      let job' : QueuedRun Real = record job { started_at = some started } in
      let (h, apart) =
        finish_job-Reported redis limit q r o f now job' outcome s₁
          (mark_running-Counted redis q r o f started job s c) in
      (
        rebase-Reported limit q r o f job.id outcome s s₁ _
            (λ code. mark_running-code_count code started job s) h,
        λ j k ne. apart j k ne ∙ mark_running-Apart started job s j k ne,
      )
