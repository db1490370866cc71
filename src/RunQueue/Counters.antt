-- ===== src/RunQueue/Counters.antt =====
-- The counters of backend/synqc_backend/run_queue.py under each operation.
use syn_qc_temporal_dynamics.Prelude.{
  ℕ, suc, String, str_eq, ◌≡◌, refl, ap, ◌∙◌, false, Option, arith, if◌then◌else◌, Bool-cases, inl,
  inr,
}
use syn_qc_temporal_dynamics.Prelude.Int.{ℤ, pos, negsuc, ◌+ℤ◌, pos-plus_one, pos-minus_one}
use syn_qc_temporal_dynamics.Dict.{Dict, get}
use syn_qc_temporal_dynamics.Models.{
  Detail, ErrorCode, code_value, RunExperimentRequest, RunExperimentResponse,
}
use syn_qc_temporal_dynamics.RunQueue.Redis.{Value, RunServer, int_or_zero}
use syn_qc_temporal_dynamics.RunQueue.Keys.{job_key-status_counts}
use syn_qc_temporal_dynamics.RunQueue.{
  QueuedRun, job_key, queue_key, status_counts_key, recent_key, failure_code_key,
  failure_target_key, status_count, count_target, enqueue, mark_running, complete_success,
  complete_failure,
}

module _ {Real : Type 0} (redis : RunServer Real) where
  open redis use {
    Server, fields, counts, items, hset, hincrby, rpush, blpop, zadd, count-hset, count-hincrby,
    count-rpush, count-zadd,
  }

  -- The four counters of the server.
  pub record Counted (queued running succeeded failed : ℕ) (s : Server) : Type 0 where
    pub queued_count : status_count redis "queued" s ≡ pos queued
    pub running_count : status_count redis "running" s ≡ pos running
    pub succeeded_count : status_count redis "succeeded" s ≡ pos succeeded
    pub failed_count : status_count redis "failed" s ≡ pos failed

  pub same-Counted :
      (q r o f : ℕ) (s s' : Server)
      → counts status_counts_key s' ≡ counts status_counts_key s
      → Counted q r o f s
      → Counted q r o f s'
  same-Counted q r o f s s' same c =
      let kept = λ (k : String). ap (λ d. int_or_zero (get k d)) same in
      record {
        queued_count = kept "queued" ∙ c.queued_count;
        running_count = kept "running" ∙ c.running_count;
        succeeded_count = kept "succeeded" ∙ c.succeeded_count;
        failed_count = kept "failed" ∙ c.failed_count;
      }

  pub hset-Counted :
      (q r o f : ℕ) (id : String) (m : Dict (Value Real)) (s : Server)
      → Counted q r o f s
      → Counted q r o f (hset (job_key id) m s)
  hset-Counted q r o f id m s =
      same-Counted q r o f s (hset (job_key id) m s)
        (count-hset (job_key id) status_counts_key m s (job_key-status_counts id))

  -- A count of another hash leaves the four counters.
  pub hincrby-Counted :
      (q r o f : ℕ) (k g : String) (d : ℤ) (s : Server)
      → str_eq k status_counts_key ≡ false
      → Counted q r o f s
      → Counted q r o f (hincrby k g d s)
  hincrby-Counted q r o f k g d s apart c =
      let kept = λ (h : String). ap int_or_zero (count-hincrby k status_counts_key g h d s) in
      record {
        queued_count = kept "queued" ∙ rw apart c.queued_count;
        running_count = kept "running" ∙ rw apart c.running_count;
        succeeded_count = kept "succeeded" ∙ rw apart c.succeeded_count;
        failed_count = kept "failed" ∙ rw apart c.failed_count;
      }

  bumped :
      (k g : String) (d : ℤ) (s : Server)
      → status_count redis g (hincrby status_counts_key k d s)
        ≡ (if str_eq k g then status_count redis g s +ℤ d else status_count redis g s)
  bumped k g d s = ground (arith, count-hincrby status_counts_key status_counts_key k g d s)

  more_queued :
      (q r o f : ℕ) (s : Server)
      → Counted q r o f s
      → Counted (suc q) r o f (hincrby status_counts_key "queued" (pos 1) s)
  more_queued q r o f s c = record {
    queued_count =
        bumped "queued" "queued" (pos 1) s ∙ ap (λ z. z +ℤ pos 1) c.queued_count ∙ pos-plus_one q;
    running_count = bumped "queued" "running" (pos 1) s ∙ c.running_count;
    succeeded_count = bumped "queued" "succeeded" (pos 1) s ∙ c.succeeded_count;
    failed_count = bumped "queued" "failed" (pos 1) s ∙ c.failed_count;
  }

  less_queued :
      (q r o f : ℕ) (s : Server)
      → Counted (suc q) r o f s
      → Counted q r o f (hincrby status_counts_key "queued" (negsuc 0) s)
  less_queued q r o f s c = record {
    queued_count =
        bumped "queued" "queued" (negsuc 0) s
        ∙ ap (λ z. z +ℤ negsuc 0) c.queued_count
        ∙ pos-minus_one q;
    running_count = bumped "queued" "running" (negsuc 0) s ∙ c.running_count;
    succeeded_count = bumped "queued" "succeeded" (negsuc 0) s ∙ c.succeeded_count;
    failed_count = bumped "queued" "failed" (negsuc 0) s ∙ c.failed_count;
  }

  more_running :
      (q r o f : ℕ) (s : Server)
      → Counted q r o f s
      → Counted q (suc r) o f (hincrby status_counts_key "running" (pos 1) s)
  more_running q r o f s c = record {
    queued_count = bumped "running" "queued" (pos 1) s ∙ c.queued_count;
    running_count =
        bumped "running" "running" (pos 1) s
        ∙ ap (λ z. z +ℤ pos 1) c.running_count
        ∙ pos-plus_one r;
    succeeded_count = bumped "running" "succeeded" (pos 1) s ∙ c.succeeded_count;
    failed_count = bumped "running" "failed" (pos 1) s ∙ c.failed_count;
  }

  less_running :
      (q r o f : ℕ) (s : Server)
      → Counted q (suc r) o f s
      → Counted q r o f (hincrby status_counts_key "running" (negsuc 0) s)
  less_running q r o f s c = record {
    queued_count = bumped "running" "queued" (negsuc 0) s ∙ c.queued_count;
    running_count =
        bumped "running" "running" (negsuc 0) s
        ∙ ap (λ z. z +ℤ negsuc 0) c.running_count
        ∙ pos-minus_one r;
    succeeded_count = bumped "running" "succeeded" (negsuc 0) s ∙ c.succeeded_count;
    failed_count = bumped "running" "failed" (negsuc 0) s ∙ c.failed_count;
  }

  more_succeeded :
      (q r o f : ℕ) (s : Server)
      → Counted q r o f s
      → Counted q r (suc o) f (hincrby status_counts_key "succeeded" (pos 1) s)
  more_succeeded q r o f s c = record {
    queued_count = bumped "succeeded" "queued" (pos 1) s ∙ c.queued_count;
    running_count = bumped "succeeded" "running" (pos 1) s ∙ c.running_count;
    succeeded_count =
        bumped "succeeded" "succeeded" (pos 1) s
        ∙ ap (λ z. z +ℤ pos 1) c.succeeded_count
        ∙ pos-plus_one o;
    failed_count = bumped "succeeded" "failed" (pos 1) s ∙ c.failed_count;
  }

  more_failed :
      (q r o f : ℕ) (s : Server)
      → Counted q r o f s
      → Counted q r o (suc f) (hincrby status_counts_key "failed" (pos 1) s)
  more_failed q r o f s c = record {
    queued_count = bumped "failed" "queued" (pos 1) s ∙ c.queued_count;
    running_count = bumped "failed" "running" (pos 1) s ∙ c.running_count;
    succeeded_count = bumped "failed" "succeeded" (pos 1) s ∙ c.succeeded_count;
    failed_count =
        bumped "failed" "failed" (pos 1) s ∙ ap (λ z. z +ℤ pos 1) c.failed_count ∙ pos-plus_one f;
  }

  pub enqueue-Counted :
      (q r o f now : ℕ) (id sid : String) (req : RunExperimentRequest Real) (s : Server)
      → Counted q r o f s
      → Counted (suc q) r o f (enqueue redis now id req sid s)
  unfolding enqueue
  enqueue-Counted q r o f now id sid req s c =
      let stored = hset (job_key id) _ s in
      more_queued q r o f _ (
        same-Counted q r o f stored _
          (count-zadd recent_key status_counts_key id now (rpush queue_key id stored)
            ∙ count-rpush queue_key status_counts_key id stored)
          (hset-Counted q r o f id _ s c))

  pub mark_running-Counted :
      (q r o f now : ℕ) (job : QueuedRun Real) (s : Server)
      → Counted (suc q) r o f s
      → Counted q (suc r) o f (mark_running redis now job s).0
  unfolding mark_running
  mark_running-Counted q r o f now job s c =
      more_running q r o f _ (less_queued q r o f _ (hset-Counted (suc q) r o f job.id _ s c))

  pub complete_success-Counted :
      (q r o f now : ℕ) (job : QueuedRun Real) (result : RunExperimentResponse Real) (s : Server)
      → Counted q (suc r) o f s
      → Counted q r (suc o) f (complete_success redis now job result s).0
  unfolding complete_success
  complete_success-Counted q r o f now job result s c =
      more_succeeded q r o f _ (less_running q r o f _ (hset-Counted q (suc r) o f job.id _ s c))

  count_target-Counted :
      (q r o f : ℕ) (target : String) (s : Server)
      → Counted q r o f s
      → Counted q r o f (count_target redis target s)
  count_target-Counted q r o f target s c = elim (Bool-cases (str_eq target "")) [
    | inl e ↦ rw e c
    | inr e ↦ rw e (hincrby-Counted q r o f failure_target_key target (pos 1) s refl c)
  ]

  pub complete_failure-Counted :
      (q r o f now : ℕ) (job : QueuedRun Real) (code : ErrorCode) (message : String)
      (hint : Option String) (given : Option Detail) (s : Server)
      → Counted q (suc r) o f s
      → Counted q r o (suc f) (complete_failure redis now job code message hint given s).0
  unfolding complete_failure
  complete_failure-Counted q r o f now job code message hint given s c =
      count_target-Counted q r o (suc f) job.run_request.hardware_target _ (
        hincrby-Counted q r o (suc f) failure_code_key (code_value code) (pos 1) _ refl (
          more_failed q r o f _ (less_running q r o f _ (hset-Counted q (suc r) o f job.id _ s c))))
