-- ===== src/Jobs/Counting.antt =====
-- The failure counts of `JobQueue` (backend/synqc_backend/jobs.py) in every interleaving.
use syn_qc_temporal_dynamics.Prelude.{
  ℕ, ◌+◌, String, str_eq, eq_iff, Bool, false, Option, none, some, ◌≡◌, refl, arith,
}
use syn_qc_temporal_dynamics.Dict.{get, get-put}
use syn_qc_temporal_dynamics.Dict.Tally.{tally, tally-put}
use syn_qc_temporal_dynamics.Models.{ErrorCode, code_value, RunExperimentRequest}
use syn_qc_temporal_dynamics.Jobs.Records.{queued, failed, JobRecord, new_record}
use syn_qc_temporal_dynamics.Jobs.{JobQueue, or_zero, count_failure}
use syn_qc_temporal_dynamics.Jobs.Steps.{
  Reach, here, next, Moves, begins, succeeds, stamps, stays, Change, idle, adds, moves, fails,
  Step-Change, failed_record,
}
use syn_qc_temporal_dynamics.Jobs.Failures.{Inv, Reach-Inv}

module _ (Real : Type 0) where
  abbrev has_code : String → Option ErrorCode → Bool
  has_code key none = false
  has_code key (some code) = str_eq (code_value code) key

  -- The job has failed with the code of this name.
  abbrev pub fails_with : String → JobRecord Real → Bool
  fails_with key r = elim r.status [ failed ↦ has_code key r.error_code | _ ↦ false ]

  -- Each count is the number of records that have failed with its code.
  unfoldable pub Counted : JobQueue Real → Type 0
  Counted q =
      (key : String) → or_zero Real (get key q.failure_counts) ≡ tally (fails_with key) q.jobs

  fails_with-Moves :
      (key : String) (r r' : JobRecord Real)
      → Moves Real r r'
      → fails_with key r' ≡ fails_with key r
  fails_with-Moves key r _ (begins now e) = ground arith
  fails_with-Moves key r _ (succeeds result e) = ground arith
  fails_with-Moves key r _ (stamps now e t) = refl
  fails_with-Moves key r _ stays = refl

  Counted-Change : (q q' : JobQueue Real) → Change Real q q' → Counted q → Counted q'
  unfolding Counted count_failure
  Counted-Change q q' (idle a b) c key = ground (arith, c key)
  Counted-Change q q' (adds id now req n a b) c key = ground (
    arith,
    c key,
    new-queued id now req,
    tally-put (fails_with key) id (new_record id now req) q.jobs,
  )
    where
      new-queued :
          (id' : String) (now' : ℕ) (req' : RunExperimentRequest Real)
          → (new_record id' now' req').status ≡ queued
      new-queued id' now' req' = unfold new_record in refl
  Counted-Change q q' (moves id r r' g m t a b) c key =
      ground (arith, c key, fails_with-Moves key r r' m, tally-put (fails_with key) id r' q.jobs)
  Counted-Change q q' (fails id r now error code message hint detail g act a b) c key = ground (
    arith,
    c key,
    get-put (code_value code) key (or_zero Real (get (code_value code) q.failure_counts) + 1)
        q.failure_counts,
    eq_iff (code_value code) key,
    tally-put (fails_with key) id (failed_record Real now error code message hint detail r) q.jobs,
  )

  -- Every failure is counted once, under its code, in every interleaving: whoever fails a job, the
  -- worker, a timer or a cancel, the counts that `stats` reports are those of the failed records.
  pub Reach-Counted : (q q' : JobQueue Real) → Inv Real q → Reach Real q q' → Counted q → Counted q'
  Reach-Counted q _ v here c = c
  Reach-Counted q _ v (next {q' = p} {q'' = p'} reach st) c =
      Counted-Change p p' (Step-Change Real p p' (Reach-Inv Real q p reach v).linked st)
        (Reach-Counted q p v reach c)
