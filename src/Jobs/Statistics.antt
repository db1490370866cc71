-- ===== src/Jobs/Statistics.antt =====
-- `stats` of backend/synqc_backend/jobs.py.
use syn_qc_temporal_dynamics.Prelude.{
  ℕ, ◌-◌, Bool, true, false, Option, none, some, [], ◌∷◌, ltb, if◌then◌else◌, length,
}
use syn_qc_temporal_dynamics.Dict.{Dict}
use syn_qc_temporal_dynamics.Dict.Tally.{tally}
use syn_qc_temporal_dynamics.Jobs.Records.{
  JobStatus, queued, succeeded, failed, JobRecord, is_running,
}
use syn_qc_temporal_dynamics.Jobs.{JobQueue}

module _ (Real : Type 0) where
  -- The counts of `stats`, by status.
  unfoldable pub count_status : (JobStatus → Bool) → Dict (JobRecord Real) → ℕ
  count_status p jobs = tally (λ r. p r.status) jobs

  -- `stats`: the totals, and the age of the oldest queued job.
  pub record Stats : Type 0 where
    pub total : ℕ
    pub queued_count : ℕ
    pub running_count : ℕ
    pub succeeded_count : ℕ
    pub failed_count : ℕ
    pub oldest_queued_age : Option ℕ
    pub failure_codes : Dict ℕ

  abbrev pub older : Option ℕ → ℕ → Option ℕ
  older none age = some age
  older (some best) age = if ltb best age then some age else some best

  unfoldable pub oldest_age : ℕ → Option ℕ → Dict (JobRecord Real) → Option ℕ
  oldest_age now best [] = best
  oldest_age now best ((k, r) ∷ jobs) =
      oldest_age now (elim r.status [ queued ↦ older best (now - r.created_at) | _ ↦ best ]) jobs

  unfoldable pub stats : ℕ → JobQueue Real → Stats
  unfolding count_status oldest_age
  stats now q = record {
    total = length q.jobs;
    queued_count = count_status (λ s. elim s [ queued ↦ true | _ ↦ false ]) q.jobs;
    running_count = count_status is_running q.jobs;
    succeeded_count = count_status (λ s. elim s [ succeeded ↦ true | _ ↦ false ]) q.jobs;
    failed_count = count_status (λ s. elim s [ failed ↦ true | _ ↦ false ]) q.jobs;
    oldest_queued_age = oldest_age now none q.jobs;
    failure_codes = q.failure_counts;
  }
