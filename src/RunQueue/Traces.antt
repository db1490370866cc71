-- ===== src/RunQueue/Traces.antt =====
-- `RedisRunQueue` of backend/synqc_backend/run_queue.py over every history of its clients and
-- workers, each operation a step.
use syn_qc_temporal_dynamics.Prelude.{
  ℕ, zero, suc, ◌+◌, String, ◌≡◌, Option, none, some, List, [], ◌∷◌, Result, ok, raise, length,
}
use syn_qc_temporal_dynamics.Models.{Detail, ErrorCode, RunExperimentRequest, RunExperimentResponse}
use syn_qc_temporal_dynamics.RunQueue.Redis.{RunServer}
use syn_qc_temporal_dynamics.RunQueue.{
  QueuedRun, enqueue, claim_next, mark_running, complete_success, complete_failure,
}
use syn_qc_temporal_dynamics.RunQueue.Counters.{Counted}
use syn_qc_temporal_dynamics.RunQueue.Waiting.{Waits}

-- The element at a place, and the others.
abbrev pub take_at {ℓ} : {A : Type ℓ} → ℕ → List A → Option (A × List A)
take_at n [] = none
take_at zero (x ∷ xs) = some (x, xs)
take_at (suc n) (x ∷ xs) = elim (take_at n xs) [ none ↦ none | some (y, ys) ↦ some (y, x ∷ ys) ]

module _ {Real : Type 0} (redis : RunServer Real) where
  open redis use {Server, counts, items, blpop, count-blpop}

  -- The server, the runs that a worker has claimed and not yet marked, and the runs that are marked
  -- as running.
  pub record System : Type 0 where
    pub server : Server
    pub waiting : List (QueuedRun Real)
    pub busy : List (QueuedRun Real)

  -- A step of a client or of a worker. The place says which of the claimed or running runs it is
  -- about; where there is none, nothing happens.
  pub data Event : Type 0 where
    submit : ℕ → String → RunExperimentRequest Real → String → Event
    claim : ℕ → Event
    start : (place now : ℕ) → Event
    succeed : (place now : ℕ) → RunExperimentResponse Real → Event
    fail : (place now : ℕ) → ErrorCode → String → Option String → Option Detail → Event

  abbrev pub after_claim : Server × Result String (Option (QueuedRun Real)) → System → System
  after_claim (s, ok none) y = record y { server = s }
  after_claim (s, ok (some job)) y = record y { server = s; waiting = job ∷ y.waiting }
  after_claim (s, raise e) y = record y { server = s }

  abbrev pub after_start : ℕ → Option (QueuedRun Real × List (QueuedRun Real)) → System → System
  after_start now none y = y
  after_start now (some (job, others)) y =
      let (s, job') = mark_running redis now job y.server in
      record { server = s; waiting = others; busy = job' ∷ y.busy }

  abbrev pub after_end :
      (QueuedRun Real → Server → Server × QueuedRun Real)
      → Option (QueuedRun Real × List (QueuedRun Real))
      → System
      → System
  after_end finish none y = y
  after_end finish (some (job, others)) y = record y {
    server = (finish job y.server).0;
    busy = others;
  }

  unfoldable pub after : Event → System → System
  after (submit now id req sid) y = record y { server = enqueue redis now id req sid y.server }
  after (claim now) y = after_claim (claim_next redis now y.server) y
  after (start place now) y = after_start now (take_at place y.waiting) y
  after (succeed place now result) y =
      after_end (λ job s. complete_success redis now job result s) (take_at place y.busy) y
  after (fail place now code message hint given) y =
      after_end (λ job s. complete_failure redis now job code message hint given s)
        (take_at place y.busy) y

  unfoldable pub after_all : List Event → System → System
  after_all [] y = y
  after_all (e ∷ es) y = after_all es (after e y)

  -- How many runs are submitted.
  unfoldable pub submitted : List Event → ℕ
  submitted [] = 0
  submitted (submit now id req sid ∷ es) = suc (submitted es)
  submitted (claim now ∷ es) = submitted es
  submitted (start place now ∷ es) = submitted es
  submitted (succeed place now result ∷ es) = submitted es
  submitted (fail place now code message hint given ∷ es) = submitted es

  -- The counters agree with the runs, of which there are `n`.
  pub record Balanced (n : ℕ) (y : System) : Type 0 where
    pub ids : List String
    pub succeeded : ℕ
    pub failed : ℕ
    pub waits : Waits redis ids y.server
    pub counted :
        Counted redis (length ids + length y.waiting) (length y.busy) succeeded failed y.server
    pub all : length ids + length y.waiting + length y.busy + succeeded + failed ≡ n
