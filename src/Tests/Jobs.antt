-- ===== src/Tests/Jobs.antt =====
-- backend/synqc_backend/jobs.py.
use syn_qc_temporal_dynamics.Prelude.{
  ℕ, ◌≤◌, ◌<◌, true, false, none, some, [], ◌∷◌, ◌≡◌, ◌⊎◌, refl, arith, ok, raise,
}
use syn_qc_temporal_dynamics.Prelude.Int.{pos}
use syn_qc_temporal_dynamics.Dict.{get, put}
use syn_qc_temporal_dynamics.Dict.Tally.{tally}
use syn_qc_temporal_dynamics.Models.{health, internal_error, code_value, RunExperimentRequest}
use syn_qc_temporal_dynamics.Jobs.Records.{queued, failed, JobRecord, new_record}
use syn_qc_temporal_dynamics.Jobs.{
  pending, working, finished, value_error, JobQueue, active, admit, insert, submit, enqueue, cancel,
  shutdown,
}
use syn_qc_temporal_dynamics.Jobs.Threads.{start, complete}
use syn_qc_temporal_dynamics.Jobs.Steps.{starts, completes, cancels, Reach, here, next, Linked}
use syn_qc_temporal_dynamics.Jobs.Failures.{Inv, EndedAs, Reach-ended}
use syn_qc_temporal_dynamics.Jobs.Counting.{Counted, Reach-Counted}
use syn_qc_temporal_dynamics.Jobs.Pending.{
  Accepted, enqueue_decides, enqueue_stranded, enqueue_race,
}

abbrev request : RunExperimentRequest ℕ
request = record {
  preset = health;
  hardware_target = "sim_local";
  shot_budget = some (pos 64);
  notes = none;
  control_overrides = none;
}

-- A job that has failed, and one that waits for a thread.
abbrev ended : JobRecord ℕ
ended = record {
  id = "a";
  request = request;
  status = failed;
  created_at = 1;
  started_at = some 2;
  finished_at = some 3;
  result = none;
  error = some "boom";
  error_detail = none;
  error_code = some internal_error;
  error_message = some "boom";
  action_hint = none;
}

abbrev waiting : JobRecord ℕ
waiting = record {
  id = "b";
  request = request;
  status = queued;
  created_at = 4;
  started_at = none;
  finished_at = none;
  result = none;
  error = none;
  error_detail = none;
  error_code = none;
  error_message = none;
  action_hint = none;
}

abbrev queue : JobQueue ℕ
queue = record {
  jobs = ("a", ended) ∷ ("b", waiting) ∷ [];
  futures = ("a", finished) ∷ ("b", pending) ∷ [];
  cancel_events = ("a", false) ∷ ("b", false) ∷ [];
  timers = [];
  failure_counts = ("INTERNAL_ERROR", 1) ∷ [];
  store = none;
  metrics = [];
  job_timeout_seconds = 30;
  max_pending = 2;
  is_shutdown = false;
  executor_closed = false;
}

queue-Linked : Linked ℕ queue
unfolding Linked get
queue-Linked k = ground arith

queue-Inv : Inv ℕ queue
unfolding get
queue-Inv = record {
  unique_jobs = (refl, (refl, tt));
  unique_futures = (refl, (refl, tt));
  linked = queue-Linked;
}

queue-Counted : Counted ℕ queue
unfolding Counted get tally code_value
queue-Counted key = ground arith

started : JobQueue ℕ
started = start ℕ 5 "b" queue

started-working : get "b" started.futures ≡ some working
unfolding started start get put
started-working = refl

-- A thread takes the waiting job, the worker function raises, and a late cancel comes for the job
-- that had failed before.
done : JobQueue ℕ
done = complete ℕ none 6 "b" (value_error "bad") started

queue-Reach : Reach ℕ queue (cancel ℕ none 7 "a" "late" done).0
unfolding get started done
queue-Reach =
    next
      (next (next here (starts 5 "b" refl))
        (completes none 6 "b" (value_error "bad") started-working))
      (cancels none 7 "a" "late")

Reach-ended_example : EndedAs ℕ ended (get "a" (cancel ℕ none 7 "a" "late" done).0.jobs)
unfolding get
Reach-ended_example =
    Reach-ended ℕ queue (cancel ℕ none 7 "a" "late" done).0 "a" ended queue-Inv queue-Reach refl
      refl

Reach-Counted_example : Counted ℕ (cancel ℕ none 7 "a" "late" done).0
Reach-Counted_example =
    Reach-Counted ℕ queue (cancel ℕ none 7 "a" "late" done).0 queue-Inv queue-Reach queue-Counted

enqueue_decides_example :
    let r = enqueue ℕ "c" 8 request queue in
    ((queue.is_shutdown ≡ false)
      × (active ℕ queue.jobs < 2)
      × (r.1 ≡ ok "c")
      × Accepted ℕ "c" 8 request queue r.0)
    ⊎ ((queue.is_shutdown ≡ true)
        × (r ≡ (queue, raise "JobQueue is shutting down; cannot enqueue new jobs")))
    ⊎ ((queue.is_shutdown ≡ false)
        × (2 ≤ active ℕ queue.jobs)
        × (r ≡ (queue, raise "Queue is full; try again later")))
unfolding get
enqueue_decides_example = enqueue_decides ℕ "c" 8 request queue refl (λ _. refl)

enqueue_stranded_example :
    let q' = insert ℕ "c" 8 request (shutdown ℕ queue) in
    ((submit ℕ "c" q').1 ≡ raise "cannot schedule new futures after shutdown")
    × (get "c" (submit ℕ "c" q').0.jobs ≡ some (new_record "c" 8 request))
    × (get "c" (submit ℕ "c" q').0.futures ≡ none)
unfolding get
enqueue_stranded_example = enqueue_stranded ℕ "c" 8 request queue refl (refl, (refl, tt))

enqueue_race_example :
    (admit ℕ queue ≡ ok tt)
    × (2 < active ℕ (insert ℕ "d" 9 request (insert ℕ "c" 8 request queue)).jobs)
unfolding get active tally
enqueue_race_example = enqueue_race ℕ queue "c" "d" 8 9 request request refl refl refl refl refl
