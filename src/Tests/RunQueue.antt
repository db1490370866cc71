-- ===== src/Tests/RunQueue.antt =====
-- backend/synqc_backend/run_queue.py and worker.py on a server that keeps its values in functions of
-- their keys.
use syn_qc_temporal_dynamics.Prelude.{
  ℕ, ◌+◌, String, str_eq, eq_iff, ◌≡◌, refl, ◌&&◌, Option, none, some, List, [], ◌∷◌, ◌++◌, arith,
  if◌then◌else◌, length,
}
use syn_qc_temporal_dynamics.Prelude.Int.{ℤ, pos, ◌+ℤ◌}
use syn_qc_temporal_dynamics.Dict.{Dict, get, put}
use syn_qc_temporal_dynamics.Models.{latency, timeout, code_value, RunExperimentRequest}
use syn_qc_temporal_dynamics.RunQueue.Redis.{Value, RunServer, first, int_or_zero}
use syn_qc_temporal_dynamics.RunQueue.{
  QueuedRun, job_key, queue_key, failure_detail, enqueue, claim_next, mark_running,
  complete_success, complete_failure, stats,
}
use syn_qc_temporal_dynamics.RunQueue.Counters.{Counted}
use syn_qc_temporal_dynamics.RunQueue.Traces.{
  Event, submit, claim, start, fail, after, after_all, submitted,
}
use syn_qc_temporal_dynamics.RunQueue.Accounts.{after_all-Accounted}
use syn_qc_temporal_dynamics.RunWorker.{timed_out, handle_failure, finish_job, process_job}
use syn_qc_temporal_dynamics.RunWorker.Outcomes.{Reported, Apart}
use syn_qc_temporal_dynamics.RunWorker.Process.{process_job-Reported}

record Memory : Type 0 where
  hashes : String → Dict (Value ℕ)
  numbers : String → Dict ℤ
  lists : String → List String

abbrev set_at {ℓ} : {A : Type ℓ} → String → A → (String → A) → String → A
set_at k v f j = if str_eq k j then v else f j

abbrev counted_up : String → ℤ → Dict ℤ → Dict ℤ
counted_up f n d = (f, int_or_zero (get f d) +ℤ n) ∷ d

abbrev popped : String → List String → Memory → Memory × Option String
popped k [] s = (s, none)
popped k (x ∷ xs) s = (record s { lists = set_at k xs s.lists }, some x)

abbrev push : String → String → Memory → Memory
push k v s = record s { lists = set_at k (s.lists k ++ (v ∷ [])) s.lists }

abbrev write : String → Dict (Value ℕ) → Memory → Memory
write k m s = record s { hashes = set_at k (m ++ s.hashes k) s.hashes }

abbrev bump : String → String → ℤ → Memory → Memory
bump k f n s = record s { numbers = set_at k (counted_up f n (s.numbers k)) s.numbers }

get-append : (f : String) (m d : Dict (Value ℕ)) → get f (m ++ d) ≡ first (get f m) (get f d)
unfolding get
get-append f [] d = refl
get-append f ((k, v) ∷ m) d = ground (arith, get-append f m d)

hset_law :
    (k j f : String) (m : Dict (Value ℕ)) (s : Memory)
    → get f ((write k m s).hashes j)
      ≡ (if str_eq k j then first (get f m) (get f (s.hashes j)) else get f (s.hashes j))
hset_law k j f m s = ground (arith, eq_iff k j, get-append f m (s.hashes k))

hincrby_law :
    (k j f g : String) (n : ℤ) (s : Memory)
    → get g ((bump k f n s).numbers j) ≡ (
        if str_eq k j && str_eq f g
        then some (int_or_zero (get g (s.numbers j)) +ℤ n)
        else get g (s.numbers j))
unfolding get
hincrby_law k j f g n s = ground (arith, eq_iff k j, eq_iff f g)

rpush_law :
    (k j v : String) (s : Memory)
    → (push k v s).lists j ≡ (if str_eq k j then s.lists j ++ (v ∷ []) else s.lists j)
rpush_law k j v s = ground (arith, eq_iff k j)

popped-hashes :
    (k j : String) (xs : List String) (s : Memory) → (popped k xs s).0.hashes j ≡ s.hashes j
popped-hashes k j [] s = refl
popped-hashes k j (x ∷ xs) s = refl

popped-numbers :
    (k j : String) (xs : List String) (s : Memory) → (popped k xs s).0.numbers j ≡ s.numbers j
popped-numbers k j [] s = refl
popped-numbers k j (x ∷ xs) s = refl

empty_law : (k : String) (s : Memory) → s.lists k ≡ [] → (popped k (s.lists k) s).1 ≡ none
empty_law k s e = rw e refl

head_law :
    (k x : String) (xs : List String) (s : Memory)
    → s.lists k ≡ x ∷ xs
    → ((popped k (s.lists k) s).1 ≡ some x) × ((popped k (s.lists k) s).0.lists k ≡ xs)
head_law k x xs s e = rw (e, (eq_iff k k).1 refl) (refl, refl)

same_law : (k : String) (s : Memory) → s.lists k ≡ [] → (popped k (s.lists k) s).0.lists k ≡ []
same_law k s e = rw e e

abbrev redis : RunServer ℕ
redis = record {
  Server = Memory;
  fields = λ k s. s.hashes k;
  counts = λ k s. s.numbers k;
  items = λ k s. s.lists k;
  hset = write;
  hincrby = bump;
  rpush = push;
  blpop = λ k s. popped k (s.lists k) s;
  zadd = λ k v n s. s;
  field-hset = hset_law;
  field-hincrby = λ k j f d s e. refl;
  field-rpush = λ k j v s. refl;
  field-blpop = λ k j s. popped-hashes k j (s.lists k) s;
  field-zadd = λ k j v n s. refl;
  count-hset = λ k j m s e. refl;
  count-hincrby = hincrby_law;
  count-rpush = λ k j v s. refl;
  count-blpop = λ k j s. popped-numbers k j (s.lists k) s;
  count-zadd = λ k j v n s. refl;
  items-hset = λ k j m s. refl;
  items-hincrby = λ k j f d s. refl;
  items-rpush = rpush_law;
  items-zadd = λ k j v n s. refl;
  blpop-empty = empty_law;
  blpop-head = head_law;
  blpop-same = same_law;
}

abbrev empty : Memory
empty = record { hashes = λ k. []; numbers = λ k. []; lists = λ k. [] }

program : Unit {0}
unfolding get put ◌+ℤ◌ job_key failure_detail code_value enqueue claim_next mark_running
    complete_success complete_failure stats after after_all submitted handle_failure finish_job
    process_job
program = tt

abbrev req : RunExperimentRequest ℕ
req = record {
  preset = latency;
  hardware_target = "sim_local";
  shot_budget = none;
  notes = none;
  control_overrides = none;
}

-- Three runs; one is claimed and fails, and one is claimed.
abbrev events : List (Event redis)
events =
    submit 1 "a" req "s"
    ∷ submit 2 "b" req "s"
    ∷ claim 3
    ∷ start 0 4
    ∷ submit 5 "c" req "s"
    ∷ fail 0 6 timeout "late" none none
    ∷ claim 7
    ∷ []

empty-Counted : Counted redis 0 0 0 0 empty
unfolding get
empty-Counted = record {
  queued_count = refl;
  running_count = refl;
  succeeded_count = refl;
  failed_count = refl;
}

reported :
    (stats redis 9 2
      (after_all redis events (record { server = empty; waiting = []; busy = [] })).server).total
    ≡ pos 3
unfolding program
reported = refl

after_all-Accounted_example :
    let y = after_all redis events (record { server = empty; waiting = []; busy = [] }) in
    let report = stats redis 9 2 y.server in
    let queued = length (redis.items queue_key y.server) + length y.waiting in
    (report.total ≡ pos (submitted redis events))
    × (report.queued ≡ pos queued)
    × (report.running ≡ pos (length y.busy))
    × (o : ℕ) × (f : ℕ) × (report.succeeded ≡ pos o)
    × (report.failed ≡ pos f)
    × (queued + length y.busy + o + f ≡ submitted redis events)
after_all-Accounted_example = after_all-Accounted redis events empty 9 2 refl empty-Counted

abbrev run : QueuedRun ℕ
run = record {
  id = "a";
  run_request = req;
  session_id = "s";
  created_at = 1;
  started_at = none;
  finished_at = none;
}

abbrev queued : Memory
queued = (claim_next redis 3 (enqueue redis 1 "a" req "s" empty)).0

queued-Counted : Counted redis 1 0 0 0 queued
unfolding program
queued-Counted = record {
  queued_count = refl;
  running_count = refl;
  succeeded_count = refl;
  failed_count = refl;
}

process_job-Reported_example :
    Reported redis 60 0 0 0 0 "a" timed_out queued (process_job redis 60 4 6 run timed_out queued).0
    × Apart redis "a" queued (process_job redis 60 4 6 run timed_out queued).0
process_job-Reported_example =
    process_job-Reported redis 60 4 6 0 0 0 0 run timed_out queued queued-Counted
