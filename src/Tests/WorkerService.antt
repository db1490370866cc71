-- ===== src/Tests/WorkerService.antt =====
-- backend/synqc_backend/job_store.py and worker_service.py on a server that keeps its values in
-- functions of their keys.
use syn_qc_temporal_dynamics.Prelude.{
  ℕ, ◌+◌, ◌<◌, ◌≤◌, ltb, String, str_eq, eq_iff, ◌≡◌, refl, true, false, ◌&&◌, Option, none, some,
  List, [], ◌∷◌, ◌++◌, arith, if◌then◌else◌, ok,
}
use syn_qc_temporal_dynamics.Dict.{Dict, get, put}
use syn_qc_temporal_dynamics.JobStore.Redis.{Value, text, number, RedisServer, first, number_or}
use syn_qc_temporal_dynamics.JobStore.{
  JobStatus, queued, job_key, idempotency_key, parse_status, read_status, parse_created,
  parse_input, parse_result, parse_error, read_record, create_job, get_job, update_status,
  increment_attempts, set_result, set_error,
}
use syn_qc_temporal_dynamics.JobStore.Fields.{IsJob}
use syn_qc_temporal_dynamics.JobStore.Creation.{create_job_twice}
use syn_qc_temporal_dynamics.Queueing.{
  delayed_key, enqueue, dequeue, schedule_delayed, pump_delayed,
}
use syn_qc_temporal_dynamics.WorkerService.{
  contains, Outcome, timed_out, error, attempts_allowed, is_transient_error, delay_of, settle, work,
  process_one, write_heartbeat,
}
use syn_qc_temporal_dynamics.WorkerService.Attempts.{
  Settled, work-Settled, rounds, rounds-end, is_ended,
}

record Memory : Type 0 where
  texts : String → Option String
  hashes : String → Dict Value
  scores : String → String → Option ℕ

abbrev set_at {ℓ} : {A : Type ℓ} → String → A → (String → A) → String → A
set_at k v f j = if str_eq k j then v else f j

-- New entries stand before the old ones.
get-append : (f : String) (m d : Dict Value) → get f (m ++ d) ≡ first (get f m) (get f d)
unfolding get
get-append f [] d = refl
get-append f ((k, v) ∷ m) d = ground (arith, get-append f m d)

abbrev on_hash : String → (Dict Value → Dict Value) → Memory → Memory
on_hash k change s = record s { hashes = set_at k (change (s.hashes k)) s.hashes }

bumped : String → Dict Value → Dict Value
bumped f d = (f, number (number_or 0 (get f d) + 1)) ∷ d

hset_law :
    (k j f : String) (m : Dict Value) (s : Memory)
    → get f ((on_hash k (λ d. m ++ d) s).hashes j)
      ≡ (if str_eq k j then first (get f m) (get f (s.hashes j)) else get f (s.hashes j))
hset_law k j f m s = ground (arith, eq_iff k j, get-append f m (s.hashes k))

hincr_law :
    (k j f g : String) (n : ℕ) (s : Memory)
    → get f (s.hashes k) ≡ some (number n)
    → get g ((on_hash k (bumped f) s).hashes j)
      ≡ (if str_eq k j && str_eq f g then some (number (n + 1)) else get g (s.hashes j))
unfolding bumped get
hincr_law k j f g n s h = ground (arith, h, eq_iff k j)

-- SETEX refuses a lifetime of 0.
abbrev put_ex : String → ℕ → String → Memory → Memory
put_ex k ttl v s = if ltb 0 ttl then record s { texts = set_at k (some v) s.texts } else s

-- EXPIRE with 0 deletes the key.
abbrev lapse : String → ℕ → Memory → Memory
lapse k ttl s =
    if ltb 0 ttl
    then s
    else record s { texts = set_at k none s.texts; hashes = set_at k [] s.hashes }

value_law :
    (k j v : String) (ttl : ℕ) (s : Memory)
    → 0 < ttl
    → (put_ex k ttl v s).texts j ≡ (if str_eq k j then some v else s.texts j)
value_law k j v ttl s live = ground (arith, live)

kept_law :
    (k j v : String) (ttl : ℕ) (s : Memory) → 0 < ttl → (put_ex k ttl v s).hashes j ≡ s.hashes j
kept_law k j v ttl s live = ground (arith, live)

expire_law : (k j : String) (ttl : ℕ) (s : Memory) → 0 < ttl → (lapse k ttl s).hashes j ≡ s.hashes j
expire_law k j ttl s live = ground (arith, live)

score_law :
    (k j m m' : String) (n : ℕ) (s : Memory)
    → set_at k (set_at m (some n) (s.scores k)) s.scores j m'
      ≡ (if str_eq k j && str_eq m m' then some n else s.scores j m')
score_law k j m m' n s = ground (arith, eq_iff k j)

abbrev redis : RedisServer
redis = record {
  Server = Memory;
  value = λ k s. s.texts k;
  set_ex = put_ex;
  hgetall = λ k s. s.hashes k;
  hset = λ k m s. on_hash k (λ d. m ++ d) s;
  hincr = λ k f s. on_hash k (bumped f) s;
  expire = lapse;
  items = λ k s. [];
  lpush = λ k v s. s;
  brpop = λ k s. (s, none);
  score = λ k m s. s.scores k m;
  zadd = λ k m n s. record s { scores = set_at k (set_at m (some n) (s.scores k)) s.scores };
  zpopmin = λ k s. (s, none);
  value-set_ex = value_law;
  field-set_ex = kept_law;
  field-hset = hset_law;
  field-hincr = hincr_law;
  field-expire = expire_law;
  field-zadd = λ k j m n s. refl;
  score-zadd = score_law;
}

abbrev empty : Memory
empty = record { texts = λ k. none; hashes = λ k. []; scores = λ k m. none }

program : Unit {0}
unfolding get put bumped contains delayed_key job_key idempotency_key parse_status read_status
    parse_created parse_input parse_result parse_error read_record create_job get_job update_status
    increment_attempts set_result set_error enqueue dequeue schedule_delayed pump_delayed
    attempts_allowed is_transient_error delay_of settle work process_one write_heartbeat rounds
program = tt

-- A job of two attempts, created on the empty server.
abbrev created : Memory
created = (create_job redis 5 "j" "echo" [] (some "key") 2 100 50 empty).0

created-IsJob : IsJob redis "j" queued 0 2 created
unfolding create_job
created-IsJob =
    (create_job_twice redis 5 6 100 50 2 2 "j" "i" "echo" "key" [] [] empty (omega arith)
      (omega arith) refl refl refl).2

create_job_twice_example :
    let r = create_job redis 5 "j" "echo" [] (some "key") 2 100 50 empty in
    (r.1 ≡ "j")
    × (r.2 ≡ false)
    × IsJob redis "j" queued 0 2 r.0
    × (create_job redis 6 "i" "echo" [] (some "key") 2 100 50 r.0 ≡ (r.0, "j", true))
create_job_twice_example =
    create_job_twice redis 5 6 100 50 2 2 "j" "i" "echo" "key" [] [] empty (omega arith)
      (omega arith) refl refl refl

abbrev outcomes : List (ℕ × Outcome)
outcomes =
    (7, error "ConnectionError" "connection refused" "" "connectionerror: connection refused")
    ∷ (9, timed_out)
    ∷ []

retried :
    get "status" ((rounds redis "q" "j" outcomes created).hashes "synqc:job:j")
    ≡ some (text "failed")
unfolding program
retried = refl

work-Settled_example :
    ((work redis 7 "q" "j" timed_out created).1 ≡ ok tt)
    × Settled redis 7 "q" "j" 1 2 (work redis 7 "q" "j" timed_out created).0
work-Settled_example = work-Settled redis 7 "q" "j" queued 0 2 timed_out created created-IsJob

rounds-end_example :
    (st : JobStatus) × (m : ℕ) × IsJob redis "j" st m 2 (rounds redis "q" "j" outcomes created)
    × (is_ended st ≡ true)
    × (m ≤ attempts_allowed 2)
unfolding attempts_allowed
rounds-end_example = rounds-end redis "q" "j" 2 outcomes created created-IsJob (omega arith)
