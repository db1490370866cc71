-- ===== src/Queueing.antt =====
-- backend/synqc_backend/queueing.py: a list of waiting jobs, taken from its tail, and a sorted set of
-- delayed jobs.
use Prim.Native.String.{◌++◌ as str_append}
use syn_qc_temporal_dynamics.Prelude.{
  ℕ, zero, suc, ◌+◌, String, Bool, true, false, Option, none, some, ltb, if◌then◌else◌, length,
}
use syn_qc_temporal_dynamics.JobStore.Redis.{RedisServer}

-- `_queue_key`
unfoldable pub queue_key : String → String
queue_key queue_name = str_append "synqc:q:" queue_name

-- `_delayed_key`
unfoldable pub delayed_key : String → String
delayed_key queue_name = str_append "synqc:q:" (str_append queue_name ":delayed")

module _ (redis : RedisServer) where
  open redis use {Server, items, lpush, brpop, zadd, zpopmin}

  unfoldable pub enqueue : String → String → Server → Server
  enqueue queue_name job_id s = lpush (queue_key queue_name) job_id s

  -- `dequeue`: a list that stays empty for `block_seconds` gives nothing.
  unfoldable pub dequeue : String → Server → Server × Option String
  dequeue queue_name s = brpop (queue_key queue_name) s

  unfoldable pub schedule_delayed : ℕ → String → String → ℕ → Server → Server
  schedule_delayed now queue_name job_id delay_seconds s =
      zadd (delayed_key queue_name) job_id (now + delay_seconds) s

  -- One round of `pump_delayed`: whether the loop goes on, and the server after it.
  abbrev pub pump_popped : ℕ → String → Server × Option (String × ℕ) → Bool × Server
  pump_popped now queue_name (s, none) = (false, s)
  pump_popped now queue_name (s, some (job_id, due)) =
      if ltb now due
      then (false, zadd (delayed_key queue_name) job_id due s)
      else (true, lpush (queue_key queue_name) job_id s)

  -- `pump_delayed`: at most `limit` rounds; how many jobs were moved.
  unfoldable pub pump_delayed : ℕ → ℕ → String → Server → Server × ℕ
  pump_delayed zero now queue_name s = (s, 0)
  pump_delayed (suc limit) now queue_name s =
      let round = pump_popped now queue_name (zpopmin (delayed_key queue_name) s) in
      let rest = pump_delayed limit now queue_name round.1 in
      if round.0 then (rest.0, rest.1 + 1) else (round.1, 0)

  unfoldable pub queue_depth : String → Server → ℕ
  queue_depth queue_name s = length (items (queue_key queue_name) s)
