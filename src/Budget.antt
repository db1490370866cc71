-- ===== src/Budget.antt =====
-- backend/synqc_backend/budget.py: the tracker of the shots that each session has used, with a
-- hard cap. `BudgetTracker` with a Redis client shares the usage through the script
-- `_LUA_RESERVE`; without one, or on an error with `fail_open_on_redis_error`, it keeps the
-- dictionary `_in_memory_usage`.
-- The Redis server is a parameter: its commands, with what their documentation says of them. A
-- call of the server has an outcome, which the environment chooses (`Call`). Times are whole
-- numbers of one unit; `now` is what `time.time()` returns.
pub mod Redis
pub mod Memory
pub mod Script
pub mod Cap
pub mod Capped
pub mod History
pub mod Local
pub mod Shared
use Prim.Native.String.{◌++◌ as str_append}
use syn_qc_temporal_dynamics.Prelude.{
  ℕ, zero, suc, ◌+◌, ◌-◌, ◌<◌, String, Bool, true, false, Option, none, some, List, leb, ltb,
  if◌then◌else◌, length, Result, ok, raise,
}
use syn_qc_temporal_dynamics.Prelude.Int.{ℤ, pos, negsuc}
use syn_qc_temporal_dynamics.Dict.{Dict, get, put, pop}
use syn_qc_temporal_dynamics.Dict.Sweep.{keys_if, pop_all}
use Redis.{RedisStrings, Call, answered, refused, lost}

-- `ValueError`, and `BudgetBackendUnavailable`.
pub data Error : Type 0 where
  value_error : String → Error
  backend_unavailable : String → Error

-- `_in_memory_usage`: session_id -> (shots_used, last_seen_ts).
abbrev pub Usage : Type 0
Usage = Dict (ℕ × ℕ)

-- `now - ts >= ttl`
abbrev pub is_expired : ℕ → ℕ → ℕ × ℕ → Bool
is_expired now ttl (shots, ts) = leb (ts + ttl) now

unfoldable pub evict_expired : ℕ → ℕ → Usage → Usage
evict_expired now ttl usage = pop_all (keys_if (is_expired now ttl) usage) usage

-- `usage.get(session_id, (0, now))`
abbrev pub entry_or : ℕ → Option (ℕ × ℕ) → ℕ × ℕ
entry_or now none = (0, now)
entry_or now (some e) = e

-- `_reserve_memory`, after `requested` and the maximum have been checked.
unfoldable pub reserve_memory : ℕ → ℕ → Usage → String → ℕ → ℕ → Usage × Bool × ℕ
reserve_memory now ttl usage session_id requested max_shots =
    let live = evict_expired now ttl usage in
    let current = (entry_or now (get session_id live)).0 in
    let new_total = current + requested in
    if ltb max_shots new_total
    then (put session_id (current, now) live, false, current)
    else (put session_id (new_total, now) live, true, new_total)

-- `f"synqc:session:{session_id}:shots"`
unfoldable pub session_key : String → String
session_key session_id = str_append "synqc:session:" (str_append session_id ":shots")

module _ (redis : RedisStrings) where
  open redis use {Server, get_key, set_key, set_ex, expire, del_key}

  -- `tonumber(redis.call("GET", key) or "0")`
  unfoldable pub stored : Server → String → ℕ
  stored server key = elim (get_key server key) [ none ↦ 0 | some v ↦ v ]

  -- `_LUA_RESERVE`: the server after the script, and the two numbers that it returns.
  unfoldable pub lua_reserve : Server → String → ℕ → ℕ → ℕ → Server × ℕ × ℕ
  lua_reserve server key requested maxv ttl =
      let current = stored server key in
      let new_total = current + requested in
      if ltb maxv new_total
      then (if ltb 0 ttl then expire key ttl server else server, 0, current)
      else (
        if ltb 0 ttl then set_ex key new_total ttl server else set_key key new_total server,
        1,
        new_total,
      )

  -- `BudgetTracker`; `client` is `none` when no URL is configured.
  pub record BudgetTracker : Type 0 where
    pub session_ttl_seconds : ℕ
    pub fail_open_on_redis_error : Bool
    pub in_memory_usage : Usage
    pub client : Option Server
    pub redis_last_error : Option String

  -- `return self._reserve_memory(...)`
  unfoldable pub reserve_in_memory :
      ℕ → BudgetTracker → String → ℕ → ℕ → BudgetTracker × Result Error (Bool × ℕ)
  reserve_in_memory now t session_id requested max_shots =
      let r =
        reserve_memory now t.session_ttl_seconds t.in_memory_usage session_id requested max_shots in
      (record t { in_memory_usage = r.0 }, ok (r.1, r.2))

  -- The `except` branch of the Redis path.
  unfoldable pub reserve_on_error :
      ℕ → BudgetTracker → String → ℕ → ℕ → String → BudgetTracker × Result Error (Bool × ℕ)
  unfolding reserve_in_memory
  reserve_on_error now t session_id requested max_shots what =
      let t' = record t { redis_last_error = some what } in
      if t.fail_open_on_redis_error
      then reserve_in_memory now t' session_id requested max_shots
      else (t', raise (backend_unavailable "Budget backend unavailable (Redis error)"))

  -- The Redis path, by what the call of the script does.
  unfoldable pub reserve_redis :
      Call → ℕ → BudgetTracker → Server → String → ℕ → ℕ → BudgetTracker × Result Error (Bool × ℕ)
  unfolding reserve_on_error
  reserve_redis answered now t server session_id requested max_shots =
      let r =
        lua_reserve server (session_key session_id) requested max_shots t.session_ttl_seconds in
      (record t { client = some r.0; redis_last_error = none }, ok (ltb 0 r.1, r.2))
  reserve_redis (refused what) now t server session_id requested max_shots =
      reserve_on_error now t session_id requested max_shots what
  reserve_redis (lost what) now t server session_id requested max_shots =
      let r =
        lua_reserve server (session_key session_id) requested max_shots t.session_ttl_seconds in
      reserve_on_error now (record t { client = some r.0 }) session_id requested max_shots what

  -- `reserve`, on integers that may be negative.
  unfoldable pub reserve :
      Call → ℕ → BudgetTracker → String → ℤ → ℤ → BudgetTracker × Result Error (Bool × ℕ)
  unfolding reserve_redis reserve_in_memory
  reserve call now t session_id (negsuc _) max_shots =
      (t, raise (value_error "requested must be >= 0"))
  reserve call now t session_id (pos requested) (negsuc _) =
      (t, raise (value_error "max_shots_per_session must be > 0"))
  reserve call now t session_id (pos requested) (pos zero) =
      (t, raise (value_error "max_shots_per_session must be > 0"))
  reserve call now t session_id (pos requested) (pos (suc max_shots)) = elim t.client [
    | none ↦ reserve_in_memory now t session_id requested (suc max_shots)
    | some server ↦ reserve_redis call now t server session_id requested (suc max_shots)
  ]

  -- The in-memory part of `get_usage`.
  unfoldable pub memory_usage : ℕ → BudgetTracker → String → BudgetTracker × ℕ
  memory_usage now t session_id =
      let live = evict_expired now t.session_ttl_seconds t.in_memory_usage in
      (record t { in_memory_usage = live }, (entry_or now (get session_id live)).0)

  -- The Redis path of `get_usage`; an error of the server is passed over.
  unfoldable pub redis_usage : Call → ℕ → BudgetTracker → Server → String → BudgetTracker × ℕ
  redis_usage answered now t server session_id = (t, stored server (session_key session_id))
  redis_usage _ now t server session_id = memory_usage now t session_id

  unfoldable pub get_usage : Call → ℕ → BudgetTracker → String → BudgetTracker × ℕ
  unfolding memory_usage redis_usage
  get_usage call now t session_id = elim t.client [
    | none ↦ memory_usage now t session_id
    | some server ↦ redis_usage call now t server session_id
  ]

  -- `max(0, int(max_shots_per_session) - int(usage))`
  abbrev pub shots_left : ℤ → ℕ → ℕ
  shots_left (pos max_shots) usage = max_shots - usage
  shots_left (negsuc _) usage = 0

  unfoldable pub remaining_shots : Call → ℕ → BudgetTracker → String → ℤ → BudgetTracker × ℕ
  unfolding get_usage
  remaining_shots call now t session_id max_shots =
      let r = get_usage call now t session_id in (r.0, shots_left max_shots r.1)

  unfoldable pub del_session : Call → String → Server → Server
  del_session (refused _) session_id server = server
  del_session _ session_id server = del_key (session_key session_id) server

  unfoldable pub reset_session : Call → BudgetTracker → String → BudgetTracker
  unfolding del_session
  reset_session call t session_id = record t {
    client = elim t.client [
      | none ↦ none
      | some server ↦ some (del_session call session_id server)
    ];
    in_memory_usage = pop session_id t.in_memory_usage;
  }

  -- `_count_session_keys` and `health_summary` of the memory backend.
  unfoldable pub count_session_keys : ℕ → BudgetTracker → BudgetTracker × ℕ
  count_session_keys now t =
      let live = evict_expired now t.session_ttl_seconds t.in_memory_usage in
      (record t { in_memory_usage = live }, length live)
