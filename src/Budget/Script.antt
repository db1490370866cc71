-- ===== src/Budget/Script.antt =====
-- `_LUA_RESERVE` of backend/synqc_backend/budget.py, and the in-memory path beside it: both take the
-- same decision on the same usage.
use syn_qc_temporal_dynamics.Prelude.{
  ℕ, ◌+◌, ◌<◌, String, ◌≡◌, Bool, true, false, arith, leb, ltb, str_eq, eq_iff, if◌then◌else◌,
}
use syn_qc_temporal_dynamics.Dict.{Unique}
use syn_qc_temporal_dynamics.Budget.Redis.{RedisStrings}
use syn_qc_temporal_dynamics.Budget.{Usage, reserve_memory, stored, lua_reserve}
use syn_qc_temporal_dynamics.Budget.Memory.{usage_at, reserve_memory_answer}
use syn_qc_temporal_dynamics.Budget.Cap.{usage_at-reserve_memory}

-- The decision on a usage: whether the request is granted, and the usage after it.
abbrev pub decide : ℕ → ℕ → ℕ → Bool × ℕ
decide current requested max_shots =
    if leb (current + requested) max_shots then (true, current + requested) else (false, current)

-- The in-memory path decides by the usage that is alive.
pub reserve_memory-decide :
    (now ttl : ℕ) (usage : Usage) (k : String) (requested max_shots : ℕ)
    → Unique usage
    → (
      (reserve_memory now ttl usage k requested max_shots).1,
      (reserve_memory now ttl usage k requested max_shots).2,
    )
      ≡ decide (usage_at now ttl usage k) requested max_shots
reserve_memory-decide now ttl usage k requested max_shots u =
    ground (arith, reserve_memory_answer now ttl usage k requested max_shots u)

module _ (redis : RedisStrings) (server : redis.Server) (key : String)
    (requested maxv ttl : ℕ) where
  -- The script decides by the stored usage.
  pub lua_reserve-decide :
      (
        ltb 0 (lua_reserve redis server key requested maxv ttl).1,
        (lua_reserve redis server key requested maxv ttl).2,
      )
      ≡ decide (stored redis server key) requested maxv
  unfolding lua_reserve
  lua_reserve-decide = ground arith

  -- After the script the key holds the number that was returned, and no other key has changed.
  pub stored-lua_reserve :
      (j : String)
      → stored redis (lua_reserve redis server key requested maxv ttl).0 j ≡ (
          if str_eq key j
          then (lua_reserve redis server key requested maxv ttl).2
          else stored redis server j)
  unfolding lua_reserve stored
  stored-lua_reserve j =
      let new_total = stored redis server key + requested in
      ground (
        arith,
        eq_iff key j,
        redis.get-set server key j new_total,
        redis.get-set_ex server key j new_total ttl,
        redis.get-expire server key j ttl,
      )

-- The two backends agree: where the key holds the session's usage that is alive, the script and
-- the in-memory path give the same answer, and leave the same usage behind.
pub script-agrees-memory :
    (redis : RedisStrings) (server : redis.Server) (key : String) (now ttl : ℕ) (usage : Usage)
    (k : String) (requested max_shots : ℕ)
    → Unique usage
    → 0 < ttl
    → stored redis server key ≡ usage_at now ttl usage k
    → let s = lua_reserve redis server key requested max_shots ttl in
      let m = reserve_memory now ttl usage k requested max_shots in
      (ltb 0 s.1 ≡ m.1) × (s.2 ≡ m.2) × (stored redis s.0 key ≡ usage_at now ttl m.0 k)
script-agrees-memory redis server key now ttl usage k requested max_shots u t e = ground (
  arith,
  eq_iff key key,
  eq_iff k k,
  lua_reserve-decide redis server key requested max_shots ttl,
  reserve_memory-decide now ttl usage k requested max_shots u,
  stored-lua_reserve redis server key requested max_shots ttl key,
  usage_at-reserve_memory now ttl usage k requested max_shots u now k,
)
