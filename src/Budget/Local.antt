-- ===== src/Budget/Local.antt =====
-- `BudgetTracker` of backend/synqc_backend/budget.py with no Redis client: what `get_usage` and
-- `reserve` do, in terms of the usage that is alive.
use syn_qc_temporal_dynamics.Prelude.{
  ℕ, suc, ◌+◌, ◌≤◌, ◌<◌, String, ◌≡◌, true, false, none, arith, leb, str_eq, if◌then◌else◌, ok,
}
use syn_qc_temporal_dynamics.Prelude.Int.{pos}
use syn_qc_temporal_dynamics.Dict.{Unique}
use syn_qc_temporal_dynamics.Budget.Redis.{RedisStrings, Call}
use syn_qc_temporal_dynamics.Budget.{BudgetTracker, reserve, get_usage}
use syn_qc_temporal_dynamics.Budget.Memory.{
  usage_at, evict_expired-Unique, current-usage_at, usage_at-evict_expired, reserve_memory_answer,
}
use syn_qc_temporal_dynamics.Budget.Cap.{usage_at-reserve_memory}

module _ (redis : RedisStrings) where
  -- The usage of a session that counts in memory.
  abbrev pub usage_of : ℕ → BudgetTracker redis → String → ℕ
  usage_of now t k = usage_at now t.session_ttl_seconds t.in_memory_usage k

  -- A tracker in memory, with the settings' bound on the lifetime.
  pub record IsLocal (t : BudgetTracker redis) : Type 0 where
    pub no_client : t.client ≡ none
    pub unique : Unique t.in_memory_usage
    pub lives : 0 < t.session_ttl_seconds

  module _ (call : Call) (now : ℕ) (t : BudgetTracker redis) (k : String) (h : IsLocal t) where
    pub get_usage-usage_of : (get_usage redis call now t k).1 ≡ usage_of now t k
    unfolding get_usage
    get_usage-usage_of = ground (
      arith,
      h.no_client,
      current-usage_at now t.session_ttl_seconds t.in_memory_usage k h.unique,
    )

    pub get_usage-IsLocal : IsLocal (get_usage redis call now t k).0
    unfolding get_usage
    get_usage-IsLocal = ground (
      arith,
      h.no_client,
      h.lives,
      evict_expired-Unique now t.session_ttl_seconds t.in_memory_usage h.unique,
    )

    pub usage_of-get_usage :
        (later : ℕ) (j : String)
        → now ≤ later
        → usage_of later (get_usage redis call now t k).0 j ≡ usage_of later t j
    unfolding get_usage
    usage_of-get_usage later j le = ground (
      arith,
      h.no_client,
      usage_at-evict_expired now later t.session_ttl_seconds t.in_memory_usage j h.unique,
    )

    module _ (requested : ℕ) where
      -- A positive cap: the request is granted exactly if it fits beside the usage, and then, and
      -- only then, the session's usage grows by it; no other session's usage changes.
      pub reserve_local :
          (m j : ℕ) (other : String)
          → m ≡ suc j
          → let r = reserve redis call now t k (pos requested) (pos m) in
            (r.1 ≡ (
              if leb (usage_of now t k + requested) m
              then ok (true, usage_of now t k + requested)
              else ok (false, usage_of now t k)))
            × (usage_of now r.0 other ≡ (
                if str_eq k other
                then (if leb (usage_of now t k + requested) m
                    then usage_of now t k + requested
                    else usage_of now t k)
                else usage_of now t other))
      unfolding reserve
      reserve_local m j other e = ground (
        arith,
        h.no_client,
        h.lives,
        reserve_memory_answer now t.session_ttl_seconds t.in_memory_usage k requested m h.unique,
        usage_at-reserve_memory now t.session_ttl_seconds t.in_memory_usage k requested m h.unique
            now other,
      )
