-- ===== src/Budget/Capped.antt =====
-- The cap on a session's shots in backend/synqc_backend/budget.py, over each call of
-- `BudgetTracker` on both backends.
use syn_qc_temporal_dynamics.Prelude.{
  ℕ, zero, suc, ◌≤◌, String, subst, Bool, true, false, Option, none, some, arith, if◌then◌else◌,
  Option-cases, inl, inr, Result, raise,
}
use syn_qc_temporal_dynamics.Prelude.Int.{ℤ, pos, negsuc}
use syn_qc_temporal_dynamics.Dict.{get, pop, Unique, get-pop, pop-Unique}
use syn_qc_temporal_dynamics.Budget.Redis.{RedisStrings, Call, answered, refused, lost}
use syn_qc_temporal_dynamics.Budget.{
  Usage, Error, backend_unavailable, evict_expired, entry_or, reserve_memory, session_key, stored,
  lua_reserve, BudgetTracker, reserve_in_memory, reserve_on_error, reserve_redis, reserve,
  redis_usage, get_usage, memory_usage, reset_session, del_session, count_session_keys,
}
use syn_qc_temporal_dynamics.Budget.Memory.{
  usage_at, evict_expired-Unique, get-evict_expired, reserve_memory-Unique, reserve_memory_answer,
  get-reserve_memory,
}
use syn_qc_temporal_dynamics.Budget.Script.{stored-lua_reserve, lua_reserve-decide}

-- The shots that an in-memory entry holds, expired or not.
abbrev pub held : Usage → String → ℕ
held usage k = (entry_or 0 (get k usage)).0

unfoldable pub CappedUsage : ℕ → Usage → Type 0
CappedUsage cap usage = (k : String) → held usage k ≤ cap

module _ (cap : ℕ) where
  evict_expired-CappedUsage :
      (now ttl : ℕ) (usage : Usage)
      → Unique usage
      → CappedUsage cap usage
      → CappedUsage cap (evict_expired now ttl usage)
  unfolding CappedUsage
  evict_expired-CappedUsage now ttl usage u c k =
      ground (arith, get-evict_expired now ttl usage k u, c k)

  reserve_memory-CappedUsage :
      (now ttl : ℕ) (usage : Usage) (j : String) (requested : ℕ)
      → Unique usage
      → CappedUsage cap usage
      → CappedUsage cap (reserve_memory now ttl usage j requested cap).0
  unfolding CappedUsage usage_at
  reserve_memory-CappedUsage now ttl usage j requested u c k = ground (
    arith,
    get-reserve_memory now ttl usage j requested cap u k,
    reserve_memory_answer now ttl usage j requested cap u,
    c k,
    c j,
  )

  pop-CappedUsage :
      (j : String) (usage : Usage)
      → Unique usage
      → CappedUsage cap usage
      → CappedUsage cap (pop j usage)
  unfolding CappedUsage
  pop-CappedUsage j usage u c k = ground (arith, get-pop j k usage u, c k)

module _ (redis : RedisStrings) where
  unfoldable pub CappedServer : ℕ → Option redis.Server → Type 0
  CappedServer cap none = Unit
  CappedServer cap (some s) = (k : String) → stored redis s (session_key k) ≤ cap

  -- No session holds more than the cap, in memory or on the server.
  pub record Capped (cap : ℕ) (t : BudgetTracker redis) : Type 0 where
    pub unique : Unique t.in_memory_usage
    pub memory : CappedUsage cap t.in_memory_usage
    pub server : CappedServer cap t.client

  module _ (cap : ℕ) where
    lua_reserve-CappedServer :
        (s : redis.Server) (j : String) (requested ttl : ℕ)
        → CappedServer cap (some s)
        → CappedServer cap (some (lua_reserve redis s (session_key j) requested cap ttl).0)
    unfolding CappedServer
    lua_reserve-CappedServer s j requested ttl c k = ground (
      arith,
      stored-lua_reserve redis s (session_key j) requested cap ttl (session_key k),
      lua_reserve-decide redis s (session_key j) requested cap ttl,
      c k,
      c j,
    )

    pub del_key-CappedServer :
        (s : redis.Server) (key : String)
        → CappedServer cap (some s)
        → CappedServer cap (some (redis.del_key key s))
    unfolding CappedServer stored
    del_key-CappedServer s key c k = ground (arith, redis.get-del s key (session_key k), c k)

    reserve_in_memory-Capped :
        (now : ℕ) (t : BudgetTracker redis) (k : String) (requested : ℕ)
        → Capped cap t
        → Capped cap (reserve_in_memory redis now t k requested cap).0
    unfolding reserve_in_memory
    reserve_in_memory-Capped now t k requested c = record {
      unique =
          reserve_memory-Unique now t.session_ttl_seconds t.in_memory_usage k requested cap
            c.unique;
      memory =
          reserve_memory-CappedUsage cap now t.session_ttl_seconds t.in_memory_usage k requested
            c.unique c.memory;
      server = c.server;
    }

    if-Capped :
        (b : Bool) (x y : BudgetTracker redis × Result Error (Bool × ℕ))
        → Capped cap x.0
        → Capped cap y.0
        → Capped cap (if b then x else y).0
    if-Capped true x y p q = p
    if-Capped false x y p q = q

    reserve_on_error-Capped :
        (now : ℕ) (t : BudgetTracker redis) (k : String) (requested : ℕ) (what : String)
        → Capped cap t
        → Capped cap (reserve_on_error redis now t k requested cap what).0
    unfolding reserve_on_error
    reserve_on_error-Capped now t k requested what c =
        let t' = record t { redis_last_error = some what } in
        let c' : Capped cap t' = record {
          unique = c.unique;
          memory = c.memory;
          server = c.server;
        } in
        if-Capped t.fail_open_on_redis_error (reserve_in_memory redis now t' k requested cap)
          (t', raise (backend_unavailable "Budget backend unavailable (Redis error)"))
          (reserve_in_memory-Capped now t' k requested c') c'

    reserve_redis-Capped :
        (call : Call) (now : ℕ) (t : BudgetTracker redis) (s : redis.Server) (k : String)
        (requested : ℕ)
        → CappedServer cap (some s)
        → Capped cap t
        → Capped cap (reserve_redis redis call now t s k requested cap).0
    unfolding reserve_redis
    reserve_redis-Capped answered now t s k requested h c = record {
      unique = c.unique;
      memory = c.memory;
      server = lua_reserve-CappedServer s k requested t.session_ttl_seconds h;
    }
    reserve_redis-Capped (refused what) now t s k requested h c =
        reserve_on_error-Capped now t k requested what c
    reserve_redis-Capped (lost what) now t s k requested h c =
        reserve_on_error-Capped now (record t { client = some after_script }) k requested what
          (record {
            unique = c.unique;
            memory = c.memory;
            server = lua_reserve-CappedServer s k requested t.session_ttl_seconds h;
          })
      where
        after_script : redis.Server
        after_script = (lua_reserve redis s (session_key k) requested cap t.session_ttl_seconds).0

    memory_usage-Capped :
        (now : ℕ) (t : BudgetTracker redis) (k : String)
        → Capped cap t
        → Capped cap (memory_usage redis now t k).0
    unfolding memory_usage
    memory_usage-Capped now t k c = record {
      unique = evict_expired-Unique now t.session_ttl_seconds t.in_memory_usage c.unique;
      memory =
          evict_expired-CappedUsage cap now t.session_ttl_seconds t.in_memory_usage c.unique
            c.memory;
      server = c.server;
    }

    redis_usage-Capped :
        (call : Call) (now : ℕ) (t : BudgetTracker redis) (s : redis.Server) (k : String)
        → Capped cap t
        → Capped cap (redis_usage redis call now t s k).0
    unfolding redis_usage
    redis_usage-Capped answered now t s k c = c
    redis_usage-Capped _ now t s k c = memory_usage-Capped now t k c

    pub get_usage-Capped :
        (call : Call) (now : ℕ) (t : BudgetTracker redis) (k : String)
        → Capped cap t
        → Capped cap (get_usage redis call now t k).0
    unfolding get_usage
    get_usage-Capped call now t k c = elim (Option-cases t.client) [
      | inl e ↦ rw (e, get_usage) (memory_usage-Capped now t k c)
      | inr (s, e) ↦ rw (e, get_usage) (redis_usage-Capped call now t s k c)
    ]

    del_session-CappedServer :
        (call : Call) (s : redis.Server) (k : String)
        → CappedServer cap (some s)
        → CappedServer cap (some (del_session redis call k s))
    unfolding del_session
    del_session-CappedServer answered s k h = del_key-CappedServer s (session_key k) h
    del_session-CappedServer (refused what) s k h = h
    del_session-CappedServer (lost what) s k h = del_key-CappedServer s (session_key k) h

    pub client-Capped :
        (f : redis.Server → redis.Server) (client : Option redis.Server)
        → ((s : redis.Server) → CappedServer cap (some s) → CappedServer cap (some (f s)))
        → CappedServer cap client
        → CappedServer cap (elim client [ none ↦ none | some s ↦ some (f s) ])
    client-Capped f none keep h = h
    client-Capped f (some s) keep h = keep s h

    pub count_session_keys-Capped :
        (now : ℕ) (t : BudgetTracker redis)
        → Capped cap t
        → Capped cap (count_session_keys redis now t).0
    unfolding count_session_keys
    count_session_keys-Capped now t c = record {
      unique = evict_expired-Unique now t.session_ttl_seconds t.in_memory_usage c.unique;
      memory =
          evict_expired-CappedUsage cap now t.session_ttl_seconds t.in_memory_usage c.unique
            c.memory;
      server = c.server;
    }

    pub reset_session-Capped :
        (call : Call) (t : BudgetTracker redis) (k : String)
        → Capped cap t
        → Capped cap (reset_session redis call t k)
    unfolding reset_session
    reset_session-Capped call t k c = record {
      unique = pop-Unique k t.in_memory_usage c.unique;
      memory = pop-CappedUsage cap k t.in_memory_usage c.unique c.memory;
      server =
          client-Capped (del_session redis call k) t.client (λ s. del_session-CappedServer call s k)
            c.server;
    }

  pub reserve-Capped :
      (cap : ℕ) (call : Call) (now : ℕ) (t : BudgetTracker redis) (k : String) (requested : ℤ)
      → Capped cap t
      → Capped cap (reserve redis call now t k requested (pos cap)).0
  unfolding reserve
  reserve-Capped cap call now t k (negsuc r) c = c
  reserve-Capped zero call now t k (pos r) c = c
  reserve-Capped (suc m) call now t k (pos r) c = elim (Option-cases t.client) [
    | inl e ↦ rw (e, reserve) (reserve_in_memory-Capped (suc m) now t k r c)
    | inr (s, e) ↦
        rw (e, reserve)
          (reserve_redis-Capped (suc m) call now t s k r (subst (CappedServer (suc m)) e c.server)
            c)
  ]
