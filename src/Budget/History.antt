-- ===== src/Budget/History.antt =====
-- `BudgetTracker` of backend/synqc_backend/budget.py over every history of its calls, on both
-- backends, with any faults of the server.
use syn_qc_temporal_dynamics.Prelude.{ℕ, String, none, some, List, [], ◌∷◌}
use syn_qc_temporal_dynamics.Prelude.Int.{ℤ, pos}
use syn_qc_temporal_dynamics.Budget.Redis.{RedisStrings, Call}
use syn_qc_temporal_dynamics.Budget.{
  BudgetTracker, reserve, get_usage, reset_session, count_session_keys,
}
use syn_qc_temporal_dynamics.Budget.Capped.{
  Capped, del_key-CappedServer, get_usage-Capped, client-Capped, count_session_keys-Capped,
  reset_session-Capped, reserve-Capped,
}

module _ (redis : RedisStrings) where
  -- One thing that happens to the tracker or to its server. A key of the server may lapse at any
  -- time.
  pub data Event : Type 0 where
    reserve_shots : Call → ℕ → String → ℤ → Event
    read_usage : Call → ℕ → String → Event
    reset : Call → String → Event
    count_keys : ℕ → Event
    lapse : String → Event

  unfoldable pub after : ℕ → Event → BudgetTracker redis → BudgetTracker redis
  after cap (reserve_shots call now k requested) t =
      (reserve redis call now t k requested (pos cap)).0
  after cap (read_usage call now k) t = (get_usage redis call now t k).0
  after cap (reset call k) t = reset_session redis call t k
  after cap (count_keys now) t = (count_session_keys redis now t).0
  after cap (lapse key) t = record t {
    client = elim t.client [ none ↦ none | some s ↦ some (redis.del_key key s) ];
  }

  unfoldable pub after_all : ℕ → List Event → BudgetTracker redis → BudgetTracker redis
  after_all cap [] t = t
  after_all cap (e ∷ es) t = after_all cap es (after cap e t)

  after-Capped :
      (cap : ℕ) (e : Event) (t : BudgetTracker redis)
      → Capped redis cap t
      → Capped redis cap (after cap e t)
  unfolding after
  after-Capped cap (reserve_shots call now k requested) t c =
      reserve-Capped redis cap call now t k requested c
  after-Capped cap (read_usage call now k) t c = get_usage-Capped redis cap call now t k c
  after-Capped cap (reset call k) t c = reset_session-Capped redis cap call t k c
  after-Capped cap (count_keys now) t c = count_session_keys-Capped redis cap now t c
  after-Capped cap (lapse key) t c = record {
    unique = c.unique;
    memory = c.memory;
    server =
        client-Capped redis cap (redis.del_key key) t.client
          (λ s. del_key-CappedServer redis cap s key) c.server;
  }

  -- Whatever happens, in any order and with any faults of the server, no session ever holds more
  -- than the cap, in memory or on the server.
  pub after_all-Capped :
      (cap : ℕ) (es : List Event) (t : BudgetTracker redis)
      → Capped redis cap t
      → Capped redis cap (after_all cap es t)
  unfolding after_all
  after_all-Capped cap [] t c = c
  after_all-Capped cap (e ∷ es) t c =
      after_all-Capped cap es (after cap e t) (after-Capped cap e t c)
