-- ===== src/Engine/Guardrails.antt =====
-- `_apply_shot_guardrails` of backend/synqc_backend/engine.py over a tracker in memory.
use syn_qc_temporal_dynamics.Prelude.{
  ℕ, zero, suc, ◌+◌, ◌-◌, ◌≤◌, ◌<◌, String, ◌≡◌, Option, none, some, arith, str_eq, eq_iff,
  if◌then◌else◌, ok, raise, Result, ◌⊎◌, inl, inr, Bool, Bool-cases, leb, refl,
}
use syn_qc_temporal_dynamics.Prelude.Int.{ℤ, pos, negsuc}
use syn_qc_temporal_dynamics.Budget.Redis.{RedisStrings, Call}
use syn_qc_temporal_dynamics.Budget.{Usage, value_error, BudgetTracker, get_usage}
use syn_qc_temporal_dynamics.Budget.Memory.{usage_at}
use syn_qc_temporal_dynamics.Budget.Local.{
  usage_of, IsLocal, get_usage-usage_of, get_usage-IsLocal, usage_of-get_usage, reserve_local,
}
use syn_qc_temporal_dynamics.Engine.{
  Settings, EngineError, budget_exceeded, budget_error, requested_shots, clamp_shots,
  warn_for_target, apply_shot_guardrails,
}

-- The bounds that `Settings` declares.
pub record IsValid (s : Settings) : Type 0 where
  pub experiment_pos : 1 ≤ s.max_shots_per_experiment
  pub session_pos : 1 ≤ s.max_shots_per_session
  pub default_pos : 1 ≤ s.default_shot_budget

-- A usage only lapses as time passes.
pub usage_at-le :
    (now later ttl : ℕ) (usage : Usage) (k : String)
    → now ≤ later
    → usage_at later ttl usage k ≤ usage_at now ttl usage k
unfolding usage_at
usage_at-le now later ttl usage k h = ground arith

pub requested_shots-pos :
    (s : Settings) (budget : Option ℤ) (n : ℕ)
    → IsValid s
    → requested_shots s budget ≡ pos n
    → 1 ≤ n
unfolding requested_shots
requested_shots-pos s none n v e = ground arith
requested_shots-pos s (some (pos zero)) n v e = ground arith
requested_shots-pos s (some (pos (suc m))) n v e = ground arith
requested_shots-pos s (some (negsuc m)) n v e = ground arith

pub requested-cases :
    (s : Settings) (budget : Option ℤ)
    → ((n : ℕ) × (requested_shots s budget ≡ pos n)) ⊎ ((n : ℕ) × (budget ≡ some (negsuc n)))
unfolding requested_shots
requested-cases s none = inl (s.default_shot_budget, refl)
requested-cases s (some (pos zero)) = inl (s.default_shot_budget, refl)
requested-cases s (some (pos (suc n))) = inl (suc n, refl)
requested-cases s (some (negsuc n)) = inr (n, refl)

module _ (redis : RedisStrings) (s : Settings) (now later : ℕ) (t : BudgetTracker redis)
    (budget : Option ℤ) (target k other : String) where
  -- What a granted request of `n` shots gives, and what it leaves in the tracker.
  abbrev Granted : ℕ → BudgetTracker redis × Result EngineError (ℕ × Bool) → Type 0
  Granted n r =
      let shots = clamp_shots s n in
      (r.1 ≡ ok (shots, warn_for_target s target shots))
      × (usage_of redis later r.0 other ≡ (
          if str_eq k other
          then usage_of redis later t k + shots
          else usage_of redis later t other))
      × (usage_of redis later r.0 k ≤ s.max_shots_per_session)
      × (1 ≤ shots)
      × (shots ≤ n)
      × (shots ≤ s.max_shots_per_experiment)

  -- An exception that leaves the usages as they were.
  abbrev Refused : EngineError → BudgetTracker redis × Result EngineError (ℕ × Bool) → Type 0
  Refused x r = (r.1 ≡ raise x) × (usage_of redis later r.0 other ≡ usage_of redis later t other)

  -- The request fits beside the usage at `now` and is granted, or it does not fit, or it asks for a
  -- negative number of shots.
  abbrev pub Decision : BudgetTracker redis × Result EngineError (ℕ × Bool) → Type 0
  Decision r =
      ((n : ℕ) × (requested_shots s budget ≡ pos n)
        × (n + usage_of redis now t k ≤ s.max_shots_per_session)
        × Granted n r)
      ⊎ ((n : ℕ) × (requested_shots s budget ≡ pos n)
          × (s.max_shots_per_session < n + usage_of redis now t k)
          × Refused (budget_exceeded (s.max_shots_per_session - usage_of redis now t k)) r)
      ⊎ ((n : ℕ) × (budget ≡ some (negsuc n))
          × Refused (budget_error (value_error "shot_budget must be positive")) r)

  module _ (read write : Call) (valid : IsValid s) (h : IsLocal redis t) (le : now ≤ later) where
    grant :
        (n : ℕ)
        → requested_shots s budget ≡ pos n
        → n + usage_of redis now t k ≤ s.max_shots_per_session
        → Granted n (apply_shot_guardrails redis s read write now later t budget target k)
    unfolding apply_shot_guardrails clamp_shots
    grant n e fits =
        let t' = (get_usage redis read now t k).0 in
        let h' = get_usage-IsLocal redis read now t k h in
        let m = s.max_shots_per_session in
        ground (
          arith,
          requested_shots-pos s budget n valid e,
          eq_iff k k,
          get_usage-usage_of redis read now t k h,
          usage_of-get_usage redis read now t k h later k,
          usage_of-get_usage redis read now t k h later other,
          usage_at-le now later t.session_ttl_seconds t.in_memory_usage k,
          reserve_local redis write later t' k h' (clamp_shots s n) m (m - 1) other,
          reserve_local redis write later t' k h' (clamp_shots s n) m (m - 1) k,
        )

    exceeded :
        (n : ℕ)
        → requested_shots s budget ≡ pos n
        → s.max_shots_per_session < n + usage_of redis now t k
        → Refused
            (budget_exceeded (s.max_shots_per_session - usage_of redis now t k))
            (apply_shot_guardrails redis s read write now later t budget target k)
    unfolding apply_shot_guardrails
    exceeded n e over = ground (
      arith,
      get_usage-usage_of redis read now t k h,
      usage_of-get_usage redis read now t k h later other,
    )

    negative :
        (n : ℕ)
        → budget ≡ some (negsuc n)
        → Refused
            (budget_error (value_error "shot_budget must be positive"))
            (apply_shot_guardrails redis s read write now later t budget target k)
    unfolding apply_shot_guardrails
    negative n e = ground (arith, usage_of-get_usage redis read now t k h later other)

    -- With settings within their bounds and a tracker that keeps its usages in memory, without a
    -- Redis client, each request is decided in one of three ways. A request of `n` shots is granted
    -- if it fits beside the usage read, cut to the largest experiment: the session's usage grows by
    -- just the shots granted, and stays under the cap, while no other session's usage changes. A
    -- request that does not fit raises `BudgetExceeded` with exactly what remains, also where its
    -- cut would fit, and a negative one raises `ValueError`; then no usage changes.
    pub guardrails_decides :
        Decision (apply_shot_guardrails redis s read write now later t budget target k)
    guardrails_decides = elim (requested-cases s budget) [
      | inr (n, e) ↦ inr (inr (n, e, negative n e))
      | inl (n, e) ↦ elim (Bool-cases (leb (n + usage_of redis now t k) s.max_shots_per_session)) [
        | inl within ↦
            let fits : n + usage_of redis now t k ≤ s.max_shots_per_session =
              ground (arith, within) in
            inl (n, e, fits, grant n e fits)
        | inr beyond ↦
            let over : s.max_shots_per_session < n + usage_of redis now t k =
              ground (arith, beyond) in
            inr (inl (n, e, over, exceeded n e over))
      ]
    ]
