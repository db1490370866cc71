-- ===== src/Engine.antt =====
-- backend/synqc_backend/engine.py: `SynQcEngine`. `_apply_shot_guardrails` settles how many shots a
-- request may use and reserves them with the tracker of backend/synqc_backend/budget.py.
pub mod Guardrails
pub mod Shared
pub mod Kpis
pub mod Run
use syn_qc_temporal_dynamics.Prelude.{
  ℕ, zero, suc, ◌+◌, ◌-◌, ◌<◌, String, Bool, true, false, ◌&&◌, ◌||◌, not, Option, none, some, List,
  leb, ltb, if◌then◌else◌, str_eq, Result, ok, raise, max, min,
}
use syn_qc_temporal_dynamics.Prelude.Int.{ℤ, pos, negsuc}
use syn_qc_temporal_dynamics.Budget.Redis.{RedisStrings, Call}
use syn_qc_temporal_dynamics.Budget.{
  BudgetTracker, Error, value_error, backend_unavailable, reserve, get_usage,
}

-- The fields of `Settings` that the engine reads.
pub record Settings : Type 0 where
  pub max_shots_per_experiment : ℕ
  pub max_shots_per_session : ℕ
  pub default_shot_budget : ℕ

-- `BudgetExceeded` with what remains, and the exceptions of the tracker.
pub data EngineError : Type 0 where
  budget_exceeded : ℕ → EngineError
  budget_error : Error → EngineError

-- `req.shot_budget or settings.default_shot_budget`: a missing budget and 0 take the default.
unfoldable pub requested_shots : Settings → Option ℤ → ℤ
requested_shots s none = pos s.default_shot_budget
requested_shots s (some (pos zero)) = pos s.default_shot_budget
requested_shots s (some (pos (suc n))) = pos (suc n)
requested_shots s (some (negsuc n)) = negsuc n

-- The first test of the guardrail: the request is larger than the session's cap, or than what the
-- usage leaves of it.
unfoldable pub exceeds : Settings → ℤ → ℕ → Bool
exceeds s (negsuc _) usage = false
exceeds s (pos n) usage = ltb s.max_shots_per_session n || ltb (s.max_shots_per_session - usage) n

-- The clamp to the largest experiment.
unfoldable pub clamp_shots : Settings → ℕ → ℕ
clamp_shots s n = if ltb s.max_shots_per_experiment n then s.max_shots_per_experiment else n

unfoldable pub warn_for_target : Settings → String → ℕ → Bool
warn_for_target s target shots = not (str_eq target "sim_local") && ltb s.default_shot_budget shots

-- What follows the reservation.
unfoldable pub settle :
    {T : Type 0}
    → Settings
    → Bool
    → ℕ
    → T × Result Error (Bool × ℕ)
    → T × Result EngineError (ℕ × Bool)
settle s warn shots (t, raise e) = (t, raise (budget_error e))
settle s warn shots (t, ok (true, usage)) = (t, ok (shots, warn))
settle s warn shots (t, ok (false, usage)) =
    (t, raise (budget_exceeded (s.max_shots_per_session - usage)))

module _ (redis : RedisStrings) (s : Settings) where
  -- The guardrail behind its first test.
  unfoldable pub reserve_shots :
      Call
      → ℕ
      → BudgetTracker redis
      → ℤ
      → String
      → String
      → BudgetTracker redis × Result EngineError (ℕ × Bool)
  unfolding settle clamp_shots warn_for_target
  reserve_shots call now t (negsuc _) target session_id =
      (t, raise (budget_error (value_error "shot_budget must be positive")))
  reserve_shots call now t (pos zero) target session_id =
      (t, raise (budget_error (value_error "shot_budget must be positive")))
  reserve_shots call now t (pos (suc n)) target session_id =
      let shots = clamp_shots s (suc n) in
      settle s (warn_for_target s target shots) shots
        (reserve redis call now t session_id (pos shots) (pos s.max_shots_per_session))

  -- `_apply_shot_guardrails`. The usage is read at `now` and the shots are reserved at `later`,
  -- each by a call of the tracker with an outcome of its own.
  unfoldable pub apply_shot_guardrails :
      Call
      → Call
      → ℕ
      → ℕ
      → BudgetTracker redis
      → Option ℤ
      → String
      → String
      → BudgetTracker redis × Result EngineError (ℕ × Bool)
  unfolding exceeds requested_shots reserve_shots
  apply_shot_guardrails read write now later t shot_budget target session_id =
      let requested = requested_shots s shot_budget in
      let (t', usage) = get_usage redis read now t session_id in
      if exceeds s requested usage
      then (t', raise (budget_exceeded (s.max_shots_per_session - usage)))
      else reserve_shots write later t' requested target session_id
