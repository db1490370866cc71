-- ===== src/Tests/Shared.antt =====
-- `_apply_shot_guardrails` of backend/synqc_backend/engine.py over a shared Redis server that is empty
-- at the start.
use syn_qc_temporal_dynamics.Prelude.{none, some, ◌≡◌, refl, arith}
use syn_qc_temporal_dynamics.Prelude.Int.{pos}
use syn_qc_temporal_dynamics.Budget.Redis.{answered, refused}
use syn_qc_temporal_dynamics.Budget.{
  stored, get_usage, reserve, lua_reserve, session_key, evict_expired,
}
use syn_qc_temporal_dynamics.Dict.{get}
use syn_qc_temporal_dynamics.Dict.Sweep.{pop_all, keys_if}
use syn_qc_temporal_dynamics.Budget.Shared.{Leaves}
use syn_qc_temporal_dynamics.Engine.{
  exceeds, requested_shots, clamp_shots, warn_for_target, settle, reserve_shots,
  apply_shot_guardrails,
}
use syn_qc_temporal_dynamics.Engine.Shared.{
  shots_of, SharedDecision, guardrails_shared, guardrails_answered,
}
use syn_qc_temporal_dynamics.Tests.Budget.{server_of, shared, settings, settings-IsValid}

program : Unit {0}
unfolding exceeds requested_shots clamp_shots warn_for_target settle reserve_shots
    apply_shot_guardrails get_usage reserve lua_reserve stored session_key get evict_expired pop_all
    keys_if
program = tt

-- The read is refused, so the usage in memory is read, and the shots are reserved all the same.
grants_500 :
    shots_of
      (apply_shot_guardrails server_of settings
        (refused "down")
        answered
        200
        210
        shared
        (some (pos 600))
        "ibm_quantum"
        "carol").1
    ≡ 500
unfolding program
grants_500 = refl

guardrails_shared_example :
    let r =
      apply_shot_guardrails server_of settings
        (refused "down")
        answered
        200
        210
        shared
        (some (pos 600))
        "ibm_quantum"
        "carol" in
    Leaves server_of 1000 "carol" (shots_of r.1) (λ _. none) r.0
unfolding stored
guardrails_shared_example =
    guardrails_shared server_of settings "carol" (refused "down") answered 200 210 (λ _. none)
      shared (some (pos 600)) "ibm_quantum" refl refl (omega arith)

guardrails_answered_example :
    SharedDecision server_of settings "carol" "ibm_quantum"
      (some (pos 600))
      (λ _. none)
      (apply_shot_guardrails server_of settings answered answered 200 210 shared
        (some (pos 600))
        "ibm_quantum"
        "carol")
guardrails_answered_example =
    guardrails_answered server_of settings "carol" 200 210 (λ _. none) shared (some (pos 600))
      "ibm_quantum" refl settings-IsValid
