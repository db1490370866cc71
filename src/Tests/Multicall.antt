-- ===== src/Tests/Multicall.antt =====
-- backend/synqc_backend/agents/multicall.py on a clock that shows two seconds more at each reading.
use syn_qc_temporal_dynamics.Prelude.{ℕ, zero, suc, ◌+◌, ◌*◌, String, ◌≡◌, refl, none, some}
use syn_qc_temporal_dynamics.Prelude.Int.{pos}
use syn_qc_temporal_dynamics.Dict.{get, put}
use syn_qc_temporal_dynamics.Workflow.{simulate_http, poll, run_step, kpi_bundle_from_trace}
use syn_qc_temporal_dynamics.Multicall.{RunInput, raised, respond, run_multicall_agent}

abbrev digit : ℕ → String
digit zero = "0"
digit (suc n) = "1"

abbrev clock : ℕ → ℕ
clock n = 100 + 2 * n

abbrev input : RunInput
input = record { shot_budget = some (pos 300); hardware_target = none; notes = none }

abbrev slow : ℕ → ℕ
slow n = 100 + 700 * n

timed :
    run_multicall_agent 2 digit 100 slow 900 "job" (pos 1024) "run" input ≡ raised "TimeoutError"
unfolding get put simulate_http poll run_step kpi_bundle_from_trace respond run_multicall_agent
timed = refl
