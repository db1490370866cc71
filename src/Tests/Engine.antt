-- ===== src/Tests/Engine.antt =====
-- `run_experiment` of backend/synqc_backend/engine.py with whole hundredths for floating point values.
use syn_qc_temporal_dynamics.Prelude.{
  ℕ, ◌+◌, ◌-◌, ◌*◌, ◌/◌, ◌≡◌, refl, false, true, Option, none, some, [], ◌∷◌, ltb, min, max, ok,
  raise, Result,
}
use syn_qc_temporal_dynamics.Prelude.Int.{ℤ, pos, pos_part, ◌+ℤ◌}
use syn_qc_temporal_dynamics.Dict.{get, put, pop}
use syn_qc_temporal_dynamics.Dict.Sweep.{keys_if, pop_all}
use syn_qc_temporal_dynamics.Models.{
  latency, ok_status, ControlProfile, KpiBundle, RunExperimentRequest, RunExperimentResponse,
}
use syn_qc_temporal_dynamics.Budget.Redis.{answered}
use syn_qc_temporal_dynamics.Budget.{evict_expired, reserve_memory, reserve, get_usage}
use syn_qc_temporal_dynamics.Storage.{add, persist}
use syn_qc_temporal_dynamics.Engine.{
  exceeds, requested_shots, clamp_shots, warn_for_target, settle, reserve_shots,
  apply_shot_guardrails,
}
use syn_qc_temporal_dynamics.Engine.Kpis.{
  Floats, measured, used_of, apply_control_profile, estimated_extra, estimate_qubits_used,
  final_kpis,
}
use syn_qc_temporal_dynamics.Engine.Run.{
  Surroundings, EngineState, RunError, make_run, run_experiment,
}
use syn_qc_temporal_dynamics.Engine.Run.Ends.{Ends}
use syn_qc_temporal_dynamics.Tests.Budget.{server_of, local, settings}

abbrev hundredths : Floats
hundredths = record {
  Real = ℕ;
  ratio = λ n d. 100 * n / d;
  of_int = λ n. 100 * pos_part n;
  plus = λ x y. x + y;
  minus = λ x y. x - y;
  times = λ x y. x * y / 100;
  over = λ x y. 100 * x / y;
  smaller = λ x y. min x y;
  larger = λ x y. max x y;
  is_less = λ x y. ltb x y;
  truncate = λ x. pos (x / 100);
}

abbrev profile : ControlProfile ℕ
profile = record {
  drive_bias = 100;
  probe_window_ns = pos 500;
  feedback_gain = 100;
  safety_clamp_ns = pos 10;
  thermal_guard_enabled = true;
  tracer_persistence_ms = pos 1;
  notes = none;
}

abbrev kpis : KpiBundle ℕ
kpis = record {
  fidelity = some 93;
  latency_us = none;
  backaction = some 20;
  shots_used = pos 0;
  shot_budget = pos 0;
  status = ok_status;
}

abbrev req : RunExperimentRequest ℕ
req = record {
  preset = latency;
  hardware_target = "ibm_quantum";
  shot_budget = some (pos 600);
  notes = none;
  control_overrides = none;
}

abbrev around : Surroundings hundredths
around = record {
  active_profile = profile;
  provider = ok (record { kpis = kpis; raw_counts = some (("00", 300) ∷ ("11", 190) ∷ []) });
  end_time = 215;
  usage_times = (215, 216);
  wall_us = 500;
  jitter = pos 2;
  run_id = "r";
  workflow_trace = [];
  written = none;
}

abbrev engine : EngineState hundredths server_of
engine = record {
  store = record {
    max_entries = 2;
    has_path = false;
    runs = [];
    persist_mtime = none;
    last_persist_ok = true;
  };
  budget_tracker = local;
  usage_tracker = none;
}

program : Unit {0}
unfolding get put pop keys_if pop_all ◌+ℤ◌ evict_expired reserve_memory reserve get_usage persist
    add exceeds requested_shots clamp_shots warn_for_target settle reserve_shots
    apply_shot_guardrails measured used_of apply_control_profile estimated_extra
    estimate_qubits_used final_kpis make_run run_experiment
program = tt

-- The shots used, the shot budget and the qubits of a run.
abbrev shown : Result (RunError hundredths) (RunExperimentResponse ℕ) → Option (ℤ × ℤ × ℕ)
shown (raise x) = none
shown (ok r) = some (r.kpis.shots_used, r.kpis.shot_budget, r.qubits_used)

-- 600 shots are cut to 500, of which 490 were measured.
ran :
    shown
      (run_experiment hundredths server_of settings answered answered 200 210 req "alice" around
        engine).1
    ≡ some (pos 490, pos 500, 36)
unfolding program
ran = refl
