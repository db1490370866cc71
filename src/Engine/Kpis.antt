-- ===== src/Engine/Kpis.antt =====
-- backend/synqc_backend/engine.py: the KPIs of a run. The arithmetic of floating point values is an
-- interface.
use syn_qc_temporal_dynamics.Prelude.{
  ℕ, zero, ◌+◌, ◌-◌, String, str_eq, Bool, true, false, not, ◌&&◌, ◌||◌, Option, none, some, [],
  ◌∷◌, ltb, min, max, if◌then◌else◌,
}
use syn_qc_temporal_dynamics.Prelude.Int.{ℤ, pos, pos_part, ltb_ℤ, ◌+ℤ◌}
use syn_qc_temporal_dynamics.Dict.{Dict}
use syn_qc_temporal_dynamics.Models.{
  ExperimentPreset, hello_quantum_sim, health, latency, backend_compare, dpd_demo, grover_demo,
  multicall_dual_clocking, ExperimentStatus, warn_status, fail_status, ControlProfile, KpiBundle,
}
use syn_qc_temporal_dynamics.Engine.{Settings}

-- Python's floating point operations; `ratio n d` is the literal of the value n / d.
pub record Floats : Type 1 where
  pub Real : Type 0
  pub ratio : ℕ → ℕ → Real
  pub of_int : ℤ → Real
  pub plus : Real → Real → Real
  pub minus : Real → Real → Real
  pub times : Real → Real → Real
  pub over : Real → Real → Real
  pub smaller : Real → Real → Real
  pub larger : Real → Real → Real
  pub is_less : Real → Real → Bool
  pub truncate : Real → ℤ

abbrev pub map_some {ℓ} : {A : Type ℓ} → (A → A) → Option A → Option A
map_some f none = none
map_some f (some x) = some (f x)

abbrev pub is_zero : ℤ → Bool
is_zero (pos zero) = true
is_zero _ = false

abbrev pub is_fail : ExperimentStatus → Bool
is_fail fail_status = true
is_fail _ = false

-- `sum(int(v) for v in raw_counts.values())`
unfoldable pub measured : Dict ℕ → ℕ
measured [] = 0
measured ((k, n) ∷ counts) = n + measured counts

-- The least and the largest number of qubits of a target.
abbrev pub qubit_bounds : String → ℕ × ℕ
qubit_bounds target =
    if str_eq target "sim_local"
    then (6, 18)
    else if str_eq target "aws_braket"
    then (20, 48)
    else if str_eq target "ibm_quantum"
    then (16, 44)
    else if str_eq target "azure_quantum"
    then (14, 38)
    else if str_eq target "ionq_labs"
    then (12, 32)
    else if str_eq target "rigetti_qcs"
    then (18, 40)
    else (10, 36)

-- The scale of a preset, in hundredths.
abbrev pub preset_scale : ExperimentPreset → ℕ
preset_scale hello_quantum_sim = 55
preset_scale latency = 45
preset_scale health = 65
preset_scale dpd_demo = 50
preset_scale backend_compare = 90
preset_scale grover_demo = 65
preset_scale multicall_dual_clocking = 65

-- `max(1, min(max_q, n))`
abbrev pub clamp_qubits : ℕ → ℤ → ℕ
clamp_qubits max_q n = max 1 (min max_q (pos_part n))

-- What `run_provider_experiment` gives: the KPIs and the counts of the shots, if there are any.
pub record ProviderResult (Real : Type 0) : Type 0 where
  pub kpis : KpiBundle Real
  pub raw_counts : Option (Dict ℕ)

abbrev pub value_or {ℓ} : {A : Type ℓ} → A → Option A → A
value_or default none = default
value_or default (some x) = x

-- `if kpis.shot_budget == 0:`
abbrev pub fill_budget : {Real : Type 0} → ℕ → KpiBundle Real → KpiBundle Real
fill_budget shots kpis = record kpis {
  shot_budget = if is_zero kpis.shot_budget then pos shots else kpis.shot_budget;
}

-- The shots used, which the measured ones replace where they are more.
unfoldable pub used_of : Option (Dict ℕ) → ℤ → ℤ
unfolding measured
used_of none used = used
used_of (some counts) used =
    let total = measured counts in
    if ltb 0 total && (is_zero used || ltb_ℤ used (pos total)) then pos total else used

-- `if kpis.raw_counts:`
abbrev pub fill_used : {Real : Type 0} → Option (Dict ℕ) → KpiBundle Real → KpiBundle Real
fill_used raw_counts kpis = record kpis { shots_used = used_of raw_counts kpis.shots_used }

-- `if warn_for_target and kpis.status is not ExperimentStatus.FAIL:`
abbrev pub fill_status : {Real : Type 0} → Bool → KpiBundle Real → KpiBundle Real
fill_status warn kpis = record kpis {
  status = if warn && not (is_fail kpis.status) then warn_status else kpis.status;
}

-- `if kpis.latency_us is None:`
abbrev pub fill_latency : {Real : Type 0} → Real → KpiBundle Real → KpiBundle Real
fill_latency wall kpis = record kpis { latency_us = some (value_or wall kpis.latency_us) }

module _ (f : Floats) where
  open f use {Real, ratio, of_int, plus, minus, times, over, smaller, larger, is_less, truncate}

  abbrev pub zero_to_one : Real → Real
  zero_to_one x = larger (ratio 0 1) (smaller (ratio 1 1) x)

  abbrev pub adjust_fidelity : ControlProfile Real → Real → Real
  adjust_fidelity controls x =
      zero_to_one (plus x (times (ratio 8 100) (minus controls.drive_bias (ratio 1 1))))

  abbrev pub backaction_delta : ControlProfile Real → Real
  backaction_delta controls =
      let delta =
        times (ratio 5 100)
          (minus (over (of_int controls.probe_window_ns) (ratio 500 1)) (ratio 1 1)) in
      if controls.thermal_guard_enabled then delta else plus delta (ratio 4 100)

  abbrev pub adjust_backaction : ControlProfile Real → Real → Real
  adjust_backaction controls x = zero_to_one (plus x (backaction_delta controls))

  abbrev pub adjust_latency : ControlProfile Real → Real → Real
  adjust_latency controls x = larger (ratio 1 1) (
      times x
        (minus (ratio 1 1) (smaller (times controls.feedback_gain (ratio 4 100)) (ratio 25 100))))

  -- `adjusted.backaction > 0.32` with no thermal guard or no safety clamp.
  abbrev pub is_unsafe : ControlProfile Real → Option Real → Bool
  is_unsafe controls none = false
  is_unsafe controls (some x) =
      is_less (ratio 32 100) x
      && (not controls.thermal_guard_enabled || is_zero controls.safety_clamp_ns)

  -- `_apply_control_profile`
  unfoldable pub apply_control_profile : KpiBundle Real → ControlProfile Real → KpiBundle Real
  apply_control_profile kpis controls =
      let backaction = map_some (adjust_backaction controls) kpis.backaction in
      record kpis {
        fidelity = map_some (adjust_fidelity controls) kpis.fidelity;
        latency_us = map_some (adjust_latency controls) kpis.latency_us;
        backaction = backaction;
        status = if is_unsafe controls backaction then warn_status else kpis.status;
      }

  -- What the estimate adds to the target's least number of qubits, before the jitter.
  unfoldable pub estimated_extra : Settings → String → ExperimentPreset → KpiBundle Real → ℕ → ℤ
  estimated_extra s target preset kpis shots =
      let (min_q, max_q) = qubit_bounds target in
      let backaction_scale =
        smaller (ratio 1 1)
          (larger (ratio 0 1) (over (value_or (ratio 2 10) kpis.backaction) (ratio 6 10))) in
      let shot_scale =
        smaller (ratio 1 1)
          (over (of_int (pos shots)) (of_int (pos (max 1 s.max_shots_per_experiment)))) in
      let share =
        plus
          (plus (plus (ratio 35 100) (times (ratio (preset_scale preset) 100) (ratio 35 100)))
            (times backaction_scale (ratio 2 10)))
          (times shot_scale (ratio 1 10)) in
      truncate (times (of_int (pos (max_q - min_q))) share)

  -- `_estimate_qubits_used`, with the jitter that the generator draws.
  unfoldable pub estimate_qubits_used :
      Settings → String → ExperimentPreset → KpiBundle Real → ℕ → ℤ → ℕ
  estimate_qubits_used s target preset kpis shots jitter =
      let (min_q, max_q) = qubit_bounds target in
      let scaled = pos min_q +ℤ estimated_extra s target preset kpis shots in
      clamp_qubits max_q (scaled +ℤ jitter)

  -- The KPIs of the response.
  unfoldable pub final_kpis :
      ℕ → Bool → ControlProfile Real → Real → ProviderResult Real → KpiBundle Real
  unfolding used_of apply_control_profile
  final_kpis shots warn controls wall result = fill_latency wall (
      fill_status warn (
        fill_used result.raw_counts
          (fill_budget shots (apply_control_profile result.kpis controls))))
