-- ===== src/Shor/RunStore.antt =====
-- synqc_shor/run_store.py: the ring of recent runs. The id, the time and the environment's maximum
-- are arguments. The lines that are appended to a file are left out: their failures are swallowed,
-- and nothing reads them.
pub mod Ring
use syn_qc_temporal_dynamics.Prelude.{
  ℕ, ◌-◌, String, str_eq, Bool, Option, none, some, List, [], ◌∷◌, ◌++◌, map, ltb, if◌then◌else◌,
  length, drop, take_last, min, max,
}
use mathlib.Core.List.{reverse}
use syn_qc_temporal_dynamics.Prelude.Int.{ℤ, pos, negsuc, pos_part}

-- `D` is the type of the request and response dictionaries.
pub record RunRecord (D : Type 0) : Type 0 where
  pub run_id : String
  pub ts_utc : String
  pub kind : String
  pub is_ok : Bool
  pub runtime_ms : ℕ
  pub request : D
  pub response : Option D
  pub error : Option String

pub record Summary : Type 0 where
  pub run_id : String
  pub ts_utc : String
  pub kind : String
  pub is_ok : Bool
  pub runtime_ms : ℕ

-- `max(1, min(int(limit), 500))`
abbrev pub clamp_limit : ℤ → ℕ
clamp_limit limit = max 1 (min (pos_part limit) 500)

module _ {D : Type 0} where
  abbrev pub to_public_summary : RunRecord D → Summary
  to_public_summary r = record {
    run_id = r.run_id;
    ts_utc = r.ts_utc;
    kind = r.kind;
    is_ok = r.is_ok;
    runtime_ms = r.runtime_ms;
  }

  -- `if len(_RUNS) > max: del _RUNS[: len(_RUNS) - max]`
  unfoldable pub trim : ℕ → List (RunRecord D) → List (RunRecord D)
  trim bound runs = if ltb bound (length runs) then drop (length runs - bound) runs else runs

  unfoldable pub record_run : ℕ → RunRecord D → List (RunRecord D) → List (RunRecord D)
  unfolding trim
  record_run bound rec runs = trim bound (runs ++ rec ∷ [])

  unfoldable pub list_runs : ℤ → List (RunRecord D) → List Summary
  list_runs limit runs = map to_public_summary (reverse (take_last (clamp_limit limit) runs))

  unfoldable pub get_run : String → List (RunRecord D) → Option (RunRecord D)
  get_run run_id [] = none
  get_run run_id (r ∷ runs) = if str_eq r.run_id run_id then some r else get_run run_id runs
