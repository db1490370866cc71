-- ===== src/ControlProfiles.antt =====
-- backend/synqc_backend/control_profiles.py: `ControlProfileStore`, one profile with an optional
-- file. A floating point value is of a parameter type, and whether it lies between the bounds of
-- its field is a parameter too; the integer bounds are written out.
pub mod Updates
use syn_qc_temporal_dynamics.Prelude.{
  ℕ, ◌≤◌, String, Bool, true, false, not, ◌&&◌, ◌||◌, Option, none, some, List, [], ◌∷◌,
  if◌then◌else◌, leb, ltb, Result, ok, raise,
}
use syn_qc_temporal_dynamics.Prelude.Int.{ℤ, pos, negsuc, ltb_ℤ}
use syn_qc_temporal_dynamics.Models.{ControlProfile}

module _ (Real : Type 0) where
  pub record ControlProfileUpdate : Type 0 where
    pub drive_bias : Option Real
    pub probe_window_ns : Option ℤ
    pub feedback_gain : Option Real
    pub safety_clamp_ns : Option ℤ
    pub thermal_guard_enabled : Option Bool
    pub tracer_persistence_ms : Option ℤ
    pub notes : Option String

  -- `0.5 <= drive_bias <= 1.5` and `0.0 <= feedback_gain <= 3.0`, and the two defaults.
  pub record Bounds : Type 0 where
    pub bias_in_range : Real → Bool
    pub gain_in_range : Real → Bool
    pub default_bias : Real
    pub default_gain : Real

  pub record ControlProfileStore : Type 0 where
    pub has_path : Bool
    pub profile : ControlProfile Real

  -- The persisted file: missing, unreadable, or the profile that its text decodes to.
  pub data File : Type 0 where
    missing unreadable : File
    holds : ControlProfile Real → File

abbrev pub between : ℕ → ℕ → ℤ → Bool
between low high (pos n) = leb low n && leb n high
between low high (negsuc n) = false

-- `payload[field] = value` where the patch has a value.
abbrev pub patched {ℓ} : {A : Type ℓ} → A → Option A → A
patched old none = old
patched old (some value) = value

abbrev pub patched_optional : Option String → Option String → Option String
patched_optional old none = old
patched_optional old (some value) = some value

module _ {Real : Type 0} (bounds : Bounds Real) where
  -- The validation of the model's fields.
  unfoldable pub validate : ControlProfile Real → Bool
  validate p =
      bounds.bias_in_range p.drive_bias
      && (between 10 10000 p.probe_window_ns
          && (bounds.gain_in_range p.feedback_gain
              && (between 0 20000 p.safety_clamp_ns && between 50 5000 p.tracer_persistence_ms)))

  abbrev pub default_profile : ControlProfile Real
  default_profile = record {
    drive_bias = bounds.default_bias;
    probe_window_ns = pos 120;
    feedback_gain = bounds.default_gain;
    safety_clamp_ns = pos 600;
    thermal_guard_enabled = true;
    tracer_persistence_ms = pos 420;
    notes = none;
  }

  -- `__init__`: a file that is corrupt or holds an invalid profile gives the defaults.
  unfoldable pub init : Bool → File Real → ControlProfileStore Real
  unfolding validate
  init has_path file = record {
    has_path = has_path;
    profile =
        if has_path
        then elim file [
          | missing ↦ default_profile
          | unreadable ↦ default_profile
          | holds p ↦ if validate p then p else default_profile
        ]
        else default_profile;
  }

  unfoldable pub merge : ControlProfile Real → ControlProfileUpdate Real → ControlProfile Real
  merge p patch = record {
    drive_bias = patched p.drive_bias patch.drive_bias;
    probe_window_ns = patched p.probe_window_ns patch.probe_window_ns;
    feedback_gain = patched p.feedback_gain patch.feedback_gain;
    safety_clamp_ns = patched p.safety_clamp_ns patch.safety_clamp_ns;
    thermal_guard_enabled = patched p.thermal_guard_enabled patch.thermal_guard_enabled;
    tracer_persistence_ms = patched p.tracer_persistence_ms patch.tracer_persistence_ms;
    notes = patched_optional p.notes patch.notes;
  }

  -- The file after `_persist`, whose write succeeds, or fails and leaves some file.
  abbrev pub persist : Option (File Real) → ControlProfileStore Real → File Real → File Real
  persist write s file =
      if s.has_path then elim write [ none ↦ holds s.profile | some left ↦ left ] else file

  -- `update`, with the file that it leaves. A profile that is not valid raises before the
  -- assignment.
  unfoldable pub update :
      Option (File Real)
      → ControlProfileUpdate Real
      → ControlProfileStore Real
      → File Real
      → (ControlProfileStore Real × File Real) × Result String (ControlProfile Real)
  unfolding validate merge
  update write patch s file =
      let p = merge s.profile patch in
      if validate p
      then ((record s { profile = p }, persist write (record s { profile = p }) file), ok p)
      else ((s, file), raise "ValidationError")
