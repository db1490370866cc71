-- ===== src/Tests/ControlProfiles.antt =====
-- backend/synqc_backend/control_profiles.py, with hundredths for the floating point values.
use syn_qc_temporal_dynamics.Prelude.{
  ℕ, ◌&&◌, Option, none, some, List, [], ◌∷◌, ◌≡◌, refl, true, leb,
}
use syn_qc_temporal_dynamics.Prelude.Int.{pos}
use syn_qc_temporal_dynamics.ControlProfiles.{
  ControlProfileUpdate, Bounds, File, unreadable, validate, init, merge, update,
}
use syn_qc_temporal_dynamics.ControlProfiles.Updates.{update_all, updates-valid, restart-same}

program : Unit {0}
unfolding validate init merge update update_all
program = tt

abbrev bounds : Bounds ℕ
bounds = record {
  bias_in_range = λ x. leb 50 x && leb x 150;
  gain_in_range = λ x. leb x 300;
  default_bias = 100;
  default_gain = 35;
}

abbrev with_bias : ℕ → ControlProfileUpdate ℕ
with_bias x = record {
  drive_bias = some x;
  probe_window_ns = none;
  feedback_gain = none;
  safety_clamp_ns = some (pos 700);
  thermal_guard_enabled = none;
  tracer_persistence_ms = none;
  notes = none;
}

-- The second patch is not valid, and none of it is kept.
abbrev patches : List (Option (File ℕ) × ControlProfileUpdate ℕ)
patches = (none, with_bias 120) ∷ (none, with_bias 160) ∷ []

bias_kept :
    (update_all bounds patches (init bounds true unreadable, unreadable)).0.profile.drive_bias ≡ 120
unfolding program
bias_kept = refl

updates-valid_example :
    validate bounds (update_all bounds patches (init bounds true unreadable, unreadable)).0.profile
    ≡ true
unfolding program
updates-valid_example = updates-valid bounds true unreadable patches refl

restart-same_example :
    (init bounds true
      (update_all bounds patches (init bounds true unreadable, unreadable)).1).profile
    ≡ (update_all bounds patches (init bounds true unreadable, unreadable)).0.profile
restart-same_example = restart-same bounds unreadable patches (refl, (refl, tt))
