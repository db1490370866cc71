-- ===== src/ControlProfiles/Updates.antt =====
-- The profile of backend/synqc_backend/control_profiles.py over its updates and over a restart.
use syn_qc_temporal_dynamics.Prelude.{
  ◌≡◌, refl, Bool, true, false, Option, none, List, [], ◌∷◌, All, Bool-cases, inl, inr,
}
use syn_qc_temporal_dynamics.ControlProfiles.{
  ControlProfileUpdate, Bounds, ControlProfileStore, File, missing, unreadable, holds, validate,
  default_profile, init, merge, update,
}

module _ {Real : Type 0} (bounds : Bounds Real) where
  -- The store and its file after a row of updates, each with the outcome of its write.
  unfoldable pub update_all :
      List (Option (File Real) × ControlProfileUpdate Real)
      → ControlProfileStore Real × File Real
      → ControlProfileStore Real × File Real
  update_all [] state = state
  update_all ((write, patch) ∷ patches) (s, file) =
      update_all patches (update bounds write patch s file).0

  init-valid :
      (has_path : Bool) (file : File Real)
      → validate bounds (default_profile bounds) ≡ true
      → validate bounds (init bounds has_path file).profile ≡ true
  unfolding init
  init-valid false file d = d
  init-valid true missing d = d
  init-valid true unreadable d = d
  init-valid true (holds p) d = elim (Bool-cases (validate bounds p)) [
    | inl v ↦ rw v v
    | inr v ↦ rw v d
  ]

  update-valid :
      (write : Option (File Real)) (patch : ControlProfileUpdate Real)
      (s : ControlProfileStore Real)
      → (file : File Real) → validate bounds s.profile ≡ true
      → validate bounds (update bounds write patch s file).0.0.profile ≡ true
  unfolding update
  update-valid write patch s file h =
      elim (Bool-cases (validate bounds (merge bounds s.profile patch))) [
        | inl v ↦ rw v v
        | inr v ↦ rw v h
      ]

  update_all-valid :
      (patches : List (Option (File Real) × ControlProfileUpdate Real))
      → (s : ControlProfileStore Real) (file : File Real) → validate bounds s.profile ≡ true
      → validate bounds (update_all patches (s, file)).0.profile ≡ true
  unfolding update_all
  update_all-valid [] s file h = h
  update_all-valid ((write, patch) ∷ patches) s file h =
      let next = (update bounds write patch s file).0 in
      update_all-valid patches next.0 next.1 (update-valid write patch s file h)

  -- Whatever the file held at the start and whatever patches came, the profile in use is always
  -- within the bounds of its fields, if the defaults are.
  pub updates-valid :
      (has_path : Bool) (file : File Real)
      → (patches : List (Option (File Real) × ControlProfileUpdate Real))
      → validate bounds (default_profile bounds) ≡ true
      → validate bounds (update_all patches (init bounds has_path file, file)).0.profile ≡ true
  updates-valid has_path file patches d =
      update_all-valid patches (init bounds has_path file) file (init-valid has_path file d)

  -- A store that started from the file would have the same profile.
  abbrev Saved : ControlProfileStore Real → File Real → Type 0
  Saved s file = (s.has_path ≡ true) × ((init bounds true file).profile ≡ s.profile)

  update-Saved :
      (patch : ControlProfileUpdate Real) (s : ControlProfileStore Real) (file : File Real)
      → Saved s file
      → Saved (update bounds none patch s file).0.0 (update bounds none patch s file).0.1
  unfolding update init
  update-Saved patch s file (path, same) =
      elim (Bool-cases (validate bounds (merge bounds s.profile patch))) [
        | inl v ↦ rw (v, path) (refl, rw v refl)
        | inr v ↦ rw v (path, same)
      ]

  -- Every write succeeds.
  abbrev pub AllWritten : List (Option (File Real) × ControlProfileUpdate Real) → Type 0
  AllWritten patches = All (λ e. e.0 ≡ none) patches

  update_all-Saved :
      (patches : List (Option (File Real) × ControlProfileUpdate Real))
      → (s : ControlProfileStore Real) (file : File Real) → AllWritten patches
      → Saved s file
      → Saved (update_all patches (s, file)).0 (update_all patches (s, file)).1
  unfolding update_all
  update_all-Saved [] s file w h = h
  update_all-Saved ((write, patch) ∷ patches) s file w h =
      let next = (update bounds write patch s file).0 in
      update_all-Saved patches next.0 next.1 w.1 (rw w.0 (update-Saved patch s file h))

  -- A store with a file whose writes all succeed loses nothing by a restart: a store that is made
  -- anew from the file has the profile that the updates have left.
  pub restart-same :
      (file : File Real) (patches : List (Option (File Real) × ControlProfileUpdate Real))
      → AllWritten patches
      → (init bounds true (update_all patches (init bounds true file, file)).1).profile
        ≡ (update_all patches (init bounds true file, file)).0.profile
  unfolding init
  restart-same file patches w =
      (update_all-Saved patches (init bounds true file) file w (refl, refl)).1
