-- ===== src/Tests/Storage.antt =====
-- backend/synqc_backend/storage.py, over runs that are an id and a time of creation.
use mathlib.Core.List.{Perm}
use syn_qc_temporal_dynamics.Prelude.{
  ℕ, ◌≤◌, ◌<◌, String, true, false, none, some, List, [], ◌∷◌, ◌++◌, ◌≡◌, refl, arith, All, leb,
  length, min, ◌⊎◌,
}
use syn_qc_temporal_dynamics.Dict.{get, put, pop}
use syn_qc_temporal_dynamics.Storage.Sorting.{sort_by, IsSorted}
use syn_qc_temporal_dynamics.Storage.{
  ExperimentStore, unreadable, no_list, holds, values, load, oldest_id, drop_oldest, persist, add,
  recent, refresh_from_disk,
}
use syn_qc_temporal_dynamics.Storage.Bounds.{
  IsWellFormed, Evicts, add_runs, add-IsWellFormed, find-add,
}
use syn_qc_temporal_dynamics.Storage.Recent.{recent_newest, refresh_partial}

abbrev Run : Type 0
Run = String × ℕ

abbrev run_id : Run → String
run_id r = r.0

abbrev created : Run → ℕ
created r = r.1

program : Unit {0}
unfolding get put pop sort_by values load oldest_id drop_oldest persist add recent refresh_from_disk
program = tt

-- A full store of two runs.
abbrev full : ExperimentStore Run
full = record {
  max_entries = 2;
  has_path = true;
  runs = ("a", ("a", 20)) ∷ ("b", ("b", 10)) ∷ [];
  persist_mtime = some 5;
  last_persist_ok = true;
}

full-IsWellFormed : IsWellFormed run_id created full
unfolding get
full-IsWellFormed = record {
  unique = (refl, (refl, tt));
  keyed = (refl, (refl, tt));
  bounded = omega arith;
}

-- The oldest run goes, which may be the one that was just added.
add_drops :
    (add run_id created (some 6) ("c", 30) full).runs ≡ ("a", ("a", 20)) ∷ ("c", ("c", 30)) ∷ []
unfolding program
add_drops = refl

add_drops_itself : (add run_id created none ("c", 1) full).runs ≡ full.runs
unfolding program
add_drops_itself = refl

recent_two :
    recent run_id created 2 (("a", ("a", 20)) ∷ ("b", ("b", 10)) ∷ ("c", ("c", 30)) ∷ [])
    ≡ ("c", 30) ∷ ("a", 20) ∷ []
unfolding program
recent_two = refl

add_runs_example :
    ((length (put "c" ("c", 30) full.runs) ≤ 2)
      × ((add run_id created (some 6) ("c", 30) full).runs ≡ put "c" ("c", 30) full.runs))
    ⊎ ((r : Run) × Evicts run_id created
          (put "c" ("c", 30) full.runs)
          (add run_id created (some 6) ("c", 30) full).runs
          r
        × (2 < length (put "c" ("c", 30) full.runs)))
add_runs_example = add_runs run_id created (some 6) ("c", 30) full full-IsWellFormed

add-IsWellFormed_example : IsWellFormed run_id created (add run_id created (some 6) ("c", 30) full)
add-IsWellFormed_example = add-IsWellFormed run_id created (some 6) ("c", 30) full full-IsWellFormed

find-add_example :
    (get "c" (add run_id created (some 6) ("c", 30) full).runs ≡ some ("c", 30))
    ⊎ All (λ q. leb 30 (created q) ≡ true) (values (put "c" ("c", 30) full.runs))
find-add_example = find-add run_id created (some 6) ("c", 30) full full-IsWellFormed

refresh_partial_example :
    let s' =
      refresh_from_disk run_id created (holds 9 (some ("x", 1) ∷ none ∷ some ("y", 2) ∷ [])) full in
    (s'.runs ≡ (load run_id created (some ("x", 1) ∷ []) []).0)
    × (s'.last_persist_ok ≡ false)
    × (s'.persist_mtime ≡ some 5)
    × (refresh_from_disk run_id created (unreadable 9) full
        ≡ record full { last_persist_ok = false })
    × (refresh_from_disk run_id created (no_list 9) full
        ≡ record full { runs = []; last_persist_ok = false })
unfolding load
refresh_partial_example =
    refresh_partial run_id created full 9 refl refl (some ("x", 1) ∷ []) (some ("y", 2) ∷ []) refl

recent_newest_example :
    (rest : List Run) × Perm (recent run_id created 1 full.runs ++ rest) (values full.runs)
    × IsSorted (λ a b. leb (created b) (created a)) (recent run_id created 1 full.runs)
    × All
        (λ r. All (λ q. leb (created q) (created r) ≡ true) rest)
        (recent run_id created 1 full.runs)
    × (length (recent run_id created 1 full.runs) ≡ min 1 (length full.runs))
recent_newest_example = recent_newest run_id created 1 full.runs
