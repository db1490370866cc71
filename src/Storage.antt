-- ===== src/Storage.antt =====
-- backend/synqc_backend/storage.py: `ExperimentStore`, a bounded store of runs with an optional
-- JSON file. A run is any type with an id and a time of creation. The file system is the
-- environment's: a read finds a `File`, and a write either fails or leaves a file with a new
-- modification time.
pub mod Sorting
pub mod Bounds
pub mod Recent
use Sorting.{sort_by}
use syn_qc_temporal_dynamics.Prelude.{
  ℕ, ◌+◌, ◌-◌, String, Bool, true, false, Option, none, some, List, [], ◌∷◌, map, leb, ltb, ◌&&◌,
  if◌then◌else◌, length, take,
}
use syn_qc_temporal_dynamics.Dict.{Dict, get, put, pop}

-- What the path holds: nothing, a text that cannot be read as JSON, the JSON of a value that `for` cannot go
-- through (null, a number or a Boolean), or of one that it can, whose entries are valid runs
-- (`some`) or fail `model_validate` (`none`), as a dictionary's keys do. Each has the modification
-- time.
pub data File (R : Type 0) : Type 0 where
  missing : File R
  unreadable : ℕ → File R
  no_list : ℕ → File R
  holds : ℕ → List (Option R) → File R

pub record ExperimentStore (R : Type 0) : Type 0 where
  pub max_entries : ℕ
  pub has_path : Bool
  pub runs : Dict R
  pub persist_mtime : Option ℕ
  pub last_persist_ok : Bool

-- `d.values()`
unfoldable pub values : {R : Type 0} → Dict R → List R
values [] = []
values ((k, r) ∷ d) = r ∷ values d

-- `self._persist_mtime and mtime <= self._persist_mtime`
abbrev pub is_fresh : Option ℕ → ℕ → Bool
is_fresh none mtime = false
is_fresh (some known) mtime = ltb 0 known && leb mtime known

module _ {R : Type 0} (id : R → String) (created_at : R → ℕ) where
  -- The loop that fills `_runs`, up to the first entry that is not valid: the runs, and whether
  -- the loop came to its end.
  unfoldable pub load : List (Option R) → Dict R → Dict R × Bool
  load [] runs = (runs, true)
  load (none ∷ entries) runs = (runs, false)
  load (some run ∷ entries) runs = load entries (put (id run) run runs)

  -- `__init__` over the file that the path holds.
  unfoldable pub init : ℕ → Option (File R) → ExperimentStore R
  init max_entries file =
      let empty : ExperimentStore R = record {
        max_entries = max_entries;
        has_path = elim file [ none ↦ false | some _ ↦ true ];
        runs = [];
        persist_mtime = none;
        last_persist_ok = true;
      } in
      elim file [
        | none ↦ empty
        | some missing ↦ empty
        | some (unreadable _) ↦ empty
        | some (no_list _) ↦ empty
        | some (holds mtime entries) ↦ record empty {
          runs = (load entries []).0;
          persist_mtime = if (load entries []).1 then some mtime else none;
        }
      ]

  -- `_persist`; the environment's answer is the new modification time, or `none` for an error.
  unfoldable pub persist : Option ℕ → ExperimentStore R → ExperimentStore R
  persist written s =
      if s.has_path
      then elim written [
        | none ↦ record s { last_persist_ok = false }
        | some mtime ↦ record s { persist_mtime = some mtime; last_persist_ok = true }
      ]
      else s

  -- `sorted(self._runs.values(), key=lambda r: r.created_at)[0].id`
  unfoldable pub oldest_id : Dict R → Option String
  oldest_id runs = elim (sort_by (λ a b. leb (created_at a) (created_at b)) (values runs)) [
    | [] ↦ none
    | r ∷ _ ↦ some (id r)
  ]

  unfoldable pub drop_oldest : Dict R → Dict R
  drop_oldest runs = elim (oldest_id runs) [ none ↦ runs | some k ↦ pop k runs ]

  unfoldable pub add : Option ℕ → R → ExperimentStore R → ExperimentStore R
  unfolding persist
  add written run s =
      let runs = put (id run) run s.runs in
      persist written
        (record s { runs = if ltb s.max_entries (length runs) then drop_oldest runs else runs })

  -- `_refresh_from_disk`
  unfoldable pub refresh_from_disk : File R → ExperimentStore R → ExperimentStore R
  refresh_from_disk file s =
      if s.has_path
      then elim file [
        | missing ↦ s
        | unreadable mtime ↦
            if is_fresh s.persist_mtime mtime then s else record s { last_persist_ok = false }
        | no_list mtime ↦
            if is_fresh s.persist_mtime mtime
            then s
            else record s { runs = []; last_persist_ok = false }
        | holds mtime entries ↦
            if is_fresh s.persist_mtime mtime
            then s
            else (if (load entries []).1
                then record s {
                  runs = (load entries []).0;
                  persist_mtime = some mtime;
                  last_persist_ok = true;
                }
                else record s { runs = (load entries []).0; last_persist_ok = false })
      ]
      else s

  unfoldable pub find : File R → String → ExperimentStore R → ExperimentStore R × Option R
  unfolding refresh_from_disk
  find file run_id s = let s' = refresh_from_disk file s in (s', get run_id s'.runs)

  -- The runs behind `list_recent`, before each is cut down to its summary.
  unfoldable pub recent : ℕ → Dict R → List R
  recent limit runs = take limit (sort_by (λ a b. leb (created_at b) (created_at a)) (values runs))

  unfoldable pub list_recent : File R → ℕ → ExperimentStore R → ExperimentStore R × List R
  unfolding refresh_from_disk recent
  list_recent file limit s = let s' = refresh_from_disk file s in (s', recent limit s'.runs)

  unfoldable pub is_empty : File R → ExperimentStore R → ExperimentStore R × Bool
  unfolding refresh_from_disk
  is_empty file s = let s' = refresh_from_disk file s in (s', leb (length s'.runs) 0)
