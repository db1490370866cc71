-- ===== src/Storage/Recent.antt =====
-- `list_recent`, the reload from disk and the constructor of `ExperimentStore`
-- (backend/synqc_backend/storage.py).
use mathlib.Core.List.{Perm}
use syn_qc_temporal_dynamics.Prelude.{
  ℕ, zero, suc, String, Bool, true, false, Option, none, some, List, [], ◌∷◌, ◌++◌, ◌≡◌, refl,
  arith, leb, length, min, All, take, drop, take-append-drop,
}
use syn_qc_temporal_dynamics.Dict.{Dict, put, Unique, put-Unique}
use syn_qc_temporal_dynamics.Storage.Sorting.{
  sort_by, IsSorted, sort_by-perm, length-sort_by, sort_by-IsSorted, take-IsSorted,
  take-before-drop,
}
use syn_qc_temporal_dynamics.Storage.{
  ExperimentStore, unreadable, no_list, holds, values, is_fresh, load, recent, refresh_from_disk,
}
use syn_qc_temporal_dynamics.Storage.Bounds.{Keyed, put-Keyed}

length-take {ℓ} : {A : Type ℓ} (n : ℕ) (xs : List A) → length (take n xs) ≡ min n (length xs)
length-take zero xs = omega arith
length-take (suc n) [] = omega arith
length-take (suc n) (x ∷ xs) = omega (arith, length-take n xs)

length-values : {R : Type 0} (d : Dict R) → length (values d) ≡ length d
unfolding values
length-values [] = refl
length-values ((k, r) ∷ d) = omega (arith, length-values d)

module _ {R : Type 0} (id : R → String) (created_at : R → ℕ) where
  abbrev later : R → R → Bool
  later a b = leb (created_at b) (created_at a)

  -- The listing is the newest part of the store: it holds as many runs as `limit` and the store
  -- allow, newest first, and with some `rest` it makes up all the runs of the store, none of which in `rest` is newer than
  -- any that is listed.
  pub recent_newest :
      (limit : ℕ) (d : Dict R)
      → (rest : List R) × Perm (recent id created_at limit d ++ rest) (values d)
        × IsSorted (λ a b. leb (created_at b) (created_at a)) (recent id created_at limit d)
        × All
            (λ r. All (λ q. leb (created_at q) (created_at r) ≡ true) rest)
            (recent id created_at limit d)
        × (length (recent id created_at limit d) ≡ min limit (length d))
  unfolding recent
  recent_newest limit d =
      let all = sort_by later (values d) in
      let sorted =
        sort_by-IsSorted later (λ a b f. ground arith) (λ a b c f g. ground arith) (values d) in
      (
        drop limit all,
        rw (take-append-drop limit all) (sort_by-perm later (values d)),
        take-IsSorted later limit all sorted,
        take-before-drop later limit all sorted,
        omega (arith, length-take limit all, length-sort_by later (values d), length-values d),
      )

  load-Unique-Keyed :
      (entries : List (Option R)) (d : Dict R)
      → Unique d × Keyed id created_at d
      → Unique (load id created_at entries d).0
        × Keyed id created_at (load id created_at entries d).0
  unfolding load
  load-Unique-Keyed [] d h = h
  load-Unique-Keyed (none ∷ entries) d h = h
  load-Unique-Keyed (some r ∷ entries) d h =
      load-Unique-Keyed entries (put (id r) r d)
        (put-Unique (id r) r d h.0, put-Keyed id created_at r d h.1)

  load-append :
      (front back : List (Option R)) (d : Dict R)
      → (load id created_at front d).1 ≡ true
      → load id created_at (front ++ none ∷ back) d ≡ ((load id created_at front d).0, false)
  unfolding load
  load-append [] back d h = refl
  load-append (none ∷ front) back d h = cc
  load-append (some r ∷ front) back d h = load-append front back (put (id r) r d) h

  module _ (s : ExperimentStore R) (mtime : ℕ) (path : s.has_path ≡ true)
      (stale : is_fresh s.persist_mtime mtime ≡ false) where
    -- A reload of a newer file whose entries are all valid replaces the runs by those of the file.
    refresh_valid :
        (entries : List (Option R))
        → (load id created_at entries []).1 ≡ true
        → let s' = refresh_from_disk id created_at (holds mtime entries) s in
          (s'.runs ≡ (load id created_at entries []).0)
          × (s'.persist_mtime ≡ some mtime)
          × (s'.last_persist_ok ≡ true)
          × Unique s'.runs
          × Keyed id created_at s'.runs
    unfolding refresh_from_disk
    refresh_valid entries h = ground (arith, load-Unique-Keyed entries [] (tt, tt))

    -- A reload of a newer file that fails is noted as failed, and the time of the file is not taken
    -- over. Of the runs, it keeps all where the text cannot be read as JSON. But where an entry fails validation
    -- the runs are those of the entries before the first such entry, and where the value cannot be
    -- gone through they are gone.
    pub refresh_partial :
        (front back : List (Option R))
        → (load id created_at front []).1 ≡ true
        → let s' = refresh_from_disk id created_at (holds mtime (front ++ none ∷ back)) s in
          (s'.runs ≡ (load id created_at front []).0)
          × (s'.last_persist_ok ≡ false)
          × (s'.persist_mtime ≡ s.persist_mtime)
          × (refresh_from_disk id created_at (unreadable mtime) s
              ≡ record s { last_persist_ok = false })
          × (refresh_from_disk id created_at (no_list mtime) s
              ≡ record s { runs = []; last_persist_ok = false })
    unfolding refresh_from_disk
    refresh_partial front back h = ground (arith, load-append front back [])
