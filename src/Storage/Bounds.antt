-- ===== src/Storage/Bounds.antt =====
-- `ExperimentStore.add` of backend/synqc_backend/storage.py: the bound on the entries, and which run
-- goes when the store is full.
use syn_qc_temporal_dynamics.Prelude.{
  ℕ, ◌+◌, ◌≤◌, ◌<◌, String, Bool, true, false, Option, none, some, List, [], ◌∷◌, ◌≡◌, ◌≢◌, refl,
  subst, ◌⊎◌, inl, inr, arith, leb, ltb, str_eq, eq_iff, if◌then◌else◌, length, All, Bool-cases,
  ltb→lt,
}
use mathlib.Core.Path.{subst⁻¹}
use syn_qc_temporal_dynamics.Dict.{
  Dict, get, put, pop, Unique, get-put, get-pop, put-Unique, pop-Unique,
}
use syn_qc_temporal_dynamics.Storage.Sorting.{
  insert_by, sort_by, IsSorted, All-sort_by, All-of_sort_by, sort_by-IsSorted,
}
use syn_qc_temporal_dynamics.Storage.{ExperimentStore, values, oldest_id, drop_oldest, add}

module _ {R : Type 0} where
  length-put-le : (k : String) (v : R) (d : Dict R) → length (put k v d) ≤ length d + 1
  unfolding put
  length-put-le k v [] = omega arith
  length-put-le k v ((j, w) ∷ d) = ground (arith, length-put-le k v d)

  length-pop : (k : String) (d : Dict R) → get k d ≢ none → length (pop k d) + 1 ≡ length d
  unfolding pop get
  length-pop k [] h = absurd (h refl)
  length-pop k ((j, w) ∷ d) h = ground (arith, length-pop k d)

module _ {R : Type 0} (id : R → String) (created_at : R → ℕ) where
  -- Every run stands under its own id.
  abbrev pub Keyed : Dict R → Type 0
  Keyed [] = Unit
  Keyed ((k, r) ∷ d) = (k ≡ id r) × Keyed d

  pub put-Keyed : (r : R) (d : Dict R) → Keyed d → Keyed (put (id r) r d)
  unfolding put
  put-Keyed r [] h = (refl, tt)
  put-Keyed r ((j, w) ∷ d) h = ground (arith, eq_iff j (id r), put-Keyed r d h.1)

  pub pop-Keyed : (k : String) (d : Dict R) → Keyed d → Keyed (pop k d)
  unfolding pop
  pop-Keyed k [] h = tt
  pop-Keyed k ((j, w) ∷ d) h = ground (arith, pop-Keyed k d h.1)

  abbrev InDict : Dict R → R → Type 0
  InDict d r = get (id r) d ≡ some r

  weaken :
      (k : String) (w : R) (d : Dict R) (rs : List R)
      → k ≡ id w
      → get k d ≡ none
      → All (InDict d) rs
      → All (InDict ((k, w) ∷ d)) rs
  unfolding get
  weaken k w d [] e n h = tt
  weaken k w d (r ∷ rs) e n h = (ground (arith, eq_iff k (id r), h.0), weaken k w d rs e n h.1)

  values-InDict : (d : Dict R) → Unique d → Keyed d → All (InDict d) (values d)
  unfolding values get
  values-InDict [] u h = tt
  values-InDict ((k, w) ∷ d) u h =
      (ground (arith, eq_iff k (id w)), weaken k w d (values d) h.0 u.0 (values-InDict d u.1 h.1))

  abbrev earlier : R → R → Bool
  earlier a b = leb (created_at a) (created_at b)

  -- What `sorted(...)[0]` finds: a run of the store, none of whose runs is older.
  record IsOldest (d : Dict R) (r : R) : Type 0 where
    named : oldest_id id created_at d ≡ some (id r)
    stored : get (id r) d ≡ some r
    oldest : All (λ q. earlier r q ≡ true) (values d)

  head-IsOldest :
      (d : Dict R) (r : R) (rs : List R)
      → sort_by earlier (values d) ≡ r ∷ rs
      → Unique d
      → Keyed d
      → IsOldest d r
  unfolding oldest_id
  head-IsOldest d r rs e u h =
      let sorted : IsSorted earlier (r ∷ rs) =
        subst (IsSorted earlier) e (
          sort_by-IsSorted earlier (λ a b f. ground arith) (λ a b c f g. ground arith)
            (values d)) in
      let inside : All (InDict d) (r ∷ rs) =
        subst (All (InDict d)) e
          (All-sort_by earlier (InDict d) (values d) (values-InDict d u h)) in
      record {
        named = rw (e, oldest_id);
        stored = inside.0;
        oldest =
            All-of_sort_by earlier (λ q. earlier r q ≡ true) (values d)
              (subst⁻¹ (All (λ q. earlier r q ≡ true)) e (ground arith, sorted.0));
      }

  sorted-nil : (d : Dict R) → sort_by earlier (values d) ≡ [] → d ≡ []
  unfolding values sort_by
  sorted-nil [] e = refl
  sorted-nil ((k, r) ∷ d) e = absurd (insert-ne-nil r (sort_by earlier (values d)) e)
    where
      insert-ne-nil : (x : R) (ys : List R) → insert_by earlier x ys ≢ []
      insert-ne-nil x [] f = unfold insert_by in cc
      insert-ne-nil x (y ∷ ys) f = unfold insert_by in ground arith

  exists_IsOldest : (d : Dict R) → d ≢ [] → Unique d → Keyed d → (r : R) × IsOldest d r
  exists_IsOldest d ne u h = go (sort_by earlier (values d)) refl
    where
      go : (s : List R) → sort_by earlier (values d) ≡ s → (r : R) × IsOldest d r
      go [] e = absurd (ne (sorted-nil d e))
      go (r ∷ rs) e = (r, head-IsOldest d r rs e u h)

  -- What every operation keeps.
  pub record IsWellFormed (s : ExperimentStore R) : Type 0 where
    pub unique : Unique s.runs
    pub keyed : Keyed s.runs
    pub bounded : length s.runs ≤ s.max_entries

  -- What `add` leaves of the entries `runs`: all of them, or all but one, none of which is older.
  pub record Evicts (runs after : Dict R) (r : R) : Type 0 where
    pub stored : get (id r) runs ≡ some r
    pub oldest : All (λ q. leb (created_at r) (created_at q) ≡ true) (values runs)
    pub removed : after ≡ pop (id r) runs

  add-by_length :
      (written : Option ℕ) (run : R) (s : ExperimentStore R)
      → (add id created_at written run s).runs ≡ (
          if ltb s.max_entries (length (put (id run) run s.runs))
          then drop_oldest id created_at (put (id run) run s.runs)
          else put (id run) run s.runs)
  unfolding add
  add-by_length written run s = ground arith

  put-ne-nil : (k : String) (v : R) (d : Dict R) → put k v d ≢ []
  unfolding put
  put-ne-nil k v [] e = cc
  put-ne-nil k v ((j, w) ∷ d) e = ground arith

  -- `add` stores the run under its id. Within the bound nothing else changes; past it exactly one
  -- run goes, and no run of the store, the new one among them, is older than that one.
  pub add_runs :
      (written : Option ℕ) (run : R) (s : ExperimentStore R)
      → IsWellFormed s
      → ((length (put (id run) run s.runs) ≤ s.max_entries)
          × ((add id created_at written run s).runs ≡ put (id run) run s.runs))
        ⊎ ((r : R) × Evicts (put (id run) run s.runs) (add id created_at written run s).runs r
            × (s.max_entries < length (put (id run) run s.runs)))
  unfolding drop_oldest
  add_runs written run s w =
      let runs = put (id run) run s.runs in
      let (r, o) =
        exists_IsOldest runs (put-ne-nil (id run) run s.runs)
          (put-Unique (id run) run s.runs w.unique) (put-Keyed run s.runs w.keyed) in
      elim (Bool-cases (ltb s.max_entries (length runs))) [
        | inl full ↦ inr (
          r,
          record {
            stored = o.stored;
            oldest = o.oldest;
            removed = ground (arith, add-by_length written run s, o.named);
          },
          ltb→lt _ _ full,
        )
        | inr room ↦ inl (ground arith, ground (arith, add-by_length written run s))
      ]

  add-max_entries :
      (written : Option ℕ) (run : R) (s : ExperimentStore R)
      → (add id created_at written run s).max_entries ≡ s.max_entries
  unfolding add
  add-max_entries written run s = ground arith

  -- `add` keeps the store well formed: the bound holds again after every call.
  pub add-IsWellFormed :
      (written : Option ℕ) (run : R) (s : ExperimentStore R)
      → IsWellFormed s
      → IsWellFormed (add id created_at written run s)
  add-IsWellFormed written run s w =
      let runs = put (id run) run s.runs in
      let u = put-Unique (id run) run s.runs w.unique in
      let k = put-Keyed run s.runs w.keyed in
      let m = add-max_entries written run s in
      elim (add_runs written run s w) [
        | inl (fits, e) ↦ record { unique = rw e u; keyed = rw e k; bounded = rw (e, m) fits }
        | inr (r, v, full) ↦ record {
          unique = rw v.removed (pop-Unique (id r) runs u);
          keyed = rw v.removed (pop-Keyed (id r) runs k);
          bounded =
              rw (v.removed, m)
                (omega (
                  arith,
                  length-pop (id r) runs (λ e. cc (v.stored, e)),
                  length-put-le (id run) run s.runs,
                  w.bounded,
                ));
        }
      ]

  -- A run that was added is found under its id, unless every run of the store, itself among them,
  -- is at least as new as it.
  pub find-add :
      (written : Option ℕ) (run : R) (s : ExperimentStore R)
      → IsWellFormed s
      → (get (id run) (add id created_at written run s).runs ≡ some run)
        ⊎ (All (λ q. leb (created_at run) (created_at q) ≡ true) (values (put (id run) run s.runs)))
  find-add written run s w =
      let runs = put (id run) run s.runs in
      elim (add_runs written run s w) [
        | inl (fits, e) ↦
            inl (ground (arith, eq_iff (id run) (id run), get-put (id run) (id run) run s.runs))
        | inr (r, v, full) ↦ by_id r v (Bool-cases (str_eq (id r) (id run)))
      ]
    where
      by_id :
          (r : R)
          → Evicts (put (id run) run s.runs) (add id created_at written run s).runs r
          → ((str_eq (id r) (id run) ≡ true) ⊎ (str_eq (id r) (id run) ≡ false))
          → (get (id run) (add id created_at written run s).runs ≡ some run)
            ⊎ (All
                (λ q. leb (created_at run) (created_at q) ≡ true)
                (values (put (id run) run s.runs)))
      by_id r v (inl same) =
          let e : r ≡ run = ground (
            arith,
            v.stored,
            eq_iff (id r) (id run),
            eq_iff (id run) (id run),
            get-put (id run) (id run) run s.runs,
          ) in
          inr (
            subst
              (λ x.
                All (λ q. leb (created_at x) (created_at q) ≡ true)
                  (values (put (id run) run s.runs)))
              e v.oldest)
      by_id r v (inr other) = inl (
          ground (
            arith,
            v.removed,
            eq_iff (id run) (id run),
            get-pop (id r) (id run) (put (id run) run s.runs)
                (put-Unique (id run) run s.runs w.unique),
            get-put (id run) (id run) run s.runs,
          ))
