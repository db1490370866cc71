-- ===== src/QubitUsage/Totals.antt =====
-- The totals of backend/synqc_backend/qubit_usage.py against the runs of a session.
use syn_qc_temporal_dynamics.Prelude.{
  ℕ, ◌+◌, ◌≤◌, ◌<◌, String, str_eq, eq_iff, ◌≡◌, refl, Option, none, some, List, [], ◌∷◌, arith,
  if◌then◌else◌, All, Bool-cases, inl, inr, ◌∙◌,
}
use syn_qc_temporal_dynamics.Prelude.Int.{ℤ, pos_part}
use syn_qc_temporal_dynamics.Dict.{get, Unique, get-put, put-Unique}
use syn_qc_temporal_dynamics.Dict.Sweep.{keys_if, pop_all, unless, get-sweep, pop_all-Unique}
use syn_qc_temporal_dynamics.QubitUsage.{
  Entry, SessionQubitTracker, has_lapsed, entry_or, record_run, snapshot,
}

pub get-record_run :
    (now stamp : ℕ) (k j : String) (qubits : ℤ) (t : SessionQubitTracker)
    → Unique t.usage
    → get j (record_run now stamp k qubits t).usage ≡ (
        if str_eq k j
        then some (
          (entry_or now (unless (has_lapsed now t.ttl_seconds) (get k t.usage))).0
              + pos_part qubits,
          pos_part qubits,
          stamp,
        )
        else unless (has_lapsed now t.ttl_seconds) (get j t.usage))
unfolding record_run
get-record_run now stamp k j qubits t u =
    let p = has_lapsed now t.ttl_seconds in
    let live = pop_all (keys_if p t.usage) t.usage in
    ground (
      arith,
      get-put k j ((entry_or now (get k live)).0 + pos_part qubits, pos_part qubits, stamp) live,
      get-sweep p k t.usage u,
      get-sweep p j t.usage u,
    )

pub record_run-Unique :
    (now stamp : ℕ) (k : String) (qubits : ℤ) (t : SessionQubitTracker)
    → Unique t.usage
    → Unique (record_run now stamp k qubits t).usage
unfolding record_run
record_run-Unique now stamp k qubits t u =
    let ks = keys_if (has_lapsed now t.ttl_seconds) t.usage in
    put-Unique k _ (pop_all ks t.usage) (pop_all-Unique ks t.usage u)

-- A run of any session: who, the time at which it is recorded, and the qubits that it used.
abbrev pub Run : Type 0
Run = String × ℕ × ℤ

unfoldable pub record_all : List Run → SessionQubitTracker → SessionQubitTracker
record_all [] t = t
record_all ((k, now, qubits) ∷ runs) t = record_all runs (record_run now now k qubits t)

-- The sum of the qubits of one session's runs; a negative number counts as none.
pub total_of : String → List Run → ℕ
total_of k [] = 0
total_of k ((j, now, qubits) ∷ runs) = (if str_eq j k then pos_part qubits else 0) + total_of k runs

-- The total that is stored for a session.
abbrev pub stored_total : Option Entry → ℕ
stored_total none = 0
stored_total (some e) = e.0

-- Every entry was stamped after `from`.
abbrev pub StampedFrom : ℕ → Option Entry → Type 0
StampedFrom from none = Unit
StampedFrom from (some e) = from ≤ e.2

-- One run within the lifetime.
record_run_total :
    (from now : ℕ) (k j : String) (qubits : ℤ) (t : SessionQubitTracker)
    → Unique t.usage
    → StampedFrom from (get k t.usage)
    → from ≤ now
    → now < from + t.ttl_seconds
    → (stored_total (get k (record_run now now j qubits t).usage)
        ≡ stored_total (get k t.usage) + (if str_eq j k then pos_part qubits else 0))
      × StampedFrom from (get k (record_run now now j qubits t).usage)
record_run_total from now k j qubits t u s le lt = elim (Bool-cases (str_eq j k)) [
  | inl e ↦
      let same : j ≡ k = (eq_iff j k).0 e in
      ground (arith, same, e, get-record_run now now j k qubits t u)
  | inr e ↦ ground (arith, e, get-record_run now now j k qubits t u)
]

ttl-record_run :
    (now : ℕ) (j : String) (qubits : ℤ) (t : SessionQubitTracker)
    → (record_run now now j qubits t).ttl_seconds ≡ t.ttl_seconds
unfolding record_run
ttl-record_run now j qubits t = refl

record_all_from :
    (from ttl : ℕ) (k : String) (runs : List Run) (t : SessionQubitTracker)
    → Unique t.usage
    → t.ttl_seconds ≡ ttl
    → StampedFrom from (get k t.usage)
    → All (λ r. (from ≤ r.1) × (r.1 < from + ttl)) runs
    → (stored_total (get k (record_all runs t).usage)
        ≡ stored_total (get k t.usage) + total_of k runs)
      × StampedFrom from (get k (record_all runs t).usage)
      × Unique (record_all runs t).usage
      × ((record_all runs t).ttl_seconds ≡ ttl)
unfolding record_all total_of
record_all_from from ttl k [] t u l s h = (omega arith, s, u, l)
record_all_from from ttl k ((j, now, qubits) ∷ runs) t u l s h =
    let step = record_run_total from now k j qubits t u s h.0.0 (rw l h.0.1) in
    let rest =
      record_all_from from ttl k runs (record_run now now j qubits t)
        (record_run-Unique now now j qubits t u) (ttl-record_run now j qubits t ∙ l) step.1 h.1 in
    (omega (arith, rest.0, step.0), rest.1, rest.2, rest.3)

-- Over a time shorter than the lifetime the snapshot of a session shows the sum of the qubits of
-- all its runs, whatever the other sessions do in between.
pub snapshot-total :
    (from now : ℕ) (k : String) (runs : List Run) (t : SessionQubitTracker)
    → t.usage ≡ []
    → All (λ r. (from ≤ r.1) × (r.1 < from + t.ttl_seconds)) runs
    → now < from + t.ttl_seconds
    → (snapshot now k (record_all runs t)).1.session_total ≡ total_of k runs
unfolding snapshot get
snapshot-total from now k runs t e h lt =
    let t' = record_all runs t in
    let (total, stamped, unique, ttl) =
      record_all_from from t.ttl_seconds k runs t (rw e tt) refl (rw e tt) h in
    ground (arith, total, stamped, ttl, get-sweep (has_lapsed now t'.ttl_seconds) k t'.usage unique)
