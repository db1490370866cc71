-- ===== src/QubitUsage.antt =====
-- backend/synqc_backend/qubit_usage.py: `SessionQubitTracker`, the qubits that each session has
-- used, with the lifetime of the budget tracker. Times are whole numbers; each call of
-- `time.time()` is an argument.
pub mod Totals
use syn_qc_temporal_dynamics.Prelude.{
  ℕ, zero, suc, ◌+◌, String, Bool, true, false, Option, none, some, List, [], ◌∷◌, leb,
  if◌then◌else◌, length,
}
use syn_qc_temporal_dynamics.Prelude.Int.{ℤ, pos, negsuc, pos_part}
use syn_qc_temporal_dynamics.Dict.{Dict, get, put}
use syn_qc_temporal_dynamics.Dict.Sweep.{keys_if, pop_all}

-- (session_total, last_run_qubits, last_updated)
abbrev pub Entry : Type 0
Entry = ℕ × ℕ × ℕ

pub record SessionQubitTracker : Type 0 where
  pub ttl_seconds : ℕ
  pub usage : Dict Entry

-- `now - ts >= ttl`
abbrev pub has_lapsed : ℕ → ℕ → Entry → Bool
has_lapsed now ttl (total, last, ts) = leb (ts + ttl) now

unfoldable pub evict_expired : ℕ → SessionQubitTracker → SessionQubitTracker
evict_expired now t = record t {
  usage = pop_all (keys_if (has_lapsed now t.ttl_seconds) t.usage) t.usage;
}

-- `usage.get(session_id, (0, 0, now))`
abbrev pub entry_or : ℕ → Option Entry → Entry
entry_or now none = (0, 0, now)
entry_or now (some e) = e

-- `record`: eviction at `now`, and the entry is stamped at `stamp`. `max(qubits_used, 0)` is the
-- part of the integer above 0, so that the outer `max` of the total never acts.
unfoldable pub record_run : ℕ → ℕ → String → ℤ → SessionQubitTracker → SessionQubitTracker
unfolding evict_expired
record_run now stamp session_id qubits_used t =
    let live = evict_expired now t in
    let total = (entry_or now (get session_id live.usage)).0 in
    record live {
      usage = put session_id (total + pos_part qubits_used, pos_part qubits_used, stamp) live.usage;
    }

pub record QubitUsageSnapshot : Type 0 where
  pub session_total : ℕ
  pub last_run_qubits : ℕ
  pub last_updated : ℕ

unfoldable pub snapshot :
    ℕ → String → SessionQubitTracker → SessionQubitTracker × QubitUsageSnapshot
unfolding evict_expired
snapshot now session_id t =
    let live = evict_expired now t in
    let e = entry_or now (get session_id live.usage) in
    (live, record { session_total = e.0; last_run_qubits = e.1; last_updated = e.2 })

-- `health`: how many sessions are tracked.
unfoldable pub tracked_sessions : ℕ → SessionQubitTracker → SessionQubitTracker × ℕ
unfolding evict_expired
tracked_sessions now t = let live = evict_expired now t in (live, length live.usage)
