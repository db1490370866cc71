-- ===== src/EventLog.antt =====
-- backend/synqc_backend/orchestration/event_store.py: `EventStore`, a list of events for each
-- experiment. An event is a dictionary; the clock is an argument.
pub mod Window
use syn_qc_temporal_dynamics.Prelude.{
  ℕ, zero, suc, ◌+◌, ◌-◌, String, Option, none, some, List, [], ◌∷◌, ◌++◌, leb, if◌then◌else◌,
  length, take_last, Result, ok, raise,
}
use syn_qc_temporal_dynamics.Prelude.Int.{ℤ, pos, negsuc}
use syn_qc_temporal_dynamics.Dict.{Dict, get, put, pop}
use syn_qc_temporal_dynamics.Models.{Detail, number}

abbrev pub EventStore : Type 0
EventStore = Dict (List Detail)

-- `payload.setdefault("timestamp", time.time())`
unfoldable pub stamped : ℕ → Detail → Detail
stamped now event = elim (get "timestamp" event) [
  | none ↦ put "timestamp" (number now) event
  | some _ ↦ event
]

-- `self._events.get(experiment_id, ())`
abbrev pub events_or_empty : Option (List Detail) → List Detail
events_or_empty none = []
events_or_empty (some events) = events

unfoldable pub events_of : String → EventStore → List Detail
events_of experiment_id s = events_or_empty (get experiment_id s)

-- `append`: the store after it, and the payload that it returns.
unfoldable pub append : ℕ → String → Detail → EventStore → EventStore × Detail
unfolding events_of
append now experiment_id event s =
    let payload = stamped now event in
    (put experiment_id (events_of experiment_id s ++ payload ∷ []) s, payload)

-- `list`
unfoldable pub window : List Detail → ℕ → List Detail
window items limit = if leb (length items) limit then items else take_last limit items

unfoldable pub list : String → ℤ → EventStore → Result String (List Detail)
unfolding events_of window
list experiment_id (negsuc _) s = raise "limit must be positive"
list experiment_id (pos zero) s = raise "limit must be positive"
list experiment_id (pos (suc n)) s = ok (window (events_of experiment_id s) (suc n))

unfoldable pub clear : String → EventStore → EventStore
clear experiment_id s = pop experiment_id s
