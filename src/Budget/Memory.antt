-- ===== src/Budget/Memory.antt =====
-- The in-memory path of backend/synqc_backend/budget.py: what `_reserve_memory` answers and stores,
-- against the usage of a session that has not lapsed.
use syn_qc_temporal_dynamics.Prelude.{
  ℕ, ◌+◌, ◌≤◌, String, ◌≡◌, Option, none, some, arith, leb, str_eq, if◌then◌else◌,
}
use syn_qc_temporal_dynamics.Dict.{get, Unique, get-put, put-Unique}
use syn_qc_temporal_dynamics.Dict.Sweep.{keys_if, unless, get-sweep, pop_all-Unique}
use syn_qc_temporal_dynamics.Budget.{Usage, is_expired, evict_expired, entry_or, reserve_memory}

-- The shots of an entry that is still alive at `now`.
abbrev pub alive_shots : ℕ → ℕ → Option (ℕ × ℕ) → ℕ
alive_shots now ttl none = 0
alive_shots now ttl (some (shots, ts)) = if leb (ts + ttl) now then 0 else shots

-- The shots that count against a session at `now`, with no eviction.
unfoldable pub usage_at : ℕ → ℕ → Usage → String → ℕ
usage_at now ttl usage session_id = alive_shots now ttl (get session_id usage)

pub evict_expired-Unique :
    (now ttl : ℕ) (usage : Usage) → Unique usage → Unique (evict_expired now ttl usage)
unfolding evict_expired
evict_expired-Unique now ttl usage u = pop_all-Unique (keys_if (is_expired now ttl) usage) usage u

pub get-evict_expired :
    (now ttl : ℕ) (usage : Usage) (k : String)
    → Unique usage
    → get k (evict_expired now ttl usage) ≡ unless (is_expired now ttl) (get k usage)
unfolding evict_expired
get-evict_expired now ttl usage k u = get-sweep (is_expired now ttl) k usage u

-- What the code reads as the current usage is the usage that is alive.
pub current-usage_at :
    (now ttl : ℕ) (usage : Usage) (k : String)
    → Unique usage
    → (entry_or now (get k (evict_expired now ttl usage))).0 ≡ usage_at now ttl usage k
unfolding usage_at
current-usage_at now ttl usage k u = ground (arith, get-evict_expired now ttl usage k u)

-- Eviction changes no usage, now or later.
pub usage_at-evict_expired :
    (now later ttl : ℕ) (usage : Usage) (k : String)
    → Unique usage
    → now ≤ later
    → usage_at later ttl (evict_expired now ttl usage) k ≡ usage_at later ttl usage k
unfolding usage_at
usage_at-evict_expired now later ttl usage k u h =
    ground (arith, get-evict_expired now ttl usage k u)

module _ (now ttl : ℕ) (usage : Usage) (k : String) (requested max_shots : ℕ)
    (u : Unique usage) where
  pub reserve_memory-Unique : Unique (reserve_memory now ttl usage k requested max_shots).0
  unfolding reserve_memory
  reserve_memory-Unique = ground (
    arith,
    put-Unique k ((entry_or now (get k (evict_expired now ttl usage))).0, now)
        (evict_expired now ttl usage) (evict_expired-Unique now ttl usage u),
    put-Unique k ((entry_or now (get k (evict_expired now ttl usage))).0 + requested, now)
        (evict_expired now ttl usage) (evict_expired-Unique now ttl usage u),
  )

  -- The answer: granted exactly if the alive usage and the request fit under the cap; the number
  -- is the new usage, or the old one.
  pub reserve_memory_answer :
      (reserve_memory now ttl usage k requested max_shots).1
        ≡ leb (usage_at now ttl usage k + requested) max_shots
      × ((reserve_memory now ttl usage k requested max_shots).2 ≡ (
          if leb (usage_at now ttl usage k + requested) max_shots
          then usage_at now ttl usage k + requested
          else usage_at now ttl usage k))
  unfolding reserve_memory
  reserve_memory_answer = ground (arith, current-usage_at now ttl usage k u)

  -- The entries after a call: the session's is the number answered, seen now; of the others the
  -- expired are gone and the rest stand.
  pub get-reserve_memory :
      (j : String)
      → get j (reserve_memory now ttl usage k requested max_shots).0 ≡ (
          if str_eq k j
          then some ((reserve_memory now ttl usage k requested max_shots).2, now)
          else unless (is_expired now ttl) (get j usage))
  unfolding reserve_memory
  get-reserve_memory j =
      let live = evict_expired now ttl usage in
      let current = (entry_or now (get k live)).0 in
      ground (
        arith,
        get-put k j (current, now) live,
        get-put k j (current + requested, now) live,
        get-evict_expired now ttl usage j u,
      )
