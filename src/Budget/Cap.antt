-- ===== src/Budget/Cap.antt =====
-- The cap of backend/synqc_backend/budget.py over whole histories of calls.
use syn_qc_temporal_dynamics.Prelude.{
  ℕ, ◌+◌, ◌≤◌, ◌<◌, String, ◌≡◌, none, some, List, [], ◌∷◌, arith, leb, str_eq, eq_iff,
  if◌then◌else◌, All,
}
use syn_qc_temporal_dynamics.Dict.{get, Unique}
use syn_qc_temporal_dynamics.Budget.{Usage, reserve_memory}
use syn_qc_temporal_dynamics.Budget.Memory.{
  usage_at, reserve_memory-Unique, reserve_memory_answer, get-reserve_memory,
}

module _ (now ttl : ℕ) (usage : Usage) (k : String) (requested max_shots : ℕ)
    (u : Unique usage) where
  -- After `_reserve_memory` at `now`, and at any later moment: the session has the usage that was
  -- answered, until `ttl` after the call, granted or not, and none from then on; every other
  -- session has the usage that it would have had without the call.
  pub usage_at-reserve_memory :
      (later : ℕ) (j : String)
      → now ≤ later
      → usage_at later ttl (reserve_memory now ttl usage k requested max_shots).0 j ≡ (
          if str_eq k j
          then (if leb (now + ttl) later
              then 0
              else (reserve_memory now ttl usage k requested max_shots).2)
          else usage_at later ttl usage j)
  unfolding usage_at
  usage_at-reserve_memory later j h =
      ground (arith, get-reserve_memory now ttl usage k requested max_shots u j)

-- The shots granted to one session by a row of attempts, each a pause after the one before it and
-- a number of shots.
pub granted : ℕ → ℕ → Usage → String → ℕ → List (ℕ × ℕ) → ℕ
granted now ttl usage k max_shots [] = 0
granted now ttl usage k max_shots ((pause, requested) ∷ rest) =
    let r = reserve_memory (now + pause) ttl usage k requested max_shots in
    (if r.1 then requested else 0) + granted (now + pause) ttl r.0 k max_shots rest

granted_from :
    (now ttl : ℕ) (usage : Usage) (k : String) (max_shots current : ℕ) (attempts : List (ℕ × ℕ))
    → Unique usage
    → get k usage ≡ some (current, now)
    → current ≤ max_shots
    → All (λ a. a.0 < ttl) attempts
    → current + granted now ttl usage k max_shots attempts ≤ max_shots
unfolding granted
granted_from now ttl usage k max_shots current [] u e c h = omega arith
granted_from now ttl usage k max_shots current ((pause, requested) ∷ rest) u e c h =
    let r = reserve_memory (now + pause) ttl usage k requested max_shots in
    ground (
      arith,
      eq_iff k k,
      alive,
      reserve_memory_answer (now + pause) ttl usage k requested max_shots u,
      granted_from (now + pause) ttl r.0 k max_shots r.2 rest
          (reserve_memory-Unique (now + pause) ttl usage k requested max_shots u),
      get-reserve_memory (now + pause) ttl usage k requested max_shots u k,
    )
  where
    alive : usage_at (now + pause) ttl usage k ≡ current
    alive = unfold usage_at in ground arith

-- While a session makes its attempts less than `ttl` apart, the shots granted to it never sum to
-- more than the cap, however the requests are cut up.
pub granted-le-max :
    (now ttl : ℕ) (usage : Usage) (k : String) (max_shots : ℕ) (attempts : List (ℕ × ℕ))
    → Unique usage
    → get k usage ≡ none
    → All (λ a. a.0 < ttl) attempts
    → granted now ttl usage k max_shots attempts ≤ max_shots
unfolding granted
granted-le-max now ttl usage k max_shots [] u e h = omega arith
granted-le-max now ttl usage k max_shots ((pause, requested) ∷ rest) u e h =
    let r = reserve_memory (now + pause) ttl usage k requested max_shots in
    ground (
      arith,
      eq_iff k k,
      fresh,
      reserve_memory_answer (now + pause) ttl usage k requested max_shots u,
      granted_from (now + pause) ttl r.0 k max_shots r.2 rest
          (reserve_memory-Unique (now + pause) ttl usage k requested max_shots u),
      get-reserve_memory (now + pause) ttl usage k requested max_shots u k,
    )
  where
    fresh : usage_at (now + pause) ttl usage k ≡ 0
    fresh = unfold usage_at in ground arith
