-- ===== src/Tests/Budget.antt =====
-- backend/synqc_backend/budget.py and `_apply_shot_guardrails` of backend/synqc_backend/engine.py.
use syn_qc_temporal_dynamics.Prelude.{
  ℕ, ◌+◌, ◌≤◌, ◌<◌, String, str_eq, true, false, Option, none, some, List, [], ◌∷◌, ◌≡◌, refl,
  arith, if◌then◌else◌, ok, leb, ltb,
}
use syn_qc_temporal_dynamics.Prelude.Int.{pos}
use syn_qc_temporal_dynamics.Dict.{get, put, pop, Unique}
use syn_qc_temporal_dynamics.Dict.Sweep.{keys_if, pop_all}
use syn_qc_temporal_dynamics.Budget.Redis.{RedisStrings, answered, refused, lost}
use syn_qc_temporal_dynamics.Budget.{
  Usage, BudgetTracker, evict_expired, reserve_memory, reserve, lua_reserve, stored, get_usage,
  session_key,
}
use syn_qc_temporal_dynamics.Budget.Memory.{usage_at}
use syn_qc_temporal_dynamics.Budget.Script.{script-agrees-memory}
use syn_qc_temporal_dynamics.Budget.Cap.{usage_at-reserve_memory, granted, granted-le-max}
use syn_qc_temporal_dynamics.Budget.History.{
  Event, reserve_shots, read_usage, reset, lapse, after_all, after_all-Capped,
}
use syn_qc_temporal_dynamics.Budget.Shared.{Attempt, granted_shots, granted_shots-le-cap}
use syn_qc_temporal_dynamics.Budget.Capped.{Capped, CappedUsage, CappedServer}
use syn_qc_temporal_dynamics.Budget.Local.{IsLocal}
use syn_qc_temporal_dynamics.Engine.{Settings, apply_shot_guardrails}
use syn_qc_temporal_dynamics.Engine.Guardrails.{IsValid, Decision, guardrails_decides}

-- A server that keeps its values in a function.
abbrev pub update : String → Option ℕ → (String → Option ℕ) → String → Option ℕ
update k v s j = if str_eq k j then v else s j

pub get-expire_lem :
    (s : String → Option ℕ) (k j : String) (ttl : ℕ)
    → 0 < ttl
    → (if ltb 0 ttl then s else update k none s) j ≡ s j
get-expire_lem s k j ttl h = ground arith

abbrev pub server_of : RedisStrings
server_of = record {
  Server = String → Option ℕ;
  get_key = λ s k. s k;
  set_key = λ k v s. update k (some v) s;
  set_ex = λ k v ttl s. update k (some v) s;
  expire = λ k ttl s. if ltb 0 ttl then s else update k none s;
  del_key = λ k s. update k none s;
  get-set = λ s k j v. refl;
  get-set_ex = λ s k j v ttl h. refl;
  get-expire = get-expire_lem;
  get-del = λ s k j. refl;
}

abbrev usage : Usage
usage = ("alice", (300, 100)) ∷ ("bob", (40, 10)) ∷ []

usage-Unique : Unique usage
unfolding get
usage-Unique = (refl, (refl, tt))

abbrev pub local : BudgetTracker server_of
local = record {
  session_ttl_seconds = 3600;
  fail_open_on_redis_error = false;
  in_memory_usage = usage;
  client = none;
  redis_last_error = none;
}

abbrev pub shared : BudgetTracker server_of
shared = record local { client = some (λ _. none) }

program : Unit {0}
unfolding get put pop keys_if pop_all evict_expired reserve_memory reserve lua_reserve stored
    get_usage after_all usage_at session_key granted_shots
program = tt

-- A grant up to the cap, a refusal past it, and a session whose entry has expired.
reserve_runs :
    (reserve server_of answered 200 local "alice" (pos 700) (pos 1000)).1 ≡ ok (true, 1000)
unfolding program
reserve_runs = refl

reserve_over :
    (reserve server_of answered 200 local "alice" (pos 701) (pos 1000)).1 ≡ ok (false, 300)
unfolding program
reserve_over = refl

reserve_expired :
    (reserve server_of answered 3700 local "alice" (pos 701) (pos 1000)).1 ≡ ok (true, 701)
unfolding program
reserve_expired = refl

script_runs : (lua_reserve server_of (update "k" (some 300) (λ _. none)) "k" 800 1000 60).2 ≡ 300
unfolding program
script_runs = refl

usage_at-reserve_memory_example :
    usage_at 400 3600 (reserve_memory 200 3600 usage "alice" 700 1000).0 "alice" ≡ (
      if str_eq "alice" "alice"
      then (if leb (200 + 3600) 400 then 0 else (reserve_memory 200 3600 usage "alice" 700 1000).2)
      else usage_at 400 3600 usage "alice")
usage_at-reserve_memory_example =
    usage_at-reserve_memory 200 3600 usage "alice" 700 1000 usage-Unique 400 "alice" (omega arith)

granted-le-max_example :
    granted 0 3600 [] "alice" 1000 ((5, 600) ∷ (10, 500) ∷ (10, 400) ∷ []) ≤ 1000
unfolding get
granted-le-max_example =
    granted-le-max 0 3600 [] "alice" 1000 ((5, 600) ∷ (10, 500) ∷ (10, 400) ∷ []) tt refl
      (omega arith)

script-agrees-memory_example :
    let s = lua_reserve server_of (update "k" (some 300) (λ _. none)) "k" 800 1000 3600 in
    let m = reserve_memory 200 3600 usage "alice" 800 1000 in
    (ltb 0 s.1 ≡ m.1) × (s.2 ≡ m.2) × (stored server_of s.0 "k" ≡ usage_at 200 3600 m.0 "alice")
unfolding stored usage_at get
script-agrees-memory_example =
    script-agrees-memory server_of (update "k" (some 300) (λ _. none)) "k" 200 3600 usage "alice"
      800 1000 usage-Unique (omega arith) refl

-- 600 shots are granted; 300 are reserved, but the reply is lost; 200 do not fit any more.
abbrev attempts : List Attempt
attempts =
    record { call = answered; now = 200; session_id = "alice"; requested = 600 }
    ∷ record { call = lost "timeout"; now = 201; session_id = "alice"; requested = 300 }
    ∷ record { call = refused "down"; now = 202; session_id = "bob"; requested = 50 }
    ∷ record { call = answered; now = 203; session_id = "alice"; requested = 200 }
    ∷ []

granted_600 : granted_shots server_of 1000 "alice" attempts shared ≡ 600
unfolding program
granted_600 = refl

granted_shots-le-cap_example :
    granted_shots server_of 1000 "alice" attempts shared
      + stored server_of (λ _. none) (session_key "alice")
    ≤ 1000
unfolding stored
granted_shots-le-cap_example =
    granted_shots-le-cap server_of 1000 "alice" attempts (λ _. none) shared refl refl (omega arith)

abbrev history : List (Event server_of)
history =
    reserve_shots answered 200 "alice" (pos 700)
    ∷ reserve_shots (lost "timeout") 201 "alice" (pos 5)
    ∷ lapse (session_key "alice")
    ∷ read_usage answered 202 "alice"
    ∷ reset answered "bob"
    ∷ []

shared_capped : CappedUsage 1000 usage
unfolding CappedUsage get
shared_capped k = ground arith

empty_server : (k : String) → stored server_of (λ _. none) (session_key k) ≤ 1000
unfolding stored
empty_server k = omega arith

shared-Capped : Capped server_of 1000 shared
unfolding CappedServer
shared-Capped = record { unique = usage-Unique; memory = shared_capped; server = empty_server }

after_all-Capped_example : Capped server_of 1000 (after_all server_of 1000 history shared)
after_all-Capped_example = after_all-Capped server_of 1000 history shared shared-Capped

abbrev pub settings : Settings
settings = record {
  max_shots_per_experiment = 500;
  max_shots_per_session = 1000;
  default_shot_budget = 100;
}

pub settings-IsValid : IsValid settings
settings-IsValid = omega arith

local-IsLocal : IsLocal server_of local
local-IsLocal = record { no_client = refl; unique = usage-Unique; lives = omega arith }

guardrails_decides_example :
    Decision server_of settings 200 210 local (some (pos 600)) "ibm_quantum" "alice" "alice" (
      apply_shot_guardrails server_of settings answered answered 200 210 local
        (some (pos 600))
        "ibm_quantum"
        "alice")
guardrails_decides_example =
    guardrails_decides server_of settings 200 210 local (some (pos 600)) "ibm_quantum" "alice"
      "alice" answered answered settings-IsValid local-IsLocal (omega arith)
