-- ===== src/Engine/Shared.antt =====
-- `_apply_shot_guardrails` of backend/synqc_backend/engine.py over a tracker with a shared Redis
-- server.
use syn_qc_temporal_dynamics.Prelude.{
  ℕ, zero, suc, ◌+◌, ◌-◌, ◌≤◌, ◌<◌, leb, ◌⊎◌, String, ◌≡◌, Bool, true, false, Option, some, arith,
  str_eq, eq_iff, if◌then◌else◌, Bool-cases, inl, inr, Result, ok, raise,
}
use syn_qc_temporal_dynamics.Prelude.Int.{ℤ, pos, negsuc}
use syn_qc_temporal_dynamics.Budget.Redis.{RedisStrings, Call, answered, refused, lost}
use syn_qc_temporal_dynamics.Budget.{
  Error, value_error, BudgetTracker, session_key, lua_reserve, get_usage, reserve,
}
use syn_qc_temporal_dynamics.Budget.Script.{lua_reserve-decide, stored-lua_reserve}
use syn_qc_temporal_dynamics.Budget.Shared.{Leaves, held, is_granted, reserve-Leaves}
use syn_qc_temporal_dynamics.Engine.{
  Settings, EngineError, budget_exceeded, budget_error, requested_shots, exceeds, clamp_shots,
  warn_for_target, settle, reserve_shots, apply_shot_guardrails,
}
use syn_qc_temporal_dynamics.Engine.Guardrails.{IsValid, requested_shots-pos, requested-cases}

-- The shots that the answer of the guardrail grants.
abbrev pub shots_of : Result EngineError (ℕ × Bool) → ℕ
shots_of (ok r) = r.0
shots_of (raise e) = 0

module _ (redis : RedisStrings) (s : Settings) (k : String) where
  open redis use {Server}

  abbrev cap : ℕ
  cap = s.max_shots_per_session

  get_usage-client :
      (call : Call) (now : ℕ) (t : BudgetTracker redis) (server : Server)
      → t.client ≡ some server
      → t.fail_open_on_redis_error ≡ false
      → ((get_usage redis call now t k).0.client ≡ some server)
        × ((get_usage redis call now t k).0.fail_open_on_redis_error ≡ false)
  unfolding get_usage
  get_usage-client answered now t server c closed = ground (arith, c, closed)
  get_usage-client (refused what) now t server c closed = ground (arith, c, closed)
  get_usage-client (lost what) now t server c closed = ground (arith, c, closed)

  settle-Leaves :
      (warn : Bool) (shots : ℕ) (server : Server)
      (r : BudgetTracker redis × Result Error (Bool × ℕ))
      → Leaves redis cap k (if is_granted r.1 then shots else 0) server r.0
      → Leaves redis cap k (shots_of (settle s warn shots r).1) server (settle s warn shots r).0
  unfolding settle
  settle-Leaves warn shots server (t, raise e) h = h
  settle-Leaves warn shots server (t, ok (true, usage)) h = h
  settle-Leaves warn shots server (t, ok (false, usage)) h = h

  module _ (server : Server) (t : BudgetTracker redis) (c : t.client ≡ some server)
      (closed : t.fail_open_on_redis_error ≡ false) (h : held redis cap k server ≤ cap) where
    unchanged : Leaves redis cap k 0 server t
    unchanged = (server, c, closed, omega arith, h)

    reserve_shots-Leaves :
        (write : Call) (later : ℕ) (requested : ℤ) (target : String)
        → Leaves redis cap k
            (shots_of (reserve_shots redis s write later t requested target k).1)
            server
            (reserve_shots redis s write later t requested target k).0
    unfolding reserve_shots
    reserve_shots-Leaves write later (negsuc n) target = unchanged
    reserve_shots-Leaves write later (pos zero) target = unchanged
    reserve_shots-Leaves write later (pos (suc n)) target =
        let shots = clamp_shots s (suc n) in
        let r = reserve redis write later t k (pos shots) (pos cap) in
        let same : str_eq k k ≡ true = ground (arith, eq_iff k k) in
        settle-Leaves (warn_for_target s target shots) shots server r
          (rw same at (reserve-Leaves redis cap k write later k shots server t c closed h))

  -- With a shared server and without fail-open, the guardrail never grants shots that the server
  -- does not count: whatever its two calls do, also where one of them is refused or its reply is
  -- lost, and so also where the usage read is not the server's, the server then holds at least the
  -- shots granted more for the session than before, and no more than the cap.
  pub guardrails_shared :
      (read write : Call) (now later : ℕ) (server : Server) (t : BudgetTracker redis)
      (budget : Option ℤ) (target : String)
      → t.client ≡ some server
      → t.fail_open_on_redis_error ≡ false
      → held redis cap k server ≤ cap
      → let r = apply_shot_guardrails redis s read write now later t budget target k in
        Leaves redis cap k (shots_of r.1) server r.0
  unfolding apply_shot_guardrails
  guardrails_shared read write now later server t budget target c closed h =
      let known = get_usage-client read now t server c closed in
      let (t', usage) = get_usage redis read now t k in
      let requested = requested_shots s budget in
      elim (Bool-cases (exceeds s requested usage)) [
        | inl over ↦ rw over (unchanged server t' known.0 known.1 h)
        | inr fits ↦
            rw fits (reserve_shots-Leaves server t' known.0 known.1 h write later requested target)
      ]

  -- The request fits beside the shots that the server holds and is granted, or it does not fit, or
  -- it asks for a negative number.
  abbrev pub SharedDecision :
      String → Option ℤ → Server → BudgetTracker redis × Result EngineError (ℕ × Bool) → Type 0
  SharedDecision target budget server r =
      ((n : ℕ) × (s' : Server) × (requested_shots s budget ≡ pos n)
        × (n + held redis cap k server ≤ cap)
        × (r.1 ≡ ok (clamp_shots s n, warn_for_target s target (clamp_shots s n)))
        × (r.0.client ≡ some s')
        × (held redis cap k s' ≡ held redis cap k server + clamp_shots s n))
      ⊎ ((n : ℕ) × (requested_shots s budget ≡ pos n)
          × (cap < n + held redis cap k server)
          × (r.1 ≡ raise (budget_exceeded (cap - held redis cap k server)))
          × (r.0.client ≡ some server))
      ⊎ ((n : ℕ) × (budget ≡ some (negsuc n))
          × (r.1 ≡ raise (budget_error (value_error "shot_budget must be positive")))
          × (r.0.client ≡ some server))

  reserve_answered :
      (later : ℕ) (t : BudgetTracker redis) (server : Server) (n m : ℕ)
      → t.client ≡ some server
      → cap ≡ suc m
      → n + held redis cap k server ≤ cap
      → let r = reserve redis answered later t k (pos n) (pos cap) in
        (s' : Server) × (u : ℕ) × (r.0.client ≡ some s')
        × (r.1 ≡ ok (true, u))
        × (held redis cap k s' ≡ held redis cap k server + n)
  unfolding reserve
  reserve_answered later t server n m c e fits =
      let l = lua_reserve redis server (session_key k) n cap t.session_ttl_seconds in
      let decided = lua_reserve-decide redis server (session_key k) n cap t.session_ttl_seconds in
      (
        l.0,
        l.2,
        ground (arith, c, e),
        ground (arith, c, e, decided, fits),
        ground (
          arith,
          fits,
          decided,
          eq_iff (session_key k) (session_key k),
          stored-lua_reserve redis server (session_key k) n cap t.session_ttl_seconds
              (session_key k),
        ),
      )

  module _ (now later : ℕ) (server : Server) (t : BudgetTracker redis) (budget : Option ℤ)
      (target : String) (c : t.client ≡ some server) (valid : IsValid s) where
    abbrev answer : BudgetTracker redis × Result EngineError (ℕ × Bool)
    answer = apply_shot_guardrails redis s answered answered now later t budget target k

    answered_grant :
        (n : ℕ)
        → requested_shots s budget ≡ pos n
        → n + held redis cap k server ≤ cap
        → (s' : Server) × (answer.1
            ≡ ok (clamp_shots s n, warn_for_target s target (clamp_shots s n)))
          × (answer.0.client ≡ some s')
          × (held redis cap k s' ≡ held redis cap k server + clamp_shots s n)
    unfolding apply_shot_guardrails get_usage clamp_shots
    answered_grant n e fits =
        let room : clamp_shots s n + held redis cap k server ≤ cap = ground (arith, fits) in
        let whole : cap ≡ suc (cap - 1) = omega (arith, valid.session_pos) in
        let (s', u, client, granted, counted) =
          reserve_answered later t server (clamp_shots s n) (cap - 1) c whole room in
        let some_shots = requested_shots-pos s budget n valid e in
        (
          s',
          ground (arith, c, e, fits, some_shots, granted, valid.experiment_pos),
          ground (arith, c, e, fits, some_shots, granted, client, valid.experiment_pos),
          counted,
        )

    -- With settings within their bounds and a shared server that answers both calls, with none of
    -- another client between them, each request is decided by what the server holds for the
    -- session: it fits and is granted, cut to the largest experiment, and the server then holds
    -- just these shots more, or it raises, and the server does not change.
    pub guardrails_answered : SharedDecision target budget server answer
    unfolding apply_shot_guardrails get_usage
    guardrails_answered = elim (requested-cases s budget) [
      | inr (n, e) ↦ inr (inr (n, e, ground (arith, c, e), ground (arith, c, e)))
      | inl (n, e) ↦ elim (Bool-cases (leb (n + held redis cap k server) cap)) [
        | inl within ↦
            let fits : n + held redis cap k server ≤ cap = ground (arith, within) in
            let (s', granted, client, counted) = answered_grant n e fits in
            inl (n, s', e, fits, granted, client, counted)
        | inr beyond ↦
            let over : cap < n + held redis cap k server = ground (arith, beyond) in
            inr (inl (n, e, over, ground (arith, c, e, over), ground (arith, c, e, over)))
      ]
    ]
