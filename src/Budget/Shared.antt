-- ===== src/Budget/Shared.antt =====
-- `BudgetTracker` of backend/synqc_backend/budget.py over a shared Redis server, without fail-open:
-- what the attempts of a session are granted, also where replies are lost.
use syn_qc_temporal_dynamics.Prelude.{
  ℕ, zero, suc, ◌+◌, ◌≤◌, String, ◌≡◌, refl, Bool, false, ◌&&◌, some, List, [], ◌∷◌, arith, ltb,
  str_eq, eq_iff, if◌then◌else◌, inl, inr, ◌⊎◌, Result, ok, raise,
}
use syn_qc_temporal_dynamics.Prelude.Int.{pos}
use syn_qc_temporal_dynamics.Budget.Redis.{RedisStrings, Call, answered, refused, lost}
use syn_qc_temporal_dynamics.Budget.{
  Error, BudgetTracker, session_key, stored, lua_reserve, reserve,
}
use syn_qc_temporal_dynamics.Budget.Script.{lua_reserve-decide, stored-lua_reserve}

-- An attempt of a session: what its call does, when, and for how many shots.
pub record Attempt : Type 0 where
  pub call : Call
  pub now : ℕ
  pub session_id : String
  pub requested : ℕ

-- Whether the caller learns that its shots were granted.
abbrev pub is_granted : Result Error (Bool × ℕ) → Bool
is_granted (ok r) = r.0
is_granted (raise e) = false

Call-cases :
    (call : Call)
    → (call ≡ answered)
      ⊎ ((what : String) × (call ≡ refused what))
      ⊎ ((what : String) × (call ≡ lost what))
Call-cases answered = inl refl
Call-cases (refused what) = inr (inl (what, refl))
Call-cases (lost what) = inr (inr (what, refl))

zero-cases : (n : ℕ) → (n ≡ 0) ⊎ ((m : ℕ) × (n ≡ suc m))
zero-cases zero = inl refl
zero-cases (suc m) = inr (m, refl)

module _ (redis : RedisStrings) (cap : ℕ) (k : String) where
  open redis use {Server}

  abbrev pub grant_of : Attempt → Result Error (Bool × ℕ) → ℕ
  grant_of a answer = if str_eq a.session_id k && is_granted answer then a.requested else 0

  -- The shots that the attempts of the session `k` are granted, one attempt after the other.
  unfoldable pub granted_shots : List Attempt → BudgetTracker redis → ℕ
  granted_shots [] t = 0
  granted_shots (a ∷ attempts) t =
      let r = reserve redis a.call a.now t a.session_id (pos a.requested) (pos cap) in
      grant_of a r.1 + granted_shots attempts r.0

  abbrev pub held : Server → ℕ
  held server = stored redis server (session_key k)

  -- The script adds what it grants to the session's key, up to the cap, and takes nothing away.
  lua_reserve-held :
      (server : Server) (j : String) (n ttl : ℕ)
      → held server ≤ cap
      → let r = lua_reserve redis server (session_key j) n cap ttl in
        ((if str_eq j k && ltb 0 r.1 then n else 0) + held server ≤ held r.0) × (held r.0 ≤ cap)
  lua_reserve-held server j n ttl h = ground (
    arith,
    h,
    eq_iff j k,
    eq_iff (session_key j) (session_key k),
    lua_reserve-decide redis server (session_key j) n cap ttl,
    stored-lua_reserve redis server (session_key j) n cap ttl (session_key k),
  )

  -- What an attempt leaves: a server on which the session holds what it was granted besides.
  abbrev pub Leaves : ℕ → Server → BudgetTracker redis → Type 0
  Leaves n server t =
      (s' : Server) × (t.client ≡ some s')
      × (t.fail_open_on_redis_error ≡ false)
      × (n + held server ≤ held s')
      × (held s' ≤ cap)

  module _ (call : Call) (now : ℕ) (j : String) (n : ℕ) (server : Server) (t : BudgetTracker redis)
      (c : t.client ≡ some server) (closed : t.fail_open_on_redis_error ≡ false)
      (h : held server ≤ cap) where
    abbrev pub attempt : Attempt
    attempt = record { call = call; now = now; session_id = j; requested = n }

    abbrev after : BudgetTracker redis × Result Error (Bool × ℕ)
    after = reserve redis call now t j (pos n) (pos cap)

    capped-Leaves : (m : ℕ) → cap ≡ suc m → Leaves (grant_of attempt after.1) server after.0
    unfolding reserve
    capped-Leaves m e =
        let s' = (lua_reserve redis server (session_key j) n cap t.session_ttl_seconds).0 in
        let facts = lua_reserve-held server j n t.session_ttl_seconds h in
        elim (Call-cases call) [
          | inl a ↦ (
            s',
            ground (arith, c, e, a),
            ground (arith, c, e, a, closed),
            ground (arith, c, e, a, facts),
            facts.1,
          )
          | inr (inl (what, a)) ↦ (
            server,
            ground (arith, c, e, a, closed),
            ground (arith, c, e, a, closed),
            ground (arith, c, e, a, closed),
            h,
          )
          | inr (inr (what, a)) ↦ (
            s',
            ground (arith, c, e, a, closed),
            ground (arith, c, e, a, closed),
            ground (arith, c, e, a, closed, facts),
            facts.1,
          )
        ]

    no_cap-Leaves : cap ≡ 0 → Leaves (grant_of attempt after.1) server after.0
    unfolding reserve
    no_cap-Leaves e =
        (server, ground (arith, c, e), ground (arith, c, e, closed), ground (arith, c, e), h)

    pub reserve-Leaves : Leaves (grant_of attempt after.1) server after.0
    reserve-Leaves = elim (zero-cases cap) [
      | inl e ↦ no_cap-Leaves e
      | inr (m, e) ↦ capped-Leaves m e
    ]

  -- Without fail-open on a shared server, the shots that a session is granted, by attempts of any
  -- sessions one after the other and whatever replies are refused or lost, never come to more than
  -- the cap leaves over what the server holds for it at the start, as long as its key stands.
  pub granted_shots-le-cap :
      (attempts : List Attempt) (server : Server) (t : BudgetTracker redis)
      → t.client ≡ some server
      → t.fail_open_on_redis_error ≡ false
      → held server ≤ cap
      → granted_shots attempts t + held server ≤ cap
  unfolding granted_shots
  granted_shots-le-cap [] server t c closed h = omega (arith, h)
  granted_shots-le-cap (a ∷ attempts) server t c closed h =
      let r = reserve redis a.call a.now t a.session_id (pos a.requested) (pos cap) in
      let step = reserve-Leaves a.call a.now a.session_id a.requested server t c closed h in
      let (s', c', closed', more, h') = step in
      omega (arith, more, granted_shots-le-cap attempts s' r.0 c' closed' h')
