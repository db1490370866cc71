-- ===== src/Auth/Principals.antt =====
-- Whom backend/synqc_backend/auth/deps.py lets through.
use syn_qc_temporal_dynamics.Prelude.{
  ℕ, String, ◌≡◌, ◌⊎◌, refl, true, false, Option, none, some, List, arith, Result, ok, raise, ◌>>=◌,
  Bool-cases, Option-cases, inl, inr, sym, subst, ◌∙◌,
}
use syn_qc_temporal_dynamics.Auth.{
  Principal, Settings, Request, User, Info, AuthStore, HttpError, unauthorized, present, needs_auth,
  api_key_principal, has_api_key, session_principal, token_principal, from_session, from_token,
  or_anonymous, session_or_token, get_principal, is_anonymous, require_scopes,
}
use syn_qc_temporal_dynamics.Auth.Scopes.{Covers, require_scopes_iff}

module _ (store : AuthStore) where
  open store use {Store, session_user, get_user_by_id, verify_api_token}

  -- Where a principal that is let in comes from: the configured key, a session of the store with a
  -- user, or a token that the store accepts.
  pub Origin : Settings → Request → Store → Principal → Type 0
  Origin c r s p =
      ((has_api_key c r ≡ true) × (p ≡ api_key_principal))
      ⊎ ((sid : String) × (owner : ℕ) × (u : User) × (present r.session_cookie ≡ some sid)
          × ((session_user sid s).1 ≡ some owner)
          × (get_user_by_id owner (session_user sid s).0 ≡ some u)
          × (p ≡ session_principal u))
      ⊎ ((token : String) × (info : Info) × (present r.bearer ≡ some token)
          × ((verify_api_token token (from_session store (present r.session_cookie) s).0).1
              ≡ some info)
          × (p ≡ token_principal info))

  from_session-some :
      (cookie : Option String) (s : Store) (p : Principal)
      → (from_session store cookie s).1 ≡ some p
      → (sid : String) × (owner : ℕ) × (u : User) × (cookie ≡ some sid)
        × ((session_user sid s).1 ≡ some owner)
        × (get_user_by_id owner (session_user sid s).0 ≡ some u)
        × (p ≡ session_principal u)
  unfolding from_session
  from_session-some none s p h = absurd (ground (arith, h))
  from_session-some (some sid) s p h = elim (Option-cases (session_user sid s).1) [
    | inl e ↦
        let nobody : (from_session store (some sid) s).1 ≡ none = rw (from_session, e) refl in
        absurd (ground (arith, h, nobody))
    | inr (owner, e) ↦ elim (Option-cases (get_user_by_id owner (session_user sid s).0)) [
      | inl f ↦
          let nobody : (from_session store (some sid) s).1 ≡ none = rw (from_session, e, f) refl in
          absurd (ground (arith, h, nobody))
      | inr (u, f) ↦
          let user : (from_session store (some sid) s).1 ≡ some (session_principal u) =
            rw (from_session, e, f) refl in
          (sid, owner, u, refl, e, f, ground (arith, h, user))
    ]
  ]

  from_token-some :
      (bearer : Option String) (s : Store) (p : Principal)
      → (from_token store bearer s).1 ≡ some p
      → (token : String) × (info : Info) × (bearer ≡ some token)
        × ((verify_api_token token s).1 ≡ some info)
        × (p ≡ token_principal info)
  unfolding from_token
  from_token-some none s p h = absurd (ground (arith, h))
  from_token-some (some token) s p h = elim (Option-cases (verify_api_token token s).1) [
    | inl e ↦
        let nobody : (from_token store (some token) s).1 ≡ none = rw (from_token, e) refl in
        absurd (ground (arith, h, nobody))
    | inr (info, e) ↦
        let found : (from_token store (some token) s).1 ≡ some (token_principal info) =
          rw (from_token, e) refl in
        (token, info, refl, e, ground (arith, h, found))
  ]

  get_principal-session :
      (c : Settings) (r : Request) (s : Store)
      → has_api_key c r ≡ false
      → (get_principal store c r s).1
        ≡ (session_or_token store c r (from_session store (present r.session_cookie) s)).1
  unfolding get_principal
  get_principal-session c r s h = rw h refl

  session_or_token-none :
      (c : Settings) (r : Request) (answer : Store × Option Principal)
      → answer.1 ≡ none
      → (session_or_token store c r answer).1
        ≡ or_anonymous store c (from_token store (present r.bearer) answer.0).1
  session_or_token-none c r (s, none) h = refl
  session_or_token-none c r (s, some p) h = absurd (ground (arith, h))

  session_or_token-some :
      (c : Settings) (r : Request) (answer : Store × Option Principal) (p : Principal)
      → answer.1 ≡ some p
      → (session_or_token store c r answer).1 ≡ ok p
  session_or_token-some c r (s, none) p h = absurd (ground (arith, h))
  session_or_token-some c r (s, some q) p h = ground (arith, h)

  -- Where authentication is required, `get_principal` lets in nobody without an origin: the
  -- configured key was presented, or the cookie names a session of the store whose user exists, or
  -- the store accepts the bearer as a token; in every other case it raises 401.
  get_principal-Origin :
      (c : Settings) (r : Request) (s : Store)
      → needs_auth c ≡ true
      → ((p : Principal) × ((get_principal store c r s).1 ≡ ok p) × Origin c r s p)
        ⊎ ((get_principal store c r s).1 ≡ raise unauthorized)
  unfolding Origin get_principal
  get_principal-Origin c r s n = elim (Bool-cases (has_api_key c r)) [
    | inl key ↦ inl (api_key_principal, rw key refl, inl (key, refl))
    | inr no_key ↦
        let answer = from_session store (present r.session_cookie) s in
        let step = get_principal-session c r s no_key in
        elim (Option-cases answer.1) [
          | inr (p, e) ↦ inl (
            p,
            step ∙ session_or_token-some c r answer p e,
            inr (inl (from_session-some (present r.session_cookie) s p e)),
          )
          | inl e ↦
              let rest = step ∙ session_or_token-none c r answer e in
              elim (Option-cases (from_token store (present r.bearer) answer.0).1) [
                | inr (p, f) ↦ inl (
                  p,
                  rest ∙ rw f refl,
                  inr (inr (from_token-some (present r.bearer) answer.0 p f)),
                )
                | inl f ↦ inr (rest ∙ rw (f, n) refl)
              ]
        ]
  ]

  -- What FastAPI runs for a route that depends on `require_scopes(*required)`.
  unfoldable pub guarded : Settings → List String → Request → Store → Result HttpError Principal
  guarded c required r s = (get_principal store c r s).1 >>= require_scopes c required

  Origin-known :
      (c : Settings) (r : Request) (s : Store) (p : Principal)
      → Origin c r s p
      → is_anonymous p.kind ≡ false
  unfolding Origin
  Origin-known c r s p (inl (key, e)) = rw e refl
  Origin-known c r s p (inr (inl (sid, owner, u, a, b, d, e))) = rw e refl
  Origin-known c r s p (inr (inr (token, info, a, b, e))) = rw e refl

  -- Where authentication is required, whoever passes a guarded route has an origin, and `*` or each
  -- of the scopes that the route asks for.
  pub guarded_admits :
      (c : Settings) (required : List String) (r : Request) (s : Store) (p : Principal)
      → needs_auth c ≡ true
      → guarded c required r s ≡ ok p
      → Origin c r s p × Covers p required
  unfolding guarded
  guarded_admits c required r s p n h = elim (get_principal-Origin c r s n) [
    | inr refused ↦
        let e : guarded c required r s ≡ raise unauthorized = rw refused refl in
        absurd (ground (arith, h, e))
    | inl (q, e, origin) ↦
        let passed : require_scopes c required q ≡ ok p =
          let run : guarded c required r s ≡ require_scopes c required q = rw e refl in
          sym run ∙ h in
        let (iff, cases) = require_scopes_iff c required q n (Origin-known c r s q origin) in
        elim cases [
          | inl same ↦
              let one : q ≡ p = ground (arith, same, passed) in
              subst (λ x. Origin c r s x × Covers x required) one (origin, iff.0 same)
          | inr (t, ts, f, lack) ↦ absurd (ground (arith, passed, f))
        ]
  ]
