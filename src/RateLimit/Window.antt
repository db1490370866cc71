-- ===== src/RateLimit/Window.antt =====
-- How many requests the rate limit of backend/synqc_backend/middleware.py lets through.
use syn_qc_temporal_dynamics.Prelude.{
  ℕ, suc, ◌+◌, ◌-◌, ◌≤◌, String, str_eq, eq_iff, ◌≡◌, true, false, ◌&&◌, some, List, [], ◌∷◌, arith,
  if◌then◌else◌, Bool-cases, inl, inr, All,
}
use syn_qc_temporal_dynamics.Prelude.Int.{pos}
use syn_qc_temporal_dynamics.RateLimit.{
  RedisCounters, Request, rate_key, count_request, is_within, dispatch,
}

module _ (redis : RedisCounters) where
  open redis use {Server, value, incr, expire, value-incr, value-incr_ne, value-expire}

  -- How many of a row of requests with one key pass.
  unfoldable pub passed : ℕ → String → List Request → Server → ℕ
  passed limit k [] s = 0
  passed limit k (r ∷ rs) s =
      let answer = dispatch redis (pos (suc limit)) r s in
      (if str_eq (rate_key r) k && answer.1 then 1 else 0) + passed limit k rs answer.0

  abbrev pub Answered : Request → Type 0
  Answered r = (r.answers.incr_works ≡ true) × (r.answers.expire_works ≡ true)

  dispatch-own :
      (limit : ℕ) (r : Request) (k : String) (s : Server)
      → Answered r
      → str_eq (rate_key r) k ≡ true
      → (value k (dispatch redis (pos (suc limit)) r s).0 ≡ value k s + 1)
        × ((dispatch redis (pos (suc limit)) r s).1
            ≡ is_within redis (suc limit) (some (value k s + 1)))
  unfolding dispatch count_request
  dispatch-own limit r k s (works, kept) own =
      let same : rate_key r ≡ k = (eq_iff (rate_key r) k).0 own in
      let s' = incr (rate_key r) s in
      let long : 60 ≤ 90 = omega arith in
      ground (arith, works, kept, same, value-incr k s, value-expire (rate_key r) k 90 s' long)

  dispatch-other :
      (limit : ℕ) (r : Request) (k : String) (s : Server)
      → Answered r
      → str_eq (rate_key r) k ≡ false
      → value k (dispatch redis (pos (suc limit)) r s).0 ≡ value k s
  unfolding dispatch count_request
  dispatch-other limit r k s (works, kept) other =
      let s' = incr (rate_key r) s in
      let long : 60 ≤ 90 = omega arith in
      ground (
        arith,
        works,
        kept,
        value-incr_ne (rate_key r) k s other,
        value-expire (rate_key r) k 90 s' long,
      )

  -- While the server answers, no more requests of one identity pass within a minute than the limit
  -- leaves over the counter at the start, whatever requests of others come in between.
  pub passed-le-limit :
      (limit : ℕ) (k : String) (rs : List Request) (s : Server)
      → All Answered rs
      → passed limit k rs s ≤ suc limit - value k s
  unfolding passed
  passed-le-limit limit k [] s h = omega arith
  passed-le-limit limit k (r ∷ rs) s h =
      let next = (dispatch redis (pos (suc limit)) r s).0 in
      let rest = passed-le-limit limit k rs next h.1 in
      elim (Bool-cases (str_eq (rate_key r) k)) [
        | inl own ↦
            let (counted, verdict) = dispatch-own limit r k s h.0 own in
            ground (arith, own, counted, verdict, rest)
        | inr other ↦ ground (arith, other, dispatch-other limit r k s h.0 other, rest)
      ]
