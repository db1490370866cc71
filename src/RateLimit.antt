-- ===== src/RateLimit.antt =====
-- backend/synqc_backend/middleware.py: `RateLimitMiddleware`, a counter on the Redis server for each
-- identity and minute.
pub mod Window
use Prim.Native.String.{◌++◌ as str_append}
use syn_qc_temporal_dynamics.Prelude.{
  ℕ, zero, suc, ◌+◌, String, str_eq, ◌≡◌, Bool, true, false, not, ◌&&◌, Option, none, some, ltb,
  ◌==◌, ◌≤◌, if◌then◌else◌,
}
use syn_qc_temporal_dynamics.Prelude.Int.{ℤ, pos, negsuc}

-- The commands INCR and EXPIRE as the server documents them, within one minute: a key whose
-- lifetime is at least 60 seconds is still there for the rest of it, and of one with a shorter
-- lifetime, such as 0, which deletes the key, nothing is known.
pub record RedisCounters : Type 1 where
  pub Server : Type 0
  pub value : String → Server → ℕ
  pub incr : String → Server → Server
  pub expire : String → ℕ → Server → Server
  pub value-incr : (k : String) (s : Server) → value k (incr k s) ≡ value k s + 1
  pub value-incr_ne :
      (k j : String) (s : Server) → str_eq k j ≡ false → value j (incr k s) ≡ value j s
  pub value-expire :
      (k j : String) (n : ℕ) (s : Server) → 60 ≤ n → value j (expire k n s) ≡ value j s

-- What the two commands of a request do: INCR answers or raises, and so does EXPIRE if it is sent.
pub record Answers : Type 0 where
  pub incr_works : Bool
  pub expire_works : Bool

-- `int(time.time() // 60)` comes as text.
pub record Request : Type 0 where
  pub api_key : Option String
  pub host : Option String
  pub window : String
  pub answers : Answers

abbrev pub host_or_unknown : Option String → String
host_or_unknown none = "unknown"
host_or_unknown (some host) = host

abbrev pub ident : Option String → Option String → String
ident none host = host_or_unknown host
ident (some key) host = if str_eq key "" then host_or_unknown host else key

abbrev pub rate_key : Request → String
rate_key r =
    str_append "synqc:ratelimit:" (str_append (ident r.api_key r.host) (str_append ":" r.window))

module _ (redis : RedisCounters) where
  open redis use {Server, value, incr, expire}

  -- The count: the server after it, and the counter, or nothing if a command raises.
  unfoldable pub count_request : Request → Server → Server × Option ℕ
  count_request r s =
      if r.answers.incr_works
      then (let s' = incr (rate_key r) s in
          let n = value (rate_key r) s' in
          if n == 1
          then (if r.answers.expire_works then (expire (rate_key r) 90 s', some n) else (s', none))
          else (s', some n))
      else (s, none)

  -- Whether the count lets a request through.
  abbrev pub is_within : ℕ → Option ℕ → Bool
  is_within limit none = true
  is_within limit (some n) = not (ltb limit n)

  -- `dispatch`: the server after it, and whether the request passes.
  unfoldable pub dispatch : ℤ → Request → Server → Server × Bool
  unfolding count_request
  dispatch (negsuc _) r s = (s, true)
  dispatch (pos zero) r s = (s, true)
  dispatch (pos (suc n)) r s =
      let answer = count_request r s in (answer.0, is_within (suc n) answer.1)
