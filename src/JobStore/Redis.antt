-- ===== src/JobStore/Redis.antt =====
-- The commands of the Redis server that backend/synqc_backend/job_store.py, queueing.py and
-- worker_service.py send, with the laws of their documentation: GET and SETEX, HGETALL, HSET and
-- HINCRBY, EXPIRE (a key lives on while its lifetime lasts; SETEX and EXPIRE promise this for a
-- positive lifetime alone), LPUSH and BRPOP on a list that is given from its head, ZADD and ZPOPMIN.
use syn_qc_temporal_dynamics.Prelude.{
  ℕ, ◌+◌, ◌<◌, String, str_eq, ◌≡◌, ◌&&◌, Option, none, some, List, if◌then◌else◌,
}
use syn_qc_temporal_dynamics.Dict.{Dict, get}
use syn_qc_temporal_dynamics.Models.{Detail}

pub record JobErrorInfo : Type 0 where
  pub code : String
  pub message : String
  pub details : Detail

pub data Value : Type 0 where
  text : String → Value
  number : ℕ → Value
  encoded : Detail → Value
  error_json : JobErrorInfo → Value

-- `parse_int`: the number of a value, or a default.
abbrev pub number_or : ℕ → Option Value → ℕ
number_or default none = default
number_or default (some (number n)) = n
number_or default (some (text t)) = default
number_or default (some (encoded d)) = default
number_or default (some (error_json e)) = default

-- The first value that is there.
abbrev pub first : Option Value → Option Value → Option Value
first (some v) old = some v
first none old = old

pub record RedisServer : Type 1 where
  pub Server : Type 0
  pub value : String → Server → Option String
  pub set_ex : String → ℕ → String → Server → Server
  pub hgetall : String → Server → Dict Value
  pub hset : String → Dict Value → Server → Server
  pub hincr : String → String → Server → Server
  pub expire : String → ℕ → Server → Server
  pub items : String → Server → List String
  pub lpush : String → String → Server → Server
  pub brpop : String → Server → Server × Option String
  pub score : String → String → Server → Option ℕ
  pub zadd : String → String → ℕ → Server → Server
  pub zpopmin : String → Server → Server × Option (String × ℕ)
  pub value-set_ex :
      (k j v : String) (ttl : ℕ) (s : Server)
      → 0 < ttl
      → value j (set_ex k ttl v s) ≡ (if str_eq k j then some v else value j s)
  pub field-set_ex :
      (k j v : String) (ttl : ℕ) (s : Server) → 0 < ttl → hgetall j (set_ex k ttl v s) ≡ hgetall j s
  pub field-hset :
      (k j f : String) (m : Dict Value) (s : Server)
      → get f (hgetall j (hset k m s))
        ≡ (if str_eq k j then first (get f m) (get f (hgetall j s)) else get f (hgetall j s))
  pub field-hincr :
      (k j f g : String) (n : ℕ) (s : Server)
      → get f (hgetall k s) ≡ some (number n)
      → get g (hgetall j (hincr k f s))
        ≡ (if str_eq k j && str_eq f g then some (number (n + 1)) else get g (hgetall j s))
  pub field-expire :
      (k j : String) (ttl : ℕ) (s : Server) → 0 < ttl → hgetall j (expire k ttl s) ≡ hgetall j s
  pub field-zadd : (k j m : String) (n : ℕ) (s : Server) → hgetall j (zadd k m n s) ≡ hgetall j s
  pub score-zadd :
      (k j m m' : String) (n : ℕ) (s : Server)
      → score j m' (zadd k m n s) ≡ (if str_eq k j && str_eq m m' then some n else score j m' s)
