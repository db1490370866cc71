-- ===== src/RunQueue/Redis.antt =====
-- The commands of the Redis server that backend/synqc_backend/run_queue.py sends, with the laws of
-- their documentation: HGETALL of a job's hash and of a hash of integers, HSET, HINCRBY, RPUSH and
-- BLPOP on a list given from its head, and ZADD.
use syn_qc_temporal_dynamics.Prelude.{
  ℕ, String, str_eq, ◌≡◌, false, ◌&&◌, Option, none, some, List, [], ◌∷◌, ◌++◌, if◌then◌else◌,
}
use syn_qc_temporal_dynamics.Prelude.Int.{ℤ, pos, ◌+ℤ◌}
use syn_qc_temporal_dynamics.Dict.{Dict, get}
use syn_qc_temporal_dynamics.Models.{Detail, RunExperimentRequest, RunExperimentResponse}

-- A value of a job's hash: a text, a number, or the JSON text of a request, of a result or of the
-- detail of an error.
pub data Value (Real : Type 0) : Type 0 where
  text : String → Value Real
  number : ℕ → Value Real
  request : RunExperimentRequest Real → Value Real
  response : RunExperimentResponse Real → Value Real
  detail : Detail → Value Real

abbrev pub first {ℓ} : {A : Type ℓ} → Option A → Option A → Option A
first (some v) old = some v
first none old = old

-- `int(counts.get(k, 0) or 0)`
abbrev pub int_or_zero : Option ℤ → ℤ
int_or_zero none = pos 0
int_or_zero (some n) = n

pub record RunServer (Real : Type 0) : Type 1 where
  pub Server : Type 0
  pub fields : String → Server → Dict (Value Real)
  pub counts : String → Server → Dict ℤ
  pub items : String → Server → List String
  pub hset : String → Dict (Value Real) → Server → Server
  pub hincrby : String → String → ℤ → Server → Server
  pub rpush : String → String → Server → Server
  pub blpop : String → Server → Server × Option String
  pub zadd : String → String → ℕ → Server → Server
  pub field-hset :
      (k j f : String) (m : Dict (Value Real)) (s : Server)
      → get f (fields j (hset k m s))
        ≡ (if str_eq k j then first (get f m) (get f (fields j s)) else get f (fields j s))
  pub field-hincrby :
      (k j f : String) (d : ℤ) (s : Server)
      → str_eq k j ≡ false
      → fields j (hincrby k f d s) ≡ fields j s
  pub field-rpush : (k j v : String) (s : Server) → fields j (rpush k v s) ≡ fields j s
  pub field-blpop : (k j : String) (s : Server) → fields j (blpop k s).0 ≡ fields j s
  pub field-zadd : (k j v : String) (n : ℕ) (s : Server) → fields j (zadd k v n s) ≡ fields j s
  pub count-hset :
      (k j : String) (m : Dict (Value Real)) (s : Server)
      → str_eq k j ≡ false
      → counts j (hset k m s) ≡ counts j s
  pub count-hincrby :
      (k j f g : String) (d : ℤ) (s : Server)
      → get g (counts j (hincrby k f d s)) ≡ (
          if str_eq k j && str_eq f g
          then some (int_or_zero (get g (counts j s)) +ℤ d)
          else get g (counts j s))
  pub count-rpush : (k j v : String) (s : Server) → counts j (rpush k v s) ≡ counts j s
  pub count-blpop : (k j : String) (s : Server) → counts j (blpop k s).0 ≡ counts j s
  pub count-zadd : (k j v : String) (n : ℕ) (s : Server) → counts j (zadd k v n s) ≡ counts j s
  pub items-hset :
      (k j : String) (m : Dict (Value Real)) (s : Server) → items j (hset k m s) ≡ items j s
  pub items-hincrby : (k j f : String) (d : ℤ) (s : Server) → items j (hincrby k f d s) ≡ items j s
  pub items-rpush :
      (k j v : String) (s : Server)
      → items j (rpush k v s) ≡ (if str_eq k j then items j s ++ (v ∷ []) else items j s)
  pub items-zadd : (k j v : String) (n : ℕ) (s : Server) → items j (zadd k v n s) ≡ items j s
  pub blpop-empty : (k : String) (s : Server) → items k s ≡ [] → (blpop k s).1 ≡ none
  pub blpop-head :
      (k x : String) (xs : List String) (s : Server)
      → items k s ≡ x ∷ xs
      → ((blpop k s).1 ≡ some x) × (items k (blpop k s).0 ≡ xs)
  pub blpop-same : (k : String) (s : Server) → items k s ≡ [] → items k (blpop k s).0 ≡ []
