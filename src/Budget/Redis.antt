-- ===== src/Budget/Redis.antt =====
-- The Redis commands on text values that the budget tracker sends: GET, SET, SET with EX, EXPIRE
-- and DEL on a key that holds a number. A command takes the server to the server after it; the
-- laws are those of the commands' documentation, at one moment of the server's clock.
use syn_qc_temporal_dynamics.Prelude.{
  ℕ, ◌<◌, String, ◌≡◌, Option, none, some, str_eq, if◌then◌else◌,
}

pub record RedisStrings : Type 1 where
  pub Server : Type 0
  pub get_key : Server → String → Option ℕ
  pub set_key : String → ℕ → Server → Server
  pub set_ex : String → ℕ → ℕ → Server → Server
  pub expire : String → ℕ → Server → Server
  pub del_key : String → Server → Server
  pub get-set :
      (s : Server) (k j : String) (v : ℕ)
      → get_key (set_key k v s) j ≡ (if str_eq k j then some v else get_key s j)
  pub get-set_ex :
      (s : Server) (k j : String) (v ttl : ℕ)
      → 0 < ttl
      → get_key (set_ex k v ttl s) j ≡ (if str_eq k j then some v else get_key s j)
  pub get-expire :
      (s : Server) (k j : String) (ttl : ℕ) → 0 < ttl → get_key (expire k ttl s) j ≡ get_key s j
  pub get-del :
      (s : Server) (k j : String)
      → get_key (del_key k s) j ≡ (if str_eq k j then none else get_key s j)

-- What a call of the server does: it runs and the reply arrives; it raises before it runs; or it
-- runs and the reply is lost, so the caller sees an error all the same.
pub data Call : Type 0 where
  answered : Call
  refused : String → Call
  lost : String → Call
