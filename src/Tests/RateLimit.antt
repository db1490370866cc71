-- ===== src/Tests/RateLimit.antt =====
-- backend/synqc_backend/middleware.py with counters that are a function of the key.
use syn_qc_temporal_dynamics.Prelude.{
  ℕ, ◌+◌, ◌-◌, ◌≤◌, String, str_eq, eq_iff, ◌≡◌, refl, true, false, some, List, [], ◌∷◌, arith,
  if◌then◌else◌, ltb, ◌&&◌,
}
use syn_qc_temporal_dynamics.RateLimit.{RedisCounters, Request, count_request, dispatch}
use syn_qc_temporal_dynamics.RateLimit.Window.{passed, passed-le-limit}

program : Unit {0}
unfolding count_request dispatch passed
program = tt

abbrev bump : String → (String → ℕ) → String → ℕ
bump k s j = if str_eq k j then s j + 1 else s j

bump_own : (k : String) (s : String → ℕ) → bump k s k ≡ s k + 1
bump_own k s = ground (arith, eq_iff k k)

bump_other : (k j : String) (s : String → ℕ) → str_eq k j ≡ false → bump k s j ≡ s j
bump_other k j s h = ground (arith, h)

-- A lifetime below a minute is over at once.
abbrev lapse : String → ℕ → (String → ℕ) → String → ℕ
lapse k n s j = if ltb n 60 && str_eq k j then 0 else s j

lapse_long : (k j : String) (n : ℕ) (s : String → ℕ) → 60 ≤ n → lapse k n s j ≡ s j
lapse_long k j n s long = ground (arith, long)

abbrev counters : RedisCounters
counters = record {
  Server = String → ℕ;
  value = λ k s. s k;
  incr = bump;
  expire = λ k n s. lapse k n s;
  value-incr = bump_own;
  value-incr_ne = bump_other;
  value-expire = lapse_long;
}

abbrev fresh : String → ℕ
fresh k = 0

abbrev from : String → Request
from key = record {
  api_key = some key;
  host = some "h";
  window = "7";
  answers = record { incr_works = true; expire_works = true };
}

abbrev requests : List Request
requests = from "a" ∷ from "b" ∷ from "a" ∷ from "a" ∷ []

two_pass : passed counters 1 "synqc:ratelimit:a:7" requests fresh ≡ 2
unfolding program
two_pass = refl

passed-le-limit_example : passed counters 1 "synqc:ratelimit:a:7" requests fresh ≤ 2 - 0
passed-le-limit_example =
    passed-le-limit counters 1 "synqc:ratelimit:a:7" requests fresh
      ((refl, refl), ((refl, refl), ((refl, refl), ((refl, refl), tt))))
