-- ===== src/Dict/Tally.antt =====
-- How many entries of a dictionary pass a test, and how an assignment changes that number.
use syn_qc_temporal_dynamics.Prelude.{
  ℕ, ◌+◌, ◌≤◌, String, ◌≡◌, Bool, Option, none, some, [], ◌∷◌, arith, if◌then◌else◌, length,
}
use syn_qc_temporal_dynamics.Dict.{Dict, get, put}

module _ {ℓ} {V : Type ℓ} (p : V → Bool) where
  unfoldable pub tally : Dict V → ℕ
  tally [] = 0
  tally ((k, v) ∷ d) = (if p v then 1 else 0) + tally d

  abbrev pub weight : Option V → ℕ
  weight none = 0
  weight (some v) = if p v then 1 else 0

  pub tally-put :
      (k : String) (v : V) (d : Dict V)
      → tally (put k v d) + weight (get k d) ≡ tally d + (if p v then 1 else 0)
  unfolding tally put get
  tally-put k v [] = ground arith
  tally-put k v ((j, w) ∷ d) = ground (arith, tally-put k v d)

  pub tally-le-length : (d : Dict V) → tally d ≤ length d
  unfolding tally
  tally-le-length [] = omega arith
  tally-le-length ((k, v) ∷ d) = ground (arith, tally-le-length d)
