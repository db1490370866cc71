-- ===== src/Dict/Sweep.antt =====
-- The removal loop that the trackers with a lifetime share: collect the keys whose entry passes a
-- test, then pop each of them.
use syn_qc_temporal_dynamics.Prelude.{
  String, ◌≡◌, refl, Bool, false, ◌||◌, Option, none, some, List, [], ◌∷◌, arith, str_eq, eq_iff,
  if◌then◌else◌,
}
use syn_qc_temporal_dynamics.Dict.{Dict, get, pop, Unique, get-pop, pop-Unique}

abbrev pub member : String → List String → Bool
member k [] = false
member k (j ∷ ks) = str_eq j k || member k ks

module _ {ℓ} {V : Type ℓ} where
  -- `[k for k, v in d.items() if p(v)]`
  unfoldable pub keys_if : (V → Bool) → Dict V → List String
  keys_if p [] = []
  keys_if p ((k, v) ∷ d) = if p v then k ∷ keys_if p d else keys_if p d

  -- `for k in ks: d.pop(k, None)`
  unfoldable pub pop_all : List String → Dict V → Dict V
  pop_all [] d = d
  pop_all (k ∷ ks) d = pop_all ks (pop k d)

  -- What is left of an entry.
  abbrev pub unless : (V → Bool) → Option V → Option V
  unless p none = none
  unless p (some v) = if p v then none else some v

  abbrev holds : (V → Bool) → Option V → Bool
  holds p none = false
  holds p (some v) = p v

  pub pop_all-Unique : (ks : List String) (d : Dict V) → Unique d → Unique (pop_all ks d)
  unfolding pop_all
  pop_all-Unique [] d u = u
  pop_all-Unique (k ∷ ks) d u = pop_all-Unique ks (pop k d) (pop-Unique k d u)

  pub get-pop_all :
      (ks : List String) (j : String) (d : Dict V)
      → Unique d
      → get j (pop_all ks d) ≡ (if member j ks then none else get j d)
  unfolding pop_all
  get-pop_all [] j d u = refl
  get-pop_all (k ∷ ks) j d u =
      ground (arith, get-pop_all ks j (pop k d) (pop-Unique k d u), get-pop k j d u)

  member-keys_if :
      (p : V → Bool) (j : String) (d : Dict V)
      → Unique d
      → member j (keys_if p d) ≡ holds p (get j d)
  unfolding keys_if get
  member-keys_if p j [] u = refl
  member-keys_if p j ((k, v) ∷ d) u = ground (arith, eq_iff k j, member-keys_if p j d u.1)

  -- The loop removes exactly the entries that pass the test.
  pub get-sweep :
      (p : V → Bool) (j : String) (d : Dict V)
      → Unique d
      → get j (pop_all (keys_if p d) d) ≡ unless p (get j d)
  get-sweep p j d u = ground (arith, get-pop_all (keys_if p d) j d u, member-keys_if p j d u)
