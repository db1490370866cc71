-- ===== src/Dict.antt =====
-- Python's `dict` with text keys, as the list of its entries in insertion order: `d.get(k)`,
-- `d[k] = v` (an old key keeps its place, a new one goes last) and `d.pop(k, None)`.
pub mod Sweep
pub mod Tally
use syn_qc_temporal_dynamics.Prelude.{
  ℕ, suc, ◌+◌, ◌-◌, ◌≤◌, String, ◌≡◌, refl, Bool, true, false, Option, none, some, List, [], ◌∷◌,
  arith, str_eq, eq_iff, if◌then◌else◌, length, All, Bool-cases, inl, inr,
}

abbrev pub Dict {ℓ} : Type ℓ → Type ℓ
Dict V = List (String × V)

module _ {ℓ} {V : Type ℓ} where
  unfoldable pub get : String → Dict V → Option V
  get k [] = none
  get k ((j, v) ∷ d) = if str_eq j k then some v else get k d

  unfoldable pub put : String → V → Dict V → Dict V
  put k v [] = (k, v) ∷ []
  put k v ((j, w) ∷ d) = if str_eq j k then (j, v) ∷ d else (j, w) ∷ put k v d

  unfoldable pub pop : String → Dict V → Dict V
  pop k [] = []
  pop k ((j, w) ∷ d) = if str_eq j k then d else (j, w) ∷ pop k d

  -- No key stands twice.
  abbrev pub Unique : Dict V → Type ℓ
  Unique [] = Unit
  Unique ((k, v) ∷ d) = (get k d ≡ none) × Unique d

  pub get-put :
      (k j : String) (v : V) (d : Dict V)
      → get j (put k v d) ≡ (if str_eq k j then some v else get j d)
  unfolding get put
  get-put k j v [] = refl
  get-put k j v ((i, w) ∷ d) = ground (arith, eq_iff k j, eq_iff i k, eq_iff i j, get-put k j v d)

  pub get-pop :
      (k j : String) (d : Dict V)
      → Unique d
      → get j (pop k d) ≡ (if str_eq k j then none else get j d)
  unfolding get pop
  get-pop k j [] u = ground arith
  get-pop k j ((i, w) ∷ d) u = ground (arith, eq_iff k j, eq_iff i k, eq_iff i j, get-pop k j d u.1)

  pub put-Unique : (k : String) (v : V) (d : Dict V) → Unique d → Unique (put k v d)
  unfolding put
  put-Unique k v [] u = unfold get in (refl, tt)
  put-Unique k v ((i, w) ∷ d) u =
      ground (arith, eq_iff i k, eq_iff k i, get-put k i v d, put-Unique k v d u.1)

  pub pop-Unique : (k : String) (d : Dict V) → Unique d → Unique (pop k d)
  unfolding pop
  pop-Unique k [] u = tt
  pop-Unique k ((i, w) ∷ d) u =
      ground (arith, eq_iff i k, eq_iff k i, get-pop k i d u.1, pop-Unique k d u.1)

  pub get-put_ne :
      (k j : String) (v : V) (d : Dict V) → str_eq k j ≡ false → get j (put k v d) ≡ get j d
  get-put_ne k j v d h = ground (arith, get-put k j v d)

  pub get-put_eq :
      (k j : String) (v : V) (d : Dict V) → str_eq k j ≡ true → get j (put k v d) ≡ some v
  get-put_eq k j v d h = ground (arith, get-put k j v d)
