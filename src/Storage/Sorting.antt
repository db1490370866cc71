-- ===== src/Storage/Sorting.antt =====
-- Python's `sorted`, a stable sort, by a test `before a b` that holds when `a` may stand before `b`.
use mathlib.Core.List.{Perm}
use mathlib.Core.List.Perm
use syn_qc_temporal_dynamics.Prelude.{
  ℕ, zero, suc, Bool, true, false, List, [], ◌∷◌, ◌≡◌, if◌then◌else◌, Bool-cases, inl, inr, All,
  take, drop, length, arith, ◌+◌,
}

module _ {ℓ} {A : Type ℓ} (before : A → A → Bool) where
  unfoldable pub insert_by : A → List A → List A
  insert_by x [] = x ∷ []
  insert_by x (y ∷ ys) = if before x y then x ∷ y ∷ ys else y ∷ insert_by x ys

  unfoldable pub sort_by : List A → List A
  unfolding insert_by
  sort_by [] = []
  sort_by (x ∷ xs) = insert_by x (sort_by xs)

  -- Each element may stand before all that follow it.
  abbrev pub IsSorted : List A → Type 0
  IsSorted [] = Unit
  IsSorted (x ∷ xs) = All (λ y. before x y ≡ true) xs × IsSorted xs

  insert_by-perm : (x : A) (ys : List A) → Perm (insert_by x ys) (x ∷ ys)
  unfolding insert_by
  insert_by-perm x [] = Perm.refl _
  insert_by-perm x (y ∷ ys) = elim (Bool-cases (before x y)) [
    | inl b ↦ rw b (Perm.refl _)
    | inr b ↦ rw b (Perm.trans (Perm.cons y (insert_by-perm x ys)) (Perm.swap _ _ _))
  ]

  pub sort_by-perm : (xs : List A) → Perm (sort_by xs) xs
  unfolding sort_by
  sort_by-perm [] = Perm.refl _
  sort_by-perm (x ∷ xs) = Perm.trans (insert_by-perm x (sort_by xs)) (Perm.cons x (sort_by-perm xs))

  length-insert_by : (x : A) (ys : List A) → length (insert_by x ys) ≡ length ys + 1
  unfolding insert_by
  length-insert_by x [] = omega arith
  length-insert_by x (y ∷ ys) = ground (arith, length-insert_by x ys)

  pub length-sort_by : (xs : List A) → length (sort_by xs) ≡ length xs
  unfolding sort_by
  length-sort_by [] = omega arith
  length-sort_by (x ∷ xs) = omega (arith, length-insert_by x (sort_by xs), length-sort_by xs)

  module _ {κ} (P : A → Type κ) where
    All-insert_by : (x : A) (ys : List A) → P x → All P ys → All P (insert_by x ys)
    unfolding insert_by
    All-insert_by x [] p h = (p, tt)
    All-insert_by x (y ∷ ys) p h = elim (Bool-cases (before x y)) [
      | inl b ↦ rw b (p, h)
      | inr b ↦ rw b (h.0, All-insert_by x ys p h.1)
    ]

    pub All-sort_by : (xs : List A) → All P xs → All P (sort_by xs)
    unfolding sort_by
    All-sort_by [] h = tt
    All-sort_by (x ∷ xs) h = All-insert_by x (sort_by xs) h.0 (All-sort_by xs h.1)

    All-insert_by_inv : (x : A) (ys : List A) → All P (insert_by x ys) → P x × All P ys
    unfolding insert_by
    All-insert_by_inv x [] h = h
    All-insert_by_inv x (y ∷ ys) h = elim (Bool-cases (before x y)) [
      | inl b ↦ rw (b, insert_by) at h
      | inr b ↦
          let h' : P y × All P (insert_by x ys) = rw (b, insert_by) at h in
          let r = All-insert_by_inv x ys h'.1 in (r.0, (h'.0, r.1))
    ]

    pub All-of_sort_by : (xs : List A) → All P (sort_by xs) → All P xs
    unfolding sort_by
    All-of_sort_by [] h = tt
    All-of_sort_by (x ∷ xs) h =
        let r = All-insert_by_inv x (sort_by xs) h in (r.0, All-of_sort_by xs r.1)

  All-map :
      (x y : A) (zs : List A)
      → ((z : A) → before y z ≡ true → before x z ≡ true)
      → All (λ z. before y z ≡ true) zs
      → All (λ z. before x z ≡ true) zs
  All-map x y [] f h = tt
  All-map x y (z ∷ zs) f h = (f z h.0, All-map x y zs f h.1)

  module _ (total : (a b : A) → before a b ≡ false → before b a ≡ true)
      (trans : (a b c : A) → before a b ≡ true → before b c ≡ true → before a c ≡ true) where
    insert_by-IsSorted : (x : A) (ys : List A) → IsSorted ys → IsSorted (insert_by x ys)
    unfolding insert_by
    insert_by-IsSorted x [] h = (tt, tt)
    insert_by-IsSorted x (y ∷ ys) h = elim (Bool-cases (before x y)) [
      | inl b ↦ rw b ((b, All-map x y ys (λ z. trans x y z b) h.0), h)
      | inr b ↦ rw b (
        All-insert_by (λ z. before y z ≡ true) x ys (total x y b) h.0,
        insert_by-IsSorted x ys h.1,
      )
    ]

    pub sort_by-IsSorted : (xs : List A) → IsSorted (sort_by xs)
    unfolding sort_by
    sort_by-IsSorted [] = tt
    sort_by-IsSorted (x ∷ xs) = insert_by-IsSorted x (sort_by xs) (sort_by-IsSorted xs)

  All-take : (P : A → Type 0) (n : ℕ) (xs : List A) → All P xs → All P (take n xs)
  All-take P zero xs h = tt
  All-take P (suc n) [] h = tt
  All-take P (suc n) (x ∷ xs) h = (h.0, All-take P n xs h.1)

  All-drop : (P : A → Type 0) (n : ℕ) (xs : List A) → All P xs → All P (drop n xs)
  All-drop P zero xs h = h
  All-drop P (suc n) [] h = tt
  All-drop P (suc n) (x ∷ xs) h = All-drop P n xs h.1

  -- A sorted list cut in two: the front is sorted, and each of its elements may stand before all
  -- of the rest.
  pub take-IsSorted : (n : ℕ) (xs : List A) → IsSorted xs → IsSorted (take n xs)
  take-IsSorted zero xs h = tt
  take-IsSorted (suc n) [] h = tt
  take-IsSorted (suc n) (x ∷ xs) h =
      (All-take (λ y. before x y ≡ true) n xs h.0, take-IsSorted n xs h.1)

  pub take-before-drop :
      (n : ℕ) (xs : List A)
      → IsSorted xs
      → All (λ x. All (λ y. before x y ≡ true) (drop n xs)) (take n xs)
  take-before-drop zero xs h = tt
  take-before-drop (suc n) [] h = tt
  take-before-drop (suc n) (x ∷ xs) h =
      (All-drop (λ y. before x y ≡ true) n xs h.0, take-before-drop n xs h.1)
