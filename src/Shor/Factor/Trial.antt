-- ===== src/Shor/Factor/Trial.antt =====
-- What the trial division of synqc_shor/classical_factor.py finds.
use native.Mathlib.Nat.{
  dvd_of_mod-eq-zero, mod-eq-zero_of_dvd, mul-div_cancel', mul-le-mul, dvd_trans,
}
use syn_qc_temporal_dynamics.Prelude.{
  ℕ, zero, suc, ◌+◌, ◌-◌, ◌*◌, ◌/◌, ◌%◌, ◌≤◌, ◌<◌, ◌≡◌, ◌≢◌, ◌⊎◌, refl, false, Option, none, some,
  arith, leb, ◌==◌, min, max, ok, Bool-cases, Option-cases, inl, inr,
}
use syn_qc_temporal_dynamics.Shor.Factor.{
  isqrt, trial_loop, trial_division, factor_semiprime, sorted_pair,
}

-- The integer square root.
isqrt-bounds : (n : ℕ) → (isqrt n * isqrt n ≤ n) × (n < (isqrt n + 1) * (isqrt n + 1))
unfolding isqrt
isqrt-bounds zero = (omega arith, omega arith)
isqrt-bounds (suc n) =
    let (below, above) = isqrt-bounds n in
    let r = isqrt n in
    elim (Bool-cases (leb ((r + 1) * (r + 1)) (suc n))) [
      | inl fits ↦
          let le : (r + 1) * (r + 1) ≤ suc n = ground arith in
          let next : (r + 1) * (r + 1) < (r + 1 + 1) * (r + 1 + 1) = grind arith in
          rw fits (le, omega arith)
      | inr over ↦ rw over (omega arith, ground arith)
    ]

trial_loop-some :
    (fuel n limit f p q : ℕ)
    → trial_loop fuel n limit f ≡ some (p, q)
    → (n % p ≡ 0) × (q ≡ n / p) × (f ≤ p) × (p ≤ limit)
unfolding trial_loop
trial_loop-some zero n limit f p q h = absurd (ground (arith, h))
trial_loop-some (suc fuel) n limit f p q h =
    ground (arith, h, trial_loop-some fuel n limit (f + 2) p q)

trial_loop-none :
    (fuel n limit f : ℕ)
    → limit < f + 2 * fuel
    → trial_loop fuel n limit f ≡ none
    → (j : ℕ) → f + 2 * j ≤ limit
    → n % (f + 2 * j) ≢ 0
unfolding trial_loop
trial_loop-none zero n limit f enough h j le = λ _. omega arith
trial_loop-none (suc fuel) n limit f enough h zero le =
    λ e. let same : f + 2 * 0 ≡ f = omega arith in ground (arith, h, e, same, rw same at e)
trial_loop-none (suc fuel) n limit f enough h (suc j) le =
    let same : f + 2 * suc j ≡ f + 2 + 2 * j = omega arith in
    let rest : trial_loop fuel n limit (f + 2) ≡ none = ground (arith, h) in
    λ e. trial_loop-none fuel n limit (f + 2) (omega arith) rest j (omega arith) (rw same at e)

-- Every number from 2 is even, or an odd number from 3.
even_or_odd : (d : ℕ) → 2 ≤ d → ((k : ℕ) × (d ≡ 2 * k)) ⊎ ((j : ℕ) × (d ≡ 3 + 2 * j))
even_or_odd d two = elim (Bool-cases (d % 2 == 0)) [
  | inl e ↦ inl (d / 2, ground (arith))
  | inr e ↦ inr ((d - 3) / 2, ground (arith))
]

le_isqrt : (d n : ℕ) → d * d ≤ n → d ≤ isqrt n
le_isqrt d n h = elim (Bool-cases (leb d (isqrt n))) [
  | inl le ↦ ground arith
  | inr gt ↦
      let over : isqrt n + 1 ≤ d = ground arith in
      let square = mul-le-mul over over in absurd (omega (arith, h, square, (isqrt-bounds n).1))
]

-- Trial division misses no divisor from 2 up to the square root.
pub trial_division-none :
    (n : ℕ) → trial_division n ≡ none → (d : ℕ) → 2 ≤ d → d * d ≤ n → n % d ≢ 0
unfolding trial_division
trial_division-none n h d two le = elim (Bool-cases (n % 2 == 0)) [
  | inl even ↦
      let found : trial_division n ≡ some (2, n / 2) = rw even refl in
      absurd (ground (arith, h, found))
  | inr odd ↦
      let loop : trial_loop (isqrt n) n (isqrt n) 3 ≡ none = ground (arith, h, odd) in
      elim (even_or_odd d two) [
        | inl (k, e) ↦ λ z.
            let two_d : d % 2 ≡ 0 = ground (arith, e) in
            let two_n = dvd_trans 2 (dvd_of_mod-eq-zero 2 two_d) (dvd_of_mod-eq-zero d z) in
            let even : n % 2 ≡ 0 = mod-eq-zero_of_dvd 2 two_n in ground (arith, even, odd)
        | inr (j, e) ↦
            let le' = le_isqrt d n le in
            λ z.
              trial_loop-none (isqrt n) n (isqrt n) 3 (omega arith) loop j (omega (arith, e, le'))
                (rw e at z)
      ]
]

-- Two numbers, both at least 2, with a product, in order.
pub FactorsOf : ℕ → ℕ → ℕ → Type 0
FactorsOf n p q = (2 ≤ p) × (p ≤ q) × (p * q ≡ n)

min-max_le : (p q : ℕ) → p ≤ q → (min p q ≡ p) × (max p q ≡ q)
min-max_le p q h = (omega arith, omega arith)

sorted_pair-FactorsOf :
    (n p : ℕ)
    → n % p ≡ 0
    → 2 ≤ p
    → p * p ≤ n
    → FactorsOf n (sorted_pair p (n / p)).0 (sorted_pair p (n / p)).1
unfolding FactorsOf
sorted_pair-FactorsOf n p z two le =
    let q = n / p in
    let product : p * q ≡ n = mul-div_cancel' p (dvd_of_mod-eq-zero p z) in
    let other : p ≤ q = elim (Bool-cases (leb p q)) [
      | inl h ↦ ground arith
      | inr h ↦
          let below : q + 1 ≤ p = ground arith in
          let self : p ≤ p = omega arith in
          let square = mul-le-mul self below in absurd (grind (arith, square))
    ] in
    let (least, most) = min-max_le p q other in rw (least, most) (two, other, product)

trial_division-odd :
    (n p q : ℕ)
    → n % 2 ≢ 0
    → trial_division n ≡ some (p, q)
    → (n % p ≡ 0) × (q ≡ n / p) × (2 ≤ p) × (p * p ≤ n)
unfolding trial_division
trial_division-odd n p q odd h =
    let loop : trial_loop (isqrt n) n (isqrt n) 3 ≡ some (p, q) = ground (arith, h, odd) in
    let (z, e, from, to) = trial_loop-some (isqrt n) n (isqrt n) 3 p q loop in
    let square = mul-le-mul to to in
    (z, e, omega (arith, from), omega (arith, square, (isqrt-bounds n).0))

-- A number above 3 with a divisor from 2 up to its square root is factored without the random
-- search: the answer is two numbers in order, both at least 2, whose product it is.
pub factor_semiprime-composite :
    (rho : Option ℕ) (n d : ℕ)
    → 3 < n
    → 2 ≤ d
    → d * d ≤ n
    → n % d ≡ 0
    → (p : ℕ) × (q : ℕ) × (factor_semiprime rho n ≡ ok (p, q)) × FactorsOf n p q
unfolding factor_semiprime FactorsOf
factor_semiprime-composite rho n d big two le z = elim (Bool-cases (n % 2 == 0)) [
  | inl even ↦
      let answer : factor_semiprime rho n ≡ ok (2, n / 2) = ground (arith, even) in
      (2, n / 2, answer, (omega arith, omega arith, ground (arith, even)))
  | inr odd ↦
      let not_even : n % 2 ≢ 0 = λ e. ground (arith, odd, e) in
      elim (Option-cases (trial_division n)) [
        | inl h ↦ absurd (trial_division-none n h d two le z)
        | inr ((p, q), h) ↦
            let (z', e, two', le') = trial_division-odd n p q not_even h in
            let above : leb n 1 ≡ false = ground arith in
            let answer : factor_semiprime rho n ≡ ok (sorted_pair p (n / p)) =
              rw (above, h, odd, e) refl in
            (
              (sorted_pair p (n / p)).0,
              (sorted_pair p (n / p)).1,
              answer,
              sorted_pair-FactorsOf n p z' two' le',
            )
      ]
]
