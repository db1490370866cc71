-- ===== src/Shor/Factor/Fallback.antt =====
-- The fallback of synqc_shor/factor.py.
use syn_qc_temporal_dynamics.Prelude.{
  leb, ltb, lt→ltb, ℕ, ◌*◌, ◌%◌, ◌^◌, ◌≤◌, ◌<◌, String, ◌≡◌, ◌⊎◌, refl, Bool, true, false, Option,
  List, [], ◌∷◌, ◌++◌, arith, ok, raise, inl, inr, Bool-cases,
}
use syn_qc_temporal_dynamics.Shor.Factor.{
  StepTiming, done, failed_step, auto, Quantum, FactorResult, run_method, factor,
}
use syn_qc_temporal_dynamics.Shor.Factor.Trial.{FactorsOf, factor_semiprime-composite}

abbrev fallback_result : ℕ → ℕ → ℕ → List StepTiming → FactorResult
fallback_result n p q steps = record {
  n = n;
  p = p;
  q = q;
  method_used = "classical_fallback";
  steps = steps ++ done "classical_factor" ∷ [];
}

-- Where the quantum backend is not available, or fails, the method `auto` factors a composite
-- number within the bounds all the same, and names the classical method.
pub factor-fallback :
    (max_bits : ℕ) (available : Bool) (quantum : Quantum) (rho : Option ℕ) (n d : ℕ) (what : String)
    → (available ≡ false) ⊎ (quantum ≡ raise what)
    → 3 < n
    → n < 2 ^ max_bits
    → 2 ≤ d
    → d * d ≤ n
    → n % d ≡ 0
    → (r : FactorResult) × (factor max_bits available quantum rho n auto ≡ ok r)
      × FactorsOf n r.p r.q
      × (r.method_used ≡ "classical_fallback")
unfolding factor run_method
factor-fallback max_bits available quantum rho n d what failed low high two le z =
    let above : leb n 3 ≡ false = ground arith in
    let below : ltb n (2 ^ max_bits) ≡ true = lt→ltb n (2 ^ max_bits) high in
    let (p, q, answer, factors) = factor_semiprime-composite rho n d low two le z in
    elim (Bool-cases available) [
      | inl on ↦ elim failed [
        | inl off ↦ absurd (ground (arith, on, off))
        | inr broken ↦ (
          fallback_result n p q (done "validate" ∷ failed_step what ∷ []),
          rw (above, below, on, broken, answer) refl,
          factors,
          refl,
        )
      ]
      | inr off ↦ (
        fallback_result n p q (done "validate" ∷ []),
        rw (above, below, off, answer) refl,
        factors,
        refl,
      )
    ]
