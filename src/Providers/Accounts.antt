-- ===== src/Providers/Accounts.antt =====
-- The shots and the counts of the clients in backend/synqc_backend/provider_clients.py.
use syn_qc_temporal_dynamics.Prelude.{
  ℕ, ◌+◌, ◌≤◌, String, str_eq, eq_iff, ◌≡◌, ◌⊎◌, refl, Bool, true, false, not, Option, List, [],
  ◌∷◌, arith, if◌then◌else◌, max, length, All, Result, ok, raise, Bool-cases, inl, inr, ap, ◌∙◌,
}
use syn_qc_temporal_dynamics.Prelude.Int.{ℤ, pos_part}
use syn_qc_temporal_dynamics.Dict.{Dict, get, put}
use syn_qc_temporal_dynamics.Dict.Sweep.{member}
use syn_qc_temporal_dynamics.Models.{
  ExperimentPreset, hello_quantum_sim, health, latency, backend_compare, dpd_demo, grover_demo,
  multicall_dual_clocking, ErrorCode, provider_credentials, provider_capacity,
  provider_queue_backpressure,
}
use syn_qc_temporal_dynamics.Providers.{
  ProviderClientError, Random, ProviderLiveResult, weights, ionq_distribution, azure_distribution,
  rigetti_distribution, zero_counts, count_or_zero, count_draws, sample_counts, clamp_shots,
  is_given, sampled, ionq_run, azure_run, rigetti_run,
}

pub keys : Dict ℕ → List String
keys [] = []
keys ((k, n) ∷ d) = k ∷ keys d

pub sum_of : Dict ℕ → ℕ
sum_of [] = 0
sum_of ((k, n) ∷ d) = n + sum_of d

keys-zero_counts : (dist : Dict ℕ) → keys (zero_counts dist) ≡ keys dist
unfolding keys zero_counts
keys-zero_counts [] = refl
keys-zero_counts ((k, n) ∷ d) = ap (◌∷◌ k) (keys-zero_counts d)

sum_of-zero_counts : (dist : Dict ℕ) → sum_of (zero_counts dist) ≡ 0
unfolding sum_of zero_counts
sum_of-zero_counts [] = refl
sum_of-zero_counts ((k, n) ∷ d) = omega (arith, sum_of-zero_counts d)

keys-put : (k : String) (n : ℕ) (d : Dict ℕ) → member k (keys d) ≡ true → keys (put k n d) ≡ keys d
unfolding keys put
keys-put k n [] h = absurd (ground (arith, h))
keys-put k n ((j, m) ∷ d) h = elim (Bool-cases (str_eq j k)) [
  | inl e ↦ rw e refl
  | inr e ↦ rw e (ap (◌∷◌ j) (keys-put k n d (ground (arith, h, e, eq_iff k j, eq_iff j k))))
]

sum_of-put :
    (k : String) (n : ℕ) (d : Dict ℕ) → sum_of (put k n d) + count_or_zero (get k d) ≡ sum_of d + n
unfolding sum_of put get
sum_of-put k n [] = ground arith
sum_of-put k n ((j, m) ∷ d) = ground (arith, sum_of-put k n d)

count_draws-lem :
    (draws : List String) (counts : Dict ℕ)
    → All (λ d. member d (keys counts) ≡ true) draws
    → (keys (count_draws draws counts) ≡ keys counts)
      × (sum_of (count_draws draws counts) ≡ sum_of counts + length draws)
unfolding count_draws
count_draws-lem [] counts h = (refl, omega arith)
count_draws-lem (d ∷ draws) counts h =
    let next = put d (count_or_zero (get d counts) + 1) counts in
    let same = keys-put d (count_or_zero (get d counts) + 1) counts h.0 in
    let (k, n) = count_draws-lem draws next (rw same h.1) in
    (k ∙ same, omega (arith, n, sum_of-put d (count_or_zero (get d counts) + 1) counts))

-- The generator chooses among the outcomes, as often as it is asked.
abbrev pub IsFair : {Real : Type 0} → Random Real → Type 0
IsFair rng =
    (shots : ℕ)
    → (length (rng.choices shots) ≡ shots)
      × All (λ d. member d ("00" ∷ "01" ∷ "10" ∷ "11" ∷ []) ≡ true) (rng.choices shots)

-- The counts are about the four outcomes and make up the shots, which lie between 1 and a cap and
-- do not pass a positive budget; the weights of the expected distribution make up one.
pub record Accounted {Real : Type 0} (budget : ℤ) (cap : ℕ) (r : ProviderLiveResult Real)
    : Type 0 where
  pub outcomes : keys r.raw_counts ≡ keys r.expected_distribution
  pub counted : sum_of r.raw_counts ≡ r.shots_used
  pub positive : 1 ≤ r.shots_used
  pub capped : r.shots_used ≤ cap
  pub within : r.shots_used ≤ max 1 (pos_part budget)
  pub normalised : sum_of r.expected_distribution ≡ 100

-- Four weights that make up one.
abbrev Whole : Dict ℕ → Type 0
Whole dist =
    (a : ℕ) × (b : ℕ) × (c : ℕ) × (d : ℕ) × (dist ≡ weights a b c d) × (a + b + c + d ≡ 100)

ionq-Whole : (preset : ExperimentPreset) → Whole (ionq_distribution preset)
unfolding ionq_distribution
ionq-Whole latency = (45, 25, 18, 12, refl, refl)
ionq-Whole backend_compare = (48, 19, 19, 14, refl, refl)
ionq-Whole hello_quantum_sim = (66, 17, 11, 6, refl, refl)
ionq-Whole health = (60, 20, 12, 8, refl, refl)
ionq-Whole dpd_demo = (60, 20, 12, 8, refl, refl)
ionq-Whole grover_demo = (60, 20, 12, 8, refl, refl)
ionq-Whole multicall_dual_clocking = (60, 20, 12, 8, refl, refl)

azure-Whole : (preset : ExperimentPreset) → Whole (azure_distribution preset)
unfolding azure_distribution
azure-Whole latency = (52, 18, 17, 13, refl, refl)
azure-Whole backend_compare = (41, 21, 20, 18, refl, refl)
azure-Whole hello_quantum_sim = (68, 18, 9, 5, refl, refl)
azure-Whole health = (60, 22, 10, 8, refl, refl)
azure-Whole dpd_demo = (60, 22, 10, 8, refl, refl)
azure-Whole grover_demo = (60, 22, 10, 8, refl, refl)
azure-Whole multicall_dual_clocking = (60, 22, 10, 8, refl, refl)

rigetti-Whole : (preset : ExperimentPreset) → Whole (rigetti_distribution preset)
unfolding rigetti_distribution
rigetti-Whole latency = (50, 20, 16, 14, refl, refl)
rigetti-Whole backend_compare = (46, 18, 19, 17, refl, refl)
rigetti-Whole hello_quantum_sim = (65, 16, 13, 6, refl, refl)
rigetti-Whole health = (58, 24, 10, 8, refl, refl)
rigetti-Whole dpd_demo = (58, 24, 10, 8, refl, refl)
rigetti-Whole grover_demo = (58, 24, 10, 8, refl, refl)
rigetti-Whole multicall_dual_clocking = (58, 24, 10, 8, refl, refl)

module _ {Real : Type 0} (rng : Random Real) (fair : IsFair rng) where
  sampled-Accounted :
      (a b c d : ℕ) (budget : ℤ) (cap : ℕ)
      → a + b + c + d ≡ 100
      → 1 ≤ cap
      → Accounted budget cap (sampled (weights a b c d) (clamp_shots budget cap) rng)
  unfolding sampled sample_counts keys sum_of zero_counts
  sampled-Accounted a b c d budget cap whole one =
      let shots = clamp_shots budget cap in
      let (many, among) = fair shots in
      let (same, total) =
        count_draws-lem (rng.choices shots) (zero_counts (weights a b c d)) among in
      record {
        outcomes = same;
        counted = omega (arith, total, many);
        positive = omega arith;
        capped = omega (arith, one);
        within = omega arith;
        normalised = omega (arith, whole);
      }

  sampled-Whole-Accounted :
      (dist : Dict ℕ) (budget : ℤ) (cap : ℕ)
      → Whole dist
      → 1 ≤ cap
      → Accounted budget cap (sampled dist (clamp_shots budget cap) rng)
  sampled-Whole-Accounted dist budget cap (a, b, c, d, e, whole) one =
      rw e (sampled-Accounted a b c d budget cap whole one)

  -- What a client of a vendor's stub answers: a missing credential comes before a service that
  -- cannot take the run, and that before the run.
  abbrev pub Answers :
      Option String
      → Bool
      → ErrorCode
      → ℤ
      → ℕ
      → Result ProviderClientError (ProviderLiveResult Real)
      → Type 0
  Answers credential is_full full budget cap answer =
      ((is_given credential ≡ false)
        × (e : ProviderClientError) × (answer ≡ raise e)
        × (e.code ≡ provider_credentials))
      ⊎ ((is_given credential ≡ true)
          × (is_full ≡ true)
          × (e : ProviderClientError) × (answer ≡ raise e)
          × (e.code ≡ full))
      ⊎ ((is_given credential ≡ true)
          × (is_full ≡ false)
          × (r : ProviderLiveResult Real) × (answer ≡ ok r)
          × Accounted budget cap r)

  stub-Answers :
      (credential : Option String) (is_full : Bool) (full : ErrorCode) (budget : ℤ) (cap : ℕ)
      → (lacks busy : ProviderClientError) (r : ProviderLiveResult Real)
      → lacks.code ≡ provider_credentials
      → busy.code ≡ full
      → Accounted budget cap r
      → Answers credential is_full full budget cap
          (if not (is_given credential) then raise lacks else if is_full then raise busy else ok r)
  stub-Answers credential is_full full budget cap lacks busy r e e' acc =
      elim (Bool-cases (is_given credential)) [
        | inr none_given ↦ inl (none_given, lacks, rw none_given refl, e)
        | inl given ↦ elim (Bool-cases is_full) [
          | inl f ↦ inr (inl (given, f, busy, rw (given, f) refl, e'))
          | inr f ↦ inr (inr (given, f, r, rw (given, f) refl, acc))
        ]
      ]

  -- Each of the three clients accounts for its shots, for every preset and budget; the two stubs of
  -- a vendor answer by their credential and their state.
  pub clients-Accounted :
      (preset : ExperimentPreset) (budget : ℤ) (credential : Option String) (is_full : Bool)
      → ((r : ProviderLiveResult Real) × (ionq_run preset budget rng ≡ ok r)
          × Accounted budget 100000 r)
        × Answers credential is_full provider_queue_backpressure budget 500000
            (azure_run credential is_full preset budget rng)
        × Answers credential is_full provider_capacity budget 100000
            (rigetti_run credential is_full preset budget rng)
  unfolding ionq_run azure_run rigetti_run
  clients-Accounted preset budget credential is_full =
      let ionq = sampled-Whole-Accounted _ budget 100000 (ionq-Whole preset) (omega arith) in
      let azure = sampled-Whole-Accounted _ budget 500000 (azure-Whole preset) (omega arith) in
      let rigetti = sampled-Whole-Accounted _ budget 100000 (rigetti-Whole preset) (omega arith) in
      (
        (_, refl, ionq),
        stub-Answers credential is_full provider_queue_backpressure budget 500000 _ _ _ refl refl
            azure,
        stub-Answers credential is_full provider_capacity budget 100000 _ _ _ refl refl rigetti,
      )
