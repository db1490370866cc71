-- ===== src/Shor/Factor.antt =====
-- synqc_shor/classical_factor.py and factor.py: trial division and the choice of a method. The
-- outcome of Pollard's random search and of the quantum backend are arguments; the timings are left
-- out, and a step has its name, whether it succeeded, and its detail.
pub mod Trial
pub mod Fallback
use Prim.Native.String.{◌++◌ as str_append}
use syn_qc_temporal_dynamics.Prelude.{
  ℕ, zero, suc, ◌+◌, ◌*◌, ◌/◌, ◌%◌, ◌^◌, String, Bool, true, false, Option, none, some, List, [],
  ◌∷◌, ◌++◌, ltb, leb, ◌==◌, if◌then◌else◌, min, max, Result, ok, raise,
}

-- `math.isqrt`
unfoldable pub isqrt : ℕ → ℕ
isqrt zero = 0
isqrt (suc n) = let r = isqrt n in if leb ((r + 1) * (r + 1)) (suc n) then r + 1 else r

-- `while f <= limit`, on fuel.
unfoldable pub trial_loop : ℕ → ℕ → ℕ → ℕ → Option (ℕ × ℕ)
trial_loop zero n limit f = none
trial_loop (suc fuel) n limit f =
    let rest = trial_loop fuel n limit (f + 2) in
    if leb f limit then (if n % f == 0 then some (f, n / f) else rest) else none

-- `_trial_division`: the loop starts at 3 and makes steps of 2, so that `isqrt n` is fuel enough.
unfoldable pub trial_division : ℕ → Option (ℕ × ℕ)
unfolding isqrt trial_loop
trial_division n = if n % 2 == 0 then some (2, n / 2) else trial_loop (isqrt n) n (isqrt n) 3

-- The exceptions, and the search that never ends.
pub data FactorError : Type 0 where
  value_error : String → FactorError
  backend_error : String → FactorError
  runs_on : FactorError

abbrev pub sorted_pair : ℕ → ℕ → ℕ × ℕ
sorted_pair p q = (min p q, max p q)

-- What follows Pollard's search, which may not return.
abbrev pub check_rho : ℕ → Option ℕ → Result FactorError (ℕ × ℕ)
check_rho n none = raise runs_on
check_rho n (some p) =
    if p * (n / p) == n
    then ok (sorted_pair p (n / p))
    else raise (value_error "Failed to factor N")

unfoldable pub factor_semiprime : Option ℕ → ℕ → Result FactorError (ℕ × ℕ)
unfolding trial_division
factor_semiprime rho n =
    if leb n 1
    then raise (value_error "N must be > 1")
    else if n % 2 == 0
    then ok (2, n / 2)
    else elim (trial_division n) [ some (p, q) ↦ ok (sorted_pair p q) | none ↦ check_rho n rho ]

pub record StepTiming : Type 0 where
  pub name : String
  pub is_ok : Bool
  pub detail : Option String

pub record FactorResult : Type 0 where
  pub n : ℕ
  pub p : ℕ
  pub q : ℕ
  pub method_used : String
  pub steps : List StepTiming

-- `method.lower().strip()`, where an empty method is `auto`.
pub data Method : Type 0 where
  auto qiskit classical : Method
  unknown : String → Method

abbrev pub done : String → StepTiming
done name = record { name = name; is_ok = true; detail = none }

-- The classical branch, after the steps before it.
abbrev pub classical_result :
    ℕ → List StepTiming → Result FactorError (ℕ × ℕ) → Result FactorError FactorResult
classical_result n steps (raise e) = raise e
classical_result n steps (ok (p, q)) = ok (record {
  n = n;
  p = p;
  q = q;
  method_used = "classical_fallback";
  steps = steps ++ done "classical_factor" ∷ [];
})

-- What the quantum backend answers: two factors and the mode of the backend, or an exception.
abbrev pub Quantum : Type 0
Quantum = Result String (ℕ × ℕ × String)

abbrev pub quantum_result : ℕ → ℕ × ℕ × String → FactorResult
quantum_result n (p, q, backend_mode) = record {
  n = n;
  p = p;
  q = q;
  method_used = str_append "qiskit_shor:" backend_mode;
  steps = done "validate" ∷ done "qiskit_shor" ∷ [];
}

abbrev pub failed_step : String → StepTiming
failed_step what = record { name = "qiskit_shor"; is_ok = false; detail = some what }

-- The branch `auto` where Qiskit is available.
abbrev pub quantum_or_classical : Option ℕ → ℕ → Quantum → Result FactorError FactorResult
quantum_or_classical rho n (ok answer) = ok (quantum_result n answer)
quantum_or_classical rho n (raise what) =
    classical_result n (done "validate" ∷ failed_step what ∷ []) (factor_semiprime rho n)

abbrev pub quantum_only : ℕ → Quantum → Result FactorError FactorResult
quantum_only n (ok answer) = ok (quantum_result n answer)
quantum_only n (raise what) = raise (backend_error what)

-- The dispatch on the method.
unfoldable pub run_method : Bool → Quantum → Option ℕ → ℕ → Method → Result FactorError FactorResult
run_method available quantum rho n classical =
    classical_result n (done "validate" ∷ []) (factor_semiprime rho n)
run_method available quantum rho n qiskit = quantum_only n quantum
run_method available quantum rho n auto =
    if available
    then quantum_or_classical rho n quantum
    else classical_result n (done "validate" ∷ []) (factor_semiprime rho n)
run_method available quantum rho n (unknown m) =
    raise (value_error (str_append "Unknown method: " m))

-- `_validate_N`, on a bound of the number of bits, and the method.
unfoldable pub factor : ℕ → Bool → Quantum → Option ℕ → ℕ → Method → Result FactorError FactorResult
unfolding run_method
factor max_bits available quantum rho n method =
    if leb n 3
    then raise (value_error "N must be > 3")
    else if ltb n (2 ^ max_bits)
    then run_method available quantum rho n method
    else raise (value_error "N too large for demo")
