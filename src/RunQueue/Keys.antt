-- ===== src/RunQueue/Keys.antt =====
-- The keys of backend/synqc_backend/run_queue.py are apart from each other.
use Prim.Native.Char.{Char, code}
use Prim.Native.String.{◌++◌ as str_append}
use text.Mathlib.TextLemmas.{append_cancel_left, append_assoc, cons-append, head-eq_of_cons-eq}
use syn_qc_temporal_dynamics.Prelude.{
  String, str_eq, eq_iff, ◌≡◌, refl, sym, ap, ◌∙◌, false, arith, Bool-cases, inl, inr,
}
use syn_qc_temporal_dynamics.RunQueue.{
  job_key, status_counts_key, failure_code_key, failure_target_key,
}

-- What follows the common prefix begins with another letter than `j`.
job_key-ne :
    (job_id rest key : String)
    → str_append "synqc:runq:" rest ≡ key
    → (str_append "job:" job_id ≡ rest → ⊥)
    → str_eq (job_key job_id) key ≡ false
unfolding job_key
job_key-ne job_id rest key split apart =
    elim (Bool-cases (str_eq (str_append "synqc:runq:job:" job_id) key)) [
      | inr e ↦ e
      | inl e ↦ absurd (
          apart (
            append_cancel_left "synqc:runq:" (str_append "job:" job_id) rest (
              sym (append_assoc "synqc:runq:" "job:" job_id)
              ∙ (eq_iff (str_append "synqc:runq:job:" job_id) key).0 e
              ∙ sym split)))
    ]

head_ne :
    (c : Char) (rest job_id : String)
    → (code "j" ≡ code c → ⊥)
    → str_append "job:" job_id ≡ String.◌∷◌ c rest
    → ⊥
head_ne c rest job_id ne e =
    ne (ap code (head-eq_of_cons-eq (sym (cons-append "j" "ob:" job_id) ∙ e)))

pub job_key-status_counts : (id : String) → str_eq (job_key id) status_counts_key ≡ false
job_key-status_counts id =
    job_key-ne id "status_counts" status_counts_key refl
      (head_ne "s" "tatus_counts" id (λ e. absurd (omega (arith, e))))

pub job_key-failure_code : (id : String) → str_eq (job_key id) failure_code_key ≡ false
job_key-failure_code id =
    job_key-ne id "failure_codes" failure_code_key refl
      (head_ne "f" "ailure_codes" id (λ e. absurd (omega (arith, e))))

pub job_key-failure_target : (id : String) → str_eq (job_key id) failure_target_key ≡ false
job_key-failure_target id =
    job_key-ne id "failures_by_target" failure_target_key refl
      (head_ne "f" "ailures_by_target" id (λ e. absurd (omega (arith, e))))

-- A comparison of keys does not depend on the side.
pub apart_sym : (a b : String) → str_eq a b ≡ false → str_eq b a ≡ false
apart_sym a b h = ground (arith, h, eq_iff a b, eq_iff b a)
