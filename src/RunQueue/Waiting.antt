-- ===== src/RunQueue/Waiting.antt =====
-- The waiting list of backend/synqc_backend/run_queue.py: each job in it has a hash that
-- `claim_next` can read.
use syn_qc_temporal_dynamics.Prelude.{
  ℕ, String, str_eq, ◌≡◌, refl, ap, ◌∙◌, false, Option, none, some, List, [], ◌∷◌, ◌++◌, Bool-cases,
  inl, inr, All,
}
use syn_qc_temporal_dynamics.Prelude.Int.{ℤ, pos, negsuc}
use syn_qc_temporal_dynamics.Dict.{Dict, get}
use syn_qc_temporal_dynamics.Models.{
  Detail, ErrorCode, code_value, RunExperimentRequest, RunExperimentResponse,
}
use syn_qc_temporal_dynamics.RunQueue.Redis.{Value, number, request, RunServer}
use syn_qc_temporal_dynamics.RunQueue.Keys.{
  job_key-status_counts, job_key-failure_code, job_key-failure_target, apart_sym,
}
use syn_qc_temporal_dynamics.RunQueue.{
  QueuedRun, job_key, queue_key, status_counts_key, failure_code_key, failure_target_key,
  count_target, mark_running, complete_success, complete_failure,
}

pub All-append :
    {A : Type 0} (P : A → Type 0) (xs ys : List A) → All P xs → All P ys → All P (xs ++ ys)
All-append P [] ys p q = q
All-append P (x ∷ xs) ys p q = (p.0, All-append P xs ys p.1 q)

pub All-map :
    {A : Type 0} (P Q : A → Type 0) (xs : List A) → ((x : A) → P x → Q x) → All P xs → All Q xs
All-map P Q [] f p = tt
All-map P Q (x ∷ xs) f p = (f x p.0, All-map P Q xs f p.1)

module _ {Real : Type 0} (redis : RunServer Real) where
  open redis use {
    Server, fields, counts, items, hset, hincrby, rpush, blpop, zadd, field-hset, field-hincrby,
    field-rpush, field-blpop, field-zadd, items-hset, items-hincrby, items-rpush, items-zadd,
  }

  -- The hash of a job has a request and a time.
  abbrev pub HasRequest : Server → String → Type 0
  HasRequest s id =
      (r : RunExperimentRequest Real) × (n : ℕ) × (get "request_json" (fields (job_key id) s)
        ≡ some (request r))
      × (get "created_at" (fields (job_key id) s) ≡ some (number n))

  -- The waiting list is as given, and each of its jobs has a request.
  pub record Waits (ids : List String) (s : Server) : Type 0 where
    pub listed : items queue_key s ≡ ids
    pub readable : All (HasRequest s) ids

  pub same-HasRequest :
      (s s' : Server) (id : String)
      → fields (job_key id) s' ≡ fields (job_key id) s
      → HasRequest s id
      → HasRequest s' id
  same-HasRequest s s' id same (r, n, a, b) =
      (r, n, ap (λ d. get "request_json" d) same ∙ a, ap (λ d. get "created_at" d) same ∙ b)

  pub same-Waits :
      (ids : List String) (s s' : Server)
      → items queue_key s' ≡ items queue_key s
      → ((id : String) → fields (job_key id) s' ≡ fields (job_key id) s)
      → Waits ids s
      → Waits ids s'
  same-Waits ids s s' list same w = record {
    listed = list ∙ w.listed;
    readable =
        All-map (HasRequest s) (HasRequest s') ids (λ id. same-HasRequest s s' id (same id))
          w.readable;
  }

  -- A write that keeps the request and gives a time.
  hset-HasRequest :
      (k id : String) (m : Dict (Value Real)) (c : ℕ) (s : Server)
      → get "request_json" m ≡ none
      → get "created_at" m ≡ some (number c)
      → HasRequest s id
      → HasRequest (hset k m s) id
  hset-HasRequest k id m c s keeps gives (r, n, a, b) = elim (Bool-cases (str_eq k (job_key id))) [
    | inl e ↦ (
      r,
      c,
      field-hset k (job_key id) "request_json" m s ∙ rw (e, keeps) a,
      field-hset k (job_key id) "created_at" m s ∙ rw (e, gives) refl,
    )
    | inr e ↦ (
      r,
      n,
      field-hset k (job_key id) "request_json" m s ∙ rw e a,
      field-hset k (job_key id) "created_at" m s ∙ rw e b,
    )
  ]

  hset-Waits :
      (ids : List String) (k : String) (m : Dict (Value Real)) (c : ℕ) (s : Server)
      → get "request_json" m ≡ none
      → get "created_at" m ≡ some (number c)
      → Waits ids s
      → Waits ids (hset k m s)
  hset-Waits ids k m c s keeps gives w = record {
    listed = items-hset k queue_key m s ∙ w.listed;
    readable =
        All-map (HasRequest s) (HasRequest (hset k m s)) ids
          (λ id. hset-HasRequest k id m c s keeps gives) w.readable;
  }

  hincrby-Waits :
      (ids : List String) (k f : String) (d : ℤ) (s : Server)
      → ((id : String) → str_eq (job_key id) k ≡ false)
      → Waits ids s
      → Waits ids (hincrby k f d s)
  hincrby-Waits ids k f d s apart =
      same-Waits ids s (hincrby k f d s) (items-hincrby k queue_key f d s)
        (λ id. field-hincrby k (job_key id) f d s (apart_sym (job_key id) k (apart id)))

  pub status-Waits :
      (ids : List String) (f : String) (d : ℤ) (s : Server)
      → Waits ids s
      → Waits ids (hincrby status_counts_key f d s)
  status-Waits ids f d s = hincrby-Waits ids status_counts_key f d s job_key-status_counts

  pub mark_running-Waits :
      (ids : List String) (now : ℕ) (job : QueuedRun Real) (s : Server)
      → Waits ids s
      → Waits ids (mark_running redis now job s).0
  unfolding mark_running get
  mark_running-Waits ids now job s w = status-Waits ids "running" (pos 1) _ (
      status-Waits ids "queued" (negsuc 0) _
        (hset-Waits ids (job_key job.id) _ job.created_at s refl refl w))

  pub complete_success-Waits :
      (ids : List String) (now : ℕ) (job : QueuedRun Real) (result : RunExperimentResponse Real)
      (s : Server)
      → Waits ids s
      → Waits ids (complete_success redis now job result s).0
  unfolding complete_success get
  complete_success-Waits ids now job result s w = status-Waits ids "succeeded" (pos 1) _ (
      status-Waits ids "running" (negsuc 0) _
        (hset-Waits ids (job_key job.id) _ job.created_at s refl refl w))

  count_target-Waits :
      (ids : List String) (target : String) (s : Server)
      → Waits ids s
      → Waits ids (count_target redis target s)
  count_target-Waits ids target s w = elim (Bool-cases (str_eq target "")) [
    | inl e ↦ rw e w
    | inr e ↦ rw e (hincrby-Waits ids failure_target_key target (pos 1) s job_key-failure_target w)
  ]

  pub complete_failure-Waits :
      (ids : List String) (now : ℕ) (job : QueuedRun Real) (code : ErrorCode) (message : String)
      (hint : Option String) (given : Option Detail) (s : Server)
      → Waits ids s
      → Waits ids (complete_failure redis now job code message hint given s).0
  unfolding complete_failure get
  complete_failure-Waits ids now job code message hint given s w =
      count_target-Waits ids job.run_request.hardware_target _ (
        hincrby-Waits ids failure_code_key (code_value code) (pos 1) _ job_key-failure_code (
          status-Waits ids "failed" (pos 1) _ (
            status-Waits ids "running" (negsuc 0) _
              (hset-Waits ids (job_key job.id) _ job.created_at s refl refl w))))
