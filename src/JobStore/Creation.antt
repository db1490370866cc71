-- ===== src/JobStore/Creation.antt =====
-- `create_job` of backend/synqc_backend/job_store.py, once and again with the same key.
use syn_qc_temporal_dynamics.Prelude.{
  ℕ, ◌<◌, String, str_eq, eq_iff, ◌≡◌, refl, true, false, none, some, arith, ap, ◌∙◌,
}
use syn_qc_temporal_dynamics.Dict.{get}
use syn_qc_temporal_dynamics.Models.{Detail}
use syn_qc_temporal_dynamics.JobStore.Redis.{RedisServer}
use syn_qc_temporal_dynamics.JobStore.{
  JobStatus, queued, job_key, idempotency_key, new_fields, create_job, parse_result,
}
use syn_qc_temporal_dynamics.JobStore.Fields.{IsJob, same-IsJob, field-hset_own}

module _ (redis : RedisServer) where
  open redis use {
    Server, value, set_ex, hset, expire, hgetall, value-set_ex, field-set_ex, field-expire,
  }

  new-IsJob :
      (now ttl : ℕ) (id agent : String) (input : Detail) (k : ℕ) (s : Server)
      → 0 < ttl
      → IsJob redis id queued 0 k
          (expire (job_key id) ttl (hset (job_key id) (new_fields agent now k input) s))
  unfolding get parse_result
  new-IsJob now ttl id agent input k s live =
      let m = new_fields agent now k input in
      let stored = hset (job_key id) m s in
      let kept = λ (f : String).
        ap (λ h. get f h) (field-expire (job_key id) (job_key id) ttl stored live)
        ∙ field-hset_own redis id f m s in
      record {
        created = now;
        input = input;
        status_field = kept "status";
        attempts_field = kept "attempts";
        max_field = kept "max_attempts";
        created_field = kept "created_at_unix";
        input_field = kept "run_input_json";
        cancel_field = kept "cancel_requested";
        found = none;
        result_field = ap parse_result (kept "result_json");
      }

  set_ex-IsJob :
      (key v : String) (ttl : ℕ) (id : String) (st : JobStatus) (n k : ℕ) (s : Server)
      → 0 < ttl
      → IsJob redis id st n k s
      → IsJob redis id st n k (set_ex key ttl v s)
  set_ex-IsJob key v ttl id st n k s live =
      same-IsJob redis id st n k s (set_ex key ttl v s)
        (λ f. ap (λ h. get f h) (field-set_ex key (job_key id) v ttl s live))

  create_job-free :
      (now job_ttl key_ttl k : ℕ) (id agent key : String) (input : Detail) (s : Server)
      → str_eq key "" ≡ false
      → value (idempotency_key agent key) s ≡ none
      → create_job redis now id agent input (some key) k job_ttl key_ttl s ≡ (
        set_ex
            (idempotency_key agent key)
            key_ttl
            id
            (expire (job_key id) job_ttl (hset (job_key id) (new_fields agent now k input) s)),
        id,
        false,
      )
  unfolding create_job
  create_job-free now job_ttl key_ttl k id agent key input s given free = rw (given, free) refl

  create_job-taken :
      (now job_ttl key_ttl k : ℕ) (id old agent key : String) (input : Detail) (s : Server)
      → str_eq key "" ≡ false
      → value (idempotency_key agent key) s ≡ some old
      → str_eq old "" ≡ false
      → create_job redis now id agent input (some key) k job_ttl key_ttl s ≡ (s, old, true)
  unfolding create_job
  create_job-taken now job_ttl key_ttl k id old agent key input s given taken named =
      rw (given, taken, named) refl

  -- With positive lifetimes for the job and the key, creating a job with a nonempty id under a key
  -- that is not taken stores a queued job with no attempts. Creating another under the same key, as
  -- long as the key stands, whatever its input, changes nothing on the server, and answers with the
  -- first id.
  pub create_job_twice :
      (now later job_ttl key_ttl k k' : ℕ) (id id' agent key : String) (input input' : Detail)
      → (s : Server) → 0 < job_ttl
      → 0 < key_ttl
      → str_eq id "" ≡ false
      → str_eq key "" ≡ false
      → value (idempotency_key agent key) s ≡ none
      → let r = create_job redis now id agent input (some key) k job_ttl key_ttl s in
        (r.1 ≡ id)
        × (r.2 ≡ false)
        × IsJob redis id queued 0 k r.0
        × (create_job redis later id' agent input' (some key) k' job_ttl key_ttl r.0
            ≡ (r.0, id, true))
  create_job_twice now later job_ttl key_ttl k k' id id' agent key input input' s job_lives
        key_lives named given free =
      let ikey = idempotency_key agent key in
      let stored =
        expire (job_key id) job_ttl (hset (job_key id) (new_fields agent now k input) s) in
      let s' = set_ex ikey key_ttl id stored in
      let taken : value ikey s' ≡ some id =
        ground (arith, eq_iff ikey ikey, value-set_ex ikey ikey id key_ttl stored key_lives) in
      rw (create_job-free now job_ttl key_ttl k id agent key input s given free) (
        refl,
        refl,
        set_ex-IsJob ikey id key_ttl id queued 0 k stored key_lives
            (new-IsJob now job_ttl id agent input k s job_lives),
        create_job-taken later job_ttl key_ttl k' id' id agent key input' s' given taken named,
      )
