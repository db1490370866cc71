-- ===== src/RunQueue/Claims.antt =====
-- `enqueue` and `claim_next` of backend/synqc_backend/run_queue.py on the waiting list.
use syn_qc_temporal_dynamics.Prelude.{
  ℕ, String, str_eq, eq_iff, ◌≡◌, refl, ap, ◌∙◌, true, Option, none, some, List, [], ◌∷◌, ◌++◌,
  arith, Bool-cases, inl, inr, ok,
}
use syn_qc_temporal_dynamics.Prelude.Int.{pos}
use syn_qc_temporal_dynamics.Dict.{Dict, get}
use syn_qc_temporal_dynamics.Models.{RunExperimentRequest}
use syn_qc_temporal_dynamics.RunQueue.Redis.{Value, text, number, request, RunServer}
use syn_qc_temporal_dynamics.RunQueue.{
  QueuedRun, job_key, queue_key, recent_key, text_or, claimed, claimed_from, enqueue, claim_next,
}
use syn_qc_temporal_dynamics.RunQueue.Waiting.{
  All-append, All-map, HasRequest, same-HasRequest, Waits, status-Waits,
}

claimed-request :
    {Real : Type 0} (now n : ℕ) (id : String) (d : Dict (Value Real))
    (r : RunExperimentRequest Real)
    → get "request_json" d ≡ some (request r)
    → get "created_at" d ≡ some (number n)
    → (job : QueuedRun Real) × (claimed now id d ≡ ok (some job))
claimed-request now n id [] r a b = unfold get in absurd (ground (arith, a))
claimed-request {Real = Real} now n id (x ∷ xs) r a b =
    let job : QueuedRun Real = record {
      id = id;
      run_request = r;
      session_id = text_or "" (get "session_id" (x ∷ xs));
      created_at = n;
      started_at = none;
      finished_at = none;
    } in
    (job, rw (a, b) refl)

module _ {Real : Type 0} (redis : RunServer Real) where
  open redis use {
    Server, fields, counts, items, hset, rpush, zadd, blpop, field-hset, field-rpush, field-blpop,
    field-zadd, items-hset, items-rpush, items-zadd, blpop-empty, blpop-head, blpop-same,
    count-blpop,
  }

  claimed_from-none :
      (now : ℕ) (p : Server × Option String)
      → p.1 ≡ none
      → claimed_from redis now p ≡ (p.0, ok none)
  claimed_from-none now (s, none) e = refl
  claimed_from-none now (s, some id) e = absurd (ground (arith, e))

  claimed_from-some :
      (now : ℕ) (p : Server × Option String) (id : String)
      → p.1 ≡ some id
      → claimed_from redis now p ≡ (p.0, claimed now id (fields (job_key id) p.0))
  claimed_from-some now (s, none) id e = absurd (ground (arith, e))
  claimed_from-some now (s, some id') id e = cc (e)

  pub claim_next-empty :
      (now : ℕ) (s : Server)
      → Waits redis [] s
      → claim_next redis now s ≡ ((blpop queue_key s).0, ok none)
  unfolding claim_next
  claim_next-empty now s w =
      claimed_from-none now (blpop queue_key s) (blpop-empty queue_key s w.listed)

  pub claim_next-head :
      (now : ℕ) (x : String) (xs : List String) (s : Server)
      → Waits redis (x ∷ xs) s
      → (job : QueuedRun Real) × (claim_next redis now s ≡ ((blpop queue_key s).0, ok (some job)))
        × Waits redis xs (blpop queue_key s).0
  unfolding claim_next
  claim_next-head now x xs s w =
      let s' = (blpop queue_key s).0 in
      let (popped, rest) = blpop-head queue_key x xs s w.listed in
      let same = λ (id : String). field-blpop queue_key (job_key id) s in
      let (r, n, a, b) = w.readable.0 in
      let (job, e) =
        claimed-request now n x (fields (job_key x) s') r
          (ap (λ d. get "request_json" d) (same x) ∙ a)
          (ap (λ d. get "created_at" d) (same x) ∙ b) in
      (
        job,
        claimed_from-some now (blpop queue_key s) x popped ∙ ap (λ o. (s', o)) e,
        record {
          listed = rest;
          readable =
              All-map (HasRequest redis s) (HasRequest redis s') xs
                (λ id. same-HasRequest redis s s' id (same id)) w.readable.1;
        },
      )

  -- A write of a request and of a time.
  written-HasRequest :
      (k id : String) (m : Dict (Value Real)) (r : RunExperimentRequest Real) (c : ℕ) (s : Server)
      → get "request_json" m ≡ some (request r)
      → get "created_at" m ≡ some (number c)
      → HasRequest redis s id
      → HasRequest redis (hset k m s) id
  written-HasRequest k id m r c s a b (r', n, a', b') = elim (Bool-cases (str_eq k (job_key id))) [
    | inl e ↦ (
      r,
      c,
      field-hset k (job_key id) "request_json" m s ∙ rw (e, a) refl,
      field-hset k (job_key id) "created_at" m s ∙ rw (e, b) refl,
    )
    | inr e ↦ (
      r',
      n,
      field-hset k (job_key id) "request_json" m s ∙ rw e a',
      field-hset k (job_key id) "created_at" m s ∙ rw e b',
    )
  ]

  new-HasRequest :
      (id : String) (m : Dict (Value Real)) (r : RunExperimentRequest Real) (c : ℕ) (s : Server)
      → get "request_json" m ≡ some (request r)
      → get "created_at" m ≡ some (number c)
      → HasRequest redis (hset (job_key id) m s) id
  new-HasRequest id m r c s a b =
      let same : str_eq (job_key id) (job_key id) ≡ true =
        (eq_iff (job_key id) (job_key id)).1 refl in
      (
        r,
        c,
        field-hset (job_key id) (job_key id) "request_json" m s ∙ rw (same, a) refl,
        field-hset (job_key id) (job_key id) "created_at" m s ∙ rw (same, b) refl,
      )

  pushed-Waits :
      (ids : List String) (id : String) (now : ℕ) (s : Server)
      → Waits redis ids s
      → HasRequest redis s id
      → Waits redis (ids ++ (id ∷ [])) (zadd recent_key id now (rpush queue_key id s))
  pushed-Waits ids id now s w h =
      let s' = zadd recent_key id now (rpush queue_key id s) in
      let same = λ (j : String).
        field-zadd recent_key (job_key j) id now (rpush queue_key id s)
        ∙ field-rpush queue_key (job_key j) id s in
      record {
        listed =
            items-zadd recent_key queue_key id now (rpush queue_key id s)
            ∙ items-rpush queue_key queue_key id s
            ∙ ap (λ xs. xs ++ (id ∷ [])) w.listed;
        readable =
            All-append (HasRequest redis s') ids (id ∷ [])
              (All-map (HasRequest redis s) (HasRequest redis s') ids
                (λ j. same-HasRequest redis s s' j (same j)) w.readable)
              (same-HasRequest redis s s' id (same id) h, tt);
      }

  pub enqueue-Waits :
      (ids : List String) (now : ℕ) (id sid : String) (req : RunExperimentRequest Real) (s : Server)
      → Waits redis ids s
      → Waits redis (ids ++ (id ∷ [])) (enqueue redis now id req sid s)
  unfolding enqueue get
  enqueue-Waits ids now id sid req s w =
      let m : Dict (Value Real) =
        ("status", text "queued")
        ∷ ("created_at", number now)
        ∷ ("session_id", text sid)
        ∷ ("request_json", request req)
        ∷ [] in
      let stored = hset (job_key id) m s in
      status-Waits redis (ids ++ (id ∷ [])) "queued" (pos 1) _ (
        pushed-Waits ids id now stored
          (record {
            listed = items-hset (job_key id) queue_key m s ∙ w.listed;
            readable =
                All-map (HasRequest redis s) (HasRequest redis stored) ids
                  (λ j. written-HasRequest (job_key id) j m req now s refl refl) w.readable;
          })
          (new-HasRequest id m req now s refl refl))

  pub blpop_empty-Waits : (s : Server) → Waits redis [] s → Waits redis [] (blpop queue_key s).0
  blpop_empty-Waits s w = record { listed = blpop-same queue_key s w.listed; readable = tt }
