-- ===== src/Jobs/Failures.antt =====
-- What holds of `JobQueue` (backend/synqc_backend/jobs.py) in every interleaving: a job that has
-- ended stays as it ended.
use syn_qc_temporal_dynamics.Prelude.{
  ℕ, String, str_eq, eq_iff, true, Option, none, some, [], ◌∷◌, ◌≡◌, refl, ◌⊎◌, inl, inr, arith,
  Bool-cases, Option-cases, ◌∙◌, subst, sym,
}
use syn_qc_temporal_dynamics.Dict.{
  Dict, get, put, get-put, get-put_ne, get-put_eq, get-pop, Unique, put-Unique, pop-Unique,
}
use syn_qc_temporal_dynamics.Models.{ErrorCode, Detail, RunExperimentRequest}
use syn_qc_temporal_dynamics.Jobs.Records.{queued, JobRecord, new_record, is_terminal}
use syn_qc_temporal_dynamics.Jobs.{
  Task, pending, working, closing, finished, JobQueue, insert, submit, fail_job, cancel,
  timeout_job, Outcome, returned, budget_exceeded, provider_failed, value_error, other_error,
  shutdown, cancel_future, cancel_all, cancel_task,
}
use syn_qc_temporal_dynamics.Jobs.Threads.{start, fail_record, settle, complete, finalize}
use syn_qc_temporal_dynamics.Jobs.Steps.{
  Step, inserts, submits, cancels, times_out, starts, completes, finalizes, shuts, Reach, here,
  next, Moves, begins, succeeds, stamps, stays, Change, idle, adds, moves, fails, is_started,
  is_taken, started_or, Linked, Step-Change, failed_record,
}

module _ (Real : Type 0) where
  taken-cancel_future :
      (id k : String) (futures : Dict Task)
      → is_taken Real (get k futures) ≡ true
      → is_taken Real (get k (cancel_future Real id futures)) ≡ true
  unfolding cancel_future
  taken-cancel_future id k futures h = elim (Option-cases (get id futures)) [
    | inl e ↦ rw (e, cancel_future) h
    | inr (task, e) ↦
        ground (arith, e, h, eq_iff id k, get-put id k (cancel_task Real task) futures)
  ]

  taken-cancel_all :
      (k : String) (futures : Dict Task)
      → is_taken Real (get k futures) ≡ true
      → is_taken Real (get k (cancel_all Real futures)) ≡ true
  unfolding cancel_all get
  taken-cancel_all k [] h = h
  taken-cancel_all k ((j, task) ∷ futures) h = ground (arith, taken-cancel_all k futures)

  -- A step takes no future back from a job that a thread has started.
  Keeps : JobQueue Real → JobQueue Real → Type 0
  Keeps q q' =
      (k : String)
      → started_or Real (get k q.jobs) ≡ true
      → is_taken Real (get k q.futures) ≡ true
      → is_taken Real (get k q'.futures) ≡ true

  fail_record-futures :
      (q : JobQueue Real) (written : Option ℕ) (now : ℕ) (id : String) (code : ErrorCode)
      (message : String) (extra : Option Detail) (hint : Option String)
      → (fail_record Real written now id code message extra hint q).futures ≡ q.futures
  unfolding fail_record
  fail_record-futures q written now id code message extra hint = ground arith

  settle-futures :
      (q : JobQueue Real) (written : Option ℕ) (now : ℕ) (id : String) (outcome : Outcome Real)
      → (settle Real written now id outcome q).futures ≡ q.futures
  unfolding settle
  settle-futures q written now id (returned result) = ground arith
  settle-futures q written now id (budget_exceeded message remaining) = ground arith
  settle-futures q written now id (provider_failed code message hint detail) = ground arith
  settle-futures q written now id (value_error message) = ground arith
  settle-futures q written now id (other_error message) = ground arith

  Step-Keeps : (q q' : JobQueue Real) → Unique q.futures → Step Real q q' → Keeps q q'
  unfolding Keeps insert submit cancel timeout_job start complete finalize shutdown
  Step-Keeps q _ u (inserts id now req n) k s h =
      ground (arith, eq_iff id k, get-pop id k q.futures u)
  Step-Keeps q _ u (submits id n) k s h =
      ground (arith, eq_iff id k, get-put id k pending q.futures)
  Step-Keeps q _ u (cancels written now id reason) k s h =
      ground (arith, taken-cancel_future id k q.futures)
  Step-Keeps q _ u (times_out written now id) k s h =
      ground (arith, taken-cancel_future id k q.futures)
  Step-Keeps q _ u (starts now id p) k s h =
      ground (arith, get-put id k working q.futures, get-put id k finished q.futures)
  Step-Keeps q _ u (completes written now id outcome p) k s h = ground (
    arith,
    settle-futures q written now id outcome,
    get-put id k closing (settle Real written now id outcome q).futures,
  )
  Step-Keeps q _ u (finalizes now id p) k s h = ground (arith, get-put id k finished q.futures)
  Step-Keeps q _ u shuts k s h = ground (arith, taken-cancel_all k q.futures)

  started-Moves :
      (r r' : JobRecord Real)
      → Moves Real r r'
      → is_started Real r'.status ≡ true
      → is_started Real r.status ≡ true ⊎ (r.status ≡ queued)
  started-Moves r _ (begins now e) h = inr e
  started-Moves r _ (succeeds result e) h = inl (ground arith)
  started-Moves r _ (stamps now e t) h = inl h
  started-Moves r _ stays h = inl h

  Linked-Change :
      (q q' : JobQueue Real) → Change Real q q' → Keeps q q' → Linked Real q → Linked Real q'
  unfolding Linked Keeps
  Linked-Change q q' (idle a b) keeps linked k s = ground (arith, keeps k, linked k)
  Linked-Change q q' (adds id now req n a b) keeps linked k s =
      ground (
        arith,
        new-queued id now req,
        get-put id k (new_record id now req) q.jobs,
        keeps k,
        linked k,
      )
    where
      new-queued :
          (id' : String) (now' : ℕ) (req' : RunExperimentRequest Real)
          → (new_record id' now' req').status ≡ queued
      new-queued id' now' req' = unfold new_record in refl
  Linked-Change q q' (moves id r r' g m t a b) keeps linked k s =
      ground (arith, eq_iff id k, get-put id k r' q.jobs, keeps k, linked k)
  Linked-Change q q' (fails id r now error code message hint detail g act a b) keeps linked k s =
      ground (
        arith,
        get-put id k (failed_record Real now error code message hint detail r) q.jobs,
        keeps k,
        linked k,
      )

  -- What every step keeps.
  pub record Inv (q : JobQueue Real) : Type 0 where
    pub unique_jobs : Unique q.jobs
    pub unique_futures : Unique q.futures
    pub linked : Linked Real q

  Change-Unique : (q q' : JobQueue Real) → Change Real q q' → Unique q.jobs → Unique q'.jobs
  Change-Unique q q' (idle a b) u = subst Unique (sym a) u
  Change-Unique q q' (adds id now req n a b) u =
      subst Unique (sym a) (put-Unique id (new_record id now req) q.jobs u)
  Change-Unique q q' (moves id r r' g m t a b) u = subst Unique (sym a) (put-Unique id r' q.jobs u)
  Change-Unique q q' (fails id r now error code message hint detail g act a b) u =
      subst Unique (sym a)
        (put-Unique id (failed_record Real now error code message hint detail r) q.jobs u)

  cancel_future-Unique :
      (id : String) (futures : Dict Task) → Unique futures → Unique (cancel_future Real id futures)
  unfolding cancel_future
  cancel_future-Unique id futures u = elim (Option-cases (get id futures)) [
    | inl e ↦ rw (e, cancel_future) u
    | inr (task, e) ↦ rw (e, cancel_future) (put-Unique id (cancel_task Real task) futures u)
  ]

  get-cancel_all :
      (k : String) (futures : Dict Task)
      → get k futures ≡ none
      → get k (cancel_all Real futures) ≡ none
  unfolding get cancel_all
  get-cancel_all k [] h = h
  get-cancel_all k ((j, task) ∷ futures) h = ground (arith, get-cancel_all k futures)

  pub cancel_all-Unique : (futures : Dict Task) → Unique futures → Unique (cancel_all Real futures)
  unfolding cancel_all
  cancel_all-Unique [] u = u
  cancel_all-Unique ((j, task) ∷ futures) u =
      (get-cancel_all j futures u.0, cancel_all-Unique futures u.1)

  Step-Unique_futures :
      (q q' : JobQueue Real) → Step Real q q' → Unique q.futures → Unique q'.futures
  unfolding insert submit cancel fail_job timeout_job start complete finalize shutdown
  Step-Unique_futures q _ (inserts id now req n) u = pop-Unique id q.futures u
  Step-Unique_futures q _ (submits id n) u = ground (arith, put-Unique id pending q.futures u)
  Step-Unique_futures q _ (cancels written now id reason) u =
      ground (arith, cancel_future-Unique id q.futures u)
  Step-Unique_futures q _ (times_out written now id) u =
      ground (arith, cancel_future-Unique id q.futures u)
  Step-Unique_futures q _ (starts now id p) u =
      ground (arith, put-Unique id finished q.futures u, put-Unique id working q.futures u)
  Step-Unique_futures q _ (completes written now id outcome p) u =
      put-Unique id closing _ (subst Unique (sym (settle-futures q written now id outcome)) u)
  Step-Unique_futures q _ (finalizes now id p) u =
      ground (arith, put-Unique id finished q.futures u)
  Step-Unique_futures q _ shuts u = cancel_all-Unique q.futures u

  pub Step-Inv : (q q' : JobQueue Real) → Step Real q q' → Inv q → Inv q'
  Step-Inv q q' st v = record {
    unique_jobs = Change-Unique q q' (Step-Change Real q q' v.linked st) v.unique_jobs;
    unique_futures = Step-Unique_futures q q' st v.unique_futures;
    linked =
        Linked-Change q q' (Step-Change Real q q' v.linked st) (Step-Keeps q q' v.unique_futures st)
          v.linked;
  }

  pub Reach-Inv : (q q' : JobQueue Real) → Reach Real q q' → Inv q → Inv q'
  Reach-Inv q _ here v = v
  Reach-Inv q _ (next {q' = p} {q'' = p'} reach st) v = Step-Inv p p' st (Reach-Inv q p reach v)

  -- The record that a job ended with, in all but the time at which it was seen to end.
  abbrev pub EndedAs : JobRecord Real → Option (JobRecord Real) → Type 0
  EndedAs r none = ⊥
  EndedAs r (some r') =
      (r'.status ≡ r.status)
      × (r'.result ≡ r.result)
      × (r'.error ≡ r.error)
      × (r'.error_code ≡ r.error_code)
      × (r'.error_message ≡ r.error_message)
      × (r'.error_detail ≡ r.error_detail)
      × (r'.started_at ≡ r.started_at)

  ended-Moves :
      (r r' : JobRecord Real) → Moves Real r r' → is_terminal r.status ≡ true → EndedAs r (some r')
  ended-Moves r _ (begins now e) t = absurd (ground arith)
  ended-Moves r _ (succeeds result e) t = absurd (ground arith)
  ended-Moves r _ (stamps now e h) t = (refl, refl, refl, refl, refl, refl, refl)
  ended-Moves r _ stays t = (refl, refl, refl, refl, refl, refl, refl)

  ended_refl : (r : JobRecord Real) → EndedAs r (some r)
  ended_refl r = (refl, refl, refl, refl, refl, refl, refl)

  -- A write under another id changes nothing here.
  ended-put :
      (jobs : Dict (JobRecord Real)) (id k : String) (r v : JobRecord Real)
      → get k jobs ≡ some r
      → (str_eq id k ≡ true → EndedAs r (some v))
      → EndedAs r (get k (put id v jobs))
  ended-put jobs id k r v g same = elim (Bool-cases (str_eq id k)) [
    | inl e ↦ rw (get-put_eq id k v jobs e) (same e)
    | inr e ↦ rw (get-put_ne id k v jobs e, g) (ended_refl r)
  ]

  ended-Change :
      (q q' : JobQueue Real) (k : String) (r : JobRecord Real)
      → Change Real q q'
      → get k q.jobs ≡ some r
      → is_terminal r.status ≡ true
      → EndedAs r (get k q'.jobs)
  ended-Change q q' k r (idle a b) g t = rw (a, g) (ended_refl r)
  ended-Change q q' k r (adds id now req n a b) g t = rw a (
      ended-put q.jobs id k r (new_record id now req) g (λ e. absurd (ground (arith, eq_iff id k))))
  ended-Change q q' k r (moves id p p' h m u a b) g t = rw a (
      ended-put q.jobs id k r p' g
        (λ e. ended-Moves r p' (subst (λ x. Moves Real x p') (ground (arith, eq_iff id k)) m) t))
  ended-Change q q' k r (fails id p now error code message hint detail h act a b) g t = rw a (
      ended-put q.jobs id k r (failed_record Real now error code message hint detail p) g
        (λ e. absurd (ground (arith, eq_iff id k))))

  ended_terminal :
      (r : JobRecord Real) (o : Option (JobRecord Real))
      → EndedAs r o
      → is_terminal r.status ≡ true
      → (r' : JobRecord Real) × (o ≡ some r') × (is_terminal r'.status ≡ true) × EndedAs r (some r')
  ended_terminal r none e t = absurd e
  ended_terminal r (some r') e t = (r', refl, rw e.0 t, e)

  -- Whatever the threads do afterwards, in any order, a job that has succeeded, failed, timed out
  -- or been cancelled keeps its status, its result and its error: the first ending wins.
  pub Reach-ended :
      (q q' : JobQueue Real) (k : String) (r : JobRecord Real)
      → Inv q
      → Reach Real q q'
      → get k q.jobs ≡ some r
      → is_terminal r.status ≡ true
      → EndedAs r (get k q'.jobs)
  Reach-ended q _ k r v here g t = rw g (ended_refl r)
  Reach-ended q _ k r v (next {q' = p} {q'' = p'} reach st) g t =
      let before = Reach-ended q p k r v reach g t in
      let (r', g', t', e) = ended_terminal r (get k p.jobs) before t in
      let after =
        ended-Change p p' k r' (Step-Change Real p p' (Reach-Inv q p reach v).linked st) g' t' in
      let (r'', g'', t'', e') = ended_terminal r' (get k p'.jobs) after t' in
      rw g'' (e'.0 ∙ e.0, e'.1 ∙ e.1, e'.2 ∙ e.2, e'.3 ∙ e.3, e'.4 ∙ e.4, e'.5 ∙ e.5, e'.6 ∙ e.6)
