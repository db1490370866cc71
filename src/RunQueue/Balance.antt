-- ===== src/RunQueue/Balance.antt =====
-- `RedisRunQueue` of backend/synqc_backend/run_queue.py over every history: the counters
-- agree with the runs.
use syn_qc_temporal_dynamics.Prelude.{
  ℕ, zero, suc, ◌+◌, String, ◌≡◌, ◌⊎◌, refl, sym, ap, none, some, List, [], ◌∷◌, ◌++◌, arith, inl,
  inr, length, length-append,
}
use syn_qc_temporal_dynamics.Models.{RunExperimentRequest}
use syn_qc_temporal_dynamics.RunQueue.Redis.{RunServer}
use syn_qc_temporal_dynamics.RunQueue.{
  QueuedRun, queue_key, status_counts_key, enqueue, claim_next, mark_running, complete_success,
  complete_failure,
}
use syn_qc_temporal_dynamics.RunQueue.Counters.{
  Counted, same-Counted, enqueue-Counted, mark_running-Counted, complete_success-Counted,
  complete_failure-Counted,
}
use syn_qc_temporal_dynamics.RunQueue.Claims.{
  claim_next-empty, claim_next-head, enqueue-Waits, blpop_empty-Waits,
}
use syn_qc_temporal_dynamics.RunQueue.Traces.{
  take_at, System, Event, submit, claim, start, succeed, fail, after_claim, after_start, after_end,
  after, submitted, Balanced,
}
use syn_qc_temporal_dynamics.RunQueue.Waiting.{
  Waits, mark_running-Waits, complete_success-Waits, complete_failure-Waits,
}

length-take_at :
    {A : Type 0} (n : ℕ) (xs : List A)
    → (take_at n xs ≡ none)
      ⊎ ((y : A) × (ys : List A) × (take_at n xs ≡ some (y, ys)) × (length xs ≡ suc (length ys)))
length-take_at n [] = inl refl
length-take_at zero (x ∷ xs) = inr (x, xs, refl, refl)
length-take_at (suc n) (x ∷ xs) = elim (length-take_at n xs) [
  | inl e ↦ inl (rw e refl)
  | inr (y, ys, e, l) ↦ inr (y, x ∷ ys, rw e refl, ap suc l)
]

pub zero_more : (n : ℕ) → 0 + n ≡ n
zero_more n = omega arith

one_more : (n : ℕ) → 1 + n ≡ suc n
one_more n = omega arith

module _ {Real : Type 0} (redis : RunServer Real) where
  open redis use {Server, counts, items, blpop, count-blpop}

  -- The same with other names for the numbers of queued and running runs.
  pub balance :
      (n q r o f : ℕ) (y : System redis) (ids : List String)
      → Waits redis ids y.server
      → Counted redis q r o f y.server
      → length ids + length y.waiting ≡ q
      → length y.busy ≡ r
      → q + r + o + f ≡ n
      → Balanced redis n y
  balance n q r o f y ids w c e e' all = record {
    ids = ids;
    succeeded = o;
    failed = f;
    waits = w;
    counted = rw (e, e') c;
    all = omega (arith, e, e', all);
  }

  submit-Balanced :
      (n now : ℕ) (id sid : String) (req : RunExperimentRequest Real) (y : System redis)
      → Balanced redis n y
      → Balanced redis (suc n) (record y { server = enqueue redis now id req sid y.server })
  submit-Balanced n now id sid req y b =
      let q = length b.ids + length y.waiting in
      balance (suc n) (suc q) (length y.busy) b.succeeded b.failed
        (record y { server = enqueue redis now id req sid y.server }) (b.ids ++ (id ∷ []))
        (enqueue-Waits redis b.ids now id sid req y.server b.waits)
        (enqueue-Counted redis q (length y.busy) b.succeeded b.failed now id sid req y.server
          b.counted)
        (omega (arith, length-append b.ids (id ∷ []))) refl (omega (arith, b.all))

  claim-Balanced :
      (n now q : ℕ) (y : System redis) (ids : List String) (o f : ℕ)
      → Waits redis ids y.server
      → Counted redis q (length y.busy) o f y.server
      → length ids + length y.waiting ≡ q
      → q + length y.busy + o + f ≡ n
      → Balanced redis n (after_claim redis (claim_next redis now y.server) y)
  claim-Balanced n now q y [] o f w c e all =
      let s' = (blpop queue_key y.server).0 in
      rw (claim_next-empty redis now y.server w) (
        balance n q (length y.busy) o f (record y { server = s' }) []
          (blpop_empty-Waits redis y.server w)
          (same-Counted redis q (length y.busy) o f y.server s'
            (count-blpop queue_key status_counts_key y.server) c)
          e refl all)
  claim-Balanced n now q y (x ∷ xs) o f w c e all =
      let s' = (blpop queue_key y.server).0 in
      let (job, found, w') = claim_next-head redis now x xs y.server w in
      rw found (
        balance n q (length y.busy) o f (record y { server = s'; waiting = job ∷ y.waiting }) xs w'
          (same-Counted redis q (length y.busy) o f y.server s'
            (count-blpop queue_key status_counts_key y.server) c)
          (omega (arith, e)) refl all)

  start-Balanced :
      (n place now : ℕ) (y : System redis)
      → Balanced redis n y
      → Balanced redis n (after_start redis now (take_at place y.waiting) y)
  start-Balanced n place now y b = elim (length-take_at place y.waiting) [
    | inl e ↦ rw e b
    | inr (job, others, e, l) ↦
        let q = length b.ids + length others in
        let r = length y.busy in
        let more : length b.ids + length y.waiting ≡ suc q = omega (arith, l) in
        rw e (
          balance n q (suc r) b.succeeded b.failed
            (record {
              server = (mark_running redis now job y.server).0;
              waiting = others;
              busy = (mark_running redis now job y.server).1 ∷ y.busy;
            })
            b.ids (mark_running-Waits redis b.ids now job y.server b.waits)
            (mark_running-Counted redis q r b.succeeded b.failed now job y.server
              (rw (sym more) b.counted))
            refl refl (omega (arith, more, b.all)))
  ]

  -- A run that ends takes one from the running ones, and gives one to the ended ones.
  end-Balanced :
      (n place more_ok more_failed : ℕ) (y : System redis)
      → (finish : QueuedRun Real → Server → Server × QueuedRun Real) → more_ok + more_failed ≡ 1
      → ((job : QueuedRun Real) (ids : List String) (s : Server)
          → Waits redis ids s
          → Waits redis ids (finish job s).0)
      → ((job : QueuedRun Real) (q r o f : ℕ) (s : Server)
          → Counted redis q (suc r) o f s
          → Counted redis q r (more_ok + o) (more_failed + f) (finish job s).0)
      → Balanced redis n y
      → Balanced redis n (after_end redis finish (take_at place y.busy) y)
  end-Balanced n place mo mf y finish one keeps counts b = elim (length-take_at place y.busy) [
    | inl e ↦ rw e b
    | inr (job, others, e, l) ↦
        let q = length b.ids + length y.waiting in
        rw e (
          balance n q (length others) (mo + b.succeeded) (mf + b.failed)
            (record y { server = (finish job y.server).0; busy = others }) b.ids
            (keeps job b.ids y.server b.waits)
            (counts job q (length others) b.succeeded b.failed y.server (rw (sym l) b.counted)) refl
            refl (omega (arith, one, l, b.all)))
  ]

  pub after-Balanced :
      (n : ℕ) (e : Event redis) (y : System redis)
      → Balanced redis n y
      → Balanced redis (submitted redis (e ∷ []) + n) (after redis e y)
  unfolding after submitted
  after-Balanced n (submit now id req sid) y b =
      rw (one_more n) (submit-Balanced n now id sid req y b)
  after-Balanced n (claim now) y b = rw (zero_more n) (
      claim-Balanced n now (length b.ids + length y.waiting) y b.ids b.succeeded b.failed b.waits
        b.counted refl b.all)
  after-Balanced n (start place now) y b = rw (zero_more n) (start-Balanced n place now y b)
  after-Balanced n (succeed place now result) y b = rw (zero_more n) (
      end-Balanced n place 1 0 y (λ job s. complete_success redis now job result s) refl
        (λ job ids s w. complete_success-Waits redis ids now job result s w)
        (λ job q r o f s c.
          rw (one_more o, zero_more f) (complete_success-Counted redis q r o f now job result s c))
        b)
  after-Balanced n (fail place now code message hint given) y b = rw (zero_more n) (
      end-Balanced n place 0 1 y (λ job s. complete_failure redis now job code message hint given s)
        refl (λ job ids s w. complete_failure-Waits redis ids now job code message hint given s w)
        (λ job q r o f s c.
          rw (zero_more o, one_more f)
            (complete_failure-Counted redis q r o f now job code message hint given s c))
        b)
