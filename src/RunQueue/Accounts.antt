-- ===== src/RunQueue/Accounts.antt =====
-- The statistics of backend/synqc_backend/run_queue.py over every history.
use syn_qc_temporal_dynamics.Prelude.{ℕ, ◌+◌, ◌≡◌, refl, sym, ap, ◌∙◌, List, [], ◌∷◌, arith, length}
use syn_qc_temporal_dynamics.Prelude.Int.{pos, pos-plus}
use syn_qc_temporal_dynamics.RunQueue.Redis.{RunServer}
use syn_qc_temporal_dynamics.RunQueue.{queue_key, stats}
use syn_qc_temporal_dynamics.RunQueue.Counters.{Counted}
use syn_qc_temporal_dynamics.RunQueue.Traces.{
  System, Event, submit, claim, start, succeed, fail, after, after_all, submitted, Balanced,
}
use syn_qc_temporal_dynamics.RunQueue.Balance.{zero_more, balance, after-Balanced}

module _ {Real : Type 0} (redis : RunServer Real) where
  open redis use {Server, counts, items, blpop, count-blpop}

  submitted_step :
      (n : ℕ) (e : Event redis) (es : List (Event redis))
      → submitted redis (e ∷ es) + n ≡ submitted redis es + (submitted redis (e ∷ []) + n)
  unfolding submitted
  submitted_step n (submit now id req sid) es = omega arith
  submitted_step n (claim now) es = omega arith
  submitted_step n (start place now) es = omega arith
  submitted_step n (succeed place now result) es = omega arith
  submitted_step n (fail place now code message hint given) es = omega arith

  after_all-Balanced :
      (n : ℕ) (es : List (Event redis)) (y : System redis)
      → Balanced redis n y
      → Balanced redis (submitted redis es + n) (after_all redis es y)
  unfolding after_all
  after_all-Balanced n [] y b = unfold submitted in rw (zero_more n) b
  after_all-Balanced n (e ∷ es) y b = rw (submitted_step n e es) (
      after_all-Balanced (submitted redis (e ∷ []) + n) es (after redis e y)
        (after-Balanced redis n e y b))

  -- What the statistics say of a server with balanced counters.
  stats-Balanced :
      (n now max_workers : ℕ) (y : System redis)
      → (b : Balanced redis n y)
      → let report = stats redis now max_workers y.server in
        (report.total ≡ pos n)
        × (report.queued ≡ pos (length (items queue_key y.server) + length y.waiting))
        × (report.running ≡ pos (length y.busy))
        × (report.succeeded ≡ pos b.succeeded)
        × (report.failed ≡ pos b.failed)
  unfolding stats
  stats-Balanced n now max_workers y b =
      let q = length b.ids + length y.waiting in
      let r = length y.busy in
      let o = b.succeeded in
      let f = b.failed in
      let c = b.counted in
      (
        rw
            (
              c.queued_count,
              c.running_count,
              c.succeeded_count,
              c.failed_count,
              pos-plus q r,
              pos-plus (q + r) o,
              pos-plus (q + r + o) f,
              b.all,
            )
            refl,
        c.queued_count ∙ ap (λ ids. pos (length ids + length y.waiting)) (sym b.waits.listed),
        c.running_count,
        c.succeeded_count,
        c.failed_count,
      )

  -- The statistics in every interleaving of clients and workers, from a server with an empty list
  -- and no counts: `total` is the number of submitted runs, `queued` that of the runs in the list
  -- or claimed and not yet marked, `running` that of the marked ones; and these with the succeeded
  -- and the failed ones make up the submitted runs, so none is lost or counted twice.
  pub after_all-Accounted :
      (es : List (Event redis)) (s : Server) (now max_workers : ℕ)
      → items queue_key s ≡ []
      → Counted redis 0 0 0 0 s
      → let y = after_all redis es (record { server = s; waiting = []; busy = [] }) in
        let report = stats redis now max_workers y.server in
        let queued = length (items queue_key y.server) + length y.waiting in
        (report.total ≡ pos (submitted redis es))
        × (report.queued ≡ pos queued)
        × (report.running ≡ pos (length y.busy))
        × (o : ℕ) × (f : ℕ) × (report.succeeded ≡ pos o)
        × (report.failed ≡ pos f)
        × (queued + length y.busy + o + f ≡ submitted redis es)
  after_all-Accounted es s now max_workers empty zeros =
      let y = after_all redis es (record { server = s; waiting = []; busy = [] }) in
      let b =
        after_all-Balanced 0 es (record { server = s; waiting = []; busy = [] })
          (balance redis 0 0 0 0 0 (record { server = s; waiting = []; busy = [] }) []
            (record { listed = empty; readable = tt }) zeros refl refl refl) in
      let (t, q, r, o, f) = stats-Balanced (submitted redis es + 0) now max_workers y b in
      let plain : submitted redis es + 0 ≡ submitted redis es = omega arith in
      (
        t ∙ ap pos plain,
        q,
        r,
        b.succeeded,
        b.failed,
        o,
        f,
        ap (λ ids. length ids + length y.waiting + length y.busy + b.succeeded + b.failed)
              b.waits.listed
            ∙ b.all
            ∙ plain,
      )
