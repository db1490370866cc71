-- ===== src/Shor/RunStore/Ring.antt =====
-- What the log of synqc_shor/run_store.py keeps and lists of all the runs that were recorded.
use syn_qc_temporal_dynamics.Prelude.{
  ℕ, zero, suc, ◌+◌, ◌-◌, ◌≡◌, refl, List, [], ◌∷◌, ◌++◌, map, arith, ltb, length, drop, take_last,
  min, length-append, length-drop, drop-append, Bool-cases, inl, inr, sym, ap, ◌∙◌,
}
use mathlib.Core.List.{append_assoc, append-nil, reverse}
use syn_qc_temporal_dynamics.Prelude.Int.{ℤ}
use syn_qc_temporal_dynamics.Shor.RunStore.{
  RunRecord, to_public_summary, trim, record_run, clamp_limit, list_runs,
}

module _ {D : Type 0} where
  drop_eq : (a b : ℕ) (xs : List (RunRecord D)) → a ≡ b → drop a xs ≡ drop b xs
  drop_eq a b xs e = ap (λ n. drop n xs) e

  drop-drop : (a b : ℕ) (xs : List (RunRecord D)) → drop a (drop b xs) ≡ drop (b + a) xs
  drop-drop a zero xs = drop_eq a (0 + a) xs (omega arith)
  drop-drop zero (suc b) [] = drop_eq (suc b) (suc b + 0) [] (omega arith)
  drop-drop (suc a) (suc b) [] = drop_eq (suc (b + suc a)) (suc b + suc a) [] (omega arith)
  drop-drop a (suc b) (x ∷ xs) =
      drop-drop a b xs ∙ drop_eq (suc (b + a)) (suc b + a) (x ∷ xs) (omega arith)

  take_last-take_last :
      (a b : ℕ) (xs : List (RunRecord D)) → take_last a (take_last b xs) ≡ take_last (min a b) xs
  take_last-take_last a b xs =
      drop-drop (length (take_last b xs) - a) (length xs - b) xs
      ∙ drop_eq _ _ xs (ground (arith, length-drop (length xs - b) xs))

  trim-take_last : (bound : ℕ) (runs : List (RunRecord D)) → trim bound runs ≡ take_last bound runs
  unfolding trim
  trim-take_last bound runs = elim (Bool-cases (ltb bound (length runs))) [
    | inl over ↦ rw over refl
    | inr fits ↦ rw fits (drop_eq 0 (length runs - bound) runs (ground arith))
  ]

  record_run-take_last :
      (bound : ℕ) (rec : RunRecord D) (runs : List (RunRecord D))
      → record_run bound rec (take_last bound runs) ≡ take_last bound (runs ++ rec ∷ [])
  unfolding record_run
  record_run-take_last bound rec runs =
      let cut = length runs - bound in
      let tail = take_last bound runs ++ rec ∷ [] in
      let kept : tail ≡ drop cut (runs ++ rec ∷ []) =
        sym (drop-append cut runs (rec ∷ []) (omega arith)) in
      trim-take_last bound tail
      ∙ ap (λ l. take_last bound l) kept
      ∙ drop-drop (length (drop cut (runs ++ rec ∷ [])) - bound) cut (runs ++ rec ∷ [])
      ∙ drop_eq _ _ (runs ++ rec ∷ [])
          (ground (arith, length-drop cut (runs ++ rec ∷ []), length-append runs (rec ∷ [])))

  -- The log after a row of runs.
  unfoldable pub record_all : ℕ → List (RunRecord D) → List (RunRecord D) → List (RunRecord D)
  record_all bound [] runs = runs
  record_all bound (rec ∷ recs) runs = record_all bound recs (record_run bound rec runs)

  record_all-from :
      (bound : ℕ) (recs runs : List (RunRecord D))
      → record_all bound recs (take_last bound runs) ≡ take_last bound (runs ++ recs)
  unfolding record_all
  record_all-from bound [] runs = ap (λ l. take_last bound l) (sym (append-nil runs))
  record_all-from bound (rec ∷ recs) runs =
      ap (λ l. record_all bound recs l) (record_run-take_last bound rec runs)
      ∙ record_all-from bound recs (runs ++ rec ∷ [])
      ∙ ap (λ l. take_last bound l) (append_assoc runs (rec ∷ []) recs)

  -- However many runs were recorded, the listing shows the newest of all of them, newest first: as
  -- many as the limit, brought between 1 and 500, and the bound of the log allow.
  pub list_runs-newest :
      (bound : ℕ) (limit : ℤ) (recs : List (RunRecord D))
      → list_runs limit (record_all bound recs [])
        ≡ map to_public_summary (reverse (take_last (min (clamp_limit limit) bound) recs))
  unfolding list_runs
  list_runs-newest bound limit recs =
      let log : record_all bound recs [] ≡ take_last bound recs =
        ap (λ l. record_all bound recs l) (drop_eq 0 (0 - bound) [] (omega arith))
        ∙ record_all-from bound recs [] in
      ap (λ l. map to_public_summary (reverse (take_last (clamp_limit limit) l))) log
      ∙ ap (λ l. map to_public_summary (reverse l))
          (take_last-take_last (clamp_limit limit) bound recs)
