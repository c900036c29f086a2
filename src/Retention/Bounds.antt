-- ===== src/Retention/Bounds.antt =====
-- What a run leaves in `pipeline_log`.
use observability_lab.Prelude.{
  ℕ, arith, ◌≡◌, refl, Bool, true, false, Bool-cases, not, ◌≤◌, ◌<◌, List, length, ltb, All, ◌⊎◌,
  inl, inr,
}
use observability_lab.Tables.{PipelineLog}
use observability_lab.Retention.Trim.{
  HasKeys, filter-HasKeys, All-filter, All-filter-not, IsTrimmed, delete_ids-IsTrimmed,
}
use observability_lab.Retention.Run.{
  Outcome, committed, refused, reply_lost, LogServer, is_aged, delete_aged, top_ids, delete_ids,
  call, commit, closed, max_rows, trim_batch_size, trimmed, enforce_retention,
}

module _ (s : LogServer) where
  -- The work of a whole run: no aged row is left, and of the other rows either all, if they are not more
  -- than the cap, or all but the 200 oldest, if they are.
  abbrev pub IsComplete : List PipelineLog → List PipelineLog → Type 0
  IsComplete rows left =
      All (λ r. is_aged s r ≡ false) left
      × (((length (delete_aged s rows) ≤ max_rows) × (left ≡ delete_aged s rows))
          ⊎ ((max_rows < length (delete_aged s rows)) × IsTrimmed s (delete_aged s rows) left))

  -- A run that raises has done nothing or all: its last COMMIT may have been carried out.
  abbrev pub IsRetained : List PipelineLog → Bool × List PipelineLog → Type 0
  IsRetained rows (true, left) = IsComplete rows left
  IsRetained rows (false, left) = (left ≡ rows) ⊎ IsComplete rows left

  call-IsRetained :
      (n : ℕ) (rows : List PipelineLog) (rest : Bool × List PipelineLog)
      → IsRetained rows rest
      → IsRetained rows (call s n rows rest)
  call-IsRetained n rows rest h = elim (Bool-cases (s.succeeds n)) [
    | inl e ↦ rw e h
    | inr e ↦ rw e (inl refl)
  ]

  commit-IsRetained :
      (o : Outcome) (rows left : List PipelineLog)
      → IsComplete rows left
      → IsRetained rows (commit s o rows left)
  commit-IsRetained committed rows left h = h
  commit-IsRetained refused rows left h = inl refl
  commit-IsRetained reply_lost rows left h = inr h

  closed-IsRetained :
      (rows : List PipelineLog) (o : Bool × List PipelineLog)
      → IsRetained rows o
      → IsRetained rows (closed s o)
  closed-IsRetained rows (true, left) h = elim (Bool-cases s.closes) [
    | inl e ↦ rw e h
    | inr e ↦ rw e (inr h)
  ]
  closed-IsRetained rows (false, left) h = h

  swept-IsComplete :
      (rows : List PipelineLog)
      → ltb max_rows (length (delete_aged s rows)) ≡ false
      → IsComplete rows (delete_aged s rows)
  swept-IsComplete rows e = (All-filter-not (is_aged s) rows, inl (ground (arith, e), refl))

  cut-IsComplete :
      (rows : List PipelineLog)
      → HasKeys rows
      → ltb max_rows (length (delete_aged s rows)) ≡ true
      → IsComplete rows
          (delete_ids s (top_ids s trim_batch_size (delete_aged s rows)) (delete_aged s rows))
  cut-IsComplete rows h e =
      let kept : List PipelineLog = delete_aged s rows in
      let many : max_rows < length kept = ground (arith, e) in
      (
        All-filter (is_aged s) _ kept (All-filter-not (is_aged s) rows),
        inr (
          many,
          delete_ids-IsTrimmed s kept (filter-HasKeys (λ r. not (is_aged s r)) rows h)
              (omega (arith, many)),
        ),
      )

  trimmed-IsRetained :
      (rows : List PipelineLog)
      → HasKeys rows
      → IsRetained rows (trimmed s rows (delete_aged s rows))
  trimmed-IsRetained rows h = elim (Bool-cases (ltb max_rows (length (delete_aged s rows)))) [
    | inl e ↦ rw e (
        call-IsRetained 5 rows _ (commit-IsRetained s.last_commit rows _ (cut-IsComplete rows h e)))
    | inr e ↦ rw e (commit-IsRetained s.last_commit rows _ (swept-IsComplete rows e))
  ]

  -- With distinct keys, and no other writer: a run that ends leaves no row that is older than seven
  -- days; the others it leaves as they are if they are 100000 at most, and if they are more it deletes
  -- 200 of them, none of which is newer than one that it leaves. A run that raises has left the rows as
  -- they were, or has done all this.
  pub enforce_retention-IsRetained :
      (rows : List PipelineLog) → HasKeys rows → IsRetained rows (enforce_retention s rows)
  unfolding enforce_retention
  enforce_retention-IsRetained rows h = call-IsRetained 0 rows _ (
      call-IsRetained 1 rows _ (
        call-IsRetained 2 rows _ (
          closed-IsRetained rows _
            (call-IsRetained 3 rows _ (call-IsRetained 4 rows _ (trimmed-IsRetained rows h))))))
