-- ===== src/Retention/Run.antt =====
-- One run of the task: its two DELETE statements in one transaction, which nobody else writes in.
use mathlib.Core.List.{Permᴰ}
use observability_lab.Prelude.{
  ℕ, Bool, true, false, not, ◌&&◌, ◌+◌, ◌*◌, ◌≤◌, List, [], ◌∷◌, any, filter, map, length, eqb, ltb,
  take, All, if◌then◌else◌,
}
use observability_lab.Tables.{PipelineLog}

-- `RETENTION_DAYS`, in seconds
abbrev pub retention : ℕ
retention = 7 * 86400

abbrev pub max_rows : ℕ
max_rows = 100000

abbrev pub trim_batch_size : ℕ
trim_batch_size = 200

-- Each row is as old as the ones after it, or older.
abbrev pub IsOldestFirst : List PipelineLog → Type 0
IsOldestFirst [] = Unit
IsOldestFirst (r ∷ rows) = All (λ q. r.created_at ≤ q.created_at) rows × IsOldestFirst rows

-- How the last COMMIT fares.
pub data Outcome : Type 0 where
  committed : Outcome
  -- it raises, and the transaction is undone
  refused : Outcome
  -- it raises, but the server has carried it out
  reply_lost : Outcome

-- SQL Server: its clock in seconds, its order of rows, and the errors of the connection.
pub record LogServer : Type 0 where
  pub now : ℕ
  -- ORDER BY created_at ASC: the same rows, those of one time in any order
  pub by_age : List PipelineLog → List PipelineLog
  pub by_age_rows : (rows : List PipelineLog) → Permᴰ rows (by_age rows)
  pub by_age_order : (rows : List PipelineLog) → IsOldestFirst (by_age rows)
  -- whether the n-th call on the connection succeeds, but for the last COMMIT and `close`
  pub succeeds : ℕ → Bool
  pub last_commit : Outcome
  pub closes : Bool

module _ (s : LogServer) where
  -- created_at < DATEADD(day, -RETENTION_DAYS, SYSUTCDATETIME())
  abbrev pub is_aged : PipelineLog → Bool
  is_aged r = ltb (r.created_at + retention) s.now

  abbrev pub delete_aged : List PipelineLog → List PipelineLog
  delete_aged rows = filter (λ r. not (is_aged r)) rows

  -- SELECT TOP (n) log_id … ORDER BY created_at ASC
  abbrev pub top_ids : ℕ → List PipelineLog → List ℕ
  top_ids n rows = map (λ r. r.log_id) (take n (s.by_age rows))

  -- DELETE … WHERE log_id IN (…)
  abbrev pub delete_ids : List ℕ → List PipelineLog → List PipelineLog
  delete_ids ids rows = filter (λ r. not (any (λ i. eqb i r.log_id) ids)) rows

  -- A call that raises before the last COMMIT: what was not committed is undone when the connection
  -- closes.
  abbrev pub call : ℕ → List PipelineLog → Bool × List PipelineLog → Bool × List PipelineLog
  call n before rest = if s.succeeds n then rest else (false, before)

  abbrev pub commit : Outcome → List PipelineLog → List PipelineLog → Bool × List PipelineLog
  commit committed before after = (true, after)
  commit refused before after = (false, before)
  commit reply_lost before after = (false, after)

  -- the `finally` clause
  abbrev pub closed : Bool × List PipelineLog → Bool × List PipelineLog
  closed (ends, rows) = (ends && s.closes, rows)

  -- from the second DELETE statement on
  abbrev pub trimmed : List PipelineLog → List PipelineLog → Bool × List PipelineLog
  trimmed before kept =
      if ltb max_rows (length kept)
      then call 5 before
          (commit s.last_commit before (delete_ids (top_ids trim_batch_size kept) kept))
      else commit s.last_commit before kept

  -- Whether the task ends without an exception, and the rows after it. The connection, SET
  -- LOCK_TIMEOUT and its COMMIT; then the statements of the `try` block.
  unfoldable pub enforce_retention : List PipelineLog → Bool × List PipelineLog
  enforce_retention rows = call 0 rows (
      call 1 rows
        (call 2 rows (closed (call 3 rows (call 4 rows (trimmed rows (delete_aged rows)))))))
