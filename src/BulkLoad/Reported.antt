-- ===== src/BulkLoad/Reported.antt =====
-- What a run of the DAG writes into the run history.
use observability_lab.Prelude.{
  ℕ, String, ◌≡◌, some, Bool, true, false, List, [], ◌∷◌, ◌++◌, ◌≤◌, ◌⊎◌,
}
use observability_lab.BulkLoad.Text.{Text, codes, decimal}
use observability_lab.BulkLoad.Notify.{history_line}
use observability_lab.BulkLoad.Host.{Host, Run, State, Task}
use observability_lab.BulkLoad.Tasks.{
  generate_and_load, validate_row_count, create_post_load_indexes,
}
use observability_lab.BulkLoad.Dag.{States, failed_tasks}
use observability_lab.BulkLoad.Rules.{Pred}

module _ (h : Host) (run : Run) (old : List Text) where
  abbrev IsQuiet : Pred
  IsQuiet k = k.history ≡ old

  abbrev IsCounted : Pred
  IsCounted k = k.xcom ≡ some (run.load_batch_id, run.total_rows)

  abbrev IsQuietCounted : Pred
  IsQuietCounted k = IsQuiet k × IsCounted k

  module _ (sized : 1 ≤ run.batch_size) where
    -- Either no task has failed, and the count is there, or one has.
    abbrev Outcome : States × State → Type 0
    Outcome (s, k) =
        ((failed_tasks s ≡ []) × IsQuietCounted k)
        ⊎ ((name : String) × (failed_tasks s ≡ name ∷ []) × IsQuiet k)

    abbrev indexing : List (String × Task)
    indexing = ("create_post_load_indexes", create_post_load_indexes h run) ∷ []

    abbrev checking : List (String × Task)
    checking = ("validate_row_count", validate_row_count h run) ∷ indexing

    abbrev loading : List (String × Task)
    loading = ("generate_and_load", generate_and_load h run) ∷ checking

  -- One more line than before, with some time.
  abbrev HasLine : String → Text → Pred
  HasLine status detail k =
      (c : ℕ) × (k.history ≡ history_line (h.timestamp c) (codes status) run.run_id detail ∷ old)

  abbrev HasSuccess : Pred
  HasSuccess = HasLine "success" (codes "rows=" ++ decimal run.total_rows)

  abbrev HasFailure : String → Pred
  HasFailure name = HasLine "failed" (codes "failed tasks: " ++ codes name)

  -- Without a notification the history is as it was. With it there is one more line, and it is true.
  abbrev pub IsReported : States → Bool × State → Type 0
  IsReported s (false, k) = IsQuiet k
  IsReported s (true, k) =
      ((failed_tasks s ≡ []) × HasSuccess k)
      ⊎ ((name : String) × (failed_tasks s ≡ name ∷ []) × HasFailure name k)
