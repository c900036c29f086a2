-- ===== src/BulkLoad/Clean.antt =====
-- The two files in /tmp, after a run of the DAG.
use observability_lab.Prelude.{
  ℕ, String, ◌≡◌, refl, Option, none, some, Bool, true, false, Bool-cases, inl, inr, List, [], ◌∷◌,
}
use observability_lab.BulkLoad.Text.{Text}
use observability_lab.BulkLoad.Host.{Host, Run, State, Task, tick}
use observability_lab.BulkLoad.Tasks.{
  after, remove_data, remove_error, remove_files, ensure_table_exists, generate_and_load,
  validate_row_count, create_post_load_indexes,
}
use observability_lab.BulkLoad.Dag.{
  States, tried, run_tasks, tasks, report, notify_failed, failed_tasks, notify_completion, run_dag,
}
use observability_lab.BulkLoad.Keeps.{
  ensure_table_exists-Keeps, generate_and_load-Keeps, validate_row_count-Keeps,
  create_post_load_indexes-Keeps,
}
use observability_lab.BulkLoad.Rules.{task-Leads, Pred, Ends, Leads, tried-Leads}

-- Neither file is there.
abbrev pub IsClean : Pred
IsClean k = (k.data_file ≡ none) × (k.error_file ≡ false)

abbrev Cleanly : Task → Type 0
Cleanly = Leads IsClean IsClean

Ends-any : (o : Bool × State) → Ends IsClean IsClean o → IsClean o.1
Ends-any (true, k) e = e
Ends-any (false, k) e = e

module _ (h : Host) (run : Run) (removable : (n : ℕ) → h.removes n ≡ true) where
  remove_error-IsClean :
      (b : Bool) (k : State)
      → k.error_file ≡ b
      → k.data_file ≡ none
      → Ends IsClean IsClean (remove_error h run b k)
  remove_error-IsClean false k e d = (d, e)
  remove_error-IsClean true k e d = rw (removable k.calls) (d, refl)

  -- The first removal does not touch the error file, and the second one follows it.
  remove_files-IsClean : (k : State) → Ends IsClean IsClean (remove_files h run k)
  remove_files-IsClean k = data-IsClean k.data_file refl
    where
      data-IsClean :
          (o : Option Text)
          → k.data_file ≡ o
          → Ends IsClean IsClean
              (after h run (λ k1. remove_error h run k1.error_file k1) (remove_data h run o k))
      data-IsClean none e = remove_error-IsClean k.error_file k refl e
      data-IsClean (some file) e =
          rw (removable k.calls)
            (remove_error-IsClean k.error_file (record (tick k) { data_file = none }) refl refl)

  -- A list of tasks that ends clean from a clean state.
  abbrev AllClean : List (String × Task) → Type 0
  AllClean ts = (k : State) → IsClean k → IsClean (run_tasks ts k).1

  task-AllClean :
      (name : String) (t : Task) (ts : List (String × Task))
      → Cleanly t
      → AllClean ts
      → AllClean ((name, t) ∷ ts)
  task-AllClean name t ts c =
      task-Leads (λ o. IsClean o.1) (λ name s k r. r) IsClean IsClean name t ts c (λ k p. p)

  ensure_table_exists-IsClean : Cleanly (ensure_table_exists h run)
  ensure_table_exists-IsClean = ensure_table_exists-Keeps h run IsClean (λ k p. p) (λ t is k p. p)

  -- Within the `try` statement there is nothing to keep.
  generate_and_load-IsClean : Cleanly (generate_and_load h run)
  generate_and_load-IsClean =
      generate_and_load-Keeps h run IsClean (λ k p. p) (λ t is k p. p) (λ k. Unit) (λ k p. tt)
        (λ t f e c k p. tt) (λ k p. remove_files-IsClean k) (λ x k p. p)

  validate_row_count-IsClean : Cleanly (validate_row_count h run)
  validate_row_count-IsClean = validate_row_count-Keeps h run IsClean (λ k p. p) (λ t is k p. p)

  create_post_load_indexes-IsClean : Cleanly (create_post_load_indexes h run)
  create_post_load_indexes-IsClean =
      create_post_load_indexes-Keeps h run IsClean (λ k p. p) (λ t is k p. p)

  -- The tasks from the third on, and from the second on.
  abbrev checking : List (String × Task)
  checking =
      ("validate_row_count", validate_row_count h run)
      ∷ ("create_post_load_indexes", create_post_load_indexes h run)
      ∷ []

  abbrev loading : List (String × Task)
  loading = ("generate_and_load", generate_and_load h run) ∷ checking

  tasks-AllClean : AllClean (tasks h run)
  tasks-AllClean =
      task-AllClean "ensure_table_exists" (ensure_table_exists h run) loading
        ensure_table_exists-IsClean
        (task-AllClean "generate_and_load" (generate_and_load h run) checking
          generate_and_load-IsClean
          (task-AllClean "validate_row_count" (validate_row_count h run)
            (("create_post_load_indexes", create_post_load_indexes h run) ∷ [])
            validate_row_count-IsClean
            (task-AllClean "create_post_load_indexes" (create_post_load_indexes h run) []
              create_post_load_indexes-IsClean (λ k p. p))))

  report-IsClean :
      (status : String) (detail message : Text) → Cleanly (report h run status detail message)
  report-IsClean status detail message k p = elim (Bool-cases (h.answers k.calls)) [
    | inl e ↦ rw e p
    | inr e ↦ rw e p
  ]

  notify_failed-IsClean : (ns : List String) → Cleanly (notify_failed h run ns)
  notify_failed-IsClean [] k p = report-IsClean "success" _ _ k p
  notify_failed-IsClean (n ∷ ns) k p = report-IsClean "failed" _ _ k p

  notify_completion-IsClean : (states : States) → Cleanly (notify_completion h run states)
  unfolding notify_completion
  notify_completion-IsClean states = notify_failed-IsClean (failed_tasks states)

  -- If every removal of a file succeeds, and whatever else the calls in a run of the DAG come to, in its
  -- tasks, in their retries and in the notification: when neither the data file nor the error file of
  -- bcp is in /tmp before it, neither is there after it.
  pub run_dag-IsClean : (k : State) → IsClean k → IsClean (run_dag h run k).2
  unfolding run_dag
  run_dag-IsClean k p =
      let k1 = (run_tasks (tasks h run) k).1 in
      let notify = notify_completion h run (run_tasks (tasks h run) k).0 in
      Ends-any (tried notify k1) (
        tried-Leads IsClean IsClean notify (notify_completion-IsClean (run_tasks (tasks h run) k).0)
          k1 (tasks-AllClean k p))
