-- ===== src/BulkLoad/Complete.antt =====
-- A run of the DAG on a host where nothing fails.
use observability_lab.Prelude.{String, ◌≡◌, refl, Bool, true, false, List, [], ◌∷◌, ◌≤◌}
use observability_lab.BulkLoad.Text.{Text, codes, lacks}
use observability_lab.BulkLoad.Line.{row_terminator}
use observability_lab.BulkLoad.Host.{Host, Run, State, Task}
use observability_lab.BulkLoad.Tasks.{
  ensure_table_exists, generate_and_load, validate_row_count, create_index, post_load_indexes,
  index_all, create_post_load_indexes,
}
use observability_lab.BulkLoad.Dag.{
  States, tried, run_tasks, tasks, report, notify_failed, failed_tasks, notify_completion, run_dag,
}
use observability_lab.BulkLoad.Reliable.{
  IsReliable, Returns, Does, Anything, HasTable, IsFull, tried-Does, calls-Does, ensure-Does,
  validate-Does, generate-Does,
}
use observability_lab.BulkLoad.Rules.{Pred, stage-Leads}

module _ (h : Host) (run : Run) (reliable : IsReliable h run.total_rows) where
  index-Does : (is : List String) → Does Anything Anything (index_all h run is)
  index-Does [] =
      calls-Does h run reliable Anything Anything (λ k p. tt) 2 (λ k. (true, k)) (λ k p. tt)
  index-Does (i ∷ is) =
      calls-Does h run reliable Anything Anything (λ k p. tt) 2
        (λ k. index_all h run is (record k { indexes = create_index i k.indexes }))
        (λ k p. index-Does is (record k { indexes = create_index i k.indexes }) tt)

  create-Does : Does Anything Anything (create_post_load_indexes h run)
  unfolding create_post_load_indexes
  create-Does =
      calls-Does h run reliable Anything Anything (λ k p. tt) 3 (index_all h run post_load_indexes)
        (index-Does post_load_indexes)

  report-Does :
      (status : String) (detail message : Text)
      → Does Anything Anything (report h run status detail message)
  report-Does status detail message k p = rw (reliable.0 k.calls) tt

  notify_failed-Does : (ns : List String) → Does Anything Anything (notify_failed h run ns)
  notify_failed-Does [] k p = report-Does "success" _ _ k tt
  notify_failed-Does (n ∷ ns) k p = report-Does "failed" _ _ k tt

  notify-Does : (s : States) → Does Anything Anything (notify_completion h run s)
  unfolding notify_completion
  notify-Does s = notify_failed-Does (failed_tasks s)

  abbrev NoneFails : States × State → Type 0
  NoneFails (s, k) = failed_tasks s ≡ []

  task-Does :
      (P Q : Pred) (name : String) (t : Task) (ts : List (String × Task))
      → Does P Q t
      → ((k : State) → Q k → NoneFails (run_tasks ts k))
      → (k : State) → P k
      → NoneFails (run_tasks ((name, t) ∷ ts) k)
  task-Does P Q name t ts d f k p =
      stage-Leads NoneFails (λ n s k r. r) (λ k. ⊥) Q name ts (tried t k) (λ k b. absurd b) f
        (tried-Does P Q t d k p)

  abbrev indexing : List (String × Task)
  indexing = ("create_post_load_indexes", create_post_load_indexes h run) ∷ []

  abbrev checking : List (String × Task)
  checking = ("validate_row_count", validate_row_count h run) ∷ indexing

  abbrev loading : List (String × Task)
  loading = ("generate_and_load", generate_and_load h run) ∷ checking

  returned : (o : Bool × State) → Returns Anything o → o.0 ≡ true
  returned (true, k) r = refl
  returned (false, k) r = absurd r

  module _ (sized : 1 ≤ run.batch_size)
      (free : lacks row_terminator (codes run.load_batch_id) ≡ true) where
    tasks-NoneFails : (k : State) → NoneFails (run_tasks (tasks h run) k)
    tasks-NoneFails k =
        task-Does Anything HasTable "ensure_table_exists" (ensure_table_exists h run) loading
          (ensure-Does h run reliable)
          (task-Does HasTable (IsFull h run reliable) "generate_and_load" (generate_and_load h run)
            checking (generate-Does h run reliable sized free)
            (task-Does (IsFull h run reliable) (IsFull h run reliable) "validate_row_count"
              (validate_row_count h run) indexing (validate-Does h run reliable)
              (λ k p.
                task-Does Anything Anything "create_post_load_indexes"
                  (create_post_load_indexes h run) [] create-Does (λ k p. refl) k tt)))
          k tt

-- On a host where every call succeeds, the removals of files included, where bcp exits with 0 and adds every record of a file with as
-- many records as the load has rows, and where a batch id is equal to itself: with batches of at least
-- one row and an id without a line break, no task of a run of the DAG fails, from whatever state it
-- starts, and its notification ends.
pub run_dag_completes :
    (h : Host) (run : Run) (k : State)
    → IsReliable h run.total_rows
    → 1 ≤ run.batch_size
    → lacks row_terminator (codes run.load_batch_id) ≡ true
    → (failed_tasks (run_dag h run k).0 ≡ []) × ((run_dag h run k).1 ≡ true)
unfolding run_dag
run_dag_completes h run k reliable sized free =
    let o = run_tasks (tasks h run) k in
    let notify = notify_completion h run o.0 in
    (
      tasks-NoneFails h run reliable sized free k,
      returned h run reliable (tried notify o.1)
          (tried-Does Anything Anything notify (notify-Does h run reliable o.0) o.1 tt),
    )
