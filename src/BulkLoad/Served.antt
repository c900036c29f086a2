-- ===== src/BulkLoad/Served.antt =====
-- The whole run: the table and its indexes when no task has failed.
use text.Mathlib.Text.{◌==◌}
use observability_lab.Prelude.{String, arith, eq_refl, ◌≡◌, Bool, true, List, [], ◌∷◌, any, ◌≤◌}
use observability_lab.BulkLoad.Text.{codes, lacks}
use observability_lab.BulkLoad.Line.{row_terminator}
use observability_lab.BulkLoad.Host.{Host, Run, State, Task, tick}
use observability_lab.BulkLoad.Tasks.{
  create_index, create_table, ensure_table_exists, generate_and_load, validate_row_count, index_all,
  create_post_load_indexes,
}
use observability_lab.BulkLoad.Dag.{States, run_tasks, failed_tasks, tasks}
use observability_lab.BulkLoad.Rules.{Pred, Leads, Ends-weaken, calls_then-Leads, task-Leads}
use observability_lab.BulkLoad.Loaded.{
  IsLoaded, IsPartial, Anything, generate_and_load-Leads, validate-Leads,
}

abbrev pub has_index : String → List String → Bool
has_index name is = any (λ i. i == name) is

has_index-create : (n : String) (is : List String) → has_index n (create_index n is) ≡ true
has_index-create n is = ground (arith, eq_refl n)

has_index-create_other :
    (m n : String) (is : List String)
    → has_index m is ≡ true
    → has_index m (create_index n is) ≡ true
has_index-create_other m n is h = ground arith

module _ (h : Host) (run : Run) where
  abbrev Dated : Pred
  Dated k = IsLoaded h run k × (has_index "ix_ohf_order_date" k.indexes ≡ true)

  abbrev Placed : Pred
  Placed k = Dated k × (has_index "ix_ohf_region_channel" k.indexes ≡ true)

  -- Loaded, with the three indexes.
  abbrev pub IsServed : Pred
  IsServed k = Placed k × (has_index "ix_ohf_load_batch" k.indexes ≡ true)

  index-Leads :
      (P P' : Pred) (i : String) (is : List String)
      → ((k : State) → P k → P (tick k))
      → ((k : State) → P' k → P k)
      → ((k : State) → P k → P' (record k { indexes = create_index i k.indexes }))
      → Leads P' IsServed (index_all h run is)
      → Leads P IsServed (index_all h run (i ∷ is))
  index-Leads P P' i is timeless weaker step rest =
      calls_then-Leads h P IsServed timeless 2
        (λ k. index_all h run is (record k { indexes = create_index i k.indexes }))
        λ k p. Ends-weaken P' P IsServed _ weaker (rest _ (step k p))

  statistics-Leads : Leads IsServed IsServed (index_all h run [])
  statistics-Leads = calls_then-Leads h IsServed IsServed (λ k p. p) 2 (λ k. (true, k)) (λ k p. p)

  create-Leads : Leads (IsLoaded h run) IsServed (create_post_load_indexes h run)
  unfolding create_post_load_indexes
  create-Leads =
      calls_then-Leads h (IsLoaded h run) IsServed (λ k p. p) 3 _
        (index-Leads (IsLoaded h run) Dated "ix_ohf_order_date"
          ("ix_ohf_region_channel" ∷ "ix_ohf_load_batch" ∷ []) (λ k p. p) (λ k p. p.0)
          (λ k p. (p, has_index-create "ix_ohf_order_date" k.indexes))
          (index-Leads Dated Placed "ix_ohf_region_channel" ("ix_ohf_load_batch" ∷ []) (λ k p. p)
            (λ k p. p.0)
            (λ k p. (
              (
                p.0,
                has_index-create_other "ix_ohf_order_date" "ix_ohf_region_channel" k.indexes p.1,
              ),
              has_index-create "ix_ohf_region_channel" k.indexes,
            ))
            (index-Leads Placed IsServed "ix_ohf_load_batch" [] (λ k p. p) (λ k p. p.0)
              (λ k p. (
                (
                  (
                    p.0.0,
                    has_index-create_other "ix_ohf_order_date" "ix_ohf_load_batch" k.indexes p.0.1,
                  ),
                  has_index-create_other "ix_ohf_region_channel" "ix_ohf_load_batch" k.indexes p.1,
                ),
                has_index-create "ix_ohf_load_batch" k.indexes,
              ))
              statistics-Leads)))

  ensure-Leads : Leads (Anything h run) (Anything h run) (ensure_table_exists h run)
  unfolding ensure_table_exists
  ensure-Leads =
      calls_then-Leads h (Anything h run) (Anything h run) (λ k p. tt) 3 _
        (calls_then-Leads h (Anything h run) (Anything h run) (λ k p. tt) 2 (create_table h run)
          (λ k p. tt))

  -- No task failed, and so `Q`.
  abbrev Unless : Pred → States × State → Type 0
  Unless Q (states, k) = failed_tasks states ≡ [] → Q k

  task-Unless :
      (P Q R : Pred) (name : String) (t : Task) (ts : List (String × Task))
      → Leads P Q t
      → ((k : State) → Q k → Unless R (run_tasks ts k))
      → (k : State) → P k
      → Unless R (run_tasks ((name, t) ∷ ts) k)
  task-Unless P Q R name t ts l f =
      task-Leads (Unless R) (λ name s k r. r) P Q name t ts l (λ k p n. cc) f

  -- The tasks from the third on, and from the second on.
  abbrev indexing : List (String × Task)
  indexing = ("create_post_load_indexes", create_post_load_indexes h run) ∷ []

  abbrev checking : List (String × Task)
  checking = ("validate_row_count", validate_row_count h run) ∷ indexing

  abbrev loading : List (String × Task)
  loading = ("generate_and_load", generate_and_load h run) ∷ checking

  indexing-Unless : (k : State) → IsLoaded h run k → Unless IsServed (run_tasks indexing k)
  indexing-Unless =
      task-Unless (IsLoaded h run) IsServed IsServed "create_post_load_indexes"
        (create_post_load_indexes h run) [] create-Leads (λ k p _. p)

  checking-Unless : (k : State) → IsPartial h run k → Unless IsServed (run_tasks checking k)
  checking-Unless =
      task-Unless (IsPartial h run) (IsLoaded h run) IsServed "validate_row_count"
        (validate_row_count h run) indexing (validate-Leads h run) indexing-Unless

  -- However the calls on the database, the disk and bcp fare, in the first attempt of a task and in
  -- its retry: if no task has failed, the fact table holds the rows of one run of the generator, all
  -- of them and no others, in order and column by column, and the three indexes are there. It needs
  -- batches of at least one row, and an id of the load without a line break.
  pub run_tasks-IsServed :
      (k : State)
      → 1 ≤ run.batch_size
      → lacks row_terminator (codes run.load_batch_id) ≡ true
      → failed_tasks (run_tasks (tasks h run) k).0 ≡ []
      → IsServed (run_tasks (tasks h run) k).1
  run_tasks-IsServed k sized free =
      task-Unless (Anything h run) (Anything h run) IsServed "ensure_table_exists"
        (ensure_table_exists h run) loading ensure-Leads
        (task-Unless (Anything h run) (IsPartial h run) IsServed "generate_and_load"
          (generate_and_load h run) checking (generate_and_load-Leads h run sized free)
          checking-Unless)
        k tt
