-- ===== src/BulkLoad/Tasks.antt =====
-- The four tasks before the notification. A transaction whose connection closes without a COMMIT is
-- undone, so what it writes is applied at its last call.
use text.Mathlib.Text.{◌==◌}
use observability_lab.Prelude.{
  ℕ, suc, String, Option, none, some, Bool, true, false, not, List, [], ◌∷◌, ◌++◌, any, filter,
  length, eqb, ltb, ◌+◌, if◌then◌else◌,
}
use observability_lab.Generator.Rows.{Row, generate_rows}
use observability_lab.BulkLoad.Text.{Text, codes}
use observability_lab.BulkLoad.Line.{data_file}
use observability_lab.BulkLoad.Host.{
  Process, exited, interrupted, Host, Run, State, Task, tick, calls_then,
}

-- Of `POST_LOAD_INDEXES_SQL` and `PRE_LOAD_DROP_INDEXES_SQL`
abbrev pub post_load_indexes : List String
post_load_indexes = "ix_ohf_order_date" ∷ "ix_ohf_region_channel" ∷ "ix_ohf_load_batch" ∷ []

abbrev pub created : Option (List (List Text)) → Option (List (List Text))
created none = some []
created (some rows) = some rows

-- IF EXISTS … DROP INDEX
abbrev pub drop_index : String → List String → List String
drop_index name is = filter (λ i. not (i == name)) is

-- IF NOT EXISTS … CREATE INDEX
abbrev pub create_index : String → List String → List String
create_index name is = if any (λ i. i == name) is then is else name ∷ is

module _ (h : Host) (run : Run) where
  -- `_get_pyodbc_connection`: the connection, SET LOCK_TIMEOUT and its COMMIT
  abbrev pub connected : Task → Task
  connected rest = calls_then h 3 rest

  abbrev pub create_table : Task
  create_table k = (true, record k { table = created k.table })

  unfoldable pub ensure_table_exists : Task
  ensure_table_exists = connected (calls_then h 2 create_table)

  -- TRUNCATE TABLE raises if there is no table.
  abbrev pub truncated : Option (List (List Text)) → Task
  truncated none k = (false, k)
  truncated (some rows) k = (
    true,
    record k {
      table = some [];
      indexes =
          drop_index "ix_ohf_load_batch"
            (drop_index "ix_ohf_region_channel" (drop_index "ix_ohf_order_date" k.indexes));
    },
  )

  -- three DROP INDEX, TRUNCATE TABLE, COMMIT
  unfoldable pub reset : Task
  reset = connected (calls_then h 5 (λ k. truncated k.table k))

  abbrev pub grown : List (List Text) → Option (List (List Text)) → Option (List (List Text))
  grown rows none = none
  grown rows (some old) = some (rows ++ old)

  abbrev pub finished : Process → Task
  finished (exited c) k = (eqb c 0, k)
  finished interrupted k = (false, k)

  unfoldable pub run_bcp : Text → Task
  run_bcp file k = finished (h.bcp k.calls file) (record k {
    table = grown (h.added k.calls file) k.table;
    error_file = h.has_errors k.calls file;
    calls = suc k.calls;
  })

  -- The file is written batch by batch. A generator that does not end yields an empty batch first,
  -- at which `written % (batch_size * 10)` divides by 0.
  abbrev pub write_file : Option (List (List Row)) → Task
  write_file none k = (false, record k { data_file = some [] })
  write_file (some batches) k =
      if h.answers k.calls
      then run_bcp (data_file batches) (record (tick k) { data_file = some (data_file batches) })
      else (false, record (tick k) { data_file = some [] })

  -- `written += len(batch)`
  abbrev pub written : List (List Row) → ℕ
  written [] = 0
  written (b ∷ bs) = length b + written bs

  abbrev pub written_of : Option (List (List Row)) → ℕ
  written_of none = 0
  written_of (some bs) = written bs

  abbrev pub after : Task → Bool × State → Bool × State
  after rest (true, k) = rest k
  after rest (false, k) = (false, k)

  -- `if os.path.exists(path): os.remove(path)`; a file stays when its removal raises.
  abbrev pub remove_data : Option Text → Task
  remove_data none k = (true, k)
  remove_data (some file) k =
      if h.removes k.calls then (true, record (tick k) { data_file = none }) else (false, tick k)

  abbrev pub remove_error : Bool → Task
  remove_error false k = (true, k)
  remove_error true k =
      if h.removes k.calls then (true, record (tick k) { error_file = false }) else (false, tick k)

  -- the loop of the `finally` clause
  abbrev pub remove_files : Task
  remove_files k = after (λ k1. remove_error k1.error_file k1) (remove_data k.data_file k)

  -- The first value alone is read by nothing: the tasks that read the values run only after both
  -- calls, and the notification reads one only if no task has failed.
  abbrev pub pushed : ℕ → Task
  pushed n = calls_then h 2 (λ k. (true, record k { xcom = some (run.load_batch_id, n) }))

  -- the `finally` clause, whichever way its `try` block ends, and after a block that did not raise
  -- `xcom_push`
  abbrev pub close : ℕ → Bool × State → Bool × State
  close n (true, k) = after (pushed n) (remove_files k)
  close n (false, k) = after (λ k1. (false, k1)) (remove_files k)

  abbrev pub load_batches : Option (List (List Row)) → Task
  load_batches batches k = close (written_of batches) (write_file batches k)

  -- from the `try` statement on
  unfoldable pub load : Task
  load k =
      load_batches
        (generate_rows h.random run.load_batch_id run.total_rows run.batch_size (h.seeded k.calls))
        k

  unfoldable pub generate_and_load : Task
  generate_and_load k = after load (reset k)

  -- the last column
  abbrev pub load_batch_of : List Text → Text
  load_batch_of [] = []
  load_batch_of (c ∷ []) = c
  load_batch_of (c ∷ d ∷ cs) = load_batch_of (d ∷ cs)

  abbrev pub count_batch : Option (String × ℕ) → List (List Text) → ℕ
  count_batch none rows = 0
  count_batch (some (id, _)) rows =
      length (filter (λ r. h.same_batch (load_batch_of r) (codes id)) rows)

  -- SELECT COUNT(*) raises if there is no table.
  abbrev pub counted : Option (List (List Text)) → Task
  counted none k = (false, k)
  counted (some rows) k = (not (ltb (count_batch k.xcom rows) run.total_rows), k)

  unfoldable pub validate_row_count : Task
  validate_row_count = connected (calls_then h 2 (λ k. counted k.table k))

  -- each statement with its own COMMIT; UPDATE STATISTICS is the last
  abbrev pub index_all : List String → Task
  index_all [] = calls_then h 2 (λ k. (true, k))
  index_all (i ∷ is) =
      calls_then h 2 (λ k. index_all is (record k { indexes = create_index i k.indexes }))

  unfoldable pub create_post_load_indexes : Task
  create_post_load_indexes = connected (index_all post_load_indexes)
