-- ===== src/BulkLoad/Keeps.antt =====
-- What a run of the tasks keeps: a predicate `I` between the tasks, and `J` while the data file is
-- written and loaded.
use observability_lab.Prelude.{
  ℕ, String, Option, none, some, Bool, true, false, Bool-cases, inl, inr, List, [], ◌∷◌, eqb, ltb,
}
use observability_lab.Generator.Rows.{Row}
use observability_lab.BulkLoad.Text.{Text}
use observability_lab.BulkLoad.Line.{data_file}
use observability_lab.BulkLoad.Host.{
  Process, exited, interrupted, Host, Run, State, Task, tick, calls_then,
}
use observability_lab.BulkLoad.Tasks.{
  create_table, ensure_table_exists, truncated, reset, finished, run_bcp, write_file, remove_files,
  pushed, close, load, after, generate_and_load, counted, count_batch, validate_row_count,
  create_index, post_load_indexes, index_all, create_post_load_indexes,
}
use observability_lab.BulkLoad.Rules.{Pred, Ends, Leads, calls_then-Leads, after-Ends}

module _ (h : Host) (run : Run) (I : Pred) (timeless : (k : State) → I k → I (tick k))
    (tabled : (t : Option (List (List Text))) (is : List String) (k : State)
      → I k
      → I (record k { table = t; indexes = is })) where
  calls : (n : ℕ) (t : Task) → Leads I I t → Leads I I (calls_then h n t)
  calls = calls_then-Leads h I I timeless

  pub ensure_table_exists-Keeps : Leads I I (ensure_table_exists h run)
  unfolding ensure_table_exists
  ensure_table_exists-Keeps =
      calls 3 _ (calls 2 (create_table h run) (λ k p. tabled _ k.indexes k p))

  truncated-Keeps :
      (t : Option (List (List Text))) (k : State) → I k → Ends I I (truncated h run t k)
  truncated-Keeps none k p = p
  truncated-Keeps (some rows) k p = tabled _ _ k p

  reset-Keeps : Leads I I (reset h run)
  unfolding reset
  reset-Keeps =
      calls 3 _ (calls 5 (λ k. truncated h run k.table k) (λ k. truncated-Keeps k.table k))

  counted-Keeps : (t : Option (List (List Text))) (k : State) → I k → Ends I I (counted h run t k)
  counted-Keeps none k p = p
  counted-Keeps (some rows) k p =
      elim (Bool-cases (ltb (count_batch h run k.xcom rows) run.total_rows)) [
        | inl e ↦ rw e p
        | inr e ↦ rw e p
      ]

  pub validate_row_count-Keeps : Leads I I (validate_row_count h run)
  unfolding validate_row_count
  validate_row_count-Keeps =
      calls 3 _ (calls 2 (λ k. counted h run k.table k) (λ k. counted-Keeps k.table k))

  index_all-Keeps : (is : List String) → Leads I I (index_all h run is)
  index_all-Keeps [] = calls 2 (λ k. (true, k)) (λ k p. p)
  index_all-Keeps (i ∷ is) =
      calls 2 _ (λ k p. index_all-Keeps is _ (tabled k.table (create_index i k.indexes) k p))

  pub create_post_load_indexes-Keeps : Leads I I (create_post_load_indexes h run)
  unfolding create_post_load_indexes
  create_post_load_indexes-Keeps =
      calls 3 (index_all h run post_load_indexes) (index_all-Keeps post_load_indexes)

  module _ (J : Pred) (opened : (k : State) → I k → J k)
      (loading : (t : Option (List (List Text))) (f : Option Text) (e : Bool) (c : ℕ) (k : State)
        → J k
        → J (record k { table = t; data_file = f; error_file = e; calls = c }))
      (removed : (k : State) → J k → Ends I I (remove_files h run k))
      (posted : (x : Option (String × ℕ)) (k : State) → I k → I (record k { xcom = x })) where
    finished-Keeps : (o : Process) (k : State) → J k → Ends J J (finished h run o k)
    finished-Keeps (exited c) k p = elim (Bool-cases (eqb c 0)) [ inl e ↦ rw e p | inr e ↦ rw e p ]
    finished-Keeps interrupted k p = p

    write_file-Keeps : (o : Option (List (List Row))) → Leads J J (write_file h run o)
    unfolding run_bcp
    write_file-Keeps none k p = loading k.table _ k.error_file k.calls k p
    write_file-Keeps (some bs) k p = elim (Bool-cases (h.answers k.calls)) [
      | inr e ↦ rw e (loading k.table _ k.error_file _ k p)
      | inl e ↦ rw e (finished-Keeps (h.bcp _ (data_file bs)) _ (loading _ _ _ _ k p))
    ]

    close-Keeps : (n : ℕ) (o : Bool × State) → Ends J J o → Ends I I (close h run n o)
    close-Keeps n (true, k) p =
        after-Ends h run I I I (pushed h run n) (remove_files h run k)
          (calls 2 (λ k1. (true, record k1 { xcom = some (run.load_batch_id, n) }))
            (λ k1 q. posted _ k1 q))
          (removed k p)
    close-Keeps n (false, k) p =
        after-Ends h run I I I (λ k1. (false, k1)) (remove_files h run k) (λ k1 q. q) (removed k p)

    load-Keeps : Leads I I (load h run)
    unfolding load
    load-Keeps k p = close-Keeps _ (write_file h run _ k) (write_file-Keeps _ k (opened k p))

    after-Keeps : (o : Bool × State) → Ends I I o → Ends I I (after h run (load h run) o)
    after-Keeps (true, k) p = load-Keeps k p
    after-Keeps (false, k) p = p

    pub generate_and_load-Keeps : Leads I I (generate_and_load h run)
    unfolding generate_and_load
    generate_and_load-Keeps k p = after-Keeps (reset h run k) (reset-Keeps k p)
