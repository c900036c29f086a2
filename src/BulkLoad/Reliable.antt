-- ===== src/BulkLoad/Reliable.antt =====
-- The tasks up to the count, on a host where nothing fails.
use observability_lab.Prelude.{
  ℕ, zero, suc, arith, ◌≡◌, refl, ap, ◌∙◌, Option, none, some, Bool, true, false, List, [], ◌∷◌,
  All, length, map, ltb, ◌≤◌,
}
use mathlib.Core.List.{append-nil}
use observability_lab.Generator.Rows.{Row, generate_rows}
use observability_lab.Generator.Pools.{IsDrawn, AllDrawn, generate_rows-AllDrawn}
use observability_lab.BulkLoad.Text.{Text, codes, lacks}
use observability_lab.BulkLoad.Line.{row_terminator, fields, data_file}
use observability_lab.BulkLoad.Format.{read_file}
use observability_lab.BulkLoad.RoundTrip.{
  rows_of, rows_of-IsDrawn, IsReadBack, data_file_round_trip,
}
use observability_lab.BulkLoad.Host.{Host, exited, Run, State, Task, tick, calls_then}
use observability_lab.BulkLoad.Tasks.{
  created, create_table, ensure_table_exists, truncated, reset, grown, run_bcp, write_file,
  written_of, remove_data, remove_error, remove_files, pushed, close, load, after,
  generate_and_load, count_batch, counted, validate_row_count,
}
use observability_lab.BulkLoad.Dag.{again, tried}
use observability_lab.BulkLoad.Rules.{Pred, Ends, after-Ends}

-- The calls succeed and so do the removals of files, bcp adds every record of a file of `total` records, and a text is equal to itself.
abbrev pub IsReliable : Host → ℕ → Type 0
IsReliable h total =
    ((n : ℕ) → h.answers n ≡ true)
    × ((n : ℕ) → h.removes n ≡ true)
    × ((n : ℕ) (file : Text) → h.bcp n file ≡ exited 0)
    × ((call : ℕ) (file : Text) (records : List (List Text))
        → read_file total file ≡ some records
        → h.added call file ≡ records)
    × ((t : Text) → h.same_batch t t ≡ true)

-- It returns, and `Q` holds.
abbrev pub Returns : Pred → Bool × State → Type 0
Returns Q o = Ends (λ k. ⊥) Q o

abbrev pub Does : Pred → Pred → Task → Type 0
Does P Q t = (k : State) → P k → Returns Q (t k)

pub tried-Does : (P Q : Pred) (t : Task) → Does P Q t → Does P Q (tried t)
tried-Does P Q t d k p = again-Returns (t k) (d k p)
  where
    again-Returns : (o : Bool × State) → Returns Q o → Returns Q (again t o)
    again-Returns (true, k') r = r
    again-Returns (false, k') r = absurd r

abbrev pub Anything : Pred
Anything k = Unit

abbrev pub HasTable : Pred
HasTable k = (rows : List (List Text)) × (k.table ≡ some rows)

abbrev IsEmpty : Pred
IsEmpty k = k.table ≡ some []

created-some : (t : Option (List (List Text))) → (rows : List (List Text)) × (created t ≡ some rows)
created-some none = ([], refl)
created-some (some rows) = (rows, refl)

module _ (h : Host) (run : Run) (reliable : IsReliable h run.total_rows) where
  pub calls-Does :
      (P Q : Pred)
      → ((k : State) → P k → P (tick k))
      → (n : ℕ) (t : Task) → Does P Q t
      → Does P Q (calls_then h n t)
  calls-Does P Q timeless zero t d k p = d k p
  calls-Does P Q timeless (suc n) t d k p =
      rw (reliable.0 k.calls) (calls-Does P Q timeless n t d (tick k) (timeless k p))

  pub ensure-Does : Does Anything HasTable (ensure_table_exists h run)
  unfolding ensure_table_exists
  ensure-Does =
      calls-Does Anything HasTable (λ k p. tt) 3 _
        (calls-Does Anything HasTable (λ k p. tt) 2 (create_table h run)
          (λ k p. created-some k.table))

  truncated-Returns :
      (t : Option (List (List Text))) (rows : List (List Text)) (k : State)
      → t ≡ some rows
      → Returns IsEmpty (truncated h run t k)
  truncated-Returns none rows k e = cc
  truncated-Returns (some old) rows k e = refl

  reset-Does : Does HasTable IsEmpty (reset h run)
  unfolding reset
  reset-Does =
      calls-Does HasTable IsEmpty (λ k p. p) 3 (calls_then h 5 (λ k. truncated h run k.table k))
        (calls-Does HasTable IsEmpty (λ k p. p) 5 (λ k. truncated h run k.table k)
          (λ k p. truncated-Returns k.table p.0 k p.1))

  -- All the rows are there, and so is the id of their load.
  abbrev pub IsFull : Pred
  IsFull k =
      (rs : List Row) × (n : ℕ) × All (IsDrawn run.load_batch_id) rs
      × (length rs ≡ run.total_rows)
      × (k.table ≡ some (map fields rs))
      × (k.xcom ≡ some (run.load_batch_id, n))

  abbrev HoldsRows : List Row → Pred
  HoldsRows rs k = k.table ≡ some (map fields rs)

  run_bcp-Returns :
      (bs : List (List Row)) (k : State)
      → read_file run.total_rows (data_file bs) ≡ some (map fields (rows_of bs))
      → IsEmpty k
      → Returns (HoldsRows (rows_of bs)) (run_bcp h run (data_file bs) k)
  unfolding run_bcp
  run_bcp-Returns bs k back e = rw (reliable.2 k.calls (data_file bs)) (
      ap (λ t. grown h run (h.added k.calls (data_file bs)) t) e
      ∙ (ap some (append-nil (h.added k.calls (data_file bs)))
          ∙ ap some (reliable.3 k.calls (data_file bs) (map fields (rows_of bs)) back)))

  module _ (Q : Pred)
      (loose : (f : Option Text) (e : Bool) (c : ℕ) (k : State)
        → Q k
        → Q (record k { data_file = f; error_file = e; calls = c })) where
    remove_error-Returns : (b : Bool) → Does Q Q (remove_error h run b)
    remove_error-Returns false k q = q
    remove_error-Returns true k q =
        rw (reliable.1 k.calls) (loose k.data_file false (suc k.calls) k q)

    remove_data-Returns : (o : Option Text) → Does Q Q (remove_data h run o)
    remove_data-Returns none k q = q
    remove_data-Returns (some file) k q =
        rw (reliable.1 k.calls) (loose none k.error_file (suc k.calls) k q)

    remove_files-Returns : Does Q Q (remove_files h run)
    remove_files-Returns k q =
        after-Ends h run (λ k1. ⊥) Q Q (λ k1. remove_error h run k1.error_file k1)
          (remove_data h run k.data_file k) (λ k1. remove_error-Returns k1.error_file k1)
          (remove_data-Returns k.data_file k q)

  pushed-Returns :
      (bs : List (List Row)) (n : ℕ) (k : State)
      → All (IsDrawn run.load_batch_id) (rows_of bs)
      → length (rows_of bs) ≡ run.total_rows
      → HoldsRows (rows_of bs) k
      → Returns IsFull (pushed h run n k)
  pushed-Returns bs n k d l r =
      calls-Does (HoldsRows (rows_of bs)) IsFull (λ k1 q. q) 2
        (λ k1. (true, record k1 { xcom = some (run.load_batch_id, n) }))
        (λ k1 q. (rows_of bs, n, d, l, q, refl)) k r

  close-Returns :
      (bs : List (List Row)) (n : ℕ) (o : Bool × State)
      → All (IsDrawn run.load_batch_id) (rows_of bs)
      → length (rows_of bs) ≡ run.total_rows
      → Returns (HoldsRows (rows_of bs)) o
      → Returns IsFull (close h run n o)
  close-Returns bs n (true, k) d l r =
      after-Ends h run (λ k1. ⊥) (HoldsRows (rows_of bs)) IsFull (pushed h run n)
        (remove_files h run k) (λ k1 q. pushed-Returns bs n k1 d l q)
        (remove_files-Returns (HoldsRows (rows_of bs)) (λ f e c k1 q. q) k r)
  close-Returns bs n (false, k) d l r = absurd r

  load_batches-Returns :
      (o : Option (List (List Row))) (n : ℕ) (k : State)
      → IsReadBack run.total_rows o
      → AllDrawn run.load_batch_id o
      → IsEmpty k
      → Returns IsFull (close h run n (write_file h run o k))
  load_batches-Returns none n k back d e = absurd back
  load_batches-Returns (some bs) n k back d e =
      close-Returns bs n (write_file h run (some bs) k) (rows_of-IsDrawn run.load_batch_id bs d)
        back.0
        (rw (reliable.0 k.calls)
          (run_bcp-Returns bs (record (tick k) { data_file = some (data_file bs) }) back.1 e))

  count_all :
      (rs : List Row) (n : ℕ)
      → All (IsDrawn run.load_batch_id) rs
      → count_batch h run (some (run.load_batch_id, n)) (map fields rs) ≡ length rs
  count_all [] n d = refl
  count_all (r ∷ rs) n d =
      rw (d.0.batch, reliable.4 (codes run.load_batch_id)) (ap suc (count_all rs n d.1))

  counted-Returns :
      (t : Option (List (List Text))) (k : State)
      → t ≡ k.table
      → IsFull k
      → Returns IsFull (counted h run t k)
  counted-Returns none k e (rs, n, d, l, t, x) = cc
  counted-Returns (some rows) k e (rs, n, d, l, t, x) =
      let same : rows ≡ map fields rs = cc in
      let enough : ltb (count_batch h run k.xcom rows) run.total_rows ≡ false =
        rw (x, same, count_all rs n d) (ground (arith, l)) in
      rw enough (rs, n, d, l, t, x)

  pub validate-Does : Does IsFull IsFull (validate_row_count h run)
  unfolding validate_row_count
  validate-Does =
      calls-Does IsFull IsFull (λ k p. p) 3 (calls_then h 2 (λ k. counted h run k.table k))
        (calls-Does IsFull IsFull (λ k p. p) 2 (λ k. counted h run k.table k)
          (λ k. counted-Returns k.table k refl))

  module _ (sized : 1 ≤ run.batch_size)
      (free : lacks row_terminator (codes run.load_batch_id) ≡ true) where
    after-Returns :
        (o : Bool × State) → Returns IsEmpty o → Returns IsFull (after h run (load h run) o)
    unfolding load
    after-Returns (true, k) e =
        let g = h.seeded k.calls in
        let o = generate_rows h.random run.load_batch_id run.total_rows run.batch_size g in
        load_batches-Returns o (written_of h run o) k
          (data_file_round_trip h.random run.load_batch_id run.total_rows run.batch_size g sized
            free)
          (generate_rows-AllDrawn h.random run.load_batch_id run.total_rows run.batch_size g) e
    after-Returns (false, k) e = absurd e

    pub generate-Does : Does HasTable IsFull (generate_and_load h run)
    unfolding generate_and_load
    generate-Does k p = after-Returns (reset h run k) (reset-Does k p)
