-- ===== src/BulkLoad/Loaded.antt =====
-- What the table holds when no task has failed.
use observability_lab.Prelude.{
  ℕ, suc, String, arith, ◌≡◌, refl, ap, ◌∙◌, Option, none, some, Bool, true, false, Bool-cases, inl,
  inr, List, [], ◌∷◌, filter, length, map, eqb, ltb, ◌≤◌,
}
use mathlib.Core.List.{append-nil}
use observability_lab.Generator.Rows.{Random, Row, generate_rows}
use observability_lab.BulkLoad.Text.{Text, codes, lacks}
use observability_lab.BulkLoad.Line.{row_terminator, fields, data_file}
use observability_lab.BulkLoad.Format.{read_file}
use observability_lab.BulkLoad.RoundTrip.{rows_of, IsReadBack, data_file_round_trip}
use observability_lab.BulkLoad.Host.{
  Sublist, nil, keep, skip, Process, exited, interrupted, Host, Run, State, tick, calls_then,
}
use observability_lab.BulkLoad.Tasks.{
  truncated, reset, grown, finished, run_bcp, write_file, written_of, remove_files, pushed, close,
  load, after, generate_and_load, count_batch, load_batch_of, counted, validate_row_count,
}
use observability_lab.BulkLoad.Rules.{
  Pred, Ends, Leads, Ends-weaken, calls_then-Leads, after-Ends, remove_files-Keeps,
}

Sublist-length : {A : Type 0} {xs ys : List A} → Sublist xs ys → length xs ≤ length ys
Sublist-length nil = omega arith
Sublist-length (keep x s) = omega (arith, Sublist-length s)
Sublist-length (skip x s) = omega (arith, Sublist-length s)

Sublist_full : {A : Type 0} {xs ys : List A} → Sublist xs ys → length ys ≤ length xs → xs ≡ ys
Sublist_full nil h = refl
Sublist_full {A} (keep x s) h = ap (λ (l : List A). x ∷ l) (Sublist_full s (omega (arith, h)))
Sublist_full (skip x s) h = absurd (omega (arith, h, Sublist-length s))

length-filter-le : {A : Type 0} (p : A → Bool) (xs : List A) → length (filter p xs) ≤ length xs
length-filter-le p [] = omega arith
length-filter-le p (x ∷ xs) = ground (arith, length-filter-le p xs)

length-map : {A B : Type 0} (f : A → B) (xs : List A) → length (map f xs) ≡ length xs
length-map f [] = refl
length-map f (x ∷ xs) = ap suc (length-map f xs)

module _ (h : Host) (run : Run) where
  -- A run of the generator, and what it yields.
  abbrev pub Yields : List (List Row) → Type 0
  Yields bs =
      (g : Random.Rng h.random) × (generate_rows h.random run.load_batch_id run.total_rows
          run.batch_size g
        ≡ some bs)

  -- The rows of one run of the generator, all of them and no others, column by column.
  abbrev pub IsLoaded : Pred
  IsLoaded k =
      (bs : List (List Row)) × Yields bs
      × (length (rows_of bs) ≡ run.total_rows)
      × (k.table ≡ some (map fields (rows_of bs)))

  -- Some of them.
  abbrev pub IsPartial : Pred
  IsPartial k =
      (bs : List (List Row)) × (rows : List (List Text)) × Yields bs
      × (length (rows_of bs) ≡ run.total_rows)
      × (k.table ≡ some rows)
      × Sublist rows (map fields (rows_of bs))

  abbrev pub Anything : Pred
  Anything k = Unit

  abbrev IsEmpty : Pred
  IsEmpty k = k.table ≡ some []

  truncated-Leads :
      (t : Option (List (List Text))) (k : State) → Ends Anything IsEmpty (truncated h run t k)
  truncated-Leads none k = tt
  truncated-Leads (some rows) k = refl

  reset-Leads : Leads Anything IsEmpty (reset h run)
  unfolding reset
  reset-Leads =
      calls_then-Leads h Anything IsEmpty (λ k p. tt) 3
        (calls_then h 5 (λ k. truncated h run k.table k))
        (calls_then-Leads h Anything IsEmpty (λ k p. tt) 5 (λ k. truncated h run k.table k)
          (λ k p. truncated-Leads k.table k))

  finished-Leads : (P : Pred) (o : Process) (k : State) → P k → Ends Anything P (finished h run o k)
  finished-Leads P (exited c) k p = elim (Bool-cases (eqb c 0)) [ inl e ↦ rw e p | inr e ↦ rw e tt ]
  finished-Leads P interrupted k p = tt

  run_bcp-Leads :
      (bs : List (List Row)) (k : State)
      → Yields bs
      → (length (rows_of bs) ≡ run.total_rows)
        × (read_file run.total_rows (data_file bs) ≡ some (map fields (rows_of bs)))
      → IsEmpty k
      → Ends Anything IsPartial (run_bcp h run (data_file bs) k)
  unfolding run_bcp
  run_bcp-Leads bs k y back e =
      let rows : List (List Text) = h.added k.calls (data_file bs) in
      finished-Leads IsPartial (h.bcp k.calls (data_file bs)) _ (
        bs,
        rows,
        y,
        back.0,
        ap (grown h run rows) e ∙ ap some (append-nil rows),
        h.added_sublist k.calls run.total_rows (data_file bs) (map fields (rows_of bs)) back.1,
      )

  close-Leads :
      (n : ℕ) (o : Bool × State)
      → Ends Anything IsPartial o
      → Ends Anything IsPartial (close h run n o)
  close-Leads n (true, k) p =
      after-Ends h run Anything IsPartial IsPartial (pushed h run n) (remove_files h run k)
        (λ k1 q.
          Ends-weaken IsPartial Anything IsPartial (pushed h run n k1) (λ k2 r. tt)
            (calls_then-Leads h IsPartial IsPartial (λ k2 r. r) 2
              (λ k2. (true, record k2 { xcom = some (run.load_batch_id, n) })) (λ k2 r. r) k1 q))
        (Ends-weaken IsPartial Anything IsPartial (remove_files h run k) (λ k1 q. tt)
          (remove_files-Keeps h run IsPartial (λ f e c k1 q. q) k p))
  close-Leads n (false, k) p =
      after-Ends h run Anything Anything IsPartial (λ k1. (false, k1)) (remove_files h run k)
        (λ k1 q. tt) (remove_files-Keeps h run Anything (λ f e c k1 q. tt) k tt)

  write_file-Leads :
      (o : Option (List (List Row))) (g : Random.Rng h.random) (k : State)
      → generate_rows h.random run.load_batch_id run.total_rows run.batch_size g ≡ o
      → IsReadBack run.total_rows o
      → IsEmpty k
      → Ends Anything IsPartial (write_file h run o k)
  write_file-Leads none g k y back e = tt
  write_file-Leads (some bs) g k y back e = elim (Bool-cases (h.answers k.calls)) [
    | inr f ↦ rw f tt
    | inl t ↦
        rw t (run_bcp-Leads bs (record (tick k) { data_file = some (data_file bs) }) (g, y) back e)
  ]

  module _ (sized : 1 ≤ run.batch_size)
      (free : lacks row_terminator (codes run.load_batch_id) ≡ true) where
    load-Ends : (k : State) → IsEmpty k → Ends Anything IsPartial (load h run k)
    unfolding load
    load-Ends k e =
        let g = h.seeded k.calls in
        let o = generate_rows h.random run.load_batch_id run.total_rows run.batch_size g in
        close-Leads (written_of h run o) (write_file h run o k) (
          write_file-Leads o g k refl
            (data_file_round_trip h.random run.load_batch_id run.total_rows run.batch_size g sized
              free)
            e)

    after-Leads :
        (o : Bool × State)
        → Ends Anything IsEmpty o
        → Ends Anything IsPartial (after h run (load h run) o)
    after-Leads (true, k) e = load-Ends k e
    after-Leads (false, k) e = tt

    pub generate_and_load-Leads : Leads Anything IsPartial (generate_and_load h run)
    unfolding generate_and_load
    generate_and_load-Leads k p = after-Leads (reset h run k) (reset-Leads k p)

  count-le :
      (x : Option (String × ℕ)) (rows : List (List Text)) → count_batch h run x rows ≤ length rows
  count-le none rows = omega arith
  count-le (some (id, n)) rows =
      length-filter-le (λ r. h.same_batch (load_batch_of h run r) (codes id)) rows

  -- The count of the batch's rows is enough only if bcp has left none out.
  counted-Leads :
      (t : Option (List (List Text))) (k : State)
      → k.table ≡ t
      → IsPartial k
      → Ends IsPartial IsLoaded (counted h run t k)
  counted-Leads none k e p = p
  counted-Leads (some rows) k e (bs, rows', y, n, e', s) =
      elim (Bool-cases (ltb (count_batch h run k.xcom rows) run.total_rows)) [
        | inl f ↦ rw f (bs, rows', y, n, e', s)
        | inr t ↦
            let enough : run.total_rows ≤ count_batch h run k.xcom rows = ground arith in
            let same : rows ≡ rows' = cc in
            let all : run.total_rows ≤ length rows' =
              omega (arith, enough, count-le k.xcom rows, ap length same) in
            let whole : rows' ≡ map fields (rows_of bs) =
              Sublist_full s (omega (arith, all, length-map fields (rows_of bs), n)) in
            rw t (bs, y, n, e' ∙ ap some whole)
      ]

  pub validate-Leads : Leads IsPartial IsLoaded (validate_row_count h run)
  unfolding validate_row_count
  validate-Leads =
      calls_then-Leads h IsPartial IsLoaded (λ k p. p) 3
        (calls_then h 2 (λ k. counted h run k.table k))
        (calls_then-Leads h IsPartial IsLoaded (λ k p. p) 2 (λ k. counted h run k.table k)
          (λ k p. counted-Leads k.table k refl p))
