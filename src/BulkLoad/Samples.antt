-- ===== src/BulkLoad/Samples.antt =====
-- Test data of the bulk load: a source that draws the least value each time, a host on which every
-- call succeeds, and a load of two rows.
use observability_lab.Prelude.{
  ℕ, zero, suc, String, arith, ◌≡◌, refl, Option, none, some, Bool, true, false, inl, List, [], ◌∷◌,
  ◌&&◌, eqb,
}
use observability_lab.Generator.Rows.{Random, draw, generate_rows}
use observability_lab.BulkLoad.Text.{Text, codes, digits, decimal, pad, fixed}
use observability_lab.BulkLoad.Line.{row_to_line, order_id_text, client_id_text}
use observability_lab.BulkLoad.Format.{format_file, ◌>>=◌, read_record, read_file}
use observability_lab.BulkLoad.Dates.{next_day, date_of, isoformat}
use observability_lab.BulkLoad.Notify.{delivered}
use observability_lab.BulkLoad.Host.{Sublist, nil, keep, skip, exited, Host, Run, State}
use observability_lab.BulkLoad.Tasks.{
  ensure_table_exists, generate_and_load, reset, load, run_bcp, remove_files, validate_row_count,
  create_post_load_indexes,
}
use observability_lab.BulkLoad.Dag.{failed_tasks, run_tasks, tasks, run_dag}
use observability_lab.BulkLoad.RoundTrip.{IsReadBack, data_file_round_trip}
use observability_lab.BulkLoad.Widths.{AllRowsFit, generate_rows-AllRowsFit}
use observability_lab.BulkLoad.Served.{IsServed, run_tasks-IsServed}
use observability_lab.BulkLoad.Reliable.{IsReliable}
use observability_lab.BulkLoad.Complete.{run_dag_completes}
use observability_lab.BulkLoad.Clean.{IsClean, run_dag-IsClean}

abbrev first : List String → ℕ → String × ℕ
first [] n = ("", suc n)
first (x ∷ xs) n = (x, suc n)

abbrev least : Random
least = record {
  Rng = ℕ;
  randint = λ a b n. (a, suc n);
  choice = first;
  uniform = λ a b n. (a, suc n);
  randint_range = λ a b n h. (omega arith, h);
  choice_member = λ x xs n. inl refl;
  uniform_range = λ a b n h. (omega arith, h);
}

abbrev same_text : Text → Text → Bool
same_text [] [] = true
same_text [] (d ∷ u) = false
same_text (c ∷ t) [] = false
same_text (c ∷ t) (d ∷ u) = eqb c d && same_text t u

Sublist_refl : (xs : List (List Text)) → Sublist xs xs
Sublist_refl [] = nil
Sublist_refl (x ∷ xs) = keep x (Sublist_refl xs)

Sublist_nil : (xs : List (List Text)) → Sublist [] xs
Sublist_nil [] = nil
Sublist_nil (x ∷ xs) = skip x (Sublist_nil xs)

-- A file has one reading at most.
unreadable : {A : Type 0} {a : A} → (b c : A) → none ≡ some b → a ≡ c
unreadable b c h = cc

abbrev AgreesOn : ℕ → ℕ → Text → Type 0
AgreesOn n m t =
    (rs rs' : List (List Text)) → read_file n t ≡ some rs → read_file m t ≡ some rs' → rs ≡ rs'

rest-agrees :
    (r : List Text) (o o' : Option (List (List Text))) (rs rs' : List (List Text))
    → ((a b : List (List Text)) → o ≡ some a → o' ≡ some b → a ≡ b)
    → (o >>= (λ a. some (r ∷ a))) ≡ some rs
    → (o' >>= (λ a. some (r ∷ a))) ≡ some rs'
    → rs ≡ rs'
rest-agrees r none o' rs rs' f e e' = cc
rest-agrees r (some a) none rs rs' f e e' = cc
rest-agrees r (some a) (some b) rs rs' f e e' = let same : a ≡ b = f a b refl refl in cc

record-agrees :
    (n m : ℕ) (o : Option (List Text × Text)) (rs rs' : List (List Text))
    → ((t : Text) → AgreesOn n m t)
    → (o >>= (λ (r, t). read_file n t >>= (λ a. some (r ∷ a)))) ≡ some rs
    → (o >>= (λ (r, t). read_file m t >>= (λ a. some (r ∷ a)))) ≡ some rs'
    → rs ≡ rs'
record-agrees n m none rs rs' f e e' = cc
record-agrees n m (some (r, t)) rs rs' f e e' =
    rest-agrees r (read_file n t) (read_file m t) rs rs' (f t) e e'

read_file-agrees : (n m : ℕ) (t : Text) → AgreesOn n m t
unfolding read_file read_record
read_file-agrees zero zero [] rs rs' e e' = cc
read_file-agrees zero zero (c ∷ t) rs rs' e e' = cc
read_file-agrees zero (suc m) [] rs rs' e e' = unreadable rs' rs' e'
read_file-agrees zero (suc m) (c ∷ t) rs rs' e e' = unreadable rs rs' e
read_file-agrees (suc n) zero [] rs rs' e e' = unreadable rs rs' e
read_file-agrees (suc n) zero (c ∷ t) rs rs' e e' = unreadable rs' rs' e'
read_file-agrees (suc n) (suc m) t rs rs' e e' =
    record-agrees n m (read_record format_file t) rs rs' (read_file-agrees n m) e e'

-- bcp loads a file of two records.
abbrev two_records : Option (List (List Text)) → List (List Text)
two_records none = []
two_records (some records) = records

two_records_sublist :
    (o : Option (List (List Text))) (records : List (List Text))
    → ((rs : List (List Text)) → o ≡ some rs → rs ≡ records)
    → Sublist (two_records o) records
two_records_sublist none records f = Sublist_nil records
two_records_sublist (some rs) records f = rw (f rs refl) (Sublist_refl records)

abbrev host : Host
host = record {
  random = least;
  seeded = λ n. 0;
  answers = λ n. true;
  removes = λ n. true;
  bcp = λ n file. exited 0;
  added = λ n file. two_records (read_file 2 file);
  has_errors = λ n file. false;
  added_sublist = λ call n file records e.
      two_records_sublist (read_file 2 file) records
        (λ rs e'. read_file-agrees 2 n file rs records e' e);
  same_batch = same_text;
  timestamp = λ n. codes "2026-01-01 00:00:00 UTC";
  telegram_token = some "token";
  telegram_chat_id = some "chat";
  telegram = λ n. delivered;
}

abbrev run : Run
run = record { run_id = codes "manual"; load_batch_id = "load-1"; total_rows = 2; batch_size = 1 }

-- No table yet, and nothing in /tmp.
abbrev start : State
start = record {
  table = none;
  indexes = [];
  data_file = none;
  error_file = false;
  xcom = none;
  history = [];
  chat = [];
  calls = 0;
}

data_file_round_trip_example : IsReadBack 2 (generate_rows least "load-1" 2 1 0)
data_file_round_trip_example = data_file_round_trip least "load-1" 2 1 0 (omega arith) refl

generate_rows-AllRowsFit_example : AllRowsFit (generate_rows least "load-1" 2 1 0)
generate_rows-AllRowsFit_example =
    generate_rows-AllRowsFit least "load-1" 2 1 0 (omega arith) (omega arith) (omega arith)

no_failure : failed_tasks (run_tasks (tasks host run) start).0 ≡ []
unfolding read_file read_record ensure_table_exists generate_and_load reset load run_bcp
    validate_row_count create_post_load_indexes generate_rows draw row_to_line order_id_text
    client_id_text isoformat date_of next_day fixed pad decimal digits
no_failure = refl

run_tasks-IsServed_example : IsServed host run (run_tasks (tasks host run) start).1
run_tasks-IsServed_example = run_tasks-IsServed host run start (omega arith) refl no_failure

-- A removal that raises leaves the file.
file_left :
    (remove_files
      (record host { removes = λ n. false })
      run
      (record start { data_file = some [] })).1.data_file
    ≡ some []
file_left = refl

run_dag-IsClean_example : IsClean (run_dag host run start).2
run_dag-IsClean_example = run_dag-IsClean host run (λ n. refl) start (refl, refl)

same_text_refl : (t : Text) → same_text t t ≡ true
same_text_refl [] = refl
same_text_refl (c ∷ t) = ground (arith, same_text_refl t)

host-IsReliable : IsReliable host 2
host-IsReliable =
    (λ n. refl, λ n. refl, λ n file. refl, λ call file records e. rw e refl, same_text_refl)

run_dag_completes_example :
    (failed_tasks (run_dag host run start).0 ≡ []) × ((run_dag host run start).1 ≡ true)
run_dag_completes_example = run_dag_completes host run start host-IsReliable (omega arith) refl
