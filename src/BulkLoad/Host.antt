-- ===== src/BulkLoad/Host.antt =====
-- What the tasks of the DAG run on: SQL Server, bcp, the disk, Airflow; and the state that they share.
use observability_lab.Prelude.{
  ℕ, zero, suc, String, ◌≡◌, Option, some, Bool, false, List, [], ◌∷◌, if◌then◌else◌,
}
use observability_lab.Generator.Rows.{Random}
use observability_lab.BulkLoad.Text.{Text}
use observability_lab.BulkLoad.Format.{read_file}
use observability_lab.BulkLoad.Notify.{Delivery}

-- Some of the elements, in their order.
pub data Sublist {A : Type 0} : List A → List A → Type 0 where
  nil : Sublist [] []
  keep : {xs ys : List A} (x : A) → Sublist xs ys → Sublist (x ∷ xs) (x ∷ ys)
  skip : {xs ys : List A} (x : A) → Sublist xs ys → Sublist xs (x ∷ ys)

-- How `subprocess.run` ends.
pub data Process : Type 0 where
  exited : ℕ → Process
  -- `TimeoutExpired`, or any other exception
  interrupted : Process

-- The calls on the database, the disk and the process are numbered together, so that each may fare
-- in its own way.
pub record Host : Type 1 where
  pub random : Random
  -- `random.Random(seed)`, for the n-th call
  pub seeded : ℕ → Random.Rng random
  -- whether the n-th call succeeds, and whether it does if it is `os.remove` of a file that is there
  pub answers : ℕ → Bool
  pub removes : ℕ → Bool
  -- the end of bcp on this file, the records that it has added to the table, and whether there is an
  -- error file after it
  pub bcp : ℕ → Text → Process
  pub added : ℕ → Text → List (List Text)
  pub has_errors : ℕ → Text → Bool
  -- bcp adds records of its file, each once at most, in their order
  pub added_sublist :
      (call n : ℕ) (file : Text) (records : List (List Text))
      → read_file n file ≡ some records
      → Sublist (added call file) records
  -- `=` on `load_batch_id`, by the collation
  pub same_batch : Text → Text → Bool
  pub timestamp : ℕ → Text
  pub telegram_token : Option String
  pub telegram_chat_id : Option String
  pub telegram : ℕ → Delivery

-- `dag_run.conf` with the defaults, and the id of the load, `f"{context['ds']}-{run_id_digest}"`
pub record Run : Type 0 where
  pub run_id : Text
  pub load_batch_id : String
  pub total_rows : ℕ
  pub batch_size : ℕ

pub record State : Type 0 where
  -- `order_history_fact`: the nine columns that bcp fills; none if there is no such table
  pub table : Option (List (List Text))
  -- the names of its secondary indexes
  pub indexes : List String
  -- the two files in /tmp
  pub data_file : Option Text
  pub error_file : Bool
  -- `load_batch_id` and `rows_written` of `generate_and_load`
  pub xcom : Option (String × ℕ)
  -- the lines of the run history, the newest first
  pub history : List Text
  pub chat : List Text
  pub calls : ℕ

-- Whether it returned, and the state that it leaves.
abbrev pub Task : Type 0
Task = State → Bool × State

abbrev pub tick : State → State
tick k = record k { calls = suc k.calls }

module _ (h : Host) where
  -- One call, and what follows it unless it raises.
  abbrev pub call : Task → Task
  call rest k = if h.answers k.calls then rest (tick k) else (false, tick k)

  abbrev pub calls_then : ℕ → Task → Task
  calls_then zero rest = rest
  calls_then (suc n) rest = call (calls_then n rest)
