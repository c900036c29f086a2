-- ===== src/BulkLoad/Dag.antt =====
-- The DAG: `t1 >> t2 >> t3 >> t4 >> t5`, each task with `"retries": 1`, and the notification, which
-- runs whatever became of the others.
use observability_lab.Prelude.{
  ℕ, suc, String, Option, none, some, Bool, true, false, List, [], ◌∷◌, ◌++◌, if◌then◌else◌,
}
use observability_lab.BulkLoad.Text.{Text, codes, decimal}
use observability_lab.BulkLoad.Notify.{history_line, send_telegram_message}
use observability_lab.BulkLoad.Host.{Host, Run, State, Task, tick}
use observability_lab.BulkLoad.Tasks.{
  ensure_table_exists, generate_and_load, validate_row_count, create_post_load_indexes,
}

pub data TaskState : Type 0 where
  success : TaskState
  failed : TaskState
  upstream_failed : TaskState

abbrev pub States : Type 0
States = List (String × TaskState)

abbrev pub again : Task → Bool × State → Bool × State
again task (true, k) = (true, k)
again task (false, k) = task k

-- a task with one retry
abbrev pub tried : Task → Task
tried task k = again task (task k)

abbrev pub skipped : List (String × Task) → States
skipped [] = []
skipped ((name, _) ∷ ts) = (name, upstream_failed) ∷ skipped ts

abbrev pub stage :
    String → List (String × Task) → (State → States × State) → Bool × State → States × State
stage name ts rest (true, k) = let (states, k') = rest k in ((name, success) ∷ states, k')
stage name ts rest (false, k) = ((name, failed) ∷ skipped ts, k)

abbrev pub run_tasks : List (String × Task) → State → States × State
run_tasks [] k = ([], k)
run_tasks ((name, t) ∷ ts) k = stage name ts (run_tasks ts) (tried t k)

-- `[ti.task_id for ti in … if ti.state == "failed"]`
abbrev pub failed_tasks : States → List String
failed_tasks [] = []
failed_tasks ((name, success) ∷ ss) = failed_tasks ss
failed_tasks ((name, failed) ∷ ss) = name ∷ failed_tasks ss
failed_tasks ((name, upstream_failed) ∷ ss) = failed_tasks ss

-- `', '.join(names)`
abbrev pub listed : List String → Text
listed [] = []
listed (n ∷ []) = codes n
listed (n ∷ m ∷ ns) = codes n ++ (codes ", " ++ listed (m ∷ ns))

-- `str(rows)`
abbrev pub rows_text : Option (String × ℕ) → Text
rows_text none = codes "None"
rows_text (some (_, n)) = decimal n

module _ (h : Host) (run : Run) where
  abbrev pub tasks : List (String × Task)
  tasks =
      ("ensure_table_exists", ensure_table_exists h run)
      ∷ ("generate_and_load", generate_and_load h run)
      ∷ ("validate_row_count", validate_row_count h run)
      ∷ ("create_post_load_indexes", create_post_load_indexes h run)
      ∷ []

  -- `record_run`, then `send_telegram_message`
  abbrev pub report : String → Text → Text → Task
  report status detail message k =
      if h.answers k.calls
      then (
        true,
        record k {
          history = history_line (h.timestamp k.calls) (codes status) run.run_id detail ∷ k.history;
          chat =
              send_telegram_message h.telegram_token h.telegram_chat_id (h.telegram k.calls) message
                k.chat;
          calls = suc k.calls;
        },
      )
      else (false, tick k)

  abbrev pub notify_failed : List String → Task
  notify_failed [] k =
      report "success" (codes "rows=" ++ rows_text k.xcom)
        (codes "[bulk_load_dimensions] carga concluída: "
          ++ (rows_text k.xcom ++ (codes " linhas carregadas (run " ++ (run.run_id ++ codes ")"))))
        k
  notify_failed (n ∷ ns) k =
      report "failed" (codes "failed tasks: " ++ listed (n ∷ ns))
        (codes "[bulk_load_dimensions] falhou — tasks com erro: "
          ++ (listed (n ∷ ns) ++ (codes " (run " ++ (run.run_id ++ codes ")"))))
        k

  unfoldable pub notify_completion : States → Task
  notify_completion states = notify_failed (failed_tasks states)

  unfoldable pub run_dag : State → States × Bool × State
  run_dag k =
      let (states, k1) = run_tasks tasks k in
      let (notified, k2) = tried (notify_completion states) k1 in (states, notified, k2)
