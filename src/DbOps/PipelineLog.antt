-- ===== src/DbOps/PipelineLog.antt =====
-- `log_pipeline_event` of services/ingestion_consumer/app/db_ops.py.
use Prim.Native.String.{[], ◌∷◌}
use observability_lab.Prelude.{ℕ, zero, suc, String, Option}
use observability_lab.Server.{Server}
use observability_lab.Session.{Conn, begin, execute}
use observability_lab.Sql.Events.{insert_log}

-- `message[:n]`
unfoldable pub clip : ℕ → String → String
clip zero t = []
clip (suc n) [] = []
clip (suc n) (ch ∷ rest) = ch ∷ clip n rest

-- Its own transaction; whatever that raises goes to the process's log only.
unfoldable pub log_pipeline_event :
    ⦃s : Server⦄ → String → String → String → Option String → Conn → Conn
log_pipeline_event service level message event_id c =
    (begin (execute (insert_log service level (clip 500 message) event_id)) c).1
