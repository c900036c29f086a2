-- ===== src/DbOps/Events.antt =====
-- `claim_event` and `mark_event_processed` of services/ingestion_consumer/app/db_ops.py.
use observability_lab.Prelude.{String, Option}
use observability_lab.Server.{Server}
use observability_lab.Result.{Error, Result, ok, err, integrity_error, duplicate_event}
use observability_lab.Session.{Conn, Tx, execute}
use observability_lab.Sql.Events.{insert_event, update_processed}

-- `except IntegrityError as exc: raise DuplicateEvent(event_id) from exc`
abbrev pub as_duplicate : Error → Error
as_duplicate integrity_error = duplicate_event
as_duplicate e = e

abbrev pub on_integrity : Result (Unit {0}) × Conn → Result (Unit {0}) × Conn
on_integrity (ok a, c) = (ok a, c)
on_integrity (err e, c) = (err (as_duplicate e), c)

module _ ⦃s : Server⦄ where
  unfoldable pub claim_event : Option String → Option String → Tx (Unit {0})
  claim_event event_id event_type c = on_integrity (execute (insert_event event_id event_type) c)

  unfoldable pub mark_event_processed : Option String → Tx (Unit {0})
  mark_event_processed event_id = execute (update_processed event_id)
