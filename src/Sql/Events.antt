-- ===== src/Sql/Events.antt =====
-- The statements of `claim_event`, `mark_event_processed` and `log_pipeline_event`.
use observability_lab.Prelude.{String, Option, none, some, Bool, false, ◌∷◌, any, update_where}
use observability_lab.Server.{Server, same}
use observability_lab.Result.{ok, ◌>>=◌, ◌>>◌, raise_if, not_null, integrity_error}
use observability_lab.Tables.{Database}
use observability_lab.Session.{Statement}

module _ ⦃s : Server⦄ where
  -- `= :parameter`, where NULL equals nothing
  abbrev pub matches : Option String → String → Bool
  matches none t = false
  matches (some k) t = same k t

  -- the primary key of `processed_webhook_events`
  abbrev pub is_claimed : String → Database → Bool
  is_claimed e db = any (λ r. same e r.event_id) db.processed_webhook_events

  unfoldable pub insert_event : Option String → Option String → Statement (Unit {0})
  insert_event event_id event_type now _ db = do
    e ← not_null event_id
    t ← not_null event_type
    raise_if (is_claimed e db) integrity_error
    ok (
      tt,
      record db {
        processed_webhook_events =
            record { event_id = e; event_type = t; received_at = now; processed_at = none }
            ∷ db.processed_webhook_events;
      },
    )

  unfoldable pub update_processed : Option String → Statement (Unit {0})
  update_processed event_id now _ db = ok (
    tt,
    record db {
      processed_webhook_events =
          update_where (λ r. matches event_id r.event_id)
            (λ r. record r { processed_at = some now }) db.processed_webhook_events;
    },
  )

-- The new row's key is the server's; nothing reads it.
unfoldable pub insert_log : String → String → String → Option String → Statement (Unit {0})
insert_log service level message event_id now id db = ok (
  tt,
  record db {
    pipeline_log =
        record {
          log_id = id;
          created_at = now;
          service = service;
          level = level;
          message = message;
          event_id = event_id;
        }
        ∷ db.pipeline_log;
  },
)
