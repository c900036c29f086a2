-- ===== src/Migrations/Log.antt =====
-- db/migrations/versions/0003_pipeline_log.py.
use observability_lab.Prelude.{List, [], ◌∷◌}
use observability_lab.Migrations.{
  big_integer, date_time, text_of, required, nullable, Table, Step, create_table, create_index,
  drop_table,
}

abbrev pub pipeline_log_table : Table
pipeline_log_table = record {
  name = "pipeline_log";
  columns =
      required "log_id" big_integer
      ∷ required "created_at" date_time
      ∷ required "service" (text_of 50)
      ∷ required "level" (text_of 10)
      ∷ required "message" (text_of 500)
      ∷ nullable "event_id" (text_of 100)
      ∷ [];
  references = [];
  constraints = [];
}

abbrev pub upgrade : List Step
upgrade =
    create_table pipeline_log_table ∷ create_index "ix_pipeline_log_created_at" "pipeline_log" ∷ []

abbrev pub downgrade : List Step
downgrade = drop_table "pipeline_log" ∷ []
