-- ===== src/Migrations/Facts.antt =====
-- db/migrations/versions/0002_order_history_fact.py.
use observability_lab.Prelude.{List, [], ◌∷◌}
use observability_lab.Migrations.{
  big_integer, integer, date_time, date_only, text_of, numeric, required, Table, Step, create_table,
  drop_table,
}

abbrev pub order_history_fact_table : Table
order_history_fact_table = record {
  name = "order_history_fact";
  columns =
      required "order_history_id" big_integer
      ∷ required "external_order_id" (text_of 64)
      ∷ required "client_external_id" (text_of 64)
      ∷ required "order_date" date_only
      ∷ required "status" (text_of 20)
      ∷ required "total_amount" (numeric 18 2)
      ∷ required "region" (text_of 50)
      ∷ required "channel" (text_of 30)
      ∷ required "item_count" integer
      ∷ required "load_batch_id" (text_of 50)
      ∷ required "loaded_at" date_time
      ∷ [];
  references = [];
  constraints = [];
}

abbrev pub upgrade : List Step
upgrade = create_table order_history_fact_table ∷ []

abbrev pub downgrade : List Step
downgrade = drop_table "order_history_fact" ∷ []
