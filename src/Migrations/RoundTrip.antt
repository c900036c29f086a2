-- ===== src/Migrations/RoundTrip.antt =====
-- The revisions and their downgrades, over any schema that does not use their names.
use observability_lab.Prelude.{◌==◌, some, ◌∷◌, true, ◌≡◌, refl}
use observability_lab.Migrations.Schema.{Schema, all_there, migrate}
use observability_lab.Migrations.Initial
use observability_lab.Migrations.Facts
use observability_lab.Migrations.Log
use observability_lab.Migrations.Rules.{
  IsUnused, names, IsForeign, any_and, Performs, Performs-migrates, table, index, dropped, undone,
}
use observability_lab.Migrations.First.{with_trigger, initial-up, initial-down}

module _ (d : Schema) (foreign : IsUnused Facts.order_history_fact_table d) where
  abbrev with_facts : Schema
  with_facts = record d { tables = Facts.order_history_fact_table ∷ d.tables }

  facts-up : Performs Facts.upgrade d with_facts
  facts-up = (_, table Facts.order_history_fact_table d foreign.objects refl, refl)

  facts-down : Performs Facts.downgrade with_facts d
  facts-down =
      let (ts, is, rs) = undone Facts.order_history_fact_table d foreign in
      (d, dropped "order_history_fact" with_facts d refl foreign.named ts is rs refl, refl)

module _ (d : Schema) (foreign : IsUnused Log.pipeline_log_table d) where
  abbrev with_log : Schema
  with_log = record d {
    tables = Log.pipeline_log_table ∷ d.tables;
    indexes = ("ix_pipeline_log_created_at", "pipeline_log") ∷ d.indexes;
  }

  log-up : Performs Log.upgrade d with_log
  log-up = (
    _,
    table Log.pipeline_log_table d foreign.objects refl,
    (
      _,
      index "ix_pipeline_log_created_at" "pipeline_log"
          (record d { tables = Log.pipeline_log_table ∷ d.tables }) refl
          (any_and (λ x. x.0 == "ix_pipeline_log_created_at") (λ x. x.1 == "pipeline_log") d.indexes
            foreign.index),
      refl,
    ),
  )

  log-down : Performs Log.downgrade with_log d
  log-down =
      let (ts, is, rs) = undone Log.pipeline_log_table d foreign in
      (d, dropped "pipeline_log" with_log d refl foreign.named ts is rs refl, refl)

-- Over any schema that does not use the names of their tables, of the constraints that they name and of
-- their trigger, names being compared as texts: the three revisions are applied without a refusal and
-- leave every one of those tables there, and their downgrades, the last revision first, are not refused
-- either and give back the schema before each of them.
pub migrations_round_trip :
    (d : Schema)
    → IsForeign d
    → (d1 d2 d3 : Schema) × (migrate Initial.upgrade d ≡ some d1)
      × (migrate Facts.upgrade d1 ≡ some d2)
      × (migrate Log.upgrade d2 ≡ some d3)
      × (all_there names d3.tables ≡ true)
      × (migrate Log.downgrade d3 ≡ some d2)
      × (migrate Facts.downgrade d2 ≡ some d1)
      × (migrate Initial.downgrade d1 ≡ some d)
migrations_round_trip d foreign =
    let (c, (a, (o, (i, (h, (p, (v, (w, (f, (l, rest)))))))))) = foreign.0 in
    let d1 = with_trigger d foreign in
    let f1 : IsUnused Facts.order_history_fact_table d1 = record {
      objects = f.objects;
      named = f.named;
      index = f.index;
      trigger = f.trigger;
    } in
    let d2 = with_facts d1 f1 in
    let l2 : IsUnused Log.pipeline_log_table d2 = record {
      objects = l.objects;
      named = l.named;
      index = l.index;
      trigger = l.trigger;
    } in
    let d3 = with_log d2 l2 in
    (
      d1,
      d2,
      d3,
      Performs-migrates Initial.upgrade d d1 (initial-up d foreign),
      Performs-migrates Facts.upgrade d1 d2 (facts-up d1 f1),
      Performs-migrates Log.upgrade d2 d3 (log-up d2 l2),
      refl,
      Performs-migrates Log.downgrade d3 d2 (log-down d2 l2),
      Performs-migrates Facts.downgrade d2 d1 (facts-down d1 f1),
      Performs-migrates Initial.downgrade d1 d (initial-down d foreign),
    )
