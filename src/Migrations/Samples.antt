-- ===== src/Migrations/Samples.antt =====
-- A schema with a table and a view of its own.
use observability_lab.Prelude.{[], ◌∷◌, refl, true, none, some, ◌≡◌}
use observability_lab.Migrations.{text_of, required}
use observability_lab.Migrations.Initial
use observability_lab.Migrations.Facts
use observability_lab.Migrations.Log
use observability_lab.Migrations.Schema.{Schema, all_there, perform, migrate}
use observability_lab.Migrations.Rules.{names, IsForeign}
use observability_lab.Migrations.RoundTrip.{migrations_round_trip}

-- the table that Alembic keeps its version in, and a view
abbrev versioned : Schema
versioned = record {
  tables =
      record {
        name = "alembic_version";
        columns = required "version_num" (text_of 32) ∷ [];
        references = [];
        constraints = "alembic_version_pkc" ∷ [];
      }
      ∷ [];
  indexes = [];
  triggers = [];
  others = "active_orders" ∷ [];
}

versioned-IsForeign : IsForeign versioned
versioned-IsForeign = (
  (
    (record { objects = (refl, (refl, tt)); named = refl; index = refl; trigger = refl }),
    (
      (record { objects = (refl, tt); named = refl; index = refl; trigger = refl }),
      (
        (record {
          objects = (refl, (refl, (refl, tt)));
          named = refl;
          index = refl;
          trigger = refl;
        }),
        (
          (record { objects = (refl, tt); named = refl; index = refl; trigger = refl }),
          (
            (record { objects = (refl, tt); named = refl; index = refl; trigger = refl }),
            (
              (record {
                objects = (refl, (refl, (refl, tt)));
                named = refl;
                index = refl;
                trigger = refl;
              }),
              (
                (record {
                  objects = (refl, (refl, (refl, tt)));
                  named = refl;
                  index = refl;
                  trigger = refl;
                }),
                (
                  (record { objects = (refl, tt); named = refl; index = refl; trigger = refl }),
                  (
                    (record { objects = (refl, tt); named = refl; index = refl; trigger = refl }),
                    (
                      (record { objects = (refl, tt); named = refl; index = refl; trigger = refl }),
                      tt,
                    ),
                  ),
                ),
              ),
            ),
          ),
        ),
      ),
    ),
  ),
  refl,
)

-- A view with the name of a constraint is in the way.
name_taken : migrate Initial.upgrade (record versioned { others = "ck_orders_status" ∷ [] }) ≡ none
unfolding perform
name_taken = refl

migrations_round_trip_example :
    (d1 d2 d3 : Schema) × (migrate Initial.upgrade versioned ≡ some d1)
    × (migrate Facts.upgrade d1 ≡ some d2)
    × (migrate Log.upgrade d2 ≡ some d3)
    × (all_there names d3.tables ≡ true)
    × (migrate Log.downgrade d3 ≡ some d2)
    × (migrate Facts.downgrade d2 ≡ some d1)
    × (migrate Initial.downgrade d1 ≡ some versioned)
migrations_round_trip_example = migrations_round_trip versioned versioned-IsForeign
