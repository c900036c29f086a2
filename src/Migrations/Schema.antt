-- ===== src/Migrations/Schema.antt =====
-- What Alembic's operations do to a schema of SQL Server, by its documentation: it refuses to create an
-- object whose name another object of the schema has, where tables, their constraints, triggers, views
-- and the like share one set of names and an index has one within its table; a foreign key to a table
-- that is not there; and to drop a table that is not there or that another one names. Names are
-- compared as texts.
use observability_lab.Prelude.{
  String, ◌==◌, Option, none, some, List, [], ◌∷◌, Bool, true, false, not, ◌&&◌, ◌||◌, any, filter,
  if◌then◌else◌,
}
use observability_lab.Migrations.{
  Table, Step, create_table, create_index, create_trigger, drop_table, drop_index_if_exists,
  drop_trigger_if_exists,
}

pub record Schema : Type 0 where
  pub tables : List Table
  -- the names of an index or a trigger and of its table
  pub indexes : List (String × String)
  pub triggers : List (String × String)
  -- the names of views, procedures and other objects
  pub others : List String

abbrev pub has_table : String → List Table → Bool
has_table n tables = any (λ t. t.name == n) tables

-- A table, a constraint, a trigger or another object has this name.
abbrev pub is_object : String → Schema → Bool
is_object n d =
    any (λ t. t.name == n || any (λ c. c == n) t.constraints) d.tables
    || (any (λ x. x.0 == n) d.triggers || any (λ o. o == n) d.others)

abbrev pub any_object : List String → Schema → Bool
any_object [] d = false
any_object (n ∷ ns) d = is_object n d || any_object ns d

-- Another table names it in a foreign key.
abbrev pub is_named_by : String → Table → Bool
is_named_by n t = not (t.name == n) && any (λ r. r == n) t.references

abbrev pub all_there : List String → List Table → Bool
all_there [] tables = true
all_there (r ∷ rs) tables = has_table r tables && all_there rs tables

-- none, if the step is refused
unfoldable pub perform : Step → Schema → Option Schema
perform (create_table t) d =
    if any_object (t.name ∷ t.constraints) d
    then none
    else if all_there t.references d.tables
    then some (record d { tables = t ∷ d.tables })
    else none
perform (create_index i n) d =
    if has_table n d.tables && not (any (λ x. x.0 == i && x.1 == n) d.indexes)
    then some (record d { indexes = (i, n) ∷ d.indexes })
    else none
perform (create_trigger i n) d =
    if has_table n d.tables && not (is_object i d)
    then some (record d { triggers = (i, n) ∷ d.triggers })
    else none
perform (drop_table n) d =
    if has_table n d.tables && not (any (is_named_by n) d.tables)
    then some (record {
      tables = filter (λ t. not (t.name == n)) d.tables;
      indexes = filter (λ x. not (x.1 == n)) d.indexes;
      triggers = filter (λ x. not (x.1 == n)) d.triggers;
      others = d.others;
    })
    else none
perform (drop_index_if_exists i n) d =
    some (record d { indexes = filter (λ x. not (x.0 == i && x.1 == n)) d.indexes })
perform (drop_trigger_if_exists i) d =
    some (record d { triggers = filter (λ x. not (x.0 == i)) d.triggers })

abbrev pub then_perform : Option Schema → (Schema → Option Schema) → Option Schema
then_perform none rest = none
then_perform (some d) rest = rest d

-- The steps of a revision, up to the first that is refused.
abbrev pub migrate : List Step → Schema → Option Schema
migrate [] d = some d
migrate (x ∷ xs) d = then_perform (perform x d) (migrate xs)
