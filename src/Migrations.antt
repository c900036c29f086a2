-- ===== src/Migrations.antt =====
-- The revisions of db/migrations/versions as lists of steps. A table has its columns, the tables
-- that its foreign keys name and the names of its constraints, as far as the revision names them; what
-- unique and CHECK constraints test, defaults and the keys of an index go with the object that they
-- belong to.
pub mod Initial
pub mod Facts
pub mod Log
pub mod Schema
pub mod Rules
pub mod First
pub mod RoundTrip
mod Samples
use observability_lab.Prelude.{ℕ, String, List, [], ◌∷◌, Bool, true, false}

pub data ColumnType : Type 0 where
  big_integer : ColumnType
  integer : ColumnType
  boolean : ColumnType
  date_time : ColumnType
  date_only : ColumnType
  text_of : ℕ → ColumnType
  numeric : ℕ → ℕ → ColumnType

pub record Column : Type 0 where
  pub name : String
  pub type : ColumnType
  pub is_nullable : Bool

abbrev pub required : String → ColumnType → Column
required n t = record { name = n; type = t; is_nullable = false }

abbrev pub nullable : String → ColumnType → Column
nullable n t = record { name = n; type = t; is_nullable = true }

pub record Table : Type 0 where
  pub name : String
  pub columns : List Column
  pub references : List String
  -- the other constraints are named by SQL Server, each in its own way
  pub constraints : List String

pub data Step : Type 0 where
  create_table : Table → Step
  -- the index, and its table
  create_index : String → String → Step
  create_trigger : String → String → Step
  drop_table : String → Step
  drop_index_if_exists : String → String → Step
  drop_trigger_if_exists : String → Step
