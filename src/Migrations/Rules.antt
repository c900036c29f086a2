-- ===== src/Migrations/Rules.antt =====
-- Rules for the steps of a migration that are not refused.
use observability_lab.Prelude.{
  String, ◌==◌, some, List, [], ◌∷◌, Bool, true, false, not, ◌&&◌, ◌||◌, ◌≡◌, refl, ap, any, filter,
  All, arith,
}
use observability_lab.Migrations.{
  Table, Step, create_table, create_index, create_trigger, drop_table, drop_index_if_exists,
  drop_trigger_if_exists,
}
use observability_lab.Migrations.Initial
use observability_lab.Migrations.Facts
use observability_lab.Migrations.Log
use observability_lab.Migrations.Schema.{
  is_object, any_object, Schema, has_table, is_named_by, all_there, perform, migrate,
}

-- The schema has no object with the name of this table or of one of its constraints, and none that
-- speaks of such a table.
pub record IsUnused (t : Table) (d : Schema) : Type 0 where
  pub objects : All (λ n. is_object n d ≡ false) (t.name ∷ t.constraints)
  pub named : any (is_named_by t.name) d.tables ≡ false
  pub index : any (λ x. x.1 == t.name) d.indexes ≡ false
  pub trigger : any (λ x. x.1 == t.name) d.triggers ≡ false

-- The tables of the three revisions.
abbrev pub names : List String
names =
    "clients" ∷ "address" ∷ "orders" ∷ "order_items" ∷ "order_status_history" ∷ "payment"
    ∷ "invoices" ∷ "processed_webhook_events" ∷ "order_history_fact" ∷ "pipeline_log" ∷ []

abbrev pub all_tables : List Table
all_tables =
    Initial.clients_table ∷ Initial.address_table ∷ Initial.orders_table ∷ Initial.order_items_table
    ∷ Initial.order_status_history_table ∷ Initial.payment_table ∷ Initial.invoices_table
    ∷ Initial.processed_webhook_events_table ∷ Facts.order_history_fact_table
    ∷ Log.pipeline_log_table ∷ []

-- The schema uses none of the names of the tables, of their constraints and of the trigger.
abbrev pub IsForeign : Schema → Type 0
IsForeign d =
    All (λ t. IsUnused t d) all_tables × (is_object "trg_orders_block_retro_update" d ≡ false)

module _ {A : Type 0} where
  pub filter_unused :
      (q : A → Bool) (xs : List A) → any q xs ≡ false → filter (λ x. not (q x)) xs ≡ xs
  filter_unused q [] h = refl
  filter_unused q (x ∷ xs) h = ground (arith, filter_unused q xs, h)

  pub any_and : (p q : A → Bool) (xs : List A) → any q xs ≡ false → any (λ x. p x && q x) xs ≡ false
  any_and p q [] h = refl
  any_and p q (x ∷ xs) h = ground (arith, any_and p q xs, h)

-- The steps one after the other, with the schemas between them.
abbrev pub Performs : List Step → Schema → Schema → Type 0
Performs [] d e = d ≡ e
Performs (x ∷ xs) d e = (c : Schema) × (perform x d ≡ some c) × Performs xs c e

pub Performs-migrates : (xs : List Step) (d e : Schema) → Performs xs d e → migrate xs d ≡ some e
Performs-migrates [] d e h = ap some h
Performs-migrates (x ∷ xs) d e (c, h, k) = rw h (Performs-migrates xs c e k)

any_table :
    (p q : Table → Bool) (ts : List Table) → any (λ t. p t || q t) ts ≡ false → any p ts ≡ false
any_table p q [] h = refl
any_table p q (t ∷ ts) h = ground (arith, any_table p q ts, h)

-- No object has the name, so no table and no trigger has it.
object_table : (n : String) (d : Schema) → is_object n d ≡ false → has_table n d.tables ≡ false
object_table n d h =
    any_table (λ t. t.name == n) (λ t. any (λ c. c == n) t.constraints) d.tables (ground (arith, h))

object_trigger :
    (n : String) (d : Schema) → is_object n d ≡ false → any (λ x. x.0 == n) d.triggers ≡ false
object_trigger n d h = ground (arith, h)

any_object-false :
    (ns : List String) (d : Schema) → All (λ n. is_object n d ≡ false) ns → any_object ns d ≡ false
any_object-false [] d h = refl
any_object-false (n ∷ ns) d h = rw (h.0) (any_object-false ns d h.1)

pub table :
    (t : Table) (d : Schema)
    → All (λ n. is_object n d ≡ false) (t.name ∷ t.constraints)
    → all_there t.references d.tables ≡ true
    → perform (create_table t) d ≡ some (record d { tables = t ∷ d.tables })
unfolding perform
table t d h k = rw (any_object-false (t.name ∷ t.constraints) d h, k) refl

pub index :
    (i n : String) (d : Schema)
    → has_table n d.tables ≡ true
    → any (λ x. x.0 == i && x.1 == n) d.indexes ≡ false
    → perform (create_index i n) d ≡ some (record d { indexes = (i, n) ∷ d.indexes })
unfolding perform
index i n d h k = rw (h, k) refl

pub trigger :
    (i n : String) (d : Schema)
    → has_table n d.tables ≡ true
    → is_object i d ≡ false
    → perform (create_trigger i n) d ≡ some (record d { triggers = (i, n) ∷ d.triggers })
unfolding perform
trigger i n d h k = rw (h, k) refl

pub dropped :
    (n : String) (d e : Schema)
    → has_table n d.tables ≡ true
    → any (is_named_by n) d.tables ≡ false
    → filter (λ t. not (t.name == n)) d.tables ≡ e.tables
    → filter (λ x. not (x.1 == n)) d.indexes ≡ e.indexes
    → filter (λ x. not (x.1 == n)) d.triggers ≡ e.triggers
    → d.others ≡ e.others
    → perform (drop_table n) d ≡ some e
unfolding perform
dropped n d e h k ts is rs os = rw (h, k, ts, is, rs, os) refl

pub unset :
    (i n : String) (d : Schema)
    → is_object i d ≡ false
    → (i == i) ≡ true
    → perform (drop_trigger_if_exists i) (record d { triggers = (i, n) ∷ d.triggers }) ≡ some d
unfolding perform
unset i n d h k = rw (k, filter_unused (λ x. x.0 == i) d.triggers (object_trigger i d h)) refl

pub unindexed :
    (i n : String) (d e : Schema)
    → record d { indexes = filter (λ x. not (x.0 == i && x.1 == n)) d.indexes } ≡ e
    → perform (drop_index_if_exists i n) d ≡ some e
unfolding perform
unindexed i n d e h = ap some h

-- Dropping the table added last: the rest of the schema does not speak of it.
pub undone :
    (t : Table) (d : Schema)
    → IsUnused t d
    → (filter (λ u. not (u.name == t.name)) d.tables ≡ d.tables)
      × (filter (λ x. not (x.1 == t.name)) d.indexes ≡ d.indexes)
      × (filter (λ x. not (x.1 == t.name)) d.triggers ≡ d.triggers)
undone t d h = (
  filter_unused (λ u. u.name == t.name) d.tables (object_table t.name d h.objects.0),
  filter_unused (λ x. x.1 == t.name) d.indexes h.index,
  filter_unused (λ x. x.1 == t.name) d.triggers h.trigger,
)
