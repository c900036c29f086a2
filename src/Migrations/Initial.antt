-- ===== src/Migrations/Initial.antt =====
-- db/migrations/versions/0001_initial_schema.py.
use observability_lab.Prelude.{List, [], ◌∷◌}
use observability_lab.Migrations.{
  big_integer, boolean, date_time, text_of, numeric, required, nullable, Table, Step, create_table,
  create_index, create_trigger, drop_table, drop_index_if_exists, drop_trigger_if_exists,
}

abbrev pub clients_table : Table
clients_table = record {
  name = "clients";
  columns =
      required "client_id" big_integer
      ∷ required "external_client_id" (text_of 64)
      ∷ required "name" (text_of 200)
      ∷ required "email" (text_of 200)
      ∷ required "document" (text_of 32)
      ∷ required "created_at" date_time
      ∷ required "updated_at" date_time
      ∷ [];
  references = [];
  constraints = "uq_clients_external_client_id" ∷ [];
}

abbrev pub address_table : Table
address_table = record {
  name = "address";
  columns =
      required "address_id" big_integer
      ∷ required "client_id" big_integer
      ∷ required "external_address_id" (text_of 64)
      ∷ required "street" (text_of 200)
      ∷ required "number" (text_of 20)
      ∷ nullable "complement" (text_of 100)
      ∷ required "neighborhood" (text_of 100)
      ∷ required "city" (text_of 100)
      ∷ required "state" (text_of 2)
      ∷ required "postal_code" (text_of 16)
      ∷ required "country" (text_of 2)
      ∷ required "valid_from" date_time
      ∷ nullable "valid_to" date_time
      ∷ required "is_current" boolean
      ∷ required "created_at" date_time
      ∷ [];
  references = "clients" ∷ [];
  constraints = [];
}

abbrev pub orders_table : Table
orders_table = record {
  name = "orders";
  columns =
      required "order_id" big_integer
      ∷ required "external_order_id" (text_of 64)
      ∷ required "client_id" big_integer
      ∷ required "address_id" big_integer
      ∷ required "status" (text_of 20)
      ∷ required "total_amount" (numeric 18 2)
      ∷ required "currency" (text_of 3)
      ∷ required "order_date" date_time
      ∷ nullable "closed_at" date_time
      ∷ required "created_at" date_time
      ∷ required "updated_at" date_time
      ∷ [];
  references = "clients" ∷ "address" ∷ [];
  constraints = "uq_orders_external_order_id" ∷ "ck_orders_status" ∷ [];
}

abbrev pub order_items_table : Table
order_items_table = record {
  name = "order_items";
  columns =
      required "order_item_id" big_integer
      ∷ required "order_id" big_integer
      ∷ required "sku" (text_of 64)
      ∷ required "description" (text_of 200)
      ∷ required "quantity" big_integer
      ∷ required "unit_price" (numeric 18 2)
      ∷ [];
  references = "orders" ∷ [];
  constraints = [];
}

abbrev pub order_status_history_table : Table
order_status_history_table = record {
  name = "order_status_history";
  columns =
      required "history_id" big_integer
      ∷ required "order_id" big_integer
      ∷ nullable "previous_status" (text_of 20)
      ∷ required "new_status" (text_of 20)
      ∷ required "changed_at" date_time
      ∷ required "changed_by" (text_of 100)
      ∷ nullable "source_event_id" (text_of 100)
      ∷ [];
  references = "orders" ∷ [];
  constraints = [];
}

abbrev pub payment_table : Table
payment_table = record {
  name = "payment";
  columns =
      required "payment_id" big_integer
      ∷ required "external_payment_id" (text_of 64)
      ∷ required "order_id" big_integer
      ∷ required "method" (text_of 30)
      ∷ required "status" (text_of 20)
      ∷ required "amount" (numeric 18 2)
      ∷ nullable "paid_at" date_time
      ∷ required "created_at" date_time
      ∷ required "updated_at" date_time
      ∷ [];
  references = "orders" ∷ [];
  constraints = "uq_payment_external_payment_id" ∷ "ck_payment_status" ∷ [];
}

abbrev pub invoices_table : Table
invoices_table = record {
  name = "invoices";
  columns =
      required "invoice_id" big_integer
      ∷ required "external_invoice_id" (text_of 64)
      ∷ required "order_id" big_integer
      ∷ required "invoice_number" (text_of 50)
      ∷ required "issued_at" date_time
      ∷ required "amount" (numeric 18 2)
      ∷ required "status" (text_of 20)
      ∷ nullable "pdf_url" (text_of 500)
      ∷ required "created_at" date_time
      ∷ [];
  references = "orders" ∷ [];
  constraints = "uq_invoices_external_invoice_id" ∷ "ck_invoice_status" ∷ [];
}

abbrev pub processed_webhook_events_table : Table
processed_webhook_events_table = record {
  name = "processed_webhook_events";
  columns =
      required "event_id" (text_of 100)
      ∷ required "event_type" (text_of 50)
      ∷ required "received_at" date_time
      ∷ nullable "processed_at" date_time
      ∷ [];
  references = [];
  constraints = [];
}

abbrev pub upgrade : List Step
upgrade =
    create_table clients_table
    ∷ create_table address_table
    ∷ create_index "ix_address_client_external" "address"
    ∷ create_index "uq_address_current_per_client" "address"
    ∷ create_table orders_table
    ∷ create_index "ix_orders_client_id" "orders"
    ∷ create_index "ix_orders_status" "orders"
    ∷ create_table order_items_table
    ∷ create_index "ix_order_items_order_id" "order_items"
    ∷ create_table order_status_history_table
    ∷ create_index "ix_order_status_history_order_id" "order_status_history"
    ∷ create_table payment_table
    ∷ create_index "ix_payment_order_id" "payment"
    ∷ create_table invoices_table
    ∷ create_index "ix_invoices_order_id" "invoices"
    ∷ create_table processed_webhook_events_table
    ∷ create_trigger "trg_orders_block_retro_update" "orders"
    ∷ []

abbrev pub downgrade : List Step
downgrade =
    drop_trigger_if_exists "trg_orders_block_retro_update"
    ∷ drop_table "processed_webhook_events"
    ∷ drop_table "invoices"
    ∷ drop_table "payment"
    ∷ drop_table "order_status_history"
    ∷ drop_table "order_items"
    ∷ drop_table "orders"
    ∷ drop_index_if_exists "uq_address_current_per_client" "address"
    ∷ drop_table "address"
    ∷ drop_table "clients"
    ∷ []
