-- ===== src/Tables.antt =====
-- The schema: db/models.py and db/migrations/versions/0001_initial_schema.py. A row is a record,
-- a table the list of its rows, the newest first, and the database the record of the tables.
-- NOT NULL is the type of the column; the other constraints are tests that the statements make.
use observability_lab.Prelude.{ℕ, String, Bool, ◌||◌, Option, List, []}
use observability_lab.Payload.{Place}
use observability_lab.Server.{Server, same}

pub record Client : Type 0 where
  pub client_id : ℕ
  pub external_client_id : String
  pub name : String
  pub email : String
  pub document : String
  pub created_at : ℕ
  pub updated_at : ℕ

-- The eight columns of the place; only `complement` may be NULL, which the INSERT tests.
pub record Address : Type 0 where
  pub address_id : ℕ
  pub client_id : ℕ
  pub external_address_id : String
  pub place : Place (Option String)
  pub valid_from : ℕ
  pub valid_to : Option ℕ
  pub is_current : Bool
  pub created_at : ℕ

pub record Order : Type 0 where
  pub order_id : ℕ
  pub external_order_id : String
  pub client_id : ℕ
  pub address_id : ℕ
  pub status : String
  pub total_amount : ℕ
  pub currency : String
  pub order_date : ℕ
  pub closed_at : Option ℕ
  pub created_at : ℕ
  pub updated_at : ℕ

pub record OrderItem : Type 0 where
  pub order_item_id : ℕ
  pub order_id : ℕ
  pub sku : String
  pub description : String
  pub quantity : ℕ
  pub unit_price : ℕ

pub record OrderStatusHistory : Type 0 where
  pub history_id : ℕ
  pub order_id : ℕ
  pub previous_status : Option String
  pub new_status : String
  pub changed_at : ℕ
  pub changed_by : String
  pub source_event_id : Option String

pub record Payment : Type 0 where
  pub payment_id : ℕ
  pub external_payment_id : String
  pub order_id : ℕ
  pub method : String
  pub status : String
  pub amount : ℕ
  pub paid_at : Option ℕ
  pub created_at : ℕ
  pub updated_at : ℕ

pub record Invoice : Type 0 where
  pub invoice_id : ℕ
  pub external_invoice_id : String
  pub order_id : ℕ
  pub invoice_number : String
  pub issued_at : ℕ
  pub amount : ℕ
  pub status : String
  pub pdf_url : Option String
  pub created_at : ℕ

pub record ProcessedWebhookEvent : Type 0 where
  pub event_id : String
  pub event_type : String
  pub received_at : ℕ
  pub processed_at : Option ℕ

pub record PipelineLog : Type 0 where
  pub log_id : ℕ
  pub created_at : ℕ
  pub service : String
  pub level : String
  pub message : String
  pub event_id : Option String

pub record Database : Type 0 where
  pub clients : List Client
  pub address : List Address
  pub orders : List Order
  pub order_items : List OrderItem
  pub order_status_history : List OrderStatusHistory
  pub payment : List Payment
  pub invoices : List Invoice
  pub processed_webhook_events : List ProcessedWebhookEvent
  pub pipeline_log : List PipelineLog

abbrev pub empty : Database
empty = record {
  clients = [];
  address = [];
  orders = [];
  order_items = [];
  order_status_history = [];
  payment = [];
  invoices = [];
  processed_webhook_events = [];
  pipeline_log = [];
}

module _ ⦃s : Server⦄ where
  -- `ck_orders_status`
  unfoldable pub order_status_check : String → Bool
  order_status_check t =
      same t "PENDING"
      || (same t "APPROVED"
          || (same t "SHIPPED" || (same t "DELIVERED" || (same t "CANCELLED" || same t "CLOSED"))))

  -- `IN ('DELIVERED', 'CANCELLED', 'CLOSED')`, in the trigger and in the UPDATE
  unfoldable pub is_terminal : String → Bool
  is_terminal t = same t "DELIVERED" || (same t "CANCELLED" || same t "CLOSED")

  -- `ck_payment_status`
  unfoldable pub payment_status_check : String → Bool
  payment_status_check t =
      same t "PENDING" || (same t "CONFIRMED" || (same t "FAILED" || same t "REFUNDED"))

  -- `ck_invoice_status`
  unfoldable pub invoice_status_check : String → Bool
  invoice_status_check t = same t "ISSUED" || same t "CANCELLED"
