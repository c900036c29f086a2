-- ===== src/Consumer/Samples.antt =====
-- Test data: a server that carries everything out, packages that meet their laws, and a shop with
-- three orders, one of them delivered.
mod Witnesses
mod Polls
mod Rows
mod Successes
mod Bills
use observability_lab.Prelude.{
  ℕ, zero, suc, String, ◌==◌, Option, none, some, Bool, true, false, List, [], ◌∷◌, map, ◌≡◌, refl,
  if◌then◌else◌,
}
use observability_lab.Server.{Server, Fate, clear}
use observability_lab.Broker.{Ack, acked}
use observability_lab.Result.{Error}
use observability_lab.Payload.{
  Field, absent, null, given, Place, ItemData, ClientData, AddressData, EventData, Event,
}
use observability_lab.Tables.{
  Client, Address, Order, OrderStatusHistory, ProcessedWebhookEvent, Database, empty,
}
use observability_lab.Session.{Conn, Tx}
use observability_lab.Sql.Stored.{Line, item_of}
use observability_lab.Consumer.Process.{Reply}
use observability_lab.Consumer.Handle.{Packages, again, Message, State}

instance abbrev pub binary : Server
binary = record {
  sort_key = λ t. t;
  time = λ n. n;
  process_time = λ n. n;
  identity = λ n. suc (suc (suc (suc n)));
  fate = λ n. clear;
}

unfoldable pub retry_loop : (Error → Bool) → ℕ → Tx Reply → Tx Reply
retry_loop test zero m c = m c
retry_loop test (suc zero) m c = m c
retry_loop test (suc (suc n)) m c = again test (retry_loop test (suc n) m) (m c)

pub retry_loop-once : (test : Error → Bool) (m : Tx Reply) (c : Conn) → retry_loop test 1 m c ≡ m c
unfolding retry_loop
retry_loop-once test m c = refl

pub retry_loop-again :
    (test : Error → Bool) (n : ℕ) (m : Tx Reply) (c : Conn)
    → retry_loop test (suc (suc n)) m c ≡ again test (retry_loop test (suc n) m) (m c)
unfolding retry_loop
retry_loop-again test n m c = refl

abbrev pub no_data : EventData
no_data = record {
  client = absent;
  address = absent;
  items = absent;
  external_order_id = absent;
  total_amount = absent;
  currency = absent;
  order_date = absent;
  new_status = absent;
  external_payment_id = absent;
  external_invoice_id = absent;
  method = absent;
  status = absent;
  amount = absent;
  paid_at = absent;
  invoice_number = absent;
  issued_at = absent;
  pdf_url = absent;
}

abbrev pub status_event : String → String → String → Event
status_event id x t = record {
  event_id = given id;
  event_type = given "ORDER_STATUS_CHANGED";
  payload = given (record no_data { external_order_id = given x; new_status = given t });
}

-- An event that the ledger of the shop holds.
abbrev pub replay : Event
replay = status_event "evt-old" "ORD-2" "CANCELLED"

-- The values of the messages are the names of the events.
abbrev pub approve : Event
approve = status_event "evt-approve" "ORD-2" "APPROVED"

abbrev pub ship : Event
ship = status_event "evt-ship" "ORD-2" "SHIPPED"

abbrev pub reopen : Event
reopen = status_event "evt-reopen" "ORD-1" "PENDING"

-- The client of the shop moves, and orders two things from there.
abbrev pub new_home : Place (Field String)
new_home = record {
  street = given "Rua B";
  number = given "2";
  complement = null;
  neighborhood = given "Centro";
  city = given "Sao Paulo";
  state = given "SP";
  postal_code = given "01000-000";
  country = given "BR";
}

abbrev pub buyer : ClientData
buyer = record {
  external_client_id = given "CLI-1";
  name = given "Ana";
  email = given "ana@example.com";
  document = given "1";
}

abbrev pub new_address : AddressData
new_address = record { external_address_id = given "ADDR-1"; place = new_home }

abbrev pub lines : List Line
lines =
    record { sku = "SKU-1"; description = "Mouse"; quantity = 2; unit_price = 4990 }
    ∷ record { sku = "SKU-2"; description = "Mousepad"; quantity = 1; unit_price = 1990 }
    ∷ []

abbrev pub bought : EventData
bought = record no_data {
  client = given buyer;
  address = given new_address;
  items = given (map item_of lines);
  external_order_id = given "ORD-3";
  total_amount = given 11970;
}

abbrev pub buy : Event
buy = record {
  event_id = given "evt-buy";
  event_type = given "ORDER_CREATED";
  payload = given bought;
}

abbrev pub confirm : Event
confirm = status_event "evt-confirm" "ORD-3" "APPROVED"

abbrev pub loads : String → Option Event
loads t =
    if t == "approve"
    then some approve
    else if t == "ship"
    then some ship
    else if t == "reopen"
    then some reopen
    else if t == "replay"
    then some replay
    else if t == "buy"
    then some buy
    else if t == "confirm"
    then some confirm
    else none

abbrev pub packages : Packages
packages = record {
  loads = loads;
  describe = λ e. "error";
  decimal = λ n. "n";
  send = λ n. acked;
  commit = λ n. true;
  retry = retry_loop;
  retry_once = retry_loop-once;
  retry_again = retry_loop-again;
}

abbrev pub message : ℕ → String → Message
message n t = record { offset = n; value = t }

abbrev pub home : Place (Option String)
home = record {
  street = some "Rua A";
  number = some "1";
  complement = none;
  neighborhood = some "Centro";
  city = some "Sao Paulo";
  state = some "SP";
  postal_code = some "01000-000";
  country = some "BR";
}

abbrev pub order : ℕ → String → String → Order
order n x t = record {
  order_id = n;
  external_order_id = x;
  client_id = 1;
  address_id = 1;
  status = t;
  total_amount = 9980;
  currency = "BRL";
  order_date = 0;
  closed_at = none;
  created_at = 0;
  updated_at = 0;
}

abbrev pub row : ℕ → ℕ → Option String → String → OrderStatusHistory
row h n v t = record {
  history_id = h;
  order_id = n;
  previous_status = v;
  new_status = t;
  changed_at = 0;
  changed_by = "ingestion-consumer";
  source_event_id = none;
}

abbrev pub home_row : Address
home_row = record {
  address_id = 1;
  client_id = 1;
  external_address_id = "ADDR-1";
  place = home;
  valid_from = 0;
  valid_to = none;
  is_current = true;
  created_at = 0;
}

abbrev pub ana : Client
ana = record {
  client_id = 1;
  external_client_id = "CLI-1";
  name = "Ana";
  email = "ana@example.com";
  document = "1";
  created_at = 0;
  updated_at = 0;
}

abbrev pub shop : Database
shop = record empty {
  clients = ana ∷ [];
  address = home_row ∷ [];
  orders = order 2 "ORD-2" "PENDING" ∷ order 1 "ORD-1" "DELIVERED" ∷ [];
  order_status_history =
      row 3 2 none "PENDING" ∷ row 2 1 (some "PENDING") "DELIVERED" ∷ row 1 1 none "PENDING" ∷ [];
  processed_webhook_events =
      record {
        event_id = "evt-old";
        event_type = "ORDER_CREATED";
        received_at = 0;
        processed_at = some 0;
      }
      ∷ [];
}

abbrev pub start : State
start = record {
  conn = record { db = shop; tick = 0 };
  published = [];
  sends = 0;
  counts = [];
  committed = [];
  commits = 0;
}

-- Two polls: an approval with a reopening of the delivered order, then what follows.
abbrev pub polls : List (List (ℕ × List Message))
polls =
    ((0, message 7 "approve" ∷ message 8 "reopen" ∷ []) ∷ [])
    ∷ ((0, message 9 "approve" ∷ []) ∷ (1, message 3 "ship" ∷ message 4 "garbled" ∷ []) ∷ [])
    ∷ []
