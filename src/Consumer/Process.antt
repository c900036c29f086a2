-- ===== src/Consumer/Process.antt =====
-- `process_event` and the transaction around it.
use observability_lab.Prelude.{ℕ, String, ◌==◌, Option, none, some, Bool, false, [], if◌then◌else◌}
use observability_lab.Server.{Server}
use observability_lab.Payload.{subscript, get_default, as_dict, EventData, Event}
use observability_lab.Session.{Tx, pure, lift, begin, ◌>>=◌, ◌>>◌}
use observability_lab.DbOps.Events.{claim_event, mark_event_processed}
use observability_lab.DbOps.Parties.{upsert_client, upsert_current_address}
use observability_lab.DbOps.Orders.{
  Snapshot, insert_order, insert_order_items, record_status_history, update_order_status,
  fetch_order_snapshot, resolve_order_id,
}
use observability_lab.DbOps.Billing.{upsert_payment, upsert_invoice}

-- `{"event_type": …, "order": …}`
pub record Outbox : Type 0 where
  pub event_type : String
  pub order : Snapshot

-- `==` of a value that may be None with a text
abbrev pub is_text : Option String → String → Bool
is_text none t = false
is_text (some a) t = a == t

abbrev pub Reply : Type 0
Reply = Option Outbox

module _ ⦃s : Server⦄ where
  unfoldable pub order_created : Option String → Option EventData → Tx Reply
  order_created event_id payload = do
    d ← lift (as_dict payload)
    client ← lift (subscript d.client)
    client_data ← lift (as_dict client)
    client_id ← upsert_client client_data
    address ← lift (subscript d.address)
    address_data ← lift (as_dict address)
    address_id ← upsert_current_address client_id address_data
    order_id ← insert_order client_id address_id d
    insert_order_items order_id (get_default d.items [])
    record_status_history order_id none (some "PENDING") event_id
    pure none

  abbrev pub approved : Bool → ℕ → Tx Reply
  approved b order_id =
      if b
      then (fetch_order_snapshot order_id >>= λ snapshot.
          pure (some (record { event_type = "ORDER_APPROVED"; order = snapshot })))
      else pure none

  -- from `if result is None:` on
  unfoldable pub after_update : Option String → Option String → Option (ℕ × String) → Tx Reply
  after_update event_id new_status none = pure none
  after_update event_id new_status (some (order_id, previous_status)) = do
    record_status_history order_id (some previous_status) new_status event_id
    approved (is_text new_status "APPROVED") order_id

  unfoldable pub order_status_changed : Option String → Option EventData → Tx Reply
  order_status_changed event_id payload = do
    d ← lift (as_dict payload)
    external_order_id ← lift (subscript d.external_order_id)
    new_status ← lift (subscript d.new_status)
    result ← update_order_status external_order_id new_status
    after_update event_id new_status result

  abbrev pub for_order : (ℕ → Tx (Unit {0})) → Option ℕ → Tx Reply
  for_order f none = pure none
  for_order f (some order_id) = f order_id >> pure none

  unfoldable pub payment_confirmed : Option EventData → Tx Reply
  payment_confirmed payload = do
    d ← lift (as_dict payload)
    external_order_id ← lift (subscript d.external_order_id)
    order_id ← resolve_order_id external_order_id
    for_order (λ o. upsert_payment o d) order_id

  unfoldable pub invoice_issued : Option EventData → Tx Reply
  invoice_issued payload = do
    d ← lift (as_dict payload)
    external_order_id ← lift (subscript d.external_order_id)
    order_id ← resolve_order_id external_order_id
    for_order (λ o. upsert_invoice o d) order_id

  unfoldable pub dispatch : Option String → Option String → Option EventData → Tx Reply
  dispatch event_id event_type payload =
      if is_text event_type "ORDER_CREATED"
      then order_created event_id payload
      else if is_text event_type "ORDER_STATUS_CHANGED"
      then order_status_changed event_id payload
      else if is_text event_type "PAYMENT_CONFIRMED"
      then payment_confirmed payload
      else if is_text event_type "INVOICE_ISSUED"
      then invoice_issued payload
      else pure none

  unfoldable pub process_event : Event → Tx Reply
  process_event e = do
    event_id ← lift (subscript e.event_id)
    event_type ← lift (subscript e.event_type)
    payload ← lift (subscript e.payload)
    claim_event event_id event_type
    dispatch event_id event_type payload

  unfoldable pub txn_body : Event → Option String → Tx Reply
  txn_body e event_id = do outbox ← process_event e; mark_event_processed event_id; pure outbox

  -- `_run_in_txn`
  unfoldable pub run_in_txn : Event → Option String → Tx Reply
  run_in_txn e event_id = begin (txn_body e event_id)
