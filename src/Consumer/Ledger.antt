-- ===== src/Consumer/Ledger.antt =====
-- The event ledger `processed_webhook_events`: only `claim_event` and `mark_event_processed` write
-- it. The claims and the marks are in the children.
pub mod Claims
pub mod Marks
use observability_lab.Prelude.{
  ℕ, zero, suc, String, Option, none, some, Bool, true, false, List, [], ◌∷◌, ◌≡◌, refl, any, All,
  update_where, arith, if◌then◌else◌,
}
use observability_lab.Server.{Server, same}
use observability_lab.Result.{Result, ok, err}
use observability_lab.Payload.{Place, EventData, Event, subscript}
use observability_lab.Tables.{Database, ProcessedWebhookEvent}
use observability_lab.Session.Rules.{Pred, Does, Does-bind, Maintains}
use observability_lab.Sql.Events.{matches, is_claimed, insert_event, update_processed, insert_log}
use observability_lab.Sql.Parties.{merge_client, expire_address, insert_address}
use observability_lab.Sql.Orders.{
  ItemRow, insert_item, insert_items, insert_history, insert_order_row, update_orders,
}
use observability_lab.Sql.Billing.{merge_payment, merge_invoice}
use observability_lab.Sql.Keys.{any-update_where, any-same}
use observability_lab.Consumer.Process.{txn_body, dispatch}
use observability_lab.Consumer.Handle.{Packages, Message, State}
use observability_lab.Consumer.Loop.{main_loop}
use observability_lab.Consumer.Invariant.Walk.{
  IsRespected, IsInvariant, Respects, dispatch-Maintains,
}
use observability_lab.Consumer.Invariant.Body.{body-Maintains}
use observability_lab.Consumer.Invariant.Lift.{IsKept, main_loop-keeps}
use observability_lab.Consumer.Invariant.Txn.{body-Ensures}

abbrev pub Ledger : Type 0
Ledger = List ProcessedWebhookEvent

-- The business statements leave the ledger alone.
module _ ⦃s : Server⦄ (P : Ledger → Type 0) where
  abbrev pub OnLedger : Pred
  OnLedger db = P db.processed_webhook_events

  clients : (y n e d : Option String) → Respects OnLedger (merge_client y n e d)
  unfolding merge_client
  clients y n e d now id db h = ground arith

  versions :
      (c : ℕ) (y : Option String) (p : Place (Option String))
      → Respects OnLedger (insert_address c y p)
  unfolding insert_address
  versions c y p now id db h = ground arith

  item : (r : ItemRow) → Respects OnLedger (insert_item r)
  unfolding insert_item
  item r now id db h = ground arith

  items : (rows : List ItemRow) → Respects OnLedger (insert_items rows)
  unfolding insert_items
  items [] now id db h = h
  items (r ∷ rs) now id db h =
      Does-bind (λ _. OnLedger) (λ _. OnLedger) (insert_item r now id db) _ (item r now id db h)
        λ _ db'. items rs now (suc id) db'

  history : (n : ℕ) (v m e : Option String) → Respects OnLedger (insert_history n v m e)
  unfolding insert_history
  history n v m e now id db h = ground arith

  orders :
      (y : Option String) (c a : ℕ) (t : Option ℕ) (u : Option String) (d : ℕ)
      → Respects OnLedger (insert_order_row y c a t u d)
  unfolding insert_order_row
  orders y c a t u d now id db h = ground arith

  status : (y n : Option String) → Respects OnLedger (update_orders y n)
  unfolding update_orders
  status y n now id db h = ground arith

  payments :
      (y : Option String) (n : ℕ) (m t : Option String) (a d : Option ℕ)
      → Respects OnLedger (merge_payment y n m t a d)
  unfolding merge_payment
  payments y n m t a d now id db h = ground arith

  invoices :
      (y : Option String) (n : ℕ) (m : Option String) (i a : Option ℕ) (t u : Option String)
      → Respects OnLedger (merge_invoice y n m i a t u)
  unfolding merge_invoice
  invoices y n m i a t u now id db h = ground arith

  expiry : (a : ℕ) → Respects OnLedger (expire_address a)
  unfolding expire_address
  expiry a now id db h = h

  pub OnLedger-IsRespected : IsRespected OnLedger
  OnLedger-IsRespected = record {
    parties = record { clients = clients; expiry = expiry; versions = versions };
    billing = record { payments = payments; invoices = invoices };
    items = items;
    orders = orders;
    history = history;
    status = status;
  }

  pub log : (v l m : String) (e : Option String) → Respects OnLedger (insert_log v l m e)
  unfolding insert_log
  log v l m e now id db h = h
