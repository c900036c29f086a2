-- ===== src/Consumer/Invariant/Walk.antt =====
-- `IsInvariant`: what each writing statement owes to a predicate, and the walk through the functions
-- that send the statements.
use observability_lab.Prelude.{ℕ, String, Option, none, some, List, [], ◌∷◌}
use observability_lab.Server.{Server}
use observability_lab.Payload.{
  Field, absent, null, given, ClientData, AddressData, ItemData, EventData, Place,
}
use observability_lab.Tables.{Database, Address}
use observability_lab.Session.{Tx, Statement, pure}
use observability_lab.Session.Rules.{
  Pred, Does, Maintains, Maintains-pure, Maintains-execute, Maintains-bind, maintains_rules,
}
use observability_lab.Sql.Events.{insert_event, update_processed}
use observability_lab.Sql.Parties.{merge_client, select_current, expire_address, insert_address}
use observability_lab.Sql.Orders.{
  ItemRow, insert_items, insert_history, select_items, select_joined, insert_order_row,
  update_orders, select_order_id,
}
use observability_lab.Sql.Billing.{merge_payment, merge_invoice}
use observability_lab.DbOps.Parties.{upsert_client, upsert_current_address, revise}
use observability_lab.DbOps.Orders.{
  insert_order, insert_order_items, record_status_history, update_order_status, order_date,
  fetch_order_snapshot, resolve_order_id,
}
use observability_lab.DbOps.Billing.{upsert_payment, upsert_invoice}
use observability_lab.Consumer.Process.{
  order_created, after_update, order_status_changed, for_order, payment_confirmed, invoice_issued,
  dispatch,
}

-- Where the statement succeeds, `P` holds of the tables that it leaves.
abbrev pub Respects : {A : Type 0} → Pred → Statement A → Type 0
Respects P f = (now id : ℕ) (db : Database) → P db → Does (λ _. P) (f now id db)

-- The statements on `clients` and `address`, on `payment` and `invoices`, and on all the tables
-- that hold business data.
pub record RespectsParties ⦃s : Server⦄ (P : Pred) : Type 0 where
  pub clients : (x n e d : Option String) → Respects P (merge_client x n e d)
  pub expiry : (a : ℕ) → Respects P (expire_address a)
  pub versions :
      (c : ℕ) (x : Option String) (p : Place (Option String)) → Respects P (insert_address c x p)

pub record RespectsBilling ⦃s : Server⦄ (P : Pred) : Type 0 where
  pub payments :
      (x : Option String) (o : ℕ) (m t : Option String) (a d : Option ℕ)
      → Respects P (merge_payment x o m t a d)
  pub invoices :
      (x : Option String) (o : ℕ) (n : Option String) (i a : Option ℕ) (t u : Option String)
      → Respects P (merge_invoice x o n i a t u)

pub record IsRespected ⦃s : Server⦄ (P : Pred) : Type 0 where
  pub parties : RespectsParties P
  pub billing : RespectsBilling P
  pub items : (rows : List ItemRow) → Respects P (insert_items rows)
  pub orders :
      (x : Option String) (c a : ℕ) (t : Option ℕ) (y : Option String) (d : ℕ)
      → Respects P (insert_order_row x c a t y d)
  pub history : (o : ℕ) (v n e : Option String) → Respects P (insert_history o v n e)
  pub status : (x n : Option String) → Respects P (update_orders x n)

-- Those on the event ledger too.
pub record IsInvariant ⦃s : Server⦄ (P : Pred) : Type 0 where
  pub business : IsRespected P
  pub events : (e t : Option String) → Respects P (insert_event e t)
  pub processed : (e : Option String) → Respects P (update_processed e)

-- What only reads.
module _ ⦃s : Server⦄ (P : Pred) where
  select_current-Maintains : (c : ℕ) (x : Option String) → Respects P (select_current c x)
  unfolding select_current
  select_current-Maintains c none now id db h = h
  select_current-Maintains c (some x) now id db h = h

  pub order_date-Maintains : (f : Field ℕ) → Maintains P (order_date f)
  order_date-Maintains absent = record { at = λ c h. h }
  order_date-Maintains null = record { at = λ c h. h }
  order_date-Maintains (given d) = Maintains-pure d

  select_joined-Maintains : (o : ℕ) → Respects P (select_joined o)
  unfolding select_joined
  select_joined-Maintains o now id db h = h

  select_items-Maintains : (o : ℕ) → Respects P (select_items o)
  unfolding select_items
  select_items-Maintains o now id db h = h

  pub fetch_order_snapshot-Maintains : (o : ℕ) → Maintains P (fetch_order_snapshot o)
  unfolding fetch_order_snapshot
  fetch_order_snapshot-Maintains o =
      search (maintains_rules, Maintains-execute, select_joined-Maintains, select_items-Maintains)
        depth 9

  select_order_id-Maintains : (x : Option String) → Respects P (select_order_id x)
  unfolding select_order_id
  select_order_id-Maintains x now id db h = h

  resolve_order_id-Maintains : (x : Option String) → Maintains P (resolve_order_id x)
  unfolding resolve_order_id
  resolve_order_id-Maintains x = Maintains-execute _ (select_order_id-Maintains x)

  for_order-Maintains :
      (f : ℕ → Tx (Unit {0})) (o : Option ℕ)
      → ((n : ℕ) → Maintains P (f n))
      → Maintains P (for_order f o)
  for_order-Maintains f none h = Maintains-pure none
  for_order-Maintains f (some o) h =
      Maintains-bind (f o) (λ _. pure none) (h o) (λ _. Maintains-pure none)

module _ ⦃s : Server⦄ (P : Pred) (inv : RespectsParties P) where
  pub upsert_client-Maintains : (d : ClientData) → Maintains P (upsert_client d)
  unfolding upsert_client
  upsert_client-Maintains d = search (maintains_rules, Maintains-execute, inv.clients) depth 12

  revise-Maintains :
      (c : ℕ) (x : Option String) (p : Place (Field String)) (a : Option Address)
      → Maintains P (revise c x p a)
  revise-Maintains c x p none = search (Maintains-execute, inv.versions)
  revise-Maintains c x p (some a) =
      search (maintains_rules, Maintains-execute, inv.versions, inv.expiry) depth 8

  pub upsert_current_address-Maintains :
      (c : ℕ) (d : AddressData) → Maintains P (upsert_current_address c d)
  unfolding upsert_current_address
  upsert_current_address-Maintains c d =
      search (maintains_rules, Maintains-execute, select_current-Maintains P, revise-Maintains)
        depth 8

module _ ⦃s : Server⦄ (P : Pred)
    (rows_kept : (rows : List ItemRow) → Respects P (insert_items rows)) where
  pub insert_order_items-Maintains :
      (o : ℕ) (is : Option (List ItemData)) → Maintains P (insert_order_items o is)
  unfolding insert_order_items
  insert_order_items-Maintains o none = Maintains-pure tt
  insert_order_items-Maintains o (some []) = Maintains-pure tt
  insert_order_items-Maintains o (some (i ∷ is)) =
      search (maintains_rules, Maintains-execute, rows_kept) depth 8

module _ ⦃s : Server⦄ (P : Pred) (inv : RespectsBilling P) where
  upsert_payment-Maintains : (o : ℕ) (d : EventData) → Maintains P (upsert_payment o d)
  unfolding upsert_payment
  upsert_payment-Maintains o d = search (maintains_rules, Maintains-execute, inv.payments) depth 10

  upsert_invoice-Maintains : (o : ℕ) (d : EventData) → Maintains P (upsert_invoice o d)
  unfolding upsert_invoice
  upsert_invoice-Maintains o d = search (maintains_rules, Maintains-execute, inv.invoices) depth 10

  pub payment_confirmed-Maintains : (d : Option EventData) → Maintains P (payment_confirmed d)
  unfolding payment_confirmed
  payment_confirmed-Maintains d =
      search
        (
          maintains_rules,
          resolve_order_id-Maintains P,
          for_order-Maintains P,
          upsert_payment-Maintains,
        )
        depth 12

  pub invoice_issued-Maintains : (d : Option EventData) → Maintains P (invoice_issued d)
  unfolding invoice_issued
  invoice_issued-Maintains d =
      search
        (
          maintains_rules,
          resolve_order_id-Maintains P,
          for_order-Maintains P,
          upsert_invoice-Maintains,
        )
        depth 12

-- The handlers, given those of the two events that write `orders`.
module _ ⦃s : Server⦄ (P : Pred) (inv : RespectsBilling P)
    (created : (e : Option String) (d : Option EventData) → Maintains P (order_created e d))
    (changed : (e : Option String) (d : Option EventData)
      → Maintains P (order_status_changed e d)) where
  pub dispatch-Maintains_by :
      (e t : Option String) (d : Option EventData) → Maintains P (dispatch e t d)
  unfolding dispatch
  dispatch-Maintains_by e t d =
      search
        (
          maintains_rules,
          created,
          changed,
          payment_confirmed-Maintains P inv,
          invoice_issued-Maintains P inv,
        )
        depth 9

-- A change of status writes `orders` and the history.
module _ ⦃s : Server⦄ (P : Pred)
    (history : (o : ℕ) (v n e : Option String) → Respects P (insert_history o v n e)) where
  pub record_status_history-Maintains :
      (o : ℕ) (v n e : Option String) → Maintains P (record_status_history o v n e)
  unfolding record_status_history
  record_status_history-Maintains o v n e = Maintains-execute _ (history o v n e)

  module _ (status : (x n : Option String) → Respects P (update_orders x n)) where
    update_order_status-Maintains : (x n : Option String) → Maintains P (update_order_status x n)
    unfolding update_order_status
    update_order_status-Maintains x n = Maintains-execute _ (status x n)

    after_update-Maintains :
        (e n : Option String) (r : Option (ℕ × String)) → Maintains P (after_update e n r)
    unfolding after_update
    after_update-Maintains e n none = Maintains-pure none
    after_update-Maintains e n (some (o, v)) =
        search (maintains_rules, record_status_history-Maintains, fetch_order_snapshot-Maintains P)
          depth 8

    pub order_status_changed-Maintains :
        (e : Option String) (d : Option EventData) → Maintains P (order_status_changed e d)
    unfolding order_status_changed
    order_status_changed-Maintains e d =
        search (maintains_rules, update_order_status-Maintains, after_update-Maintains) depth 12

module _ ⦃s : Server⦄ (P : Pred) (inv : IsRespected P) where
  insert_order-Maintains : (c a : ℕ) (d : EventData) → Maintains P (insert_order c a d)
  unfolding insert_order
  insert_order-Maintains c a d =
      search (maintains_rules, order_date-Maintains P, Maintains-execute, inv.orders) depth 9

  order_created-Maintains :
      (e : Option String) (d : Option EventData) → Maintains P (order_created e d)
  unfolding order_created
  order_created-Maintains e d =
      search
        (
          maintains_rules,
          upsert_client-Maintains P inv.parties,
          upsert_current_address-Maintains P inv.parties,
          insert_order-Maintains,
          insert_order_items-Maintains P inv.items,
          record_status_history-Maintains P inv.history,
        )
        depth 24

  pub dispatch-Maintains :
      (e t : Option String) (d : Option EventData) → Maintains P (dispatch e t d)
  dispatch-Maintains =
      dispatch-Maintains_by P inv.billing order_created-Maintains
        (order_status_changed-Maintains P inv.history inv.status)
