-- ===== src/DbOps/Orders.antt =====
-- `insert_order`, `insert_order_items`, `record_status_history`, `update_order_status`,
-- `fetch_order_snapshot` and `resolve_order_id` of services/ingestion_consumer/app/db_ops.py.
use observability_lab.Prelude.{ℕ, String, Option, none, some, List, [], ◌∷◌}
use observability_lab.Server.{Server}
use observability_lab.Result
use observability_lab.Result.{Result, ok, err, sqlalchemy_error}
use observability_lab.Payload.{
  Field, absent, null, given, subscript, get_default, as_dict, ItemData, EventData,
}
use observability_lab.Tables.{Client, Address, Order, OrderItem}
use observability_lab.Session.{Tx, pure, lift, execute, ◌>>=◌}
use observability_lab.Sql.Orders.{
  ItemRow, insert_items, insert_history, select_items, select_joined, insert_order_row,
  update_orders, select_order_id,
}

-- A bind parameter that a row of a batch does not have is a `StatementError`.
abbrev pub bound {ℓ} : {A : Type ℓ} → Field A → Result (Option A)
bound absent = err sqlalchemy_error
bound null = ok none
bound (given a) = ok (some a)

-- `{"order_id": order_id, **item}`: a key of the item wins
abbrev pub override : ℕ → Field ℕ → Option ℕ
override order_id absent = some order_id
override order_id null = none
override order_id (given o) = some o

unfoldable pub bind_item : ℕ → ItemData → Result ItemRow
bind_item order_id i = Result.◌>>=◌ (bound i.sku) λ k. Result.◌>>=◌ (bound i.description) λ d.
    Result.◌>>=◌ (bound i.quantity) λ q. Result.◌>>=◌ (bound i.unit_price) λ u. ok (record {
      order_id = override order_id i.order_id;
      sku = k;
      description = d;
      quantity = q;
      unit_price = u;
    })

unfoldable pub bind_items : ℕ → List ItemData → Result (List ItemRow)
bind_items order_id [] = ok []
bind_items order_id (i ∷ is) =
    Result.◌>>=◌ (bind_item order_id i) λ r. Result.◌>>=◌ (bind_items order_id is) λ rs. ok (r ∷ rs)

-- The dictionary that `fetch_order_snapshot` returns.
pub record Snapshot : Type 0 where
  pub order : Order
  pub client : Client
  pub address : Address
  pub items : List OrderItem

module _ ⦃s : Server⦄ where
  -- `order.get("order_date") or dt.datetime.utcnow()`
  abbrev pub order_date : Field ℕ → Tx ℕ
  order_date (given d) = pure d
  order_date f = λ c. (ok (s.process_time c.tick), c)

  unfoldable pub insert_order : ℕ → ℕ → EventData → Tx ℕ
  insert_order client_id address_id d = do
    external_order_id ← lift (subscript d.external_order_id)
    total_amount ← lift (subscript d.total_amount)
    date ← order_date d.order_date
    execute (
        insert_order_row external_order_id client_id address_id total_amount
          (get_default d.currency "BRL") date)

  unfoldable pub insert_order_items : ℕ → Option (List ItemData) → Tx (Unit {0})
  insert_order_items order_id none = pure tt
  insert_order_items order_id (some []) = pure tt
  insert_order_items order_id (some (i ∷ is)) = do
    rows ← lift (bind_items order_id (i ∷ is))
    execute (insert_items rows)

  unfoldable pub record_status_history :
      ℕ → Option String → Option String → Option String → Tx (Unit {0})
  record_status_history order_id previous_status new_status source_event_id =
      execute (insert_history order_id previous_status new_status source_event_id)

  unfoldable pub update_order_status : Option String → Option String → Tx (Option (ℕ × String))
  update_order_status external_order_id new_status =
      execute (update_orders external_order_id new_status)

  -- `dict(order)` of None is a `TypeError`, after both statements.
  unfoldable pub fetch_order_snapshot : ℕ → Tx Snapshot
  fetch_order_snapshot order_id = do
    joined ← execute (select_joined order_id)
    items ← execute (select_items order_id)
    (o, c, a) ← lift (as_dict joined)
    pure (record { order = o; client = c; address = a; items = items })

  unfoldable pub resolve_order_id : Option String → Tx (Option ℕ)
  resolve_order_id external_order_id = execute (select_order_id external_order_id)
