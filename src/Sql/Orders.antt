-- ===== src/Sql/Orders.antt =====
-- The statements of `insert_order`, `insert_order_items`, `record_status_history`,
-- `update_order_status`, `resolve_order_id` and `fetch_order_snapshot`.
use Prim.Native.Nat.{suc}
use observability_lab.Prelude.{
  ℕ, String, Option, none, some, Bool, not, ◌&&◌, List, [], ◌∷◌, any, find, filter, update_where,
  eqb, if◌then◌else◌,
}
use observability_lab.Server.{Server, same}
use observability_lab.Result.{
  ok, ◌>>=◌, ◌>>◌, raise_if, not_null, integrity_error, sqlalchemy_error,
}
use observability_lab.Tables.{
  Database, Client, Address, Order, OrderItem, order_status_check, is_terminal,
}
use observability_lab.Session.{Statement}
use observability_lab.Sql.Events.{matches}
use observability_lab.Sql.Parties.{is_client, is_address}

abbrev pub is_order : ℕ → Database → Bool
is_order id db = any (λ o. eqb id o.order_id) db.orders

-- The bind parameters of one row of the INSERT into `order_items`.
pub record ItemRow : Type 0 where
  pub order_id : Option ℕ
  pub sku : Option String
  pub description : Option String
  pub quantity : Option ℕ
  pub unit_price : Option ℕ

-- One row of the batch; the keys of a batch are consecutive.
unfoldable pub insert_item : ItemRow → Statement (Unit {0})
insert_item r now id db = do
  o ← not_null r.order_id
  k ← not_null r.sku
  d ← not_null r.description
  q ← not_null r.quantity
  u ← not_null r.unit_price
  raise_if (not (is_order o db)) integrity_error
  raise_if (any (λ i. eqb id i.order_item_id) db.order_items) integrity_error
  ok (
    tt,
    record db {
      order_items =
          record {
            order_item_id = id;
            order_id = o;
            sku = k;
            description = d;
            quantity = q;
            unit_price = u;
          }
          ∷ db.order_items;
    },
  )

unfoldable pub insert_items : List ItemRow → Statement (Unit {0})
insert_items [] now id db = ok (tt, db)
insert_items (r ∷ rs) now id db = do
  (_, db') ← insert_item r now id db
  insert_items rs now (suc id) db'

unfoldable pub insert_history :
    ℕ → Option String → Option String → Option String → Statement (Unit {0})
insert_history order_id previous_status new_status source_event_id now id db = do
  t ← not_null new_status
  raise_if (not (is_order order_id db)) integrity_error
  raise_if (any (λ h. eqb id h.history_id) db.order_status_history) integrity_error
  ok (
    tt,
    record db {
      order_status_history =
          record {
            history_id = id;
            order_id = order_id;
            previous_status = previous_status;
            new_status = t;
            changed_at = now;
            changed_by = "ingestion-consumer";
            source_event_id = source_event_id;
          }
          ∷ db.order_status_history;
    },
  )

unfoldable pub select_items : ℕ → Statement (List OrderItem)
select_items order_id now _ db = ok (filter (λ i. eqb i.order_id order_id) db.order_items, db)

-- `orders` joined with `clients` and `address`.
unfoldable pub select_joined : ℕ → Statement (Option (Order × Client × Address))
select_joined order_id now _ db = ok (
  elim (find (λ o. eqb o.order_id order_id) db.orders) [
    | none ↦ none
    | some o ↦ elim (find (λ c. eqb c.client_id o.client_id) db.clients) [
      | none ↦ none
      | some c ↦ elim (find (λ a. eqb a.address_id o.address_id) db.address) [
        | none ↦ none
        | some a ↦ some (o, c, a)
      ]
    ]
  ],
  db,
)

module _ ⦃s : Server⦄ where
  unfoldable pub insert_order_row :
      Option String → ℕ → ℕ → Option ℕ → Option String → ℕ → Statement ℕ
  insert_order_row external_order_id client_id address_id total_amount currency order_date now id
        db =
      do
        x ← not_null external_order_id
        t ← not_null total_amount
        c ← not_null currency
        raise_if (not (is_client client_id db)) integrity_error
        raise_if (not (is_address address_id db)) integrity_error
        raise_if (is_order id db) integrity_error
        raise_if (any (λ o. same x o.external_order_id) db.orders) integrity_error
        ok (
          id,
          record db {
            orders =
                record {
                  order_id = id;
                  external_order_id = x;
                  client_id = client_id;
                  address_id = address_id;
                  status = "PENDING";
                  total_amount = t;
                  currency = c;
                  order_date = order_date;
                  closed_at = none;
                  created_at = now;
                  updated_at = now;
                }
                ∷ db.orders;
          },
        )

  -- the SET clause
  abbrev pub set_status : String → ℕ → Order → Order
  set_status t now o = record o {
    status = t;
    updated_at = now;
    closed_at = if is_terminal t then some now else o.closed_at;
  }

  -- The constraints speak of the rows that the UPDATE finds; the last test is the trigger
  -- `trg_orders_block_retro_update`, over the rows as they were.
  abbrev pub update_found : Option String → Option String → Order → Statement (Option (ℕ × String))
  update_found external_order_id new_status o now _ db = do
    t ← not_null new_status
    raise_if (not (order_status_check t)) integrity_error
    raise_if
        (any (λ d. matches external_order_id d.external_order_id && is_terminal d.status) db.orders)
        sqlalchemy_error
    ok (
      some (o.order_id, o.status),
      record db {
        orders =
            update_where (λ d. matches external_order_id d.external_order_id) (set_status t now)
              db.orders;
      },
    )

  unfoldable pub update_orders : Option String → Option String → Statement (Option (ℕ × String))
  update_orders external_order_id new_status now id db =
      elim (find (λ o. matches external_order_id o.external_order_id) db.orders) [
        | none ↦ ok (none, db)
        | some o ↦ update_found external_order_id new_status o now id db
      ]

  unfoldable pub select_order_id : Option String → Statement (Option ℕ)
  select_order_id external_order_id now _ db = ok (
    elim (find (λ o. matches external_order_id o.external_order_id) db.orders) [
      | none ↦ none
      | some o ↦ some o.order_id
    ],
    db,
  )
