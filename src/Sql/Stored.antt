-- ===== src/Sql/Stored.antt =====
-- The INSERTs of an order and of its items, where no constraint refuses them.
use observability_lab.Prelude.{
  ℕ, zero, suc, String, none, some, true, false, List, [], ◌∷◌, map, ◌≡◌, refl, ◌∙◌, ap, any, eqb,
  ◌+◌, arith,
}
use observability_lab.Server.{Server, same}
use observability_lab.Result.{ok}
use observability_lab.Payload.{absent, given, ItemData}
use observability_lab.Tables.{Database, Order, OrderItem}
use observability_lab.Session.Succeeds.{after}
use observability_lab.Sql.Parties.{is_client, is_address}
use observability_lab.Sql.Orders.{ItemRow, is_order, insert_item, insert_items, insert_order_row}
use observability_lab.DbOps.Orders.{bind_item, bind_items}

-- One line of an order.
pub record Line : Type 0 where
  pub sku : String
  pub description : String
  pub quantity : ℕ
  pub unit_price : ℕ

-- The dictionary of the payload that says it in full,
abbrev pub item_of : Line → ItemData
item_of l = record {
  order_id = absent;
  sku = given l.sku;
  description = given l.description;
  quantity = given l.quantity;
  unit_price = given l.unit_price;
}

-- the parameters of its INSERT
abbrev pub row_of : ℕ → Line → ItemRow
row_of o l = record {
  order_id = some o;
  sku = some l.sku;
  description = some l.description;
  quantity = some l.quantity;
  unit_price = some l.unit_price;
}

-- and its row.
abbrev pub item_row : ℕ → ℕ → Line → OrderItem
item_row o id l = record {
  order_item_id = id;
  order_id = o;
  sku = l.sku;
  description = l.description;
  quantity = l.quantity;
  unit_price = l.unit_price;
}

-- The rows with those of the lines, one for each, with consecutive keys; the last is the newest.
abbrev pub stored : ℕ → ℕ → List Line → List OrderItem → List OrderItem
stored o id [] rows = rows
stored o id (l ∷ ls) rows = stored o (suc id) ls (item_row o id l ∷ rows)

pub bind_items-lines :
    (o : ℕ) (ls : List Line) → bind_items o (map item_of ls) ≡ ok (map (row_of o) ls)
unfolding bind_items bind_item
bind_items-lines o [] = refl
bind_items-lines o (l ∷ ls) = rw (bind_items-lines o ls) refl

-- Every key from `id` on is free.
abbrev pub AreFree : ℕ → List OrderItem → Type 0
AreFree id rows = (j : ℕ) → any (λ i. eqb (after j id) i.order_item_id) rows ≡ false

after_plus : (j n : ℕ) → after j n ≡ j + n
after_plus zero n = omega arith
after_plus (suc j) n = omega (arith, after_plus j n)

after-suc : (j n : ℕ) → after j (suc n) ≡ suc (after j n)
after-suc zero n = refl
after-suc (suc j) n = ap suc (after-suc j n)

after_above : (j n : ℕ) → eqb (after j (suc n)) n ≡ false
after_above j n = ground (arith, after_plus j (suc n))

insert_item-new :
    (o id now : ℕ) (l : Line) (db : Database)
    → is_order o db ≡ true
    → any (λ i. eqb id i.order_item_id) db.order_items ≡ false
    → insert_item (row_of o l) now id db
      ≡ ok (tt, record db { order_items = item_row o id l ∷ db.order_items })
unfolding insert_item
insert_item-new o id now l db h f = rw (h, f) refl

AreFree-item :
    (o id : ℕ) (l : Line) (rows : List OrderItem)
    → AreFree id rows
    → AreFree (suc id) (item_row o id l ∷ rows)
AreFree-item o id l rows f j =
    rw (after_above j id)
      (ap (λ m. any (λ i. eqb m i.order_item_id) rows) (after-suc j id) ∙ f (suc j))

pub insert_items-stored :
    (o id now : ℕ) (ls : List Line) (db : Database)
    → is_order o db ≡ true
    → AreFree id db.order_items
    → insert_items (map (row_of o) ls) now id db
      ≡ ok (tt, record db { order_items = stored o id ls db.order_items })
unfolding insert_items
insert_items-stored o id now [] db h f = refl
insert_items-stored o id now (l ∷ ls) db h f = rw (insert_item-new o id now l db h (f 0)) (
    insert_items-stored o (suc id) now ls
      (record db { order_items = item_row o id l ∷ db.order_items }) h
      (AreFree-item o id l db.order_items f))

module _ ⦃s : Server⦄ where
  abbrev pub order_row : String → ℕ → ℕ → ℕ → String → ℕ → ℕ → ℕ → Order
  order_row x c a t u d now id = record {
    order_id = id;
    external_order_id = x;
    client_id = c;
    address_id = a;
    status = "PENDING";
    total_amount = t;
    currency = u;
    order_date = d;
    closed_at = none;
    created_at = now;
    updated_at = now;
  }

  pub insert_order_row-new :
      (x : String) (c a t : ℕ) (u : String) (d now id : ℕ) (db : Database)
      → is_client c db ≡ true
      → is_address a db ≡ true
      → is_order id db ≡ false
      → any (λ o. same x o.external_order_id) db.orders ≡ false
      → insert_order_row (some x) c a (some t) (some u) d now id db
        ≡ ok (id, record db { orders = order_row x c a t u d now id ∷ db.orders })
  unfolding insert_order_row
  insert_order_row-new x c a t u d now id db h i j k = rw (h, i, j, k) refl
