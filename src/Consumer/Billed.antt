-- ===== src/Consumer/Billed.antt =====
-- What a payment and an invoice that the database accepts have in common, on a server that carries
-- every statement out.
pub mod Payments
pub mod Invoices
use observability_lab.Prelude.{ℕ, suc, String, some, true, ◌≡◌, refl, find, eqb, eqb_refl}
use observability_lab.Server.{Server, clear, same}
use observability_lab.Tables.{Database, Order}
use observability_lab.Session.{Conn}
use observability_lab.Session.Succeeds.{Yields, execute-Yields}
use observability_lab.Sql.Orders.{is_order, select_order_id}
use observability_lab.Sql.Keys.{any_found}
use observability_lab.DbOps.Orders.{resolve_order_id}

module _ ⦃s : Server⦄ where
  pub is_order-found :
      (x : String) (o : Order) (db : Database)
      → find (λ d. same x d.external_order_id) db.orders ≡ some o
      → is_order o.order_id db ≡ true
  is_order-found x o db h =
      any_found (λ d. same x d.external_order_id) (λ d. eqb o.order_id d.order_id) db.orders o h
        (eqb_refl o.order_id)

  module _ (clears : (n : ℕ) → s.fate n ≡ clear) where
    pub resolve-Yields :
        (x : String) (o : Order) (c : Conn)
        → find (λ d. same x d.external_order_id) c.db.orders ≡ some o
        → Yields (resolve_order_id (some x)) c (some o.order_id) c.db (suc c.tick)
    unfolding resolve_order_id select_order_id
    resolve-Yields x o c h =
        execute-Yields clears (select_order_id (some x)) c (some o.order_id) c.db (rw h refl)
