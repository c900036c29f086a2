-- ===== src/Consumer/Created/Steps.antt =====
-- The steps of ORDER_CREATED after the parties, on a server that carries every statement out.
use observability_lab.Prelude.{
  ℕ, suc, String, some, true, false, List, [], ◌∷◌, map, ◌≡◌, refl, ap, any,
}
use observability_lab.Server.{Server, clear, same}
use observability_lab.Payload.{Field, absent, null, given, subscript, get_default, EventData}
use observability_lab.Session.{Conn, pure}
use observability_lab.Session.Succeeds.{after, Yields, Yields-bind, lift-bind, execute-Yields}
use observability_lab.Sql.Parties.{is_client, is_address}
use observability_lab.Sql.Orders.{is_order, insert_items, insert_order_row}
use observability_lab.Sql.Stored.{
  Line, item_of, stored, AreFree, bind_items-lines, insert_items-stored, order_row,
  insert_order_row-new,
}
use observability_lab.Consumer.Created.{dated}
use observability_lab.DbOps.Orders.{bind_items, order_date, insert_order, insert_order_items}

-- With no line there is no statement.
abbrev pub items_steps : List Line → ℕ
items_steps [] = 0
items_steps (l ∷ ls) = 1

module _ ⦃s : Server⦄ where
  order_date-Yields :
      (f : Field ℕ) (o : Conn) → Yields (order_date f) o (dated f o.tick) o.db o.tick
  unfolding pure
  order_date-Yields absent o = refl
  order_date-Yields null o = refl
  order_date-Yields (given d) o = refl

  module _ (clears : (n : ℕ) → s.fate n ≡ clear) where
    pub insert_order-Yields :
        (c a : ℕ) (d : EventData) (x : String) (t : ℕ) (u : String) (o : Conn)
        → d.external_order_id ≡ given x
        → d.total_amount ≡ given t
        → get_default d.currency "BRL" ≡ some u
        → is_client c o.db ≡ true
        → is_address a o.db ≡ true
        → is_order (s.identity o.tick) o.db ≡ false
        → any (λ r. same x r.external_order_id) o.db.orders ≡ false
        → Yields
            (insert_order c a d)
            o
            (s.identity o.tick)
            (record o.db {
              orders =
                  order_row x c a t u
                    (dated d.order_date o.tick)
                    (s.time o.tick)
                    (s.identity o.tick)
                  ∷ o.db.orders;
            })
            (suc o.tick)
    unfolding insert_order
    insert_order-Yields c a d x t u o p q r h i j k =
        lift-bind (subscript d.external_order_id) _ o (some x) _ (ap subscript p) (
          lift-bind (subscript d.total_amount) _ o (some t) _ (ap subscript q) (
            Yields-bind (order_date d.order_date) _ o _ _ _ _ (order_date-Yields d.order_date o) (
              rw r (
                execute-Yields clears
                  (insert_order_row (some x) c a (some t) (some u) (dated d.order_date o.tick)) o _
                  _
                  (insert_order_row-new x c a t u (dated d.order_date o.tick) (s.time o.tick)
                    (s.identity o.tick) o.db h i j k)))))

    pub insert_order_items-Yields :
        (n : ℕ) (ls : List Line) (o : Conn)
        → is_order n o.db ≡ true
        → AreFree (s.identity o.tick) o.db.order_items
        → Yields
            (insert_order_items n (some (map item_of ls)))
            o
            tt
            (record o.db { order_items = stored n (s.identity o.tick) ls o.db.order_items })
            (after (items_steps ls) o.tick)
    unfolding insert_order_items pure
    insert_order_items-Yields n [] o h f = refl
    insert_order_items-Yields n (l ∷ ls) o h f =
        lift-bind (bind_items n (map item_of (l ∷ ls))) _ o _ _ (bind_items-lines n (l ∷ ls)) (
          execute-Yields clears (insert_items _) o tt _
            (insert_items-stored n (s.identity o.tick) (s.time o.tick) (l ∷ ls) o.db h f))
