-- ===== src/Consumer/Terminal.antt =====
-- Orders in a terminal status: the trigger `trg_orders_block_retro_update` of
-- db/migrations/versions/0001_initial_schema.py against every statement of the consumer.
use observability_lab.Prelude.{
  ℕ, String, Option, none, some, true, List, ◌≡◌, refl, find, arith, ◌&&◌,
}
use observability_lab.Server.{Server, same}
use observability_lab.Tables.{Database, Order, is_terminal}
use observability_lab.Session.Rules.{Pred}
use observability_lab.Sql.Orders.{insert_order_row, update_orders, set_status}
use observability_lab.Sql.Keys.{any-find, find_never, find-update_where, any-same, any_found}
use observability_lab.Consumer.Invariant.Walk.{Respects}
use observability_lab.Consumer.Invariant.Orders.{orders-IsKept}
use observability_lab.Consumer.Invariant.Lift.{IsKept, main_loop-keeps}
use observability_lab.Consumer.Handle.{Packages, Message, State}
use observability_lab.Consumer.Loop.{main_loop}

module _ ⦃s : Server⦄ where
  -- The order that the database finds under an external id.
  abbrev pub order_of : String → Database → Option Order
  order_of x db = find (λ o. same x o.external_order_id) db.orders

  module _ (x : String) (o : Order) (terminal : is_terminal o.status ≡ true) where
    abbrev pub IsFrozen : Pred
    IsFrozen db = order_of x db ≡ some o

    -- A new order has another external id.
    orders :
        (y : Option String) (c a : ℕ) (t : Option ℕ) (u : Option String) (d : ℕ)
        → Respects IsFrozen (insert_order_row y c a t u d)
    unfolding insert_order_row
    orders none c a t u d now id db h = tt
    orders (some y) c a t u d now id db h = ground (
      arith,
      any-same (λ (r : Order). r.external_order_id) db.orders x y,
      any-find (λ r. same x r.external_order_id) db.orders o,
    )

    -- The trigger refuses the update of the frozen row, and another row is none of its concern.
    status : (y n : Option String) → Respects IsFrozen (update_orders y n)
    unfolding update_orders
    status none n now id db h = ground (arith, find_never db.orders)
    status (some y) none now id db h = ground arith
    status (some y) (some t) now id db h = ground (
      arith,
      any_found (λ r. same x r.external_order_id)
          (λ r. same y r.external_order_id && is_terminal r.status) db.orders o,
      find-update_where (λ r. same x r.external_order_id) (λ r. same y r.external_order_id)
          (set_status t now) db.orders (λ r. refl),
    )

    IsFrozen-IsKept : IsKept IsFrozen
    IsFrozen-IsKept =
        orders-IsKept (λ os. find (λ d. same x d.external_order_id) os ≡ some o) orders status

  -- Whatever messages the loop gets, and whatever the server, the packages and the broker do: an
  -- order that the database finds with a terminal status is found afterwards with the same row,
  -- in every column.
  pub terminal_order_frozen :
      (p : Packages) (x : String) (o : Order)
      → is_terminal o.status ≡ true
      → (polls : List (List (ℕ × List Message))) (k : State) → order_of x k.conn.db ≡ some o
      → order_of x (main_loop p polls k).1.conn.db ≡ some o
  terminal_order_frozen p x o terminal =
      main_loop-keeps p (IsFrozen x o terminal) (IsFrozen-IsKept x o terminal)
