-- ===== src/Consumer/Samples/Rows.antt =====
-- The shop with an item and a payment, and with the closing date of its delivered order.
use observability_lab.Prelude.{ℕ, List, refl, some, none, [], ◌∷◌, All}
use observability_lab.Tables.{Database, is_terminal}
use observability_lab.Consumer.Handle.{Message, State}
use observability_lab.Consumer.Loop.{main_loop}
use observability_lab.Consumer.Closing.{IsDated, orders-IsDated}
use observability_lab.Consumer.Linked.{AllLinked}
use observability_lab.Consumer.Linked.Owned.{AllOwned}
use observability_lab.Consumer.Linked.References.{references-AllLinked}
use observability_lab.Consumer.Samples.{binary, packages, message, order, shop, start, polls}

abbrev stocked : State
stocked = record start {
  conn = record {
    db = record shop {
      orders =
          order 2 "ORD-2" "PENDING"
          ∷ record (order 1 "ORD-1" "DELIVERED") { closed_at = some 0 }
          ∷ [];
      order_items =
          record {
            order_item_id = 1;
            order_id = 2;
            sku = "SKU-1";
            description = "Widget";
            quantity = 2;
            unit_price = 4990;
          }
          ∷ [];
      payment =
          record {
            payment_id = 1;
            external_payment_id = "PAY-1";
            order_id = 1;
            method = "PIX";
            status = "CONFIRMED";
            amount = 9980;
            paid_at = none;
            created_at = 0;
            updated_at = 0;
          }
          ∷ [];
    };
    tick = 0;
  };
}

abbrev finish : Database
finish = (main_loop packages polls stocked).1.conn.db

orders-IsDated_example : All IsDated finish.orders
unfolding is_terminal
orders-IsDated_example = orders-IsDated packages refl polls stocked (refl, (refl, tt))

-- A purchase from a new address comes before the polls.
abbrev purchases : List (List (ℕ × List Message))
purchases = ((1, message 2 "buy" ∷ []) ∷ []) ∷ polls

abbrev final : Database
final = (main_loop packages purchases stocked).1.conn.db

references-AllLinked_example :
    AllLinked final.orders final.order_items final.payment final.invoices
    × AllOwned final.clients final.address final.orders
references-AllLinked_example =
    references-AllLinked packages purchases stocked ((refl, tt), (refl, tt), tt)
      ((refl, refl), ((refl, refl), tt))
