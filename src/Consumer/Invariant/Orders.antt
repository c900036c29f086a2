-- ===== src/Consumer/Invariant/Orders.antt =====
-- Predicates of `orders` alone: only the INSERT and the UPDATE of that table count.
use observability_lab.Prelude.{ℕ, String, Option, List, arith}
use observability_lab.Server.{Server}
use observability_lab.Tables.{Order}
use observability_lab.Session.Rules.{Pred}
use observability_lab.Sql.Orders.{insert_history, insert_order_row, update_orders}
use observability_lab.Consumer.Invariant.Walk.{IsInvariant, Respects}
use observability_lab.Consumer.Invariant.Body.{body-Maintains}
use observability_lab.Consumer.Invariant.Lift.{IsKept}
use observability_lab.Consumer.History.Frame.{
  OnAudit, parties, items, billing, events, processed, log,
}

module _ ⦃s : Server⦄ (P : List Order → Type 0) where
  abbrev pub OnOrders : Pred
  OnOrders = OnAudit (λ os _. P os)

  history : (n : ℕ) (v m e : Option String) → Respects OnOrders (insert_history n v m e)
  unfolding insert_history
  history n v m e now id db h = ground arith

  module _
      (orders : (x : Option String) (c a : ℕ) (t : Option ℕ) (u : Option String) (d : ℕ)
        → Respects OnOrders (insert_order_row x c a t u d))
      (status : (x n : Option String) → Respects OnOrders (update_orders x n)) where
    orders-IsInvariant : IsInvariant OnOrders
    orders-IsInvariant = record {
      business = record {
        parties = parties (λ os _. P os);
        billing = billing (λ os _. P os);
        items = items (λ os _. P os);
        orders = orders;
        history = history;
        status = status;
      };
      events = events (λ os _. P os);
      processed = processed (λ os _. P os);
    }

    pub orders-IsKept : IsKept OnOrders
    orders-IsKept = record {
      body = λ e i _. body-Maintains OnOrders orders-IsInvariant e i;
      log = log (λ os _. P os);
    }
