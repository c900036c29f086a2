-- ===== src/Consumer/History/Steps.antt =====
-- The three statements that write `orders` or `order_status_history`, against the audit trail.
use observability_lab.Prelude.{
  ℕ, String, Option, none, some, Bool-cases, Option-cases, inl, inr, ◌≡◌, any, find, eqb, ◌&&◌,
}
use observability_lab.Server.{Server, same}
use observability_lab.Tables.{Database, Order, order_status_check, is_terminal}
use observability_lab.Session.Rules.{Pred, Does}
use observability_lab.Sql.Parties.{is_client, is_address}
use observability_lab.Sql.Orders.{insert_history, insert_order_row, update_found, update_orders}
use observability_lab.Sql.Keys.{find_never}
use observability_lab.Consumer.History.Frame.{OnAudit}
use observability_lab.Consumer.History.Trail.{has_order, IsAudited, IsPending}
use observability_lab.Consumer.History.Lists.{
  pending-IsAudited, audited-IsPending, update-IsPending,
}

module _ ⦃s : Server⦄ where
  -- The row that was pending is written.
  pub history-audits :
      (n : ℕ) (v : Option String) (t : String) (e : Option String) (now id : ℕ) (db : Database)
      → OnAudit (IsPending n v t) db
      → Does (λ _. OnAudit IsAudited) (insert_history n v (some t) e now id db)
  unfolding insert_history
  history-audits n v t e now id db h = elim (Bool-cases (has_order n db.orders)) [
    | inr unknown ↦ rw unknown tt
    | inl known ↦
        rw known (elim (Bool-cases (any (λ r. eqb id r.history_id) db.order_status_history)) [
          | inl taken ↦ rw taken tt
          | inr free ↦ rw free (pending-IsAudited db.orders db.order_status_history _ known h)
        ])
  ]

  -- A new order waits for its first row.
  pub order-pends :
      (x : Option String) (c a : ℕ) (t : Option ℕ) (u : Option String) (d now id : ℕ)
      (db : Database)
      → OnAudit IsAudited db
      → Does (λ n. OnAudit (IsPending n none "PENDING")) (insert_order_row x c a t u d now id db)
  unfolding insert_order_row
  order-pends none c a t u d now id db h = tt
  order-pends (some x) c a none u d now id db h = tt
  order-pends (some x) c a (some t) none d now id db h = tt
  order-pends (some x) c a (some t) (some u) d now id db h = elim (Bool-cases (is_client c db)) [
    | inr e ↦ rw e tt
    | inl client ↦ rw client (elim (Bool-cases (is_address a db)) [
      | inr e ↦ rw e tt
      | inl address ↦ rw address (elim (Bool-cases (has_order id db.orders)) [
        | inl e ↦ rw e tt
        | inr fresh ↦
            rw fresh (elim (Bool-cases (any (λ o. same x o.external_order_id) db.orders)) [
              | inl e ↦ rw e tt
              | inr new ↦ rw new (audited-IsPending _ db.orders db.order_status_history fresh new h)
            ])
      ])
    ])
  ]

  -- What the UPDATE leaves to be written: nothing, or a row from the old status to the new one.
  abbrev pub Leaves : Option String → Option (ℕ × String) → Pred
  Leaves t none = OnAudit IsAudited
  Leaves none (some _) = λ _. ⊥
  Leaves (some t) (some (n, v)) = OnAudit (IsPending n (some v) t)

  found-leaves :
      (y : String) (t : Option String) (o : Order) (now id : ℕ) (db : Database)
      → find (λ r. same y r.external_order_id) db.orders ≡ some o
      → OnAudit IsAudited db
      → Does (Leaves t) (update_found (some y) t o now id db)
  found-leaves y none o now id db f h = tt
  found-leaves y (some t) o now id db f h = elim (Bool-cases (order_status_check t)) [
    | inr e ↦ rw e tt
    | inl checked ↦
        rw checked
          (elim (Bool-cases
            (any (λ r. same y r.external_order_id && is_terminal r.status) db.orders)) [
              | inl e ↦ rw e tt
              | inr e ↦ rw e (update-IsPending y t now o db.orders db.order_status_history f h)
            ])
  ]

  pub status-leaves :
      (x t : Option String) (now id : ℕ) (db : Database)
      → OnAudit IsAudited db
      → Does (Leaves t) (update_orders x t now id db)
  unfolding update_orders
  status-leaves none t now id db h = rw (find_never db.orders, update_orders) h
  status-leaves (some y) t now id db h =
      elim (Option-cases (find (λ r. same y r.external_order_id) db.orders)) [
        | inl e ↦ rw (e, update_orders) h
        | inr (o, e) ↦ rw (e, update_orders) (found-leaves y t o now id db e h)
      ]
