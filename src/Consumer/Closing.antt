-- ===== src/Consumer/Closing.antt =====
-- The column `closed_at` of the orders, which only the UPDATE of `update_order_status` sets
-- (services/ingestion_consumer/app/db_ops.py).
use observability_lab.Prelude.{
  ℕ, String, Option, none, some, Bool, true, false, Bool-cases, inl, inr, ◌&&◌, List, [], ◌∷◌, ◌≡◌,
  refl, sym, ◌∙◌, any, find, All, update_where, arith,
}
use observability_lab.Server.{Server}
use observability_lab.Result.{ok}
use observability_lab.Tables.{Database, Order, is_terminal}
use observability_lab.Session.Rules.{Pred, Does}
use observability_lab.Sql.Events.{matches}
use observability_lab.Sql.Orders.{insert_order_row, update_found, update_orders, set_status}
use observability_lab.Consumer.Invariant.Walk.{Respects}
use observability_lab.Consumer.Invariant.Orders.{orders-IsKept}
use observability_lab.Consumer.Invariant.Lift.{IsKept, main_loop-keeps}
use observability_lab.Consumer.Handle.{Packages, Message, State}
use observability_lab.Consumer.Loop.{main_loop}

abbrev is_set : Option ℕ → Bool
is_set none = false
is_set (some n) = true

module _ ⦃s : Server⦄ where
  -- A closing date exactly in a terminal status.
  abbrev pub IsDated : Order → Type 0
  IsDated o = is_terminal o.status ≡ is_set o.closed_at

  set_status-IsDated :
      (t : String) (now : ℕ) (o : Order)
      → IsDated o
      → is_terminal o.status ≡ false
      → IsDated (set_status t now o)
  set_status-IsDated t now o d f = elim (Bool-cases (is_terminal t)) [
    | inl e ↦ rw e refl
    | inr e ↦ rw e (sym f ∙ d)
  ]

  update-IsDated :
      (p : Order → Bool) (t : String) (now : ℕ) (os : List Order)
      → All IsDated os
      → any (λ o. p o && is_terminal o.status) os ≡ false
      → All IsDated (update_where p (set_status t now) os)
  update-IsDated p t now [] h f = tt
  update-IsDated p t now (o ∷ os) h f = elim (Bool-cases (p o)) [
    | inl e ↦ rw e (
      set_status-IsDated t now o h.0 (ground (arith, f, e)),
      update-IsDated p t now os h.1 (ground (arith, f)),
    )
    | inr e ↦ rw e (h.0, update-IsDated p t now os h.1 (ground (arith, f)))
  ]

  abbrev Dated : Pred
  Dated db = All IsDated db.orders

  found :
      (x n : Option String) (o : Order) (now id : ℕ) (db : Database)
      → Dated db
      → Does (λ _. Dated) (update_found x n o now id db)
  found x none o now id db h = ground arith
  found x (some t) o now id db h =
      ground (arith, update-IsDated (λ d. matches x d.external_order_id) t now db.orders h)

  status : (x n : Option String) → Respects Dated (update_orders x n)
  unfolding update_orders
  status x n now id db h = next (find (λ o. matches x o.external_order_id) db.orders)
    where
      next :
          (f : Option Order)
          → Does
              (λ _. Dated)
              (elim f [ none ↦ ok (none, db) | some o ↦ update_found x n o now id db ])
      next none = h
      next (some o) = found x n o now id db h

  module _ (pending : is_terminal "PENDING" ≡ false) where
    orders :
        (x : Option String) (c a : ℕ) (t : Option ℕ) (u : Option String) (d : ℕ)
        → Respects Dated (insert_order_row x c a t u d)
    unfolding insert_order_row
    orders x c a t u d now id db h = ground (arith, pending)

    Dated-IsKept : IsKept Dated
    Dated-IsKept = orders-IsKept (λ os. All IsDated os) orders status

  -- Whatever messages the loop gets, and whatever the server, the packages and the broker do: if every
  -- order has a closing date exactly when its status is terminal, it is so afterwards. The collation
  -- must tell "PENDING" from the terminal statuses.
  pub orders-IsDated :
      (p : Packages)
      → is_terminal "PENDING" ≡ false
      → (polls : List (List (ℕ × List Message))) (k : State) → All IsDated k.conn.db.orders
      → All IsDated (main_loop p polls k).1.conn.db.orders
  orders-IsDated p pending = main_loop-keeps p Dated (Dated-IsKept pending)
