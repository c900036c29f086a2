-- ===== src/Consumer/Linked.antt =====
-- The foreign keys to `orders`, over the loop.
pub mod Owned
pub mod References
use observability_lab.Prelude.{
  ℕ, suc, String, Option, none, some, Bool, true, Bool-cases, inl, inr, List, [], ◌∷◌, ◌≡◌, refl,
  ◌∙◌, any, find, All, All-map, update_where, eqb, arith,
}
use observability_lab.Server.{Server, same}
use observability_lab.Result.{ok}
use observability_lab.Payload.{Place}
use observability_lab.Tables.{Database, Order, OrderItem, Payment, Invoice}
use observability_lab.Session.Rules.{Pred, Does, Does-bind}
use observability_lab.Sql.Events.{matches, insert_event, update_processed, insert_log}
use observability_lab.Sql.Parties.{merge_client, expire_address, insert_address}
use observability_lab.Sql.Orders.{
  ItemRow, insert_item, insert_items, insert_history, insert_order_row, update_found, update_orders,
  set_status,
}
use observability_lab.Sql.Billing.{renew_payment, merge_payment, renew_invoice, merge_invoice}
use observability_lab.Sql.Keys.{any-update_where}
use observability_lab.Consumer.Invariant.Walk.{IsInvariant, Respects}
use observability_lab.Consumer.Invariant.Body.{body-Maintains}
use observability_lab.Consumer.Invariant.Lift.{IsKept, main_loop-keeps}
use observability_lab.Consumer.Handle.{Packages, Message, State}
use observability_lab.Consumer.Loop.{main_loop}

-- The key names an order.
abbrev pub Names : List Order → ℕ → Type 0
Names os n = any (λ o. eqb n o.order_id) os ≡ true

abbrev pub AllLinked : List Order → List OrderItem → List Payment → List Invoice → Type 0
AllLinked os items payments invoices =
    All (λ i. Names os i.order_id) items
    × All (λ p. Names os p.order_id) payments
    × All (λ v. Names os v.order_id) invoices

-- So it is with more orders.
AllLinked-orders :
    (os os' : List Order) (items : List OrderItem) (payments : List Payment)
    (invoices : List Invoice)
    → ((n : ℕ) → Names os n → Names os' n)
    → AllLinked os items payments invoices
    → AllLinked os' items payments invoices
AllLinked-orders os os' items payments invoices f (i, p, v) = (
  All-map (λ r. Names os r.order_id) (λ r. Names os' r.order_id) items (λ r. f r.order_id) i,
  All-map (λ r. Names os r.order_id) (λ r. Names os' r.order_id) payments (λ r. f r.order_id) p,
  All-map (λ r. Names os r.order_id) (λ r. Names os' r.order_id) invoices (λ r. f r.order_id) v,
)

Names-cons : (o : Order) (os : List Order) (n : ℕ) → Names os n → Names (o ∷ os) n
Names-cons o os n h = ground (arith, h)

pub All-update_where :
    {A : Type 0} (P : A → Type 0) (q : A → Bool) (f : A → A) (xs : List A)
    → ((x : A) → P x → P (f x))
    → All P xs
    → All P (update_where q f xs)
All-update_where P q f [] k h = tt
All-update_where P q f (x ∷ xs) k h = elim (Bool-cases (q x)) [
  | inl e ↦ rw e (k x h.0, All-update_where P q f xs k h.1)
  | inr e ↦ rw e (h.0, All-update_where P q f xs k h.1)
]

module _ ⦃s : Server⦄ where
  abbrev Linked : Pred
  Linked db = AllLinked db.orders db.order_items db.payment db.invoices

  clients : (y n e d : Option String) → Respects Linked (merge_client y n e d)
  unfolding merge_client
  clients y n e d now id db h = ground arith

  versions :
      (c : ℕ) (y : Option String) (p : Place (Option String))
      → Respects Linked (insert_address c y p)
  unfolding insert_address
  versions c y p now id db h = ground arith

  expiry : (a : ℕ) → Respects Linked (expire_address a)
  unfolding expire_address
  expiry a now id db h = h

  history : (n : ℕ) (v m e : Option String) → Respects Linked (insert_history n v m e)
  unfolding insert_history
  history n v m e now id db h = ground arith

  events : (e t : Option String) → Respects Linked (insert_event e t)
  unfolding insert_event
  events e t now id db h = ground arith

  processed : (e : Option String) → Respects Linked (update_processed e)
  unfolding update_processed
  processed e now id db h = h

  log : (v l m : String) (e : Option String) → Respects Linked (insert_log v l m e)
  unfolding insert_log
  log v l m e now id db h = h

  item : (r : ItemRow) → Respects Linked (insert_item r)
  unfolding insert_item
  item r now id db h = ground arith

  items : (rows : List ItemRow) → Respects Linked (insert_items rows)
  unfolding insert_items
  items [] now id db h = h
  items (r ∷ rs) now id db h =
      Does-bind (λ _. Linked) (λ _. Linked) (insert_item r now id db) _ (item r now id db h)
        λ _ db'. items rs now (suc id) db'

  orders :
      (x : Option String) (c a : ℕ) (t : Option ℕ) (u : Option String) (d : ℕ)
      → Respects Linked (insert_order_row x c a t u d)
  unfolding insert_order_row
  orders none c a t u d now id db h = tt
  orders (some x) c a none u d now id db h = tt
  orders (some x) c a (some t) none d now id db h = tt
  orders (some x) c a (some t) (some u) d now id db h =
      let row : Order = record {
        order_id = id;
        external_order_id = x;
        client_id = c;
        address_id = a;
        status = "PENDING";
        total_amount = t;
        currency = u;
        order_date = d;
        closed_at = none;
        created_at = now;
        updated_at = now;
      } in
      ground (
        arith,
        AllLinked-orders db.orders (row ∷ db.orders) db.order_items db.payment db.invoices
            (Names-cons row db.orders) h,
      )

  found :
      (x n : Option String) (o : Order) (now id : ℕ) (db : Database)
      → Linked db
      → Does (λ _. Linked) (update_found x n o now id db)
  found x none o now id db h = tt
  found x (some t) o now id db h =
      let q : Order → Bool = λ d. matches x d.external_order_id in
      ground (
        arith,
        AllLinked-orders db.orders (update_where q (set_status t now) db.orders) db.order_items
            db.payment db.invoices
            (λ n e.
              any-update_where (λ d. eqb n d.order_id) q (set_status t now) db.orders (λ d. refl)
              ∙ e)
            h,
      )

  status : (x n : Option String) → Respects Linked (update_orders x n)
  unfolding update_orders
  status x n now id db h = next (find (λ o. matches x o.external_order_id) db.orders)
    where
      next :
          (f : Option Order)
          → Does
              (λ _. Linked)
              (elim f [ none ↦ ok (none, db) | some o ↦ update_found x n o now id db ])
      next none = h
      next (some o) = found x n o now id db h

  payments :
      (y : Option String) (n : ℕ) (m t : Option String) (a d : Option ℕ)
      → Respects Linked (merge_payment y n m t a d)
  unfolding merge_payment
  payments none n m t a d now id db h = tt
  payments (some y) n m none a d now id db h = tt
  payments (some y) n m (some t) none d now id db h = tt
  payments (some y) n m (some t) (some a) d now id db h = ground (
    arith,
    All-update_where (λ p. Names db.orders p.order_id)
        (λ (p : Payment). same p.external_payment_id y) (renew_payment t a d now) db.payment
        (λ p k. k) h.1,
  )

  invoices :
      (y : Option String) (n : ℕ) (m : Option String) (i a : Option ℕ) (t u : Option String)
      → Respects Linked (merge_invoice y n m i a t u)
  unfolding merge_invoice
  invoices none n m i a t u now id db h = tt
  invoices (some y) n m i none t u now id db h = tt
  invoices (some y) n m i (some a) none u now id db h = tt
  invoices (some y) n m i (some a) (some t) u now id db h = ground (
    arith,
    All-update_where (λ v. Names db.orders v.order_id)
        (λ (v : Invoice). same v.external_invoice_id y) (renew_invoice t a u) db.invoices (λ v k. k)
        h.2,
  )

  Linked-IsInvariant : IsInvariant Linked
  Linked-IsInvariant = record {
    business = record {
      parties = record { clients = clients; expiry = expiry; versions = versions };
      billing = record { payments = payments; invoices = invoices };
      items = items;
      orders = orders;
      history = history;
      status = status;
    };
    events = events;
    processed = processed;
  }

  Linked-IsKept : IsKept Linked
  Linked-IsKept = record { body = λ e i _. body-Maintains Linked Linked-IsInvariant e i; log = log }

  -- Whatever messages the loop gets, and whatever the server, the packages and the broker do: if every
  -- item, payment and invoice is of an order that exists, it is so afterwards.
  pub rows-AllLinked :
      (p : Packages) (polls : List (List (ℕ × List Message))) (k : State)
      → AllLinked k.conn.db.orders k.conn.db.order_items k.conn.db.payment k.conn.db.invoices
      → AllLinked
          (main_loop p polls k).1.conn.db.orders
          (main_loop p polls k).1.conn.db.order_items
          (main_loop p polls k).1.conn.db.payment
          (main_loop p polls k).1.conn.db.invoices
  rows-AllLinked p = main_loop-keeps p Linked Linked-IsKept
