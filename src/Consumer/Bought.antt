-- ===== src/Consumer/Bought.antt =====
-- An order from its creation to the record of its approval.
pub mod Lists
use observability_lab.Prelude.{
  ℕ, suc, String, Option, none, some, Bool, true, false, ◌&&◌, Bool-cases, Option-cases, inl, inr,
  List, [], ◌∷◌, ◌≡◌, ◌≤◌, refl, sym, ◌∙◌, ap, any, find, filter, eqb, eqb_refl, eqb_iff, All,
  arith, if◌then◌else◌,
}
use mathlib.Core.Path.{subst}
use observability_lab.Server.{Server, clear, same}
use observability_lab.Broker.{acked}
use observability_lab.Result.{ok}
use observability_lab.Payload.{Event}
use observability_lab.Tables.{
  Database, Client, Address, Order, OrderItem, order_status_check, is_terminal,
}
use observability_lab.Session.Succeeds.{after}
use observability_lab.Sql.Events.{is_claimed}
use observability_lab.Sql.Orders.{is_order}
use observability_lab.Sql.Keys.{same_refl, any_found, find_sound}
use observability_lab.Sql.Stored.{Line, item_row, stored, order_row}
use observability_lab.DbOps.Orders.{Snapshot}
use observability_lab.Parties.Expiry.{any-none}
use observability_lab.Consumer.Bought.Lists.{any-some, any_and, filter-stored, filter-linked}
use observability_lab.Consumer.Handle.{Packages, Message, State, handle_message}
use observability_lab.Consumer.Applied.{IsStatusChange, IsDue, snapshot}
use observability_lab.Consumer.Applied.Message.{approval_published}
use observability_lab.Consumer.Created.{Purchase, IsPurchase, IsCreatable, IsCreated, dated}
use observability_lab.Consumer.Created.Message.{purchase-IsCreated}

-- What a snapshot owes to the event that created its order: approved, with a row for each line, its
-- client and its address.
pub record IsApprovalOf (b : Purchase) (n : Snapshot) : Type 0 where
  pub first_item : ℕ
  pub external_order_id : n.order.external_order_id ≡ b.external_order_id
  pub status : n.order.status ≡ "APPROVED"
  pub total_amount : n.order.total_amount ≡ b.total_amount
  pub currency : n.order.currency ≡ b.currency
  pub client : n.client.client_id ≡ n.order.client_id
  pub address : n.address.address_id ≡ n.order.address_id
  pub items : n.items ≡ stored n.order.order_id first_item b.lines []

module _ ⦃s : Server⦄ (distinct : (m n : ℕ) → s.identity m ≡ s.identity n → m ≡ n)
    (pending : is_terminal "PENDING" ≡ false) (e e' : String) (b : Purchase) (db : Database) (n : ℕ)
    (final : Database) (m : ℕ) (can : IsCreatable e b db n) (c : IsCreated e b db n final m)
    (unclaimed : is_claimed e' db ≡ false) (other : same e' e ≡ false) where
  -- the row of the order
  abbrev order : Order
  order =
      order_row b.external_order_id c.client_key c.address_key b.total_amount b.currency
        (dated b.order_date c.ordered) (s.time c.ordered) (s.identity c.ordered)

  fresh_history : eqb (s.identity (after 3 m)) (s.identity c.recorded) ≡ false
  fresh_history = elim (Bool-cases (eqb (s.identity (after 3 m)) (s.identity c.recorded))) [
    | inl t ↦ ground (
      arith,
      distinct (after 3 m) c.recorded
          ((eqb_iff (s.identity (after 3 m)) (s.identity c.recorded)).0 t),
      c.sent,
    )
    | inr t ↦ t
  ]

  -- The approval is due.
  approval-IsDue : IsDue e' b.external_order_id "APPROVED" order final m
  unfolding order_status_check
  approval-IsDue = record {
    unclaimed = rw (c.ledger, other) unclaimed;
    found = rw (c.orders, same_refl b.external_order_id) refl;
    keyed = rw (c.orders, eqb_refl (s.identity c.ordered)) refl;
    still_open =
        rw (c.orders, same_refl b.external_order_id, pending)
          (any_and (λ d. same b.external_order_id d.external_order_id) (λ d. is_terminal d.status)
            db.orders can.unknown);
    allowed = ground (arith, same_refl "APPROVED");
    fresh =
        rw (c.history, fresh_history) (can.history (after 3 m) (omega (arith, c.later, c.sent)));
  }

  -- The client and the address are there.
  client_found :
      (cl : Client) × (find (λ d. eqb d.client_id order.client_id) final.clients ≡ some cl)
  client_found =
      let (cl, found, key, name, email, document) = c.client in
      any-some (λ d. eqb d.client_id c.client_key) final.clients
        (any_found (λ r. same r.external_client_id b.external_client_id)
          (λ d. eqb d.client_id c.client_key) final.clients cl found ((eqb_iff _ _).1 key))

  address_found :
      (a : Address) × (find (λ d. eqb d.address_id order.address_id) final.address ≡ some a)
  address_found =
      let (a, found, key, same_place) = c.address in
      any-some (λ d. eqb d.address_id c.address_key) final.address
        (any_found _ (λ d. eqb d.address_id c.address_key) final.address a found
          ((eqb_iff _ _).1 key))

  -- The items of the snapshot are those of the event.
  items_found :
      All (λ i. any (λ r. eqb i.order_id r.order_id) db.orders ≡ true) db.order_items
      → filter (λ i. eqb i.order_id order.order_id) final.order_items
        ≡ stored (s.identity c.ordered) (s.identity (suc c.ordered)) b.lines []
  items_found linked =
      ap (filter (λ (i : OrderItem). eqb i.order_id (s.identity c.ordered))) c.items
      ∙ filter-stored (s.identity c.ordered) (s.identity (suc c.ordered)) b.lines db.order_items
      ∙ ap (stored (s.identity c.ordered) (s.identity (suc c.ordered)) b.lines) (
          filter-linked (s.identity c.ordered) db.orders db.order_items
            (can.orders c.ordered c.order_later) linked)

  snapshot-IsApprovalOf :
      (cl : Client) (a : Address)
      → find (λ d. eqb d.client_id order.client_id) final.clients ≡ some cl
      → find (λ d. eqb d.address_id order.address_id) final.address ≡ some a
      → All (λ i. any (λ r. eqb i.order_id r.order_id) db.orders ≡ true) db.order_items
      → IsApprovalOf b (snapshot "APPROVED" order cl a final m)
  snapshot-IsApprovalOf cl a f g linked = record {
    first_item = s.identity (suc c.ordered);
    external_order_id = refl;
    status = refl;
    total_amount = refl;
    currency = refl;
    client = (eqb_iff _ _).0 (find_sound (λ d. eqb d.client_id order.client_id) final.clients cl f);
    address =
        (eqb_iff _ _).0 (find_sound (λ d. eqb d.address_id order.address_id) final.address a g);
    items = items_found linked;
  }

  approval_record :
      (p : Packages) (clears : (i : ℕ) → s.fate i ≡ clear) (msg : Message) (ev : Event) (k : State)
      (cs : List (String × String))
      → p.loads msg.value ≡ some ev
      → IsStatusChange ev e' b.external_order_id "APPROVED"
      → All (λ i. any (λ r. eqb i.order_id r.order_id) db.orders ≡ true) db.order_items
      → p.send k.sends ≡ acked
      → (n : Snapshot) × ((handle_message p msg
            (record k { conn = record { db = final; tick = m }; counts = cs })).1.published
          ≡ (p.decimal n.order.order_id, n) ∷ k.published)
        × IsApprovalOf b n
  approval_record p clears msg ev k cs l d linked sent =
      let (cl, has_client) = client_found in
      let (a, has_address) = address_found in
      (
        snapshot "APPROVED" order cl a final m,
        ap (λ o. o.1.published)
            (approval_published p clears msg ev e' b.external_order_id order cl a
              (record k { conn = record { db = final; tick = m }; counts = cs }) l d approval-IsDue
              has_client has_address sent),
        snapshot-IsApprovalOf cl a has_client has_address linked,
      )

-- On a server that carries every statement out and never gives an identity twice, with a collation
-- that tells "PENDING" from the terminal statuses: a message with an ORDER_CREATED event that says
-- all that the tables need and that nothing in them stands against, then one with the change of that
-- order to "APPROVED" under another event id that is not yet claimed, publish one record, where the
-- broker acknowledges it. It is the order under its key, approved, with the total and the currency of
-- the event, its client, its address, and a row for each line of the event and no other; the rows of
-- items in the database must name orders that are there.
pub purchase_approved :
    ⦃s : Server⦄ (p : Packages)
    → ((n : ℕ) → s.fate n ≡ clear)
    → ((m n : ℕ) → s.identity m ≡ s.identity n → m ≡ n)
    → is_terminal "PENDING" ≡ false
    → (msg msg' : Message) (ev ev' : Event) (e e' : String) (b : Purchase) (k : State)
    → p.loads msg.value ≡ some ev
    → IsPurchase ev e b
    → IsCreatable e b k.conn.db k.conn.tick
    → p.loads msg'.value ≡ some ev'
    → IsStatusChange ev' e' b.external_order_id "APPROVED"
    → is_claimed e' k.conn.db ≡ false
    → same e' e ≡ false
    → All (λ i. any (λ r. eqb i.order_id r.order_id) k.conn.db.orders ≡ true) k.conn.db.order_items
    → p.send k.sends ≡ acked
    → (n : Snapshot) × ((handle_message p msg' (handle_message p msg k).1).1.published
        ≡ (p.decimal n.order.order_id, n) ∷ k.published)
      × IsApprovalOf b n
purchase_approved p clears distinct pending msg msg' ev ev' e e' b k l c can l' c' unclaimed other
      linked sent =
    let (db, n, returns, created) = purchase-IsCreated p clears msg ev e b k l c can in
    rw returns (
      approval_record distinct pending e e' b k.conn.db k.conn.tick db n can created unclaimed other
        p clears msg' ev' k (("ORDER_CREATED", "success") ∷ k.counts) l' c' linked sent)
