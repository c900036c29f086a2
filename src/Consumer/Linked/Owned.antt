-- ===== src/Consumer/Linked/Owned.antt =====
-- The foreign keys of `orders`: the client of an order, and an address of that client.
use observability_lab.Prelude.{
  ℕ, suc, String, Option, none, some, true, Bool-cases, Option-cases, inl, inr, List, [], ◌∷◌, ◌≡◌,
  refl, ◌∙◌, any, find, All, All-map, update_where, eqb, eqb_refl, ◌&&◌, arith,
}
use observability_lab.Server.{Server, same}
use observability_lab.Payload.{Field, Place, AddressData}
use observability_lab.Tables.{Database, Client, Address, Order}
use observability_lab.Session.Rules.{
  Pred, Does, Does-bind, Does-skip, Does-weaken, Ensures, Ensures-after, Ensures-bind,
  Ensures-execute, Ensures-if, Ensures-pure, maintains_rules,
}
use observability_lab.Sql.Events.{matches, insert_event, update_processed, insert_log}
use observability_lab.Sql.Parties.{
  is_client, is_address, is_current_of, renew_client, merge_client, select_current, expire,
  expire_address, check_place, insert_address,
}
use observability_lab.Sql.Orders.{
  is_order, ItemRow, insert_item, insert_items, insert_history, insert_order_row, update_found,
  update_orders, set_status,
}
use observability_lab.Sql.Billing.{merge_payment, merge_invoice}
use observability_lab.Sql.Keys.{any-update_where, any_found, find_sound}
use observability_lab.DbOps.Parties.{unchanged, place_values, revise, upsert_current_address}
use observability_lab.Parties.Upsert.{version}
use observability_lab.Consumer.Linked.{All-update_where}
use observability_lab.Consumer.Invariant.Walk.{Respects, RespectsParties, RespectsBilling}

-- The client is there, and the address is one of that client.
abbrev pub Belongs : List Client → List Address → ℕ → ℕ → Type 0
Belongs clients addresses c a =
    (any (λ r. eqb c r.client_id) clients ≡ true)
    × (any (λ r. eqb a r.address_id && eqb c r.client_id) addresses ≡ true)

abbrev pub AllOwned : List Client → List Address → List Order → Type 0
AllOwned clients addresses orders =
    All (λ o. Belongs clients addresses o.client_id o.address_id) orders

module _ ⦃s : Server⦄ where
  abbrev pub Owned : Pred
  Owned db = AllOwned db.clients db.address db.orders

  -- The address `a` is one of client `c`.
  abbrev pub AddressOf : ℕ → ℕ → Pred
  AddressOf c a db = any (λ r. eqb a r.address_id && eqb c r.client_id) db.address ≡ true

  -- With more clients and more addresses, what belonged still does.
  AllOwned-grows :
      (cs cs' : List Client) (vs vs' : List Address) (os : List Order)
      → ((c a : ℕ) → Belongs cs vs c a → Belongs cs' vs' c a)
      → AllOwned cs vs os
      → AllOwned cs' vs' os
  AllOwned-grows cs cs' vs vs' os f h =
      All-map (λ o. Belongs cs vs o.client_id o.address_id)
        (λ o. Belongs cs' vs' o.client_id o.address_id) os (λ o. f o.client_id o.address_id) h

  new_client :
      (r : Client) (db : Database) → Owned db → AllOwned (r ∷ db.clients) db.address db.orders
  new_client r db h =
      AllOwned-grows db.clients (r ∷ db.clients) db.address db.address db.orders
        (λ c a b. (ground (arith, b), b.1)) h

  new_version :
      (r : Address) (db : Database) → Owned db → AllOwned db.clients (r ∷ db.address) db.orders
  new_version r db h =
      AllOwned-grows db.clients db.clients db.address (r ∷ db.address) db.orders
        (λ c a b. (b.0, ground (arith, b))) h

  clients : (y n e d : Option String) → Respects Owned (merge_client y n e d)
  unfolding merge_client
  clients none n e d now id db h = tt
  clients (some y) none e d now id db h = tt
  clients (some y) (some n) none d now id db h = tt
  clients (some y) (some n) (some e) none now id db h = tt
  clients (some y) (some n) (some e) (some d) now id db h =
      elim (Option-cases (find (λ c. same c.external_client_id y) db.clients)) [
        | inl q ↦ rw q (elim (Bool-cases (is_client id db)) [
          | inl taken ↦ rw taken tt
          | inr fresh ↦ rw fresh (
              new_client
                (record {
                  client_id = id;
                  external_client_id = y;
                  name = n;
                  email = e;
                  document = d;
                  created_at = now;
                  updated_at = now;
                })
                db h)
        ])
        | inr (c, q) ↦ rw q (
            AllOwned-grows db.clients
              (update_where (λ c'. same c'.external_client_id y) (renew_client n e d now)
                db.clients)
              db.address db.address db.orders
              (λ m a b. (
                any-update_where (λ r. eqb m r.client_id) (λ c'. same c'.external_client_id y)
                      (renew_client n e d now) db.clients (λ r. refl)
                    ∙ b.0,
                b.1,
              ))
              h)
      ]

  expiry : (a : ℕ) → Respects Owned (expire_address a)
  unfolding expire_address
  expiry a now id db h =
      AllOwned-grows db.clients db.clients db.address
        (update_where (λ r. eqb r.address_id a) (expire now) db.address) db.orders
        (λ c n b. (
          b.0,
          any-update_where (λ r. eqb n r.address_id && eqb c r.client_id) (λ r. eqb r.address_id a)
                (expire now) db.address (λ r. refl)
              ∙ b.1,
        ))
        h

  -- The INSERT of a version, and whose it is.
  inserted :
      (c : ℕ) (y : Option String) (p : Place (Option String)) (now id : ℕ) (db : Database)
      → Owned db
      → Does (λ n db'. Owned db' × AddressOf c n db') (insert_address c y p now id db)
  unfolding insert_address
  inserted c none p now id db h = tt
  inserted c (some y) p now id db h =
      Does-skip (λ n db'. Owned db' × AddressOf c n db') (check_place p) _
        (elim (Bool-cases (is_client c db)) [
          | inr e ↦ rw e tt
          | inl known ↦ rw known (elim (Bool-cases (is_address id db)) [
            | inl e ↦ rw e tt
            | inr fresh ↦ rw fresh (elim (Bool-cases (any (is_current_of c y) db.address)) [
              | inl e ↦ rw e tt
              | inr e ↦
                  rw e (new_version (version c y p now id) db h, rw (eqb_refl id, eqb_refl c) refl)
            ])
          ])
        ])

  -- The address that was read, if one was, is one of the client.
  abbrev Found : ℕ → Option Address → Pred
  Found c none db = Owned db
  Found c (some a) db = Owned db × AddressOf c a.address_id db

  read :
      (c : ℕ) (y : Option String) (now id : ℕ) (db : Database)
      → Owned db
      → Does (Found c) (select_current c y now id db)
  unfolding select_current
  read c none now id db h = h
  read c (some y) now id db h = elim (Option-cases (find (is_current_of c y) db.address)) [
    | inl e ↦ rw e h
    | inr (a, e) ↦ rw e (
      h,
      any_found (is_current_of c y) (λ r. eqb a.address_id r.address_id && eqb c r.client_id)
          db.address a e
          (rw (eqb_refl a.address_id)
            (ground (arith, find_sound (is_current_of c y) db.address a e))),
    )
  ]

  expired :
      (c a n : ℕ) (now id : ℕ) (db : Database)
      → Owned db × AddressOf c n db
      → Does (λ _. Owned) (expire_address a now id db)
  expired c a n now id db h = expiry a now id db h.0

  revised :
      (c : ℕ) (y : Option String) (p : Place (Field String)) (r : Option Address)
      → Ensures (Found c r) (revise c y p r) (λ n db. Owned db × AddressOf c n db)
  revised c y p none = Ensures-execute Owned _ _ (inserted c y (place_values p))
  revised c y p (some a) =
      let P : Pred = λ db. Owned db × AddressOf c a.address_id db in
      Ensures-if P (unchanged a.place p) _ _ _ (λ _. Ensures-pure P a.address_id _ λ db h. h)
        λ _.
          Ensures-bind P _ (λ _. Owned) _ _
            (Ensures-execute P _ _ (expired c a.address_id a.address_id))
            λ _. Ensures-execute Owned _ _ (inserted c y (place_values p))

  pub upsert_current_address-owns :
      (c : ℕ) (d : AddressData)
      → Ensures Owned (upsert_current_address c d) (λ n db. Owned db × AddressOf c n db)
  unfolding upsert_current_address
  upsert_current_address-owns c d =
      Ensures-after Owned _ _ _ (search maintains_rules)
        λ y. Ensures-bind Owned _ _ _ _ (Ensures-execute Owned _ _ (read c y)) (revised c y d.place)

  -- The INSERT of an order whose address is one of its client.
  pub order-owned :
      (c a : ℕ) (y : Option String) (t : Option ℕ) (u : Option String) (d now id : ℕ)
      (db : Database)
      → Owned db × AddressOf c a db
      → Does (λ _. Owned) (insert_order_row y c a t u d now id db)
  unfolding insert_order_row
  order-owned c a none t u d now id db h = tt
  order-owned c a (some y) none u d now id db h = tt
  order-owned c a (some y) (some t) none d now id db h = tt
  order-owned c a (some y) (some t) (some u) d now id db (h, k) =
      elim (Bool-cases (is_client c db)) [
        | inr e ↦ rw e tt
        | inl client ↦ rw client (elim (Bool-cases (is_address a db)) [
          | inr e ↦ rw e tt
          | inl address ↦ rw address (elim (Bool-cases (is_order id db)) [
            | inl e ↦ rw e tt
            | inr fresh ↦
                rw fresh (elim (Bool-cases (any (λ o. same y o.external_order_id) db.orders)) [
                  | inl e ↦ rw e tt
                  | inr e ↦ rw e ((client, k), h)
                ])
          ])
        ])
      ]

  found :
      (x n : Option String) (o : Order) (now id : ℕ) (db : Database)
      → Owned db
      → Does (λ _. Owned) (update_found x n o now id db)
  found x none o now id db h = tt
  found x (some t) o now id db h = ground (
    arith,
    All-update_where (λ o. Belongs db.clients db.address o.client_id o.address_id)
        (λ (d : Order). matches x d.external_order_id) (set_status t now) db.orders (λ o b. b) h,
  )

  pub status : (x n : Option String) → Respects Owned (update_orders x n)
  unfolding update_orders
  status x n now id db h =
      elim (Option-cases (find (λ o. matches x o.external_order_id) db.orders)) [
        | inl e ↦ rw (e, update_orders) h
        | inr (o, e) ↦ rw (e, update_orders) (found x n o now id db h)
      ]

  versions :
      (c : ℕ) (y : Option String) (p : Place (Option String))
      → Respects Owned (insert_address c y p)
  versions c y p now id db h =
      Does-weaken (λ n db'. Owned db' × AddressOf c n db') (λ _. Owned)
        (insert_address c y p now id db) (λ n db' k. k.0) (inserted c y p now id db h)

  pub parties : RespectsParties Owned
  parties = record { clients = clients; expiry = expiry; versions = versions }

  -- The statements on the other tables.
  item : (r : ItemRow) → Respects Owned (insert_item r)
  unfolding insert_item
  item r now id db h = ground arith

  pub items : (rows : List ItemRow) → Respects Owned (insert_items rows)
  unfolding insert_items
  items [] now id db h = h
  items (r ∷ rs) now id db h =
      Does-bind (λ _. Owned) (λ _. Owned) (insert_item r now id db) _ (item r now id db h)
        λ _ db'. items rs now (suc id) db'

  payments :
      (y : Option String) (n : ℕ) (m t : Option String) (a d : Option ℕ)
      → Respects Owned (merge_payment y n m t a d)
  unfolding merge_payment
  payments y n m t a d now id db h = ground arith

  invoices :
      (y : Option String) (n : ℕ) (m : Option String) (i a : Option ℕ) (t u : Option String)
      → Respects Owned (merge_invoice y n m i a t u)
  unfolding merge_invoice
  invoices y n m i a t u now id db h = ground arith

  pub billing : RespectsBilling Owned
  billing = record { payments = payments; invoices = invoices }

  pub history : (n : ℕ) (v m e : Option String) → Respects Owned (insert_history n v m e)
  unfolding insert_history
  history n v m e now id db h = ground arith

  pub events : (e t : Option String) → Respects Owned (insert_event e t)
  unfolding insert_event
  events e t now id db h = ground arith

  pub processed : (e : Option String) → Respects Owned (update_processed e)
  unfolding update_processed
  processed e now id db h = h

  pub log : (v l m : String) (e : Option String) → Respects Owned (insert_log v l m e)
  unfolding insert_log
  log v l m e now id db h = h
