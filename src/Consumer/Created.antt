-- ===== src/Consumer/Created.antt =====
-- An ORDER_CREATED event that says all it must: what it says, what the tables must allow, and what
-- it has to leave in them.
pub mod Steps
pub mod Body
pub mod Message
use observability_lab.Prelude.{
  ℕ, suc, String, Option, none, some, true, false, List, [], map, any, eqb, ◌∷◌, ◌≤◌, ◌≡◌,
}
use observability_lab.Server.{Server, same}
use observability_lab.Result.{ok}
use observability_lab.Payload.{
  Field, absent, null, given, get_default, Place, ClientData, AddressData, EventData, Event,
}
use observability_lab.Tables.{Database}
use observability_lab.Session.Succeeds.{From}
use observability_lab.Sql.Events.{is_claimed}
use observability_lab.Sql.Parties.{is_client, is_address, check_place}
use observability_lab.Sql.Orders.{is_order}
use observability_lab.Sql.Accepted.{ledger_row, history_row}
use observability_lab.Sql.Stored.{Line, item_of, stored, AreFree, order_row}
use observability_lab.DbOps.Parties.{place_values}
use observability_lab.Parties.History.{IsVersioned}
use observability_lab.Parties.Upsert.{IsCurrentVersion}
use observability_lab.Parties.Succeeds.{IsClientData, IsNamed}
use observability_lab.Consumer.Succeeds.{IsEvent}

-- What the event says.
pub record Purchase : Type 0 where
  pub external_order_id : String
  pub external_client_id : String
  pub name : String
  pub email : String
  pub document : String
  pub external_address_id : String
  pub place : Place (Field String)
  pub total_amount : ℕ
  pub currency : String
  pub order_date : Field ℕ
  pub lines : List Line

-- The event, as it was decoded: nothing that the tables need is missing.
pub record IsPurchase (ev : Event) (e : String) (b : Purchase) : Type 0 where
  pub details : EventData
  pub client : ClientData
  pub address : AddressData
  pub is_event : IsEvent ev e "ORDER_CREATED" details
  pub says_client : details.client ≡ given client
  pub is_client_data : IsClientData client b.external_client_id b.name b.email b.document
  pub says_address : details.address ≡ given address
  pub external_address_id : address.external_address_id ≡ given b.external_address_id
  pub place : address.place ≡ b.place
  pub external_order_id : details.external_order_id ≡ given b.external_order_id
  pub total_amount : details.total_amount ≡ given b.total_amount
  pub currency : get_default details.currency "BRL" ≡ some b.currency
  pub order_date : details.order_date ≡ b.order_date
  pub lines : get_default details.items [] ≡ some (map item_of b.lines)

module _ ⦃s : Server⦄ where
  -- The place has what may not be NULL, the event and the order are new, each address has at most
  -- one current version, and no identity from statement `n` on is in use.
  pub record IsCreatable (e : String) (b : Purchase) (db : Database) (n : ℕ) : Type 0 where
    pub complete : check_place (place_values b.place) ≡ ok tt
    pub unclaimed : is_claimed e db ≡ false
    pub unknown : any (λ o. same b.external_order_id o.external_order_id) db.orders ≡ false
    pub versioned : IsVersioned db.address
    pub clients : From (λ m. is_client (s.identity m) db ≡ false) n
    pub addresses : From (λ m. is_address (s.identity m) db ≡ false) n
    pub orders : From (λ m. is_order (s.identity m) db ≡ false) n
    pub items : From (λ m. AreFree (s.identity m) db.order_items) n
    pub history :
        From (λ m. any (λ h. eqb (s.identity m) h.history_id) db.order_status_history ≡ false) n

  -- `order.get("order_date") or dt.datetime.utcnow()` before statement `n`
  abbrev pub dated : Field ℕ → ℕ → ℕ
  dated absent n = s.process_time n
  dated null n = s.process_time n
  dated (given d) n = d

  -- The tables after the event: its client and its address are there, the order is there, PENDING
  -- and linked to both, with a row for each line and the first row of its history, the event is in
  -- the ledger and marked, and the other tables are as before. `n` is the number of statements that
  -- were sent before, `ordered` and `recorded` the numbers of the INSERTs of the order and of the
  -- history; `m` is their number after.
  pub record IsCreated (e : String) (b : Purchase) (db : Database) (n : ℕ) (final : Database)
      (m : ℕ) : Type 0 where
    pub client_key : ℕ
    pub address_key : ℕ
    pub ordered : ℕ
    pub recorded : ℕ
    pub order_later : n ≤ ordered
    pub later : n ≤ recorded
    pub sent : m ≡ suc (suc (suc recorded))
    pub client : IsNamed b.external_client_id b.name b.email b.document client_key final.clients
    pub address : IsCurrentVersion client_key b.external_address_id b.place address_key final
    pub orders :
        final.orders
        ≡ order_row b.external_order_id client_key address_key b.total_amount b.currency
            (dated b.order_date ordered)
            (s.time ordered)
            (s.identity ordered)
          ∷ db.orders
    pub items :
        final.order_items
        ≡ stored (s.identity ordered) (s.identity (suc ordered)) b.lines db.order_items
    pub history :
        final.order_status_history
        ≡ history_row (s.identity recorded) (s.identity ordered) none "PENDING" (s.time recorded) e
          ∷ db.order_status_history
    pub ledger :
        final.processed_webhook_events
        ≡ ledger_row e "ORDER_CREATED" (s.time (suc n)) (some (s.time (suc recorded)))
          ∷ db.processed_webhook_events
    pub payment : final.payment ≡ db.payment
    pub invoices : final.invoices ≡ db.invoices
    pub pipeline_log : final.pipeline_log ≡ db.pipeline_log
