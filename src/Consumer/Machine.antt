-- ===== src/Consumer/Machine.antt =====
-- What the consumer promises of `orders` and of the event ledger, as an abstract machine: the status
-- of each order by its external id, the events that were processed, and one step for a message of
-- services/ingestion_consumer/app/consumer.py.
pub mod Statements
pub mod Body
pub mod Refines
use observability_lab.Prelude.{
  String, Option, none, some, Bool, true, false, ◌||◌, List, [], ◌∷◌, ◌++◌, ◌≡◌, ◌⊎◌, ℕ, find, any,
  if◌then◌else◌,
}
use observability_lab.Server.{Server, same}
use observability_lab.Result.{Result, ok, err}
use observability_lab.Payload.{subscript, EventData, Event}
use observability_lab.Tables.{
  Order, ProcessedWebhookEvent, Database, order_status_check, is_terminal,
}
use observability_lab.Consumer.Process.{is_text}
use observability_lab.Consumer.Handle.{Packages, Message}

abbrev pub Statuses : Type 0
Statuses = String → Option String

pub record Shop : Type 0 where
  pub statuses : Statuses
  pub seen : String → Bool

-- What an event asks of the orders.
pub data Command : Type 0 where
  create : String → Command
  change : String → String → Command
  skip : Command

abbrev pub creation : Result (Option String) → Command
creation (ok (some x)) = create x
creation (ok none) = skip
creation (err e) = skip

abbrev pub changing : Result (Option String) → Result (Option String) → Command
changing (ok (some x)) (ok (some t)) = change x t
changing _ _ = skip

abbrev pub command_of : Option String → Option EventData → Command
command_of t none = skip
command_of t (some d) =
    if is_text t "ORDER_CREATED"
    then creation (subscript d.external_order_id)
    else if is_text t "ORDER_STATUS_CHANGED"
    then changing (subscript d.external_order_id) (subscript d.new_status)
    else skip

abbrev pub read_command : Result (Option String) → Result (Option EventData) → Command
read_command (ok t) (ok d) = command_of t d
read_command _ _ = skip

abbrev pub command : Event → Command
command e = read_command (subscript e.event_type) (subscript e.payload)

-- The messages of the batches, in the order in which the loop comes to them.
abbrev pub messages_of : List (ℕ × List Message) → List Message
messages_of [] = []
messages_of ((tp, ms) ∷ bs) = ms ++ messages_of bs

abbrev pub all_messages : List (List (ℕ × List Message)) → List Message
all_messages [] = []
all_messages (bs ∷ polls) = messages_of bs ++ all_messages polls

abbrev pub status_in : Option Order → Option String
status_in none = none
status_in (some o) = some o.status

module _ ⦃s : Server⦄ where
  abbrev pub set_status_of : String → String → Statuses → Statuses
  set_status_of x t a y = if same y x then some t else a y

  -- An order is created once, as "PENDING"; a change finds an order that is not in a terminal
  -- status, or no order; nothing else touches a status.
  abbrev pub Performs : Command → Statuses → Statuses → Type 0
  Performs (create x) a b = (a x ≡ none) × (b ≡ set_status_of x "PENDING" a)
  Performs (change x t) a b =
      ((a x ≡ none) × (b ≡ a))
      ⊎ ((u : String) × (a x ≡ some u)
          × (is_terminal u ≡ false)
          × (order_status_check t ≡ true)
          × (b ≡ set_status_of x t a))
  Performs skip a b = b ≡ a

  abbrev pub mark : String → (String → Bool) → String → Bool
  mark i n y = same y i || n y

  -- An event is processed if it was not processed before, and then it was.
  abbrev pub Processes : Event → Shop → Shop → Type 0
  Processes e a b =
      (i : String) × (subscript e.event_id ≡ ok (some i))
      × (a.seen i ≡ false)
      × (b.seen ≡ mark i a.seen)
      × Performs (command e) a.statuses b.statuses

  module _ (p : Packages) where
    -- A message does nothing, or its event is processed.
    abbrev pub Handles : Message → Shop → Shop → Type 0
    Handles m a b = (b ≡ a) ⊎ ((e : Event) × (p.loads m.value ≡ some e) × Processes e a b)

    -- The messages, one after the other.
    abbrev pub Runs : List Message → Shop → Shop → Type 0
    Runs [] a b = b ≡ a
    Runs (m ∷ ms) a c = (b : Shop) × Handles m a b × Runs ms b c

  -- The view of the tables.
  abbrev pub statuses_in : List Order → Statuses
  statuses_in os x = status_in (find (λ o. same x o.external_order_id) os)

  abbrev pub seen_in : List ProcessedWebhookEvent → String → Bool
  seen_in rows i = any (λ r. same i r.event_id) rows

  abbrev pub shop_of : Database → Shop
  shop_of db = record {
    statuses = statuses_in db.orders;
    seen = seen_in db.processed_webhook_events;
  }
