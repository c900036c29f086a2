-- ===== src/Consumer/Created/Message.antt =====
-- An ORDER_CREATED event through `handle_message`.
use observability_lab.Prelude.{ℕ, String, some, none, ◌∷◌, ◌≡◌}
use observability_lab.Server.{Server, clear}
use observability_lab.Result.{ok}
use observability_lab.Payload.{Event}
use observability_lab.Tables.{Database}
use observability_lab.Consumer.Handle.{Packages, Message, State, handle_message}
use observability_lab.Consumer.Succeeds.{handled}
use observability_lab.Consumer.Created.{Purchase, IsPurchase, IsCreatable, IsCreated}
use observability_lab.Consumer.Created.Body.{run_in_txn-IsCreated}

-- On a server that carries every statement out: a message that decodes to an ORDER_CREATED event
-- that is not yet claimed and says all that the tables need, for an order that is not there, where
-- each address has at most one current version and no identity that the server is to give is in
-- use, is handled without an exception: the client is there with the name, the email and the
-- document that the event says, the address has the event's place as its current version, the order
-- is there with status PENDING, linked to both, with a row for each line and the first row of its
-- history, the event is in the ledger and marked, the success is counted, nothing is published, and
-- the other tables are as before.
pub purchase-IsCreated :
    ⦃s : Server⦄ (p : Packages)
    → ((n : ℕ) → s.fate n ≡ clear)
    → (msg : Message) (ev : Event) (e : String) (b : Purchase) (k : State)
    → p.loads msg.value ≡ some ev
    → IsPurchase ev e b
    → IsCreatable e b k.conn.db k.conn.tick
    → (db : Database) × (n : ℕ) × (handle_message p msg k ≡ (
      ok tt,
      record k {
        conn = record { db = db; tick = n };
        counts = ("ORDER_CREATED", "success") ∷ k.counts;
      },
    ))
      × IsCreated e b k.conn.db k.conn.tick db n
purchase-IsCreated p clears msg ev e b k l c can =
    let (db, n, yields, created) = run_in_txn-IsCreated clears ev e b c k.conn.db k.conn.tick can in
    (db, n, handled p msg ev e "ORDER_CREATED" c.details k none db n l c.is_event yields, created)
