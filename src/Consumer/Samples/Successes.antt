-- ===== src/Consumer/Samples/Successes.antt =====
-- Events of the test data that succeed.
use observability_lab.Prelude.{ℕ, String, ◌≡◌, refl, [], ◌∷◌, arith, List, inl}
use observability_lab.Result.{ok}
use observability_lab.Payload.{absent}
use observability_lab.Tables.{Database, is_terminal}
use observability_lab.Consumer.Handle.{State, handle_message}
use observability_lab.Consumer.Applied.{IsStatusChange}
use observability_lab.Consumer.Created.{Purchase, IsPurchase, IsCreatable, IsCreated}
use observability_lab.Consumer.Created.Message.{purchase-IsCreated}
use observability_lab.Consumer.Bought.{IsApprovalOf}
use observability_lab.DbOps.Orders.{Snapshot}
use observability_lab.Clients.{finished}
use observability_lab.Consumer.Idempotence.{unlogged}
use observability_lab.Consumer.Main.{Run, restarts}
use observability_lab.Consumer.Early.{noted, early_event_lost}
use observability_lab.Pipeline.{as_message, IsHandedOver, purchase_delivered}
use observability_lab.Worker.Samples
use observability_lab.Worker.Samples.{world, answers_clear}
use observability_lab.Consumer.Samples.{
  binary, packages, new_home, buyer, new_address, lines, bought, buy, confirm, message, shop, start,
}

abbrev purchase : Purchase
purchase = record {
  external_order_id = "ORD-3";
  external_client_id = "CLI-1";
  name = "Ana";
  email = "ana@example.com";
  document = "1";
  external_address_id = "ADDR-1";
  place = new_home;
  total_amount = 11970;
  currency = "BRL";
  order_date = absent;
  lines = lines;
}

buy-IsPurchase : IsPurchase buy "evt-buy" purchase
buy-IsPurchase = record {
  details = bought;
  client = buyer;
  address = new_address;
  is_event = record { event_id = refl; event_type = refl; payload = refl };
  says_client = refl;
  is_client_data = record { external_client_id = refl; name = refl; email = refl; document = refl };
  says_address = refl;
  external_address_id = refl;
  place = refl;
  external_order_id = refl;
  total_amount = refl;
  currency = refl;
  order_date = refl;
  lines = refl;
}

buy-IsCreatable : IsCreatable "evt-buy" purchase shop 0
buy-IsCreatable = record {
  complete = refl;
  unclaimed = refl;
  unknown = refl;
  versioned = (refl, refl, tt);
  clients = λ m l. ground arith;
  addresses = λ m l. ground arith;
  orders = λ m l. ground arith;
  items = λ m l j. refl;
  history = λ m l. ground arith;
}

purchase-IsCreated_example :
    (db : Database) × (n : ℕ) × (handle_message packages (message 8 "buy") start ≡ (
      ok tt,
      record start {
        conn = record { db = db; tick = n };
        counts = ("ORDER_CREATED", "success") ∷ [];
      },
    ))
    × IsCreated "evt-buy" purchase shop 0 db n
purchase-IsCreated_example =
    purchase-IsCreated packages (λ n. refl) (message 8 "buy") buy "evt-buy" purchase start refl
      buy-IsPurchase buy-IsCreatable

confirm-IsStatusChange : IsStatusChange confirm "evt-confirm" "ORD-3" "APPROVED"
confirm-IsStatusChange = record {
  details = _;
  is_event = record { event_id = refl; event_type = refl; payload = refl };
  external_order_id = refl;
  new_status = refl;
}

abbrev after_buy : State
after_buy = (handle_message packages (message 8 "buy") start).1

purchase_delivered_example :
    (r : String × Snapshot) × ((handle_message packages (message 9 "confirm") after_buy).1.published
      ≡ r ∷ [])
    × IsApprovalOf purchase r.1
    × IsHandedOver world (as_message (λ n. "order") r) Samples.start
unfolding is_terminal
purchase_delivered_example =
    purchase_delivered packages world (λ n. "order") (λ n. refl) (λ m n h. omega (arith, h)) refl
      (message 8 "buy") (message 9 "confirm") buy confirm "evt-buy" "evt-confirm" purchase start
      Samples.start refl buy-IsPurchase buy-IsCreatable refl confirm-IsStatusChange refl refl tt
      refl answers_clear (λ t. refl) (λ t. refl) (λ n. ("order", refl)) refl (tt, tt)

-- The approval of "ORD-3" before its creation.
abbrev after_confirm : State
after_confirm = (handle_message packages (message 8 "confirm") start).1

abbrev runs : List Run
runs = record { answers = λ n. finished; polls = ((0, message 9 "buy" ∷ []) ∷ []) ∷ [] } ∷ []

abbrev later : State
later = restarts packages runs after_confirm

early_event_lost_example :
    (handle_message packages (message 8 "confirm") start ≡ (
      ok tt,
      record start {
        conn = record { db = noted "evt-confirm" "ORDER_STATUS_CHANGED" shop 0; tick = 5 };
        counts = ("ORDER_STATUS_CHANGED", "success") ∷ [];
      },
    ))
    × (unlogged (handle_message packages (message 8 "confirm") later).1.conn.db
        ≡ unlogged later.conn.db)
    × ((handle_message packages (message 8 "confirm") later).1.published ≡ later.published)
early_event_lost_example =
    early_event_lost packages (λ n. refl) (message 8 "confirm") confirm "evt-confirm"
      "ORDER_STATUS_CHANGED" "ORD-3" start runs refl
      (record {
        details = _;
        following = inl (refl, ("APPROVED", refl));
        is_event = record { event_id = refl; event_type = refl; payload = refl };
        external_order_id = refl;
      })
      refl refl
