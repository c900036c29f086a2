-- ===== src/Pipeline.antt =====
-- The consumer and the worker together: from the creation of an order to the external ERP.
use observability_lab.Prelude.{ℕ, String, some, true, false, [], ◌∷◌, ◌≡◌, ◌≢◌, any, eqb, All}
use mathlib.Core.Path.{subst}
use observability_lab.Server.{Server, clear, same}
use observability_lab.Broker.{acked}
use observability_lab.Payload.{Event}
use observability_lab.Tables.{is_terminal}
use observability_lab.Sql.Events.{is_claimed}
use observability_lab.DbOps.Orders.{Snapshot}
use observability_lab.Consumer.Handle.{Packages, Message, State, handle_message}
use observability_lab.Consumer.Applied.{IsStatusChange}
use observability_lab.Consumer.Created.{Purchase, IsPurchase, IsCreatable}
use observability_lab.Consumer.Bought.{IsApprovalOf, purchase_approved}
use observability_lab.Worker.Deliver
use observability_lab.Worker.Deliver.{World, returned, garbled}
use observability_lab.Worker.Loop.{main_loop}
use observability_lab.Worker.Settled.{IsSettled, IsDone, committed-IsSettled}
use observability_lab.Worker.Progress.{main_loop-IsThrough}

-- A record of the topic `order-approved` as the worker gets it.
abbrev pub as_message : (Snapshot → String) → String × Snapshot → Deliver.Message
as_message dumps (key, n) = record { key = some key; value = dumps n }

-- The worker has committed the message, and the ERP accepted its payload, or it is in the dead-letter
-- topic.
abbrev pub IsHandedOver :
    {Json : Type 0} → World Json → Deliver.Message → Deliver.State Json → Type 0
IsHandedOver w m l =
    let o = main_loop w (m ∷ []) l in
    (o.0 ≡ returned) × (o.1.committed ≡ m ∷ l.consumed) × IsSettled w o.1 m

handed_over :
    {Json : Type 0} (w : World Json) (m : Deliver.Message) (l : Deliver.State Json)
    → ((t : ℕ) (payload : Json) → w.post t payload ≢ garbled)
    → ((t : ℕ) → w.send t ≡ acked)
    → ((t : ℕ) → w.commit t ≡ true)
    → (payload : Json) × (w.loads m.value ≡ some payload)
    → l.committed ≡ l.consumed
    → IsDone w l
    → IsHandedOver w m l
handed_over w m l posts sends commits readable e done =
    let (ends, consumed, committed) =
      main_loop-IsThrough w (m ∷ []) l posts sends commits (readable, tt) e in
    (
      ends,
      committed,
      (subst (λ xs. All (IsSettled w (main_loop w (m ∷ []) l).1) xs) committed
          (committed-IsSettled w (m ∷ []) l done)).0,
    )

-- The consumer's database carries every statement out and never gives an identity twice, its collation
-- tells "PENDING" from the terminal statuses, the broker answers, the worker can read what the consumer
-- writes, no POST fails but by a status code or a lost connection, and everything that the worker was
-- handed out is committed and settled. Then a message with an ORDER_CREATED event that says all that
-- the tables need and that nothing in them stands against, and one with the change of that order to
-- "APPROVED" under another event id that is not yet claimed, publish one record of that order,
-- approved, with its lines, its client and its address; and the worker, given that record, returns,
-- has committed it, and the ERP accepted its payload, or it is in the dead-letter topic. The rows of
-- items in the database must name orders that are there.
pub purchase_delivered :
    ⦃s : Server⦄ (p : Packages) {Json : Type 0} (w : World Json) (dumps : Snapshot → String)
    → ((n : ℕ) → s.fate n ≡ clear)
    → ((m n : ℕ) → s.identity m ≡ s.identity n → m ≡ n)
    → is_terminal "PENDING" ≡ false
    → (msg msg' : Message) (ev ev' : Event) (e e' : String) (b : Purchase) (k : State)
      (l : Deliver.State Json)
    → p.loads msg.value ≡ some ev
    → IsPurchase ev e b
    → IsCreatable e b k.conn.db k.conn.tick
    → p.loads msg'.value ≡ some ev'
    → IsStatusChange ev' e' b.external_order_id "APPROVED"
    → is_claimed e' k.conn.db ≡ false
    → same e' e ≡ false
    → All (λ i. any (λ r. eqb i.order_id r.order_id) k.conn.db.orders ≡ true) k.conn.db.order_items
    → p.send k.sends ≡ acked
    → ((t : ℕ) (payload : Json) → w.post t payload ≢ garbled)
    → ((t : ℕ) → w.send t ≡ acked)
    → ((t : ℕ) → w.commit t ≡ true)
    → ((n : Snapshot) → (payload : Json) × (w.loads (dumps n) ≡ some payload))
    → l.committed ≡ l.consumed
    → IsDone w l
    → (r : String × Snapshot) × ((handle_message p msg' (handle_message p msg k).1).1.published
        ≡ r ∷ k.published)
      × IsApprovalOf b r.1
      × IsHandedOver w (as_message dumps r) l
purchase_delivered p w dumps clears distinct pending msg msg' ev ev' e e' b k l loaded c can loaded'
      c' unclaimed other linked sent posts sends commits readable same_offset done =
    let (n, published, approval) =
      purchase_approved p clears distinct pending msg msg' ev ev' e e' b k loaded c can loaded' c'
        unclaimed other linked sent in
    (
      (p.decimal n.order.order_id, n),
      published,
      approval,
      handed_over w (as_message dumps (p.decimal n.order.order_id, n)) l posts sends commits
          (readable n) same_offset done,
    )
