-- ===== src/Consumer/Applied/Message.antt =====
-- A change of status through `handle_message`: its effect, its metric and its publication.
use observability_lab.Prelude.{ℕ, suc, String, some, ◌∷◌, find, eqb, ◌≡◌, refl, ◌∙◌}
use observability_lab.Server.{Server, clear}
use observability_lab.Broker.{acked}
use observability_lab.Result.{ok}
use observability_lab.Payload.{Event}
use observability_lab.Tables.{Client, Address, Order}
use observability_lab.Session.Succeeds.{after}
use observability_lab.Consumer.Handle.{Packages, Message, State, handle_message}
use observability_lab.Consumer.Succeeds.{handled}
use observability_lab.Consumer.Applied.{
  IsStatusChange, IsDue, applied, snapshot, change-Yields, approval-Yields,
}

module _ ⦃s : Server⦄ (p : Packages) where
  module _ (clears : (n : ℕ) → s.fate n ≡ clear) where
    -- On a server that carries every statement out: a message that decodes to a change of status
    -- to "APPROVED", of an event not yet claimed, for an order that is found by both of its keys
    -- and is not in a terminal status, with a free key for the history, where the status is an
    -- allowed one, the client and the address of the order are found and the broker acknowledges
    -- the record, is handled without an exception: the change is applied as any other, and one
    -- record is published besides, the order as it now is with its client, its address and its
    -- items, under its key.
    pub approval_published :
        (msg : Message) (ev : Event) (e x : String) (o : Order) (cl : Client) (a : Address)
        (k : State)
        → p.loads msg.value ≡ some ev
        → IsStatusChange ev e x "APPROVED"
        → IsDue e x "APPROVED" o k.conn.db k.conn.tick
        → find (λ d. eqb d.client_id o.client_id) k.conn.db.clients ≡ some cl
        → find (λ d. eqb d.address_id o.address_id) k.conn.db.address ≡ some a
        → p.send k.sends ≡ acked
        → handle_message p msg k ≡ (
          ok tt,
          record k {
            conn = record {
              db = applied e x "APPROVED" o k.conn.db k.conn.tick (after 6 k.conn.tick);
              tick = after 8 k.conn.tick;
            };
            counts = ("ORDER_STATUS_CHANGED", "success") ∷ k.counts;
            published =
                (p.decimal o.order_id, snapshot "APPROVED" o cl a k.conn.db k.conn.tick)
                ∷ k.published;
            sends = suc k.sends;
          },
        )
    approval_published msg ev e x o cl a k l c due g h w =
        handled p msg ev e "ORDER_STATUS_CHANGED" c.details k
          (some (record {
            event_type = "ORDER_APPROVED";
            order = snapshot "APPROVED" o cl a k.conn.db k.conn.tick;
          }))
          (applied e x "APPROVED" o k.conn.db k.conn.tick (after 6 k.conn.tick))
          (after 8 k.conn.tick) l c.is_event
          (change-Yields clears e x "APPROVED" o k.conn.db k.conn.tick due ev c _
            (after 6 k.conn.tick)
            (approval-Yields clears e x "APPROVED" o k.conn.db k.conn.tick due cl a refl g h))
        ∙ rw w refl
