-- ===== src/Consumer/Machine/Body.antt =====
-- The body of the transaction of a message, against the abstract machine.
use observability_lab.Prelude.{ℕ, String, arith, Option, none, some, Bool, false, ◌≡◌, refl, []}
use observability_lab.Server.{Server}
use observability_lab.Result.{ok}
use observability_lab.Payload.{subscript, as_dict, get_default, EventData, Event}
use observability_lab.Session.{Tx, lift, ◌>>=◌}
use observability_lab.Session.Rules.{
  Pred, Ensures, Ensures-after, Ensures-bind, Ensures-execute, Ensures-if, Ensures-known,
  Ensures-pure, Ensures-read, Ensures-given, Ensures-weaken, Maintains, Maintains-pure,
  Maintains-execute, maintains_rules,
}
use observability_lab.DbOps.Orders.{insert_order, record_status_history, update_order_status}
use observability_lab.Consumer.Process.{
  is_text, order_created, after_update, order_status_changed, dispatch, process_event, txn_body,
}
use observability_lab.Consumer.Invariant.Walk.{
  upsert_client-Maintains, upsert_current_address-Maintains, order_date-Maintains,
  insert_order_items-Maintains, fetch_order_snapshot-Maintains, payment_confirmed-Maintains,
  invoice_issued-Maintains, RespectsBilling,
}
use observability_lab.Consumer.Invariant.Body.{claim_event-Ensures, mark-Ensures}
use observability_lab.Consumer.History.Frame.{books_parties, books_items, books_billing}
use observability_lab.Consumer.Machine.{
  Statuses, Command, skip, creation, changing, command_of, command, mark, statuses_in, seen_in,
  Performs,
}
use observability_lab.Consumer.Machine.Statements.{
  Shows, Performed, claim-shows, mark-performs, history-performs, order-performs, status-performs,
}

module _ ⦃s : Server⦄ (a : Statuses) (n : String → Bool) where
  insert_order-performs :
      (c d : ℕ) (e : EventData)
      → Ensures
          (Shows a n)
          (insert_order c d e)
          (λ _. Performed (creation (subscript e.external_order_id)) a n)
  unfolding insert_order
  insert_order-performs c d e = Ensures-read (Shows a n) _ _ _ λ x named.
      Ensures-after (Shows a n) _ _ _ (search maintains_rules) λ t.
        Ensures-after (Shows a n) _ _ _ (order_date-Maintains (Shows a n) e.order_date) λ date.
          rw named (
            Ensures-execute (Shows a n) _ _
              (order-performs a n x c d t (get_default e.currency "BRL") date))

  record-performs :
      (c : Command) (o : ℕ) (v t e : Option String)
      → Maintains (Performed c a n) (record_status_history o v t e)
  unfolding record_status_history
  record-performs c o v t e = Maintains-execute _ (history-performs c a n o v t e)

  order_created-performs :
      (i : Option String) (e : EventData)
      → Ensures
          (Shows a n)
          (order_created i (some e))
          (λ _. Performed (creation (subscript e.external_order_id)) a n)
  unfolding order_created
  order_created-performs i e =
      let P : Pred = Shows a n in
      let Q : Pred = Performed (creation (subscript e.external_order_id)) a n in
      Ensures-known P (as_dict (some e)) e _ (λ _. Q) refl
        (Ensures-after P _ _ _ (search maintains_rules) λ client.
          Ensures-after P _ _ _ (search maintains_rules) λ client_data.
            Ensures-after P _ _ _
              (upsert_client-Maintains P
                (books_parties (λ os _ es. (statuses_in os ≡ a) × (seen_in es ≡ n))) client_data)
              λ client_id. Ensures-after P _ _ _ (search maintains_rules) λ address.
                Ensures-after P _ _ _ (search maintains_rules) λ address_data.
                  Ensures-after P _ _ _
                    (upsert_current_address-Maintains P
                      (books_parties (λ os _ es. (statuses_in os ≡ a) × (seen_in es ≡ n))) client_id
                      address_data)
                    λ address_id.
                      Ensures-bind P _ _ _ _ (insert_order-performs client_id address_id e) λ o.
                        Ensures-after Q _ _ _
                          (insert_order_items-Maintains Q
                            (books_items (λ os _ es.
                              Performs (creation (subscript e.external_order_id)) a (statuses_in os)
                              × (seen_in es ≡ n)))
                            o (get_default e.items []))
                          λ _.
                            Ensures-after Q _ _ _ (record-performs _ o none (some "PENDING") i)
                              λ _. Maintains-pure none)

  after_update-performs :
      (c : Command) (i t : Option String) (r : Option (ℕ × String))
      → Maintains (Performed c a n) (after_update i t r)
  unfolding after_update
  after_update-performs c i t none = Maintains-pure none
  after_update-performs c i t (some (o, v)) =
      search (maintains_rules, record-performs, fetch_order_snapshot-Maintains) depth 8

  order_status_changed-performs :
      (i : Option String) (e : EventData)
      → Ensures
          (Shows a n)
          (order_status_changed i (some e))
          (λ _. Performed (changing (subscript e.external_order_id) (subscript e.new_status)) a n)
  unfolding order_status_changed update_order_status
  order_status_changed-performs i e = Ensures-known (Shows a n) (as_dict (some e)) e _ _ refl (
      Ensures-read (Shows a n) _ _ _ λ x named. Ensures-read (Shows a n) _ _ _ λ t says.
        rw (named, says)
          (Ensures-bind (Shows a n) _ _ _ _
            (Ensures-execute (Shows a n) _ _ (status-performs a n x t))
            (after_update-performs (changing (ok x) (ok t)) i t)))

  -- A handler that does not write `orders`.
  skips :
      {A : Type 0} (m : Tx A)
      → Maintains (Shows a n) m
      → Ensures (Shows a n) m (λ _. Performed skip a n)
  skips m h =
      Ensures-weaken (Shows a n) (Shows a n) m (λ _. Shows a n) (λ _. Performed skip a n)
        (λ db k. k) (λ _ db k. k) h

  bills : RespectsBilling (Shows a n)
  bills = books_billing (λ os _ es. (statuses_in os ≡ a) × (seen_in es ≡ n))

  dispatch-skips :
      (i t : Option String) → Ensures (Shows a n) (dispatch i t none) (λ _. Performed skip a n)
  unfolding dispatch order_created order_status_changed
  dispatch-skips i t =
      Ensures-if (Shows a n) (is_text t "ORDER_CREATED") _ _ _ (λ _. nothing _)
        λ _.
          Ensures-if (Shows a n) (is_text t "ORDER_STATUS_CHANGED") _ _ _ (λ _. nothing _)
            λ _.
              Ensures-if (Shows a n) (is_text t "PAYMENT_CONFIRMED") _ _ _
                (λ _. skips _ (payment_confirmed-Maintains (Shows a n) bills none))
                λ _.
                  Ensures-if (Shows a n) (is_text t "INVOICE_ISSUED") _ _ _
                    (λ _. skips _ (invoice_issued-Maintains (Shows a n) bills none))
                    λ _. skips _ (Maintains-pure none)
    where
      nothing :
          {A B : Type 0} (f : A → Tx B)
          → Ensures (Shows a n) (lift (as_dict none) >>= f) (λ _. Performed skip a n)
      nothing f = Ensures-read (Shows a n) (as_dict none) f _ λ e h. absurd (ground arith)

  dispatch-performs :
      (i t : Option String) (d : Option EventData)
      → Ensures (Shows a n) (dispatch i t d) (λ _. Performed (command_of t d) a n)
  unfolding dispatch
  dispatch-performs i t none = dispatch-skips i t
  dispatch-performs i t (some e) =
      Ensures-if (Shows a n) (is_text t "ORDER_CREATED") _ _ _
        (λ h. rw h (order_created-performs i e))
        λ h.
          Ensures-if (Shows a n) (is_text t "ORDER_STATUS_CHANGED") _ _ _
            (λ k. rw (h, k) (order_status_changed-performs i e))
            λ k.
              rw (h, k)
                (Ensures-if (Shows a n) (is_text t "PAYMENT_CONFIRMED") _ _ _
                  (λ _. skips _ (payment_confirmed-Maintains (Shows a n) bills (some e)))
                  λ _.
                    Ensures-if (Shows a n) (is_text t "INVOICE_ISSUED") _ _ _
                      (λ _. skips _ (invoice_issued-Maintains (Shows a n) bills (some e)))
                      λ _. skips _ (Maintains-pure none))

-- The event was not processed, and its command is performed.
abbrev pub Processed : ⦃s : Server⦄ → Statuses → (String → Bool) → Event → String → Pred
Processed a n e i db = (n i ≡ false) × Performed (command e) a (mark i n) db

module _ ⦃s : Server⦄ (a : Statuses) (n : String → Bool) (e : Event) (i : String)
    (named : subscript e.event_id ≡ ok (some i)) where
  abbrev Done : Pred
  Done = Processed a n e i

  process_event-Processed : Ensures (Shows a n) (process_event e) (λ _. Done)
  unfolding process_event
  process_event-Processed =
      Ensures-known (Shows a n) (subscript e.event_id) (some i) _ (λ _. Done) named
        (Ensures-read (Shows a n) _ _ _ λ t typed. Ensures-read (Shows a n) _ _ _ λ d says.
          Ensures-bind (Shows a n) _ _ _ _
            (claim_event-Ensures (Shows a n) _ (some i) t (claim-shows a n i t))
            λ _. Ensures-given (n i ≡ false) (Shows a (mark i n)) _ _ λ fresh.
              Ensures-weaken (Shows a (mark i n)) (Shows a (mark i n)) _ _ _ (λ db k. k)
                (λ _ db k. (fresh, (rw (typed, says) k.0, k.1)))
                (dispatch-performs a (mark i n) (some i) t d))

  pub body-Processed : Ensures (Shows a n) (txn_body e (some i)) (λ _. Done)
  unfolding txn_body
  body-Processed = Ensures-bind (Shows a n) _ _ _ _ process_event-Processed λ outbox.
      Ensures-bind Done _ _ _ _
        (mark-Ensures Done (λ _. Done) (some i)
          (mark-performs (n i ≡ false) (command e) a (mark i n) (some i)))
        λ _. Ensures-pure Done outbox (λ _. Done) λ db h. h
