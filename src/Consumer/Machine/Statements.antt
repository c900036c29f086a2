-- ===== src/Consumer/Machine/Statements.antt =====
-- The statements that write `orders` or the event ledger, against the abstract machine.
use observability_lab.Prelude.{
  ℕ, String, Option, none, some, Bool, true, false, Bool-cases, Option-cases, inl, inr, ◌≡◌, refl,
  ◌∙◌, sym, ◌⊎◌, ap, List, any, find, update_where, ◌&&◌, if◌then◌else◌, eqb,
}
use mathlib.Core.Path.{fun_ext}
use observability_lab.Server.{Server, same}
use observability_lab.Result.{ok}
use observability_lab.Tables.{
  Database, Order, ProcessedWebhookEvent, order_status_check, is_terminal,
}
use observability_lab.Session.Rules.{Pred, Does}
use observability_lab.Sql.Events.{is_claimed, matches, insert_event, update_processed}
use observability_lab.Sql.Parties.{is_client, is_address}
use observability_lab.Sql.Orders.{
  is_order, set_status, insert_history, insert_order_row, update_found, update_orders,
}
use observability_lab.Sql.Keys.{
  same_sym, same_left, find_sound, find_never, find-none, find-same, any_found, find-update_where,
  any-update_where,
}
use observability_lab.Consumer.Machine.{
  Statuses, Command, creation, changing, set_status_of, Performs, mark, status_in, statuses_in,
  seen_in,
}

module _ ⦃s : Server⦄ where
  -- Two external ids that the database does not tell apart name one order.
  other_order :
      (x y : String) (r : Order)
      → same y r.external_order_id ≡ true
      → same y x ≡ false
      → same x r.external_order_id ≡ false
  other_order x y r h e =
      same_sym x r.external_order_id ∙ sym (same_left y r.external_order_id x h) ∙ e

  -- The update of the rows of one order changes its status in the view.
  statuses-update :
      (x t : String) (now : ℕ) (os : List Order) (o : Order)
      → find (λ r. same x r.external_order_id) os ≡ some o
      → statuses_in (update_where (λ r. same x r.external_order_id) (set_status t now) os)
        ≡ set_status_of x t (statuses_in os)
  statuses-update x t now os o f = fun_ext λ y.
      ap status_in (
        find-update_where (λ r. same y r.external_order_id) (λ r. same x r.external_order_id)
          (set_status t now) os (λ r. refl))
      ∙ seen_by y (Bool-cases (same y x)) (Option-cases (find (λ r. same y r.external_order_id) os))
    where
      seen_by :
          (y : String)
          → (same y x ≡ true) ⊎ (same y x ≡ false)
          → (find (λ r. same y r.external_order_id) os ≡ none)
            ⊎ ((r : Order) × (find (λ r. same y r.external_order_id) os ≡ some r))
          → status_in (elim (find (λ r. same y r.external_order_id) os) [
            | none ↦ none
            | some r ↦ some (if same x r.external_order_id then set_status t now r else r)
          ])
            ≡ set_status_of x t (statuses_in os) y
      seen_by y (inl e) _ = rw (
        e,
        find-same (λ (r : Order). r.external_order_id) os y x e,
        f,
        find_sound (λ r. same x r.external_order_id) os o f,
      )
      seen_by y (inr e) (inl g) = rw (e, g)
      seen_by y (inr e) (inr (r, g)) =
          rw (e, g, other_order x y r (find_sound (λ r. same y r.external_order_id) os r g) e)

  abbrev pub Shows : Statuses → (String → Bool) → Pred
  Shows a n db = (statuses_in db.orders ≡ a) × (seen_in db.processed_webhook_events ≡ n)

  abbrev pub Performed : Command → Statuses → (String → Bool) → Pred
  Performed c a n db =
      Performs c a (statuses_in db.orders) × (seen_in db.processed_webhook_events ≡ n)

  -- The claim of an event that has an id.
  pub claim-shows :
      (a : Statuses) (n : String → Bool) (i : String) (t : Option String) (now id : ℕ)
      (db : Database)
      → Shows a n db
      → Does (λ _ db'. (n i ≡ false) × Shows a (mark i n) db') (insert_event (some i) t now id db)
  unfolding insert_event
  claim-shows a n i none now id db h = tt
  claim-shows a n i (some t) now id db (h, k) = elim (Bool-cases (is_claimed i db)) [
    | inl e ↦ rw e tt
    | inr e ↦ rw e (ap (λ (f : String → Bool). f i) (sym k) ∙ e, (h, ap (mark i) k))
  ]

  pub mark-performs :
      (K : Type 0) (c : Command) (a : Statuses) (n : String → Bool) (i : Option String) (now id : ℕ)
      (db : Database)
      → K × Performed c a n db
      → Does (λ _ db'. K × Performed c a n db') (update_processed i now id db)
  unfolding update_processed
  mark-performs K c a n i now id db (g, (h, k)) = (
    g,
    (
      h,
      fun_ext (λ y.
            any-update_where (λ (r : ProcessedWebhookEvent). same y r.event_id)
              (λ r. matches i r.event_id) (λ r. record r { processed_at = some now })
              db.processed_webhook_events (λ r. refl))
          ∙ k,
    ),
  )

  pub history-performs :
      (c : Command) (a : Statuses) (n : String → Bool) (o : ℕ) (v t e : Option String) (now id : ℕ)
      (db : Database)
      → Performed c a n db
      → Does (λ _. Performed c a n) (insert_history o v t e now id db)
  unfolding insert_history
  history-performs c a n o v none e now id db h = tt
  history-performs c a n o v (some t) e now id db h = elim (Bool-cases (is_order o db)) [
    | inr e ↦ rw e tt
    | inl known ↦
        rw known (elim (Bool-cases (any (λ r. eqb id r.history_id) db.order_status_history)) [
          | inl e ↦ rw e tt
          | inr e ↦ rw e h
        ])
  ]

  created :
      (x : String) (o : Order) (os : List Order) (a : Statuses)
      → statuses_in os ≡ a
      → (y : String)
      → status_in (if same y x then some o else find (λ r. same y r.external_order_id) os)
        ≡ (if same y x then some o.status else a y)
  created x o os a h y = elim (Bool-cases (same y x)) [
    | inl e ↦ rw e refl
    | inr e ↦ rw e (ap (λ (f : Statuses). f y) h)
  ]

  still_open :
      (x : String) (o : Order) (os : List Order)
      → find (λ r. same x r.external_order_id) os ≡ some o
      → any (λ r. same x r.external_order_id && is_terminal r.status) os ≡ false
      → is_terminal o.status ≡ false
  still_open x o os f e = elim (Bool-cases (is_terminal o.status)) [
    | inr h ↦ h
    | inl closed ↦
        let found : any (λ r. same x r.external_order_id && is_terminal r.status) os ≡ true =
          any_found (λ r. same x r.external_order_id)
            (λ r. same x r.external_order_id && is_terminal r.status) os o f
            (rw (find_sound (λ r. same x r.external_order_id) os o f) closed) in
        cc
  ]

  -- A new order has an external id that no order had.
  pub order-performs :
      (a : Statuses) (n : String → Bool) (x : Option String) (c d : ℕ) (t : Option ℕ)
      (u : Option String) (date now id : ℕ) (db : Database)
      → Shows a n db
      → Does (λ _. Performed (creation (ok x)) a n) (insert_order_row x c d t u date now id db)
  unfolding insert_order_row
  order-performs a n none c d t u date now id db h = tt
  order-performs a n (some x) c d none u date now id db h = tt
  order-performs a n (some x) c d (some t) none date now id db h = tt
  order-performs a n (some x) c d (some t) (some u) date now id db (h, k) =
      elim (Bool-cases (is_client c db)) [
        | inr e ↦ rw e tt
        | inl client ↦ rw client (elim (Bool-cases (is_address d db)) [
          | inr e ↦ rw e tt
          | inl address ↦ rw address (elim (Bool-cases (is_order id db)) [
            | inl e ↦ rw e tt
            | inr fresh ↦
                rw fresh (elim (Bool-cases (any (λ o. same x o.external_order_id) db.orders)) [
                  | inl e ↦ rw e tt
                  | inr e ↦ rw e (
                    (
                      ap (λ (f : Statuses). f x) (sym h) ∙ ap status_in (find-none _ db.orders e),
                      fun_ext (created x _ db.orders a h),
                    ),
                    k,
                  )
                ])
          ])
        ])
      ]

  found-performs :
      (a : Statuses) (n : String → Bool) (x : String) (t : Option String) (o : Order) (now id : ℕ)
      (db : Database)
      → find (λ r. same x r.external_order_id) db.orders ≡ some o
      → Shows a n db
      → Does
          (λ _. Performed (changing (ok (some x)) (ok t)) a n)
          (update_found (some x) t o now id db)
  found-performs a n x none o now id db f h = tt
  found-performs a n x (some t) o now id db f (h, k) = elim (Bool-cases (order_status_check t)) [
    | inr e ↦ rw e tt
    | inl checked ↦
        rw checked
          (elim (Bool-cases
            (any (λ r. same x r.external_order_id && is_terminal r.status) db.orders)) [
              | inl e ↦ rw e tt
              | inr e ↦ rw e (
                inr (
                  o.status,
                  ap (λ (f : Statuses). f x) (sym h) ∙ ap status_in f,
                  still_open x o db.orders f e,
                  checked,
                  statuses-update x t now db.orders o f ∙ ap (set_status_of x t) h,
                ),
                k,
              )
            ])
  ]

  pub status-performs :
      (a : Statuses) (n : String → Bool) (x t : Option String) (now id : ℕ) (db : Database)
      → Shows a n db
      → Does (λ _. Performed (changing (ok x) (ok t)) a n) (update_orders x t now id db)
  unfolding update_orders
  status-performs a n none t now id db h = rw (find_never db.orders, update_orders) h
  status-performs a n (some x) none now id db h =
      elim (Option-cases (find (λ r. same x r.external_order_id) db.orders)) [
        | inl e ↦ rw (e, update_orders) h
        | inr (o, e) ↦ rw (e, update_orders) tt
      ]
  status-performs a n (some x) (some t) now id db (h, k) =
      elim (Option-cases (find (λ r. same x r.external_order_id) db.orders)) [
        | inl e ↦
            rw (e, update_orders) (inl (ap (λ (f : Statuses). f x) (sym h) ∙ ap status_in e, h), k)
        | inr (o, e) ↦ rw (e, update_orders) (found-performs a n x (some t) o now id db e (h, k))
      ]
