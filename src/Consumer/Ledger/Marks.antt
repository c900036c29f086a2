-- ===== src/Consumer/Ledger/Marks.antt =====
-- The `processed_at` of the rows of the event ledger, over the loop.
use observability_lab.Prelude.{
  ℕ, String, Option, Bool-cases, inl, inr, none, some, false, List, [], ◌∷◌, ◌≡◌, refl, All,
  update_where,
}
use observability_lab.Server.{Server}
use observability_lab.Tables.{Database}
use observability_lab.Session.Rules.{Does}
use observability_lab.Sql.Events.{matches, is_claimed, insert_event, update_processed}
use observability_lab.Sql.Keys.{same_refl}
use observability_lab.Consumer.Handle.{Packages, Message, State}
use observability_lab.Consumer.Loop.{main_loop}
use observability_lab.Consumer.Invariant.Walk.{dispatch-Maintains}
use observability_lab.Consumer.Invariant.Lift.{IsKept, main_loop-keeps}
use observability_lab.Consumer.Invariant.Txn.{body-Ensures}
use observability_lab.Consumer.Ledger.{Ledger, OnLedger, OnLedger-IsRespected, log}

module _ ⦃s : Server⦄ where
  -- Every row has its `processed_at`; in the middle of a transaction, every row of another event.
  abbrev pub IsMarked : Ledger → Type 0
  IsMarked = All (λ r. (t : ℕ) × (r.processed_at ≡ some t))

  abbrev IsMarkedBut : Option String → Ledger → Type 0
  IsMarkedBut i = All (λ r. (matches i r.event_id ≡ false) → (t : ℕ) × (r.processed_at ≡ some t))

  IsMarked-but : (i : Option String) (l : Ledger) → IsMarked l → IsMarkedBut i l
  IsMarked-but i [] h = tt
  IsMarked-but i (r ∷ rs) h = (λ _. h.0, IsMarked-but i rs h.1)

  IsMarked-claim :
      (i t : Option String) (now id : ℕ) (db : Database)
      → OnLedger IsMarked db
      → Does (λ _. OnLedger (IsMarkedBut i)) (insert_event i t now id db)
  unfolding insert_event
  IsMarked-claim none t now id db h = tt
  IsMarked-claim (some e) none now id db h = tt
  IsMarked-claim (some e) (some t) now id db h = elim (Bool-cases (is_claimed e db)) [
    | inl old ↦ rw old tt
    | inr new ↦
        rw new
          (λ other. cc (same_refl e, other), IsMarked-but (some e) db.processed_webhook_events h)
  ]

  update-IsMarked :
      (i : Option String) (now : ℕ) (l : Ledger)
      → IsMarkedBut i l
      → IsMarked
          (update_where (λ r. matches i r.event_id) (λ r. record r { processed_at = some now }) l)
  update-IsMarked i now [] h = tt
  update-IsMarked i now (r ∷ rs) h = elim (Bool-cases (matches i r.event_id)) [
    | inl it ↦ rw it ((now, refl), update-IsMarked i now rs h.1)
    | inr other ↦ rw other (h.0 other, update-IsMarked i now rs h.1)
  ]

  IsMarked-mark :
      (i : Option String) (now id : ℕ) (db : Database)
      → OnLedger (IsMarkedBut i) db
      → Does (λ _. OnLedger IsMarked) (update_processed i now id db)
  unfolding update_processed
  IsMarked-mark i now id db h = update-IsMarked i now db.processed_webhook_events h

  IsMarked-IsKept : IsKept (OnLedger IsMarked)
  IsMarked-IsKept = record {
    body = λ e i named.
        body-Ensures (OnLedger IsMarked) (OnLedger (IsMarkedBut i)) (OnLedger IsMarked) e i named
          (IsMarked-claim i) (dispatch-Maintains _ (OnLedger-IsRespected (IsMarkedBut i)) i)
          (IsMarked-mark i);
    log = log IsMarked;
  }

  -- Whatever messages the loop gets, and whatever the server, the packages and the broker do: if
  -- every row of the event ledger has its `processed_at` before, every row has it afterwards. No
  -- transaction commits a claim that it has not marked.
  pub ledger-IsMarked :
      (p : Packages) (polls : List (List (ℕ × List Message))) (k : State)
      → IsMarked k.conn.db.processed_webhook_events
      → IsMarked (main_loop p polls k).1.conn.db.processed_webhook_events
  ledger-IsMarked p = main_loop-keeps p (OnLedger IsMarked) IsMarked-IsKept
