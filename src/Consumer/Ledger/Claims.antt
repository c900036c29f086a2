-- ===== src/Consumer/Ledger/Claims.antt =====
-- The keys of the event ledger, and the claims in it, over the loop.
use observability_lab.Prelude.{
  ℕ, String, Option, some, Bool, true, false, List, [], ◌∷◌, ◌≡◌, refl, ◌∙◌, any, update_where,
  arith,
}
use observability_lab.Server.{Server, same}
use observability_lab.Tables.{ProcessedWebhookEvent}
use observability_lab.Sql.Events.{matches, is_claimed, insert_event, update_processed}
use observability_lab.Sql.Keys.{any-update_where}
use observability_lab.Consumer.Handle.{Packages, Message, State}
use observability_lab.Consumer.Loop.{main_loop}
use observability_lab.Consumer.Invariant.Walk.{IsInvariant, Respects}
use observability_lab.Consumer.Invariant.Body.{body-Maintains}
use observability_lab.Consumer.Invariant.Lift.{IsKept, main_loop-keeps}
use observability_lab.Consumer.Ledger.{Ledger, OnLedger, OnLedger-IsRespected, log}

module _ ⦃s : Server⦄ where
  -- A claim persists.
  abbrev ClaimedIn : String → Ledger → Type 0
  ClaimedIn i l = any (λ r. same i r.event_id) l ≡ true

  claim-events :
      (i : String) (e t : Option String) → Respects (OnLedger (ClaimedIn i)) (insert_event e t)
  unfolding insert_event
  claim-events i e t now id db h = ground arith

  claim-processed :
      (i : String) (e : Option String) → Respects (OnLedger (ClaimedIn i)) (update_processed e)
  unfolding update_processed
  claim-processed i e now id db h =
      any-update_where (λ r. same i r.event_id) (λ r. matches e r.event_id)
        (λ r. record r { processed_at = some now }) db.processed_webhook_events (λ r. refl)
      ∙ h

  pub claim-IsInvariant : (i : String) → IsInvariant (λ db. is_claimed i db ≡ true)
  claim-IsInvariant i = record {
    business = OnLedger-IsRespected (ClaimedIn i);
    events = claim-events i;
    processed = claim-processed i;
  }

  pub claim-IsKept : (i : String) → IsKept (λ db. is_claimed i db ≡ true)
  claim-IsKept i = record {
    body = λ e j _. body-Maintains (λ db. is_claimed i db ≡ true) (claim-IsInvariant i) e j;
    log = log (ClaimedIn i);
  }

  -- No two rows have one key.
  abbrev pub IsDistinct : Ledger → Type 0
  IsDistinct [] = Unit
  IsDistinct (r ∷ rs) = (any (λ q. same r.event_id q.event_id) rs ≡ false) × IsDistinct rs

  update-IsDistinct :
      (p : ProcessedWebhookEvent → Bool) (now : ℕ) (l : Ledger)
      → IsDistinct l
      → IsDistinct (update_where p (λ r. record r { processed_at = some now }) l)
  update-IsDistinct p now [] h = tt
  update-IsDistinct p now (r ∷ rs) h = ground (
    arith,
    update-IsDistinct p now rs h.1,
    any-update_where (λ q. same r.event_id q.event_id) p (λ q. record q { processed_at = some now })
        rs (λ q. refl),
  )

  IsDistinct-events : (e t : Option String) → Respects (OnLedger IsDistinct) (insert_event e t)
  unfolding insert_event
  IsDistinct-events e t now id db h = ground arith

  IsDistinct-processed : (e : Option String) → Respects (OnLedger IsDistinct) (update_processed e)
  unfolding update_processed
  IsDistinct-processed e now id db h =
      update-IsDistinct (λ r. matches e r.event_id) now db.processed_webhook_events h

  IsDistinct-IsInvariant : IsInvariant (OnLedger IsDistinct)
  IsDistinct-IsInvariant = record {
    business = OnLedger-IsRespected IsDistinct;
    events = IsDistinct-events;
    processed = IsDistinct-processed;
  }

  IsDistinct-IsKept : IsKept (OnLedger IsDistinct)
  IsDistinct-IsKept = record {
    body = λ e j _. body-Maintains (OnLedger IsDistinct) IsDistinct-IsInvariant e j;
    log = log IsDistinct;
  }

  -- Whatever messages the loop gets, and whatever the server, the packages and the broker do: if no
  -- two rows of the event ledger have one key before, no two have one afterwards.
  pub ledger-IsDistinct :
      (p : Packages) (polls : List (List (ℕ × List Message))) (k : State)
      → IsDistinct k.conn.db.processed_webhook_events
      → IsDistinct (main_loop p polls k).1.conn.db.processed_webhook_events
  ledger-IsDistinct p = main_loop-keeps p (OnLedger IsDistinct) IsDistinct-IsKept
