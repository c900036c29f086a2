-- ===== src/Consumer/Invariant/Lift.antt =====
-- From the transaction of a message to the loop: the attempts, the log, the publication.
use observability_lab.Prelude.{
  Bool-cases, inl, inr, ℕ, zero, suc, String, if◌then◌else◌, ◌==◌, Option, none, some, Bool, true,
  false, List, [], ◌∷◌, ◌≡◌, refl,
}
use observability_lab.Server.{Server}
use observability_lab.Result.{
  Error, duplicate_event, operational_error, integrity_error, sqlalchemy_error, other_exception,
  Result, ok, err,
}
use observability_lab.Payload.{subscript, Event}
use observability_lab.Session.{Conn, Tx, execute}
use observability_lab.Session.Rules.{Pred, Keeps, Keeps-begin, Maintains, Maintains-execute}
use observability_lab.Sql.Events.{insert_log}
use observability_lab.DbOps.PipelineLog.{clip, log_pipeline_event}
use observability_lab.Consumer.Process.{Outbox, Reply, run_in_txn, txn_body}
use observability_lab.Broker.{Ack, acked, ack_lost, unsent}
use observability_lab.Consumer.Handle.{
  Packages, Message, State, Outcome, again, is_operational, count, log_error, malformed,
  publish_failed, append, publish, emit, conclude, attempts, handle_event, handle_identified,
  handle_loaded, handle_message,
}
use observability_lab.Consumer.Loop.{
  and_then, handle_all, commit_offset, handle_partition, handle_batches, main_loop,
}
use observability_lab.Consumer.Invariant.Walk.{Respects}

-- A predicate that log rows leave alone.
abbrev pub IsUnlogged : Pred → Type 0
IsUnlogged P = (v l m : String) (e : Option String) → Respects P (insert_log v l m e)

-- What the lift asks of a predicate: a committed transaction keeps it, and so does a log row.
pub record IsKept ⦃s : Server⦄ (P : Pred) : Type 0 where
  pub body :
      (e : Event) (i : Option String) → subscript e.event_id ≡ ok i → Maintains P (txn_body e i)
  pub log : IsUnlogged P

abbrev pub Holds : Pred → State → Type 0
Holds P k = P k.conn.db

module _ ⦃s : Server⦄ (p : Packages) (P : Pred) where
  again-keeps :
      (rest : Tx Reply) (o : Result Reply × Conn)
      → P o.1.db
      → ((c : Conn) → P c.db → P (rest c).1.db)
      → P (again is_operational rest o).1.db
  again-keeps rest (ok a, c) h k = h
  again-keeps rest (err duplicate_event, c) h k = h
  again-keeps rest (err operational_error, c) h k = k c h
  again-keeps rest (err integrity_error, c) h k = h
  again-keeps rest (err sqlalchemy_error, c) h k = h
  again-keeps rest (err other_exception, c) h k = h

  -- any number of attempts
  retry-keeps :
      (n : ℕ) (m : Tx Reply)
      → Keeps P m
      → (c : Conn) → P c.db
      → P (p.retry is_operational (suc n) m c).1.db
  retry-keeps zero m km c h = rw (p.retry_once is_operational m c) (km.at c h)
  retry-keeps (suc n) m km c h =
      rw (p.retry_again is_operational n m c)
        (again-keeps (p.retry is_operational (suc n) m) (m c) (km.at c h) (retry-keeps n m km))

  pub attempts-keeps :
      (e : Event) (i : Option String)
      → Maintains P (txn_body e i)
      → (c : Conn) → P c.db
      → P (attempts p e i c).1.db
  unfolding attempts run_in_txn
  attempts-keeps e i body = retry-keeps 2 (run_in_txn e i) (Keeps-begin P (txn_body e i) body)

module _ ⦃s : Server⦄ (p : Packages) (P : Pred) (log : IsUnlogged P) where
  log_pipeline_event-keeps :
      (v l m : String) (e : Option String) (c : Conn) → P c.db → P (log_pipeline_event v l m e c).db
  unfolding log_pipeline_event
  log_pipeline_event-keeps v l m e =
      (Keeps-begin P (execute (insert_log v l (clip 500 m) e))
        (Maintains-execute (insert_log v l (clip 500 m) e) (log v l (clip 500 m) e))).at

  log_error-keeps :
      (m : String) (e : Option String) (k : State) → Holds P k → Holds P (log_error p m e k)
  log_error-keeps m e k h = log_pipeline_event-keeps "ingestion-consumer" "ERROR" m e k.conn h

  count-keeps :
      (t : Result (Option String)) (o : String) (k : State) → Holds P k → Holds P (count t o k).1
  count-keeps (ok t) o k h = h
  count-keeps (err e) o k h = h

  pub malformed-keeps :
      (m : Message) (e : Error) (k : State) → Holds P k → Holds P (malformed p m e k).1
  unfolding malformed
  malformed-keeps m e k h = log_error-keeps _ none k h

  publish_failed-keeps :
      (i : Option String) (o : Outbox) (k : State) → Holds P k → Holds P (publish_failed p i o k).1
  unfolding publish_failed
  publish_failed-keeps i o k h = log_error-keeps _ i k h

  publish-keeps :
      (a : Ack) (i : Option String) (o : Outbox) (k : State)
      → Holds P k
      → Holds P (publish p a i o k).1
  publish-keeps acked i o k h = h
  publish-keeps ack_lost i o k h = publish_failed-keeps i o (append p o k) h
  publish-keeps unsent i o k h = publish_failed-keeps i o (record k { sends = suc k.sends }) h

  emit-keeps :
      (i : Option String) (r : Reply) (o : Outcome) → Holds P o.1 → Holds P (emit p i r o).1
  emit-keeps i r (err e, k) h = h
  emit-keeps i none (ok _, k) h = h
  emit-keeps i (some o) (ok _, k) h = go (o.event_type == "ORDER_APPROVED")
    where
      go : (b : Bool) → Holds P (if b then publish p (p.send k.sends) i o k else (ok tt, k)).1
      go true = publish-keeps (p.send k.sends) i o k h
      go false = h

  pub conclude-keeps :
      (e : Event) (i : Option String) (r : Result Reply) (k : State)
      → Holds P k
      → Holds P (conclude p e i r k).1
  unfolding conclude
  conclude-keeps e i (ok r) k h =
      emit-keeps i r (count (subscript e.event_type) "success" k)
        (count-keeps (subscript e.event_type) "success" k h)
  conclude-keeps e i (err duplicate_event) k h =
      count-keeps (subscript e.event_type) "duplicate" k h
  conclude-keeps e i (err operational_error) k h =
      count-keeps (subscript e.event_type) "db_unavailable" _ (log_error-keeps _ i k h)
  conclude-keeps e i (err integrity_error) k h =
      count-keeps (subscript e.event_type) "db_error" _ (log_error-keeps _ i k h)
  conclude-keeps e i (err sqlalchemy_error) k h =
      count-keeps (subscript e.event_type) "db_error" _ (log_error-keeps _ i k h)
  conclude-keeps e i (err other_exception) k h = log_error-keeps _ i k h

  pub handle_event-keeps :
      (e : Event) (i : Option String)
      → Maintains P (txn_body e i)
      → (k : State) → Holds P k
      → Holds P (handle_event p e i k).1
  unfolding handle_event
  handle_event-keeps e i body k h =
      let (r, c) = attempts p e i k.conn in
      conclude-keeps e i r (record k { conn = c }) (attempts-keeps p P e i body k.conn h)

module _ ⦃s : Server⦄ (p : Packages) (P : Pred) (kept : IsKept P) where
  loaded-keeps :
      (m : Message) (l : Option Event) (k : State) → Holds P k → Holds P (handle_loaded p m l k).1
  unfolding handle_loaded
  loaded-keeps m none k h = malformed-keeps p P kept.log m other_exception k h
  loaded-keeps m (some e) k h = go (subscript e.event_id) refl
    where
      go :
          (r : Result (Option String))
          → subscript e.event_id ≡ r
          → Holds P (handle_identified p m e r k).1
      go (err x) named = malformed-keeps p P kept.log m x k h
      go (ok i) named = handle_event-keeps p P kept.log e i (kept.body e i named) k h

  pub handle_message-keeps :
      (m : Message) (k : State) → Holds P k → Holds P (handle_message p m k).1
  unfolding handle_message
  handle_message-keeps m k h = loaded-keeps m (p.loads m.value) k h

  and_then-keeps :
      (o : Outcome) (f : State → Outcome)
      → Holds P o.1
      → ((k : State) → Holds P k → Holds P (f k).1)
      → Holds P (and_then o f).1
  and_then-keeps (ok _, k) f h g = g k h
  and_then-keeps (err e, k) f h g = h

  handle_all-keeps : (ms : List Message) (k : State) → Holds P k → Holds P (handle_all p ms k).1
  unfolding handle_all
  handle_all-keeps [] k h = h
  handle_all-keeps (m ∷ ms) k h =
      and_then-keeps (handle_message p m k) (handle_all p ms) (handle_message-keeps m k h)
        (handle_all-keeps ms)

  commit_offset-keeps : (tp n : ℕ) (k : State) → Holds P k → Holds P (commit_offset p tp n k).1
  unfolding commit_offset
  commit_offset-keeps tp n k h = elim (Bool-cases (p.commit k.commits)) [
    | inl e ↦ rw e h
    | inr e ↦ rw e h
  ]

  handle_partition-keeps :
      (tp : ℕ) (ms : List Message) (k : State) → Holds P k → Holds P (handle_partition p tp ms k).1
  unfolding handle_partition
  handle_partition-keeps tp [] k h = h
  handle_partition-keeps tp (m ∷ ms) k h =
      and_then-keeps (handle_all p (m ∷ ms) k) _ (handle_all-keeps (m ∷ ms) k h)
        (commit_offset-keeps tp _)

  handle_batches-keeps :
      (bs : List (ℕ × List Message)) (k : State) → Holds P k → Holds P (handle_batches p bs k).1
  unfolding handle_batches
  handle_batches-keeps [] k h = h
  handle_batches-keeps ((tp, ms) ∷ rest) k h =
      and_then-keeps (handle_partition p tp ms k) (handle_batches p rest)
        (handle_partition-keeps tp ms k h) (handle_batches-keeps rest)

  pub main_loop-keeps :
      (polls : List (List (ℕ × List Message))) (k : State)
      → Holds P k
      → Holds P (main_loop p polls k).1
  unfolding main_loop
  main_loop-keeps [] k h = h
  main_loop-keeps (bs ∷ rest) k h =
      and_then-keeps (handle_batches p bs k) (main_loop p rest) (handle_batches-keeps bs k h)
        (main_loop-keeps rest)
