-- ===== src/Consumer/Progress.antt =====
-- The loop of the consumer does not stop at an error of the database.
use observability_lab.Prelude.{
  ℕ, String, ◌==◌, ◌≡◌, arith, refl, ◌∙◌, ap, ◌+◌, Option, none, some, true, Bool-cases, inl, inr,
  List, [], ◌∷◌, All,
}
use observability_lab.Server.{Server}
use observability_lab.Broker.{Ack, acked, ack_lost, unsent}
use observability_lab.Result.{
  Error, duplicate_event, operational_error, integrity_error, sqlalchemy_error, other_exception,
  Result, ok, err,
}
use observability_lab.Payload.{Field, absent, null, given, subscript, Event}
use observability_lab.Consumer.Process.{Outbox, Reply}
use observability_lab.Consumer.Handle.{
  Packages, Message, State, Outcome, publish, publish_failed, emit, malformed, conclude, attempts,
  handle_event, handle_identified, handle_loaded, handle_message,
}
use observability_lab.Consumer.Loop.{
  last_offset, and_then, handle_all, commit_offset, handle_partition, handle_batches, main_loop,
}

-- The key is there, with a value or with null.
abbrev pub HasType : Event → Type 0
HasType e = (t : Option String) × (subscript e.event_type ≡ ok t)

and_then-ok : (o : Outcome) (f : State → Outcome) → o.0 ≡ ok tt → and_then o f ≡ f o.1
and_then-ok (ok u, k) f h = refl
and_then-ok (err e, k) f h = ground (arith, h)

module _ ⦃s : Server⦄ (p : Packages) where
  -- If the message holds an event, the event has a type.
  abbrev pub IsTyped : Message → Type 0
  IsTyped msg = (e : Event) → p.loads msg.value ≡ some e → HasType e

  -- It returned, and committed nothing.
  abbrev Returned : State → Outcome → Type 0
  Returned k o = (o.0 ≡ ok tt) × (o.1.committed ≡ k.committed) × (o.1.commits ≡ k.commits)

  malformed-Returned : (msg : Message) (e : Error) (k : State) → Returned k (malformed p msg e k)
  unfolding malformed
  malformed-Returned msg e k = (refl, refl, refl)

  publish-Returned :
      (a : Ack) (event_id : Option String) (o : Outbox) (k : State)
      → Returned k (publish p a event_id o k)
  unfolding publish_failed
  publish-Returned acked event_id o k = (refl, refl, refl)
  publish-Returned ack_lost event_id o k = (refl, refl, refl)
  publish-Returned unsent event_id o k = (refl, refl, refl)

  emit-Returned :
      (event_id : Option String) (r : Reply) (k : State) → Returned k (emit p event_id r (ok tt, k))
  emit-Returned event_id none k = (refl, refl, refl)
  emit-Returned event_id (some o) k = elim (Bool-cases (o.event_type == "ORDER_APPROVED")) [
    | inl e ↦ rw e (publish-Returned (p.send k.sends) event_id o k)
    | inr e ↦ rw e (refl, refl, refl)
  ]

  conclude-Returned :
      (e : Event) (event_id : Option String) (r : Result Reply) (k : State)
      → HasType e
      → Returned k (conclude p e event_id r k)
  unfolding conclude
  conclude-Returned e event_id (ok r) k (t, h) = rw h (emit-Returned event_id r _)
  conclude-Returned e event_id (err duplicate_event) k (t, h) = rw h (refl, refl, refl)
  conclude-Returned e event_id (err operational_error) k (t, h) = rw h (refl, refl, refl)
  conclude-Returned e event_id (err integrity_error) k (t, h) = rw h (refl, refl, refl)
  conclude-Returned e event_id (err sqlalchemy_error) k (t, h) = rw h (refl, refl, refl)
  conclude-Returned e event_id (err other_exception) k (t, h) = (refl, refl, refl)

  event-Returned :
      (e : Event) (event_id : Option String) (k : State)
      → HasType e
      → Returned k (handle_event p e event_id k)
  unfolding handle_event
  event-Returned e event_id k h =
      let o = attempts p e event_id k.conn in
      conclude-Returned e event_id o.0 (record k { conn = o.1 }) h

  identified-Returned :
      (msg : Message) (e : Event) (i : Field String) (k : State)
      → HasType e
      → Returned k (handle_identified p msg e (subscript i) k)
  identified-Returned msg e absent k h = malformed-Returned msg other_exception k
  identified-Returned msg e null k h = event-Returned e none k h
  identified-Returned msg e (given i) k h = event-Returned e (some i) k h

  loaded-Returned :
      (msg : Message) (o : Option Event) (k : State)
      → ((e : Event) → o ≡ some e → HasType e)
      → Returned k (handle_loaded p msg o k)
  unfolding handle_loaded
  loaded-Returned msg none k h = malformed-Returned msg other_exception k
  loaded-Returned msg (some e) k h = identified-Returned msg e e.event_id k (h e refl)

  handle-Returned : (msg : Message) (k : State) → IsTyped msg → Returned k (handle_message p msg k)
  unfolding handle_message
  handle-Returned msg k h = loaded-Returned msg (p.loads msg.value) k h

  all-Returned : (ms : List Message) (k : State) → All IsTyped ms → Returned k (handle_all p ms k)
  unfolding handle_all
  all-Returned [] k h = (refl, refl, refl)
  all-Returned (m ∷ ms) k (h, hs) =
      let r = handle-Returned m k h in
      let q = all-Returned ms (handle_message p m k).1 hs in
      rw (and_then-ok (handle_message p m k) (handle_all p ms) r.0) (q.0, q.1 ∙ r.1, q.2 ∙ r.2)

  -- What `getmany` returns for a partition: messages that can be handled, and one at least.
  abbrev pub IsBatch : ℕ × List Message → Type 0
  IsBatch (tp, []) = ⊥
  IsBatch (tp, m ∷ ms) = IsTyped m × All IsTyped ms

  -- The offsets after the last message of each partition, in the order of the batches, before others.
  abbrev pub offsets_after : List (ℕ × List Message) → List (ℕ × ℕ) → List (ℕ × ℕ)
  offsets_after [] cs = cs
  offsets_after ((tp, []) ∷ bs) cs = offsets_after bs cs
  offsets_after ((tp, m ∷ ms) ∷ bs) cs = offsets_after bs ((tp, last_offset m ms + 1) ∷ cs)

  abbrev pub all_offsets_after : List (List (ℕ × List Message)) → List (ℕ × ℕ) → List (ℕ × ℕ)
  all_offsets_after [] cs = cs
  all_offsets_after (bs ∷ rest) cs = all_offsets_after rest (offsets_after bs cs)

  module _ (commits : (n : ℕ) → p.commit n ≡ true) where
    -- It returned, with these offsets committed.
    abbrev Committed : List (ℕ × ℕ) → Outcome → Type 0
    Committed cs o = (o.0 ≡ ok tt) × (o.1.committed ≡ cs)

    partition-Committed :
        (tp : ℕ) (m : Message) (ms : List Message) (k : State)
        → IsBatch (tp, m ∷ ms)
        → Committed ((tp, last_offset m ms + 1) ∷ k.committed) (handle_partition p tp (m ∷ ms) k)
    unfolding handle_partition commit_offset
    partition-Committed tp m ms k h =
        let r = all-Returned (m ∷ ms) k h in
        rw (and_then-ok (handle_all p (m ∷ ms) k) (commit_offset p tp (last_offset m ms + 1)) r.0) (
          rw (commits (handle_all p (m ∷ ms) k).1.commits)
            (refl, ap (λ cs. (tp, last_offset m ms + 1) ∷ cs) r.1))

    batches-Committed :
        (bs : List (ℕ × List Message)) (cs : List (ℕ × ℕ)) (k : State)
        → All IsBatch bs
        → k.committed ≡ cs
        → Committed (offsets_after bs cs) (handle_batches p bs k)
    unfolding handle_batches
    batches-Committed [] cs k h e = (refl, e)
    batches-Committed ((tp, []) ∷ bs) cs k h e = absurd h.0
    batches-Committed ((tp, m ∷ ms) ∷ bs) cs k h e =
        let r = partition-Committed tp m ms k h.0 in
        rw (and_then-ok (handle_partition p tp (m ∷ ms) k) (handle_batches p bs) r.0) (
          batches-Committed bs ((tp, last_offset m ms + 1) ∷ cs)
            (handle_partition p tp (m ∷ ms) k).1 h.1
            (r.1 ∙ ap (λ l. (tp, last_offset m ms + 1) ∷ l) e))

    loop-Committed :
        (polls : List (List (ℕ × List Message))) (cs : List (ℕ × ℕ)) (k : State)
        → All (λ bs. All IsBatch bs) polls
        → k.committed ≡ cs
        → Committed (all_offsets_after polls cs) (main_loop p polls k)
    unfolding main_loop
    loop-Committed [] cs k h e = (refl, e)
    loop-Committed (bs ∷ rest) cs k h e =
        let r = batches-Committed bs cs k h.0 e in
        rw (and_then-ok (handle_batches p bs k) (main_loop p rest) r.0)
          (loop-Committed rest (offsets_after bs cs) (handle_batches p bs k).1 h.1 r.1)

  -- However the database fares in each statement, its retries used up or not, and whatever becomes of
  -- the publications: if every commit of an offset succeeds, every event that a message holds has an
  -- event_type, and no polled partition is empty, then the loop ends without an exception and has
  -- committed, for each polled partition in turn, the offset after its last message.
  pub main_loop-Advances :
      (polls : List (List (ℕ × List Message))) (k : State)
      → ((n : ℕ) → p.commit n ≡ true)
      → All (λ bs. All IsBatch bs) polls
      → ((main_loop p polls k).0 ≡ ok tt)
        × ((main_loop p polls k).1.committed ≡ all_offsets_after polls k.committed)
  main_loop-Advances polls k commits h = loop-Committed commits polls k.committed k h refl
