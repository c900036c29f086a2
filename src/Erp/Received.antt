-- ===== src/Erp/Received.antt =====
-- The worker and the ERP together.
use observability_lab.Prelude.{
  ℕ, zero, suc, arith, ◌≡◌, Option, none, some, Bool, true, false, Bool-cases, inl, inr, ◌⊎◌, List,
  [], ◌∷◌, length, All, Any, All-map,
}
use observability_lab.Broker.{Ack, acked, ack_lost, unsent}
use observability_lab.Worker.Deliver.{
  Answer, unreachable, garbled, answered, Exception, transient_delivery_error, http_status_error,
  other_exception, returned, raised, Message, Outcome, World, again, is_transient, attempt, deliver,
}
use observability_lab.Worker.Deliver
use observability_lab.Worker.Loop.{
  commit, sent, conclude, handle_loaded, handle_message, main_loop, next,
}
use observability_lab.Worker.Settled.{
  IsAccepted, IsDeadLetter, IsSettled, IsDone, committed-IsSettled,
}
use observability_lab.Erp.Serve.{
  Link, through, reply_lost, lost, answer_of, receive_order, arrive, after_requests,
}

module _ {Json : Type 0} (w : World Json) (link : ℕ → Link) (draw : ℕ → Bool)
    (posts : (n : ℕ) (payload : Json) → w.post n payload ≡ answer_of (link n) (draw n)) where
  -- Every answer is what the link and the ERP made of its request.
  abbrev IsConsistent : List (Json × Answer) → Type 0
  IsConsistent [] = Unit
  IsConsistent ((payload, a) ∷ rs) =
      (a ≡ answer_of (link (length rs)) (draw (length rs))) × IsConsistent rs

  abbrev Consistent : Outcome Json → Type 0
  Consistent o = IsConsistent o.1.requests

  again-Consistent :
      (test : Exception → Bool) (rest : Deliver.State Json → Outcome Json) (o : Outcome Json)
      → ((k : Deliver.State Json) → IsConsistent k.requests → Consistent (rest k))
      → Consistent o
      → Consistent (again Json test rest o)
  again-Consistent test rest (returned, k) r c = c
  again-Consistent test rest (raised e, k) r c = elim (Bool-cases (test e)) [
    | inl t ↦ rw t (r k c)
    | inr f ↦ rw f c
  ]

  retry-Consistent :
      (n : ℕ) (payload : Json) (k : Deliver.State Json)
      → IsConsistent k.requests
      → Consistent (w.retry is_transient (suc n) (attempt w payload) k)
  retry-Consistent zero payload k c =
      rw (w.retry_once is_transient (attempt w payload) k) (posts (length k.requests) payload, c)
  retry-Consistent (suc n) payload k c = rw (w.retry_again is_transient n (attempt w payload) k) (
      again-Consistent is_transient (w.retry is_transient (suc n) (attempt w payload))
        (attempt w payload k) (retry-Consistent n payload) (posts (length k.requests) payload, c))

  commit-Consistent : (k : Deliver.State Json) → IsConsistent k.requests → Consistent (commit w k)
  commit-Consistent k c = elim (Bool-cases (w.commit k.commits)) [ inl t ↦ rw t c | inr f ↦ rw f c ]

  sent-Consistent :
      (a : Ack) (m : Message) (k : Deliver.State Json)
      → IsConsistent k.requests
      → Consistent (sent w a m k)
  sent-Consistent acked m k c = commit-Consistent _ c
  sent-Consistent ack_lost m k c = c
  sent-Consistent unsent m k c = c

  conclude-Consistent :
      (m : Message) (o : Outcome Json) → Consistent o → Consistent (conclude w m o)
  conclude-Consistent m (returned, k) c = commit-Consistent _ c
  conclude-Consistent m (raised transient_delivery_error, k) c =
      sent-Consistent (w.send k.sends) m _ c
  conclude-Consistent m (raised http_status_error, k) c = sent-Consistent (w.send k.sends) m _ c
  conclude-Consistent m (raised other_exception, k) c = c

  loaded-Consistent :
      (m : Message) (o : Option Json) (k : Deliver.State Json)
      → IsConsistent k.requests
      → Consistent (handle_loaded w m o k)
  unfolding deliver
  loaded-Consistent m none k c = c
  loaded-Consistent m (some payload) k c =
      conclude-Consistent m (w.retry is_transient 5 (attempt w payload) k)
        (retry-Consistent 4 payload k c)

  next-Consistent :
      (rest : Deliver.State Json → Outcome Json) (o : Outcome Json)
      → ((k : Deliver.State Json) → IsConsistent k.requests → Consistent (rest k))
      → Consistent o
      → Consistent (next w rest o)
  next-Consistent rest (returned, k) r c = r k c
  next-Consistent rest (raised e, k) r c = c

  loop-Consistent :
      (ms : List Message) (k : Deliver.State Json)
      → IsConsistent k.requests
      → Consistent (main_loop w ms k)
  unfolding main_loop handle_message
  loop-Consistent [] k c = c
  loop-Consistent (m ∷ ms) k c =
      next-Consistent (main_loop w ms) (handle_message w m k) (loop-Consistent ms)
        (loaded-Consistent m (w.loads m.value) _ c)

  -- The ERP has the payload.
  abbrev Has : Json → List (Json × Answer) → Type 0
  Has payload rs = Any (λ j. j ≡ payload) (after_requests link draw rs).received

  arrive-Has :
      (l : Link) (b : Bool) (j payload : Json) (rs : List (Json × Answer))
      → Has payload rs
      → Any (λ i. i ≡ payload) (arrive l b j (after_requests link draw rs)).received
  unfolding receive_order
  arrive-Has through true j payload rs h = h
  arrive-Has through false j payload rs h = inr h
  arrive-Has reply_lost true j payload rs h = h
  arrive-Has reply_lost false j payload rs h = inr h
  arrive-Has lost b j payload rs h = h

  accepted-Has :
      (l : Link) (b : Bool) (a : Answer) (j payload : Json) (rs : List (Json × Answer))
      → a ≡ answer_of l b
      → IsAccepted w payload (j, a)
      → Any (λ i. i ≡ payload) (arrive l b j (after_requests link draw rs)).received
  unfolding receive_order
  accepted-Has l b unreachable j payload rs e h = absurd h
  accepted-Has l b garbled j payload rs e h = absurd h
  accepted-Has through true (answered c) j payload rs e (same, small, fine) =
      ground (arith, e, small)
  accepted-Has through false (answered c) j payload rs e (same, small, fine) = inl same
  accepted-Has reply_lost b (answered c) j payload rs e h = ground (arith, e)
  accepted-Has lost b (answered c) j payload rs e h = ground (arith, e)

  requests-Has :
      (payload : Json) (rs : List (Json × Answer))
      → IsConsistent rs
      → Any (IsAccepted w payload) rs
      → Has payload rs
  unfolding after_requests
  requests-Has payload [] c h = absurd h
  requests-Has payload ((j, a) ∷ rs) c (inl h) =
      accepted-Has (link (length rs)) (draw (length rs)) a j payload rs c.0 h
  requests-Has payload ((j, a) ∷ rs) c (inr h) =
      arrive-Has (link (length rs)) (draw (length rs)) j payload rs (requests-Has payload rs c.1 h)

  -- The payload of the message is in the ERP, or the message is in the dead-letter topic.
  abbrev pub IsReceived : Deliver.State Json → Message → Type 0
  IsReceived k m =
      ((payload : Json) × (w.loads m.value ≡ some payload) × Has payload k.requests)
      ⊎ IsDeadLetter w k m

  settled-IsReceived :
      (k : Deliver.State Json)
      → IsConsistent k.requests
      → (m : Message) → IsSettled w k m
      → IsReceived k m
  settled-IsReceived k c m (inl (payload, e, h)) =
      inl (payload, e, requests-Has payload k.requests c h)
  settled-IsReceived k c m (inr h) = inr h

  -- The worker against the mock ERP, over a network that may lose a request or its response: from a
  -- start without requests, where every message handed out so far is settled, wherever the worker's
  -- loop ends, the payload of every message behind the committed offsets is among the orders that the
  -- ERP has received, or the message is in the dead-letter topic.
  pub committed-IsReceived :
      (ms : List Message) (k : Deliver.State Json)
      → k.requests ≡ []
      → IsDone w k
      → All (IsReceived (main_loop w ms k).1) (main_loop w ms k).1.committed
  committed-IsReceived ms k e d =
      let c : IsConsistent k.requests = rw e tt in
      All-map (IsSettled w (main_loop w ms k).1) (IsReceived (main_loop w ms k).1)
        (main_loop w ms k).1.committed
        (settled-IsReceived (main_loop w ms k).1 (loop-Consistent ms k c))
        (committed-IsSettled w ms k d)
