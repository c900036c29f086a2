-- ===== src/Worker/Settled.antt =====
-- What becomes of the messages behind the committed offsets of the worker.
use observability_lab.Prelude.{
  ℕ, zero, suc, String, arith, ◌∙◌, ◌≡◌, refl, sym, Option, none, some, Bool, false, Bool-cases,
  List, [], ◌∷◌, length, leb, All, Any, All-map, inl, inr, ◌⊎◌,
}
use mathlib.Core.Path.{subst}
use observability_lab.Broker.{Ack, acked, ack_lost, unsent}
use observability_lab.Worker.Deliver.{
  Answer, unreachable, garbled, answered, Exception, transient_delivery_error, http_status_error,
  other_exception, returned, raised, Message, State, Outcome, World, again, is_transient, judge,
  attempt, deliver,
}
use observability_lab.Worker.Loop.{
  count, commit, append, sent, conclude, handle_loaded, handle_message, main_loop, next,
}

module _ {Json : Type 0} (w : World Json) where
  -- A response that is neither a failure of the server nor an error.
  abbrev pub IsAccepted : Json → Json × Answer → Type 0
  IsAccepted payload (j, unreachable) = ⊥
  IsAccepted payload (j, garbled) = ⊥
  IsAccepted payload (j, answered c) = (j ≡ payload) × (leb 500 c ≡ false) × (w.is_error c ≡ false)

  abbrev pub IsDelivered : State Json → Message → Type 0
  IsDelivered k m =
      (payload : Json) × (w.loads m.value ≡ some payload) × Any (IsAccepted payload) k.requests

  abbrev pub IsDeadLetter : State Json → Message → Type 0
  IsDeadLetter k m = Any (λ e. e ≡ (m.key, m.value)) k.dead_letters

  abbrev pub IsSettled : State Json → Message → Type 0
  IsSettled k m = IsDelivered k m ⊎ IsDeadLetter k m

  -- Everything behind the committed offsets is settled.
  abbrev pub IsSafe : State Json → Type 0
  IsSafe k = All (IsSettled k) k.committed

  -- So is everything handed out.
  abbrev pub IsDone : State Json → Type 0
  IsDone k = All (IsSettled k) k.consumed × IsSafe k

  -- What a delivery, or one attempt of it, owes: the requests grow, the rest of the state stays,
  -- and it returns only after a request for the payload was accepted.
  pub record Delivers (payload : Json) (k : State Json) (o : Outcome Json) : Type 0 where
    pub consumed : o.1.consumed ≡ k.consumed
    pub committed : o.1.committed ≡ k.committed
    pub dead_letters : o.1.dead_letters ≡ k.dead_letters
    pub grows : (j : Json) → Any (IsAccepted j) k.requests → Any (IsAccepted j) o.1.requests
    pub accepted : o.0 ≡ returned → Any (IsAccepted payload) o.1.requests

  judged : (payload : Json) (a : Answer) → judge w a ≡ returned → IsAccepted payload (payload, a)
  judged payload unreachable h = ground arith
  judged payload garbled h = ground arith
  judged payload (answered c) h = ground arith

  attempt-Delivers : (payload : Json) (k : State Json) → Delivers payload k (attempt w payload k)
  attempt-Delivers payload k = record {
    consumed = refl;
    committed = refl;
    dead_letters = refl;
    grows = λ j h. inr h;
    accepted = λ h. inl (judged payload (w.post (length k.requests) payload) h);
  }

  again-Delivers :
      (payload : Json) (test : Exception → Bool) (rest : State Json → Outcome Json) (k : State Json)
      (o : Outcome Json)
      → Delivers payload k o
      → ((l : State Json) → Delivers payload l (rest l))
      → Delivers payload k (again Json test rest o)
  again-Delivers payload test rest k (returned, l) d r = d
  again-Delivers payload test rest k (raised e, l) d r = elim (Bool-cases (test e)) [
    | inl t ↦ rw t (record {
      consumed = (r l).consumed ∙ d.consumed;
      committed = (r l).committed ∙ d.committed;
      dead_letters = (r l).dead_letters ∙ d.dead_letters;
      grows = λ j h. (r l).grows j (d.grows j h);
      accepted = (r l).accepted;
    })
    | inr f ↦ rw f d
  ]

  retry-Delivers :
      (payload : Json) (test : Exception → Bool) (n : ℕ) (k : State Json)
      → Delivers payload k (w.retry test (suc n) (attempt w payload) k)
  retry-Delivers payload test zero k =
      rw (w.retry_once test (attempt w payload) k) (attempt-Delivers payload k)
  retry-Delivers payload test (suc n) k = rw (w.retry_again test n (attempt w payload) k) (
      again-Delivers payload test (w.retry test (suc n) (attempt w payload)) k (attempt w payload k)
        (attempt-Delivers payload k) (retry-Delivers payload test n))

  pub deliver-Delivers :
      (payload : Json) (k : State Json) → Delivers payload k (deliver w payload k)
  unfolding deliver
  deliver-Delivers payload k = retry-Delivers payload is_transient 4 k

  settled_grows :
      (payload : Json) (k : State Json) (o : Outcome Json) (m : Message)
      → Delivers payload k o
      → IsSettled k m
      → IsSettled o.1 m
  settled_grows payload k o m d (inl (j, e, h)) = inl (j, e, d.grows j h)
  settled_grows payload k o m d (inr h) =
      inr (subst (λ l. Any (λ e. e ≡ (m.key, m.value)) l) (sym d.dead_letters) h)

  -- One message is in hand; the others that were handed out are settled.
  record Holds (m : Message) (k : State Json) : Type 0 where
    earlier : List Message
    consumed : k.consumed ≡ m ∷ earlier
    settled : All (IsSettled k) earlier
    safe : IsSafe k

  abbrev After : Outcome Json → Type 0
  After (returned, k) = IsDone k
  After (raised e, k) = IsSafe k

  delivered-Holds :
      (payload : Json) (m : Message) (k : State Json) (o : Outcome Json)
      → Delivers payload k o
      → Holds m k
      → Holds m o.1
  delivered-Holds payload m k o d h = record {
    earlier = h.earlier;
    consumed = d.consumed ∙ h.consumed;
    settled =
        All-map (IsSettled k) (IsSettled o.1) h.earlier (λ x. settled_grows payload k o x d)
          h.settled;
    safe =
        subst (λ l. All (IsSettled o.1) l) (sym d.committed)
          (All-map (IsSettled k) (IsSettled o.1) k.committed (λ x. settled_grows payload k o x d)
            h.safe);
  }

  append-Holds : (m : Message) (k : State Json) → Holds m k → Holds m (append w m k)
  append-Holds m k h = record {
    earlier = h.earlier;
    consumed = h.consumed;
    settled = All-map (IsSettled k) (IsSettled (append w m k)) h.earlier (grown m k) h.settled;
    safe = All-map (IsSettled k) (IsSettled (append w m k)) k.committed (grown m k) h.safe;
  }
    where
      grown :
          (m : Message) (k : State Json) (x : Message) → IsSettled k x → IsSettled (append w m k) x
      grown m k x (inl d) = inl d
      grown m k x (inr d) = inr (inr d)

  -- Counters are not part of it.
  counted-Holds :
      (m : Message) (k : State Json) (n : ℕ) (c : List String)
      → Holds m k
      → Holds m (record k { sends = n; counts = c })
  counted-Holds m k n c h = record {
    earlier = h.earlier;
    consumed = h.consumed;
    settled = h.settled;
    safe = h.safe;
  }

  commit-After : (m : Message) (k : State Json) → Holds m k → IsSettled k m → After (commit w k)
  commit-After m k h t =
      let all : All (IsSettled k) k.consumed =
        subst (λ l. All (IsSettled k) l) (sym h.consumed) (t, h.settled) in
      elim (Bool-cases (w.commit k.commits)) [ inl e ↦ rw e (all, all) | inr e ↦ rw e h.safe ]

  sent-After : (a : Ack) (m : Message) (k : State Json) → Holds m k → After (sent w a m k)
  sent-After acked m k h =
      commit-After m (count w "dlq" (append w m k))
        (counted-Holds m (append w m k) k.sends ("dlq" ∷ k.counts) (append-Holds m k h))
        (inr (inl refl))
  sent-After ack_lost m k h = (append-Holds m k h).safe
  sent-After unsent m k h = h.safe

  conclude-After :
      (payload : Json) (m : Message) (k : State Json) (o : Outcome Json)
      → w.loads m.value ≡ some payload
      → Delivers payload k o
      → Holds m o.1
      → After (conclude w m o)
  conclude-After payload m k (returned, l) e d h =
      commit-After m (count w "success" l) (counted-Holds m l l.sends ("success" ∷ l.counts) h)
        (inl (payload, e, d.accepted refl))
  conclude-After payload m k (raised transient_delivery_error, l) e d h =
      sent-After (w.send l.sends) m (record l { sends = suc l.sends })
        (counted-Holds m l (suc l.sends) l.counts h)
  conclude-After payload m k (raised http_status_error, l) e d h =
      sent-After (w.send l.sends) m (record l { sends = suc l.sends })
        (counted-Holds m l (suc l.sends) l.counts h)
  conclude-After payload m k (raised other_exception, l) e d h = h.safe

  handle_loaded-After :
      (m : Message) (r : Option Json) (k : State Json)
      → w.loads m.value ≡ r
      → Holds m k
      → After (handle_loaded w m r k)
  handle_loaded-After m none k e h = h.safe
  handle_loaded-After m (some payload) k e h =
      let d : Delivers payload k (deliver w payload k) = deliver-Delivers payload k in
      conclude-After payload m k (deliver w payload k) e d
        (delivered-Holds payload m k (deliver w payload k) d h)

  handle_message-After : (m : Message) (k : State Json) → IsDone k → After (handle_message w m k)
  unfolding handle_message
  handle_message-After m k h =
      handle_loaded-After m (w.loads m.value) (record k { consumed = m ∷ k.consumed }) refl
        (record { earlier = k.consumed; consumed = refl; settled = h.0; safe = h.1 })

  next-IsSafe :
      (rest : State Json → Outcome Json) (o : Outcome Json)
      → ((k : State Json) → IsDone k → IsSafe (rest k).1)
      → After o
      → IsSafe (next w rest o).1
  next-IsSafe rest (returned, k) r h = r k h
  next-IsSafe rest (raised e, k) r h = h

  -- Wherever the loop ends, by an exception or because no message is left, every message behind the
  -- committed offsets is settled, if all those handed out before were: the ERP accepted its payload,
  -- or it is in the dead-letter topic.
  pub committed-IsSettled :
      (ms : List Message) (k : State Json) → IsDone k → IsSafe (main_loop w ms k).1
  unfolding main_loop
  committed-IsSettled [] k h = h.1
  committed-IsSettled (m ∷ ms) k h =
      next-IsSafe (main_loop w ms) (handle_message w m k) (committed-IsSettled ms)
        (handle_message-After m k h)
