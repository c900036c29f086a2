-- ===== src/Consumer/Machine/Refines.antt =====
-- The loop of the consumer against the abstract machine.
use observability_lab.Prelude.{
  ℕ, String, Option, none, some, Bool-cases, inl, inr, ◌≡◌, refl, sym, ap, List, [], ◌∷◌, ◌++◌, ◌+◌,
}
use mathlib.Core.Path.{subst}
use mathlib.Core.List.{append-nil}
use observability_lab.Server.{Server}
use observability_lab.Result.{other_exception, Result, ok, err}
use observability_lab.Payload.{subscript, Event}
use observability_lab.Tables.{Database}
use observability_lab.Session.{Conn}
use observability_lab.Session.Rules.{Pred, Post, Does, Maintains}
use observability_lab.Sql.Events.{insert_event, insert_log}
use observability_lab.Consumer.Process.{Reply, txn_body}
use observability_lab.Consumer.Handle.{Packages, Message, State, Outcome, handle_message}
use observability_lab.Consumer.Loop.{
  last_offset, and_then, handle_all, commit_offset, handle_partition, handle_batches, main_loop,
}
use observability_lab.Consumer.Invariant.Lift.{IsUnlogged, malformed-keeps, handle_event-keeps}
use observability_lab.Consumer.Invariant.Txn.{body-Ensures}
use observability_lab.Consumer.Idempotence.{RanOnce, message_atomic}
use observability_lab.Consumer.Machine.{Shop, shop_of, Handles, Runs, messages_of, all_messages}
use observability_lab.Consumer.Machine.Body.{Processed, body-Processed}

module _ ⦃s : Server⦄ where
  abbrev IsShop : Shop → Pred
  IsShop a db = shop_of db ≡ a

  IsShop-IsUnlogged : (a : Shop) → IsUnlogged (IsShop a)
  unfolding insert_log
  IsShop-IsUnlogged a v l m e now id db h = h

  -- An event whose id is null is refused by the ledger.
  null-claim :
      (a : Shop) (t : Option String) (now id : ℕ) (db : Database)
      → IsShop a db
      → Does (λ _ _. ⊥) (insert_event none t now id db)
  unfolding insert_event
  null-claim a t now id db h = tt

  null-Maintains :
      (a : Shop) (e : Event)
      → subscript e.event_id ≡ ok none
      → Maintains (IsShop a) (txn_body e none)
  null-Maintains a e named =
      body-Ensures (IsShop a) (λ _. ⊥) (IsShop a) e none named (null-claim a)
        (λ t d. record { at = λ c h. absurd h }) (λ now id db h. absurd h)

  ran :
      (e : Event) (i : String) (before : Database) (o : Result Reply × Conn) (c : Conn) (a : Reply)
      → o ≡ (ok a, c)
      → Post (λ _. Processed (shop_of before).statuses (shop_of before).seen e i) o
      → Processed (shop_of before).statuses (shop_of before).seen e i c.db
  ran e i before o c a q h =
      subst (λ r. Post (λ _. Processed (shop_of before).statuses (shop_of before).seen e i) r) q h

  module _ (p : Packages) where
    -- One run of the body is one step of the machine.
    ran_once :
        (m : Message) (e : Event) (i : String)
        → subscript e.event_id ≡ ok (some i)
        → p.loads m.value ≡ some e
        → (before settled : Database) → RanOnce e i before settled
        → Handles p m (shop_of before) (shop_of settled)
    ran_once m e i named loaded before settled (inl q) = inl (ap shop_of q)
    ran_once m e i named loaded before settled (inr (tick, a, c, q, r, claimed)) =
        let done : Processed (shop_of before).statuses (shop_of before).seen e i c.db =
          ran e i before (txn_body e (some i) (record { db = before; tick = tick })) c a q (
            (body-Processed (shop_of before).statuses (shop_of before).seen e i named).at
              (record { db = before; tick = tick }) (refl, refl)) in
        subst (λ db. Handles p m (shop_of before) (shop_of db)) (sym r)
          (inr (e, loaded, (i, named, done.0, done.1.1, done.1.0)))

    identified :
        (m : Message) (e : Event) (k : State)
        → p.loads m.value ≡ some e
        → (r : Result (Option String)) → subscript e.event_id ≡ r
        → Handles p m (shop_of k.conn.db) (shop_of (handle_message p m k).1.conn.db)
    unfolding handle_message
    identified m e k loaded (err x) named = inl (
        rw (loaded, named)
          (malformed-keeps p (IsShop (shop_of k.conn.db)) (IsShop-IsUnlogged _) m x k refl))
    identified m e k loaded (ok none) named = inl (
        rw (loaded, named)
          (handle_event-keeps p (IsShop (shop_of k.conn.db)) (IsShop-IsUnlogged _) e none
            (null-Maintains _ e named) k refl))
    identified m e k loaded (ok (some i)) named =
        let (settled, ends, eq) = message_atomic e i named p m loaded k in
        subst (λ b. Handles p m (shop_of k.conn.db) b) (sym (ap shop_of eq))
          (ran_once m e i named loaded k.conn.db settled ends)

    handle_message-Handles :
        (m : Message) (k : State)
        → Handles p m (shop_of k.conn.db) (shop_of (handle_message p m k).1.conn.db)
    unfolding handle_message
    handle_message-Handles m k = loaded (p.loads m.value) refl
      where
        loaded :
            (l : Option Event)
            → p.loads m.value ≡ l
            → Handles p m (shop_of k.conn.db) (shop_of (handle_message p m k).1.conn.db)
        loaded none q = inl (
            rw q (
              malformed-keeps p (IsShop (shop_of k.conn.db)) (IsShop-IsUnlogged _) m other_exception
                k refl))
        loaded (some e) q = identified m e k q (subscript e.event_id) refl

    -- No message need be processed.
    Runs-none : (ms : List Message) (a : Shop) → Runs p ms a a
    Runs-none [] a = refl
    Runs-none (m ∷ ms) a = (a, inl refl, Runs-none ms a)

    Runs-append :
        (ms ns : List Message) (a b c : Shop)
        → Runs p ms a b
        → Runs p ns b c
        → Runs p (ms ++ ns) a c
    Runs-append [] ns a b c h k = subst (λ x. Runs p ns x c) h k
    Runs-append (m ∷ ms) ns a b c (d, h, hs) k = (d, h, Runs-append ms ns d b c hs k)

    -- What a part of the loop does with its messages, from the state `k`.
    abbrev Serves : List Message → State → Outcome → Type 0
    Serves ms k o = Runs p ms (shop_of k.conn.db) (shop_of o.1.conn.db)

    and_then-Serves :
        (ms ns : List Message) (k : State) (o : Outcome) (f : State → Outcome)
        → Serves ms k o
        → ((l : State) → Serves ns l (f l))
        → Serves (ms ++ ns) k (and_then o f)
    and_then-Serves ms ns k (ok _, l) f h g = Runs-append ms ns _ _ _ h (g l)
    and_then-Serves ms ns k (err e, l) f h g = Runs-append ms ns _ _ _ h (Runs-none ns _)

    handle_all-Serves : (ms : List Message) (k : State) → Serves ms k (handle_all p ms k)
    unfolding handle_all
    handle_all-Serves [] k = refl
    handle_all-Serves (m ∷ ms) k =
        and_then-Serves (m ∷ []) ms k (handle_message p m k) (handle_all p ms)
          (_, handle_message-Handles m k, refl) (handle_all-Serves ms)

    commit_offset-Serves : (tp n : ℕ) (k : State) → Serves [] k (commit_offset p tp n k)
    unfolding commit_offset
    commit_offset-Serves tp n k = elim (Bool-cases (p.commit k.commits)) [
      | inl e ↦ rw e refl
      | inr e ↦ rw e refl
    ]

    handle_partition-Serves :
        (tp : ℕ) (ms : List Message) (k : State) → Serves ms k (handle_partition p tp ms k)
    unfolding handle_partition
    handle_partition-Serves tp [] k = refl
    handle_partition-Serves tp (m ∷ ms) k =
        subst (λ l. Serves l k (handle_partition p tp (m ∷ ms) k)) (append-nil (m ∷ ms))
          (and_then-Serves (m ∷ ms) [] k (handle_all p (m ∷ ms) k)
            (commit_offset p tp (last_offset m ms + 1)) (handle_all-Serves (m ∷ ms) k)
            (commit_offset-Serves tp (last_offset m ms + 1)))

    handle_batches-Serves :
        (bs : List (ℕ × List Message)) (k : State)
        → Serves (messages_of bs) k (handle_batches p bs k)
    unfolding handle_batches
    handle_batches-Serves [] k = refl
    handle_batches-Serves ((tp, ms) ∷ bs) k =
        and_then-Serves ms (messages_of bs) k (handle_partition p tp ms k) (handle_batches p bs)
          (handle_partition-Serves tp ms k) (handle_batches-Serves bs)

    -- Whatever the server, the packages and the broker do, the loop implements the abstract machine:
    -- it comes from the statuses and the processed events of its tables to those afterwards by a
    -- step for each message, in the order of the batches. A step does nothing, or it processes the
    -- event of its message, which was not processed before and then is: an ORDER_CREATED event makes
    -- an order of an unknown external id, as "PENDING"; a change of status finds no order and does
    -- nothing, or it gives an allowed status to an order that is not in a terminal one; other events
    -- change no status.
    pub main_loop-Runs :
        (polls : List (List (ℕ × List Message))) (k : State)
        → Runs p (all_messages polls) (shop_of k.conn.db) (shop_of (main_loop p polls k).1.conn.db)
    unfolding main_loop
    main_loop-Runs [] k = refl
    main_loop-Runs (bs ∷ polls) k =
        and_then-Serves (messages_of bs) (all_messages polls) k (handle_batches p bs k)
          (main_loop p polls) (handle_batches-Serves bs k) (main_loop-Runs polls)
