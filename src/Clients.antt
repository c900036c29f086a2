-- ===== src/Clients.antt =====
-- The clients that the services open when they start and close when they end: `main` of
-- services/ingestion_consumer/app/consumer.py and of services/order_approved_worker/app/worker.py,
-- and `lifespan` of services/webhook_receiver/app/main.py. aiokafka and httpx are not modelled: a
-- call of theirs succeeds or raises, as a parameter says.
use observability_lab.Prelude.{
  ℕ, Bool, true, false, List, [], ◌∷◌, length, ◌≡◌, refl, ◌⊎◌, inl, inr, if◌then◌else◌,
}

pub data ServiceClient : Type 0 where
  kafka_consumer : ServiceClient
  kafka_producer : ServiceClient
  http_client : ServiceClient

pub data Call : Type 0 where
  -- `await client.start()`, or `__aenter__`
  opening : ServiceClient → Call
  -- `await client.stop()`, or `__aexit__`
  closing : ServiceClient → Call

-- How a block of a coroutine ends.
pub data Exit : Type 0 where
  finished : Exit
  failed : Exit

abbrev pub succeeds : Exit → Bool
succeeds finished = true
succeeds failed = false

pub Exit-cases : (x : Exit) → (x ≡ finished) ⊎ (x ≡ failed)
Exit-cases finished = inl refl
Exit-cases failed = inr refl

-- The calls so far and how they ended, the newest first, and what the service itself keeps.
pub record Life (S : Type 0) : Type 0 where
  pub calls : List (Call × Exit)
  pub state : S

module _ {S : Type 0} where
  abbrev pub called : Call → Exit → Life S → Exit × Life S
  called c x l = (x, record l { calls = (c, x) ∷ l.calls })

  -- A call; the argument says how the n-th of them ends.
  abbrev pub call : (ℕ → Exit) → Call → Life S → Exit × Life S
  call answers c l = called c (answers (length l.calls)) l

  -- the next statement, unless an exception was raised
  abbrev pub then_next : Exit × Life S → (Life S → Exit × Life S) → Exit × Life S
  then_next (finished, l) rest = rest l
  then_next (failed, l) rest = (failed, l)

  abbrev pub or_failed : Exit → Exit × Life S → Exit × Life S
  or_failed x (finished, l) = (x, l)
  or_failed x (failed, l) = (failed, l)

  -- `try: … finally: …`, and the end of an `async with`: the handler runs in any case, and an
  -- exception of its own takes the place of the block's.
  abbrev pub then_finally : Exit × Life S → (Life S → Exit × Life S) → Exit × Life S
  then_finally (x, l) handler = or_failed x (handler l)

abbrev pub same_client : ServiceClient → ServiceClient → Bool
same_client kafka_consumer kafka_consumer = true
same_client kafka_producer kafka_producer = true
same_client http_client http_client = true
same_client _ _ = false

-- A client is left open if it was opened and no call to close it was made since.
abbrev pub is_open : ServiceClient → List (Call × Exit) → Bool
is_open c [] = false
is_open c ((opening d, finished) ∷ calls) = if same_client c d then true else is_open c calls
is_open c ((opening d, failed) ∷ calls) = is_open c calls
is_open c ((closing d, x) ∷ calls) = if same_client c d then false else is_open c calls
