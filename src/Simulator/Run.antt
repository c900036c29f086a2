-- ===== src/Simulator/Run.antt =====
-- `run`: one coroutine `run_order` for each order, and the semaphore that they share. The event loop
-- chooses which of them goes on, and the receiver when it answers; both are an explicit list of moves.
use observability_lab.Prelude.{
  ℕ, zero, suc, Option, none, some, Bool, true, false, List, [], ◌∷◌, ltb, ◌+◌, if◌then◌else◌,
}

-- The sends of one order, in the order of the code.
pub data Send : Type 0 where
  created : Send
  approved : Send
  payment : Send
  -- the created event again
  replay : Send

-- Where a coroutine is.
pub data Stage : Type 0 where
  -- at `async with sem`
  waiting : Send → Stage
  -- in `send`
  sending : Send → Stage
  -- it has returned
  ended : Bool → Stage

pub record State : Type 0 where
  -- the coroutines, by `seq`
  pub orders : List Stage
  -- the requests so far, by order, the newest first
  pub requests : List (ℕ × Send)
  -- the status codes in `results`, the newest first; 0 for an `httpx.HTTPError`
  pub results : List ℕ

abbrev pub stage_of : ℕ → List Stage → Option Stage
stage_of i [] = none
stage_of zero (s ∷ ss) = some s
stage_of (suc i) (s ∷ ss) = stage_of i ss

abbrev pub put_stage : ℕ → Stage → List Stage → List Stage
put_stage i t [] = []
put_stage zero t (s ∷ ss) = t ∷ ss
put_stage (suc i) t (s ∷ ss) = s ∷ put_stage i t ss

-- The sum over the coroutines.
abbrev pub total : (Stage → ℕ) → List Stage → ℕ
total f [] = 0
total f (s ∷ ss) = f s + total f ss

abbrev pub is_sending : Stage → ℕ
is_sending (waiting x) = 0
is_sending (sending x) = 1
is_sending (ended b) = 0

-- What holds the semaphore.
abbrev pub in_flight : List Stage → ℕ
in_flight ss = total is_sending ss

-- What follows a send; the last argument is `random.random() < args.duplicate_rate`.
abbrev pub after_send : Send → Bool → Stage
after_send created b = waiting approved
after_send approved b = waiting payment
after_send payment b = if b then waiting replay else ended false
after_send replay b = ended true

pub data Move : Type 0 where
  -- the coroutine acquires the semaphore and sends its request
  acquire : ℕ → Move
  -- its request ends with this status, and it goes on, with this draw
  answer : ℕ → ℕ → Bool → Move

-- `[run_order(client, seq) for seq in range(args.orders)]`
abbrev pub all_orders : ℕ → List Stage
all_orders zero = []
all_orders (suc n) = waiting created ∷ all_orders n

abbrev pub start : ℕ → State
start orders = record { orders = all_orders orders; requests = []; results = [] }

module _ (concurrency : ℕ) where
  abbrev pub acquired : ℕ → Option Stage → State → Option State
  acquired i none k = none
  acquired i (some (waiting x)) k =
      if ltb (in_flight k.orders) concurrency
      then some
          (record k { orders = put_stage i (sending x) k.orders; requests = (i, x) ∷ k.requests })
      else none
  acquired i (some (sending x)) k = none
  acquired i (some (ended b)) k = none

  abbrev pub answered : ℕ → ℕ → Bool → Option Stage → State → Option State
  answered i status b none k = none
  answered i status b (some (waiting x)) k = none
  answered i status b (some (sending x)) k =
      some
        (record k { orders = put_stage i (after_send x b) k.orders; results = status ∷ k.results })
  answered i status b (some (ended c)) k = none

  -- none, if the move is not possible
  abbrev pub step : Move → State → Option State
  step (acquire i) k = acquired i (stage_of i k.orders) k
  step (answer i status b) k = answered i status b (stage_of i k.orders) k

  abbrev pub then_run : (State → Option State) → Option State → Option State
  then_run rest none = none
  then_run rest (some k) = rest k

  unfoldable pub run : List Move → State → Option State
  run [] k = some k
  run (m ∷ ms) k = then_run (run ms) (step m k)

-- `sum(outcomes)`
abbrev pub is_duplicate : Stage → ℕ
is_duplicate (waiting x) = 0
is_duplicate (sending x) = 0
is_duplicate (ended false) = 0
is_duplicate (ended true) = 1

abbrev pub duplicates_sent : List Stage → ℕ
duplicates_sent ss = total is_duplicate ss
