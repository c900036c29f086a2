-- ===== src/Consumer/Loop.antt =====
-- The loop of `main`: the messages of each partition in order, then one commit of its offset. An
-- exception ends the process, and with it the loop.
use observability_lab.Prelude.{ℕ, suc, ◌+◌, List, [], ◌∷◌, if◌then◌else◌}
use observability_lab.Server.{Server}
use observability_lab.Result.{other_exception, ok, err}
use observability_lab.Consumer.Handle.{Packages, Message, State, Outcome, handle_message}

abbrev pub and_then : Outcome → (State → Outcome) → Outcome
and_then (ok _, k) f = f k
and_then (err e, k) f = (err e, k)

-- `messages[-1].offset`, where the first message is given apart
abbrev pub last_offset : Message → List Message → ℕ
last_offset m [] = m.offset
last_offset m (m' ∷ ms) = last_offset m' ms

module _ ⦃s : Server⦄ (p : Packages) where
  -- `for msg in messages: await handle_message(msg, producer)`
  unfoldable pub handle_all : List Message → State → Outcome
  handle_all [] k = (ok tt, k)
  handle_all (m ∷ ms) k = and_then (handle_message p m k) (handle_all ms)

  -- `await consumer.commit({tp: offset})`
  unfoldable pub commit_offset : ℕ → ℕ → State → Outcome
  commit_offset tp offset k =
      if p.commit k.commits
      then (ok tt, record k { committed = (tp, offset) ∷ k.committed; commits = suc k.commits })
      else (err other_exception, record k { commits = suc k.commits })

  -- One item of `batches.items()`; `messages[-1]` of no messages is an `IndexError`.
  unfoldable pub handle_partition : ℕ → List Message → State → Outcome
  handle_partition tp [] k = (err other_exception, k)
  handle_partition tp (m ∷ ms) k =
      and_then (handle_all (m ∷ ms) k) (commit_offset tp (last_offset m ms + 1))

  unfoldable pub handle_batches : List (ℕ × List Message) → State → Outcome
  handle_batches [] k = (ok tt, k)
  handle_batches ((tp, ms) ∷ rest) k = and_then (handle_partition tp ms k) (handle_batches rest)

  -- `while True`, over what the calls of `getmany` return
  unfoldable pub main_loop : List (List (ℕ × List Message)) → State → Outcome
  main_loop [] k = (ok tt, k)
  main_loop (batches ∷ rest) k = and_then (handle_batches batches k) (main_loop rest)
