-- ===== src/Retention/Samples.antt =====
-- Test data: a log with one row that is older than seven days.
use mathlib.Core.List.{Permᴰ}
use mathlib.Core.List.Permᴰ
use observability_lab.Prelude.{
  ℕ, arith, true, false, none, List, [], ◌∷◌, ◌≡◌, ◌≤◌, refl, Bool-cases, inl, inr, All, All-map,
  ltb, if◌then◌else◌,
}
use observability_lab.Tables.{PipelineLog}
use observability_lab.Retention.Run.{
  IsOldestFirst, committed, reply_lost, LogServer, top_ids, delete_ids, enforce_retention,
}
use observability_lab.Retention.Bounds.{IsRetained, enforce_retention-IsRetained}

-- An insertion sort by the time.
abbrev place : PipelineLog → List PipelineLog → List PipelineLog
place r [] = r ∷ []
place r (q ∷ rows) =
    let rest = place r rows in if ltb q.created_at r.created_at then q ∷ rest else r ∷ q ∷ rows

abbrev by_time : List PipelineLog → List PipelineLog
by_time [] = []
by_time (r ∷ rows) = place r (by_time rows)

place-Perm : (r : PipelineLog) (rows : List PipelineLog) → Permᴰ (r ∷ rows) (place r rows)
place-Perm r [] = Permᴰ.refl (r ∷ [])
place-Perm r (q ∷ rows) = elim (Bool-cases (ltb q.created_at r.created_at)) [
  | inl e ↦ rw e (Permᴰ.trans (Permᴰ.swap refl refl) (Permᴰ.cons refl (place-Perm r rows)))
  | inr e ↦ rw e (Permᴰ.refl (r ∷ q ∷ rows))
]

by_time-Perm : (rows : List PipelineLog) → Permᴰ rows (by_time rows)
by_time-Perm [] = Permᴰ.nil
by_time-Perm (r ∷ rows) =
    Permᴰ.trans (Permᴰ.cons refl (by_time-Perm rows)) (place-Perm r (by_time rows))

place-All :
    (P : PipelineLog → Type 0) (r : PipelineLog) (rows : List PipelineLog)
    → P r
    → All P rows
    → All P (place r rows)
place-All P r [] p h = (p, tt)
place-All P r (q ∷ rows) p h = elim (Bool-cases (ltb q.created_at r.created_at)) [
  | inl e ↦ rw e (h.0, place-All P r rows p h.1)
  | inr e ↦ rw e (p, h)
]

place-IsOldestFirst :
    (r : PipelineLog) (rows : List PipelineLog) → IsOldestFirst rows → IsOldestFirst (place r rows)
place-IsOldestFirst r [] h = (tt, tt)
place-IsOldestFirst r (q ∷ rows) h = elim (Bool-cases (ltb q.created_at r.created_at)) [
  | inl e ↦ rw e (
    place-All (λ x. q.created_at ≤ x.created_at) r rows (ground (arith, e)) h.0,
    place-IsOldestFirst r rows h.1,
  )
  | inr e ↦
      let first : r.created_at ≤ q.created_at = ground (arith, e) in
      rw e (
        (
          first,
          All-map (λ x. q.created_at ≤ x.created_at) (λ x. r.created_at ≤ x.created_at) rows
              (λ x le. omega (arith, first, le)) h.0,
        ),
        h,
      )
]

by_time-IsOldestFirst : (rows : List PipelineLog) → IsOldestFirst (by_time rows)
by_time-IsOldestFirst [] = tt
by_time-IsOldestFirst (r ∷ rows) = place-IsOldestFirst r (by_time rows) (by_time-IsOldestFirst rows)

abbrev server : LogServer
server = record {
  now = 700000;
  by_age = by_time;
  by_age_rows = by_time-Perm;
  by_age_order = by_time-IsOldestFirst;
  succeeds = λ n. true;
  last_commit = committed;
  closes = true;
}

abbrev entry : ℕ → ℕ → PipelineLog
entry id time = record {
  log_id = id;
  created_at = time;
  service = "ingestion-consumer";
  level = "ERROR";
  message = "DB error";
  event_id = none;
}

abbrev rows : List PipelineLog
rows = entry 1 10 ∷ entry 2 690000 ∷ []

one_left : enforce_retention server rows ≡ (true, entry 2 690000 ∷ [])
unfolding enforce_retention
one_left = refl

-- The COMMIT is carried out although the run raises.
lost_reply :
    enforce_retention (record server { last_commit = reply_lost }) rows
    ≡ (false, entry 2 690000 ∷ [])
unfolding enforce_retention
lost_reply = refl

oldest_deleted :
    delete_ids server
      (top_ids server 2 (entry 1 690003 ∷ entry 2 690001 ∷ entry 3 690002 ∷ []))
      (entry 1 690003 ∷ entry 2 690001 ∷ entry 3 690002 ∷ [])
    ≡ entry 1 690003 ∷ []
oldest_deleted = refl

enforce_retention-IsRetained_example : IsRetained server rows (enforce_retention server rows)
enforce_retention-IsRetained_example = enforce_retention-IsRetained server rows (refl, (refl, tt))
