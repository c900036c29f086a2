-- ===== src/BulkLoad/Rules.antt =====
-- Rules for what a task leaves behind, whether it returns or raises.
use observability_lab.Prelude.{
  ℕ, zero, suc, String, Option, none, some, List, ◌∷◌, Bool, true, false, Bool-cases, inl, inr,
}
use observability_lab.BulkLoad.Text.{Text}
use observability_lab.BulkLoad.Host.{Host, Run, State, Task, tick, call, calls_then}
use observability_lab.BulkLoad.Tasks.{after, remove_data, remove_error, remove_files}
use observability_lab.BulkLoad.Dag.{
  States, failed, success, again, tried, skipped, stage, run_tasks,
}

abbrev pub Pred : Type 1
Pred = State → Type 0

-- `Q` where it returned, `P` where it raised.
abbrev pub Ends : Pred → Pred → Bool × State → Type 0
Ends P Q (true, k) = Q k
Ends P Q (false, k) = P k

-- From `P`, a run that returns ends in `Q`, and one that raises in `P` again.
abbrev pub Leads : Pred → Pred → Task → Type 0
Leads P Q t = (k : State) → P k → Ends P Q (t k)

module _ (h : Host) (P Q : Pred) (timeless : (k : State) → P k → P (tick k)) where
  pub call-Leads : (t : Task) → Leads P Q t → Leads P Q (call h t)
  call-Leads t r k p = elim (Bool-cases (h.answers k.calls)) [
    | inl e ↦ rw e (r (tick k) (timeless k p))
    | inr e ↦ rw e (timeless k p)
  ]

  pub calls_then-Leads : (n : ℕ) (t : Task) → Leads P Q t → Leads P Q (calls_then h n t)
  calls_then-Leads zero t r = r
  calls_then-Leads (suc n) t r = call-Leads (calls_then h n t) (calls_then-Leads n t r)

module _ (h : Host) (run : Run) where
  pub after-Ends :
      (P Q R : Pred) (t : Task) (o : Bool × State)
      → ((k : State) → Q k → Ends P R (t k))
      → Ends P Q o
      → Ends P R (after h run t o)
  after-Ends P Q R t (true, k) l e = l k e
  after-Ends P Q R t (false, k) l e = e

  -- A predicate of neither file and of no call.
  module _ (I : Pred)
      (loose : (f : Option Text) (e : Bool) (c : ℕ) (k : State)
        → I k
        → I (record k { data_file = f; error_file = e; calls = c })) where
    remove_data-Keeps : (o : Option Text) → Leads I I (remove_data h run o)
    remove_data-Keeps none k p = p
    remove_data-Keeps (some file) k p = elim (Bool-cases (h.removes k.calls)) [
      | inl e ↦ rw e (loose none k.error_file (suc k.calls) k p)
      | inr e ↦ rw e (loose k.data_file k.error_file (suc k.calls) k p)
    ]

    remove_error-Keeps : (b : Bool) → Leads I I (remove_error h run b)
    remove_error-Keeps false k p = p
    remove_error-Keeps true k p = elim (Bool-cases (h.removes k.calls)) [
      | inl e ↦ rw e (loose k.data_file false (suc k.calls) k p)
      | inr e ↦ rw e (loose k.data_file k.error_file (suc k.calls) k p)
    ]

    pub remove_files-Keeps : Leads I I (remove_files h run)
    remove_files-Keeps k p =
        after-Ends I I I (λ k1. remove_error h run k1.error_file k1)
          (remove_data h run k.data_file k) (λ k1. remove_error-Keeps k1.error_file k1)
          (remove_data-Keeps k.data_file k p)

module _ (P Q : Pred) where
  again-Ends : (t : Task) (o : Bool × State) → Leads P Q t → Ends P Q o → Ends P Q (again t o)
  again-Ends t (true, k) r e = e
  again-Ends t (false, k) r e = r k e

  pub tried-Leads : (t : Task) → Leads P Q t → Leads P Q (tried t)
  tried-Leads t r k p = again-Ends t (t k) r (r k p)

pub Ends-weaken :
    (P P' Q : Pred) (o : Bool × State) → ((k : State) → P k → P' k) → Ends P Q o → Ends P' Q o
Ends-weaken P P' Q (true, k) f e = e
Ends-weaken P P' Q (false, k) f e = f k e

pub Ends-both :
    (P P' Q Q' : Pred) (o : Bool × State)
    → Ends P Q o
    → Ends P' Q' o
    → Ends (λ k. P k × P' k) (λ k. Q k × Q' k) o
Ends-both P P' Q Q' (true, k) e e' = (e, e')
Ends-both P P' Q Q' (false, k) e e' = (e, e')

-- One task and the tasks after it, for a predicate of the states of tasks and what they leave.
module _ (R : States × State → Type 0)
    (passes : (name : String) (s : States) (k : State)
      → R (s, k)
      → R ((name, success) ∷ s, k)) where
  pub stage-Leads :
      (P Q : Pred) (name : String) (ts : List (String × Task)) (o : Bool × State)
      → ((k : State) → P k → R ((name, failed) ∷ skipped ts, k))
      → ((k : State) → Q k → R (run_tasks ts k))
      → Ends P Q o
      → R (stage name ts (run_tasks ts) o)
  stage-Leads P Q name ts (true, k) fails f e = passes name _ _ (f k e)
  stage-Leads P Q name ts (false, k) fails f e = fails k e

  pub task-Leads :
      (P Q : Pred) (name : String) (t : Task) (ts : List (String × Task))
      → Leads P Q t
      → ((k : State) → P k → R ((name, failed) ∷ skipped ts, k))
      → ((k : State) → Q k → R (run_tasks ts k))
      → (k : State) → P k
      → R (run_tasks ((name, t) ∷ ts) k)
  task-Leads P Q name t ts l fails f k p =
      stage-Leads P Q name ts (tried t k) fails f (tried-Leads P Q t l k p)
