-- ===== src/BulkLoad/Format.antt =====
-- airflow/scripts/order_history_fact.fmt: the fields of a record, each with the length that it may
-- have and the terminator that ends it; and how a file is read by it.
use observability_lab.Prelude.{ℕ, zero, suc, Option, none, some, List, [], ◌∷◌, eqb, if◌then◌else◌}
use observability_lab.BulkLoad.Text.{Text}

-- SQLCHAR, prefix 0: the length, the terminator
abbrev pub format_file : List (ℕ × ℕ)
format_file =
    (64, b',')
    ∷ (64, b',')
    ∷ (16, b',')
    ∷ (20, b',')
    ∷ (24, b',')
    ∷ (50, b',')
    ∷ (30, b',')
    ∷ (12, b',')
    ∷ (50, 10)
    ∷ []

abbrev pub prefixed : ℕ → Option (Text × Text) → Option (Text × Text)
prefixed c none = none
prefixed c (some (field, rest)) = some (c ∷ field, rest)

-- The text up to the terminator, and what follows it.
abbrev pub read_field : ℕ → Text → Option (Text × Text)
read_field sep [] = none
read_field sep (c ∷ t) =
    let rest = prefixed c (read_field sep t) in if eqb c sep then some ([], t) else rest

infixl 5 ◌>>=◌
abbrev pub ◌>>=◌ : {A B : Type 0} → Option A → (A → Option B) → Option B
none >>= f = none
some a >>= f = f a

unfoldable pub read_record : List (ℕ × ℕ) → Text → Option (List Text × Text)
read_record [] t = some ([], t)
read_record ((_, sep) ∷ format) t = do
  (field, rest) ← read_field sep t
  (record_fields, rest') ← read_record format rest
  some (field ∷ record_fields, rest')

-- So many records, and nothing after them.
unfoldable pub read_file : ℕ → Text → Option (List (List Text))
read_file zero [] = some []
read_file zero (c ∷ t) = none
read_file (suc n) t = do (r, rest) ← read_record format_file t; rs ← read_file n rest; some (r ∷ rs)
