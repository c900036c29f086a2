-- ===== src/Generator/Rows.antt =====
-- `generate_rows`, as the list of what it yields.
use observability_lab.Prelude.{
  ℕ, zero, suc, String, Option, none, some, List, [], ◌∷◌, ltb, min, ◌+◌, ◌-◌, ◌≤◌, Any, ◌≡◌,
  if◌then◌else◌,
}

abbrev pub regions : List String
regions = "N" ∷ "NE" ∷ "CO" ∷ "SE" ∷ "S" ∷ []

abbrev pub channels : List String
channels = "WEB" ∷ "MOBILE_APP" ∷ "MARKETPLACE" ∷ "PHONE" ∷ []

abbrev pub statuses : List String
statuses = "DELIVERED" ∷ "CANCELLED" ∷ "CLOSED" ∷ []

-- from 2019-01-01 to 2025-12-31
abbrev pub date_range_days : ℕ
date_range_days = 2556

-- `random.Random`: each call gives a value and the generator's next state. The laws are the
-- documented ranges.
pub record Random : Type 1 where
  pub Rng : Type 0
  pub randint : ℕ → ℕ → Rng → ℕ × Rng
  pub choice : List String → Rng → String × Rng
  -- `round(rng.uniform(a, b), 2)`, in hundredths
  pub uniform : ℕ → ℕ → Rng → ℕ × Rng
  pub randint_range :
      (a b : ℕ) (g : Rng) → a ≤ b → (a ≤ (randint a b g).0) × ((randint a b g).0 ≤ b)
  pub choice_member :
      (x : String) (xs : List String) (g : Rng) → Any (λ y. y ≡ (choice (x ∷ xs) g).0) (x ∷ xs)
  pub uniform_range :
      (a b : ℕ) (g : Rng) → a ≤ b → (a ≤ (uniform a b g).0) × ((uniform a b g).0 ≤ b)

pub record Row : Type 0 where
  -- the number in `HIST-…`
  pub external_order_id : ℕ
  -- the number in `CLIENT-…`
  pub external_client_id : ℕ
  -- days since 2019-01-01
  pub order_date : ℕ
  pub status : String
  pub total_amount : ℕ
  pub region : String
  pub channel : String
  pub item_count : ℕ
  pub load_batch_id : String

module _ (r : Random) (load_batch_id : String) where
  -- The values of a row are drawn in the order of its columns.
  unfoldable pub draw : ℕ → r.Rng → Row × r.Rng
  draw seq g0 =
      let (client, g1) = r.randint 1 2000000 g0 in
      let (date, g2) = r.randint 0 date_range_days g1 in
      let (status, g3) = r.choice statuses g2 in
      let (amount, g4) = r.uniform 1500 450000 g3 in
      let (region, g5) = r.choice regions g4 in
      let (channel, g6) = r.choice channels g5 in
      let (items, g7) = r.randint 1 12 g6 in
      (
        record {
          external_order_id = seq;
          external_client_id = client;
          order_date = date;
          status = status;
          total_amount = amount;
          region = region;
          channel = channel;
          item_count = items;
          load_batch_id = load_batch_id;
        },
        g7,
      )

  -- `for i in range(n)`
  abbrev pub draw_batch : ℕ → ℕ → r.Rng → List Row × r.Rng
  draw_batch zero seq g = ([], g)
  draw_batch (suc n) seq g =
      let (row, g1) = draw seq g in let (rows, g2) = draw_batch n (suc seq) g1 in (row ∷ rows, g2)

  abbrev pub yielded : List Row → Option (List (List Row)) → Option (List (List Row))
  yielded batch none = none
  yielded batch (some batches) = some (batch ∷ batches)

  -- `while produced < total_rows`, with the turns that it may take; none if they do not suffice
  abbrev pub batches_from : ℕ → ℕ → ℕ → ℕ → r.Rng → Option (List (List Row))
  batches_from zero total_rows batch_size produced g =
      if ltb produced total_rows then none else some []
  batches_from (suc turns) total_rows batch_size produced g =
      let n = min batch_size (total_rows - produced) in
      let (batch, g') = draw_batch n produced g in
      let rest = batches_from turns total_rows batch_size (produced + n) g' in
      if ltb produced total_rows then yielded batch rest else some []

  -- The loop with as many turns as there are rows.
  unfoldable pub generate_rows : ℕ → ℕ → r.Rng → Option (List (List Row))
  generate_rows total_rows batch_size g = batches_from total_rows total_rows batch_size 0 g
