-- ===== src/Generator/Pools.antt =====
-- The values of the rows against the pools that they are drawn from.
use observability_lab.Prelude.{
  ℕ, zero, suc, String, arith, ◌≡◌, refl, Option, none, some, Bool-cases, List, All, Any, ltb, min,
  ◌-◌, ◌≤◌, inl, inr,
}
use observability_lab.Generator.Rows.{
  Random, Row, regions, channels, statuses, date_range_days, draw, draw_batch, yielded,
  batches_from, generate_rows,
}

-- Each column holds a value of its pool.
pub record IsDrawn (load_batch_id : String) (row : Row) : Type 0 where
  pub client : (1 ≤ row.external_client_id) × (row.external_client_id ≤ 2000000)
  pub date : row.order_date ≤ date_range_days
  pub amount : (1500 ≤ row.total_amount) × (row.total_amount ≤ 450000)
  pub items : (1 ≤ row.item_count) × (row.item_count ≤ 12)
  pub status : Any (λ t. t ≡ row.status) statuses
  pub region : Any (λ t. t ≡ row.region) regions
  pub channel : Any (λ t. t ≡ row.channel) channels
  pub batch : row.load_batch_id ≡ load_batch_id

abbrev pub AllDrawn : String → Option (List (List Row)) → Type 0
AllDrawn load_batch_id none = Unit
AllDrawn load_batch_id (some bs) = All (λ b. All (IsDrawn load_batch_id) b) bs

module _ (r : Random) (load_batch_id : String) where
  draw-IsDrawn : (seq : ℕ) (g : r.Rng) → IsDrawn load_batch_id (draw r load_batch_id seq g).0
  unfolding draw
  draw-IsDrawn seq g = record {
    client = r.randint_range 1 2000000 _ (omega arith);
    date = (r.randint_range 0 date_range_days _ (omega arith)).1;
    amount = r.uniform_range 1500 450000 _ (omega arith);
    items = r.randint_range 1 12 _ (omega arith);
    status = r.choice_member _ _ _;
    region = r.choice_member _ _ _;
    channel = r.choice_member _ _ _;
    batch = refl;
  }

  draw_batch-IsDrawn :
      (n seq : ℕ) (g : r.Rng) → All (IsDrawn load_batch_id) (draw_batch r load_batch_id n seq g).0
  draw_batch-IsDrawn zero seq g = tt
  draw_batch-IsDrawn (suc n) seq g = (draw-IsDrawn seq g, draw_batch-IsDrawn n (suc seq) _)

  yielded-AllDrawn :
      (batch : List Row) (rest : Option (List (List Row)))
      → All (IsDrawn load_batch_id) batch
      → AllDrawn load_batch_id rest
      → AllDrawn load_batch_id (yielded r load_batch_id batch rest)
  yielded-AllDrawn batch none h k = tt
  yielded-AllDrawn batch (some bs) h k = (h, k)

  batches-AllDrawn :
      (turns total_rows batch_size produced : ℕ) (g : r.Rng)
      → AllDrawn load_batch_id (batches_from r load_batch_id turns total_rows batch_size produced g)
  batches-AllDrawn zero total_rows batch_size produced g =
      elim (Bool-cases (ltb produced total_rows)) [ inl e ↦ rw e tt | inr e ↦ rw e tt ]
  batches-AllDrawn (suc turns) total_rows batch_size produced g =
      elim (Bool-cases (ltb produced total_rows)) [
        | inr e ↦ rw e tt
        | inl e ↦ rw e (
            yielded-AllDrawn _ _
              (draw_batch-IsDrawn (min batch_size (total_rows - produced)) produced g)
              (batches-AllDrawn turns total_rows batch_size _ _))
      ]

  -- Every row that is yielded has a closed status, a region and a channel of the lists, a date from
  -- 2019 to 2025, an amount from 15.00 to 4500.00, 1 to 12 items and the id of its load.
  pub generate_rows-AllDrawn :
      (total_rows batch_size : ℕ) (g : r.Rng)
      → AllDrawn load_batch_id (generate_rows r load_batch_id total_rows batch_size g)
  unfolding generate_rows
  generate_rows-AllDrawn total_rows batch_size g =
      batches-AllDrawn total_rows total_rows batch_size 0 g
