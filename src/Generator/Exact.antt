-- ===== src/Generator/Exact.antt =====
-- The batches: their sizes, their numbering, and the loop's end.
use observability_lab.Prelude.{
  ℕ, zero, suc, String, arith, ◌≡◌, refl, ap, Option, none, some, true, false, Bool-cases, List, [],
  ◌∷◌, ◌++◌, map, length, All, ltb, min, ◌+◌, ◌-◌, ◌≤◌, ◌<◌, inl, inr,
}
use mathlib.Core.Path.{subst}
use observability_lab.Generator.Rows.{
  Random, Row, draw, draw_batch, yielded, batches_from, generate_rows,
}

-- `n` numbers from `a` on
abbrev pub range : ℕ → ℕ → List ℕ
range zero a = []
range (suc n) a = a ∷ range n (suc a)

range_join : (m n a : ℕ) → range m a ++ range n (a + m) ≡ range (m + n) a
range_join zero n a =
    let e : a + 0 ≡ a = omega arith in let f : 0 + n ≡ n = omega arith in rw (e, f) refl
range_join (suc m) n a =
    let e : a + suc m ≡ suc a + m = omega arith in
    let f : suc m + n ≡ suc (m + n) = omega arith in
    rw (e, f) (ap (λ (l : List ℕ). a ∷ l) (range_join m n (suc a)))

abbrev pub numbers : List (List Row) → List ℕ
numbers [] = []
numbers (b ∷ bs) = map (λ r. r.external_order_id) b ++ numbers bs

ltb-lt : (a b : ℕ) → ltb a b ≡ true → a < b
ltb-lt a b e = ground arith

ltb-le : (a b : ℕ) → ltb a b ≡ false → b ≤ a
ltb-le a b e = ground arith

le-ltb : (a b : ℕ) → b ≤ a → ltb a b ≡ false
le-ltb a b h = ground arith

-- Batches of 1 to `batch_size` rows, numbered from `produced` on without a gap, `n` rows in all.
abbrev pub IsExact : ℕ → ℕ → ℕ → Option (List (List Row)) → Type 0
IsExact batch_size produced n none = ⊥
IsExact batch_size produced n (some bs) =
    All (λ b. (1 ≤ length b) × (length b ≤ batch_size)) bs × (numbers bs ≡ range n produced)

finished :
    (batch_size produced total_rows : ℕ)
    → total_rows ≤ produced
    → IsExact batch_size produced (total_rows - produced) (some [])
finished batch_size produced total_rows h =
    let e : total_rows - produced ≡ 0 = omega (arith, h) in (tt, rw e refl)

-- One turn's rows.
turn_sizes :
    (b left : ℕ) → 1 ≤ b → 1 ≤ left → (1 ≤ min b left) × (min b left ≤ b) × (min b left ≤ left)
turn_sizes b left h k = grind arith

module _ (r : Random) (load_batch_id : String) where
  draw-seq : (seq : ℕ) (g : r.Rng) → (draw r load_batch_id seq g).0.external_order_id ≡ seq
  unfolding draw
  draw-seq seq g = refl

  draw_batch-numbers :
      (n seq : ℕ) (g : r.Rng)
      → map (λ (x : Row). x.external_order_id) (draw_batch r load_batch_id n seq g).0 ≡ range n seq
  draw_batch-numbers zero seq g = refl
  draw_batch-numbers (suc n) seq g =
      rw (draw-seq seq g, draw_batch-numbers n (suc seq) (draw r load_batch_id seq g).1) refl

  draw_batch-length : (n seq : ℕ) (g : r.Rng) → length (draw_batch r load_batch_id n seq g).0 ≡ n
  draw_batch-length zero seq g = refl
  draw_batch-length (suc n) seq g = ap suc (draw_batch-length n (suc seq) _)

  yielded-IsExact :
      (batch_size produced n k m : ℕ) (batch : List Row) (rest : Option (List (List Row)))
      → (1 ≤ n) × (n ≤ batch_size) × (n + k ≡ m)
      → length batch ≡ n
      → map (λ (x : Row). x.external_order_id) batch ≡ range n produced
      → IsExact batch_size (produced + n) k rest
      → IsExact batch_size produced m (yielded r load_batch_id batch rest)
  yielded-IsExact batch_size produced n k m batch none sizes l e h = h
  yielded-IsExact batch_size produced n k m batch (some bs) sizes l e h = (
    ((omega (arith, sizes.0, l), omega (arith, sizes.1, l)), h.0),
    rw (e, h.1, range_join n k produced, sizes.2) refl,
  )

  batches-IsExact :
      (turns total_rows batch_size produced : ℕ) (g : r.Rng)
      → 1 ≤ batch_size
      → produced ≤ total_rows
      → total_rows ≤ turns + produced
      → IsExact batch_size produced
          (total_rows - produced)
          (batches_from r load_batch_id turns total_rows batch_size produced g)
  batches-IsExact zero total_rows batch_size produced g b p t =
      rw (le-ltb produced total_rows (omega (arith, t)))
        (finished batch_size produced total_rows (omega (arith, t)))
  batches-IsExact (suc turns) total_rows batch_size produced g b p t =
      elim (Bool-cases (ltb produced total_rows)) [
        | inr e ↦ rw e (finished batch_size produced total_rows (ltb-le produced total_rows e))
        | inl e ↦
            let n : ℕ = min batch_size (total_rows - produced) in
            let more : produced < total_rows = ltb-lt produced total_rows e in
            let z = turn_sizes batch_size (total_rows - produced) b (omega (arith, more)) in
            rw e (
              yielded-IsExact batch_size produced n (total_rows - (produced + n))
                (total_rows - produced) (draw_batch r load_batch_id n produced g).0 _
                (z.0, z.1, omega (arith, z.2, p)) (draw_batch-length n produced g)
                (draw_batch-numbers n produced g)
                (batches-IsExact turns total_rows batch_size (produced + n)
                  (draw_batch r load_batch_id n produced g).1 b (omega (arith, z.2, p))
                  (omega (arith, z.0, t))))
      ]

  -- With batches of at least one row, the generator ends within as many turns as there are rows.
  -- It yields batches of 1 to `batch_size` rows, numbered from 0 without a gap or a repetition, and
  -- as many rows as were asked for.
  pub generate_rows-IsExact :
      (total_rows batch_size : ℕ) (g : r.Rng)
      → 1 ≤ batch_size
      → IsExact batch_size 0 total_rows (generate_rows r load_batch_id total_rows batch_size g)
  unfolding generate_rows
  generate_rows-IsExact total_rows batch_size g b =
      let e : total_rows - 0 ≡ total_rows = omega arith in
      subst
        (λ n.
          IsExact batch_size 0 n
            (batches_from r load_batch_id total_rows total_rows batch_size 0 g))
        e (batches-IsExact total_rows total_rows batch_size 0 g b (omega arith) (omega arith))

  -- With a batch size of 0 and rows to produce, no number of turns ends the loop.
  batches_endless :
      (turns total_rows : ℕ) (g : r.Rng)
      → 1 ≤ total_rows
      → batches_from r load_batch_id turns total_rows 0 0 g ≡ none
  batches_endless zero total_rows g h = ground arith
  batches_endless (suc turns) total_rows g h =
      let z : min 0 (total_rows - 0) ≡ 0 = grind arith in
      let l : ltb 0 total_rows ≡ true = ground arith in
      rw (z, l, batches_endless turns total_rows g h) refl
