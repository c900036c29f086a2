-- ===== src/Consumer/Bought/Lists.antt =====
-- The rows that a test finds among those of an order just created.
use observability_lab.Prelude.{
  ℕ, suc, some, Bool, true, false, ◌&&◌, Bool-cases, Option-cases, inl, inr, List, [], ◌∷◌, ◌≡◌,
  refl, ◌∙◌, ap, any, find, filter, eqb, eqb_refl, eqb_iff, All, arith, if◌then◌else◌,
}
use observability_lab.Tables.{Order, OrderItem}
use observability_lab.Sql.Stored.{Line, item_row, stored}
use observability_lab.Parties.Expiry.{any-none}

pub any-some :
    {A : Type 0} (p : A → Bool) (xs : List A) → any p xs ≡ true → (x : A) × (find p xs ≡ some x)
any-some p xs h = elim (Option-cases (find p xs)) [
  | inl e ↦ ground (arith, any-none p xs e, h)
  | inr e ↦ e
]

pub any_and :
    {A : Type 0} (p q : A → Bool) (xs : List A)
    → any p xs ≡ false
    → any (λ x. p x && q x) xs ≡ false
any_and p q [] h = refl
any_and p q (x ∷ xs) h = ground (arith, any_and p q xs)

-- The rows of the lines are the order's,
pub filter-stored :
    (o id : ℕ) (ls : List Line) (rows : List OrderItem)
    → filter (λ i. eqb i.order_id o) (stored o id ls rows)
      ≡ stored o id ls (filter (λ i. eqb i.order_id o) rows)
filter-stored o id [] rows = refl
filter-stored o id (l ∷ ls) rows =
    filter-stored o (suc id) ls (item_row o id l ∷ rows)
    ∙ ap
        (λ (b : Bool). stored o (suc id) ls (
          if b
          then item_row o id l ∷ filter (λ i. eqb i.order_id o) rows
          else filter (λ i. eqb i.order_id o) rows))
        (eqb_refl o)

-- and the others are of other orders.
pub filter-linked :
    (o : ℕ) (os : List Order) (rows : List OrderItem)
    → any (λ r. eqb o r.order_id) os ≡ false
    → All (λ i. any (λ r. eqb i.order_id r.order_id) os ≡ true) rows
    → filter (λ i. eqb i.order_id o) rows ≡ []
filter-linked o os [] h k = refl
filter-linked o os (i ∷ rows) h (k, ks) = elim (Bool-cases (eqb i.order_id o)) [
  | inl e ↦ ground (
    arith,
    (eqb_iff i.order_id o).0 e,
    ap (λ (m : ℕ). any (λ (r : Order). eqb m r.order_id) os) ((eqb_iff i.order_id o).0 e),
    h,
    k,
  )
  | inr e ↦ rw e (filter-linked o os rows h ks)
]
