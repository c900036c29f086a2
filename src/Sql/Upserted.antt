-- ===== src/Sql/Upserted.antt =====
-- The tables that a MERGE with one row leaves, and the two statements that send one.
use observability_lab.Prelude.{
  ℕ, String, Option, none, some, Bool, true, false, Bool-cases, Option-cases, inl, inr, ◌⊎◌, List,
  ◌∷◌, ◌≡◌, refl, ◌∙◌, sym, ap, any, find, update_where, eqb, if◌then◌else◌,
}
use mathlib.Core.Path.{fun_ext, subst}
use observability_lab.Server.{Server, same}
use observability_lab.Result.{ok}
use observability_lab.Tables.{
  Database, Payment, Invoice, payment_status_check, invoice_status_check,
}
use observability_lab.Sql.Orders.{is_order}
use observability_lab.Sql.Billing.{renew_payment, merge_payment, renew_invoice, merge_invoice}
use observability_lab.Sql.Keys.{same_sym, same_left, find_sound, find-same, find-update_where}

module _ ⦃s : Server⦄ {A : Type 0} (key : A → String) where
  -- The row with this key, if there is one.
  abbrev pub row_of : List A → String → Option A
  row_of rows z = find (λ r. same z (key r)) rows

  abbrev pub upsert_at : (A → Bool) → (A → A) → A → List A → Option A → List A
  upsert_at q f row rows none = row ∷ rows
  upsert_at q f row rows (some _) = update_where q f rows

  abbrev pub upserted : String → (A → A) → A → List A → List A
  upserted y f row rows =
      let q : A → Bool = λ r. same (key r) y in upsert_at q f row rows (find q rows)

  -- The row that the MERGE leaves.
  abbrev pub upserted_row : (A → A) → A → Option A → A
  upserted_row f row none = row
  upserted_row f row (some r) = f r

  turned : (y : String) → ◌≡◌ {A = A → Bool} (λ r. same (key r) y) (λ r. same y (key r))
  turned y = fun_ext λ r. same_sym (key r) y

  module _ (y : String) (f : A → A) (row : A) (rows : List A) (keeps : (r : A) → key (f r) ≡ key r)
      (keyed : key row ≡ y) where
    -- Another key finds what it found.
    passed :
        (z : String) (r : A) → same z (key r) ≡ true → same z y ≡ false → same y (key r) ≡ false
    passed z r h e = same_sym y (key r) ∙ sym (same_left z (key r) y h) ∙ e

    inserted : (z : String) → row_of (row ∷ rows) z ≡ (if same z y then some row else row_of rows z)
    inserted z = ap (λ (t : String). if same z t then some row else row_of rows z) keyed

    renewed :
        (z : String) (r : A)
        → row_of rows y ≡ some r
        → row_of (update_where (λ r. same y (key r)) f rows) z
          ≡ (if same z y then some (f r) else row_of rows z)
    renewed z r h =
        find-update_where (λ r. same z (key r)) (λ r. same y (key r)) f rows
          (λ r. ap (λ (t : String). same z t) (keeps r))
        ∙ found (Bool-cases (same z y)) (Option-cases (row_of rows z))
      where
        found :
            (same z y ≡ true) ⊎ (same z y ≡ false)
            → (row_of rows z ≡ none) ⊎ ((q : A) × (row_of rows z ≡ some q))
            → (elim (row_of rows z) [
              | none ↦ none
              | some q ↦ some (if same y (key q) then f q else q)
            ])
              ≡ (if same z y then some (f r) else row_of rows z)
        found (inl e) _ =
            rw (e, find-same key rows z y e, h, find_sound (λ q. same y (key q)) rows r h) refl
        found (inr e) (inl g) = rw (e, g) refl
        found (inr e) (inr (q, g)) =
            rw (e, g, passed z q (find_sound (λ q. same z (key q)) rows q g) e) refl

    -- By its key, the MERGE changes one row, or adds it.
    pub row_of-upserted :
        row_of (upserted y f row rows)
        ≡ (λ z. if same z y then some (upserted_row f row (row_of rows y)) else row_of rows z)
    row_of-upserted = fun_ext λ z.
        subst
          (λ (q : A → Bool).
            row_of (upsert_at q f row rows (find q rows)) z
            ≡ (if same z y then some (upserted_row f row (row_of rows y)) else row_of rows z))
          (sym (turned y))
          (elim (Option-cases (row_of rows y)) [
            | inl e ↦ rw e (inserted z)
            | inr (r, e) ↦ rw e (renewed z r e)
          ])

module _ ⦃s : Server⦄ where
  abbrev pub new_payment : ℕ → String → ℕ → String → String → ℕ → Option ℕ → ℕ → Payment
  new_payment id y o m t a paid_at now = record {
    payment_id = id;
    external_payment_id = y;
    order_id = o;
    method = m;
    status = t;
    amount = a;
    paid_at = paid_at;
    created_at = now;
    updated_at = now;
  }

  abbrev pub new_invoice : ℕ → String → ℕ → String → ℕ → ℕ → String → Option String → ℕ → Invoice
  new_invoice id y o n i a t pdf_url now = record {
    invoice_id = id;
    external_invoice_id = y;
    order_id = o;
    invoice_number = n;
    issued_at = i;
    amount = a;
    status = t;
    pdf_url = pdf_url;
    created_at = now;
  }

  pub merge_payment-upserted :
      (y m t : String) (o a : ℕ) (v : Option ℕ) (now id : ℕ) (db : Database)
      → payment_status_check t ≡ true
      → is_order o db ≡ true
      → any (λ p. eqb id p.payment_id) db.payment ≡ false
      → merge_payment (some y) o (some m) (some t) (some a) v now id db
        ≡ ok (
          tt,
          record db {
            payment =
                upserted
                  (λ p. p.external_payment_id)
                  y
                  (renew_payment t a v now)
                  (new_payment id y o m t a v now)
                  db.payment;
          },
        )
  unfolding merge_payment
  merge_payment-upserted y m t o a v now id db allowed known fresh =
      elim (Option-cases (find (λ p. same p.external_payment_id y) db.payment)) [
        | inl e ↦ rw (allowed, e, known, fresh) refl
        | inr (p, e) ↦ rw (allowed, e) refl
      ]

  pub merge_invoice-upserted :
      (y n t : String) (o i a : ℕ) (u : Option String) (now id : ℕ) (db : Database)
      → invoice_status_check t ≡ true
      → is_order o db ≡ true
      → any (λ v. eqb id v.invoice_id) db.invoices ≡ false
      → merge_invoice (some y) o (some n) (some i) (some a) (some t) u now id db
        ≡ ok (
          tt,
          record db {
            invoices =
                upserted
                  (λ v. v.external_invoice_id)
                  y
                  (renew_invoice t a u)
                  (new_invoice id y o n i a t u now)
                  db.invoices;
          },
        )
  unfolding merge_invoice
  merge_invoice-upserted y n t o i a u now id db allowed known fresh =
      elim (Option-cases (find (λ v. same v.external_invoice_id y) db.invoices)) [
        | inl e ↦ rw (allowed, e, known, fresh) refl
        | inr (v, e) ↦ rw (allowed, e) refl
      ]
