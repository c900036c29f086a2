-- ===== src/Sql/Billing.antt =====
-- The statements of `upsert_payment` and `upsert_invoice`.
use observability_lab.Prelude.{
  ℕ, String, Option, none, some, not, ◌∷◌, any, find, update_where, eqb,
}
use observability_lab.Server.{Server, same}
use observability_lab.Result.{ok, ◌>>=◌, ◌>>◌, raise_if, not_null, integrity_error}
use observability_lab.Tables.{Payment, Invoice, payment_status_check, invoice_status_check}
use observability_lab.Session.{Statement}
use observability_lab.Sql.Orders.{is_order}

module _ ⦃s : Server⦄ where
  abbrev pub renew_payment : String → ℕ → Option ℕ → ℕ → Payment → Payment
  renew_payment t a paid_at now p = record p {
    status = t;
    amount = a;
    paid_at = paid_at;
    updated_at = now;
  }

  -- The columns that only the INSERT writes.
  abbrev pub insert_payment :
      String → ℕ → Option String → String → ℕ → Option ℕ → Statement (Unit {0})
  insert_payment x order_id method t a paid_at now id db = do
    m ← not_null method
    raise_if (not (is_order order_id db)) integrity_error
    raise_if (any (λ p. eqb id p.payment_id) db.payment) integrity_error
    ok (
      tt,
      record db {
        payment =
            record {
              payment_id = id;
              external_payment_id = x;
              order_id = order_id;
              method = m;
              status = t;
              amount = a;
              paid_at = paid_at;
              created_at = now;
              updated_at = now;
            }
            ∷ db.payment;
      },
    )

  unfoldable pub merge_payment :
      Option String → ℕ → Option String → Option String → Option ℕ → Option ℕ → Statement (Unit {0})
  merge_payment external_payment_id order_id method status amount paid_at now id db = do
    x ← not_null external_payment_id
    t ← not_null status
    a ← not_null amount
    raise_if (not (payment_status_check t)) integrity_error
    elim (find (λ p. same p.external_payment_id x) db.payment) [
      | none ↦ insert_payment x order_id method t a paid_at now id db
      | some _ ↦ ok (
        tt,
        record db {
          payment =
              update_where (λ p. same p.external_payment_id x) (renew_payment t a paid_at now)
                db.payment;
        },
      )
    ]

  abbrev pub renew_invoice : String → ℕ → Option String → Invoice → Invoice
  renew_invoice t a pdf_url i = record i { status = t; amount = a; pdf_url = pdf_url }

  abbrev pub insert_invoice :
      String → ℕ → Option String → Option ℕ → ℕ → String → Option String → Statement (Unit {0})
  insert_invoice x order_id invoice_number issued_at a t pdf_url now id db = do
    n ← not_null invoice_number
    i ← not_null issued_at
    raise_if (not (is_order order_id db)) integrity_error
    raise_if (any (λ v. eqb id v.invoice_id) db.invoices) integrity_error
    ok (
      tt,
      record db {
        invoices =
            record {
              invoice_id = id;
              external_invoice_id = x;
              order_id = order_id;
              invoice_number = n;
              issued_at = i;
              amount = a;
              status = t;
              pdf_url = pdf_url;
              created_at = now;
            }
            ∷ db.invoices;
      },
    )

  unfoldable pub merge_invoice :
      Option String
      → ℕ
      → Option String
      → Option ℕ
      → Option ℕ
      → Option String
      → Option String
      → Statement (Unit {0})
  merge_invoice external_invoice_id order_id invoice_number issued_at amount status pdf_url now id
        db =
      do
        x ← not_null external_invoice_id
        a ← not_null amount
        t ← not_null status
        raise_if (not (invoice_status_check t)) integrity_error
        elim (find (λ i. same i.external_invoice_id x) db.invoices) [
          | none ↦ insert_invoice x order_id invoice_number issued_at a t pdf_url now id db
          | some _ ↦ ok (
            tt,
            record db {
              invoices =
                  update_where (λ i. same i.external_invoice_id x) (renew_invoice t a pdf_url)
                    db.invoices;
            },
          )
        ]
