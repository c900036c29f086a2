-- ===== src/Sql/Parties.antt =====
-- The statements of `upsert_client` and `upsert_current_address`.
use observability_lab.Prelude.{
  ℕ, String, Option, none, some, Bool, true, false, not, ◌&&◌, ◌∷◌, any, find, update_where, eqb,
}
use observability_lab.Server.{Server, same}
use observability_lab.Result.{Result, ok, ◌>>=◌, ◌>>◌, raise_if, not_null, integrity_error}
use observability_lab.Payload.{Place}
use observability_lab.Tables.{Database, Client, Address}
use observability_lab.Session.{Statement}

-- A row with this key is there: the primary key, and the foreign keys that name it.
abbrev pub is_client : ℕ → Database → Bool
is_client id db = any (λ c. eqb id c.client_id) db.clients

abbrev pub is_address : ℕ → Database → Bool
is_address id db = any (λ a. eqb id a.address_id) db.address

module _ ⦃s : Server⦄ where
  -- WHEN NOT MATCHED THEN INSERT
  abbrev pub insert_client : String → String → String → String → Statement ℕ
  insert_client x n e d now id db = do
    raise_if (is_client id db) integrity_error
    ok (
      id,
      record db {
        clients =
            record {
              client_id = id;
              external_client_id = x;
              name = n;
              email = e;
              document = d;
              created_at = now;
              updated_at = now;
            }
            ∷ db.clients;
      },
    )

  -- WHEN MATCHED THEN UPDATE
  abbrev pub renew_client : String → String → String → ℕ → Client → Client
  renew_client n e d now c = record c { name = n; email = e; document = d; updated_at = now }

  unfoldable pub merge_client :
      Option String → Option String → Option String → Option String → Statement ℕ
  merge_client external_client_id name email document now id db = do
    x ← not_null external_client_id
    n ← not_null name
    e ← not_null email
    d ← not_null document
    elim (find (λ c. same c.external_client_id x) db.clients) [
      | none ↦ insert_client x n e d now id db
      | some c ↦ ok (
        c.client_id,
        record db {
          clients =
              update_where (λ c'. same c'.external_client_id x) (renew_client n e d now) db.clients;
        },
      )
    ]

  -- The current version of an address.
  abbrev pub is_current_of : ℕ → String → Address → Bool
  is_current_of client_id x a =
      a.is_current && (eqb a.client_id client_id && same x a.external_address_id)

  unfoldable pub select_current : ℕ → Option String → Statement (Option Address)
  select_current client_id none now _ db = ok (none, db)
  select_current client_id (some x) now _ db = ok (find (is_current_of client_id x) db.address, db)

  abbrev pub expire : ℕ → Address → Address
  expire now a = record a { valid_to = some now; is_current = false }

  unfoldable pub expire_address : ℕ → Statement (Unit {0})
  expire_address address_id now _ db = ok (
    tt,
    record db { address = update_where (λ a. eqb a.address_id address_id) (expire now) db.address },
  )

  -- All the columns of the place but `complement` are NOT NULL.
  abbrev pub check_place : Place (Option String) → Result (Unit {0})
  check_place p = do
    street ← not_null p.street
    number ← not_null p.number
    neighborhood ← not_null p.neighborhood
    city ← not_null p.city
    state ← not_null p.state
    postal_code ← not_null p.postal_code
    country ← not_null p.country
    ok tt

  -- The last test is the filtered unique index `uq_address_current_per_client`.
  unfoldable pub insert_address : ℕ → Option String → Place (Option String) → Statement ℕ
  insert_address client_id external_address_id place now id db = do
    x ← not_null external_address_id
    check_place place
    raise_if (not (is_client client_id db)) integrity_error
    raise_if (is_address id db) integrity_error
    raise_if (any (is_current_of client_id x) db.address) integrity_error
    ok (
      id,
      record db {
        address =
            record {
              address_id = id;
              client_id = client_id;
              external_address_id = x;
              place = place;
              valid_from = now;
              valid_to = none;
              is_current = true;
              created_at = now;
            }
            ∷ db.address;
      },
    )
