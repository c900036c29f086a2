-- ===== src/DbOps/Parties.antt =====
-- `upsert_client` and `upsert_current_address` of services/ingestion_consumer/app/db_ops.py.
use observability_lab.Prelude.{
  ℕ, String, ◌==◌, Option, none, some, Bool, true, false, ◌&&◌, if◌then◌else◌,
}
use observability_lab.Server.{Server}
use observability_lab.Payload.{Field, subscript, get, ClientData, Place, AddressData}
use observability_lab.Tables.{Address}
use observability_lab.Session.{Tx, pure, lift, execute, ◌>>=◌, ◌>>◌}
use observability_lab.Sql.Parties.{merge_client, select_current, expire_address, insert_address}

-- `v or None`
abbrev pub or_none : Option String → Option String
or_none none = none
or_none (some t) = if t == "" then none else some t

-- `==` of Python on texts and None
abbrev pub opt_eq : Option String → Option String → Bool
opt_eq none none = true
opt_eq (some a) (some b) = a == b
opt_eq _ _ = false

-- `(current[f] or None) == (address.get(f) or None)`
abbrev pub alike : Option String → Field String → Bool
alike current f = opt_eq (or_none current) (or_none (get f))

-- `all(… for f in fields)`
unfoldable pub unchanged : Place (Option String) → Place (Field String) → Bool
unchanged p q =
    alike p.street q.street
    && (alike p.number q.number
        && (alike p.complement q.complement
            && (alike p.neighborhood q.neighborhood
                && (alike p.city q.city
                    && (alike p.state q.state
                        && (alike p.postal_code q.postal_code && alike p.country q.country))))))

-- `{f: address.get(f) for f in fields}`
abbrev pub place_values : Place (Field String) → Place (Option String)
place_values p = record {
  street = get p.street;
  number = get p.number;
  complement = get p.complement;
  neighborhood = get p.neighborhood;
  city = get p.city;
  state = get p.state;
  postal_code = get p.postal_code;
  country = get p.country;
}

module _ ⦃s : Server⦄ where
  unfoldable pub upsert_client : ClientData → Tx ℕ
  upsert_client d = do
    external_client_id ← lift (subscript d.external_client_id)
    name ← lift (subscript d.name)
    email ← lift (subscript d.email)
    document ← lift (subscript d.document)
    execute (merge_client external_client_id name email document)

  abbrev pub insert_version : ℕ → Option String → Place (Field String) → Tx ℕ
  insert_version client_id x p = execute (insert_address client_id x (place_values p))

  -- from `if current is not None:` on
  abbrev pub revise : ℕ → Option String → Place (Field String) → Option Address → Tx ℕ
  revise client_id x p none = insert_version client_id x p
  revise client_id x p (some a) =
      if unchanged a.place p
      then pure a.address_id
      else (execute (expire_address a.address_id) >> insert_version client_id x p)

  unfoldable pub upsert_current_address : ℕ → AddressData → Tx ℕ
  upsert_current_address client_id d = do
    external_address_id ← lift (subscript d.external_address_id)
    current ← execute (select_current client_id external_address_id)
    revise client_id external_address_id d.place current
