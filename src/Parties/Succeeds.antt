-- ===== src/Parties/Succeeds.antt =====
-- `upsert_client` on a server that carries every statement out, with all that the payload must
-- have and no key in use: it returns, whether the client is known or not.
use observability_lab.Prelude.{
  ℕ, suc, String, none, some, true, false, Option-cases, inl, inr, List, ◌∷◌, ◌≡◌, refl, ◌∙◌, ap,
  any, find, update_where, eqb, eqb_refl, arith,
}
use observability_lab.Server.{Server, clear, same}
use observability_lab.Result.{ok}
use observability_lab.Payload.{given, subscript, ClientData}
use observability_lab.Tables.{Database, Client}
use observability_lab.Session.{Conn}
use observability_lab.Session.Succeeds.{Yields, lift-bind, execute-Yields}
use observability_lab.Sql.Parties.{merge_client, renew_client}
use observability_lab.Sql.Keys.{
  same_refl, find_sound, any_found, any-update_where, find-update_where,
}
use observability_lab.DbOps.Parties.{upsert_client}

pub record IsClientData (d : ClientData) (x n e t : String) : Type 0 where
  pub external_client_id : d.external_client_id ≡ given x
  pub name : d.name ≡ given n
  pub email : d.email ≡ given e
  pub document : d.document ≡ given t

module _ ⦃s : Server⦄ where
  -- The database finds the client of this name, with this key.
  abbrev pub IsNamed : String → String → String → String → ℕ → List Client → Type 0
  IsNamed x n e t id cs =
      (c : Client) × (find (λ r. same r.external_client_id x) cs ≡ some c)
      × (c.client_id ≡ id)
      × (c.name ≡ n)
      × (c.email ≡ e)
      × (c.document ≡ t)

  -- The call returns the key of a client, and writes no other table.
  pub record ClientDone (d : ClientData) (x n e t : String) (o : Conn) : Type 0 where
    pub key : ℕ
    pub rows : List Client
    pub yields : Yields (upsert_client d) o key (record o.db { clients = rows }) (suc o.tick)
    pub known : any (λ c. eqb key c.client_id) rows ≡ true
    pub named : IsNamed x n e t key rows

  abbrev new_client : String → String → String → String → ℕ → ℕ → Client
  new_client x n e t now id = record {
    client_id = id;
    external_client_id = x;
    name = n;
    email = e;
    document = t;
    created_at = now;
    updated_at = now;
  }

  merge_client-insert :
      (x n e t : String) (now id : ℕ) (db : Database)
      → find (λ c. same c.external_client_id x) db.clients ≡ none
      → any (λ c. eqb id c.client_id) db.clients ≡ false
      → merge_client (some x) (some n) (some e) (some t) now id db
        ≡ ok (id, record db { clients = new_client x n e t now id ∷ db.clients })
  unfolding merge_client
  merge_client-insert x n e t now id db f h = ground (arith, f, h)

  merge_client-update :
      (x n e t : String) (now id : ℕ) (db : Database) (c : Client)
      → find (λ c. same c.external_client_id x) db.clients ≡ some c
      → merge_client (some x) (some n) (some e) (some t) now id db
        ≡ ok (
          c.client_id,
          record db {
            clients =
                update_where (λ r. same r.external_client_id x) (renew_client n e t now) db.clients;
          },
        )
  unfolding merge_client
  merge_client-update x n e t now id db c f = ground (arith, f)

  renewed :
      (x n e t : String) (now : ℕ) (cs : List Client) (c : Client)
      → find (λ r. same r.external_client_id x) cs ≡ some c
      → IsNamed x n e t c.client_id
          (update_where (λ r. same r.external_client_id x) (renew_client n e t now) cs)
  renewed x n e t now cs c f = (
    renew_client n e t now c,
    rw
        (
          find-update_where (λ r. same r.external_client_id x) (λ r. same r.external_client_id x)
              (renew_client n e t now) cs (λ r. refl),
          f,
          find_sound (λ r. same r.external_client_id x) cs c f,
        )
        refl,
    refl,
    refl,
    refl,
    refl,
  )

  module _ (clears : (n : ℕ) → s.fate n ≡ clear) where
    client-Yields :
        (d : ClientData) (x n e t : String) (o : Conn) (a : ℕ) (db : Database)
        → IsClientData d x n e t
        → merge_client (some x) (some n) (some e) (some t) (s.time o.tick) (s.identity o.tick) o.db
          ≡ ok (a, db)
        → Yields (upsert_client d) o a db (suc o.tick)
    unfolding upsert_client
    client-Yields d x n e t o a db c h =
        lift-bind (subscript d.external_client_id) _ _ (some x) _
          (ap subscript c.external_client_id)
          (lift-bind (subscript d.name) _ _ (some n) _ (ap subscript c.name) (
            lift-bind (subscript d.email) _ _ (some e) _ (ap subscript c.email) (
              lift-bind (subscript d.document) _ _ (some t) _ (ap subscript c.document) (
                execute-Yields clears (merge_client (some x) (some n) (some e) (some t)) o a db
                  h))))

    pub upsert_client-Done :
        (d : ClientData) (x n e t : String) (o : Conn)
        → IsClientData d x n e t
        → any (λ c. eqb (s.identity o.tick) c.client_id) o.db.clients ≡ false
        → ClientDone d x n e t o
    upsert_client-Done d x n e t o c h =
        elim (Option-cases (find (λ c. same c.external_client_id x) o.db.clients)) [
          | inl absent ↦ record {
            key = s.identity o.tick;
            rows = new_client x n e t (s.time o.tick) (s.identity o.tick) ∷ o.db.clients;
            yields =
                client-Yields d x n e t o _ _ c
                  (merge_client-insert x n e t (s.time o.tick) (s.identity o.tick) o.db absent h);
            known = rw (eqb_refl (s.identity o.tick)) refl;
            named = (
              new_client x n e t (s.time o.tick) (s.identity o.tick),
              rw (same_refl x) refl,
              refl,
              refl,
              refl,
              refl,
            );
          }
          | inr (r, found) ↦ record {
            key = r.client_id;
            rows =
                update_where (λ c. same c.external_client_id x) (renew_client n e t (s.time o.tick))
                  o.db.clients;
            yields =
                client-Yields d x n e t o _ _ c
                  (merge_client-update x n e t (s.time o.tick) (s.identity o.tick) o.db r found);
            known =
                any-update_where (λ c. eqb r.client_id c.client_id)
                  (λ c. same c.external_client_id x) (renew_client n e t (s.time o.tick))
                  o.db.clients (λ c. refl)
                ∙ any_found (λ c. same c.external_client_id x) (λ c. eqb r.client_id c.client_id)
                    o.db.clients r found (eqb_refl r.client_id);
            named = renewed x n e t (s.time o.tick) o.db.clients r found;
          }
        ]
