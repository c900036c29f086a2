-- ===== src/Parties/Placed.antt =====
-- `upsert_current_address` on a server that carries every statement out, with all that the payload
-- must have and no key in use: it returns, on each of its branches.
use observability_lab.Prelude.{
  ℕ, suc, String, Option, none, some, true, false, Bool-cases, inl, inr, List, ◌∷◌, ◌≡◌, ◌≤◌, refl,
  ◌∙◌, ap, any, find, update_where, eqb, eqb_refl, arith,
}
use mathlib.Core.Path.{subst}
use observability_lab.Server.{Server, clear}
use observability_lab.Result.{ok}
use observability_lab.Payload.{given, subscript, Field, Place, AddressData}
use observability_lab.Tables.{Database, Address}
use observability_lab.Session.{Conn, pure, execute}
use observability_lab.Session.Rules.{Post}
use observability_lab.Session.Succeeds.{after, From, Yields, Yields-bind, lift-bind, execute-Yields}
use observability_lab.Sql.Parties.{
  is_client, is_address, is_current_of, select_current, expire, expire_address, check_place,
  insert_address,
}
use observability_lab.Sql.Keys.{any_found, any-update_where}
use observability_lab.DbOps.Parties.{unchanged, place_values, revise, upsert_current_address}
use observability_lab.Parties.History.{IsVersioned}
use observability_lab.Parties.Upsert.{
  version, IsCurrentVersion, upsert_current_address-IsCurrentVersion,
}
use observability_lab.Parties.Expiry.{expired_none, any-none}

module _ ⦃s : Server⦄ where
  -- The call returns the key of the current version, and writes no other table.
  pub record AddressDone (c : ℕ) (d : AddressData) (x : String) (o : Conn) : Type 0 where
    pub key : ℕ
    pub rows : List Address
    pub tick : ℕ
    pub yields : Yields (upsert_current_address c d) o key (record o.db { address = rows }) tick
    pub later : o.tick ≤ tick
    pub known : any (λ a. eqb key a.address_id) rows ≡ true

  insert_address-new :
      (c : ℕ) (x : String) (p : Place (Field String)) (now id : ℕ) (db : Database)
      → check_place (place_values p) ≡ ok tt
      → is_client c db ≡ true
      → is_address id db ≡ false
      → any (is_current_of c x) db.address ≡ false
      → insert_address c (some x) (place_values p) now id db
        ≡ ok (id, record db { address = version c x (place_values p) now id ∷ db.address })
  unfolding insert_address
  insert_address-new c x p now id db h i j k = rw (h, i, j, k) refl

  module _ (clears : (n : ℕ) → s.fate n ≡ clear) (c : ℕ) (x : String) (p : Place (Field String))
      (o : Conn) (complete : check_place (place_values p) ≡ ok tt)
      (client : is_client c o.db ≡ true) (versioned : IsVersioned o.db.address)
      (fresh : From (λ m. is_address (s.identity m) o.db ≡ false) o.tick) where
    -- the connection after the SELECT, and after the UPDATE
    abbrev selected : Conn
    selected = record { db = o.db; tick = suc o.tick }

    abbrev ended : Address → Database
    ended a = record o.db {
      address =
          update_where (λ r. eqb r.address_id a.address_id) (expire (s.time (suc o.tick)))
            o.db.address;
    }

    -- The call from the SELECT on.
    record Revised (r : Option Address) : Type 0 where
      key : ℕ
      rows : List Address
      tick : ℕ
      yields : Yields (revise c (some x) p r) selected key (record o.db { address = rows }) tick
      later : o.tick ≤ tick
      known : any (λ a. eqb key a.address_id) rows ≡ true

    first_version : find (is_current_of c x) o.db.address ≡ none → Revised none
    first_version absent = record {
      key = s.identity (suc o.tick);
      rows =
          version c x (place_values p) (s.time (suc o.tick)) (s.identity (suc o.tick))
          ∷ o.db.address;
      tick = after 2 o.tick;
      later = omega arith;
      yields = execute-Yields clears (insert_address c (some x) (place_values p)) selected _ _ (
          insert_address-new c x p (s.time (suc o.tick)) (s.identity (suc o.tick)) o.db complete
            client (fresh (after 1 o.tick) (omega arith))
            (any-none (is_current_of c x) o.db.address absent));
      known = rw (eqb_refl (s.identity (suc o.tick))) refl;
    }

    kept_version :
        (a : Address)
        → find (is_current_of c x) o.db.address ≡ some a
        → unchanged a.place p ≡ true
        → Revised (some a)
    unfolding pure
    kept_version a found alike = record {
      key = a.address_id;
      rows = o.db.address;
      tick = after 1 o.tick;
      later = omega arith;
      yields = rw alike refl;
      known =
          any_found (is_current_of c x) (λ r. eqb a.address_id r.address_id) o.db.address a found
            (eqb_refl a.address_id);
    }

    next_version :
        (a : Address)
        → find (is_current_of c x) o.db.address ≡ some a
        → unchanged a.place p ≡ false
        → Revised (some a)
    unfolding expire_address
    next_version a found alike = record {
      key = s.identity (after 2 o.tick);
      rows =
          version c x (place_values p) (s.time (after 2 o.tick)) (s.identity (after 2 o.tick))
          ∷ (ended a).address;
      tick = after 3 o.tick;
      later = omega arith;
      yields = rw alike (
          Yields-bind (execute (expire_address a.address_id)) _ selected tt (ended a)
            (after 2 o.tick) _
            (execute-Yields clears (expire_address a.address_id) selected _ _ refl)
            (execute-Yields clears (insert_address c (some x) (place_values p))
              (record { db = ended a; tick = after 2 o.tick }) _ _
              (insert_address-new c x p (s.time (after 2 o.tick)) (s.identity (after 2 o.tick))
                (ended a) complete client
                (any-update_where (λ r. eqb (s.identity (after 2 o.tick)) r.address_id)
                    (λ r. eqb r.address_id a.address_id) (expire (s.time (suc o.tick))) o.db.address
                    (λ r. refl)
                  ∙ fresh (after 2 o.tick) (omega arith))
                (expired_none c (s.time (suc o.tick)) x a o.db.address versioned found))));
      known = rw (eqb_refl (s.identity (after 2 o.tick))) refl;
    }

    revised : (r : Option Address) → find (is_current_of c x) o.db.address ≡ r → Revised r
    revised none f = first_version f
    revised (some a) f = elim (Bool-cases (unchanged a.place p)) [
      | inl alike ↦ kept_version a f alike
      | inr differs ↦ next_version a f differs
    ]

  module _ (clears : (n : ℕ) → s.fate n ≡ clear) where
    pub upsert_current_address-Done :
        (c : ℕ) (d : AddressData) (x : String) (o : Conn)
        → d.external_address_id ≡ given x
        → check_place (place_values d.place) ≡ ok tt
        → is_client c o.db ≡ true
        → IsVersioned o.db.address
        → From (λ m. is_address (s.identity m) o.db ≡ false) o.tick
        → AddressDone c d x o
    unfolding upsert_current_address select_current
    upsert_current_address-Done c d x o e complete client versioned fresh =
        let r : Revised clears c x d.place o complete client versioned fresh
            (find (is_current_of c x) o.db.address) =
          revised clears c x d.place o complete client versioned fresh _ refl in
        record {
          key = r.key;
          rows = r.rows;
          tick = r.tick;
          later = r.later;
          yields = lift-bind (subscript d.external_address_id) _ o (some x) _ (ap subscript e) (
              Yields-bind (execute (select_current c (some x))) _ o
                (find (is_current_of c x) o.db.address) o.db (suc o.tick) _
                (execute-Yields clears (select_current c (some x)) o _ _ refl) r.yields);
          known = r.known;
        }

  -- The row is the current version that was asked for.
  pub AddressDone-IsCurrentVersion :
      (c : ℕ) (d : AddressData) (x : String) (o : Conn)
      → d.external_address_id ≡ given x
      → (done : AddressDone c d x o)
      → IsCurrentVersion c x d.place done.key (record o.db { address = done.rows })
  AddressDone-IsCurrentVersion c d x o e done =
      subst (Post (IsCurrentVersion c x d.place)) done.yields
        (upsert_current_address-IsCurrentVersion c d x e o)
