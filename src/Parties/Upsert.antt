-- ===== src/Parties/Upsert.antt =====
-- One call of `upsert_current_address`, and its repetition.
use observability_lab.Prelude.{
  ℕ, String, eq_refl, Option, none, some, Bool, true, Bool-cases, inl, inr, List, ◌∷◌, ◌≡◌, refl,
  find, any, eqb_refl, arith,
}
use observability_lab.Server.{Server}
use observability_lab.Payload.{Field, given, subscript, get, Place, AddressData}
use observability_lab.Tables.{Database, Address}
use observability_lab.Session.{Conn, execute}
use observability_lab.Session.Rules.{
  Pred, Post, Does, Does-skip, Ensures, Ensures-known, Ensures-bind, Ensures-execute, Ensures-pure,
  Ensures-if,
}
use observability_lab.Sql.Parties.{
  check_place, expire_address, insert_address, select_current, is_current_of, is_client, is_address,
}
use observability_lab.Sql.Keys.{same_refl}
use observability_lab.DbOps.Parties.{
  or_none, opt_eq, unchanged, place_values, revise, upsert_current_address,
}

opt_eq_refl : (a : Option String) → opt_eq a a ≡ true
opt_eq_refl none = refl
opt_eq_refl (some t) = eq_refl t

-- The row that an INSERT takes from the payload counts as unchanged against the payload.
place_values-unchanged : (p : Place (Field String)) → unchanged (place_values p) p ≡ true
unfolding unchanged
place_values-unchanged p = simp (
  opt_eq_refl (or_none (get p.street)),
  opt_eq_refl (or_none (get p.number)),
  opt_eq_refl (or_none (get p.complement)),
  opt_eq_refl (or_none (get p.neighborhood)),
  opt_eq_refl (or_none (get p.city)),
  opt_eq_refl (or_none (get p.state)),
  opt_eq_refl (or_none (get p.postal_code)),
  opt_eq_refl (or_none (get p.country)),
)

-- The first row that is inserted is the first that is found.
found : {A : Type 0} (q : A → Bool) (a : A) (xs : List A) → q a ≡ true → find q (a ∷ xs) ≡ some a
found q a xs h = rw h refl

module _ ⦃s : Server⦄ where
  -- The database finds, as the current version, the row `n`, and its place is the payload's.
  abbrev pub IsCurrentVersion : ℕ → String → Place (Field String) → ℕ → Pred
  IsCurrentVersion c x p n db =
      (a : Address) × (find (is_current_of c x) db.address ≡ some a)
      × (a.address_id ≡ n)
      × (unchanged a.place p ≡ true)

  -- The row that the INSERT writes.
  abbrev pub version : ℕ → String → Place (Option String) → ℕ → ℕ → Address
  version c x p now id = record {
    address_id = id;
    client_id = c;
    external_address_id = x;
    place = p;
    valid_from = now;
    valid_to = none;
    is_current = true;
    created_at = now;
  }

  version-IsCurrent :
      (c : ℕ) (x : String) (p : Place (Option String)) (now id : ℕ)
      → is_current_of c x (version c x p now id) ≡ true
  version-IsCurrent c x p now id = ground (arith, eqb_refl c, same_refl x)

  inserted :
      (c : ℕ) (x : String) (p : Place (Field String)) (now id : ℕ) (db : Database)
      → Unit {0}
      → Does (IsCurrentVersion c x p) (insert_address c (some x) (place_values p) now id db)
  unfolding insert_address
  inserted c x p now id db h =
      Does-skip (IsCurrentVersion c x p) (check_place (place_values p)) _
        (elim (Bool-cases (is_client c db)) [
          | inr e ↦ rw e tt
          | inl client ↦ rw client (elim (Bool-cases (is_address id db)) [
            | inl e ↦ rw e tt
            | inr fresh ↦ rw fresh (elim (Bool-cases (any (is_current_of c x) db.address)) [
              | inl e ↦ rw e tt
              | inr alone ↦ rw alone (
                version c x (place_values p) now id,
                found (is_current_of c x) (version c x (place_values p) now id) db.address
                    (version-IsCurrent c x (place_values p) now id),
                refl,
                place_values-unchanged p,
              )
            ])
          ])
        ])

  -- What the SELECT finds.
  abbrev Selected : ℕ → String → Option Address → Pred
  Selected c x r db = find (is_current_of c x) db.address ≡ r

  selected :
      (c : ℕ) (x : String) (now id : ℕ) (db : Database)
      → Unit {0}
      → Does (Selected c x) (select_current c (some x) now id db)
  unfolding select_current
  selected c x now id db h = refl

  expired : (n now id : ℕ) (db : Database) → Does (λ _ _. Unit {0}) (expire_address n now id db)
  unfolding expire_address
  expired n now id db = tt

  revised :
      (c : ℕ) (x : String) (p : Place (Field String)) (r : Option Address)
      → Ensures (Selected c x r) (revise c (some x) p r) (IsCurrentVersion c x p)
  revised c x p none =
      Ensures-execute (Selected c x none) _ (IsCurrentVersion c x p)
        λ now id db _. inserted c x p now id db tt
  revised c x p (some a) =
      Ensures-if (Selected c x (some a)) (unchanged a.place p) _ _ (IsCurrentVersion c x p)
        (λ same_place.
          Ensures-pure (Selected c x (some a)) a.address_id (IsCurrentVersion c x p)
            λ db f. (a, f, refl, same_place))
        (λ _.
          Ensures-bind (Selected c x (some a)) (execute (expire_address a.address_id))
            (λ _ _. Unit {0}) _ (IsCurrentVersion c x p)
            (Ensures-execute (Selected c x (some a)) (expire_address a.address_id) (λ _ _. Unit {0})
              λ now id db _. expired a.address_id now id db)
            (λ _. Ensures-execute (λ _. Unit {0}) _ (IsCurrentVersion c x p) (inserted c x p)))

  -- After a call that returns, the row it names is the current version of the address, with the
  -- place that was asked for.
  pub upsert_current_address-IsCurrentVersion :
      (c : ℕ) (d : AddressData) (x : String)
      → d.external_address_id ≡ given x
      → (o : Conn) → Post (IsCurrentVersion c x d.place) (upsert_current_address c d o)
  unfolding upsert_current_address
  upsert_current_address-IsCurrentVersion c d x e o =
      (Ensures-known (λ _. Unit {0}) (subscript d.external_address_id) (some x) _
          (IsCurrentVersion c x d.place) (rw e refl)
          (Ensures-bind (λ _. Unit {0}) (execute (select_current c (some x))) (Selected c x) _
            (IsCurrentVersion c x d.place)
            (Ensures-execute (λ _. Unit {0}) (select_current c (some x)) (Selected c x)
              (selected c x))
            (revised c x d.place))).at
        o tt
