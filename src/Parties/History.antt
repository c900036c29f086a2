-- ===== src/Parties/History.antt =====
-- The table `address` over the loop: the row of a version, and the current versions.
use observability_lab.Prelude.{
  ℕ, String, Option, none, some, Bool, true, false, List, [], ◌∷◌, ◌≡◌, refl, find, any,
  update_where, eqb, ◌&&◌, arith, ap,
}
use observability_lab.Server.{Server}
use observability_lab.Payload.{Place}
use observability_lab.Tables.{Address}
use observability_lab.Sql.Parties.{
  expire, expire_address, insert_address, is_current_of, is_address,
}
use observability_lab.Sql.Keys.{find-update_where}
use observability_lab.Consumer.Handle.{Packages, Message, State}
use observability_lab.Consumer.Loop.{main_loop}
use observability_lab.Consumer.Invariant.Walk.{Respects}
use observability_lab.Consumer.Invariant.Lift.{main_loop-keeps}
use observability_lab.Parties.Versions.{Versions, OnVersions, OnVersions-IsKept}

-- A row without what an expiry writes.
abbrev pub written : Address → Address
written a = record a { valid_to = none; is_current = true }

abbrev pub version : ℕ → Versions → Option Address
version n l = elim (find (λ a. eqb n a.address_id) l) [ none ↦ none | some a ↦ some (written a) ]

abbrev pub is_none {ℓ} : {A : Type ℓ} → Option A → Bool
is_none none = true
is_none (some _) = false

any-version :
    (n : ℕ) (a : Address) (l : Versions)
    → version n l ≡ some a
    → any (λ r. eqb n r.address_id) l ≡ true
any-version n a [] h = ground arith
any-version n a (r ∷ l) h = ground (arith, any-version n a l)

module _ ⦃s : Server⦄ where
  module _ (n : ℕ) (a : Address) where
    abbrev HasVersion : Versions → Type 0
    HasVersion l = version n l ≡ some a

    version-expiry : (m : ℕ) → Respects (OnVersions HasVersion) (expire_address m)
    unfolding expire_address
    version-expiry m now id db h = ground (
      arith,
      find-update_where (λ r. eqb n r.address_id) (λ r. eqb r.address_id m) (expire now) db.address
          (λ r. refl),
    )

    version-insert :
        (c : ℕ) (y : Option String) (p : Place (Option String))
        → Respects (OnVersions HasVersion) (insert_address c y p)
    unfolding insert_address
    version-insert c y p now id db h =
        ground
          (arith, any-version n a db.address h, ap (λ (k : ℕ). is_address k db) {x = n} {y = id})

  -- Whatever messages the loop gets, and whatever the server, the packages and the broker do: the
  -- row that an address id names keeps its client, its external id, its place and the dates of its
  -- writing. Only what an expiry writes may change.
  pub address_version_immutable :
      (p : Packages) (n : ℕ) (a : Address) (polls : List (List (ℕ × List Message))) (k : State)
      → version n k.conn.db.address ≡ some a
      → version n (main_loop p polls k).1.conn.db.address ≡ some a
  address_version_immutable p n a =
      main_loop-keeps p (OnVersions (HasVersion n a))
        (OnVersions-IsKept (HasVersion n a) (version-expiry n a) (version-insert n a))

  -- At most one current version for each client and external id, and a version is current just if
  -- it has no end.
  abbrev pub IsVersioned : Versions → Type 0
  IsVersioned [] = Unit
  IsVersioned (a ∷ l) =
      ((a.is_current && any (is_current_of a.client_id a.external_address_id) l) ≡ false)
      × (is_none a.valid_to ≡ a.is_current)
      × IsVersioned l

  pub any-expire :
      (c : ℕ) (y : String) (m now : ℕ) (l : Versions)
      → any (is_current_of c y) l ≡ false
      → any (is_current_of c y) (update_where (λ r. eqb r.address_id m) (expire now) l) ≡ false
  any-expire c y m now [] h = refl
  any-expire c y m now (a ∷ l) h = ground (arith, any-expire c y m now l)

  pub expire-IsVersioned :
      (m now : ℕ) (l : Versions)
      → IsVersioned l
      → IsVersioned (update_where (λ r. eqb r.address_id m) (expire now) l)
  expire-IsVersioned m now [] h = tt
  expire-IsVersioned m now (a ∷ l) h =
      ground (
        arith,
        expire-IsVersioned m now l h.2,
        any-expire a.client_id a.external_address_id m now l,
      )

  IsVersioned-expiry : (m : ℕ) → Respects (OnVersions IsVersioned) (expire_address m)
  unfolding expire_address
  IsVersioned-expiry m now id db h = expire-IsVersioned m now db.address h

  IsVersioned-insert :
      (c : ℕ) (y : Option String) (p : Place (Option String))
      → Respects (OnVersions IsVersioned) (insert_address c y p)
  unfolding insert_address
  IsVersioned-insert c y p now id db h = ground arith

  -- Whatever messages the loop gets, and whatever the server, the packages and the broker do: if
  -- each client and external address id has at most one current version before, and the current
  -- versions are those without an end, so it is afterwards.
  pub address-IsVersioned :
      (p : Packages) (polls : List (List (ℕ × List Message))) (k : State)
      → IsVersioned k.conn.db.address
      → IsVersioned (main_loop p polls k).1.conn.db.address
  address-IsVersioned p =
      main_loop-keeps p (OnVersions IsVersioned)
        (OnVersions-IsKept IsVersioned IsVersioned-expiry IsVersioned-insert)
