-- ===== src/Parties/Expiry.antt =====
-- What the UPDATE of `upsert_current_address` leaves behind: no current version.
use observability_lab.Prelude.{
  ℕ, String, none, some, Bool, true, false, Bool-cases, inl, inr, List, [], ◌∷◌, ◌≡◌, refl, ◌&&◌,
  any, find, update_where, eqb, eqb_iff, arith, if◌then◌else◌,
}
use observability_lab.Server.{Server}
use observability_lab.Tables.{Address}
use observability_lab.Sql.Parties.{is_current_of, expire}
use observability_lab.Sql.Keys.{same_left}
use observability_lab.Parties.History.{IsVersioned, any-expire}

pub any-none : {A : Type 0} (p : A → Bool) (xs : List A) → find p xs ≡ none → any p xs ≡ false
any-none p [] h = refl
any-none p (x ∷ xs) h = ground (arith, any-none p xs)

module _ ⦃s : Server⦄ where
  -- A row that is current for a client and an external id is looked for under its own.
  is_current_of-own :
      (c : ℕ) (x : String) (a r : Address)
      → is_current_of c x a ≡ true
      → is_current_of a.client_id a.external_address_id r ≡ is_current_of c x r
  is_current_of-own c x a r h = ground (
    arith,
    h,
    eqb_iff a.client_id c,
    eqb_iff r.client_id c,
    eqb_iff r.client_id a.client_id,
    same_left x a.external_address_id r.external_address_id,
  )

  any_own :
      (c : ℕ) (x : String) (a : Address) (l : List Address)
      → is_current_of c x a ≡ true
      → any (is_current_of a.client_id a.external_address_id) l ≡ any (is_current_of c x) l
  any_own c x a [] h = refl
  any_own c x a (r ∷ l) h = rw (is_current_of-own c x a r h, any_own c x a l h) refl

  -- A row with the key has ended, and one that was not current is not made so.
  head_expired :
      (c now : ℕ) (x : String) (r : Address) (b : Bool)
      → b ≡ true
      → is_current_of c x (if b then expire now r else r) ≡ false
  head_expired c now x r b h = rw h refl

  head_other :
      (c now : ℕ) (x : String) (r : Address) (b : Bool)
      → is_current_of c x r ≡ false
      → is_current_of c x (if b then expire now r else r) ≡ false
  head_other c now x r true h = refl
  head_other c now x r false h = h

  first_key :
      (q : Address → Bool) (a r : Address) (l : List Address)
      → find q (r ∷ l) ≡ some a
      → q r ≡ true
      → r.address_id ≡ a.address_id
  first_key q a r l f t = ground (arith, f, t)

  others :
      (c : ℕ) (x : String) (r : Address) (l : List Address)
      → (r.is_current && any (is_current_of r.client_id r.external_address_id) l) ≡ false
      → is_current_of c x r ≡ true
      → any (is_current_of c x) l ≡ false
  others c x r l alone t = ground (arith, alone, t, any_own c x r l t)

  pub expired_none :
      (c now : ℕ) (x : String) (a : Address) (l : List Address)
      → IsVersioned l
      → find (is_current_of c x) l ≡ some a
      → any (is_current_of c x) (update_where (λ r. eqb r.address_id a.address_id) (expire now) l)
        ≡ false
  expired_none c now x a [] v f = refl
  expired_none c now x a (r ∷ l) (alone, e, v) f = elim (Bool-cases (is_current_of c x r)) [
    | inl t ↦
        rw
          (head_expired c now x r (eqb r.address_id a.address_id)
            ((eqb_iff r.address_id a.address_id).1 (first_key (is_current_of c x) a r l f t)))
          (any-expire c x a.address_id now l (others c x r l alone t))
    | inr t ↦
        rw (head_other c now x r (eqb r.address_id a.address_id) t)
          (expired_none c now x a l v (ground (arith, f, t)))
  ]
