-- ===== src/Consumer/History/Trail.antt =====
-- What the audit trail says: the newest row of each order, the links between rows, and the keys.
use observability_lab.Prelude.{
  ℕ, String, Option, none, some, Bool, true, false, List, [], ◌∷◌, ◌≡◌, any, All, eqb,
  if◌then◌else◌,
}
use observability_lab.Server.{Server, same}
use observability_lab.Tables.{Order, OrderStatusHistory}

abbrev pub Trail : Type 0
Trail = List OrderStatusHistory

-- The status that the newest row of an order records.
abbrev pub latest : ℕ → Trail → Option String
latest o [] = none
latest o (h ∷ hs) = if eqb h.order_id o then some h.new_status else latest o hs

-- Each row names as its previous status what the row before it, of the same order, recorded; the
-- first one of an order names none.
abbrev pub IsLinked : Trail → Type 0
IsLinked [] = Unit
IsLinked (h ∷ hs) = (h.previous_status ≡ latest h.order_id hs) × IsLinked hs

abbrev pub has_order : ℕ → List Order → Bool
has_order n os = any (λ o. eqb n o.order_id) os

module _ ⦃s : Server⦄ where
  -- No two orders have one key, or one external id.
  abbrev pub HasKeys : List Order → Type 0
  HasKeys [] = Unit
  HasKeys (o ∷ os) =
      (has_order o.order_id os ≡ false)
      × (any (λ q. same o.external_order_id q.external_order_id) os ≡ false)
      × HasKeys os

  -- The trail of an order ends in its status.
  abbrev pub Agrees : Trail → List Order → Type 0
  Agrees hs = All (λ o. latest o.order_id hs ≡ some o.status)

  pub record IsAudited (os : List Order) (hs : Trail) : Type 0 where
    pub keys : HasKeys os
    pub agrees : Agrees hs os
    pub linked : IsLinked hs
    pub known : All (λ h. has_order h.order_id os ≡ true) hs

  -- The same while a row for order `n`, from status `v` to status `t`, is still to be written.
  pub record IsPending (n : ℕ) (v : Option String) (t : String) (os : List Order) (hs : Trail)
      : Type 0 where
    pub keys : HasKeys os
    pub agrees :
        All (λ o. (if eqb n o.order_id then some t else latest o.order_id hs) ≡ some o.status) os
    pub linked : IsLinked hs
    pub known : All (λ h. has_order h.order_id os ≡ true) hs
    pub before : latest n hs ≡ v
