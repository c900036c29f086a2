-- ===== src/Consumer/History/Lists.antt =====
-- Lists of orders and trails: what inserting and updating does to keys, statuses and links.
use observability_lab.Prelude.{
  ℕ, String, none, some, Bool-cases, inl, inr, ◌∙◌, List, [], ◌∷◌, ◌≡◌, refl, ap, sym, any, find,
  update_where, All, true, false, eqb, eqb_refl, arith, if◌then◌else◌,
}
use mathlib.Core.Path.{subst}
use observability_lab.Server.{Server, same}
use observability_lab.Tables.{Order, OrderStatusHistory}
use observability_lab.Sql.Orders.{set_status}
use observability_lab.Sql.Keys.{any-update_where, any_found, any-same}
use observability_lab.Consumer.History.Trail.{
  Trail, latest, has_order, HasKeys, Agrees, IsAudited, IsPending,
}

module _ ⦃s : Server⦄ where
  -- An order without a row in `orders` has no trail.
  latest-fresh :
      (n : ℕ) (os : List Order) (hs : Trail)
      → All (λ h. has_order h.order_id os ≡ true) hs
      → has_order n os ≡ false
      → latest n hs ≡ none
  latest-fresh n os [] known fresh = refl
  latest-fresh n os (h ∷ hs) known fresh = ground (
    arith,
    latest-fresh n os hs known.1 fresh,
    known.0,
    ap (λ (k : ℕ). has_order k os) {x = h.order_id} {y = n},
  )

  Agrees-fresh :
      (n : ℕ) (t : String) (os : List Order) (hs : Trail)
      → Agrees hs os
      → has_order n os ≡ false
      → All (λ o. (if eqb n o.order_id then some t else latest o.order_id hs) ≡ some o.status) os
  Agrees-fresh n t [] hs a fresh = tt
  Agrees-fresh n t (o ∷ os) hs a fresh = ground (arith, Agrees-fresh n t os hs a.1)

  known-cons :
      (o : Order) (os : List Order) (hs : Trail)
      → All (λ h. has_order h.order_id os ≡ true) hs
      → All (λ h. has_order h.order_id (o ∷ os) ≡ true) hs
  known-cons o os [] k = tt
  known-cons o os (h ∷ hs) k = ground (arith, known-cons o os hs k.1)

  keys-apart :
      (y : String) (n : ℕ) (os : List Order)
      → any (λ q. same y q.external_order_id) os ≡ false
      → has_order n os ≡ false
      → All (λ q. same y q.external_order_id ≡ eqb n q.order_id) os
  keys-apart y n [] a b = tt
  keys-apart y n (q ∷ os) a b = ground (arith, keys-apart y n os)

  keys-found :
      (y : String) (q : Order) (os : List Order) (o : Order)
      → HasKeys (q ∷ os)
      → same y q.external_order_id ≡ true
      → some q ≡ some o
      → All (λ r. same y r.external_order_id ≡ eqb o.order_id r.order_id) (q ∷ os)
  keys-found y q os o k it e =
      let f : q ≡ o = cc in
      subst (λ r. All (λ x. same y x.external_order_id ≡ eqb r.order_id x.order_id) (q ∷ os)) f
        (
          ground arith,
          keys-apart y q.order_id os
              (any-same (λ (r : Order). r.external_order_id) os y q.external_order_id it ∙ k.1) k.0,
        )

  -- The order found by its external id is the only one with that external id, and with that key.
  keys-find :
      (y : String) (os : List Order) (o : Order)
      → HasKeys os
      → find (λ q. same y q.external_order_id) os ≡ some o
      → All (λ q. same y q.external_order_id ≡ eqb o.order_id q.order_id) os
  keys-find y [] o k f = tt
  keys-find y (q ∷ os) o k f = elim (Bool-cases (same y q.external_order_id)) [
    | inl it ↦ keys-found y q os o k it (rw it at f)
    | inr other ↦
        let f' : find (λ r. same y r.external_order_id) os ≡ some o = rw other at f in
        (
          ground (
            arith,
            any_found (λ r. same y r.external_order_id) (λ r. eqb q.order_id r.order_id) os o f',
          ),
          keys-find y os o k.2 f',
        )
  ]

  Agrees-find :
      (y : String) (os : List Order) (hs : Trail) (o : Order)
      → Agrees hs os
      → find (λ q. same y q.external_order_id) os ≡ some o
      → latest o.order_id hs ≡ some o.status
  Agrees-find y [] hs o a f = ground arith
  Agrees-find y (q ∷ os) hs o a f =
      ground
        (arith, Agrees-find y os hs o a.1, ap (λ (r : Order). latest r.order_id hs) {x = q} {y = o})

  update-HasKeys :
      (y t : String) (now : ℕ) (os : List Order)
      → HasKeys os
      → HasKeys (update_where (λ q. same y q.external_order_id) (set_status t now) os)
  update-HasKeys y t now [] k = tt
  update-HasKeys y t now (q ∷ os) k = ground (
    arith,
    update-HasKeys y t now os k.2,
    any-update_where (λ r. eqb q.order_id r.order_id) (λ r. same y r.external_order_id)
        (set_status t now) os (λ r. refl),
    any-update_where (λ r. same q.external_order_id r.external_order_id)
        (λ r. same y r.external_order_id) (set_status t now) os (λ r. refl),
  )

  update-known :
      (y t : String) (now : ℕ) (os : List Order) (hs : Trail)
      → All (λ h. has_order h.order_id os ≡ true) hs
      → All
          (λ h.
            has_order h.order_id
              (update_where (λ q. same y q.external_order_id) (set_status t now) os)
            ≡ true)
          hs
  update-known y t now os [] k = tt
  update-known y t now os (h ∷ hs) k = ground (
    arith,
    update-known y t now os hs k.1,
    any-update_where (λ r. eqb h.order_id r.order_id) (λ r. same y r.external_order_id)
        (set_status t now) os (λ r. refl),
  )

  -- After the update, with the row to come counted in.
  update-Agrees :
      (y t : String) (now n : ℕ) (os : List Order) (hs : Trail)
      → All (λ q. same y q.external_order_id ≡ eqb n q.order_id) os
      → Agrees hs os
      → All
          (λ o. (if eqb n o.order_id then some t else latest o.order_id hs) ≡ some o.status)
          (update_where (λ q. same y q.external_order_id) (set_status t now) os)
  update-Agrees y t now n [] hs k a = tt
  update-Agrees y t now n (q ∷ os) hs k a = ground (arith, update-Agrees y t now n os hs k.1 a.1)

  pub pending-IsAudited :
      (os : List Order) (hs : Trail) (h : OrderStatusHistory)
      → has_order h.order_id os ≡ true
      → IsPending h.order_id h.previous_status h.new_status os hs
      → IsAudited os (h ∷ hs)
  pending-IsAudited os hs h k p = record {
    keys = p.keys;
    agrees = p.agrees;
    linked = (sym p.before, p.linked);
    known = (k, p.known);
  }

  pub audited-IsPending :
      (o : Order) (os : List Order) (hs : Trail)
      → has_order o.order_id os ≡ false
      → any (λ q. same o.external_order_id q.external_order_id) os ≡ false
      → IsAudited os hs
      → IsPending o.order_id none o.status (o ∷ os) hs
  audited-IsPending o os hs fresh new a = record {
    keys = (fresh, new, a.keys);
    agrees = (rw (eqb_refl o.order_id), Agrees-fresh o.order_id o.status os hs a.agrees fresh);
    linked = a.linked;
    known = known-cons o os hs a.known;
    before = latest-fresh o.order_id os hs a.known fresh;
  }

  pub update-IsPending :
      (y t : String) (now : ℕ) (o : Order) (os : List Order) (hs : Trail)
      → find (λ q. same y q.external_order_id) os ≡ some o
      → IsAudited os hs
      → IsPending o.order_id
          (some o.status)
          t
          (update_where (λ q. same y q.external_order_id) (set_status t now) os)
          hs
  update-IsPending y t now o os hs f a = record {
    keys = update-HasKeys y t now os a.keys;
    agrees = update-Agrees y t now o.order_id os hs (keys-find y os o a.keys f) a.agrees;
    linked = a.linked;
    known = update-known y t now os hs a.known;
    before = Agrees-find y os hs o a.agrees f;
  }
