-- ===== src/Sql/Keys.antt =====
-- Laws of the comparisons that the statements make.
use observability_lab.Prelude.{
  String, ◌==◌, eq_iff, eq_refl, ◌≡◌, refl, ap, Bool, true, false, none, some, List, [], ◌∷◌, any,
  find, update_where, arith, if◌then◌else◌,
}
use observability_lab.Server.{Server, same}

module _ ⦃s : Server⦄ where
  pub same_refl : (a : String) → same a a ≡ true
  same_refl a = eq_refl (s.sort_key a)

  pub same_iff :
      (a b : String)
      → (same a b ≡ true → s.sort_key a ≡ s.sort_key b)
        × (s.sort_key a ≡ s.sort_key b → same a b ≡ true)
  same_iff a b = eq_iff (s.sort_key a) (s.sort_key b)

  pub same_sym : (a b : String) → same a b ≡ same b a
  same_sym a b =
      ground (arith, eq_iff (s.sort_key a) (s.sort_key b), eq_iff (s.sort_key b) (s.sort_key a))

  -- Equal keys compare alike.
  pub same_left : (a b t : String) → same a b ≡ true → same a t ≡ same b t
  same_left a b t h =
      ap (λ (k : String). k == s.sort_key t) ((eq_iff (s.sort_key a) (s.sort_key b)).0 h)

  pub same_right : (a b t : String) → same a b ≡ true → same t a ≡ same t b
  same_right a b t h =
      ap (λ (k : String). s.sort_key t == k) ((eq_iff (s.sort_key a) (s.sort_key b)).0 h)

module _ ⦃s : Server⦄ {A : Type 0} (g : A → String) (xs : List A) where
  pub any-same :
      (x y : String) → same x y ≡ true → any (λ r. same x (g r)) xs ≡ any (λ r. same y (g r)) xs
  any-same x y h =
      ap (λ (k : String). any (λ (r : A). k == s.sort_key (g r)) xs)
        ((eq_iff (s.sort_key x) (s.sort_key y)).0 h)

  pub find-same :
      (x y : String) → same x y ≡ true → find (λ r. same x (g r)) xs ≡ find (λ r. same y (g r)) xs
  find-same x y h =
      ap (λ (k : String). find (λ (r : A). k == s.sort_key (g r)) xs)
        ((eq_iff (s.sort_key x) (s.sort_key y)).0 h)

module _ {ℓ} {A : Type ℓ} where
  -- What the first row found satisfies.
  pub find_sound : (p : A → Bool) (xs : List A) (x : A) → find p xs ≡ some x → p x ≡ true
  find_sound p [] x h = ground arith
  find_sound p (y ∷ xs) x h = ground (arith, find_sound p xs x)

  pub any-find : (p : A → Bool) (xs : List A) (x : A) → find p xs ≡ some x → any p xs ≡ true
  any-find p [] x h = ground arith
  any-find p (y ∷ xs) x h = ground (arith, any-find p xs x)

  -- A row that is found counts for any other test.
  pub any_found :
      (p q : A → Bool) (xs : List A) (x : A) → find p xs ≡ some x → q x ≡ true → any q xs ≡ true
  any_found p q [] x h k = ground arith
  any_found p q (y ∷ xs) x h k = ground (arith, any_found p q xs x, ap q {x = y} {y = x})

  pub find_never : (xs : List A) → find (λ _. false) xs ≡ none
  find_never [] = refl
  find_never (y ∷ xs) = find_never xs

  pub find-none : (p : A → Bool) (xs : List A) → any p xs ≡ false → find p xs ≡ none
  find-none p [] h = refl
  find-none p (y ∷ xs) h = ground (arith, find-none p xs)

  -- An update that the test does not see.
  pub find-update_where :
      (p q : A → Bool) (f : A → A) (xs : List A)
      → ((x : A) → p (f x) ≡ p x)
      → find p (update_where q f xs)
        ≡ (elim (find p xs) [ none ↦ none | some x ↦ some (if q x then f x else x) ])
  find-update_where p q f [] h = refl
  find-update_where p q f (y ∷ xs) h = ground (arith, h y, find-update_where p q f xs h)

  pub any-update_where :
      (p q : A → Bool) (f : A → A) (xs : List A)
      → ((x : A) → p (f x) ≡ p x)
      → any p (update_where q f xs) ≡ any p xs
  any-update_where p q f [] h = refl
  any-update_where p q f (y ∷ xs) h = ground (arith, h y, any-update_where p q f xs h)
