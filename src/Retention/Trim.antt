-- ===== src/Retention/Trim.antt =====
-- The rows that the second DELETE statement chooses, and those it leaves.
use mathlib.Core.List.{Permᴰ}
use mathlib.Core.List.Permᴰ
use mathlib.Core.Path.{subst}
use observability_lab.Prelude.{
  ℕ, zero, suc, arith, ◌≡◌, refl, sym, ap, ◌∙◌, Bool, true, false, Bool-cases, not, ◌||◌, ◌≤◌, List,
  [], ◌∷◌, ◌++◌, any, filter, map, length, eqb, eqb_refl, take, All, All-map, inl, inr,
}
use observability_lab.Tables.{PipelineLog}
use observability_lab.Retention.Run.{IsOldestFirst, LogServer, top_ids, delete_ids, trim_batch_size}

-- The primary key `log_id`.
abbrev pub HasKeys : List PipelineLog → Type 0
HasKeys [] = Unit
HasKeys (r ∷ rows) = (any (λ q. eqb r.log_id q.log_id) rows ≡ false) × HasKeys rows

any-filter :
    (p q : PipelineLog → Bool) (rows : List PipelineLog)
    → any p rows ≡ false
    → any p (filter q rows) ≡ false
any-filter p q [] h = refl
any-filter p q (r ∷ rows) h = ground (arith, any-filter p q rows)

pub filter-HasKeys :
    (q : PipelineLog → Bool) (rows : List PipelineLog) → HasKeys rows → HasKeys (filter q rows)
filter-HasKeys q [] h = tt
filter-HasKeys q (r ∷ rows) h =
    ground (arith, filter-HasKeys q rows h.1, any-filter (λ x. eqb r.log_id x.log_id) q rows h.0)

filter-filter :
    (p q : PipelineLog → Bool) (rows : List PipelineLog)
    → filter (λ r. not (p r || q r)) rows ≡ filter (λ r. not (p r)) (filter (λ r. not (q r)) rows)
filter-filter p q [] = refl
filter-filter p q (r ∷ rows) = ground (arith, filter-filter p q rows)

filter_all : (rows : List PipelineLog) → filter (λ _. true) rows ≡ rows
filter_all [] = refl
filter_all (r ∷ rows) = ap (λ (l : List PipelineLog). r ∷ l) (filter_all rows)

filter_absent :
    (p : PipelineLog → Bool) (rows : List PipelineLog)
    → any p rows ≡ false
    → filter (λ r. not (p r)) rows ≡ rows
filter_absent p [] h = refl
filter_absent p (r ∷ rows) h = ground (arith, filter_absent p rows)

any-append :
    (p : PipelineLog → Bool) (xs ys : List PipelineLog)
    → any p (xs ++ ys) ≡ false
    → any p ys ≡ false
any-append p [] ys h = h
any-append p (x ∷ xs) ys h = ground (arith, any-append p xs ys)

eqb_sym : (m n : ℕ) → eqb m n ≡ eqb n m
eqb_sym m n = ground arith

-- A test passes on some row, in whichever order the rows are.
any-Perm : (p : PipelineLog → Bool) {xs ys : List PipelineLog} → Permᴰ xs ys → any p xs ≡ any p ys
any-Perm p Permᴰ.nil = refl
any-Perm p (Permᴰ.cons e d) = rw (e, any-Perm p d) refl
any-Perm p (Permᴰ.swap {a = a} {b = b} {l = l} e1 e2) = rw (sym e1, sym e2) (ground (arith))
any-Perm p (Permᴰ.trans d1 d2) = any-Perm p d1 ∙ any-Perm p d2

swap-HasKeys :
    (a b : PipelineLog) (l : List PipelineLog) → HasKeys (a ∷ b ∷ l) → HasKeys (b ∷ a ∷ l)
swap-HasKeys a b l h = ground (arith, h, eqb_sym a.log_id b.log_id)

Perm-HasKeys : {xs ys : List PipelineLog} → Permᴰ xs ys → HasKeys xs → HasKeys ys
Perm-HasKeys Permᴰ.nil h = h
Perm-HasKeys (Permᴰ.cons {a = a} e d) h =
    (rw (sym e) (sym (any-Perm (λ q. eqb a.log_id q.log_id) d) ∙ h.0), Perm-HasKeys d h.1)
Perm-HasKeys (Permᴰ.swap {a = a} {b = b} {b' = b'} {l = l} e1 e2) h =
    subst (λ (x : PipelineLog). HasKeys (x ∷ b' ∷ l)) e2
      (subst (λ (x : PipelineLog). HasKeys (b ∷ x ∷ l)) e1 (swap-HasKeys a b l h))
Perm-HasKeys (Permᴰ.trans d1 d2) h = Perm-HasKeys d2 (Perm-HasKeys d1 h)

filter-swap :
    (p : PipelineLog → Bool) (a b : PipelineLog) (l : List PipelineLog)
    → Permᴰ (filter p (a ∷ b ∷ l)) (filter p (b ∷ a ∷ l))
filter-swap p a b l = elim (Bool-cases (p a)) [
  | inl t ↦ elim (Bool-cases (p b)) [
    | inl u ↦ rw (t, u) (Permᴰ.swap refl refl)
    | inr v ↦ rw (t, v) (Permᴰ.refl (a ∷ filter p l))
  ]
  | inr f ↦ elim (Bool-cases (p b)) [
    | inl u ↦ rw (f, u) (Permᴰ.refl (b ∷ filter p l))
    | inr v ↦ rw (f, v) (Permᴰ.refl (filter p l))
  ]
]

filter-Perm :
    (p : PipelineLog → Bool) {xs ys : List PipelineLog}
    → Permᴰ xs ys
    → Permᴰ (filter p xs) (filter p ys)
filter-Perm p Permᴰ.nil = Permᴰ.nil
filter-Perm p (Permᴰ.cons {a = a} {b = b} e d) = elim (Bool-cases (p a)) [
  | inl t ↦ rw (sym e, t) (Permᴰ.cons refl (filter-Perm p d))
  | inr f ↦ rw (sym e, f) (filter-Perm p d)
]
filter-Perm p (Permᴰ.swap {a = a} {b = b} {b' = b'} {l = l} e1 e2) =
    subst (λ (x : PipelineLog). Permᴰ (filter p (a ∷ b ∷ l)) (filter p (x ∷ b' ∷ l))) e2
      (subst (λ (x : PipelineLog). Permᴰ (filter p (a ∷ b ∷ l)) (filter p (b ∷ x ∷ l))) e1
        (filter-swap p a b l))
filter-Perm p (Permᴰ.trans d1 d2) = Permᴰ.trans (filter-Perm p d1) (filter-Perm p d2)

length-Perm : {xs ys : List PipelineLog} → Permᴰ xs ys → length xs ≡ length ys
length-Perm Permᴰ.nil = refl
length-Perm (Permᴰ.cons e d) = ap suc (length-Perm d)
length-Perm (Permᴰ.swap e1 e2) = refl
length-Perm (Permᴰ.trans d1 d2) = length-Perm d1 ∙ length-Perm d2

All-Perm : (P : PipelineLog → Type 0) {xs ys : List PipelineLog} → Permᴰ xs ys → All P xs → All P ys
All-Perm P Permᴰ.nil h = h
All-Perm P (Permᴰ.cons e d) h = (subst P e h.0, All-Perm P d h.1)
All-Perm P (Permᴰ.swap e1 e2) h = (subst P e2 h.1.0, (subst P e1 h.0, h.1.1))
All-Perm P (Permᴰ.trans d1 d2) h = All-Perm P d2 (All-Perm P d1 h)

pub All-filter :
    (p q : PipelineLog → Bool) (rows : List PipelineLog)
    → All (λ r. p r ≡ false) rows
    → All (λ r. p r ≡ false) (filter q rows)
All-filter p q [] h = tt
All-filter p q (r ∷ rows) h = ground (arith, All-filter p q rows h.1)

pub All-filter-not :
    (p : PipelineLog → Bool) (rows : List PipelineLog)
    → All (λ r. p r ≡ false) (filter (λ r. not (p r)) rows)
All-filter-not p [] = tt
All-filter-not p (r ∷ rows) = ground (arith, All-filter-not p rows)

-- What `take` leaves.
abbrev rest_of : ℕ → List PipelineLog → List PipelineLog
rest_of zero xs = xs
rest_of (suc n) [] = []
rest_of (suc n) (x ∷ xs) = rest_of n xs

take-rest_of : (n : ℕ) (xs : List PipelineLog) → xs ≡ take n xs ++ rest_of n xs
take-rest_of zero xs = refl
take-rest_of (suc n) [] = refl
take-rest_of (suc n) (x ∷ xs) = ap (λ (l : List PipelineLog). x ∷ l) (take-rest_of n xs)

length-take : (n : ℕ) (xs : List PipelineLog) → n ≤ length xs → length (take n xs) ≡ n
length-take zero xs h = refl
length-take (suc n) [] h = omega (arith, h)
length-take (suc n) (x ∷ xs) h = ap suc (length-take n xs (omega (arith, h)))

-- No row of the first list is newer than a row of the second.
abbrev pub AllOlder : List PipelineLog → List PipelineLog → Type 0
AllOlder gone left = All (λ r. All (λ q. r.created_at ≤ q.created_at) left) gone

All-take :
    (P : PipelineLog → Type 0) (n : ℕ) (xs : List PipelineLog) → All P xs → All P (rest_of n xs)
All-take P zero xs h = h
All-take P (suc n) [] h = tt
All-take P (suc n) (x ∷ xs) h = All-take P n xs h.1

take-AllOlder :
    (n : ℕ) (xs : List PipelineLog) → IsOldestFirst xs → AllOlder (take n xs) (rest_of n xs)
take-AllOlder zero xs h = tt
take-AllOlder (suc n) [] h = tt
take-AllOlder (suc n) (x ∷ xs) h =
    (All-take (λ q. x.created_at ≤ q.created_at) n xs h.0, take-AllOlder n xs h.1)

module _ (s : LogServer) where
  -- The keys of some rows name no others.
  delete_ids-append :
      (xs ys : List PipelineLog)
      → HasKeys (xs ++ ys)
      → delete_ids s (map (λ r. r.log_id) xs) (xs ++ ys) ≡ ys
  delete_ids-append [] ys h = filter_all ys
  delete_ids-append (x ∷ xs) ys h =
      let ids : List ℕ = map (λ r. r.log_id) xs in
      rw (eqb_refl x.log_id) (
        filter-filter (λ r. eqb x.log_id r.log_id) (λ r. any (λ j. eqb j r.log_id) ids) (xs ++ ys)
        ∙ (ap (filter (λ r. not (eqb x.log_id r.log_id))) (delete_ids-append xs ys h.1)
            ∙ filter_absent (λ r. eqb x.log_id r.log_id) ys
                (any-append (λ r. eqb x.log_id r.log_id) xs ys h.0)))

  -- The trimmed rows: exactly as many, and the oldest.
  abbrev pub IsTrimmed : List PipelineLog → List PipelineLog → Type 0
  IsTrimmed kept left =
      (gone : List PipelineLog) × Permᴰ kept (gone ++ left)
      × (length gone ≡ trim_batch_size)
      × AllOlder gone left

  pub delete_ids-IsTrimmed :
      (kept : List PipelineLog)
      → HasKeys kept
      → trim_batch_size ≤ length kept
      → IsTrimmed kept (delete_ids s (top_ids s trim_batch_size kept) kept)
  delete_ids-IsTrimmed kept h many = trimmed trim_batch_size many
    where
      trimmed :
          (n : ℕ)
          → n ≤ length kept
          → (gone : List PipelineLog) × Permᴰ kept (gone ++ delete_ids s (top_ids s n kept) kept)
            × (length gone ≡ n)
            × AllOlder gone (delete_ids s (top_ids s n kept) kept)
      trimmed n many =
          let o : List PipelineLog = s.by_age kept in
          let gone : List PipelineLog = take n o in
          let left : List PipelineLog = delete_ids s (top_ids s n kept) kept in
          let d : Permᴰ kept o = s.by_age_rows kept in
          let same : o ≡ gone ++ rest_of n o = take-rest_of n o in
          let keys : HasKeys (gone ++ rest_of n o) = subst HasKeys same (Perm-HasKeys d h) in
          let left_rows : Permᴰ (rest_of n o) left = Permᴰ.symm (
            subst (λ l. Permᴰ left l)
              (ap (delete_ids s (map (λ r. r.log_id) gone)) same
                ∙ delete_ids-append gone (rest_of n o) keys)
              (filter-Perm (λ r. not (any (λ i. eqb i r.log_id) (map (λ r. r.log_id) gone))) d)) in
          (
            gone,
            Permᴰ.trans (subst (λ l. Permᴰ kept l) same d) (Permᴰ.append_left gone left_rows),
            length-take n o (omega (arith, many, length-Perm d)),
            All-map (λ r. All (λ q. r.created_at ≤ q.created_at) (rest_of n o))
                (λ r. All (λ q. r.created_at ≤ q.created_at) left) gone
                (λ r. All-Perm (λ q. r.created_at ≤ q.created_at) left_rows)
                (take-AllOlder n o (s.by_age_order kept)),
          )
