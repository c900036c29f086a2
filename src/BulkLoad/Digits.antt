-- ===== src/BulkLoad/Digits.antt =====
-- Laws of the decimal formats: the number that they spell, their characters, their length.
use observability_lab.Prelude.{
  ℕ, zero, suc, arith, ◌≡◌, refl, ap, ◌∙◌, true, Bool-cases, inl, inr, [], ◌∷◌, ◌++◌, length, ltb,
  ◌+◌, ◌-◌, ◌*◌, ◌/◌, ◌%◌, ◌≤◌, ◌<◌,
}
use observability_lab.BulkLoad.Text.{Text, lacks, digits, decimal, zeros, pad}

-- the number that digits spell behind `n`
abbrev pub value : ℕ → Text → ℕ
value n [] = n
value n (c ∷ t) = value (n * 10 + (c - 48)) t

value-digits :
    (rounds n : ℕ) (out : Text) → n < rounds → value 0 (digits rounds n out) ≡ value n out
unfolding digits
value-digits zero n out h = absurd (omega arith)
value-digits (suc rounds) n out h = elim (Bool-cases (ltb n 10)) [
  | inl e ↦ let k : 0 * 10 + (48 + n - 48) ≡ n = omega arith in rw e (ap (λ (m : ℕ). value m out) k)
  | inr e ↦
      let m : 10 ≤ n = ground arith in
      let k : n / 10 * 10 + (48 + n % 10 - 48) ≡ n = omega arith in
      rw e (
        value-digits rounds (n / 10) ((48 + n % 10) ∷ out) (omega (arith, m))
        ∙ ap (λ (j : ℕ). value j out) k)
]

pub value-decimal : (n : ℕ) → value 0 (decimal n) ≡ n
unfolding decimal
value-decimal n = value-digits (suc n) n [] (omega arith)

value-zeros : (w : ℕ) (t : Text) → value 0 (zeros w t) ≡ value 0 t
value-zeros zero t = refl
value-zeros (suc w) t = value-zeros w t

pub value-pad : (w n : ℕ) → value 0 (pad w n) ≡ n
unfolding pad
value-pad w n = value-zeros (w - length (decimal n)) (decimal n) ∙ value-decimal n

pub lacks-append :
    (sep : ℕ) (a b : Text) → lacks sep a ≡ true → lacks sep b ≡ true → lacks sep (a ++ b) ≡ true
lacks-append sep [] b ha hb = hb
lacks-append sep (c ∷ a) b ha hb = ground (arith, lacks-append sep a b)

-- Separators stand before the digits in the table of characters.
module _ (sep : ℕ) (low : sep < 48) where
  digits-lacks :
      (rounds n : ℕ) (out : Text) → lacks sep out ≡ true → lacks sep (digits rounds n out) ≡ true
  unfolding digits
  digits-lacks zero n out h = h
  digits-lacks (suc rounds) n out h =
      ground (arith, digits-lacks rounds (n / 10) ((48 + n % 10) ∷ out))

  pub decimal-lacks : (n : ℕ) → lacks sep (decimal n) ≡ true
  unfolding decimal
  decimal-lacks n = digits-lacks (suc n) n [] refl

  zeros-lacks : (w : ℕ) (t : Text) → lacks sep t ≡ true → lacks sep (zeros w t) ≡ true
  zeros-lacks zero t h = h
  zeros-lacks (suc w) t h = ground (arith, zeros-lacks w t)

  pub pad-lacks : (w n : ℕ) → lacks sep (pad w n) ≡ true
  unfolding pad
  pad-lacks w n = zeros-lacks (w - length (decimal n)) (decimal n) (decimal-lacks n)

abbrev pub pow10 : ℕ → ℕ
pow10 zero = 1
pow10 (suc k) = 10 * pow10 k

length-digits :
    (k rounds n : ℕ) (out : Text)
    → n < rounds
    → n < pow10 (suc k)
    → length (digits rounds n out) ≤ suc k + length out
unfolding digits
length-digits k zero n out h b = absurd (omega arith)
length-digits zero (suc rounds) n out h b =
    let e : ltb n 10 ≡ true = ground arith in rw e (omega arith)
length-digits (suc k) (suc rounds) n out h b = elim (Bool-cases (ltb n 10)) [
  | inl e ↦ rw e (omega arith)
  | inr e ↦
      let m : 10 ≤ n = ground arith in
      rw e (
        omega (
          arith,
          length-digits k rounds (n / 10) ((48 + n % 10) ∷ out) (omega (arith, m))
              (omega (arith, b)),
        ))
]

pub length-decimal : (k n : ℕ) → n < pow10 (suc k) → length (decimal n) ≤ suc k
unfolding decimal
length-decimal k n h = omega (arith, length-digits k (suc n) n [] (omega arith) h)

length-zeros : (w : ℕ) (t : Text) → length (zeros w t) ≡ w + length t
length-zeros zero t = omega arith
length-zeros (suc w) t = omega (arith, length-zeros w t)

-- As wide as asked for, where the number fits.
pub length-pad : (k n : ℕ) → n < pow10 (suc k) → length (pad (suc k) n) ≡ suc k
unfolding pad
length-pad k n h =
    omega (arith, length-zeros (suc k - length (decimal n)) (decimal n), length-decimal k n h)
