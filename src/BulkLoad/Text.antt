-- ===== src/BulkLoad/Text.antt =====
-- Text as the list of its code points, and Python's decimal formats.
use Prim.Native.Char.{code}
use observability_lab.Prelude.{
  ℕ, zero, suc, String, Bool, true, not, ◌&&◌, List, [], ◌∷◌, ◌++◌, length, eqb, ltb, ◌+◌, ◌-◌, ◌/◌,
  ◌%◌, if◌then◌else◌,
}

abbrev pub Text : Type 0
Text = List ℕ

abbrev pub codes : String → Text
codes String.[] = []
codes (String.◌∷◌ c s) = code c ∷ codes s

-- The text does not hold the character.
abbrev pub lacks : ℕ → Text → Bool
lacks sep [] = true
lacks sep (c ∷ t) = not (eqb c sep) && lacks sep t

-- The digits of a number before a text, with the rounds that it may take.
unfoldable pub digits : ℕ → ℕ → Text → Text
digits zero n out = out
digits (suc rounds) n out =
    let rest = digits rounds (n / 10) ((48 + n % 10) ∷ out) in
    if ltb n 10 then (48 + n) ∷ out else rest

-- `str(n)`
unfoldable pub decimal : ℕ → Text
decimal n = digits (suc n) n []

abbrev pub zeros : ℕ → Text → Text
zeros zero t = t
zeros (suc n) t = 48 ∷ zeros n t

-- `f"{n:0wd}"`
unfoldable pub pad : ℕ → ℕ → Text
pad w n = zeros (w - length (decimal n)) (decimal n)

-- `f"{amount:.2f}"` of an amount in hundredths
unfoldable pub fixed : ℕ → Text
fixed c = decimal (c / 100) ++ (46 ∷ pad 2 (c % 100))

-- `sep.join(parts)`
abbrev pub join : ℕ → List Text → Text
join sep [] = []
join sep (p ∷ []) = p
join sep (p ∷ q ∷ ps) = p ++ (sep ∷ join sep (q ∷ ps))
