-- ===== src/Generator/Samples.antt =====
-- Test data of the generator: a source that draws the least value each time, and counts its draws.
use observability_lab.Prelude.{ℕ, suc, String, arith, refl, List, [], ◌∷◌, inl}
use observability_lab.Generator.Rows.{Random, generate_rows}
use observability_lab.Generator.Exact.{IsExact, generate_rows-IsExact}

abbrev first : List String → ℕ → String × ℕ
first [] n = ("", suc n)
first (x ∷ xs) n = (x, suc n)

abbrev least : Random
least = record {
  Rng = ℕ;
  randint = λ a b n. (a, suc n);
  choice = first;
  uniform = λ a b n. (a, suc n);
  randint_range = λ a b n h. (omega arith, h);
  choice_member = λ x xs n. inl refl;
  uniform_range = λ a b n h. (omega arith, h);
}

generate_rows-IsExact_example : IsExact 2 0 5 (generate_rows least "load-1" 5 2 0)
generate_rows-IsExact_example = generate_rows-IsExact least "load-1" 5 2 0 (omega arith)
