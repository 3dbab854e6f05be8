-- ===== src/Tests/MultiArray.antt =====
-- Runs of QOpcUaMultiDimensionalArray on arrays of numbers.
use qtopcua.Prelude.{ℕ, ◌≡◌, refl, true, length, List, [], ◌∷◌, some, arith}
use qtopcua.MultiArray.{
  MultiDimensionalArray, found, out_of_range, of_value, of_dimensions, array_index, value_at,
  set_value, is_valid,
}
use qtopcua.MultiArray.Index.{array_index-row_major}
use qtopcua.MultiArray.Elements.{set_value-value_at, wrapped_dimensions, value_at-of_dimensions}

-- Two rows of three.
abbrev values : List ℕ
values = 10 ∷ 11 ∷ 12 ∷ 20 ∷ 21 ∷ 22 ∷ []

array_index-row_major_example : array_index (of_value values (2 ∷ 3 ∷ [])) (1 ∷ 2 ∷ []) ≡ some 5
array_index-row_major_example =
    array_index-row_major values (2 ∷ 3 ∷ []) (1 ∷ 2 ∷ []) (omega arith, (omega arith, tt)) refl
      (omega arith)

set_value-value_at_example :
    (a : MultiDimensionalArray ℕ) × (set_value (of_value values (2 ∷ 3 ∷ [])) (1 ∷ 2 ∷ []) 7
      ≡ found a)
    × (value_at a (1 ∷ 2 ∷ []) ≡ found 7)
set_value-value_at_example =
    set_value-value_at values (2 ∷ 3 ∷ []) (1 ∷ 2 ∷ []) (1 ∷ 2 ∷ []) 7
      (omega arith, (omega arith, tt)) (omega arith, (omega arith, tt)) refl (omega arith)

wrapped_dimensions_example :
    value_at (of_value {V = ℕ} [] (65536 ∷ 65536 ∷ [])) (5 ∷ 7 ∷ []) ≡ out_of_range
wrapped_dimensions_example = wrapped_dimensions {V = ℕ} 5 7 (omega arith) (omega arith)

value_at-of_dimensions_example :
    (a : MultiDimensionalArray ℕ) × (of_dimensions 0 (2 ∷ 3 ∷ []) ≡ some a)
    × (is_valid a ≡ true)
    × (length a.value ≡ 6)
    × (value_at a (1 ∷ 2 ∷ []) ≡ found 0)
value_at-of_dimensions_example =
    value_at-of_dimensions {V = ℕ} 0 (2 ∷ 3 ∷ []) (1 ∷ 2 ∷ []) (omega arith, (omega arith, tt))
      (omega arith) (omega arith)
