-- ===== src/MultiArray.antt =====
-- QOpcUaMultiDimensionalArray (opcua/client/qopcuamultidimensionalarray.cpp): a list of values
-- with array dimensions in row-major order.
pub mod Index
pub mod Elements
use qtopcua.Prelude.{
  int_max, ℕ, zero, suc, ◌+◌, ◌-◌, ◌*◌, ◌%◌, ◌^◌, Bool, true, false, not, ◌||◌, ◌&&◌, List, [], ◌∷◌,
  Option, none, some, ltb, leb, ◌==◌, if◌then◌else◌, length,
}

pub record MultiDimensionalArray {ℓ} (V : Type ℓ) : Type ℓ where
  pub value : List V
  pub array_dimensions : List ℕ
  pub expected_array_length : ℕ

abbrev pub uint_max : ℕ
uint_max = 2 ^ 32 - 1

-- std::accumulate with std::multiplies<quint32>.
abbrev pub accumulate : ℕ → List ℕ → ℕ
accumulate acc [] = acc
accumulate acc (d ∷ dimensions) = accumulate (acc * d % 2 ^ 32) dimensions

-- The stride of a dimension from that of the next one, if there is a next one.
abbrev pub next_stride : List ℕ → ℕ → ℕ
next_stride [] stride = stride
next_stride (next ∷ others) stride = stride * next % 2 ^ 32

-- The index and the stride after the iterations for some last dimensions, the last one first; none
-- is the early return of -1.
unfoldable pub index_loop : List ℕ → List ℕ → Option (ℕ × ℕ)
index_loop (d ∷ dimensions) (i ∷ indices) = elim (index_loop dimensions indices) [
  | none ↦ none
  | some state ↦
      let stride = next_stride dimensions state.1 in
      if leb d i then none else some ((state.0 + stride * i) % 2 ^ 32, stride)
]
index_loop dimensions indices = some (0, 1)

-- What an access to a list by an index that may not exist gives; `out_of_range` is undefined.
pub data Access {ℓ} (A : Type ℓ) : Type ℓ where
  invalid_index : Access A
  found : A → Access A
  out_of_range : Access A

abbrev pub at {ℓ} : {A : Type ℓ} → List A → ℕ → Access A
at [] n = out_of_range
at (x ∷ xs) zero = found x
at (x ∷ xs) (suc n) = at xs n

abbrev pub replace_at {ℓ} : {A : Type ℓ} → List A → ℕ → A → Access (List A)
replace_at [] n a = out_of_range
replace_at (x ∷ xs) zero a = found (a ∷ xs)
replace_at (x ∷ xs) (suc n) a = elim (replace_at xs n a) [
  | invalid_index ↦ invalid_index
  | found ys ↦ found (x ∷ ys)
  | out_of_range ↦ out_of_range
]

module _ {ℓ} {V : Type ℓ} where
  -- The constructor from a value array and dimensions, by the two setters.
  unfoldable pub of_value : List V → List ℕ → MultiDimensionalArray V
  of_value value dimensions = record {
    value = value;
    array_dimensions = dimensions;
    expected_array_length = accumulate 1 dimensions;
  }

  -- `append` in a loop.
  abbrev pub replicate : ℕ → V → List V
  replicate zero v = []
  replicate (suc n) v = v ∷ replicate n v

  -- The constructor from dimensions, with empty values; none where they are more than a QList can
  -- hold, whose size is an int.
  unfoldable pub of_dimensions : V → List ℕ → Option (MultiDimensionalArray V)
  unfolding of_value
  of_dimensions empty dimensions =
      let expected = accumulate 1 dimensions in
      if ltb int_max expected then none else some (of_value (replicate expected empty) dimensions)

  -- none is the index -1.
  unfoldable pub array_index : MultiDimensionalArray V → List ℕ → Option ℕ
  array_index a indices =
      if ltb int_max a.expected_array_length || ltb uint_max (length a.value)
      then none
      else if not (length indices == length a.array_dimensions)
          || not (a.expected_array_length == length a.value % 2 ^ 32)
      then none
      else (elim (index_loop a.array_dimensions indices) [
        | none ↦ none
        | some state ↦ if leb state.0 int_max then some state.0 else none
      ])

  -- `invalid_index` is the empty QVariant.
  unfoldable pub value_at : MultiDimensionalArray V → List ℕ → Access V
  value_at a indices = elim (array_index a indices) [
    | none ↦ invalid_index
    | some index ↦ at a.value index
  ]

  -- `invalid_index` is the result false.
  unfoldable pub set_value : MultiDimensionalArray V → List ℕ → V → Access (MultiDimensionalArray V)
  set_value a indices v = elim (array_index a indices) [
    | none ↦ invalid_index
    | some index ↦ elim (replace_at a.value index v) [
      | invalid_index ↦ invalid_index
      | found values ↦ found (record a { value = values })
      | out_of_range ↦ out_of_range
    ]
  ]

  unfoldable pub is_valid : MultiDimensionalArray V → Bool
  is_valid a =
      length a.value == a.expected_array_length
      && leb (length a.value) uint_max
      && leb (length a.array_dimensions) uint_max
