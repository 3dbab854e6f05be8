-- ===== src/MultiArray/Index.antt =====
-- QOpcUaMultiDimensionalArray::arrayIndex and row-major order.
use qtopcua.Prelude.{
  int_max, ℕ, suc, ◌-◌, ◌+◌, ◌*◌, ◌%◌, ◌^◌, ◌≤◌, ◌<◌, ◌≡◌, refl, ap, ◌∙◌, List, [], ◌∷◌, some,
  arith, length, lt→leb, le→ltb, ◌==◌, zero, Bool-cases, inl, inr,
}
use native.Mathlib.Nat.{mul_comm, mul_assoc}
use qtopcua.MultiArray.{accumulate, next_stride, index_loop, of_value, array_index}

abbrev pub product : List ℕ → ℕ
product [] = 1
product (d ∷ ds) = d * product ds

-- Row-major order: the last index counts the elements one by one.
abbrev pub row_major : List ℕ → List ℕ → ℕ
row_major (d ∷ ds) (i ∷ is) = i * product ds + row_major ds is
row_major ds is = 0

-- Indices within their dimensions, one for each.
abbrev pub InRange : List ℕ → List ℕ → Type 0
InRange [] [] = Unit
InRange (d ∷ ds) (i ∷ is) = (i < d) × InRange ds is
InRange ds is = ⊥

-- A row that is there lies within all rows.
pub mul_row : (i d p : ℕ) → i < d → i * p + p ≤ d * p
mul_row i zero p h = absurd (omega arith)
mul_row i (suc d) p h = elim (Bool-cases (i == d)) [
  | inl last ↦ let e : i ≡ d = ground arith in rw e (omega arith)
  | inr before ↦ omega (arith, mul_row i d p (ground arith))
]

pub row_major-bound : (ds is : List ℕ) → InRange ds is → row_major ds is < product ds
row_major-bound [] [] r = omega arith
row_major-bound (d ∷ ds) (i ∷ is) r =
    let bound = row_major-bound ds is r.1 in
    let le : i * product ds + product ds ≤ d * product ds = mul_row i d (product ds) r.0 in
    omega (arith, bound, le)
row_major-bound [] (i ∷ is) r = absurd r
row_major-bound (d ∷ ds) [] r = absurd r

-- The stride after the loop over some last dimensions.
abbrev stride_of : List ℕ → ℕ
stride_of [] = 1
stride_of (d ∷ ds) = product ds

next_stride-product :
    (ds : List ℕ) → product ds < 2 ^ 32 → next_stride ds (stride_of ds) ≡ product ds
next_stride-product [] h = refl
next_stride-product (d ∷ ds) h = rw (mul_comm (product ds) d) (omega (arith, h))

index_loop-row_major :
    (ds is : List ℕ)
    → InRange ds is
    → product ds < 2 ^ 32
    → index_loop ds is ≡ some (row_major ds is, stride_of ds)
unfolding index_loop
index_loop-row_major [] [] r h = refl
index_loop-row_major (d ∷ ds) (i ∷ is) r h =
    let row = mul_row i d (product ds) r.0 in
    let below = row_major-bound ds is r.1 in
    let small : product ds < 2 ^ 32 = omega (arith, row, h) in
    let others = index_loop-row_major ds is r.1 small in
    rw (others, index_loop)
      (rw (next_stride-product ds small) (
        rw (lt→leb d i r.0) (
          ap (λ n. some (n, product ds))
            (rw (mul_comm (product ds) i) (omega (arith, row, below, h))))))
index_loop-row_major [] (i ∷ is) r h = absurd r
index_loop-row_major (d ∷ ds) [] r h = absurd r

le_mul : (n p : ℕ) → 0 < p → n ≤ n * p
le_mul n zero h = absurd (omega arith)
le_mul n (suc p) h = omega arith

-- No product wraps around, since no dimension is 0 where an index is in range.
pub accumulate-product :
    (ds is : List ℕ) (acc : ℕ)
    → InRange ds is
    → acc * product ds < 2 ^ 32
    → accumulate acc ds ≡ acc * product ds
accumulate-product [] is acc r h = omega arith
accumulate-product (d ∷ ds) (i ∷ is) acc r h =
    let positive : 0 < product ds = omega (arith, row_major-bound ds is r.1) in
    let step : acc * d * product ds ≡ acc * (d * product ds) = mul_assoc acc d (product ds) in
    let small : acc * d < 2 ^ 32 = omega (arith, le_mul (acc * d) (product ds) positive, step, h) in
    let whole : acc * d % 2 ^ 32 ≡ acc * d = omega (arith, small) in
    rw whole (accumulate-product ds is (acc * d) r.1 (omega (arith, step, h)) ∙ step)
accumulate-product (d ∷ ds) [] acc r h = absurd r

InRange-length : (ds is : List ℕ) → InRange ds is → length is ≡ length ds
InRange-length [] [] r = refl
InRange-length (d ∷ ds) (i ∷ is) r = ap suc (InRange-length ds is r.1)
InRange-length [] (i ∷ is) r = absurd r
InRange-length (d ∷ ds) [] r = absurd r

-- The index of an element of a multi-dimensional array is its place in row-major order, if each
-- index lies within its dimension, the number of values is the product of the dimensions, and this
-- product is an int.
pub array_index-row_major {ℓ} :
    {V : Type ℓ} (values : List V) (ds is : List ℕ)
    → InRange ds is
    → length values ≡ product ds
    → product ds ≤ int_max
    → array_index (of_value values ds) is ≡ some (row_major ds is)
unfolding array_index of_value
array_index-row_major values ds is r e h =
    let expected : accumulate 1 ds ≡ product ds =
      accumulate-product ds is 1 r (omega (arith, h)) ∙ omega arith in
    let bound = row_major-bound ds is r in
    rw expected (
      rw (le→ltb int_max (product ds) h) (
        rw (le→ltb (2 ^ 32 - 1) (length values) (omega (arith, e, h))) (
          rw (index_loop-row_major ds is r (omega (arith, h)), array_index)
            (ground (arith, e, h, bound, InRange-length ds is r)))))
