-- ===== src/MultiArray/Elements.antt =====
-- QOpcUaMultiDimensionalArray::value and setValue.
use qtopcua.Prelude.{
  int_max, ℕ, zero, suc, ◌^◌, ◌≤◌, ◌<◌, ◌≡◌, refl, sym, ap, ◌∙◌, Bool, true, false, ◌&&◌, List, [],
  ◌∷◌, some, le→ltb, arith, ◌==◌, if◌then◌else◌, length,
}
use qtopcua.MultiArray.{
  MultiDimensionalArray, found, out_of_range, at, replace_at, of_value, array_index, index_loop,
  value_at, set_value, accumulate, replicate, of_dimensions, is_valid,
}
use qtopcua.MultiArray.Index.{
  product, row_major, InRange, mul_row, row_major-bound, accumulate-product, array_index-row_major,
}

-- Whether two lists of indices are the same.
abbrev pub same_indices : List ℕ → List ℕ → Bool
same_indices [] [] = true
same_indices (i ∷ is) (j ∷ js) = i == j && same_indices is js
same_indices is js = false

-- Elements of different indices are at different places.
row_major-same :
    (ds is js : List ℕ)
    → InRange ds is
    → InRange ds js
    → (row_major ds is == row_major ds js) ≡ same_indices is js
row_major-same [] [] [] r s = refl
row_major-same (d ∷ ds) (i ∷ is) (j ∷ js) r s = ground (
  arith,
  row_major-same ds is js r.1 s.1,
  row_major-bound ds is r.1,
  row_major-bound ds js s.1,
  mul_row i j (product ds),
  mul_row j i (product ds),
)
row_major-same [] (i ∷ is) js r s = absurd r
row_major-same [] [] (j ∷ js) r s = absurd s
row_major-same (d ∷ ds) [] js r s = absurd r
row_major-same (d ∷ ds) (i ∷ is) [] r s = absurd s

pub record Replaced {ℓ} {A : Type ℓ} (xs : List A) (n : ℕ) (a : A) : Type ℓ where
  pub list : List A
  pub done : replace_at xs n a ≡ found list
  pub size : length list ≡ length xs
  pub element : (m : ℕ) → at list m ≡ (if n == m then found a else at xs m)

replaced {ℓ} : {A : Type ℓ} (xs : List A) (n : ℕ) (a : A) → n < length xs → Replaced xs n a
replaced [] n a h = absurd (omega arith)
replaced (x ∷ xs) zero a h = record { list = a ∷ xs; done = refl; size = refl; element = element }
  where
    element : (m : ℕ) → at (a ∷ xs) m ≡ (if 0 == m then found a else at (x ∷ xs) m)
    element zero = refl
    element (suc m) = let other : (0 == suc m) ≡ false = ground arith in rw other refl
replaced (x ∷ xs) (suc n) a h =
    let rest = replaced xs n a (omega arith) in
    record {
      list = x ∷ rest.list;
      done = rw (rest.done, replace_at) refl;
      size = ap suc rest.size;
      element = element rest;
    }
  where
    element :
        (r : Replaced xs n a) (m : ℕ)
        → at (x ∷ r.list) m ≡ (if suc n == m then found a else at (x ∷ xs) m)
    element r zero = let other : (suc n == 0) ≡ false = ground arith in rw other refl
    element r (suc m) =
        let same : (suc n == suc m) ≡ (n == m) = ground arith in rw same (r.element m)

module _ {ℓ} {V : Type ℓ} (values : List V) (ds is : List ℕ) (r : InRange ds is)
    (fits : length values ≡ product ds) (small : product ds ≤ int_max) where
  value_at-row_major : value_at (of_value values ds) is ≡ at values (row_major ds is)
  unfolding value_at of_value
  value_at-row_major = rw (array_index-row_major values ds is r fits small, value_at) refl

  set_value-row_major :
      (v : V) (new : Replaced values (row_major ds is) v)
      → set_value (of_value values ds) is v ≡ found (of_value new.list ds)
  unfolding set_value of_value
  set_value-row_major v new =
      rw (array_index-row_major values ds is r fits small, set_value)
        (rw (new.done, set_value) refl)

-- Setting a value succeeds, and afterwards the value at the same indices is the new one and the
-- value at any other indices is as before, if all indices lie within their dimensions, the number
-- of values is the product of the dimensions, and this product is an int.
pub set_value-value_at {ℓ} :
    {V : Type ℓ} (values : List V) (ds is js : List ℕ) (v : V)
    → InRange ds is
    → InRange ds js
    → length values ≡ product ds
    → product ds ≤ int_max
    → (a : MultiDimensionalArray V) × (set_value (of_value values ds) is v ≡ found a)
      × (value_at a js ≡ (if same_indices is js then found v else value_at (of_value values ds) js))
set_value-value_at values ds is js v r s fits small =
    let new = replaced values (row_major ds is) v (omega (arith, row_major-bound ds is r, fits)) in
    (
      of_value new.list ds,
      set_value-row_major values ds is r fits small v new,
      rw (← row_major-same ds is js r s) (
          value_at-row_major new.list ds js s (new.size ∙ fits) small
          ∙ new.element (row_major ds js)
          ∙ ap (λ old. if row_major ds is == row_major ds js then found v else old)
              (sym (value_at-row_major values ds js s fits small))),
    )

-- In an array without values whose dimensions are 65536 and 65536, reading at a first index below
-- 32768 and a second index below 65536 goes behind the end of the list of values.
pub wrapped_dimensions {ℓ} :
    {V : Type ℓ} (i j : ℕ)
    → i < 2 ^ 15
    → j < 2 ^ 16
    → value_at (of_value {V = V} [] (2 ^ 16 ∷ 2 ^ 16 ∷ [])) (i ∷ j ∷ []) ≡ out_of_range
unfolding value_at of_value array_index index_loop
wrapped_dimensions i j h k = ground arith

length-replicate {ℓ} : {V : Type ℓ} (n : ℕ) (v : V) → length (replicate n v) ≡ n
length-replicate zero v = refl
length-replicate (suc n) v = ap suc (length-replicate n v)

at-replicate {ℓ} : {V : Type ℓ} (n m : ℕ) (v : V) → m < n → at (replicate n v) m ≡ found v
at-replicate zero m v h = absurd (omega arith)
at-replicate (suc n) zero v h = refl
at-replicate (suc n) (suc m) v h = at-replicate n m v (omega arith)

-- An array that is made from fewer than 2^32 dimensions is valid, has as many values as the product
-- of its dimensions, and reads as the empty value at every list of indices that lie within their
-- dimensions, if there is such a list and the product is an int.
pub value_at-of_dimensions {ℓ} :
    {V : Type ℓ} (empty : V) (ds is : List ℕ)
    → InRange ds is
    → length ds < 2 ^ 32
    → product ds ≤ int_max
    → (a : MultiDimensionalArray V) × (of_dimensions empty ds ≡ some a)
      × (is_valid a ≡ true)
      × (length a.value ≡ product ds)
      × (value_at a is ≡ found empty)
unfolding is_valid of_dimensions of_value
value_at-of_dimensions {V = V} empty ds is r few small =
    let expected : accumulate 1 ds ≡ product ds =
      accumulate-product ds is 1 r (omega (arith, small)) ∙ omega arith in
    let values : List V = replicate (product ds) empty in
    let size : length values ≡ product ds = length-replicate (product ds) empty in
    (
      of_value values ds,
      rw (expected, of_dimensions) (rw (le→ltb int_max (product ds) small) refl),
      ground (arith, expected, size, few, small),
      size,
      value_at-row_major values ds is r size small
          ∙ at-replicate (product ds) (row_major ds is) empty (row_major-bound ds is r),
    )
