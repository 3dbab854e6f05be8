-- ===== src/Prelude/Maps.antt =====
-- QHash with numbers as keys: an association list with one entry for each key.
use Prim.Native.Nat.{ℕ}
use mathlib.Core.Path.{◌≡◌, refl}
use mathlib.Core.Logic.{inl, inr}
use mathlib.Core.Bool.{Bool, true, false, ◌&&◌}
use mathlib.Core.Option.{Option, none, some}
use mathlib.Core.List.{List, [], ◌∷◌}
use native.Mathlib.Omega.{arith}
use qtopcua.Prelude.Tests.{Bool-cases, Option-cases, if◌then◌else◌, ◌==◌}

abbrev pub Map {ℓ} : Type ℓ → Type ℓ
Map V = List (ℕ × V)

module _ {ℓ} {V : Type ℓ} where
  unfoldable pub find : ℕ → Map V → Option V
  find k [] = none
  find k ((j, v) ∷ m) = if j == k then some v else find k m

  -- `operator[]` and an assignment: the entry is replaced, or added at the end.
  unfoldable pub insert : ℕ → V → Map V → Map V
  insert k v [] = (k, v) ∷ []
  insert k v ((j, w) ∷ m) = if j == k then (k, v) ∷ m else (j, w) ∷ insert k v m

  unfoldable pub remove : ℕ → Map V → Map V
  remove k [] = []
  remove k ((j, w) ∷ m) = let rest = remove k m in if j == k then rest else (j, w) ∷ rest

  abbrev pub is_empty : Map V → Bool
  is_empty [] = true
  is_empty (e ∷ m) = false

  pub find-nil : (k : ℕ) → find k [] ≡ none
  unfolding find
  find-nil k = refl

  pub find-cons :
      (k j : ℕ) (v : V) (m : Map V) → find k ((j, v) ∷ m) ≡ (if j == k then some v else find k m)
  unfolding find
  find-cons k j v m = refl

  pub find-insert :
      (k j : ℕ) (v : V) (m : Map V) → find j (insert k v m) ≡ (if k == j then some v else find j m)
  unfolding find insert
  find-insert k j v [] = refl
  find-insert k j v ((i, w) ∷ m) = ground (arith, find-insert k j v m)

  pub find-remove :
      (k j : ℕ) (m : Map V) → find j (remove k m) ≡ (if k == j then none else find j m)
  unfolding find remove
  find-remove k j [] = ground arith
  find-remove k j ((i, w) ∷ m) = ground (arith, find-remove k j m)

-- No key has two entries.
abbrev pub IsUnique {ℓ} : {V : Type ℓ} → Map V → Type ℓ
IsUnique [] = Unit
IsUnique ((k, v) ∷ m) = (find k m ≡ none) × IsUnique m

module _ {ℓ} {V : Type ℓ} where
  pub insert-IsUnique : (k : ℕ) (v : V) (m : Map V) → IsUnique m → IsUnique (insert k v m)
  unfolding find insert
  insert-IsUnique k v [] u = (refl, tt)
  insert-IsUnique k v ((j, w) ∷ m) u = elim (Bool-cases (j == k)) [
    | inl same ↦ rw same (ground (arith, u.0), u.1)
    | inr new ↦ rw new (ground (arith, u.0, find-insert k j v m), insert-IsUnique k v m u.1)
  ]

  pub remove-IsUnique : (k : ℕ) (m : Map V) → IsUnique m → IsUnique (remove k m)
  unfolding remove
  remove-IsUnique k [] u = tt
  remove-IsUnique k ((j, w) ∷ m) u = elim (Bool-cases (j == k)) [
    | inl same ↦ rw same (remove-IsUnique k m u.1)
    | inr other ↦ rw other (ground (arith, u.0, find-remove k j m), remove-IsUnique k m u.1)
  ]

-- A hash of hashes.
module _ {ℓ} {V : Type ℓ} where
  abbrev pub inner : Option (Map V) → Map V
  inner none = []
  inner (some m) = m

  unfoldable pub find2 : ℕ → ℕ → Map (Map V) → Option V
  find2 h a m = find a (inner (find h m))

  pub find2-missing : (h a : ℕ) (m : Map (Map V)) → find h m ≡ none → find2 h a m ≡ none
  unfolding find2 find
  find2-missing h a m e = rw e refl

  pub find2-found :
      (h a : ℕ) (m : Map (Map V)) (i : Map V) → find h m ≡ some i → find2 h a m ≡ find a i
  unfolding find2
  find2-found h a m i e = rw e refl

  pub find2-nil : (h a : ℕ) → find2 h a [] ≡ none
  unfolding find2 find
  find2-nil h a = refl

  pub find2-cons :
      (j a h : ℕ) (i : Map V) (m : Map (Map V))
      → find2 j a ((h, i) ∷ m) ≡ (if h == j then find a i else find2 j a m)
  unfolding find2 find
  find2-cons j a h i m = elim (Bool-cases (h == j)) [
    | inl same ↦ rw same refl
    | inr other ↦ rw other refl
  ]

  -- `m[h][a] = v`
  unfoldable pub insert2 : ℕ → ℕ → V → Map (Map V) → Map (Map V)
  insert2 h a v m = insert h (insert a v (inner (find h m))) m

  -- The entry of `h` is erased with the last entry in it.
  unfoldable pub remove2 : ℕ → ℕ → Map (Map V) → Map (Map V)
  remove2 h a m = elim (find h m) [
    | none ↦ m
    | some i ↦ let rest = remove a i in if is_empty rest then remove h m else insert h rest m
  ]

  find-is_empty : (a : ℕ) (m : Map V) → is_empty m ≡ true → find a m ≡ none
  unfolding find
  find-is_empty a [] h = refl
  find-is_empty a (e ∷ m) h = cc

  pub find2-insert2 :
      (h a j b : ℕ) (v : V) (m : Map (Map V))
      → find2 j b (insert2 h a v m) ≡ (if h == j && a == b then some v else find2 j b m)
  unfolding find2 insert2
  find2-insert2 h a j b v m = ground (
    arith,
    find-insert h j (insert a v (inner (find h m))) m,
    find-insert a b v (inner (find h m)),
  )

  pub find2-remove2 :
      (h a j b : ℕ) (m : Map (Map V))
      → find2 j b (remove2 h a m) ≡ (if h == j && a == b then none else find2 j b m)
  unfolding find2 remove2 find
  find2-remove2 h a j b m = elim (Option-cases (find h m)) [
    | inl missing ↦ rw (missing, remove2) (ground (arith, missing))
    | inr found ↦ elim (Bool-cases (is_empty (remove a found.0))) [
      | inl last ↦
          rw (found.1, remove2)
            (rw last (
              ground (
                arith,
                found.1,
                find-remove h j m,
                find-remove a b found.0,
                find-is_empty b (remove a found.0),
              )))
      | inr more ↦
          rw (found.1, remove2)
            (rw more (
              ground
                (arith, found.1, find-insert h j (remove a found.0) m, find-remove a b found.0)))
    ]
  ]

-- No key has two entries, in the outer hash and in the inner ones.
abbrev pub IsUnique2 {ℓ} : {V : Type ℓ} → Map (Map V) → Type ℓ
IsUnique2 m = IsUnique m × ((h : ℕ) → IsUnique (inner (find h m)))

module _ {ℓ} {V : Type ℓ} (h a : ℕ) (m : Map (Map V)) (u : IsUnique2 m) where
  pub insert2-IsUnique2 : (v : V) → IsUnique2 (insert2 h a v m)
  unfolding insert2
  insert2-IsUnique2 v = (
    insert-IsUnique h (insert a v (inner (find h m))) m u.0,
    λ j. elim (Bool-cases (h == j)) [
      | inl same ↦
          rw (find-insert h j (insert a v (inner (find h m))) m)
            (rw same (insert-IsUnique a v (inner (find h m)) (u.1 h)))
      | inr other ↦ rw (find-insert h j (insert a v (inner (find h m))) m) (rw other (u.1 j))
    ],
  )

  pub remove2-IsUnique2 : IsUnique2 (remove2 h a m)
  unfolding remove2
  remove2-IsUnique2 = elim (Option-cases (find h m)) [
    | inl missing ↦ rw (missing, remove2) u
    | inr found ↦
        let left : IsUnique (remove a found.0) =
          remove-IsUnique a found.0 (rw found.1 at (u.1 h)) in
        elim (Bool-cases (is_empty (remove a found.0))) [
          | inl last ↦
              rw (found.1, remove2)
                (rw last (
                  remove-IsUnique h m u.0,
                  λ j. elim (Bool-cases (h == j)) [
                    | inl same ↦ rw (find-remove h j m) (rw same tt)
                    | inr other ↦ rw (find-remove h j m) (rw other (u.1 j))
                  ],
                ))
          | inr more ↦
              rw (found.1, remove2)
                (rw more (
                  insert-IsUnique h (remove a found.0) m u.0,
                  λ j. elim (Bool-cases (h == j)) [
                    | inl same ↦ rw (find-insert h j (remove a found.0) m) (rw same left)
                    | inr other ↦ rw (find-insert h j (remove a found.0) m) (rw other (u.1 j))
                  ],
                ))
        ]
  ]
