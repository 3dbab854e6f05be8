-- ===== src/Gds/Resolved.antt =====
-- How many methods of the directory node are known.
use qtopcua.Prelude.{
  ℕ, zero, suc, ◌≡◌, ◌≤◌, ◌<◌, refl, [], ◌∷◌, none, some, ◌==◌, length, Map, find, remove,
  find-remove, IsUnique, remove-IsUnique, Option-cases, Bool-cases, inl, inr, arith,
}
use qtopcua.Qt.Text.{QString}
use qtopcua.Qt.Api.{Qt}
use qtopcua.Gds.State.{Gds, elements_to_resolve}
use qtopcua.Gds.Reachable.{Reachable, Reachable-IsWellFormed}

-- Keys below a bound, each once.
abbrev pub IsBelow : {V : Type 0} → ℕ → Map V → Type 0
IsBelow {V = V} n m = IsUnique m × ((k : ℕ) (v : V) → find k m ≡ some v → k < n)

module _ {V : Type 0} where
  remove-missing : (k : ℕ) (m : Map V) → find k m ≡ none → remove k m ≡ m
  unfolding find remove
  remove-missing k [] e = refl
  remove-missing k ((j, v) ∷ m) e = ground (arith, remove-missing k m)

  length-remove_unique :
      (k : ℕ) (m : Map V)
      → IsUnique m
      → length m
        ≡ (elim (find k m) [ none ↦ length (remove k m) | some v ↦ suc (length (remove k m)) ])
  unfolding find remove
  length-remove_unique k [] u = refl
  length-remove_unique k ((j, v) ∷ m) u =
      ground (arith, u.0, remove-missing k m, remove-missing j m, length-remove_unique k m u.1)

  remove-IsBelow : (n : ℕ) (m : Map V) → IsBelow (suc n) m → IsBelow n (remove n m)
  remove-IsBelow n m b =
      (remove-IsUnique n m b.0, λ k v e. ground (arith, find-remove n k m, b.1 k v, e))

  below-zero : (m : Map V) → IsBelow 0 m → m ≡ []
  unfolding find
  below-zero [] b = refl
  below-zero ((k, v) ∷ m) b = absurd (ground (arith, b.1 k v))

  pub length-le : (n : ℕ) (m : Map V) → IsBelow n m → length m ≤ n
  length-le zero m b = rw (below-zero m b) (omega arith)
  length-le (suc n) m b =
      ground (arith, length-remove_unique n m b.0, length-le n (remove n m) (remove-IsBelow n m b))

  -- As many keys as there are below the bound are all of them.
  pub below-full :
      (n : ℕ) (m : Map V) (k : ℕ)
      → IsBelow n m
      → length m ≡ n
      → k < n
      → (v : V) × (find k m ≡ some v)
  below-full zero m k b e l = absurd (omega arith)
  below-full (suc n) m k b e l =
      let b' = remove-IsBelow n m b in
      let most = length-le n (remove n m) b' in
      let counted = length-remove_unique n m b.0 in
      elim (Option-cases (find n m)) [
        | inl missing ↦ absurd (ground (arith, missing, most, counted))
        | inr last ↦ elim (Bool-cases (n == k)) [
          | inl same ↦ (last.0, ground (arith, last.1, same))
          | inr other ↦
              let found =
                below-full n (remove n m) k b' (ground (arith, last.1, counted)) (ground arith) in
              (found.0, ground (arith, found.1, find-remove n k m, other))
        ]
      ]

module _ ⦃qt : Qt⦄ (g : Gds) (reached : Reachable g) where
  known_names : IsBelow 9 g.m_directory_nodes
  known_names = let w = Reachable-IsWellFormed g reached in (w.names_unique, w.names_known)

-- There are no more entries than names to resolve.
pub method_names-length : ⦃qt : Qt⦄ (g : Gds) → Reachable g → length g.m_directory_nodes ≤ 9
method_names-length g reached = length-le 9 g.m_directory_nodes (known_names g reached)

-- In every state that a discovery server client reaches, once the map of the directory has as many
-- entries as elementsToResolve, each of the nine methods has an entry; this is the test after which
-- the application is looked up.
pub method_names-full :
    ⦃qt : Qt⦄ (g : Gds) (name : ℕ)
    → Reachable g
    → length g.m_directory_nodes ≡ length elements_to_resolve
    → name < 9
    → (id : QString) × (find name g.m_directory_nodes ≡ some id)
method_names-full g name reached full known =
    below-full 9 g.m_directory_nodes name (known_names g reached) full known
