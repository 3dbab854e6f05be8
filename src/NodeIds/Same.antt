-- ===== src/NodeIds/Same.antt =====
-- QOpcUa::nodeIdEquals and QOpcUa::nodeIdStringSplit on node ids with and without a namespace.
use qtopcua.Prelude.{
  ℕ, ◌^◌, ◌<◌, ◌≡◌, ◌≢◌, ◌↔◌, refl, sym, ap, ◌∙◌, Bool, true, false, [], ◌∷◌, ◌++◌, some, ◌==◌,
  if◌then◌else◌, Bool-cases, inl, inr, All, arith,
}
use qtopcua.Qt.Text.{Text, starts_with, split, split-without, IsDigit}
use qtopcua.Qt.Api.{Qt}
use qtopcua.NodeIds.{
  Parts, ns_prefix, ns0_prefix, has_identifier_type, node_id_text, node_id_string_split,
  split_components, node_id_equals,
}
use qtopcua.NodeIds.Split.{IsPlain, last_back, split_node_id_text}
use qtopcua.NodeIds.Equals.{canonical, node_id_equals-canonical}

-- A node id without its namespace.
abbrev pub without_namespace : Parts → Text
without_namespace p = p.identifier_type ∷ b'=' ∷ p.identifier

-- A namespace index of 16 bits, one of the four types and an identifier that is not empty and has
-- no semicolon; only namespace 0 may be left out.
pub record IsWritable (with_namespace : Bool) (p : Parts) : Type 0 where
  pub small : p.ns_index < 2 ^ 16
  pub known : has_identifier_type (without_namespace p) ≡ true
  pub plain : IsPlain p.identifier
  pub full : p.identifier ≢ []
  pub left_out : with_namespace ≡ false → p.ns_index ≡ 0

module _ ⦃qt : Qt⦄ where
  -- The text of a node id, with its namespace or without it.
  abbrev pub written : Bool → Parts → Text
  written true p = node_id_text p.ns_index p.identifier_type p.identifier
  written false p = without_namespace p

  split-without_namespace :
      (p : Parts) → IsWritable false p → node_id_string_split (without_namespace p) ≡ some p
  unfolding node_id_string_split
  split-without_namespace p h =
      let zero_ns : p.ns_index ≡ 0 = h.left_out refl in
      let type_plain : p.identifier_type ≢ b';' = λ e. let known = h.known in ground arith in
      let one : split b';' (without_namespace p) ≡ without_namespace p ∷ [] =
        split-without b';' (without_namespace p) (type_plain, (omega arith, h.plain)) in
      rw (one, node_id_string_split, split_components)
        (last_back 0 p.identifier_type p.identifier p.identifier h.known h.full
          ∙ ap (λ n. some (record p { ns_index = n })) (sym zero_ns))

  -- The text of a node id is split into its parts.
  split-written :
      (b : Bool) (p : Parts) → IsWritable b p → node_id_string_split (written b p) ≡ some p
  split-written true p h =
      split_node_id_text p.ns_index p.identifier_type p.identifier h.small h.known h.plain h.full
  split-written false p h = split-without_namespace p h

  -- No node id without a namespace looks as if it had one.
  no_namespace :
      (p : Parts)
      → has_identifier_type (without_namespace p) ≡ true
      → starts_with ns_prefix (without_namespace p) ≡ false
  no_namespace p known = ground arith

  -- Only the number 0 is written as "0".
  prefix_of_zero :
      (s rest : Text)
      → All IsDigit s
      → s ≢ []
      → starts_with ns0_prefix (ns_prefix ++ (s ++ (b';' ∷ rest))) ≡ true
      → s ≡ b'0' ∷ []
  prefix_of_zero [] rest d full h = absurd (full refl)
  prefix_of_zero (c ∷ []) rest d full h = ground arith
  prefix_of_zero (c ∷ e ∷ s) rest d full h = ground (arith, d.1.0)

  not_zero :
      (n : ℕ) (rest : Text)
      → n < 2 ^ 16
      → n ≢ 0
      → starts_with ns0_prefix (ns_prefix ++ (qt.number n ++ (b';' ∷ rest))) ≡ false
  not_zero n rest small other =
      elim (Bool-cases (starts_with ns0_prefix (ns_prefix ++ (qt.number n ++ (b';' ∷ rest))))) [
        | inl starts ↦
            let text : qt.number n ≡ b'0' ∷ [] =
              prefix_of_zero (qt.number n) rest (qt.number_digits n) (qt.number-ne-nil n) starts in
            let same : some n ≡ some 0 =
              sym (qt.to_uint-number n (omega arith))
              ∙ ap qt.to_uint (text ∙ sym qt.number_zero)
              ∙ qt.to_uint-number 0 (omega arith) in
            absurd (other (cc))
        | inr differs ↦ differs
      ]

  -- The form of a node id that leaves out namespace 0.
  abbrev shortest : Parts → Text
  shortest p = written (if p.ns_index == 0 then false else true) p

  canonical-written : (b : Bool) (p : Parts) → IsWritable b p → canonical (written b p) ≡ shortest p
  canonical-written true p h = elim (Bool-cases (p.ns_index == 0)) [
    | inl zero_ns ↦
        let e : p.ns_index ≡ 0 = ground arith in
        rw zero_ns (rw e (rw qt.number_zero (rw (no_namespace p h.known) refl)))
    | inr other ↦
        let ne : p.ns_index ≢ 0 = λ e. ground arith in
        rw other (rw (not_zero p.ns_index (without_namespace p) h.small ne) refl)
  ]
  canonical-written false p h =
      let zero_ns : (p.ns_index == 0) ≡ true = let e = h.left_out refl in ground arith in
      let none_there : starts_with ns0_prefix (without_namespace p) ≡ false =
        let known = h.known in ground arith in
      rw zero_ns (rw none_there refl)

  split-shortest :
      (b : Bool) (p : Parts) → IsWritable b p → node_id_string_split (shortest p) ≡ some p
  split-shortest b p h = split-written (if p.ns_index == 0 then false else true) p (record {
    small = h.small;
    known = h.known;
    plain = h.plain;
    full = h.full;
    left_out = λ e. ground arith;
  })

  -- Two node id texts are equal for nodeIdEquals exactly if nodeIdStringSplit takes them apart into
  -- the same namespace index, type and identifier. Each text is made from a namespace index of 16
  -- bits, printed without leading zeros, one of the four types and an identifier that is not empty
  -- and has no semicolon, and namespace 0 may be left out of it.
  pub node_id_equals-node_id_string_split :
      (b c : Bool) (p q : Parts)
      → IsWritable b p
      → IsWritable c q
      → (node_id_equals (written b p) (written c q) ≡ true)
        ↔ (node_id_string_split (written b p) ≡ node_id_string_split (written c q))
  node_id_equals-node_id_string_split b c p q h k =
      let iff = node_id_equals-canonical (written b p) (written c q) in
      let left = canonical-written b p h in
      let right = canonical-written c q k in
      (
        λ e.
            let shortest_same : shortest p ≡ shortest q = sym left ∙ iff.0 e ∙ right in
            split-written b p h
            ∙ sym (split-shortest b p h)
            ∙ ap node_id_string_split shortest_same
            ∙ split-shortest c q k
            ∙ sym (split-written c q k),
        λ e.
            let parts : some p ≡ some q = sym (split-written b p h) ∙ e ∙ split-written c q k in
            let same : p ≡ q = cc in iff.1 (left ∙ ap shortest same ∙ sym right),
      )
