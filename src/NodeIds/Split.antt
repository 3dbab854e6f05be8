-- ===== src/NodeIds/Split.antt =====
-- QOpcUa::nodeIdStringSplit on texts that QOpcUa::nodeIdFromString and its like have made.
use qtopcua.Prelude.{
  ℕ, ◌^◌, ◌<◌, ◌≡◌, ◌≢◌, refl, [], ◌∷◌, ◌++◌, some, arith, length, All, ◌∙◌, le→ltb, ap, true,
}
use qtopcua.Qt.Text.{Text, split, split-first, split-without, IsDigit}
use qtopcua.Qt.Api.{Qt}
use qtopcua.NodeIds.{
  Parts, ns_prefix, node_id_text, node_id_string_split, split_components, split_last, namespace_of,
  has_namespace, has_identifier_type,
}

abbrev pub IsPlain : Text → Type 0
IsPlain s = All (λ c. c ≢ b';') s

pub digits-IsPlain : (s : Text) → All IsDigit s → IsPlain s
digits-IsPlain [] h = tt
digits-IsPlain (c ∷ s) h = (ground arith, digits-IsPlain s h.1)

has_namespace-digits : (s : Text) → s ≢ [] → All IsDigit s → has_namespace (ns_prefix ++ s) ≡ true
has_namespace-digits [] h d = absurd (h refl)
has_namespace-digits (c ∷ s) h d = d.0

module _ ⦃qt : Qt⦄ (ns type : ℕ) (identifier : Text) where
  abbrev parts : Parts
  parts = record { ns_index = ns; identifier = identifier; identifier_type = type }

  pub components :
      IsPlain (type ∷ b'=' ∷ identifier)
      → split b';' (node_id_text ns type identifier)
        ≡ (ns_prefix ++ qt.number ns) ∷ (type ∷ b'=' ∷ identifier) ∷ []
  components plain =
      split-first b';' (ns_prefix ++ qt.number ns) (type ∷ b'=' ∷ identifier)
        (omega arith, (omega arith, (omega arith, digits-IsPlain _ (qt.number_digits ns))))
      ∙ ap (◌∷◌ (ns_prefix ++ qt.number ns)) (split-without b';' _ plain)

  namespace_back : ns < 2 ^ 16 → namespace_of (ns_prefix ++ qt.number ns) ≡ some ns
  unfolding namespace_of
  namespace_back h =
      rw (qt.to_uint-number ns (omega arith), namespace_of) (rw (le→ltb 65535 ns (omega arith)))

  pub last_back :
      (s : Text)
      → has_identifier_type (type ∷ b'=' ∷ s) ≡ true
      → s ≢ []
      → split_last ns (type ∷ b'=' ∷ s)
        ≡ some (record { ns_index = ns; identifier = s; identifier_type = type })
  unfolding split_last
  last_back [] h full = absurd (full refl)
  last_back (c ∷ s) h full = rw (le→ltb (length (type ∷ b'=' ∷ c ∷ s)) 3 (omega arith)) (rw h)

  -- A node id text made from a namespace index of 16 bits, one of the four identifier types and an
  -- identifier that is not empty and has no semicolon is split into these parts, namespace 0
  -- included.
  pub split_node_id_text :
      ns < 2 ^ 16
      → has_identifier_type (type ∷ b'=' ∷ identifier) ≡ true
      → IsPlain identifier
      → identifier ≢ []
      → node_id_string_split (node_id_text ns type identifier) ≡ some parts
  unfolding node_id_string_split
  split_node_id_text h known plain full =
      rw (components (not_separator, (omega arith, plain)), node_id_string_split)
        (rw (has_namespace-digits (qt.number ns) (qt.number-ne-nil ns) (qt.number_digits ns))
          (rw (namespace_back h, split_components) (last_back identifier known full)))
    where
      not_separator : type ≢ b';'
      not_separator e = ground arith
