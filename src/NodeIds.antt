-- ===== src/NodeIds.antt =====
-- The node id strings of qopcuatype.cpp: how they are built, taken apart and compared.
pub mod Split
pub mod Equals
pub mod Same
use qtopcua.Prelude.{
  ℕ, zero, suc, ◌+◌, Bool, true, false, not, ◌&&◌, ◌||◌, List, [], ◌∷◌, ◌++◌, Option, none, some,
  ltb, ◌==◌, if◌then◌else◌, length, drop,
}
use qtopcua.Qt.Text.{Text, Bytes, Uuid, mid, starts_with, text_eq, split, is_digit}
use qtopcua.Qt.Api.{Qt}

-- "ns="
abbrev pub ns_prefix : Text
ns_prefix = b'n' ∷ b's' ∷ b'=' ∷ []

-- "ns=0;"
abbrev pub ns0_prefix : Text
ns0_prefix = b'n' ∷ b's' ∷ b'=' ∷ b'0' ∷ b';' ∷ []

-- "ns=0;i="
abbrev pub ns0_numeric_prefix : Text
ns0_numeric_prefix = b'n' ∷ b's' ∷ b'=' ∷ b'0' ∷ b';' ∷ b'i' ∷ b'=' ∷ []

-- The three parts that nodeIdStringSplit hands out.
pub record Parts : Type 0 where
  pub ns_index : ℕ
  pub identifier : Text
  pub identifier_type : ℕ

-- "^[isgb]="
abbrev pub has_identifier_type : Text → Bool
has_identifier_type [] = false
has_identifier_type (c ∷ []) = false
has_identifier_type (c ∷ d ∷ s) = (c == b'i' || c == b's' || c == b'g' || c == b'b') && d == b'='

abbrev first_is_digit : Text → Bool
first_is_digit [] = false
first_is_digit (c ∷ s) = is_digit c

-- "^ns=[0-9]+"
abbrev pub has_namespace : Text → Bool
has_namespace s = starts_with ns_prefix s && first_is_digit (drop 3 s)

abbrev first_unit : Text → ℕ
first_unit [] = 0
first_unit (c ∷ s) = c

-- The tests on the last component, and the results.
unfoldable pub split_last : ℕ → Text → Option Parts
split_last namespace_index last =
    if ltb (length last) 3
    then none
    else if has_identifier_type last
    then some (record {
      ns_index = namespace_index;
      identifier = drop 2 last;
      identifier_type = first_unit last;
    })
    else none

module _ ⦃qt : Qt⦄ where
  -- "ns=%1;t=%2"
  abbrev pub node_id_text : ℕ → ℕ → Text → Text
  node_id_text ns type identifier = ns_prefix ++ (qt.number ns ++ (b';' ∷ type ∷ b'=' ∷ identifier))

  unfoldable pub node_id_from_string : ℕ → Text → Text
  node_id_from_string ns identifier = node_id_text ns b's' identifier

  unfoldable pub node_id_from_byte_string : ℕ → Bytes → Text
  node_id_from_byte_string ns identifier = node_id_text ns b'b' (qt.to_base64 identifier)

  unfoldable pub node_id_from_guid : ℕ → Uuid → Text
  node_id_from_guid ns identifier = node_id_text ns b'g' (mid 1 36 (qt.uuid_to_string identifier))

  unfoldable pub node_id_from_integer : ℕ → ℕ → Text
  node_id_from_integer ns identifier = node_id_text ns b'i' (qt.number identifier)

  unfoldable pub node_id_from_reference_type : ℕ → Text
  node_id_from_reference_type reference_type = ns0_numeric_prefix ++ qt.number reference_type

  unfoldable pub namespace0_id : ℕ → Text
  namespace0_id id = ns0_numeric_prefix ++ qt.number id

  -- The namespace of a first component "ns=…"; a value past quint16 is refused.
  namespace_of : Text → Option ℕ
  namespace_of first = elim (qt.to_uint (drop 3 first)) [
    | none ↦ none
    | some ns ↦ if ltb 65535 ns then none else some ns
  ]

  split_components : List Text → Option Parts
  unfolding split_last namespace_of
  split_components [] = none
  split_components (last ∷ []) = split_last 0 last
  split_components (first ∷ last ∷ []) =
      if has_namespace first
      then (elim (namespace_of first) [ none ↦ none | some ns ↦ split_last ns last ])
      else split_last 0 last
  split_components (a ∷ b ∷ c ∷ rest) = none

  unfoldable pub node_id_string_split : Text → Option Parts
  unfolding split_components
  node_id_string_split node_id = split_components (split b';' node_id)

  -- The enum value of a namespace 0 node id; `is_known` is QMetaEnum's lookup of the number.
  unfoldable pub namespace0_id_from_node_id : (ℕ → Bool) → Text → Option ℕ
  namespace0_id_from_node_id is_known node_id =
      if starts_with ns0_numeric_prefix node_id
      then (elim (qt.to_uint (drop 7 node_id)) [
        | none ↦ none
        | some identifier ↦ if is_known identifier then some identifier else none
      ])
      else none

unfoldable pub node_id_equals : Text → Text → Bool
node_id_equals first second =
    if starts_with ns0_prefix first && not (starts_with ns_prefix second)
    then text_eq (drop 5 first) second
    else if starts_with ns0_prefix second && not (starts_with ns_prefix first)
    then text_eq (drop 5 second) first
    else text_eq first second
