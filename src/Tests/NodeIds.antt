-- ===== src/Tests/NodeIds.antt =====
-- Runs of the node id functions of qopcuatype.cpp, with ASCII text and decimal numbers.
use qtopcua.Prelude.{◌≡◌, ◌↔◌, refl, Bool, true, false, [], ◌∷◌, some, none, arith}
use qtopcua.Qt.Text.{Text, split}
use qtopcua.Qt.Plain.{plain}
use qtopcua.Qt.Decimal.{parse_uint}
use qtopcua.NodeIds.{Parts, node_id_text, node_id_string_split, node_id_equals}
use qtopcua.NodeIds.Split.{split_node_id_text}
use qtopcua.NodeIds.Same.{written, IsWritable, node_id_equals-node_id_string_split}

-- "Pump"
abbrev pump : Text
pump = b'P' ∷ b'u' ∷ b'm' ∷ b'p' ∷ []

-- "i=85" and "ns=0;i=85"
abbrev objects_folder : Text
objects_folder = b'i' ∷ b'=' ∷ b'8' ∷ b'5' ∷ []

-- "x;i=85": a first component that is no namespace is ignored.
ignored_component :
    node_id_string_split (b'x' ∷ b';' ∷ objects_folder)
    ≡ some (record { ns_index = 0; identifier = b'8' ∷ b'5' ∷ []; identifier_type = b'i' })
unfolding node_id_string_split split
ignored_component = refl

-- "ns=70000;i=85" is refused.
wide_namespace :
    node_id_string_split
      (b'n' ∷ b's' ∷ b'=' ∷ b'7' ∷ b'0' ∷ b'0' ∷ b'0' ∷ b'0' ∷ b';' ∷ objects_folder)
    ≡ none
unfolding node_id_string_split split parse_uint
wide_namespace = refl

split_node_id_text_example :
    node_id_string_split (node_id_text 3 b's' pump)
    ≡ some (record { ns_index = 3; identifier = pump; identifier_type = b's' })
split_node_id_text_example =
    split_node_id_text 3 b's' pump (omega arith) refl (omega arith) (λ e. cc)

-- "ns=00;i=85"
abbrev padded : Text
padded = b'n' ∷ b's' ∷ b'=' ∷ b'0' ∷ b'0' ∷ b';' ∷ objects_folder

abbrev objects : Parts
objects = record { ns_index = 0; identifier = b'8' ∷ b'5' ∷ []; identifier_type = b'i' }

objects-IsWritable : (with_namespace : Bool) → IsWritable with_namespace objects
objects-IsWritable with_namespace = record {
  small = omega arith;
  known = refl;
  plain = omega arith;
  full = λ e. cc;
  left_out = λ e. refl;
}

-- "ns=0;i=85" and "i=85" are the same node id.
node_id_equals-node_id_string_split_example :
    (node_id_equals (written true objects) (written false objects) ≡ true)
    ↔ (node_id_string_split (written true objects) ≡ node_id_string_split (written false objects))
node_id_equals-node_id_string_split_example =
    node_id_equals-node_id_string_split true false objects objects (objects-IsWritable true)
      (objects-IsWritable false)

-- "ns=00;i=85" has the same parts as "i=85", and is not equal to it.
padded_namespace :
    (node_id_string_split padded ≡ node_id_string_split objects_folder)
    × (node_id_equals padded objects_folder ≡ false)
unfolding node_id_string_split split parse_uint node_id_equals
padded_namespace = (refl, refl)
