-- ===== src/Tests/Encoding.antt =====
-- Runs of the binary data encoding, with ASCII text and decimal numbers.
use qtopcua.Prelude.{◌^◌, ◌≡◌, refl, true, [], ◌∷◌, ◌++◌, some, none, arith, pos, negsuc}
use qtopcua.Qt.Text.{Text, Uuid, split}
use qtopcua.Qt.Plain.{plain}
use qtopcua.Qt.Decimal.{decimal, parse_uint}
use qtopcua.NodeIds.{node_id_string_split, node_id_from_integer, node_id_from_string, node_id_text}
use qtopcua.Encoding.State.{codec, of_buffer}
use qtopcua.Encoding.Records.{
  LocalizedText, AxisInformation, ExpandedNodeId, ExtensionObject, byte_string, Argument,
  ApplicationRecord,
}
use qtopcua.Encoding.Decoder.{overrun, decode_number, decode_string, decode_byte_array}
use qtopcua.Encoding.Encoder.{encode_string, encode_byte_array, encode_number, to_le, append}
use qtopcua.Encoding.Transfer.{RoundTrip, Reads, Writes}
use qtopcua.Encoding.Strings.{IsString, RoundTrip-string, RoundTrip-byte_array, uuid_bytes}
use qtopcua.Encoding.Structs.{encode_axis_information, decode_axis_information}
use qtopcua.Encoding.Structs.RoundTrip.{RoundTrip-axis_information, normal_axis, IsLocalizedText}
use qtopcua.Encoding.NodeId.{
  encode_identifier, encode_numeric, numeric_identifier, identifier_by, encoded, encode_node_id,
  decode_node_id, encode_expanded_node_id, decode_expanded_node_id,
}
use qtopcua.Encoding.NodeId.Valid.{IsNodeId, RoundTrip-node_id}
use qtopcua.Encoding.NodeId.Expanded.{RoundTrip-expanded_node_id, kept_uri}
use qtopcua.Encoding.NodeId.Texts.{guid_lost}
use qtopcua.Encoding.Objects.{
  encode_date_time, decode_date_time, encode_extension_object, decode_extension_object,
  encode_argument, decode_argument, encode_application_record, decode_application_record,
}
use qtopcua.Encoding.Objects.Dates.{RoundTrip-date_time}
use qtopcua.Encoding.Objects.RoundTrip.{
  kept_body, RoundTrip-extension_object, RoundTrip-argument, normal_argument,
  RoundTrip-application_record, normal_application,
}
use qtopcua.Encoding.Faults.{decode_number_ends, one_byte_array}

abbrev pump : Text
pump = b'P' ∷ b'u' ∷ b'm' ∷ b'p' ∷ []

-- The two-byte form of "ns=0;i=85".
encode_objects_folder :
    encode_node_id (some (node_id_from_integer 0 85)) (of_buffer [])
    ≡ (true, of_buffer (0 ∷ 85 ∷ []))
unfolding encode_node_id encode_identifier encode_numeric numeric_identifier identifier_by encoded
    encode_number append to_le node_id_string_split split parse_uint decimal node_id_from_integer
encode_objects_folder = refl

pump_valid : IsString (some pump)
pump_valid = (refl, omega arith, omega arith)

RoundTrip-string_example : RoundTrip (encode_string (some pump)) decode_string (some pump)
RoundTrip-string_example = RoundTrip-string (some pump) pump_valid

RoundTrip-byte_array_example :
    RoundTrip (encode_byte_array (some (7 ∷ 8 ∷ []))) decode_byte_array (some (7 ∷ 8 ∷ []))
RoundTrip-byte_array_example = RoundTrip-byte_array (some (7 ∷ 8 ∷ [])) (omega arith, omega arith)

abbrev uuid : Uuid
uuid = record {
  data1 = 0x12345678;
  data2 = 0x9abc;
  data3 = 0xdef0;
  data4 = 1 ∷ 2 ∷ 3 ∷ 4 ∷ 5 ∷ 6 ∷ 7 ∷ 8 ∷ [];
}

abbrev title : LocalizedText
title = record { locale = some []; text = some pump }

title_valid : IsLocalizedText title
title_valid = ((refl, omega arith, omega arith), pump_valid)

abbrev axis : AxisInformation
axis = record {
  engineering_units = record {
    namespace_uri = some pump;
    unit_id = negsuc 0;
    display_name = title;
    description = title;
  };
  eu_range = record { low = 0; high = 2 ^ 62 };
  title = title;
  axis_scale_type = 1;
  axis_steps = 1 ∷ 2 ∷ [];
}

RoundTrip-axis_information_example :
    RoundTrip (encode_axis_information axis) decode_axis_information (normal_axis axis)
RoundTrip-axis_information_example = RoundTrip-axis_information axis (
  (pump_valid, omega arith, title_valid, title_valid),
  omega arith,
  omega arith,
  title_valid,
  omega arith,
  omega arith,
  omega arith,
)

-- "ns=0;i=85"
objects_valid : IsNodeId (node_id_from_integer 0 85)
objects_valid = IsNodeId.numeric 0 85 (omega arith) (omega arith) refl

RoundTrip-node_id_example :
    RoundTrip
      (encode_node_id (some (node_id_from_string 3 pump)))
      decode_node_id
      (some (node_id_from_string 3 pump))
RoundTrip-node_id_example =
    RoundTrip-node_id (node_id_from_string 3 pump)
      (IsNodeId.string 3 pump (omega arith) pump_valid (λ e. cc) (omega arith) refl)

abbrev remote : ExpandedNodeId
remote = record {
  server_index = 2;
  namespace_uri = some pump;
  node_id = some (node_id_from_integer 0 85);
}

RoundTrip-expanded_node_id_example :
    RoundTrip (encode_expanded_node_id remote) decode_expanded_node_id (kept_uri remote)
RoundTrip-expanded_node_id_example =
    RoundTrip-expanded_node_id remote (node_id_from_integer 0 85) refl objects_valid pump_valid
      (omega arith)

abbrev body : ExtensionObject
body = record {
  encoding_type_id = some (node_id_from_integer 0 85);
  encoded_body = some (1 ∷ 2 ∷ 3 ∷ []);
  encoding = byte_string;
}

RoundTrip-extension_object_example :
    RoundTrip (encode_extension_object body) decode_extension_object (kept_body body)
RoundTrip-extension_object_example =
    RoundTrip-extension_object (node_id_from_integer 0 85) (some (1 ∷ 2 ∷ 3 ∷ [])) byte_string
      objects_valid (omega arith, omega arith)

abbrev argument : Argument
argument = record {
  name = some pump;
  data_type_id = some (node_id_from_integer 0 85);
  value_rank = negsuc 0;
  array_dimensions = 4 ∷ [];
  description = title;
}

RoundTrip-argument_example :
    RoundTrip (encode_argument argument) decode_argument (normal_argument argument)
RoundTrip-argument_example =
    RoundTrip-argument argument (node_id_from_integer 0 85) objects_valid (record {
      name_valid = pump_valid;
      data_type = refl;
      rank = omega arith;
      few = omega arith;
      dimensions = omega arith;
      description_valid = title_valid;
    })

abbrev application : ApplicationRecord
application = record {
  application_id = some (node_id_from_integer 0 85);
  application_uri = some pump;
  application_type = 1;
  application_names = title ∷ [];
  product_uri = none;
  discovery_urls = some pump ∷ [];
  server_capability_identifiers = [];
}

RoundTrip-application_record_example :
    RoundTrip
      (encode_application_record application)
      decode_application_record
      (normal_application application)
RoundTrip-application_record_example =
    RoundTrip-application_record application (node_id_from_integer 0 85) objects_valid (record {
      id_form = refl;
      uri = pump_valid;
      type_number = omega arith;
      few_names = omega arith;
      names = (title_valid, tt);
      product = tt;
      few_urls = omega arith;
      urls = (pump_valid, tt);
      few_capabilities = omega arith;
      capabilities = tt;
    })

RoundTrip-date_time_example :
    RoundTrip (encode_date_time (2 ^ 48) (pos 1000)) decode_date_time (some (pos 1000))
RoundTrip-date_time_example = RoundTrip-date_time (2 ^ 48) (pos 1000) (omega arith) (omega arith)

-- Four bytes of which two are left at the offset.
decode_number_ends_example : decode_number 4 (codec (1 ∷ 2 ∷ 3 ∷ 4 ∷ []) 2) ≡ overrun
decode_number_ends_example = decode_number_ends 4 (1 ∷ 2 ∷ 3 ∷ 4 ∷ []) 2 (omega arith)

one_byte_array_example :
    Writes (encode_byte_array (some (7 ∷ []))) (to_le 4 1)
    × Reads decode_byte_array (to_le 4 1 ++ (9 ∷ [])) (some (9 ∷ []))
one_byte_array_example = one_byte_array 7 9

guid_lost_example :
    Reads decode_node_id
      (4 ∷ (to_le 2 1 ++ uuid_bytes uuid))
      (some (node_id_text 1 b'g' (b'0' ∷ [])))
unfolding decimal
guid_lost_example = guid_lost 1 (omega arith) uuid (omega arith, omega arith, omega arith, refl)
