-- ===== src/Encoding/Objects.antt =====
-- encode and decode of dates, status codes, extension objects, arguments and application records.
pub mod RoundTrip
pub mod Dates
use qtopcua.Prelude.{
  ℕ, ◌-◌, ◌*◌, ◌^◌, Bool, true, false, ◌||◌, List, Option, none, some, ltb, ◌==◌, if◌then◌else◌, ℤ,
  pos, negsuc, to_int64, trunc_div, nat_leb_int, int_leb_zero, int_eq_nat,
}
use qtopcua.Qt.Text.{QString}
use qtopcua.Qt.Api.{Qt}
use qtopcua.Encoding.State.{Codec}
use qtopcua.Encoding.Records.{
  LocalizedText, BodyEncoding, no_body, byte_string, xml, ExtensionObject, Argument,
  ApplicationRecord,
}
use qtopcua.Encoding.Decoder.{
  Decoder, return, fail, ◌>>=◌, decode_quint8, decode_quint32, decode_qint32, decode_qint64,
  decode_string, decode_byte_array, decode_array,
}
use qtopcua.Encoding.Encoder.{
  Encoder, return_true, ◌>>◌, append, encode_quint8, encode_quint32, encode_qint32, encode_qint64,
  encode_string, encode_byte_array, encode_array,
}
use qtopcua.Encoding.Structs.{encode_localized_text, decode_localized_text}
use qtopcua.Encoding.NodeId.{encoded, encode_node_id, decode_node_id}

-- A valid QDateTime is the milliseconds since 1601-01-01 UTC. `limit` is 9999-12-31 11:59:59 in the
-- local time zone.
abbrev int64_max : ℕ
int64_max = 2 ^ 63 - 1

abbrev pos_part : ℤ → ℕ
pos_part (pos n) = n
pos_part (negsuc n) = 0

unfoldable pub encode_date_time : ℕ → ℤ → Encoder
encode_date_time limit src =
    if nat_leb_int limit src
    then encode_qint64 int64_max
    else if int_leb_zero src
    then encode_qint64 0
    else encode_qint64 (10000 * pos_part src)

-- The date of a transferred word; none is the invalid QDateTime().
abbrev pub date_of_word : ℕ → Option ℤ
date_of_word word =
    let timestamp = to_int64 word in
    if int_eq_nat timestamp 0 || int_eq_nat timestamp int64_max
    then none
    else some (trunc_div timestamp 10000)

unfoldable pub decode_date_time : Decoder (Option ℤ)
decode_date_time = decode_qint64 >>= λ word. return (date_of_word word)

unfoldable pub encode_status_code : ℕ → Encoder
encode_status_code src = encode_quint32 src >> return_true

unfoldable pub decode_status_code : Decoder ℕ
decode_status_code = decode_quint32 >>= λ value. return value

abbrev pub encoding_number : BodyEncoding → ℕ
encoding_number no_body = 0
encoding_number byte_string = 1
encoding_number xml = 2

-- `QOpcUaExtensionObject::Encoding(encoding)` for a number that is 1 or 2.
abbrev body_encoding : ℕ → BodyEncoding
body_encoding n = if n == 1 then byte_string else xml

module _ ⦃qt : Qt⦄ where
  unfoldable pub encode_extension_object : ExtensionObject → Encoder
  encode_extension_object src =
      encode_node_id src.encoding_type_id
      >> encode_quint8 (encoding_number src.encoding)
      >> (if encoding_number src.encoding == 0
          then return_true
          else encode_byte_array src.encoded_body)
      >> return_true

  -- No body is read for encoding 0, and a number above 2 is refused.
  unfoldable pub extension_body : QString → ℕ → Decoder ExtensionObject
  extension_body type_id encoding =
      if ltb 2 encoding
      then fail
      else if encoding == 0
      then return (record { encoding_type_id = type_id; encoded_body = none; encoding = no_body })
      else (decode_byte_array >>= λ body. return (record {
        encoding_type_id = type_id;
        encoded_body = body;
        encoding = body_encoding encoding;
      }))

  unfoldable pub decode_extension_object : Decoder ExtensionObject
  unfolding extension_body
  decode_extension_object = do
    type_id ← decode_node_id
    encoding ← decode_quint8
    extension_body type_id encoding

  -- The fields are written to a local buffer first.
  unfoldable pub encode_argument : Argument → Encoder
  encode_argument src c = elim c.m_data [
    | none ↦ (false, c)
    | some _ ↦
        elim (encoded (
          encode_string src.name
          >> encode_node_id src.data_type_id
          >> encode_qint32 src.value_rank
          >> encode_array encode_quint32 src.array_dimensions
          >> encode_localized_text src.description)) [
            | none ↦ (false, c)
            | some temp ↦ append temp c
          ]
  ]

  unfoldable pub decode_argument : Decoder Argument
  decode_argument = do
    name ← decode_string
    data_type_id ← decode_node_id
    value_rank ← decode_qint32
    array_dimensions ← decode_array decode_quint32
    description ← decode_localized_text
    return (record {
      name = name;
      data_type_id = data_type_id;
      value_rank = value_rank;
      array_dimensions = array_dimensions;
      description = description;
    })

  unfoldable pub encode_application_record : ApplicationRecord → Encoder
  encode_application_record src =
      encode_node_id src.application_id
      >> encode_string src.application_uri
      >> encode_quint32 src.application_type
      >> encode_array encode_localized_text src.application_names
      >> encode_string src.product_uri
      >> encode_array encode_string src.discovery_urls
      >> encode_array encode_string src.server_capability_identifiers
      >> return_true

  unfoldable pub decode_application_record : Decoder ApplicationRecord
  decode_application_record = do
    application_id ← decode_node_id
    application_uri ← decode_string
    application_type ← decode_quint32
    application_names ← decode_array decode_localized_text
    product_uri ← decode_string
    discovery_urls ← decode_array decode_string
    server_capability_identifiers ← decode_array decode_string
    return (record {
      application_id = application_id;
      application_uri = application_uri;
      application_type = application_type;
      application_names = application_names;
      product_uri = product_uri;
      discovery_urls = discovery_urls;
      server_capability_identifiers = server_capability_identifiers;
    })
