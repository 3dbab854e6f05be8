-- ===== src/Encoding/NodeId.antt =====
-- encode and decode of node id strings and of expanded node ids.
pub mod Forms
pub mod RoundTrip
pub mod Texts
pub mod Expanded
pub mod Valid
use Prim.Native.Nat.{bit_and, bit_or}
use qtopcua.Prelude.{
  ℕ, zero, suc, ◌-◌, ◌^◌, Bool, true, false, ◌&&◌, List, [], ◌∷◌, ◌++◌, Option, none, some, ltb,
  leb, ◌==◌, if◌then◌else◌, length, drop, ℤ, pos,
}
use qtopcua.Qt.Text.{Text, Bytes, QString, QByteArray, Uuid, units, size, mid}
use qtopcua.Qt.Api.{Qt}
use qtopcua.NodeIds.{Parts, node_id_text, node_id_string_split}
use qtopcua.Encoding.State.{Codec, of_buffer, enough_data}
use qtopcua.Encoding.Records.{ExpandedNodeId}
use qtopcua.Encoding.Decoder.{
  Outcome, Decoder, return, fail, ◌>>=◌, failed, done, overrun, read_bytes, decode_quint8,
  decode_quint16, decode_quint32, decode_string, decode_byte_array, decode_uuid,
}
use qtopcua.Encoding.Encoder.{
  Encoder, return_true, return_false, ◌>>◌, append, encode_quint8, encode_quint16, encode_quint32,
  encode_string, encode_byte_array, encode_uuid,
}

-- What an encoder leaves in a local buffer that was empty; none if it fails.
unfoldable pub encoded : Encoder → Option Bytes
encoded e = let r = e (of_buffer []) in if r.0 then r.1.m_data else none

-- `encodingType` and `encodedIdentifier`.
pub record Identifier : Type 0 where
  pub encoding_type : ℕ
  pub encoded_identifier : Bytes

unfoldable pub identifier_by : ℕ → Encoder → Option Identifier
identifier_by type e = elim (encoded e) [
  | none ↦ none
  | some bytes ↦ some (record { encoding_type = type; encoded_identifier = bytes })
]

-- The three numeric forms: the shortest that has room for the index and the identifier.
unfoldable pub numeric_identifier : ℕ → ℕ → Option Identifier
numeric_identifier index identifier =
    if leb identifier 255 && index == 0
    then identifier_by 0x00 (encode_quint8 identifier)
    else if leb identifier 65535 && leb index 255
    then identifier_by 0x01 (encode_quint16 identifier)
    else identifier_by 0x02 (encode_quint32 identifier)

abbrev all_zero : Bytes → Bool
all_zero [] = true
all_zero (b ∷ bs) = b == 0 && all_zero bs

-- QUuid::isNull
abbrev pub is_null_uuid : Uuid → Bool
is_null_uuid u = u.data1 == 0 && u.data2 == 0 && u.data3 == 0 && all_zero u.data4

-- toLongLong gives 0 for what is no number.
abbrev pub long_long_or_zero : Option ℤ → ℤ
long_long_or_zero none = pos 0
long_long_or_zero (some z) = z

abbrev pub first_byte : Bytes → ℕ
first_byte [] = 0
first_byte (b ∷ bs) = b

abbrev pub set_first : ℕ → Bytes → Bytes
set_first m [] = []
set_first m (b ∷ bs) = m ∷ bs

-- A field that is there if its flag is set in the first byte.
abbrev pub decode_flagged {ℓ} : {A : Type ℓ} → ℕ → A → Decoder A → Decoder A
decode_flagged flag absent decode = if flag == 0 then return absent else decode

module _ ⦃qt : Qt⦄ where
  unfoldable pub encode_numeric : ℕ → Text → Option Identifier
  encode_numeric index identifier = elim (qt.to_uint identifier) [
    | none ↦ none
    | some n ↦ if ltb (2 ^ 32 - 1) n then none else numeric_identifier index n
  ]

  unfoldable pub encode_text : Text → Option Identifier
  encode_text identifier =
      if length identifier == 0 then none else identifier_by 0x03 (encode_string (some identifier))

  unfoldable pub encode_guid : Text → Option Identifier
  encode_guid identifier =
      let uuid = qt.uuid_from_string identifier in
      if is_null_uuid uuid then none else identifier_by 0x04 (encode_uuid uuid)

  unfoldable pub encode_opaque : Text → Option Identifier
  encode_opaque identifier =
      let temp = qt.from_base64 identifier in
      if length temp == 0 then none else identifier_by 0x05 (encode_byte_array (some temp))

  -- The two `switch`es on the identifier's type.
  unfoldable pub encode_identifier : Parts → Option Identifier
  encode_identifier parts =
      if parts.identifier_type == b'i'
      then encode_numeric parts.ns_index parts.identifier
      else if parts.identifier_type == b's'
      then encode_text parts.identifier
      else if parts.identifier_type == b'g'
      then encode_guid parts.identifier
      else if parts.identifier_type == b'b'
      then encode_opaque parts.identifier
      else none

  -- The namespace index is left out, or takes one byte or two.
  unfoldable pub encode_index : ℕ → ℕ → Encoder
  encode_index encoding_type index =
      if encoding_type == 0x00
      then return_true
      else if encoding_type == 0x01
      then encode_quint8 index
      else encode_quint16 index

  unfoldable pub encode_parts : Option Parts → Encoder
  unfolding encode_index
  encode_parts none = return_false
  encode_parts (some parts) = elim (encode_identifier parts) [
    | none ↦ return_false
    | some i ↦
        encode_quint8 i.encoding_type
        >> encode_index i.encoding_type parts.ns_index
        >> append i.encoded_identifier
  ]

  unfoldable pub encode_node_id : QString → Encoder
  unfolding encode_parts
  encode_node_id src c = elim c.m_data [
    | none ↦ (false, c)
    | some _ ↦ encode_parts (node_id_string_split (units src)) c
  ]

  unfoldable pub decode_index : ℕ → Decoder ℕ
  decode_index identifier_type =
      if identifier_type == 0x00
      then return 0
      else if identifier_type == 0x01
      then decode_quint8
      else decode_quint16

  unfoldable pub decode_identifier : ℕ → ℕ → Decoder QString
  decode_identifier identifier_type ns =
      if identifier_type == 0x00
      then (decode_quint8 >>= λ n. return (some (node_id_text ns b'i' (qt.number n))))
      else if identifier_type == 0x01
      then (decode_quint16 >>= λ n. return (some (node_id_text ns b'i' (qt.number n))))
      else if identifier_type == 0x02
      then (decode_quint32 >>= λ n. return (some (node_id_text ns b'i' (qt.number n))))
      else if identifier_type == 0x03
      then (decode_string >>= λ s. return (some (node_id_text ns b's' (units s))))
      else if identifier_type == 0x04
      then (decode_uuid >>= λ u. return (
          some (
            node_id_text ns b'g' (
              qt.long_long
                (long_long_or_zero (qt.to_long_long (mid 1 36 (qt.uuid_to_string u))))))))
      else if identifier_type == 0x05
      then (decode_byte_array >>= λ b.
          return (some (node_id_text ns b'b' (qt.to_base64 (units b)))))
      else fail

  -- What follows the first byte.
  unfoldable pub decode_node_id_rest : ℕ → Decoder QString
  unfolding decode_index decode_identifier
  decode_node_id_rest identifier_type =
      decode_index identifier_type >>= λ ns. decode_identifier identifier_type ns

  -- The flags of an expanded node id are removed from the first byte.
  unfoldable pub decode_node_id : Decoder QString
  unfolding decode_node_id_rest
  decode_node_id =
      decode_quint8 >>= λ identifier_type. decode_node_id_rest (bit_and identifier_type 0x3f)

  -- The node id, the URI and the server index in a local buffer, whose first byte gets the flags.
  unfoldable pub encode_expanded_node_id : ExpandedNodeId → Encoder
  encode_expanded_node_id src c = elim c.m_data [
    | none ↦ (false, c)
    | some _ ↦
        elim (encoded (
          encode_node_id src.node_id
          >> (if size src.namespace_uri == 0 then return_true else encode_string src.namespace_uri)
          >> (if src.server_index == 0 then return_true else encode_quint32 src.server_index))) [
            | none ↦ (false, c)
            | some temp ↦
                append
                  (set_first
                    (bit_or
                      (bit_or (first_byte temp) (if size src.namespace_uri == 0 then 0 else 0x80))
                      (if src.server_index == 0 then 0 else 0x40))
                    temp)
                  c
          ]
  ]

  -- What follows the peek at the first byte.
  unfoldable pub decode_expanded_rest : ℕ → Decoder ExpandedNodeId
  decode_expanded_rest first = do
    node_id ← decode_node_id
    namespace_uri ← decode_flagged (bit_and first 0x80) none decode_string
    server_index ← decode_flagged (bit_and first 0x40) 0 decode_quint32
    return
        (record { server_index = server_index; namespace_uri = namespace_uri; node_id = node_id })

  -- The first byte is looked at through the pointer and not consumed.
  unfoldable pub decode_expanded_node_id : Decoder ExpandedNodeId
  unfolding decode_expanded_rest
  decode_expanded_node_id c = elim c.m_data [
    | none ↦ failed c
    | some _ ↦
        if enough_data 1 c
        then (elim (read_bytes 1 c) [
          | done first _ ↦ decode_expanded_rest (first_byte first) c
          | failed c' ↦ failed c'
          | overrun ↦ overrun
        ])
        else failed c
  ]
