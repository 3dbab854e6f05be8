-- ===== src/Encoding/NodeId/Forms.antt =====
-- How the parts of a written node id make the whole, for each identifier type.
use qtopcua.Prelude.{ℕ, ◌^◌, ◌<◌, ◌≤◌, ◌≡◌, ap, false, [], ◌∷◌, ◌++◌, some, arith, ◌==◌, subst}
use qtopcua.Qt.Text.{Text, Bytes}
use qtopcua.Qt.Api.{Qt}
use qtopcua.NodeIds.{Parts, node_id_string_split}
use qtopcua.Encoding.Encoder.{Encoder, ◌>>◌, append, to_le, encode_quint8}
use qtopcua.Encoding.Transfer.{
  Reads, Writes, Writes-then, Reads-bind, Reads-return, Writes-return, Carries,
}
use qtopcua.Encoding.Numbers.{Carries-number, Writes-append, Writes-encode_number}
use qtopcua.Encoding.NodeId.{
  encoded, Identifier, identifier_by, encode_index, encode_parts, encode_identifier, encode_node_id,
  decode_index, decode_identifier, decode_node_id_rest,
}

-- The bytes of an encoder that succeeds are what it leaves in a local buffer.
pub encoded-Writes : (e : Encoder) (bytes : Bytes) → Writes e bytes → encoded e ≡ some bytes
unfolding encoded
encoded-Writes e bytes w = rw (w [] 0)

pub identifier_by-Writes :
    (type : ℕ) (e : Encoder) (bytes : Bytes)
    → Writes e bytes
    → identifier_by type e ≡ some (record { encoding_type = type; encoded_identifier = bytes })
unfolding identifier_by
identifier_by-Writes type e bytes w = rw (encoded-Writes e bytes w, identifier_by)

pub one_byte : (n : ℕ) → n < 256 → to_le 1 n ≡ n ∷ []
unfolding to_le
one_byte n h = ap (λ k. k ∷ []) (omega arith)

module _ ⦃qt : Qt⦄ where
  pub index_left_out : Carries (encode_index 0 0) (decode_index 0) [] 0
  unfolding encode_index decode_index
  index_left_out = record { writes = Writes-return; reads = Reads-return 0 }

  pub index_short :
      (ns : ℕ) → ns < 256 → Carries (encode_index 1 ns) (decode_index 1) (to_le 1 ns) ns
  unfolding encode_index decode_index
  index_short ns h = Carries-number 1 ns (omega arith)

  pub index_long :
      (type ns : ℕ)
      → 2 ≤ type
      → ns < 2 ^ 16
      → Carries (encode_index type ns) (decode_index type) (to_le 2 ns) ns
  unfolding encode_index decode_index
  index_long type ns h k =
      let a : (type == 0) ≡ false = ground arith in
      let b : (type == 1) ≡ false = ground arith in rw (a, b) (Carries-number 2 ns (omega arith))

  -- A node id text with the byte of its form, the bytes behind it, and how they are read.
  pub record NodeIdForm (text : Text) : Type 0 where
    pub form : ℕ
    pub tail : Bytes
    pub small : form < 6
    pub writes : Writes (encode_node_id (some text)) (form ∷ tail)
    pub reads : Reads (decode_node_id_rest form) tail (some text)

  module _ (text : Text) (parts : Parts) (i : Identifier) (index : Bytes)
      (splits : node_id_string_split text ≡ some parts)
      (identified : encode_identifier parts ≡ some i) (small : i.encoding_type < 6)
      (carried : Carries
        (encode_index i.encoding_type parts.ns_index)
        (decode_index i.encoding_type)
        index
        parts.ns_index)
      (read : Reads
        (decode_identifier i.encoding_type parts.ns_index)
        i.encoded_identifier
        (some text)) where
    first_written : Writes (encode_quint8 i.encoding_type) (i.encoding_type ∷ [])
    first_written =
        subst (Writes (encode_quint8 i.encoding_type)) (one_byte i.encoding_type (omega arith))
          (Writes-encode_number 1 i.encoding_type)

    fields_written :
        Writes
          (encode_quint8 i.encoding_type
            >> encode_index i.encoding_type parts.ns_index
            >> append i.encoded_identifier)
          (i.encoding_type ∷ (index ++ i.encoded_identifier))
    fields_written =
        Writes-then (encode_quint8 i.encoding_type)
          (encode_index i.encoding_type parts.ns_index >> append i.encoded_identifier)
          (i.encoding_type ∷ []) (index ++ i.encoded_identifier) first_written
          (Writes-then (encode_index i.encoding_type parts.ns_index) (append i.encoded_identifier)
            index i.encoded_identifier carried.writes (Writes-append i.encoded_identifier))

    whole_written :
        Writes (encode_node_id (some text)) (i.encoding_type ∷ (index ++ i.encoded_identifier))
    unfolding encode_node_id
    whole_written buffer offset =
        rw (splits, encode_parts) (rw identified (fields_written buffer offset))

    pub NodeIdForm-of_parts : NodeIdForm text
    unfolding decode_node_id_rest
    NodeIdForm-of_parts = record {
      form = i.encoding_type;
      tail = index ++ i.encoded_identifier;
      small = small;
      writes = whole_written;
      reads =
          Reads-bind (decode_index i.encoding_type) (decode_identifier i.encoding_type) index
            i.encoded_identifier parts.ns_index (some text) carried.reads read;
    }
