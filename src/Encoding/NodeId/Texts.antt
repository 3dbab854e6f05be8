-- ===== src/Encoding/NodeId/Texts.antt =====
-- Node ids whose identifier is a string, a byte string or a GUID.
use Prim.Native.Nat.{bit_and}
use qtopcua.Prelude.{
  ℕ, ◌^◌, ◌<◌, ◌≡◌, ◌≢◌, refl, false, [], ◌∷◌, ◌++◌, some, arith, ◌==◌, length, All, pos,
}
use qtopcua.Qt.Text.{Text, Bytes, IsByte, Uuid, units, mid, length-ne-nil}
use qtopcua.Qt.Api.{Qt}
use qtopcua.NodeIds.{node_id_text}
use qtopcua.NodeIds.Split.{IsPlain, split_node_id_text}
use qtopcua.Encoding.Decoder.{decode_quint8, decode_string, decode_byte_array, decode_uuid}
use qtopcua.Encoding.Encoder.{to_le, encode_string, encode_byte_array}
use qtopcua.Encoding.Transfer.{Reads, Reads-map, Reads-bind}
use qtopcua.Encoding.Numbers.{Reads-number}
use qtopcua.Encoding.Strings.{
  IsString, RoundTrip-string, IsByteArray, RoundTrip-byte_array, IsUuid, uuid_bytes, Carries-uuid,
}
use qtopcua.Encoding.NodeId.{
  encode_text, encode_opaque, encode_identifier, decode_identifier, decode_node_id,
  decode_node_id_rest, decode_index, long_long_or_zero,
}
use qtopcua.Encoding.NodeId.Forms.{
  identifier_by-Writes, index_long, one_byte, NodeIdForm, NodeIdForm-of_parts,
}

module _ ⦃qt : Qt⦄ (ns : ℕ) (hns : ns < 2 ^ 16) where
  -- A string identifier that is valid text, not empty and free of the separator.
  module _ (s : Text) (valid : IsString (some s)) (full : s ≢ []) (plain : IsPlain s) where
    pub NodeIdForm-string : NodeIdForm (node_id_text ns b's' s)
    unfolding encode_identifier encode_text decode_identifier
    NodeIdForm-string =
        let rt = RoundTrip-string (some s) valid in
        let some_units : (length s == 0) ≡ false = length-ne-nil s full in
        NodeIdForm-of_parts (node_id_text ns b's' s)
          (record { ns_index = ns; identifier = s; identifier_type = b's' })
          (record { encoding_type = 3; encoded_identifier = rt.bytes }) (to_le 2 ns)
          (split_node_id_text ns b's' s hns refl plain full)
          (rw (some_units, encode_text)
            (identifier_by-Writes 3 (encode_string (some s)) rt.bytes rt.writes))
          (omega arith) (index_long 3 ns (omega arith) hns)
          (Reads-map decode_string (λ t. some (node_id_text ns b's' (units t))) rt.bytes (some s)
            rt.reads)

  -- A byte string of two bytes at least.
  module _ (b : Bytes) (valid : IsByteArray (some b)) (bytes : All IsByte b) (full : b ≢ []) where
    pub NodeIdForm-opaque : NodeIdForm (node_id_text ns b'b' (qt.to_base64 b))
    unfolding encode_identifier encode_opaque decode_identifier
    NodeIdForm-opaque =
        let rt = RoundTrip-byte_array (some b) valid in
        let some_units : (length b == 0) ≡ false = length-ne-nil b full in
        NodeIdForm-of_parts (node_id_text ns b'b' (qt.to_base64 b))
          (record { ns_index = ns; identifier = qt.to_base64 b; identifier_type = b'b' })
          (record { encoding_type = 5; encoded_identifier = rt.bytes }) (to_le 2 ns)
          (split_node_id_text ns b'b' (qt.to_base64 b) hns refl (qt.base64_no_semicolon b)
            (qt.base64-ne-nil b full))
          (rw (qt.from_base64-to_base64 b bytes, encode_opaque)
            (rw some_units
              (identifier_by-Writes 5 (encode_byte_array (some b)) rt.bytes rt.writes)))
          (omega arith) (index_long 5 ns (omega arith) hns)
          (Reads-map decode_byte_array (λ t. some (node_id_text ns b'b' (qt.to_base64 (units t))))
            rt.bytes (some b) rt.reads)

  -- The bytes of a node id with a GUID, in any namespace of 16 bits, are decoded to a text that
  -- does not depend on the GUID: its identifier is the number 0.
  pub guid_lost :
      (u : Uuid)
      → IsUuid u
      → Reads decode_node_id
          (4 ∷ (to_le 2 ns ++ uuid_bytes u))
          (some (node_id_text ns b'g' (qt.long_long (pos 0))))
  unfolding decode_node_id decode_identifier
  guid_lost u h =
      Reads-bind decode_quint8 (λ t. decode_node_id_rest (bit_and t 0x3f)) (4 ∷ [])
        (to_le 2 ns ++ uuid_bytes u) 4 _
        (rw (one_byte 4 (omega arith)) at (Reads-number 1 4 (omega arith)))
        (Reads-bind (decode_index 4) (decode_identifier 4) (to_le 2 ns) (uuid_bytes u) ns _
          (index_long 4 ns (omega arith) hns).reads
          (rw (qt.uuid_no_number u) at (
            Reads-map decode_uuid
              (λ v. some (
                node_id_text ns b'g' (
                  qt.long_long
                    (long_long_or_zero (qt.to_long_long (mid 1 36 (qt.uuid_to_string v)))))))
              (uuid_bytes u) u (Carries-uuid u h).reads)))
