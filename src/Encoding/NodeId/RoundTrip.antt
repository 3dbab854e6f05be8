-- ===== src/Encoding/NodeId/RoundTrip.antt =====
-- Node ids through encode and decode: the numeric forms, and what every form has in common.
use Prim.Native.Nat.{bit_and}
use qtopcua.Prelude.{
  ℕ, zero, suc, ◌-◌, ◌^◌, ◌<◌, ◌≤◌, ◌≡◌, refl, false, ◌&&◌, [], ◌∷◌, some, arith, leb, ◌==◌, le→ltb,
  Bool-cases, inl, inr, le→leb, subst, sym, ◌∙◌, ==_iff,
}
use qtopcua.Qt.Text.{Text, Bytes}
use qtopcua.Qt.Api.{Qt}
use qtopcua.NodeIds.{node_id_text, node_id_string_split}
use qtopcua.NodeIds.Split.{split_node_id_text, digits-IsPlain}
use qtopcua.Encoding.Decoder.{return, ◌>>=◌, decode_number, decode_quint8}
use qtopcua.Encoding.Encoder.{to_le, encode_number}
use qtopcua.Encoding.Transfer.{Reads, Reads-map, Reads-bind, RoundTrip, Carries}
use qtopcua.Encoding.Numbers.{Reads-number, Writes-encode_number}
use qtopcua.Encoding.NodeId.{
  numeric_identifier, encode_numeric, encode_identifier, encode_node_id, decode_identifier,
  decode_node_id, decode_node_id_rest, encode_index, decode_index,
}
use qtopcua.Encoding.NodeId.Forms.{
  identifier_by-Writes, index_left_out, index_short, index_long, NodeIdForm, NodeIdForm-of_parts,
  one_byte,
}

module _ ⦃qt : Qt⦄ where
  -- Any first byte that names the form under the mask does.
  pub Reads-NodeIdForm :
      {text : Text} (f : NodeIdForm text) (first : ℕ)
      → first < 256
      → bit_and first 0x3f ≡ f.form
      → Reads decode_node_id (first ∷ f.tail) (some text)
  unfolding decode_node_id
  Reads-NodeIdForm {text = text} f first h e =
      Reads-bind decode_quint8 (λ t. decode_node_id_rest (bit_and t 0x3f)) (first ∷ []) f.tail first
        (some text) (rw (one_byte first h) at (Reads-number 1 first (omega arith))) (rw e f.reads)

  below_six : (n : ℕ) → n < 6 → bit_and n 0x3f ≡ n
  below_six zero h = refl
  below_six (suc zero) h = refl
  below_six (suc (suc zero)) h = refl
  below_six (suc (suc (suc zero))) h = refl
  below_six (suc (suc (suc (suc zero)))) h = refl
  below_six (suc (suc (suc (suc (suc zero))))) h = refl
  below_six (suc (suc (suc (suc (suc (suc n)))))) h = absurd (omega arith)

  pub RoundTrip-NodeIdForm :
      {text : Text}
      → NodeIdForm text
      → RoundTrip (encode_node_id (some text)) decode_node_id (some text)
  RoundTrip-NodeIdForm f = record {
    bytes = f.form ∷ f.tail;
    writes = f.writes;
    reads = Reads-NodeIdForm f f.form (omega (arith, f.small)) (below_six f.form f.small);
  }

  module _ (ns id : ℕ) (hns : ns < 2 ^ 16) (hid : id < 2 ^ 32) where
    abbrev text : Text
    text = node_id_text ns b'i' (qt.number id)

    numeric_parts :
        node_id_string_split text
        ≡ some (record { ns_index = ns; identifier = qt.number id; identifier_type = b'i' })
    numeric_parts =
        split_node_id_text ns b'i' (qt.number id) hns refl (digits-IsPlain _ (qt.number_digits id))
          (qt.number-ne-nil id)

    numeric_identified :
        encode_identifier
          (record { ns_index = ns; identifier = qt.number id; identifier_type = b'i' })
        ≡ numeric_identifier ns id
    unfolding encode_identifier encode_numeric
    numeric_identified =
        rw (qt.to_uint-number id hid, encode_numeric) (rw (le→ltb (2 ^ 32 - 1) id (omega arith)))

    -- The identifier in `width` bytes after the index, in the form that reads so many.
    numeric_form :
        (form width : ℕ) (index : Bytes)
        → form < 6
        → id < 256 ^ width
        → numeric_identifier ns id
          ≡ some (record { encoding_type = form; encoded_identifier = to_le width id })
        → Carries (encode_index form ns) (decode_index form) index ns
        → decode_identifier form ns
          ≡ (decode_number width >>= λ n. return (some (node_id_text ns b'i' (qt.number n))))
        → NodeIdForm text
    numeric_form form width index small fits chosen carried reader =
        NodeIdForm-of_parts text
          (record { ns_index = ns; identifier = qt.number id; identifier_type = b'i' })
          (record { encoding_type = form; encoded_identifier = to_le width id }) index numeric_parts
          (numeric_identified ∙ chosen) small carried
          (rw reader (
            Reads-map (decode_number width) (λ n. some (node_id_text ns b'i' (qt.number n)))
              (to_le width id) id (Reads-number width id fits)))

    two_byte_form : id ≤ 255 → ns ≡ 0 → NodeIdForm text
    unfolding numeric_identifier decode_identifier
    two_byte_form small zero_ns =
        numeric_form 0 1 [] (omega arith) (omega arith)
          (rw (le→leb id 255 small, (==_iff ns 0).1 zero_ns)
            (identifier_by-Writes 0 (encode_number 1 id) (to_le 1 id) (Writes-encode_number 1 id)))
          (subst (λ k. Carries (encode_index 0 k) (decode_index 0) [] k) (sym zero_ns)
            index_left_out)
          refl

    four_byte_form : (leb id 255 && ns == 0) ≡ false → id ≤ 65535 → ns ≤ 255 → NodeIdForm text
    unfolding numeric_identifier decode_identifier
    four_byte_form longer small short =
        numeric_form 1 2 (to_le 1 ns) (omega arith) (omega arith)
          (rw longer (
            rw (le→leb id 65535 small, le→leb ns 255 short)
              (identifier_by-Writes 1 (encode_number 2 id) (to_le 2 id)
                (Writes-encode_number 2 id))))
          (index_short ns (omega arith)) refl

    seven_byte_form :
        (leb id 255 && ns == 0) ≡ false → (leb id 65535 && leb ns 255) ≡ false → NodeIdForm text
    unfolding numeric_identifier decode_identifier
    seven_byte_form longer longest =
        numeric_form 2 4 (to_le 2 ns) (omega arith) (omega arith)
          (rw longer (
            rw longest (
              identifier_by-Writes 2 (encode_number 4 id) (to_le 4 id)
                (Writes-encode_number 4 id))))
          (index_long 2 ns (omega arith) hns) refl

    -- Every integer of 32 bits in every namespace has one of the three forms.
    pub NodeIdForm-numeric : NodeIdForm text
    NodeIdForm-numeric = elim (Bool-cases (leb id 255 && ns == 0)) [
      | inl two ↦ two_byte_form (ground arith) (ground arith)
      | inr longer ↦ elim (Bool-cases (leb id 65535 && leb ns 255)) [
        | inl four ↦ four_byte_form longer (ground arith) (ground arith)
        | inr longest ↦ seven_byte_form longer longest
      ]
    ]
