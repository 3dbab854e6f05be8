-- ===== src/Encoding/NodeId/Expanded.antt =====
-- encode and decode of QOpcUaExpandedNodeId: the flags for the URI and the server index share the
-- first byte with the form of the node id.
use Prim.Native.Nat.{bit_and, bit_or}
use qtopcua.Prelude.{
  ℕ, zero, suc, ◌^◌, ◌<◌, ◌≡◌, refl, Bool, true, false, [], ◌∷◌, ◌++◌, some, arith, ◌==◌,
  if◌then◌else◌, Bool-cases, inl, inr, ==_iff, ap, sym, subst, ◌∙◌, append_assoc,
}
use qtopcua.Qt.Text.{Text, Bytes, size}
use qtopcua.Qt.Api.{Qt}
use qtopcua.Encoding.Records.{ExpandedNodeId}
use qtopcua.Encoding.Decoder.{return, ◌>>=◌, decode_quint32}
use qtopcua.Encoding.Encoder.{Encoder, return_true, ◌>>◌, encode_quint32, encode_string}
use qtopcua.Encoding.Transfer.{
  Reads, Writes-then, RoundTrip, RoundTrip-return, Reads-bind, Reads-map,
}
use qtopcua.Encoding.Numbers.{RoundTrip-number, Reads-read_bytes, enough-fits, Writes-append}
use qtopcua.Encoding.Strings.{IsString}
use qtopcua.Encoding.Structs.{decode_if}
use qtopcua.Encoding.Structs.RoundTrip.{masked, null_if_empty}
use qtopcua.Encoding.NodeId.{
  encoded, encode_node_id, decode_node_id, encode_expanded_node_id, decode_expanded_node_id,
  decode_expanded_rest, decode_flagged,
}
use qtopcua.Encoding.NodeId.Forms.{encoded-Writes, NodeIdForm}
use qtopcua.Encoding.NodeId.Valid.{IsNodeId, NodeIdForm-IsNodeId}
use qtopcua.Encoding.NodeId.RoundTrip.{Reads-NodeIdForm}

abbrev flagged : ℕ → Bool → Bool → ℕ
flagged form no_uri local =
    bit_or (bit_or form (if no_uri then 0 else 0x80)) (if local then 0 else 0x40)

-- Form and flags are read back from the byte that holds them.
flags :
    (form : ℕ) (no_uri local : Bool)
    → form < 6
    → (flagged form no_uri local < 256)
      × (bit_and (flagged form no_uri local) 0x3f ≡ form)
      × (bit_and (flagged form no_uri local) 0x80 ≡ (if no_uri then 0 else 0x80))
      × (bit_and (flagged form no_uri local) 0x40 ≡ (if local then 0 else 0x40))
flags zero true true h = (omega arith, refl, refl, refl)
flags zero true false h = (omega arith, refl, refl, refl)
flags zero false true h = (omega arith, refl, refl, refl)
flags zero false false h = (omega arith, refl, refl, refl)
flags (suc zero) true true h = (omega arith, refl, refl, refl)
flags (suc zero) true false h = (omega arith, refl, refl, refl)
flags (suc zero) false true h = (omega arith, refl, refl, refl)
flags (suc zero) false false h = (omega arith, refl, refl, refl)
flags (suc (suc zero)) true true h = (omega arith, refl, refl, refl)
flags (suc (suc zero)) true false h = (omega arith, refl, refl, refl)
flags (suc (suc zero)) false true h = (omega arith, refl, refl, refl)
flags (suc (suc zero)) false false h = (omega arith, refl, refl, refl)
flags (suc (suc (suc zero))) true true h = (omega arith, refl, refl, refl)
flags (suc (suc (suc zero))) true false h = (omega arith, refl, refl, refl)
flags (suc (suc (suc zero))) false true h = (omega arith, refl, refl, refl)
flags (suc (suc (suc zero))) false false h = (omega arith, refl, refl, refl)
flags (suc (suc (suc (suc zero)))) true true h = (omega arith, refl, refl, refl)
flags (suc (suc (suc (suc zero)))) true false h = (omega arith, refl, refl, refl)
flags (suc (suc (suc (suc zero)))) false true h = (omega arith, refl, refl, refl)
flags (suc (suc (suc (suc zero)))) false false h = (omega arith, refl, refl, refl)
flags (suc (suc (suc (suc (suc zero))))) true true h = (omega arith, refl, refl, refl)
flags (suc (suc (suc (suc (suc zero))))) true false h = (omega arith, refl, refl, refl)
flags (suc (suc (suc (suc (suc zero))))) false true h = (omega arith, refl, refl, refl)
flags (suc (suc (suc (suc (suc zero))))) false false h = (omega arith, refl, refl, refl)
flags (suc (suc (suc (suc (suc (suc n)))))) a b h = absurd (omega arith)

optional_index :
    (n bits : ℕ)
    → n < 2 ^ 32
    → bits ≡ (if n == 0 then 0 else 0x40)
    → RoundTrip
        (if n == 0 then return_true else encode_quint32 n)
        (decode_flagged bits 0 decode_quint32)
        n
optional_index n bits h e = elim (Bool-cases (n == 0)) [
  | inl zero_n ↦
      rw (e, zero_n)
        (subst (RoundTrip return_true (decode_flagged 0 0 decode_quint32))
          (sym ((==_iff n 0).0 zero_n)) (RoundTrip-return 0))
  | inr more ↦ rw (e, more) (RoundTrip-number 4 n (omega arith))
]

module _ ⦃qt : Qt⦄ (x : ExpandedNodeId) (text : Text) (node : x.node_id ≡ some text)
    (f : NodeIdForm text) (uri : IsString x.namespace_uri) (index : x.server_index < 2 ^ 32) where
  abbrev no_uri : Bool
  no_uri = size x.namespace_uri == 0

  abbrev local : Bool
  local = x.server_index == 0

  abbrev first : ℕ
  first = flagged f.form no_uri local

  uri_back :
      RoundTrip
        (if no_uri then return_true else encode_string x.namespace_uri)
        (decode_if (bit_and first 0x80))
        (null_if_empty x.namespace_uri)
  uri_back =
      masked x.namespace_uri 0x80 (bit_and first 0x80) uri refl
        (flags f.form no_uri local f.small).2

  index_back :
      RoundTrip
        (if local then return_true else encode_quint32 x.server_index)
        (decode_flagged (bit_and first 0x40) 0 decode_quint32)
        x.server_index
  index_back =
      optional_index x.server_index (bit_and first 0x40) index (flags f.form no_uri local f.small).3

  abbrev normal_expanded : ExpandedNodeId
  normal_expanded = record {
    server_index = x.server_index;
    namespace_uri = null_if_empty x.namespace_uri;
    node_id = some text;
  }

  local_bytes : Bytes
  local_bytes = uri_back.bytes ++ index_back.bytes

  -- What the local encoder holds before the first byte gets the flags.
  local_written :
      encoded (
        encode_node_id x.node_id
        >> (if no_uri then return_true else encode_string x.namespace_uri)
        >> (if local then return_true else encode_quint32 x.server_index))
      ≡ some (f.form ∷ (f.tail ++ local_bytes))
  unfolding local_bytes
  local_written =
      let options : Encoder =
        (if no_uri then return_true else encode_string x.namespace_uri)
        >> (if local then return_true else encode_quint32 x.server_index) in
      rw node (
        encoded-Writes (encode_node_id (some text) >> options) _ (
          Writes-then (encode_node_id (some text)) options (f.form ∷ f.tail) local_bytes f.writes (
            Writes-then (if no_uri then return_true else encode_string x.namespace_uri)
              (if local then return_true else encode_quint32 x.server_index) uri_back.bytes
              index_back.bytes uri_back.writes index_back.writes)))

  fields_read : Reads (decode_expanded_rest first) (first ∷ (f.tail ++ local_bytes)) normal_expanded
  unfolding decode_expanded_rest local_bytes
  fields_read =
      Reads-bind decode_node_id
        (λ node_id. decode_if (bit_and first 0x80) >>= λ namespace_uri.
          decode_flagged (bit_and first 0x40) 0 decode_quint32 >>= λ server_index. return (record {
            server_index = server_index;
            namespace_uri = namespace_uri;
            node_id = node_id;
          }))
        (first ∷ f.tail) local_bytes (some text) normal_expanded
        (Reads-NodeIdForm f first (flags f.form no_uri local f.small).0
          (flags f.form no_uri local f.small).1)
        (Reads-bind (decode_if (bit_and first 0x80))
          (λ namespace_uri. decode_flagged (bit_and first 0x40) 0 decode_quint32 >>= λ server_index.
            return (record {
              server_index = server_index;
              namespace_uri = namespace_uri;
              node_id = some text;
            }))
          uri_back.bytes index_back.bytes (null_if_empty x.namespace_uri) normal_expanded
          uri_back.reads
          (Reads-map (decode_flagged (bit_and first 0x40) 0 decode_quint32)
            (λ server_index. record {
              server_index = server_index;
              namespace_uri = null_if_empty x.namespace_uri;
              node_id = some text;
            })
            index_back.bytes x.server_index index_back.reads))

  expanded_back : RoundTrip (encode_expanded_node_id x) decode_expanded_node_id normal_expanded
  unfolding encode_expanded_node_id decode_expanded_node_id
  expanded_back = record {
    bytes = first ∷ (f.tail ++ local_bytes);
    writes = λ buffer offset.
        rw (local_written, encode_expanded_node_id)
          (Writes-append (first ∷ (f.tail ++ local_bytes)) buffer offset);
    reads = λ buffer offset rest h.
        rw
          (
            enough-fits 1 buffer offset (first ∷ (f.tail ++ local_bytes)) rest h (omega arith),
            decode_expanded_node_id,
          )
          (rw
            (
              Reads-read_bytes 1 (first ∷ []) refl buffer offset (f.tail ++ local_bytes ++ rest)
                  (h ∙ append_assoc (first ∷ []) (f.tail ++ local_bytes) rest),
              decode_expanded_node_id,
            )
            (fields_read buffer offset rest h));
  }

-- The URI comes back as the null string if it is empty.
abbrev pub kept_uri : ExpandedNodeId → ExpandedNodeId
kept_uri x = record x { namespace_uri = null_if_empty x.namespace_uri }

-- An expanded node id is appended to any buffer and read back from wherever it stands, with an
-- empty namespace URI as the null string, if its node id is one of IsNodeId, its URI is a valid
-- text whose sizes in UTF-16 and in UTF-8 are below 2^31, and its server index has 32 bits.
pub RoundTrip-expanded_node_id :
    ⦃qt : Qt⦄ (x : ExpandedNodeId) (text : Text)
    → x.node_id ≡ some text
    → IsNodeId text
    → IsString x.namespace_uri
    → x.server_index < 2 ^ 32
    → RoundTrip (encode_expanded_node_id x) decode_expanded_node_id (kept_uri x)
RoundTrip-expanded_node_id x text node v uri index =
    subst (RoundTrip (encode_expanded_node_id x) decode_expanded_node_id)
      (ap
        (λ id. record {
          server_index = x.server_index;
          namespace_uri = null_if_empty x.namespace_uri;
          node_id = id;
        })
        (sym node))
      (expanded_back x text node (NodeIdForm-IsNodeId v) uri index)
