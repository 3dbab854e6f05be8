-- ===== src/Encoding/NodeId/Valid.antt =====
-- The node id texts that encode<QString, NodeId> writes completely.
use qtopcua.Prelude.{ℕ, ◌^◌, ◌<◌, ◌≡◌, ◌≢◌, [], some, All, sym, subst}
use qtopcua.Qt.Text.{Text, Bytes, IsByte}
use qtopcua.Qt.Api.{Qt}
use qtopcua.NodeIds.{node_id_from_integer, node_id_from_string, node_id_from_byte_string}
use qtopcua.NodeIds.Split.{IsPlain}
use qtopcua.Encoding.Strings.{IsString, IsByteArray}
use qtopcua.Encoding.Transfer.{RoundTrip}
use qtopcua.Encoding.NodeId.{encode_node_id, decode_node_id}
use qtopcua.Encoding.NodeId.Forms.{NodeIdForm}
use qtopcua.Encoding.NodeId.RoundTrip.{NodeIdForm-numeric, RoundTrip-NodeIdForm}
use qtopcua.Encoding.NodeId.Texts.{NodeIdForm-string, NodeIdForm-opaque}

module _ ⦃qt : Qt⦄ where
  -- An integer of 32 bits, a string that is valid text, not empty and without a semicolon, or a
  -- byte string of two bytes at least, in any namespace.
  pub data IsNodeId (text : Text) : Type 0 where
    numeric :
        (ns id : ℕ) → ns < 2 ^ 16 → id < 2 ^ 32 → text ≡ node_id_from_integer ns id → IsNodeId text
    string :
        (ns : ℕ) (s : Text)
        → ns < 2 ^ 16
        → IsString (some s)
        → s ≢ []
        → IsPlain s
        → text ≡ node_id_from_string ns s
        → IsNodeId text
    opaque :
        (ns : ℕ) (b : Bytes)
        → ns < 2 ^ 16
        → IsByteArray (some b)
        → All IsByte b
        → b ≢ []
        → text ≡ node_id_from_byte_string ns b
        → IsNodeId text

  pub NodeIdForm-IsNodeId : {text : Text} → IsNodeId text → NodeIdForm text
  unfolding node_id_from_integer node_id_from_string node_id_from_byte_string
  NodeIdForm-IsNodeId (numeric ns id hns hid e) =
      subst NodeIdForm (sym e) (NodeIdForm-numeric ns id hns hid)
  NodeIdForm-IsNodeId (string ns s hns valid full plain e) =
      subst NodeIdForm (sym e) (NodeIdForm-string ns hns s valid full plain)
  NodeIdForm-IsNodeId (opaque ns b hns valid bytes full e) =
      subst NodeIdForm (sym e) (NodeIdForm-opaque ns hns b valid bytes full)

  -- A node id text is appended to any buffer and read back as the same text from wherever it
  -- stands, if it was made from a namespace index of 16 bits and from an integer of 32 bits, from a
  -- valid string that is not empty and has no semicolon, or from two bytes at least, the sizes
  -- being below 2^31.
  pub RoundTrip-node_id :
      (text : Text)
      → IsNodeId text
      → RoundTrip (encode_node_id (some text)) decode_node_id (some text)
  RoundTrip-node_id text v = RoundTrip-NodeIdForm (NodeIdForm-IsNodeId v)
