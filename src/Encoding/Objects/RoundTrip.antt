-- ===== src/Encoding/Objects/RoundTrip.antt =====
-- Extension objects, arguments and application records, written and read.
use qtopcua.Prelude.{
  ℕ, ◌^◌, ◌<◌, ◌≡◌, List, [], ◌∷◌, some, none, arith, ◌==◌, if◌then◌else◌, length, All, IsInt32,
  map,
}
use qtopcua.Qt.Text.{Text, QString, QByteArray}
use qtopcua.Qt.Api.{Qt}
use qtopcua.Encoding.Records.{
  LocalizedText, BodyEncoding, no_body, byte_string, xml, ExtensionObject, Argument,
  ApplicationRecord,
}
use qtopcua.Encoding.Decoder.{◌>>=◌, decode_quint8, decode_quint32, decode_string}
use qtopcua.Encoding.Encoder.{
  ◌>>◌, encode_quint8, encode_quint32, encode_qint32, encode_string, encode_array, return_true,
  encode_byte_array,
}
use qtopcua.Encoding.Transfer.{RoundTrip, RoundTrip-next, RoundTrip-map, RoundTrip-return}
use qtopcua.Encoding.Numbers.{RoundTrip-number, RoundTrip-qint32, Writes-append}
use qtopcua.Encoding.Strings.{IsString, RoundTrip-string, IsByteArray, RoundTrip-byte_array}
use qtopcua.Encoding.Arrays.{RoundTrip-array, RoundTrip-array_as}
use qtopcua.Encoding.Structs.{encode_localized_text, decode_localized_text}
use qtopcua.Encoding.Structs.RoundTrip.{IsLocalizedText, normal, RoundTrip-localized_text}
use qtopcua.Encoding.NodeId.{encode_node_id, decode_node_id}
use qtopcua.Encoding.NodeId.Forms.{encoded-Writes}
use qtopcua.Encoding.NodeId.Valid.{IsNodeId, RoundTrip-node_id}
use qtopcua.Encoding.Objects.{
  encoding_number, extension_body, encode_extension_object, decode_extension_object,
  encode_argument, decode_argument, encode_application_record, decode_application_record,
}

-- Without a body nothing of it is transferred.
abbrev pub kept_body : ExtensionObject → ExtensionObject
kept_body o = record {
  encoding_type_id = o.encoding_type_id;
  encoded_body = if encoding_number o.encoding == 0 then none else o.encoded_body;
  encoding = o.encoding;
}

module _ ⦃qt : Qt⦄ where
  body_back :
      (type_id : QString) (b : QByteArray) (e : BodyEncoding)
      → IsByteArray b
      → RoundTrip
          (encode_quint8 (encoding_number e)
            >> (if encoding_number e == 0 then return_true else encode_byte_array b)
            >> return_true)
          (decode_quint8 >>= extension_body type_id)
          (record {
            encoding_type_id = type_id;
            encoded_body = if encoding_number e == 0 then none else b;
            encoding = e;
          })
  unfolding extension_body
  body_back type_id b no_body h =
      RoundTrip-next _ (RoundTrip-number 1 0 (omega arith)) (RoundTrip-return _)
  body_back type_id b byte_string h =
      RoundTrip-next _ (RoundTrip-number 1 1 (omega arith))
        (RoundTrip-next _ (RoundTrip-byte_array b h) (RoundTrip-return _))
  body_back type_id b xml h =
      RoundTrip-next _ (RoundTrip-number 1 2 (omega arith))
        (RoundTrip-next _ (RoundTrip-byte_array b h) (RoundTrip-return _))

  -- An extension object is appended to any buffer and read back from wherever it stands, without a
  -- body for the encoding that has none, if its type id is one of IsNodeId and its body is null or
  -- has a size below 2^31 that is not 1.
  pub RoundTrip-extension_object :
      (type_id : Text) (b : QByteArray) (e : BodyEncoding)
      → IsNodeId type_id
      → IsByteArray b
      → let o : ExtensionObject = record {
        encoding_type_id = some type_id;
        encoded_body = b;
        encoding = e;
      } in
        RoundTrip (encode_extension_object o) decode_extension_object (kept_body o)
  unfolding encode_extension_object decode_extension_object
  RoundTrip-extension_object type_id b e f h =
      RoundTrip-next _ (RoundTrip-node_id type_id f) (body_back (some type_id) b e h)

  node_id_back :
      {s : QString} {id : Text}
      → s ≡ some id
      → IsNodeId id
      → RoundTrip (encode_node_id s) decode_node_id s
  node_id_back {id = id} e f = rw e (RoundTrip-node_id id f)

  each_word :
      (xs : List ℕ)
      → All (λ n. n < 2 ^ 32) xs
      → All (λ n. RoundTrip (encode_quint32 n) decode_quint32 n) xs
  each_word [] h = tt
  each_word (x ∷ xs) h = (RoundTrip-number 4 x (omega arith), each_word xs h.1)

  each_string :
      (xs : List QString)
      → All IsString xs
      → All (λ s. RoundTrip (encode_string s) decode_string s) xs
  each_string [] h = tt
  each_string (x ∷ xs) h = (RoundTrip-string x h.0, each_string xs h.1)

  each_text :
      (xs : List LocalizedText)
      → All IsLocalizedText xs
      → All (λ t. RoundTrip (encode_localized_text t) decode_localized_text (normal t)) xs
  each_text [] h = tt
  each_text (x ∷ xs) h = (RoundTrip-localized_text x h.0, each_text xs h.1)

  abbrev pub normal_argument : Argument → Argument
  normal_argument a = record a { description = normal a.description }

  pub record IsArgument (a : Argument) (type_id : Text) : Type 0 where
    pub name_valid : IsString a.name
    pub data_type : a.data_type_id ≡ some type_id
    pub rank : IsInt32 a.value_rank
    pub few : length a.array_dimensions < 2 ^ 31
    pub dimensions : All (λ n. n < 2 ^ 32) a.array_dimensions
    pub description_valid : IsLocalizedText a.description

  argument_fields :
      (a : Argument) (type_id : Text)
      → IsNodeId type_id
      → IsArgument a type_id
      → RoundTrip
          (encode_string a.name
            >> encode_node_id a.data_type_id
            >> encode_qint32 a.value_rank
            >> encode_array encode_quint32 a.array_dimensions
            >> encode_localized_text a.description)
          decode_argument
          (normal_argument a)
  unfolding decode_argument
  argument_fields a type_id f v = RoundTrip-next _ (RoundTrip-string a.name v.name_valid) (
      RoundTrip-next _ (node_id_back v.data_type f) (
        RoundTrip-next _ (RoundTrip-qint32 a.value_rank v.rank) (
          RoundTrip-next _
            (RoundTrip-array encode_quint32 decode_quint32 a.array_dimensions v.few
              (each_word a.array_dimensions v.dimensions))
            (RoundTrip-map (λ d. record a { description = d })
              (RoundTrip-localized_text a.description v.description_valid)))))

  -- An argument is appended to any buffer, through its local buffer, and read back from wherever it
  -- stands, with an empty locale or text of its description as the null string, if its data type is
  -- an id of IsNodeId, its strings are valid texts whose sizes are below 2^31, its value rank is an
  -- int32, and its array dimensions are fewer than 2^31 numbers of 32 bits.
  pub RoundTrip-argument :
      (a : Argument) (type_id : Text)
      → IsNodeId type_id
      → IsArgument a type_id
      → RoundTrip (encode_argument a) decode_argument (normal_argument a)
  unfolding encode_argument
  RoundTrip-argument a type_id f v =
      let fields = argument_fields a type_id f v in
      record {
        bytes = fields.bytes;
        writes = λ buffer offset.
            rw (encoded-Writes _ fields.bytes fields.writes, encode_argument)
              (Writes-append fields.bytes buffer offset);
        reads = fields.reads;
      }

  pub record IsApplicationRecord (a : ApplicationRecord) (id : Text) : Type 0 where
    pub id_form : a.application_id ≡ some id
    pub uri : IsString a.application_uri
    pub type_number : a.application_type < 2 ^ 32
    pub few_names : length a.application_names < 2 ^ 31
    pub names : All IsLocalizedText a.application_names
    pub product : IsString a.product_uri
    pub few_urls : length a.discovery_urls < 2 ^ 31
    pub urls : All IsString a.discovery_urls
    pub few_capabilities : length a.server_capability_identifiers < 2 ^ 31
    pub capabilities : All IsString a.server_capability_identifiers

  abbrev pub normal_application : ApplicationRecord → ApplicationRecord
  normal_application a = record a { application_names = map normal a.application_names }

  -- An application record is appended to any buffer and read back from wherever it stands, with
  -- empty locales and texts of its names as null strings, if its id is one of IsNodeId, its strings
  -- are valid texts whose sizes in UTF-16 and in UTF-8 are below 2^31, its arrays have fewer than
  -- 2^31 elements, and its type has 32 bits.
  pub RoundTrip-application_record :
      (a : ApplicationRecord) (id : Text)
      → IsNodeId id
      → IsApplicationRecord a id
      → RoundTrip (encode_application_record a) decode_application_record (normal_application a)
  unfolding encode_application_record decode_application_record
  RoundTrip-application_record a id f v = RoundTrip-next _ (node_id_back v.id_form f) (
      RoundTrip-next _ (RoundTrip-string a.application_uri v.uri) (
        RoundTrip-next _ (RoundTrip-number 4 a.application_type (omega (arith, v.type_number))) (
          RoundTrip-next _
            (RoundTrip-array_as encode_localized_text decode_localized_text normal
              a.application_names v.few_names (each_text a.application_names v.names))
            (RoundTrip-next _ (RoundTrip-string a.product_uri v.product) (
              RoundTrip-next _
                (RoundTrip-array encode_string decode_string a.discovery_urls v.few_urls
                  (each_string a.discovery_urls v.urls))
                (RoundTrip-next _
                  (RoundTrip-array encode_string decode_string a.server_capability_identifiers
                    v.few_capabilities (each_string a.server_capability_identifiers v.capabilities))
                  (RoundTrip-return (normal_application a))))))))
