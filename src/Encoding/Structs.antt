-- ===== src/Encoding/Structs.antt =====
-- encode and decode of the structures that hold no node id.
pub mod RoundTrip
use Prim.Native.Nat.{bit_and, bit_or}
use qtopcua.Prelude.{ℕ, Bool, List, none, ◌==◌, if◌then◌else◌}
use qtopcua.Qt.Text.{QString, size}
use qtopcua.Qt.Api.{Qt}
use qtopcua.Encoding.Records.{
  QualifiedName, LocalizedText, EuInformation, Range, ComplexNumber, AxisInformation, XValue,
}
use qtopcua.Encoding.Decoder.{
  Decoder, return, ◌>>=◌, decode_quint8, decode_quint16, decode_quint32, decode_qint32,
  decode_float, decode_double, decode_string, decode_array,
}
use qtopcua.Encoding.Encoder.{
  Encoder, return_true, ◌>>◌, encode_quint8, encode_quint16, encode_quint32, encode_qint32,
  encode_float, encode_double, encode_string, encode_array,
}

unfoldable pub encode_range : Range → Encoder
encode_range src = encode_double src.low >> encode_double src.high >> return_true

unfoldable pub decode_range : Decoder Range
decode_range = do
  low ← decode_double
  high ← decode_double
  return (record { low = low; high = high })

unfoldable pub encode_complex_number : ComplexNumber → Encoder
encode_complex_number src = encode_float src.real >> encode_float src.imaginary >> return_true

unfoldable pub decode_complex_number : Decoder ComplexNumber
decode_complex_number = do
  real ← decode_float
  imaginary ← decode_float
  return (record { real = real; imaginary = imaginary })

unfoldable pub encode_double_complex_number : ComplexNumber → Encoder
encode_double_complex_number src =
    encode_double src.real >> encode_double src.imaginary >> return_true

unfoldable pub decode_double_complex_number : Decoder ComplexNumber
decode_double_complex_number = do
  real ← decode_double
  imaginary ← decode_double
  return (record { real = real; imaginary = imaginary })

unfoldable pub encode_x_value : XValue → Encoder
encode_x_value src = encode_double src.x >> encode_float src.value >> return_true

unfoldable pub decode_x_value : Decoder XValue
decode_x_value = do
  x ← decode_double
  value ← decode_float
  return (record { x = x; value = value })

module _ ⦃qt : Qt⦄ where
  unfoldable pub encode_qualified_name : QualifiedName → Encoder
  encode_qualified_name src =
      encode_quint16 src.namespace_index >> encode_string src.name >> return_true

  unfoldable pub decode_qualified_name : Decoder QualifiedName
  decode_qualified_name = do
    namespace_index ← decode_quint16
    name ← decode_string
    return (record { namespace_index = namespace_index; name = name })

  -- The mask has bit 0 for a locale and bit 1 for a text.
  abbrev pub text_mask : LocalizedText → ℕ
  text_mask src =
      bit_or (if size src.locale == 0 then 0 else 0x01) (if size src.text == 0 then 0 else 0x02)

  unfoldable pub encode_localized_text : LocalizedText → Encoder
  encode_localized_text src =
      encode_quint8 (text_mask src)
      >> (if size src.locale == 0 then return_true else encode_string src.locale)
      >> (if size src.text == 0 then return_true else encode_string src.text)
      >> return_true

  -- A string that is transferred if the bit is set in the mask, and else stays null.
  abbrev pub decode_if : ℕ → Decoder QString
  decode_if bits = if bits == 0 then return none else decode_string

  unfoldable pub decode_localized_text : Decoder LocalizedText
  decode_localized_text = do
    encoding_mask ← decode_quint8
    locale ← decode_if (bit_and encoding_mask 0x01)
    text ← decode_if (bit_and encoding_mask 0x02)
    return (record { locale = locale; text = text })

  unfoldable pub encode_eu_information : EuInformation → Encoder
  encode_eu_information src =
      encode_string src.namespace_uri
      >> encode_qint32 src.unit_id
      >> encode_localized_text src.display_name
      >> encode_localized_text src.description
      >> return_true

  unfoldable pub decode_eu_information : Decoder EuInformation
  decode_eu_information = do
    namespace_uri ← decode_string
    unit_id ← decode_qint32
    display_name ← decode_localized_text
    description ← decode_localized_text
    return (record {
      namespace_uri = namespace_uri;
      unit_id = unit_id;
      display_name = display_name;
      description = description;
    })

  unfoldable pub encode_axis_information : AxisInformation → Encoder
  encode_axis_information src =
      encode_eu_information src.engineering_units
      >> encode_range src.eu_range
      >> encode_localized_text src.title
      >> encode_quint32 src.axis_scale_type
      >> encode_array encode_double src.axis_steps
      >> return_true

  unfoldable pub decode_axis_information : Decoder AxisInformation
  decode_axis_information = do
    engineering_units ← decode_eu_information
    eu_range ← decode_range
    title ← decode_localized_text
    axis_scale_type ← decode_quint32
    axis_steps ← decode_array decode_double
    return (record {
      engineering_units = engineering_units;
      eu_range = eu_range;
      title = title;
      axis_scale_type = axis_scale_type;
      axis_steps = axis_steps;
    })
