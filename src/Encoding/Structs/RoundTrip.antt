-- ===== src/Encoding/Structs/RoundTrip.antt =====
-- Structures without node ids, written and read. A mask does not tell an empty locale or text from
-- the null string.
use Prim.Native.Nat.{bit_and, bit_or}
use qtopcua.Prelude.{
  ℕ, suc, ◌^◌, ◌<◌, ◌≡◌, refl, List, [], ◌∷◌, none, some, arith, ◌==◌, if◌then◌else◌, length, All,
  IsInt32, Bool, true, false,
}
use qtopcua.Qt.Text.{QString, size}
use qtopcua.Qt.Api.{Qt}
use qtopcua.Encoding.Records.{
  QualifiedName, LocalizedText, EuInformation, Range, ComplexNumber, AxisInformation, XValue,
}
use qtopcua.Encoding.Decoder.{decode_double}
use qtopcua.Encoding.Encoder.{encode_double, encode_string, return_true}
use qtopcua.Encoding.Structs.{
  encode_range, decode_range, encode_complex_number, decode_complex_number,
  encode_double_complex_number, decode_double_complex_number, encode_x_value, decode_x_value,
  encode_qualified_name, decode_qualified_name, text_mask, encode_localized_text, decode_if,
  decode_localized_text, encode_eu_information, decode_eu_information, encode_axis_information,
  decode_axis_information,
}
use qtopcua.Encoding.Transfer.{RoundTrip, RoundTrip-next, RoundTrip-return}
use qtopcua.Encoding.Numbers.{RoundTrip-number, RoundTrip-qint32}
use qtopcua.Encoding.Strings.{IsString, RoundTrip-string}
use qtopcua.Encoding.Arrays.{RoundTrip-array}

abbrev pub IsFloat : ℕ → Type 0
IsFloat bits = bits < 2 ^ 32

abbrev pub IsDouble : ℕ → Type 0
IsDouble bits = bits < 2 ^ 64

pub RoundTrip-range :
    (r : Range) → IsDouble r.low → IsDouble r.high → RoundTrip (encode_range r) decode_range r
unfolding encode_range decode_range
RoundTrip-range r low high =
    RoundTrip-next _ (RoundTrip-number 8 r.low (omega arith))
      (RoundTrip-next _ (RoundTrip-number 8 r.high (omega arith)) (RoundTrip-return r))

pub RoundTrip-complex_number :
    (z : ComplexNumber)
    → IsFloat z.real
    → IsFloat z.imaginary
    → RoundTrip (encode_complex_number z) decode_complex_number z
unfolding encode_complex_number decode_complex_number
RoundTrip-complex_number z re im =
    RoundTrip-next _ (RoundTrip-number 4 z.real (omega arith))
      (RoundTrip-next _ (RoundTrip-number 4 z.imaginary (omega arith)) (RoundTrip-return z))

pub RoundTrip-double_complex_number :
    (z : ComplexNumber)
    → IsDouble z.real
    → IsDouble z.imaginary
    → RoundTrip (encode_double_complex_number z) decode_double_complex_number z
unfolding encode_double_complex_number decode_double_complex_number
RoundTrip-double_complex_number z re im =
    RoundTrip-next _ (RoundTrip-number 8 z.real (omega arith))
      (RoundTrip-next _ (RoundTrip-number 8 z.imaginary (omega arith)) (RoundTrip-return z))

pub RoundTrip-x_value :
    (v : XValue) → IsDouble v.x → IsFloat v.value → RoundTrip (encode_x_value v) decode_x_value v
unfolding encode_x_value decode_x_value
RoundTrip-x_value v hx hv =
    RoundTrip-next _ (RoundTrip-number 8 v.x (omega arith))
      (RoundTrip-next _ (RoundTrip-number 4 v.value (omega arith)) (RoundTrip-return v))

-- An empty string and the null string are not told apart.
abbrev pub null_if_empty : QString → QString
null_if_empty none = none
null_if_empty (some []) = none
null_if_empty (some (c ∷ s)) = some (c ∷ s)

abbrev pub normal : LocalizedText → LocalizedText
normal t = record { locale = null_if_empty t.locale; text = null_if_empty t.text }

abbrev mask_of : Bool → Bool → ℕ
mask_of l m = bit_or (if l then 0 else 0x01) (if m then 0 else 0x02)

mask-lt : (l m : Bool) → mask_of l m < 256 ^ 1
mask-lt true true = omega arith
mask-lt true false = omega arith
mask-lt false true = omega arith
mask-lt false false = omega arith

mask_bits :
    (l m : Bool)
    → (bit_and (mask_of l m) 1 ≡ (if l then 0 else 1))
      × (bit_and (mask_of l m) 2 ≡ (if m then 0 else 2))
mask_bits true true = (refl, refl)
mask_bits true false = (refl, refl)
mask_bits false true = (refl, refl)
mask_bits false false = (refl, refl)

module _ ⦃qt : Qt⦄ where
  pub RoundTrip-qualified_name :
      (q : QualifiedName)
      → q.namespace_index < 2 ^ 16
      → IsString q.name
      → RoundTrip (encode_qualified_name q) decode_qualified_name q
  unfolding encode_qualified_name decode_qualified_name
  RoundTrip-qualified_name q h s =
      RoundTrip-next _ (RoundTrip-number 2 q.namespace_index (omega arith))
        (RoundTrip-next _ (RoundTrip-string q.name s) (RoundTrip-return q))

  abbrev pub IsLocalizedText : LocalizedText → Type 0
  IsLocalizedText t = IsString t.locale × IsString t.text

  -- A string behind a bit `b` that is set exactly if it is not empty.
  pub masked :
      (s : QString) (b bits : ℕ)
      → IsString s
      → (b == 0) ≡ false
      → bits ≡ (if size s == 0 then 0 else b)
      → RoundTrip
          (if size s == 0 then return_true else encode_string s)
          (decode_if bits)
          (null_if_empty s)
  masked none b bits h nz e = rw e (RoundTrip-return none)
  masked (some []) b bits h nz e = rw e (RoundTrip-return none)
  masked (some (c ∷ s)) b bits h nz e =
      let full : (suc (length s) == 0) ≡ false = ground arith in
      rw e (rw full (rw nz (RoundTrip-string (some (c ∷ s)) h)))

  pub RoundTrip-localized_text :
      (t : LocalizedText)
      → IsLocalizedText t
      → RoundTrip (encode_localized_text t) decode_localized_text (normal t)
  unfolding encode_localized_text decode_localized_text
  RoundTrip-localized_text t h =
      let l = size t.locale == 0 in
      let m = size t.text == 0 in
      RoundTrip-next _ (RoundTrip-number 1 (text_mask t) (mask-lt l m)) (
        RoundTrip-next _ (masked t.locale 1 (bit_and (text_mask t) 1) h.0 refl (mask_bits l m).0) (
          RoundTrip-next _ (masked t.text 2 (bit_and (text_mask t) 2) h.1 refl (mask_bits l m).1)
            (RoundTrip-return (normal t))))

  abbrev pub IsEuInformation : EuInformation → Type 0
  IsEuInformation e =
      IsString e.namespace_uri
      × IsInt32 e.unit_id
      × IsLocalizedText e.display_name
      × IsLocalizedText e.description

  abbrev pub normal_eu : EuInformation → EuInformation
  normal_eu e = record e {
    display_name = normal e.display_name;
    description = normal e.description;
  }

  pub RoundTrip-eu_information :
      (e : EuInformation)
      → IsEuInformation e
      → RoundTrip (encode_eu_information e) decode_eu_information (normal_eu e)
  unfolding encode_eu_information decode_eu_information
  RoundTrip-eu_information e h = RoundTrip-next _ (RoundTrip-string e.namespace_uri h.0) (
      RoundTrip-next _ (RoundTrip-qint32 e.unit_id h.1) (
        RoundTrip-next _ (RoundTrip-localized_text e.display_name h.2) (
          RoundTrip-next _ (RoundTrip-localized_text e.description h.3)
            (RoundTrip-return (normal_eu e)))))

  abbrev pub IsAxisInformation : AxisInformation → Type 0
  IsAxisInformation a =
      IsEuInformation a.engineering_units
      × IsDouble a.eu_range.low
      × IsDouble a.eu_range.high
      × IsLocalizedText a.title
      × (a.axis_scale_type < 2 ^ 32)
      × (length a.axis_steps < 2 ^ 31)
      × All IsDouble a.axis_steps

  abbrev pub normal_axis : AxisInformation → AxisInformation
  normal_axis a = record a {
    engineering_units = normal_eu a.engineering_units;
    title = normal a.title;
  }

  each_double :
      (xs : List ℕ) → All IsDouble xs → All (λ n. RoundTrip (encode_double n) decode_double n) xs
  each_double [] h = tt
  each_double (x ∷ xs) h = (RoundTrip-number 8 x (omega arith), each_double xs h.1)

  -- An axis information is appended to any buffer and read back from wherever it stands, with empty
  -- locales and texts as null strings, if its strings are valid texts whose sizes are below 2^31,
  -- its unit id is an int32, its scale type has 32 bits, and its steps are fewer than 2^31 double
  -- bit patterns.
  pub RoundTrip-axis_information :
      (a : AxisInformation)
      → IsAxisInformation a
      → RoundTrip (encode_axis_information a) decode_axis_information (normal_axis a)
  unfolding encode_axis_information decode_axis_information
  RoundTrip-axis_information a h =
      RoundTrip-next _ (RoundTrip-eu_information a.engineering_units h.0) (
        RoundTrip-next _ (RoundTrip-range a.eu_range h.1 h.2) (
          RoundTrip-next _ (RoundTrip-localized_text a.title h.3) (
            RoundTrip-next _ (RoundTrip-number 4 a.axis_scale_type (omega arith)) (
              RoundTrip-next _
                (RoundTrip-array encode_double decode_double a.axis_steps h.5
                  (each_double a.axis_steps h.6))
                (RoundTrip-return (normal_axis a))))))
