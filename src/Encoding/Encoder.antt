-- ===== src/Encoding/Encoder.antt =====
-- The encode templates of qopcuabinarydataencoding.h for numbers, strings, byte arrays, UUIDs
-- and arrays.
use qtopcua.Prelude.{
  ℕ, zero, suc, ◌-◌, ◌^◌, ◌/◌, ◌%◌, Bool, true, false, List, [], ◌∷◌, ◌++◌, Option, none, some, ltb,
  if◌then◌else◌, length, ℤ, of_int32,
}
use qtopcua.Qt.Text.{Bytes, QString, QByteArray, Uuid, units, size}
use qtopcua.Qt.Api.{Qt}
use qtopcua.Encoding.State.{Codec}

-- What a call of `encode` returns, and the state after it.
abbrev pub Encoder : Type 0
Encoder = Codec → Bool × Codec

abbrev pub return_true : Encoder
return_true c = (true, c)

abbrev pub return_false : Encoder
return_false c = (false, c)

-- `if (!encode(x)) return false; …`
infixr 6 ◌>>◌
abbrev pub ◌>>◌ : Encoder → Encoder → Encoder
◌>>◌ m k c = let r = m c in if r.0 then k r.1 else (false, r.1)

-- qToLittleEndian, at `width` bytes; a wider value is cut off.
unfoldable pub to_le : ℕ → ℕ → Bytes
to_le zero n = []
to_le (suc width) n = (n % 256) ∷ to_le width (n / 256)

-- `m_data->append(bytes)`
unfoldable pub append : Bytes → Encoder
append bytes c = elim c.m_data [
  | none ↦ (false, c)
  | some buffer ↦ (true, record c { m_data = some (buffer ++ bytes) })
]

-- `encode<T>` at an arithmetic type of `width` bytes.
unfoldable pub encode_number : ℕ → ℕ → Encoder
unfolding append
encode_number width n = append (to_le width n)

abbrev pub encode_quint8 : ℕ → Encoder
encode_quint8 = encode_number 1

abbrev pub encode_quint16 : ℕ → Encoder
encode_quint16 = encode_number 2

abbrev pub encode_quint32 : ℕ → Encoder
encode_quint32 = encode_number 4

abbrev pub encode_qint32 : ℤ → Encoder
encode_qint32 z = encode_quint32 (of_int32 z)

abbrev pub encode_float : ℕ → Encoder
encode_float = encode_number 4

abbrev pub encode_qint64 : ℕ → Encoder
encode_qint64 = encode_number 8

abbrev pub encode_double : ℕ → Encoder
encode_double = encode_number 8

unfoldable pub encode_bool : Bool → Encoder
encode_bool src = encode_number 1 (if src then 1 else 0)

-- upperBound<qint32>().
abbrev pub int32_max : ℕ
int32_max = 2 ^ 31 - 1

-- The length field of a string or a byte array: -1 for the null one, as a bit pattern.
abbrev pub length_field : Option Bytes → ℕ
length_field none = 2 ^ 32 - 1
length_field (some bytes) = length bytes

module _ ⦃qt : Qt⦄ where
  -- toUtf8() of the null string is the null byte array.
  abbrev pub string_to_utf8 : QString → QByteArray
  string_to_utf8 none = none
  string_to_utf8 (some s) = some (qt.to_utf8 s)

  unfoldable pub encode_string : QString → Encoder
  encode_string src =
      let arr = string_to_utf8 src in
      if ltb int32_max (size src)
      then return_false
      else encode_quint32 (length_field arr) >> append (units arr)

-- The bytes are appended only if there are two of them at least.
unfoldable pub encode_byte_array : QByteArray → Encoder
encode_byte_array src =
    if ltb int32_max (size src)
    then return_false
    else encode_quint32 (length_field src)
      >> (if ltb 1 (size src) then append (units src) else return_true)

unfoldable pub encode_uuid : Uuid → Encoder
encode_uuid src =
    encode_quint32 src.data1
    >> encode_quint16 src.data2
    >> encode_quint16 src.data3
    >> append src.data4

unfoldable pub encode_elements {ℓ} : {A : Type ℓ} → (A → Encoder) → List A → Encoder
encode_elements encode [] = return_true
encode_elements encode (a ∷ rest) = encode a >> encode_elements encode rest

unfoldable pub encode_array {ℓ} : {A : Type ℓ} → (A → Encoder) → List A → Encoder
unfolding encode_elements
encode_array encode src =
    if ltb int32_max (length src)
    then return_false
    else encode_quint32 (length src) >> encode_elements encode src
