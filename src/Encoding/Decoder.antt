-- ===== src/Encoding/Decoder.antt =====
-- The decode templates of qopcuabinarydataencoding.h for numbers, strings, byte arrays, UUIDs
-- and arrays. A number is its unsigned value; float and double are their bit patterns.
use qtopcua.Prelude.{
  ℕ, zero, suc, ◌+◌, ◌*◌, Bool, not, List, [], ◌∷◌, none, some, leb, ◌==◌, if◌then◌else◌, length,
  take, drop, ℤ, pos, negsuc, to_int32,
}
use qtopcua.Qt.Text.{Bytes, QString, QByteArray, Uuid}
use qtopcua.Qt.Api.{Qt}
use qtopcua.Encoding.State.{Codec, enough_data}

-- How a call of `decode` ends: with `success` true and a value, or with `success` false, each
-- with the state after it. `overrun` is the undefined case: bytes that do not lie in the
-- buffer were read.
pub data Outcome {ℓ} (A : Type ℓ) : Type ℓ where
  done : A → Codec → Outcome A
  failed : Codec → Outcome A
  overrun : Outcome A

abbrev pub Decoder {ℓ} : Type ℓ → Type ℓ
Decoder A = Codec → Outcome A

abbrev pub return {ℓ} : {A : Type ℓ} → A → Decoder A
return a c = done a c

abbrev pub fail {ℓ} : {A : Type ℓ} → Decoder A
fail c = failed c

-- `x = decode(success); if (!success) return T(); …`
infixl 5 ◌>>=◌
abbrev pub ◌>>=◌ {ℓ κ} : {A : Type ℓ} {B : Type κ} → Decoder A → (A → Decoder B) → Decoder B
◌>>=◌ d f c = elim (d c) [ done a c' ↦ f a c' | failed c' ↦ failed c' | overrun ↦ overrun ]

-- The `n` bytes at the offset, read through `constData() + m_offset`.
unfoldable pub read_bytes : ℕ → Decoder Bytes
read_bytes n c = elim c.m_data [
  | none ↦ overrun
  | some buffer ↦
      if leb n (length (drop c.m_offset buffer))
      then done (take n (drop c.m_offset buffer)) (record c { m_offset = c.m_offset + n })
      else overrun
]

-- qFromLittleEndian.
unfoldable pub from_le : Bytes → ℕ
from_le [] = 0
from_le (b ∷ bs) = b + 256 * from_le bs

-- `decode<T>` at an arithmetic type of `width` bytes.
unfoldable pub decode_number : ℕ → Decoder ℕ
decode_number width c = elim c.m_data [
  | none ↦ failed c
  | some _ ↦
      if enough_data width c
      then (read_bytes width >>= λ bytes. return (from_le bytes)) c
      else failed c
]

abbrev pub decode_quint8 : Decoder ℕ
decode_quint8 = decode_number 1

abbrev pub decode_quint16 : Decoder ℕ
decode_quint16 = decode_number 2

abbrev pub decode_quint32 : Decoder ℕ
decode_quint32 = decode_number 4

abbrev pub decode_float : Decoder ℕ
decode_float = decode_number 4

abbrev pub decode_qint64 : Decoder ℕ
decode_qint64 = decode_number 8

abbrev pub decode_double : Decoder ℕ
decode_double = decode_number 8

abbrev pub decode_qint32 : Decoder ℤ
decode_qint32 = decode_quint32 >>= λ n. return (to_int32 n)

-- `decode<bool>`: the byte is one of `sizeof(quint8)`.
unfoldable pub decode_bool : Decoder Bool
decode_bool = decode_number 1 >>= λ temp. return (not (temp == 0))

module _ ⦃qt : Qt⦄ where
  -- What `decode<QString>` does with the length that it read.
  unfoldable pub decode_string_body : ℤ → Decoder QString
  decode_string_body (pos zero) = return (some [])
  decode_string_body (pos (suc n)) = λ c.
      if enough_data (suc n) c
      then (read_bytes (suc n) >>= λ bytes. return (some (qt.from_utf8 bytes))) c
      else failed c
  decode_string_body (negsuc zero) = return none
  decode_string_body (negsuc (suc n)) = fail

  -- The flag of the length's `decode` is not tested: where that fails, its value is 0.
  unfoldable pub string_after_length : Outcome ℤ → Outcome QString
  unfolding decode_string_body
  string_after_length (done n c) = decode_string_body n c
  string_after_length (failed c) = decode_string_body (pos 0) c
  string_after_length overrun = overrun

  unfoldable pub decode_string : Decoder QString
  unfolding string_after_length
  decode_string c = elim c.m_data [
    | none ↦ failed c
    | some _ ↦ string_after_length (decode_qint32 c)
  ]

unfoldable pub decode_byte_array_body : ℤ → Decoder QByteArray
decode_byte_array_body (pos zero) = return (some [])
decode_byte_array_body (pos (suc n)) = λ c.
    if enough_data (suc n) c
    then (read_bytes (suc n) >>= λ bytes. return (some bytes)) c
    else failed c
decode_byte_array_body (negsuc zero) = return none
decode_byte_array_body (negsuc (suc n)) = fail

unfoldable pub decode_byte_array : Decoder QByteArray
unfolding decode_byte_array_body
decode_byte_array c = elim c.m_data [
  | none ↦ failed c
  | some _ ↦ (decode_qint32 >>= decode_byte_array_body) c
]

-- The three integers, then the eight bytes of `data4`, which no test of its own guards.
unfoldable pub decode_uuid_fields : Decoder Uuid
decode_uuid_fields = do
  data1 ← decode_quint32
  data2 ← decode_quint16
  data3 ← decode_quint16
  data4 ← read_bytes 8
  return (record { data1 = data1; data2 = data2; data3 = data3; data4 = data4 })

unfoldable pub decode_uuid : Decoder Uuid
unfolding decode_uuid_fields
decode_uuid c = elim c.m_data [
  | none ↦ failed c
  | some _ ↦ if enough_data 16 c then decode_uuid_fields c else failed c
]

-- The loop of `decodeArray`, with `n` rounds left.
unfoldable pub decode_elements {ℓ} : {A : Type ℓ} → ℕ → Decoder A → Decoder (List A)
decode_elements zero decode = return []
decode_elements (suc n) decode =
    decode >>= λ a. decode_elements n decode >>= λ rest. return (a ∷ rest)

-- A size that is not positive makes no round.
abbrev rounds : ℤ → ℕ
rounds (pos n) = n
rounds (negsuc n) = 0

unfoldable pub decode_array {ℓ} : {A : Type ℓ} → Decoder A → Decoder (List A)
decode_array decode = decode_qint32 >>= λ size. decode_elements (rounds size) decode
