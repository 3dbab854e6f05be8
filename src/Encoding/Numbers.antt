-- ===== src/Encoding/Numbers.antt =====
-- Numbers, booleans and raw bytes, written and read.
use qtopcua.Prelude.{
  ℕ, zero, suc, ◌+◌, ◌/◌, ◌^◌, ◌≤◌, ◌<◌, ◌≡◌, refl, ap, Bool, true, false, ◌++◌, arith, le→leb,
  length, drop, length-append, length-drop, take-append, ℤ, of_int32, to_int32, IsInt32,
  to_int32-of_int32, of_int32-lt, subst,
}
use qtopcua.Qt.Text.{Bytes}
use qtopcua.Encoding.State.{codec, enough_data}
use qtopcua.Encoding.Decoder.{◌>>=◌, read_bytes, from_le, decode_number, decode_qint32, decode_bool}
use qtopcua.Encoding.Encoder.{to_le, append, encode_number, encode_qint32, encode_bool}
use qtopcua.Encoding.Transfer.{Reads, Writes, RoundTrip, RoundTrip-map, Carries, RoundTrip-Carries}

pub length-to_le : (width n : ℕ) → length (to_le width n) ≡ width
unfolding to_le
length-to_le zero n = refl
length-to_le (suc width) n = ap suc (length-to_le width (n / 256))

pub from_le-to_le : (width n : ℕ) → n < 256 ^ width → from_le (to_le width n) ≡ n
unfolding to_le from_le
from_le-to_le zero n h = omega arith
from_le-to_le (suc width) n h = omega (arith, from_le-to_le width (n / 256) (omega arith))

-- Bytes at the offset lie within the buffer.
pub fits :
    (buffer : Bytes) (offset : ℕ) (bytes rest : Bytes)
    → drop offset buffer ≡ bytes ++ rest
    → length bytes ≤ length (drop offset buffer)
fits buffer offset bytes rest h = omega (arith, ap length h, length-append bytes rest)

pub Reads-read_bytes : (n : ℕ) (bytes : Bytes) → length bytes ≡ n → Reads (read_bytes n) bytes bytes
unfolding read_bytes
Reads-read_bytes n bytes e buffer offset rest h =
    rw (le→leb n (length (drop offset buffer)) (omega (arith, fits buffer offset bytes rest h)))
      (rw (h, ← e) (rw take-append))

-- The test of the remaining size passes where the bytes are there.
pub enough-fits :
    (n : ℕ) (buffer : Bytes) (offset : ℕ) (bytes rest : Bytes)
    → drop offset buffer ≡ bytes ++ rest
    → n ≤ length bytes
    → enough_data n (codec buffer offset) ≡ true
unfolding enough_data
enough-fits n buffer offset bytes rest h e =
    le→leb n (length buffer + offset)
      (omega (arith, fits buffer offset bytes rest h, length-drop offset buffer))

pub Reads-decode_number :
    (width : ℕ) (bytes : Bytes)
    → length bytes ≡ width
    → Reads (decode_number width) bytes (from_le bytes)
unfolding decode_number
Reads-decode_number width bytes e buffer offset rest h =
    rw (enough-fits width buffer offset bytes rest h (omega arith))
      (rw (Reads-read_bytes width bytes e buffer offset rest h, ◌>>=◌))

pub Writes-append : (bytes : Bytes) → Writes (append bytes) bytes
unfolding append
Writes-append bytes buffer offset = refl

pub Writes-encode_number : (width n : ℕ) → Writes (encode_number width n) (to_le width n)
unfolding encode_number
Writes-encode_number width n = Writes-append (to_le width n)

pub Reads-number : (width n : ℕ) → n < 256 ^ width → Reads (decode_number width) (to_le width n) n
Reads-number width n h =
    subst (Reads (decode_number width) (to_le width n)) (from_le-to_le width n h)
      (Reads-decode_number width (to_le width n) (length-to_le width n))

pub Carries-number :
    (width n : ℕ)
    → n < 256 ^ width
    → Carries (encode_number width n) (decode_number width) (to_le width n) n
Carries-number width n h = record {
  writes = Writes-encode_number width n;
  reads = Reads-number width n h;
}

-- A number that fits its type is read back.
pub RoundTrip-number :
    (width n : ℕ) → n < 256 ^ width → RoundTrip (encode_number width n) (decode_number width) n
RoundTrip-number width n h = RoundTrip-Carries (Carries-number width n h)

pub RoundTrip-qint32 : (z : ℤ) → IsInt32 z → RoundTrip (encode_qint32 z) decode_qint32 z
RoundTrip-qint32 z h =
    subst (RoundTrip (encode_qint32 z) decode_qint32) (to_int32-of_int32 z h)
      (RoundTrip-map to_int32 (RoundTrip-number 4 (of_int32 z) (omega (arith, of_int32-lt z h))))

pub RoundTrip-bool : (b : Bool) → RoundTrip (encode_bool b) decode_bool b
unfolding encode_bool decode_bool
RoundTrip-bool true = RoundTrip-map _ (RoundTrip-number 1 1 (omega arith))
RoundTrip-bool false = RoundTrip-map _ (RoundTrip-number 1 0 (omega arith))
