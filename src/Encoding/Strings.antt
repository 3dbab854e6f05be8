-- ===== src/Encoding/Strings.antt =====
-- Strings, byte arrays and UUIDs, written and read.
use qtopcua.Prelude.{
  ℕ, ◌-◌, ◌^◌, ◌≤◌, ◌<◌, ◌≡◌, ◌≢◌, refl, sym, ◌∙◌, true, [], ◌∷◌, ◌++◌, none, some, arith, ltb,
  le→ltb, lt→ltb, length, append_assoc, subst, ℤ, pos, negsuc, if◌then◌else◌,
}
use qtopcua.Qt.Text.{Bytes, Text, QString, QByteArray, Uuid}
use qtopcua.Qt.Api.{Qt}
use qtopcua.Encoding.State.{enough_data}
use qtopcua.Encoding.Decoder.{
  failed, Decoder, return, ◌>>=◌, read_bytes, decode_qint32, decode_string, decode_string_body,
  string_after_length, decode_byte_array, decode_byte_array_body, decode_uuid, decode_uuid_fields,
}
use qtopcua.Encoding.Encoder.{
  return_true, to_le, append, encode_quint32, int32_max, encode_string, encode_byte_array,
  encode_uuid,
}
use qtopcua.Encoding.Transfer.{
  Reads, Reads-bind, Reads-map, Reads-return, Writes, Writes-then, Writes-return, RoundTrip,
  Carries, Carries-next, Carries-map, RoundTrip-Carries,
}
use qtopcua.Encoding.Numbers.{
  enough-fits, Reads-read_bytes, Carries-number, Writes-append, RoundTrip-qint32,
}

pub Carries-append :
    (n : ℕ) (bytes : Bytes) → length bytes ≡ n → Carries (append bytes) (read_bytes n) bytes bytes
Carries-append n bytes e = record {
  writes = Writes-append bytes;
  reads = Reads-read_bytes n bytes e;
}

-- A size below 2^31 as the int32 that stands in front of the bytes.
RoundTrip-size : (n : ℕ) → n < 2 ^ 31 → RoundTrip (encode_quint32 n) decode_qint32 (pos n)
RoundTrip-size n h = RoundTrip-qint32 (pos n) h

-- The test in front of the bytes passes.
Reads-guarded {ℓ} :
    {A : Type ℓ} (n : ℕ) (d : Decoder A) (bytes : Bytes) (a : A)
    → n ≤ length bytes
    → Reads d bytes a
    → Reads (λ c. if enough_data n c then d c else failed c) bytes a
Reads-guarded n d bytes a h r buffer offset rest e =
    rw (enough-fits n buffer offset bytes rest e h) (r buffer offset rest e)

Reads-body {ℓ} :
    {A : Type ℓ} (n : ℕ) (f : Bytes → A) (bytes : Bytes)
    → length bytes ≡ n
    → Reads
        (λ c. if enough_data n c then (read_bytes n >>= λ xs. return (f xs)) c else failed c)
        bytes
        (f bytes)
Reads-body n f bytes e =
    Reads-guarded n (read_bytes n >>= λ xs. return (f xs)) bytes (f bytes) (omega arith)
      (Reads-map (read_bytes n) f bytes bytes (Reads-read_bytes n bytes e))

-- The arrays that are written whole: not those of one byte.
abbrev pub IsByteArray : QByteArray → Type 0
IsByteArray none = Unit {0}
IsByteArray (some b) = (length b < 2 ^ 31) × (length b ≢ 1)

pub Reads-decode_byte_array_body :
    (bytes : Bytes) → Reads (decode_byte_array_body (pos (length bytes))) bytes (some bytes)
unfolding decode_byte_array_body
Reads-decode_byte_array_body [] = Reads-return (some [])
Reads-decode_byte_array_body (b ∷ bs) = Reads-body (length (b ∷ bs)) some (b ∷ bs) refl

pub Reads-decode_byte_array :
    (xs ys : Bytes) (z : ℤ) (s : QByteArray)
    → Reads decode_qint32 xs z
    → Reads (decode_byte_array_body z) ys s
    → Reads decode_byte_array (xs ++ ys) s
unfolding decode_byte_array
Reads-decode_byte_array xs ys z s r t buffer offset rest h =
    Reads-bind decode_qint32 decode_byte_array_body xs ys z s r t buffer offset rest h

Writes-array_bytes :
    (b : Bytes) → length b ≢ 1 → Writes (if ltb 1 (length b) then append b else return_true) b
Writes-array_bytes [] h = Writes-return
Writes-array_bytes (x ∷ []) h = absurd (h refl)
Writes-array_bytes (x ∷ y ∷ b) h =
    rw (lt→ltb 1 (length (x ∷ y ∷ b)) (omega arith)) (Writes-append (x ∷ y ∷ b))

-- A byte array that is null or has a size below 2^31 other than 1 is appended to any buffer and
-- read back from wherever it stands; the null array and the empty array stay apart.
pub RoundTrip-byte_array :
    (b : QByteArray) → IsByteArray b → RoundTrip (encode_byte_array b) decode_byte_array b
unfolding encode_byte_array
RoundTrip-byte_array none h =
    let size : RoundTrip (encode_quint32 (2 ^ 32 - 1)) decode_qint32 (negsuc 0) =
      RoundTrip-qint32 (negsuc 0) (omega arith) in
    record {
      bytes = size.bytes ++ [];
      writes =
          Writes-then (encode_quint32 (2 ^ 32 - 1)) return_true size.bytes [] size.writes
            Writes-return;
      reads =
          Reads-decode_byte_array size.bytes [] (negsuc 0) none size.reads
            (unfold decode_byte_array_body in Reads-return none);
    }
RoundTrip-byte_array (some b) h =
    let size = RoundTrip-size (length b) h.0 in
    rw (le→ltb int32_max (length b) (omega arith)) (record {
      bytes = size.bytes ++ b;
      writes =
          Writes-then (encode_quint32 (length b))
            (if ltb 1 (length b) then append b else return_true) size.bytes b size.writes
            (Writes-array_bytes b h.1);
      reads =
          Reads-decode_byte_array size.bytes b (pos (length b)) (some b) size.reads
            (Reads-decode_byte_array_body b);
    })

module _ ⦃qt : Qt⦄ where
  -- A string that Qt can hold and that its UTF-8 form can be measured for.
  abbrev pub IsString : QString → Type 0
  IsString none = Unit {0}
  IsString (some s) = (qt.is_text s ≡ true) × (length s < 2 ^ 31) × (length (qt.to_utf8 s) < 2 ^ 31)

  Reads-decode_string_body :
      (s : Text) (bytes : Bytes)
      → qt.from_utf8 bytes ≡ s
      → Reads (decode_string_body (pos (length bytes))) bytes (some s)
  unfolding decode_string_body
  Reads-decode_string_body s [] e =
      subst (λ t. Reads (return (some [])) [] (some t)) (sym qt.from_utf8-nil ∙ e)
        (Reads-return (some []))
  Reads-decode_string_body s (b ∷ bs) e =
      subst (λ t. Reads (decode_string_body (pos (length (b ∷ bs)))) (b ∷ bs) (some t)) e
        (Reads-body (length (b ∷ bs)) (λ xs. some (qt.from_utf8 xs)) (b ∷ bs) refl)

  -- The flag of the length is not tested, but where the length is there it makes no difference.
  Reads-decode_string :
      (xs ys : Bytes) (z : ℤ) (s : QString)
      → Reads decode_qint32 xs z
      → Reads (decode_string_body z) ys s
      → Reads decode_string (xs ++ ys) s
  unfolding decode_string
  Reads-decode_string xs ys z s r t buffer offset rest h =
      let e = r buffer offset (ys ++ rest) (h ∙ append_assoc xs ys rest) in
      let whole = Reads-bind decode_qint32 decode_string_body xs ys z s r t buffer offset rest h in
      rw (e, string_after_length) (rw (e, ◌>>=◌) at whole)

  -- A string that is null, or valid text whose sizes in UTF-16 and in UTF-8 are below 2^31, is
  -- appended to any buffer and read back from wherever it stands; the null string and the empty
  -- string stay apart.
  pub RoundTrip-string : (s : QString) → IsString s → RoundTrip (encode_string s) decode_string s
  unfolding encode_string
  RoundTrip-string none h =
      let size : RoundTrip (encode_quint32 (2 ^ 32 - 1)) decode_qint32 (negsuc 0) =
        RoundTrip-qint32 (negsuc 0) (omega arith) in
      record {
        bytes = size.bytes ++ [];
        writes =
            Writes-then (encode_quint32 (2 ^ 32 - 1)) (append []) size.bytes [] size.writes
              (Writes-append []);
        reads =
            Reads-decode_string size.bytes [] (negsuc 0) none size.reads
              (unfold decode_string_body in Reads-return none);
      }
  RoundTrip-string (some s) h =
      let utf8 = qt.to_utf8 s in
      let size = RoundTrip-size (length utf8) h.2 in
      rw (le→ltb int32_max (length s) (omega arith)) (record {
        bytes = size.bytes ++ utf8;
        writes =
            Writes-then (encode_quint32 (length utf8)) (append utf8) size.bytes utf8 size.writes
              (Writes-append utf8);
        reads =
            Reads-decode_string size.bytes utf8 (pos (length utf8)) (some s) size.reads
              (Reads-decode_string_body s utf8 (qt.from_utf8-to_utf8 s h.0));
      })

abbrev pub IsUuid : Uuid → Type 0
IsUuid u = (u.data1 < 2 ^ 32) × (u.data2 < 2 ^ 16) × (u.data3 < 2 ^ 16) × (length u.data4 ≡ 8)

-- The sixteen bytes of a UUID.
unfoldable pub uuid_bytes : Uuid → Bytes
uuid_bytes u = to_le 4 u.data1 ++ (to_le 2 u.data2 ++ (to_le 2 u.data3 ++ u.data4))

module _ (u : Uuid) (h : IsUuid u) where
  length-uuid_bytes : length (uuid_bytes u) ≡ 16
  unfolding uuid_bytes to_le
  length-uuid_bytes = omega (arith, h.3)

  uuid_fields : Carries (encode_uuid u) decode_uuid_fields (uuid_bytes u) u
  unfolding uuid_bytes encode_uuid decode_uuid_fields
  uuid_fields = Carries-next _ (Carries-number 4 u.data1 h.0) (
      Carries-next _ (Carries-number 2 u.data2 h.1) (
        Carries-next _ (Carries-number 2 u.data3 h.2)
          (Carries-map _ (Carries-append 8 u.data4 h.3))))

  pub Carries-uuid : Carries (encode_uuid u) decode_uuid (uuid_bytes u) u
  unfolding decode_uuid
  Carries-uuid = record {
    writes = uuid_fields.writes;
    reads =
        Reads-guarded 16 decode_uuid_fields (uuid_bytes u) u (omega (arith, length-uuid_bytes))
          uuid_fields.reads;
  }

  -- A UUID, whose four parts fit into their bits.
  pub RoundTrip-uuid : RoundTrip (encode_uuid u) decode_uuid u
  RoundTrip-uuid = RoundTrip-Carries Carries-uuid
