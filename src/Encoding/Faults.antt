-- ===== src/Encoding/Faults.antt =====
-- The branches of the encoding at its limits: the test of the remaining size, a string without its
-- length field, byte arrays of one byte, and the rollback of a failed encode.
use qtopcua.Prelude.{
  ℕ, ◌+◌, ◌<◌, ◌∙◌, Bool-cases, inl, inr, if◌then◌else◌, ◌≡◌, refl, true, false, [], ◌∷◌, ◌++◌,
  some, arith, leb, le→leb, lt→leb, lt→ltb, length, take, drop, length-drop, length-append, subst,
  pos, ap, append_assoc, append-nil, to_int32, take-append,
}
use qtopcua.Qt.Text.{Bytes}
use qtopcua.Qt.Api.{Qt}
use qtopcua.Encoding.State.{codec, enough_data, set_offset, truncate_buffer_to_offset}
use qtopcua.Encoding.Decoder.{
  Outcome, done, failed, overrun, ◌>>=◌, read_bytes, from_le, decode_number, decode_quint32,
  decode_string, string_after_length, decode_string_body, decode_byte_array,
}
use qtopcua.Encoding.Encoder.{to_le, encode_byte_array, encode_quint32, return_true}
use qtopcua.Encoding.Transfer.{Reads, Reads-map, Writes, Writes-then, Writes-return}
use qtopcua.Encoding.Numbers.{Reads-number, Writes-encode_number}
use qtopcua.Encoding.Strings.{Reads-decode_byte_array, Reads-decode_byte_array_body}

-- How decoding a number of `width` bytes ends.
abbrev pub number_end : ℕ → Bytes → ℕ → Outcome ℕ
number_end width buffer offset =
    if leb (offset + width) (length buffer)
    then done (from_le (take width (drop offset buffer))) (codec buffer (offset + width))
    else if leb width (length buffer + offset)
    then overrun
    else failed (codec buffer offset)

-- Decoding a number of some width other than 0 succeeds with the bytes at the offset if they lie
-- within the buffer; reads outside the buffer if they do not, but the width is at most the sum of
-- the size and the offset; and fails without moving if the width is more than that sum.
pub decode_number_ends :
    (width : ℕ) (buffer : Bytes) (offset : ℕ)
    → 0 < width
    → decode_number width (codec buffer offset) ≡ number_end width buffer offset
unfolding decode_number read_bytes enough_data
decode_number_ends width buffer offset some_bytes =
    elim (Bool-cases (leb (offset + width) (length buffer))) [
      | inl fits ↦
          let there : leb width (length (drop offset buffer)) ≡ true =
            le→leb _ _ (ground (arith, length-drop offset buffer)) in
          rw fits (
            rw (le→leb width (length buffer + offset) (ground arith))
              (rw (there, read_bytes, ◌>>=◌) refl))
      | inr short ↦
          let away : leb width (length (drop offset buffer)) ≡ false =
            lt→leb _ _ (ground (arith, length-drop offset buffer)) in
          rw short (elim (Bool-cases (leb width (length buffer + offset))) [
            | inl passes ↦ rw passes (rw (away, read_bytes, ◌>>=◌) refl)
            | inr refused ↦ rw refused refl
          ])
    ]

-- A string without its length field.
pub decode_string_no_length :
    ⦃qt : Qt⦄ (buffer : Bytes) (offset : ℕ)
    → length buffer + offset < 4
    → decode_string (codec buffer offset) ≡ done (some []) (codec buffer offset)
unfolding decode_string
decode_string_no_length buffer offset h =
    let e : decode_number 4 (codec buffer offset) ≡ failed (codec buffer offset) =
      decode_number_ends 4 buffer offset (omega arith)
      ∙ rw
          (
            lt→leb (offset + 4) (length buffer) (omega arith),
            lt→leb 4 (length buffer + offset) (omega arith),
          )
          refl in
    rw (e, string_after_length) (unfold decode_string_body in refl)

-- An array of one byte is written as its size alone, and whatever byte follows that size is read as
-- its element.
pub one_byte_array :
    (b next : ℕ)
    → Writes (encode_byte_array (some (b ∷ []))) (to_le 4 1)
      × Reads decode_byte_array (to_le 4 1 ++ (next ∷ [])) (some (next ∷ []))
unfolding encode_byte_array
one_byte_array b next = (
  subst (Writes (encode_byte_array (some (b ∷ [])))) (append-nil (to_le 4 1)) (
      Writes-then (encode_quint32 1) return_true (to_le 4 1) [] (Writes-encode_number 4 1)
        Writes-return),
  Reads-decode_byte_array (to_le 4 1) (next ∷ []) (pos 1) (some (next ∷ []))
      (Reads-map decode_quint32 to_int32 (to_le 4 1) 1 (Reads-number 4 1 (omega arith)))
      (Reads-decode_byte_array_body (next ∷ [])),
)

-- A failed encode that is rolled back.
pub rollback_leaves_byte :
    (before : Bytes) (b c : ℕ) (after : Bytes) (offset : ℕ)
    → truncate_buffer_to_offset
        (set_offset (length before) (codec (before ++ (b ∷ c ∷ after)) offset))
      ≡ codec (before ++ (b ∷ [])) (length before)
unfolding truncate_buffer_to_offset set_offset
rollback_leaves_byte before b c after offset =
    rw
      (lt→ltb (length before + 1) (length (before ++ (b ∷ c ∷ after)))
        (omega (arith, length-append before (b ∷ c ∷ after))))
      (ap (λ kept. codec kept (length before)) cut)
  where
    cut : take (length before + 1) (before ++ (b ∷ c ∷ after)) ≡ before ++ (b ∷ [])
    cut =
        let e : length before + 1 ≡ length (before ++ (b ∷ [])) =
          omega (arith, length-append before (b ∷ [])) in
        rw (e, ← append_assoc before (b ∷ []) (c ∷ after))
          (take-append (before ++ (b ∷ [])) (c ∷ after))
