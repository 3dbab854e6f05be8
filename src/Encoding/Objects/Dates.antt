-- ===== src/Encoding/Objects/Dates.antt =====
-- encode<QDateTime> and decode<QDateTime>, one after the other.
use qtopcua.Prelude.{
  ℕ, ◌-◌, ◌*◌, ◌^◌, ◌<◌, ◌≡◌, none, some, arith, Option, ℤ, pos, negsuc, leb, Bool-cases, inl, inr,
  if◌then◌else◌, ◌==◌, ◌||◌,
}
use qtopcua.Encoding.Transfer.{RoundTrip, RoundTrip-map}
use qtopcua.Encoding.Numbers.{RoundTrip-number}
use qtopcua.Encoding.Objects.{encode_date_time, decode_date_time, date_of_word}

-- What comes back of a date.
abbrev pub kept_date : ℕ → ℤ → Option ℤ
kept_date limit (negsuc n) = none
kept_date limit (pos n) = if n == 0 || leb limit n then none else some (pos n)

word-date :
    (n limit : ℕ)
    → 0 < n
    → n < limit
    → 10000 * limit < 2 ^ 63
    → date_of_word (10000 * n) ≡ some (pos n)
word-date n limit p h k = ground arith

-- A date is appended to any buffer. Read back from wherever it stands, it is the same millisecond
-- if it lies strictly between the epoch and the limit, and the invalid date otherwise. The limit is
-- positive, and 10000 times it is below 2^63.
pub RoundTrip-date_time :
    (limit : ℕ) (t : ℤ)
    → 0 < limit
    → 10000 * limit < 2 ^ 63
    → RoundTrip (encode_date_time limit t) decode_date_time (kept_date limit t)
unfolding encode_date_time decode_date_time
RoundTrip-date_time limit (negsuc n) h k =
    RoundTrip-map date_of_word (RoundTrip-number 8 0 (omega arith))
RoundTrip-date_time limit (pos n) h k = elim (Bool-cases (leb limit n)) [
  | inl late ↦ elim (Bool-cases (n == 0)) [
    | inl zero_n ↦ absurd (ground arith)
    | inr later ↦
        rw (late, later)
          (RoundTrip-map date_of_word (RoundTrip-number 8 (2 ^ 63 - 1) (omega arith)))
  ]
  | inr early ↦ elim (Bool-cases (n == 0)) [
    | inl zero_n ↦
        rw (early, zero_n) (RoundTrip-map date_of_word (RoundTrip-number 8 0 (omega arith)))
    | inr later ↦
        rw (early, later)
          (rw (word-date n limit (ground arith) (ground arith) k) at
            (RoundTrip-map date_of_word (RoundTrip-number 8 (10000 * n) (ground arith))))
  ]
]
