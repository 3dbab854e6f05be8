-- ===== src/Qt/Plain.antt =====
-- A concrete instance of the interface, for runs: ASCII text, decimal numbers, UUIDs in
-- hexadecimal, and two letters for each byte where Qt has base 64.
use qtopcua.Prelude.{
  ℕ, zero, suc, ◌+◌, ◌-◌, ◌*◌, ◌/◌, ◌%◌, ◌≡◌, ◌≢◌, refl, Bool, true, ◌&&◌, [], ◌∷◌, ◌++◌, Option,
  none, some, arith, ltb, if◌then◌else◌, take, drop, All, ℤ, pos, negsuc,
}
use qtopcua.Qt.Text.{Text, Bytes, IsByte, Uuid, mid}
use qtopcua.Qt.Api.{Qt}
use qtopcua.Qt.Decimal.{
  decimal, parse, parse_uint, parse_uint-decimal, decimal_digits, decimal-ne-nil, decimal_zero,
  parse_dash,
}

abbrev all_ascii : Text → Bool
all_ascii [] = true
all_ascii (c ∷ s) = ltb c 128 && all_ascii s

abbrev letters : Bytes → Text
letters [] = []
letters (b ∷ bs) = (97 + b / 16) ∷ (97 + b % 16) ∷ letters bs

abbrev unletters : Text → Bytes
unletters [] = []
unletters (c ∷ []) = []
unletters (c ∷ d ∷ s) = (16 * (c - 97) + (d - 97)) ∷ unletters s

pub unletters-letters : (b : Bytes) → All IsByte b → unletters (letters b) ≡ b
unletters-letters [] h = refl
unletters-letters (b ∷ bs) h = ground (arith, unletters-letters bs h.1)

pub letters_plain : (b : Bytes) → All (λ c. c ≢ b';') (letters b)
letters_plain [] = tt
letters_plain (b ∷ bs) = (omega arith, (omega arith, letters_plain bs))

pub letters-ne-nil : (b : Bytes) → b ≢ [] → letters b ≢ []
letters-ne-nil [] h e = h refl
letters-ne-nil (b ∷ bs) h e = cc

abbrev hex_digit : ℕ → ℕ
hex_digit n = if ltb n 10 then 48 + n else 87 + n

abbrev hex : ℕ → ℕ → Text
hex zero n = []
hex (suc k) n = hex k (n / 16) ++ (hex_digit (n % 16) ∷ [])

abbrev hex_bytes : Bytes → Text
hex_bytes [] = []
hex_bytes (b ∷ bs) = hex 2 b ++ hex_bytes bs

abbrev dashed : Bytes → Text
dashed b = hex_bytes (take 2 b) ++ (b'-' ∷ hex_bytes (drop 2 b))

abbrev uuid_text : Uuid → Text
uuid_text u =
    b'{'
    ∷ (hex 8 u.data1
        ++ (b'-'
            ∷ (hex 4 u.data2
                ++ (b'-' ∷ (hex 4 u.data3 ++ (b'-' ∷ (dashed u.data4 ++ (b'}' ∷ []))))))))

abbrev digit_value : ℕ → ℕ
digit_value c = if ltb c 97 then c - 48 else c - 87

abbrev hex_value : ℕ → Text → ℕ
hex_value acc [] = acc
hex_value acc (c ∷ s) = hex_value (16 * acc + digit_value c) s

abbrev byte_values : Text → Bytes
byte_values [] = []
byte_values (c ∷ []) = []
byte_values (c ∷ d ∷ s) = (16 * digit_value c + digit_value d) ∷ byte_values s

-- The 36 characters between the braces.
abbrev uuid_of_text : Text → Uuid
uuid_of_text s = record {
  data1 = hex_value 0 (mid 0 8 s);
  data2 = hex_value 0 (mid 9 4 s);
  data3 = hex_value 0 (mid 14 4 s);
  data4 = byte_values (mid 19 4 s ++ mid 24 12 s);
}

abbrev signed_parse : Text → Option ℤ
signed_parse s = elim (parse 0 s) [ none ↦ none | some n ↦ some (pos n) ]

abbrev signed_text : ℤ → Text
signed_text (pos n) = decimal n
signed_text (negsuc n) = b'-' ∷ decimal (suc n)

-- What stands behind the first eight digits, as far as 36 characters reach.
abbrev behind_data1 : Uuid → Text
behind_data1 u =
    take 27 (hex 4 u.data2 ++ (b'-' ∷ (hex 4 u.data3 ++ (b'-' ∷ (dashed u.data4 ++ (b'}' ∷ []))))))

pub uuid_no_number : (u : Uuid) → signed_parse (mid 1 36 (uuid_text u)) ≡ none
uuid_no_number u =
    let e : parse 0 (mid 1 36 (uuid_text u)) ≡ none =
      parse_dash 0 (hex 8 u.data1) (behind_data1 u) in
    rw (e, signed_parse)

instance abbrev pub plain : Qt
plain = record {
  to_utf8 = λ s. s;
  from_utf8 = λ b. b;
  is_text = all_ascii;
  from_utf8-to_utf8 = λ s h. refl;
  from_utf8-nil = refl;
  number = decimal;
  to_uint = parse_uint;
  to_uint-number = parse_uint-decimal;
  number_digits = decimal_digits;
  number-ne-nil = decimal-ne-nil;
  number_zero = decimal_zero;
  to_long_long = signed_parse;
  long_long = signed_text;
  to_base64 = letters;
  from_base64 = unletters;
  from_base64-to_base64 = unletters-letters;
  base64_no_semicolon = letters_plain;
  base64-ne-nil = letters-ne-nil;
  uuid_to_string = uuid_text;
  uuid_from_string = uuid_of_text;
  uuid_no_number = uuid_no_number;
}
