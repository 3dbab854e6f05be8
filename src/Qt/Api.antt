-- ===== src/Qt/Api.antt =====
-- The conversions that Qt Core implements, as an interface. The laws are what the documentation
-- of QString, QByteArray and QUuid promises; `is_text` says which code units are valid UTF-16.
use qtopcua.Prelude.{ℕ, ◌^◌, ◌<◌, ◌≡◌, ◌≢◌, Bool, true, [], ◌∷◌, Option, none, some, All, ℤ}
use qtopcua.Qt.Text.{Text, Bytes, IsByte, Uuid, IsDigit, mid}

pub record Qt : Type 0 where
  -- QString::toUtf8, QString::fromUtf8.
  pub to_utf8 : Text → Bytes
  pub from_utf8 : Bytes → Text
  pub is_text : Text → Bool
  pub from_utf8-to_utf8 : (s : Text) → is_text s ≡ true → from_utf8 (to_utf8 s) ≡ s
  pub from_utf8-nil : from_utf8 [] ≡ []
  -- QString::arg of an unsigned number, and QString::toUInt, which is `none` where `ok` is false.
  pub number : ℕ → Text
  pub to_uint : Text → Option ℕ
  pub to_uint-number : (n : ℕ) → n < 2 ^ 32 → to_uint (number n) ≡ some n
  pub number_digits : (n : ℕ) → All IsDigit (number n)
  pub number-ne-nil : (n : ℕ) → number n ≢ []
  pub number_zero : number 0 ≡ b'0' ∷ []
  -- QStringRef::toLongLong, and QString::arg of its result.
  pub to_long_long : Text → Option ℤ
  pub long_long : ℤ → Text
  -- QByteArray::toBase64, and fromBase64 of a string's Latin-1 form.
  pub to_base64 : Bytes → Text
  pub from_base64 : Text → Bytes
  pub from_base64-to_base64 : (b : Bytes) → All IsByte b → from_base64 (to_base64 b) ≡ b
  pub base64_no_semicolon : (b : Bytes) → All (λ c. c ≢ b';') (to_base64 b)
  pub base64-ne-nil : (b : Bytes) → b ≢ [] → to_base64 b ≢ []
  -- QUuid::toString, "{xxxxxxxx-xxxx-xxxx-xxxx-xxxxxxxxxxxx}", and the constructor from a string;
  -- the text between the braces is no decimal number.
  pub uuid_to_string : Uuid → Text
  pub uuid_from_string : Text → Uuid
  pub uuid_no_number : (u : Uuid) → to_long_long (mid 1 36 (uuid_to_string u)) ≡ none
