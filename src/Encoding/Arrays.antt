-- ===== src/Encoding/Arrays.antt =====
-- encodeArray and decodeArray: a size, and the elements one after the other.
use qtopcua.Prelude.{◌^◌, ◌<◌, List, [], ◌∷◌, arith, le→ltb, length, All, pos, map}
use qtopcua.Encoding.Decoder.{Decoder, decode_elements, decode_array}
use qtopcua.Encoding.Encoder.{Encoder, int32_max, encode_elements, encode_array}
use qtopcua.Encoding.Transfer.{RoundTrip, RoundTrip-next, RoundTrip-map, RoundTrip-return}
use qtopcua.Encoding.Numbers.{RoundTrip-qint32}

module _ {ℓ} {A : Type ℓ} (encode : A → Encoder) (decode : Decoder A) where
  elements_back :
      (xs : List A)
      → All (λ a. RoundTrip (encode a) decode a) xs
      → RoundTrip (encode_elements encode xs) (decode_elements (length xs) decode) xs
  unfolding encode_elements decode_elements
  elements_back [] h = RoundTrip-return []
  elements_back (x ∷ xs) h = RoundTrip-next _ h.0 (RoundTrip-map (◌∷◌ x) (elements_back xs h.1))

  -- An array is read back if each of its elements is.
  pub RoundTrip-array :
      (xs : List A)
      → length xs < 2 ^ 31
      → All (λ a. RoundTrip (encode a) decode a) xs
      → RoundTrip (encode_array encode xs) (decode_array decode) xs
  unfolding encode_array decode_array
  RoundTrip-array xs h each =
      rw (le→ltb int32_max (length xs) (omega arith))
        (RoundTrip-next _ (RoundTrip-qint32 (pos (length xs)) h) (elements_back xs each))

module _ {ℓ} {A : Type ℓ} (encode : A → Encoder) (decode : Decoder A) (f : A → A) where
  elements_back_as :
      (xs : List A)
      → All (λ a. RoundTrip (encode a) decode (f a)) xs
      → RoundTrip (encode_elements encode xs) (decode_elements (length xs) decode) (map f xs)
  unfolding encode_elements decode_elements
  elements_back_as [] h = RoundTrip-return []
  elements_back_as (x ∷ xs) h =
      RoundTrip-next _ h.0 (RoundTrip-map (◌∷◌ (f x)) (elements_back_as xs h.1))

  -- The same where each element comes back in a normal form.
  pub RoundTrip-array_as :
      (xs : List A)
      → length xs < 2 ^ 31
      → All (λ a. RoundTrip (encode a) decode (f a)) xs
      → RoundTrip (encode_array encode xs) (decode_array decode) (map f xs)
  unfolding encode_array decode_array
  RoundTrip-array_as xs h each =
      rw (le→ltb int32_max (length xs) (omega arith))
        (RoundTrip-next _ (RoundTrip-qint32 (pos (length xs)) h) (elements_back_as xs each))
