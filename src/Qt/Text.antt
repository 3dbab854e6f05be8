-- ===== src/Qt/Text.antt =====
-- QString and QByteArray. A QString is a sequence of UTF-16 code units or the null string, a
-- QByteArray a sequence of bytes or the null array. The functions are those of QString that the
-- program calls on constant patterns.
use qtopcua.Prelude.{
  ℕ, ◌<◌, ◌<◌, ◌≡◌, ◌≢◌, refl, Bool, true, false, ◌&&◌, List, [], ◌∷◌, ◌++◌, Option, none, some,
  arith, leb, ◌==◌, if◌then◌else◌, length, take, drop, All,
}

abbrev pub Text : Type 0
Text = List ℕ

abbrev pub QString : Type 0
QString = Option Text

abbrev pub Bytes : Type 0
Bytes = List ℕ

abbrev pub IsByte : ℕ → Type 0
IsByte b = b < 256

abbrev pub QByteArray : Type 0
QByteArray = Option Bytes

-- The code units of a string, none of them for the null string; so for the bytes of an array.
abbrev pub units : Option (List ℕ) → List ℕ
units none = []
units (some s) = s

abbrev pub size : Option (List ℕ) → ℕ
size s = length (units s)

-- QUuid: three integers and the eight bytes of `data4`.
pub record Uuid : Type 0 where
  pub data1 : ℕ
  pub data2 : ℕ
  pub data3 : ℕ
  pub data4 : Bytes

-- QString::mid and midRef with non-negative arguments that fit.
abbrev pub mid : ℕ → ℕ → Text → Text
mid position n s = take n (drop position s)

abbrev pub starts_with : Text → Text → Bool
starts_with [] s = true
starts_with (c ∷ p) [] = false
starts_with (c ∷ p) (x ∷ s) = (x == c) && starts_with p s

-- `operator==` of QString: the null string equals the empty one.
abbrev pub text_eq : Text → Text → Bool
text_eq [] [] = true
text_eq [] (y ∷ ys) = false
text_eq (x ∷ xs) [] = false
text_eq (x ∷ xs) (y ∷ ys) = (x == y) && text_eq xs ys

abbrev on_head : ℕ → List Text → List Text
on_head c [] = (c ∷ []) ∷ []
on_head c (s ∷ rest) = (c ∷ s) ∷ rest

-- QString::split at one character: always one component at least.
unfoldable pub split : ℕ → Text → List Text
split sep [] = [] ∷ []
split sep (c ∷ s) = let rest = split sep s in if c == sep then [] ∷ rest else on_head c rest

abbrev pub is_digit : ℕ → Bool
is_digit c = leb b'0' c && leb c b'9'

abbrev pub IsDigit : ℕ → Type 0
IsDigit c = is_digit c ≡ true

-- A separator that does not occur leaves the text whole.
pub split-without : (sep : ℕ) (s : Text) → All (λ c. c ≢ sep) s → split sep s ≡ s ∷ []
unfolding split
split-without sep [] h = refl
split-without sep (c ∷ s) h = ground (arith, split-without sep s h.1)

-- The first separator ends the first component.
pub split-first :
    (sep : ℕ) (s t : Text) → All (λ c. c ≢ sep) s → split sep (s ++ (sep ∷ t)) ≡ s ∷ split sep t
unfolding split
split-first sep [] t h = ground arith
split-first sep (c ∷ s) t h = ground (arith, split-first sep s t h.1)

pub length-ne-nil : (s : List ℕ) → s ≢ [] → (length s == 0) ≡ false
length-ne-nil [] h = absurd (h refl)
length-ne-nil (c ∷ s) h = ground arith
