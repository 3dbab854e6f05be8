-- ===== src/Qt/Decimal.antt =====
-- Decimal numbers as code units: QString::arg and QString::toUInt of plain digits.
use qtopcua.Prelude.{
  ℕ, zero, suc, ◌+◌, ◌-◌, ◌*◌, ◌/◌, ◌%◌, ◌^◌, ◌<◌, ◌≡◌, ◌≢◌, ◌∙◌, ap, refl, true, false, [], ◌∷◌,
  ◌++◌, Option, none, some, arith, ltb, if◌then◌else◌, All, All-append, Bool-cases, inl, inr,
}
use qtopcua.Qt.Text.{Text, is_digit, IsDigit}

unfoldable pub digits : ℕ → ℕ → Text
digits zero n = []
digits (suc fuel) n = elim (ltb n 10) [
  | true ↦ (48 + n) ∷ []
  | false ↦ digits fuel (n / 10) ++ ((48 + n % 10) ∷ [])
]

unfoldable pub decimal : ℕ → Text
unfolding digits
decimal n = digits (suc n) n

unfoldable pub parse : ℕ → Text → Option ℕ
parse acc [] = some acc
parse acc (c ∷ s) = if is_digit c then parse (acc * 10 + (c - 48)) s else none

abbrev bounded : Option ℕ → Option ℕ
bounded none = none
bounded (some n) = if ltb n (2 ^ 32) then some n else none

unfoldable pub parse_uint : Text → Option ℕ
unfolding parse
parse_uint [] = none
parse_uint (c ∷ s) = bounded (parse 0 (c ∷ s))

parse-snoc :
    (acc m d : ℕ) (s : Text)
    → parse acc s ≡ some m
    → d < 10
    → parse acc (s ++ ((48 + d) ∷ [])) ≡ some (m * 10 + d)
unfolding parse
parse-snoc acc m d [] e h = ground arith
parse-snoc acc m d (c ∷ s) e h = ground (arith, parse-snoc (acc * 10 + (c - 48)) m d s)

parse-digits : (fuel n : ℕ) → n < fuel → parse 0 (digits fuel n) ≡ some n
unfolding digits
parse-digits zero n h = absurd (omega arith)
parse-digits (suc fuel) n h = elim (Bool-cases (ltb n 10)) [
  | inl small ↦ rw (small, digits) (unfold parse in ground arith)
  | inr large ↦
      let more : parse 0 (digits fuel (n / 10)) ≡ some (n / 10) =
        parse-digits fuel (n / 10) (ground arith) in
      rw (large, digits)
        (parse-snoc 0 (n / 10) (n % 10) (digits fuel (n / 10)) more (omega arith)
          ∙ ap some (omega arith))
]

append_one : (s : Text) (c : ℕ) → s ++ (c ∷ []) ≢ []
append_one [] c e = cc
append_one (x ∷ s) c e = cc

digits-ne-nil : (fuel n : ℕ) → n < fuel → digits fuel n ≢ []
unfolding digits
digits-ne-nil zero n h = absurd (omega arith)
digits-ne-nil (suc fuel) n h = elim (Bool-cases (ltb n 10)) [
  | inl small ↦ rw (small, digits) (λ e. cc)
  | inr large ↦ rw (large, digits) (append_one (digits fuel (n / 10)) (48 + n % 10))
]

pub decimal-ne-nil : (n : ℕ) → decimal n ≢ []
unfolding decimal
decimal-ne-nil n = digits-ne-nil (suc n) n (omega arith)

digits-IsDigit : (fuel n : ℕ) → All IsDigit (digits fuel n)
unfolding digits
digits-IsDigit zero n = tt
digits-IsDigit (suc fuel) n = elim (Bool-cases (ltb n 10)) [
  | inl small ↦ rw (small, digits) (ground arith, tt)
  | inr large ↦
      rw (large, digits)
        (All-append IsDigit (digits fuel (n / 10)) ((48 + n % 10) ∷ [])
          (digits-IsDigit fuel (n / 10)) (ground arith, tt))
]

pub decimal_digits : (n : ℕ) → All IsDigit (decimal n)
unfolding decimal
decimal_digits n = digits-IsDigit (suc n) n

pub decimal_zero : decimal 0 ≡ b'0' ∷ []
unfolding decimal digits
decimal_zero = refl

parse_nonempty :
    (n : ℕ) (s : Text) → s ≢ [] → n < 2 ^ 32 → parse 0 s ≡ some n → parse_uint s ≡ some n
unfolding parse_uint
parse_nonempty n [] full h e = absurd (full refl)
parse_nonempty n (c ∷ s) full h e = rw e (ground arith)

pub parse_uint-decimal : (n : ℕ) → n < 2 ^ 32 → parse_uint (decimal n) ≡ some n
unfolding decimal
parse_uint-decimal n h =
    parse_nonempty n (digits (suc n) n) (digits-ne-nil (suc n) n (omega arith)) h
      (parse-digits (suc n) n (omega arith))

-- A dash among the code units makes no number.
pub parse_dash : (acc : ℕ) (s t : Text) → parse acc (s ++ (b'-' ∷ t)) ≡ none
unfolding parse
parse_dash acc [] t = refl
parse_dash acc (c ∷ s) t = ground (arith, parse_dash (acc * 10 + (c - 48)) s t)
