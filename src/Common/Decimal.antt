-- ===== src/Common/Decimal.antt =====
-- Whole numbers as `<<` writes them to a stream and `>>` reads them, in decimal.
use mathlib.Core.List.{cons-ne-nil}
use nrtb_redo.Common.{
  ℕ, zero, suc, ◌+◌, ◌-◌, ◌*◌, ◌/◌, ◌%◌, ◌^◌, ◌≤◌, ◌<◌, ◌≡◌, ◌≢◌, refl, sym, ap, ◌∙◌, Bool, true,
  false, ◌&&◌, [], ◌∷◌, ◌++◌, Option, none, some, if◌then◌else◌, ltb, leb, ◌==◌, arith, All,
  Bool-cases, inl, inr,
}
use nrtb_redo.Common.Bytes.{Bytes}
use nrtb_redo.Common.Int.{ℤ, pos}
use nrtb_redo.Common.Int

abbrev pub is_digit : ℕ → Bool
is_digit c = leb b'0' c && leb c b'9'

-- The fuel is the number; it is divided by ten in each round.
unfoldable pub digits : ℕ → ℕ → Bytes → Bytes
digits zero n out = out
digits (suc fuel) n out =
    let more = digits fuel (n / 10) ((b'0' + n % 10) ∷ out) in if n == 0 then out else more

unfoldable pub show_nat : ℕ → Bytes
unfolding digits
show_nat n = if n == 0 then b'0' ∷ [] else digits n n []

unfoldable pub take_digits : Bytes → ℕ → ℕ × Bytes
take_digits [] n = (n, [])
take_digits (c ∷ s) n = elim (is_digit c) [
  | true ↦ take_digits s (n * 10 + (c - b'0'))
  | false ↦ (n, c ∷ s)
]

-- `none` is a stream that has failed; a number that does not fit is cut down to the largest `int`.
abbrev pub fitting : ℕ × Bytes → ℕ × Option Bytes
fitting (n, rest) = if ltb n (2 ^ 31) then (n, some rest) else (2 ^ 31 - 1, none)

abbrev unsigned : Bytes → ℕ × Option Bytes
unsigned [] = (0, none)
unsigned (c ∷ s) = if is_digit c then fitting (take_digits (c ∷ s) 0) else (0, none)

-- `>>` of an `int`, from a text that does not start with a space.
unfoldable pub read_int : Bytes → ℤ × Option Bytes
unfolding take_digits
read_int [] = (pos 0, none)
read_int (c ∷ s) =
    if c == b'-'
    then (let (n, rest) = unsigned s in (Int.neg (pos n), rest))
    else (let (n, rest) = unsigned (c ∷ s) in (pos n, rest))

digits-append : (f n : ℕ) (out rest : Bytes) → digits f n out ++ rest ≡ digits f n (out ++ rest)
unfolding digits
digits-append zero n out rest = refl
digits-append (suc f) n out rest = elim (Bool-cases (n == 0)) [
  | inl e ↦ rw e refl
  | inr e ↦ rw e (digits-append f (n / 10) ((b'0' + n % 10) ∷ out) rest)
]

digit_is : (n : ℕ) → is_digit (b'0' + n % 10) ≡ true
digit_is n = ground arith

take_digit :
    (c : ℕ) (s : Bytes) (n : ℕ)
    → is_digit c ≡ true
    → take_digits (c ∷ s) n ≡ take_digits s (n * 10 + (c - b'0'))
unfolding take_digits
take_digit c s n h = rw (h, take_digits)

last_digit : (n : ℕ) → n / 10 * 10 + ((b'0' + n % 10) - b'0') ≡ n
last_digit n = omega arith

take_digits-digits :
    (f n : ℕ) (out : Bytes) → n ≤ f → take_digits (digits f n out) 0 ≡ take_digits out n
unfolding digits
take_digits-digits zero n out h = let e : n ≡ 0 = omega arith in rw e refl
take_digits-digits (suc f) n out h = elim (Bool-cases (n == 0)) [
  | inl e ↦ let z : n ≡ 0 = ground (arith, e) in rw z refl
  | inr e ↦ rw e (
      take_digits-digits f (n / 10) ((b'0' + n % 10) ∷ out) (ground (arith, e))
      ∙ take_digit (b'0' + n % 10) out (n / 10) (digit_is n)
      ∙ rw (last_digit n) refl)
]

abbrev pub AllDigits : Bytes → Type 0
AllDigits = All (λ c. is_digit c ≡ true)

digits-AllDigits : (f n : ℕ) (out : Bytes) → AllDigits out → AllDigits (digits f n out)
unfolding digits
digits-AllDigits zero n out h = h
digits-AllDigits (suc f) n out h = elim (Bool-cases (n == 0)) [
  | inl e ↦ rw e h
  | inr e ↦ rw e (digits-AllDigits f (n / 10) ((b'0' + n % 10) ∷ out) (digit_is n, h))
]

pub show_nat-AllDigits : (n : ℕ) → AllDigits (show_nat n)
unfolding show_nat
show_nat-AllDigits n = elim (Bool-cases (n == 0)) [
  | inl e ↦ rw e (refl, tt)
  | inr e ↦ rw e (digits-AllDigits n n [] tt)
]

-- The digits are read back as the number, up to a byte that is none.
pub take_digits-show_nat :
    (n c : ℕ) (rest : Bytes)
    → is_digit c ≡ false
    → take_digits (show_nat n ++ (c ∷ rest)) 0 ≡ (n, c ∷ rest)
unfolding show_nat take_digits
take_digits-show_nat n c rest h = elim (Bool-cases (n == 0)) [
  | inl e ↦ let z : n ≡ 0 = ground (arith, e) in rw (z, h, take_digits) refl
  | inr e ↦ rw e (
      ap (λ s. take_digits s 0) (digits-append n n [] (c ∷ rest))
      ∙ take_digits-digits n n (c ∷ rest) (omega arith)
      ∙ rw (h, take_digits) refl)
]

first_digit :
    (s : Bytes) → AllDigits s → s ≢ [] → (c : ℕ) × (t : Bytes) × (s ≡ c ∷ t) × (is_digit c ≡ true)
first_digit [] a h = absurd (h refl)
first_digit (c ∷ t) a h = (c, t, refl, a.0)

grown : (f n : ℕ) (out : Bytes) → out ≢ [] → digits f n out ≢ []
unfolding digits
grown zero n out h = h
grown (suc f) n out h = elim (Bool-cases (n == 0)) [
  | inl e ↦ rw e h
  | inr e ↦ rw e (grown f (n / 10) ((b'0' + n % 10) ∷ out) (cons-ne-nil (b'0' + n % 10) out))
]

pub show_nat-ne-nil : (n : ℕ) → show_nat n ≢ []
unfolding show_nat digits
show_nat-ne-nil zero = cons-ne-nil b'0' []
show_nat-ne-nil (suc m) =
    let e : (suc m == 0) ≡ false = ground arith in
    rw e (grown m (suc m / 10) ((b'0' + suc m % 10) ∷ []) (cons-ne-nil (b'0' + suc m % 10) []))

-- A number below 2 ^ 31 is read back, with what follows it.
pub read_int-show_nat :
    (n c : ℕ) (rest : Bytes)
    → n < 2 ^ 31
    → is_digit c ≡ false
    → read_int (show_nat n ++ (c ∷ rest)) ≡ (pos n, some (c ∷ rest))
unfolding read_int
read_int-show_nat n c rest small h =
    let (d, t, e, digit) = first_digit (show_nat n) (show_nat-AllDigits n) (show_nat-ne-nil n) in
    let taken : take_digits (d ∷ (t ++ (c ∷ rest))) 0 ≡ (n, c ∷ rest) =
      ap (λ s. take_digits (s ++ (c ∷ rest)) 0) (sym e) ∙ take_digits-show_nat n c rest h in
    let no_sign : (d == b'-') ≡ false = ground (arith, digit) in
    let fits : ltb n (2 ^ 31) ≡ true = ground (arith, small) in
    rw (e, no_sign, digit, taken, fits) refl
