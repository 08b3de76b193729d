-- ===== src/Triad/Text/Whole.antt =====
-- Whole numbers in the place of floats, written in decimal, for examples.
use nrtb_redo.Common.{
  ℕ, suc, ◌<◌, ◌^◌, ◌≡◌, ◌≢◌, refl, true, false, ◌||◌, [], ◌∷◌, ◌==◌, All, arith,
}
use mathlib.Core.List.{cons-ne-nil}
use nrtb_redo.Common.Bytes.{Bytes}
use nrtb_redo.Common.Decimal.{
  show_nat, read_int, is_digit, AllDigits, show_nat-AllDigits, show_nat-ne-nil, read_int-show_nat,
}
use nrtb_redo.Common.Int.{ℤ, pos, negsuc}
use nrtb_redo.Common.Stream.{is_space}
use nrtb_redo.Triad.Text.{FloatText}
use nrtb_redo.Triad.Text.RoundTrip.{IsPlain, IsWriting, Reads}

abbrev pub show_whole : ℕ → ℤ → Bytes
show_whole k (pos n) = show_nat n
show_whole k (negsuc n) = b'-' ∷ show_nat (suc n)

abbrev pub whole_text : FloatText ℤ
whole_text = record { show = show_whole; number = read_int }

digits-IsPlain : (s : Bytes) → AllDigits s → All IsPlain s
digits-IsPlain [] h = tt
digits-IsPlain (c ∷ s) (d, h) = ((solid c d, no_comma c d), digits-IsPlain s h)
  where
    solid : (c : ℕ) → is_digit c ≡ true → is_space c ≡ false
    solid c d = ground (arith, d)

    no_comma : (c : ℕ) → is_digit c ≡ true → c ≢ b','
    no_comma c d e = ground (arith, d, e)

shown-IsPlain_whole : (k : ℕ) (a : ℤ) → All IsPlain (show_whole k a)
shown-IsPlain_whole k (pos n) = digits-IsPlain (show_nat n) (show_nat-AllDigits n)
shown-IsPlain_whole k (negsuc n) = (
  (refl, λ e. absurd (omega (arith, e))),
  digits-IsPlain (show_nat (suc n)) (show_nat-AllDigits (suc n)),
)

shown_some_whole : (k : ℕ) (a : ℤ) → show_whole k a ≢ []
shown_some_whole k (pos n) = show_nat-ne-nil n
shown_some_whole k (negsuc n) = cons-ne-nil b'-' (show_nat (suc n))

pub whole_text-IsWriting : IsWriting whole_text
whole_text-IsWriting = record {
  shown_plain = λ k a. shown-IsPlain_whole k a;
  shown_some = λ k a. shown_some_whole k a;
}

pub whole_text-Reads : (n : ℕ) → n < 2 ^ 31 → Reads whole_text (λ a. a) (pos n)
whole_text-Reads n small c rest stop = read_int-show_nat n c rest small (no_digit c stop)
  where
    no_digit : (c : ℕ) → (c == b' ' || c == b')') ≡ true → is_digit c ≡ false
    no_digit c stop = ground (arith, stop)
