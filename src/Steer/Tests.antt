-- ===== src/Steer/Tests.antt =====
-- The theorems about the steering, over whole numbers in place of floats.
use nrtb_redo.Common.{◌+◌, ◌≡◌, refl, true, [], ◌∷◌, arith}
use nrtb_redo.Common.Bytes.{codes}
use nrtb_redo.Common.Int
use nrtb_redo.Common.Int.{ℤ, pos, negsuc}
use nrtb_redo.Floats.{int_floats}
use nrtb_redo.Steer.{construct}
use nrtb_redo.Steer.Exclusive.{IsPercent, IsSafe, run, run-IsSafe}

over_zero_int : (a : ℤ) → Int.eq a (pos 0) ≡ true → Int.eq (Int.over a (pos 100)) (pos 0) ≡ true
over_zero_int a h = ground (arith, h)

over_absolute_int :
    (a : ℤ)
    → Int.le (pos (Int.up a + Int.down a)) (pos 100) ≡ true
    → Int.le (pos (Int.up (Int.over a (pos 100)) + Int.down (Int.over a (pos 100)))) (pos 1) ≡ true
over_absolute_int a h = ground (arith, h)

over_le_int : (a : ℤ) → Int.le a (pos 100) ≡ true → Int.le (Int.over a (pos 100)) (pos 1) ≡ true
over_le_int a h = ground (arith, h)

over_ge_int : (a : ℤ) → Int.le (pos 0) a ≡ true → Int.le (pos 0) (Int.over a (pos 100)) ≡ true
over_ge_int a h = ground (arith, h)

int-IsPercent : IsPercent ℤ
int-IsPercent = record {
  over_zero = λ a h. over_zero_int a h;
  over_absolute = λ a h. over_absolute_int a h;
  over_le = λ a h. over_le_int a h;
  over_ge = λ a h. over_ge_int a h;
  zero_eq = refl;
  zero_absolute = refl;
  one_le = refl;
  zero_le = refl;
  zero_le_zero = refl;
}

-- Every number reads as 40.
run-IsSafe_example : IsSafe (
    run
      (λ a. [])
      (λ s. pos 40)
      (codes "drive power 40" ∷ codes "drive brake 40" ∷ [])
      (construct (pos 9) (pos 8) (pos 1)))
run-IsSafe_example =
    run-IsSafe int-IsPercent (λ a. []) (λ s. pos 40)
      (codes "drive power 40" ∷ codes "drive brake 40" ∷ []) (pos 9) (pos 8) (pos 1)
