-- ===== src/Common/Int.antt =====
-- Whole numbers, over the native numbers: a concrete arithmetic at which laws about signs can be
-- tried. `over` truncates toward zero.
use nrtb_redo.Common.{arith, ◌≡◌, ℕ, suc, ◌+◌, ◌-◌, ◌*◌, ◌/◌, Bool, ltb, leb, ◌==◌, if◌then◌else◌}

-- `negsuc n` is -(n + 1).
pub data ℤ : Type 0 where
  pos : ℕ → ℤ
  negsuc : ℕ → ℤ

abbrev pub up : ℤ → ℕ
up (pos n) = n
up (negsuc n) = 0

abbrev pub down : ℤ → ℕ
down (pos n) = 0
down (negsuc n) = suc n

-- a - b
abbrev pub gap : ℕ → ℕ → ℤ
gap a b = if leb b a then pos (a - b) else negsuc (b - a - 1)

abbrev pub plus : ℤ → ℤ → ℤ
plus a b = gap (up a + up b) (down a + down b)

abbrev pub minus : ℤ → ℤ → ℤ
minus a b = gap (up a + down b) (down a + up b)

abbrev pub times : ℤ → ℤ → ℤ
times a b = gap (up a * up b + down a * down b) (up a * down b + down a * up b)

abbrev pub over : ℤ → ℤ → ℤ
over a b = gap (up a / up b + down a / down b) (up a / down b + down a / up b)

abbrev pub le : ℤ → ℤ → Bool
le a b = leb (up a + down b) (up b + down a)

abbrev pub lt : ℤ → ℤ → Bool
lt a b = ltb (up a + down b) (up b + down a)

abbrev pub eq : ℤ → ℤ → Bool
eq a b = (up a + down b) == (up b + down a)

abbrev pub neg : ℤ → ℤ
neg a = gap (down a) (up a)

pub minus-swap : (a b : ℤ) → minus a b ≡ neg (minus b a)
minus-swap a b = ground arith

pub times-neg_left : (a b : ℤ) → times (neg a) b ≡ neg (times a b)
times-neg_left a b = ground arith

pub times-neg_both : (a b : ℤ) → times (neg a) (neg b) ≡ times a b
times-neg_both a b = ground arith
