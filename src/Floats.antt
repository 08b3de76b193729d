-- ===== src/Floats.antt =====
-- The machine's floating point numbers, a parameter of the model: the operations that the sources
-- apply to `float` and `double`, with the IEEE facts that some theorems name as hypotheses.
use nrtb_redo.Common.{ℕ, ◌+◌, ◌/◌, ◌^◌, Bool}
use nrtb_redo.Common.Int
use nrtb_redo.Common.Int.{ℤ, pos, negsuc}

-- `decimal n k` is the literal for n / 10 ^ k.
-- `le`, `lt` and `eq` are the comparisons of the machine, false whenever one side is NaN.
pub record Floats (F : Type 0) : Type 0 where
  pub nought : F
  pub one : F
  pub two : F
  pub decimal : ℕ → ℕ → F
  pub plus : F → F → F
  pub minus : F → F → F
  pub times : F → F → F
  pub over : F → F → F
  pub root : F → F
  pub power : F → F → F
  pub absolute : F → F
  pub negate : F → F
  pub fmod : F → F → F
  pub cosine : F → F
  pub sine : F → F
  pub floor : F → F
  pub atan2 : F → F → F
  pub le : F → F → Bool
  pub lt : F → F → Bool
  pub eq : F → F → Bool

-- Whole numbers in place of floats: the functions that no law speaks of return their argument.
instance abbrev pub int_floats : Floats ℤ
int_floats = record {
  nought = pos 0;
  one = pos 1;
  two = pos 2;
  decimal = λ n k. pos (n / 10 ^ k);
  plus = Int.plus;
  minus = Int.minus;
  times = Int.times;
  over = Int.over;
  root = λ a. a;
  power = λ a b. a;
  negate = Int.neg;
  absolute = λ a. pos (Int.up a + Int.down a);
  fmod = λ a b. a;
  cosine = λ a. a;
  sine = λ a. a;
  floor = λ a. a;
  atan2 = λ a b. a;
  le = Int.le;
  lt = Int.lt;
  eq = Int.eq;
}
