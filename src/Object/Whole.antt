-- ===== src/Object/Whole.antt =====
-- Whole numbers in place of floats: they have the properties that the theorems about objects ask for.
use nrtb_redo.Common.{true, arith}
use nrtb_redo.Common.Int.{ℤ, pos}
use nrtb_redo.Floats.{int_floats}
use nrtb_redo.Triad.{triad, IsSquaring}
use nrtb_redo.Rotatable.{Rotatable}
use nrtb_redo.Object.{Body}
use nrtb_redo.Object.Collision.{IsSigned}

pub int-IsSquaring : IsSquaring ℤ
int-IsSquaring = record { times_comm = λ a b. ground arith; square_swap = λ a b. ground arith }

pub int-IsSigned : IsSigned ℤ
int-IsSigned = record {
  lt_of_not_le = λ a m h. ground arith;
  not_le_of_lt = λ a h. ground arith;
  over_neg = λ a b h k m. ground arith;
  times_neg = λ a b h k m. ground arith;
  plus_pos = λ a b h k. ground arith;
}

abbrev pub still : Rotatable ℤ
still = record {
  dirty = true;
  axis = triad (pos 0) (pos 0) (pos 0);
  cos = triad (pos 0) (pos 0) (pos 0);
  sin = triad (pos 0) (pos 0) (pos 0);
}

-- An object of radius 1 at a place, with a speed along the first axis.
abbrev pub ball : ℤ → ℤ → ℤ → Body ℤ
ball x y speed = record {
  alive = true;
  id = 1;
  object_type = 0;
  location = triad x y (pos 0);
  attitude = still;
  velocity = triad speed (pos 0) (pos 0);
  rotation = still;
  mass = pos 1;
  bounding_sphere = record { center = triad (pos 0) (pos 0) (pos 0); radius = pos 1 };
  force = triad (pos 0) (pos 0) (pos 0);
  torque = still;
  accel_mod = triad (pos 0) (pos 0) (pos 0);
  rotation_mod = still;
  mass_mod = pos 0;
}
