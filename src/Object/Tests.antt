-- ===== src/Object/Tests.antt =====
-- The theorems about objects, over whole numbers in place of floats.
use nrtb_redo.Common.{◌≡◌, refl, true, false, Bool, List, [], ◌∷◌}
use nrtb_redo.Common.Int.{ℤ, pos}
use nrtb_redo.Floats.{int_floats}
use nrtb_redo.Triad.{Triad, triad, IsSquaring, range, range_comm, magnatude, sub, dot_product}
use nrtb_redo.Triad
use nrtb_redo.Object.Collision.{check_collision, check_collision_passing}
use nrtb_redo.Object.Whole.{int-IsSigned, ball}
use nrtb_redo.Triad.{assign_lem}
use nrtb_redo.Object.{Object, EffectorClass}
use nrtb_redo.Object.Attribs.{IsWired}
use nrtb_redo.Object.Calls.{
  AttribCall, adds_pre, adds_post, drops, ticks, applies, calls, calls-IsWired,
}

-- They pass each other at a distance of 1000.
check_collision_passing_example :
    check_collision (ball (pos 0) (pos 0) (pos 4)) (ball (pos 1) (pos 1000) (pos 0)) (pos 1) ≡ true
unfolding check_collision Triad.sub Triad.mul_assign_scalar
check_collision_passing_example =
    check_collision_passing int-IsSigned (ball (pos 0) (pos 0) (pos 4))
      (ball (pos 1) (pos 1000) (pos 0)) (pos 1) refl refl refl refl refl refl

-- An effector is a mark: whether it takes commands.
abbrev marks : EffectorClass ℤ Bool
marks = record {
  tick = λ e b q. (false, b, e);
  command = λ e cmd response. (e, response, e);
  commandable = λ e. e;
}

abbrev bare : Object ℤ Bool
bare = record {
  body = ball (pos 0) (pos 0) (pos 1);
  effectors = λ i. true;
  cmd_attribs = [];
  pre_attribs = [];
  post_attribs = [];
  dropped_attribs = [];
}

abbrev laden : Object ℤ Bool
laden = record bare {
  cmd_attribs = 3 ∷ 5 ∷ [];
  pre_attribs = 3 ∷ [];
  post_attribs = 3 ∷ 5 ∷ [];
  dropped_attribs = 3 ∷ [];
}

bare-IsWired : IsWired bare
bare-IsWired = record { pre_rises = tt; post_rises = tt; cmd_rises = tt; wired = λ i. refl }

abbrev some_calls : List (AttribCall ℤ)
some_calls = adds_post 5 ∷ adds_pre 3 ∷ adds_post 3 ∷ drops 3 ∷ ticks (pos 1) ∷ applies (pos 1) ∷ []

calls-IsWired_example : IsWired (calls marks some_calls bare)
calls-IsWired_example = calls-IsWired marks some_calls bare bare-IsWired
