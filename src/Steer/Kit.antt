-- ===== src/Steer/Kit.antt =====
-- The effectors of the bots as one class: the two of the steering, and those of
-- cpp/sim_engine/hover_effector/hover.{h,cpp} and cpp/sim_engine/gravity_effector/gravity.{h,cpp}.
use nrtb_redo.Common.{Bool, true, false, if◌then◌else◌}
use nrtb_redo.Common.Bytes.{Bytes}
use nrtb_redo.Floats.{Floats}
use nrtb_redo.Triad.{Triad, triad}
use nrtb_redo.Triad
use nrtb_redo.Object.{Body, EffectorClass}
use nrtb_redo.Steer.{Pre, Post, command, pre_tick, post_tick}

pub record Hover (F : Type 0) : Type 0 where
  pub set_altitude : F
  pub range : F
  pub curve : F

pub data Kit (F : Type 0) : Type 0 where
  steer_pre : Pre F → Kit F
  steer_post : Post F → Kit F
  hover : Hover F → Kit F
  norm_gravity : Triad F → Kit F

module _ {F : Type 0} ⦃n : Floats F⦄ where
  open n use {nought, one, two, decimal, plus, minus, times, over, power, absolute, lt}

  -- `gn`, which no code changes.
  abbrev pub earth : Kit F
  earth = norm_gravity (triad nought nought (minus nought (decimal 980665 5)))

  unfoldable pub hover_tick : Hover F → Body F → Bool × Body F
  hover_tick h o =
      let deviation = absolute (minus h.set_altitude o.location.z) in
      let lifted =
        if lt o.location.z h.set_altitude
        then record o.accel_mod { z = plus o.accel_mod.z (times (decimal 980665 5) two) }
        else o.accel_mod in
      let damp = power (minus one (over deviation h.range)) h.curve in
      let factor = if lt (decimal 9 1) damp then decimal 9 1 else damp in
      (
        false,
        record o {
          accel_mod = lifted;
          velocity = record o.velocity { z = times o.velocity.z factor };
        },
      )

  unfoldable pub gravity_tick : Triad F → Body F → Bool × Body F
  gravity_tick gn o = (false, record o { accel_mod = Triad.add_assign o.accel_mod gn })

  -- `tick` of the effector's class.
  unfoldable pub kit_tick : Kit F → Body F → F → Bool × Body F
  unfolding pre_tick post_tick hover_tick gravity_tick
  kit_tick (steer_pre e) o quanta = pre_tick e o quanta
  kit_tick (steer_post e) o quanta = post_tick o quanta
  kit_tick (hover h) o quanta = hover_tick h o
  kit_tick (norm_gravity gn) o quanta = gravity_tick gn o

  abbrev pub with_effector : Kit F → Bool × Body F → Bool × Body F × Kit F
  with_effector e (kill, o) = (kill, o, e)

  -- The default `command` knows nothing and leaves the response.
  unfoldable pub kit_command :
      (F → Bytes) → (Bytes → F) → Kit F → Bytes → Bytes → Bool × Bytes × Kit F
  unfolding command
  kit_command show read_val (steer_pre e) cmd response =
      let (found, answer, e') = command show read_val cmd e in (found, answer, steer_pre e')
  kit_command show read_val (steer_post e) cmd response = (false, response, steer_post e)
  kit_command show read_val (hover h) cmd response = (false, response, hover h)
  kit_command show read_val (norm_gravity gn) cmd response = (false, response, norm_gravity gn)

  abbrev pub is_commandable : Kit F → Bool
  is_commandable (steer_pre e) = true
  is_commandable (steer_post e) = false
  is_commandable (hover h) = false
  is_commandable (norm_gravity gn) = false

  unfoldable pub kit : (F → Bytes) → (Bytes → F) → EffectorClass F (Kit F)
  unfolding kit_tick kit_command
  kit show read_val = record {
    tick = λ e o quanta. with_effector e (kit_tick e o quanta);
    command = λ e cmd response. kit_command show read_val e cmd response;
    commandable = is_commandable;
  }
