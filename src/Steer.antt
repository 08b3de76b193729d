-- ===== src/Steer.antt =====
-- cpp/sim_engine/diff_steer_effector/diff_steer.h and diff_steer.cpp: the two effectors of the
-- differential steering. `show` is `<<` of a float, `read_val` what `tokens >> val` leaves in `val`.
pub mod Kit
pub mod Spares
pub mod Exclusive
mod Tests
use nrtb_redo.Common.{ℕ, Bool, true, false, not, ◌&&◌, List, [], ◌∷◌, ◌++◌, if◌then◌else◌}
use nrtb_redo.Common.Bytes.{Bytes, codes, same_bytes}
use nrtb_redo.Common.Stream.{next_word}
use nrtb_redo.Text.Gsub.{is_nil}
use nrtb_redo.Floats.{Floats}
use nrtb_redo.Triad.{Triad, triad}
use nrtb_redo.Triad
use nrtb_redo.Rotatable.{Rotatable}
use nrtb_redo.Rotatable
use nrtb_redo.Object.{Body}

-- `diff_steer::pre`: the limits and the settings.
pub record Pre (F : Type 0) : Type 0 where
  pub max_p : F
  pub max_b : F
  pub max_t : F
  pub set_p : F
  pub set_b : F
  pub set_t : F

pub record Post (F : Type 0) : Type 0 where
  pub skid_threshold : F
  pub slide_friction : F

module _ {F : Type 0} ⦃n : Floats F⦄ where
  open n use {nought, one, two, decimal, plus, minus, times, over, power, absolute, le, lt, eq}

  abbrev pub hundred : F
  hundred = decimal 100 0

  unfoldable pub construct : F → F → F → Pre F
  construct mp mb mt = record {
    max_p = mp;
    max_b = mb;
    max_t = mt;
    set_p = nought;
    set_b = one;
    set_t = nought;
  }

  -- Full stop.
  unfoldable pub lockdown : Pre F → Pre F
  lockdown e = record e { set_p = nought; set_b = one; set_t = nought }

  -- The copy constructor, which `clone` calls.
  unfoldable pub copy : Pre F → Pre F
  unfolding lockdown
  copy e = lockdown e

  unfoldable pub drive : F → Pre F → Pre F
  unfolding lockdown
  drive rate e =
      if le (absolute rate) hundred
      then record e {
        set_b = if eq rate nought then e.set_b else nought;
        set_p = over rate hundred;
      }
      else lockdown e

  unfoldable pub brake : F → Pre F → Pre F
  unfolding lockdown
  brake braking e =
      if le nought braking && le braking hundred
      then record e {
        set_p = if eq braking nought then e.set_p else nought;
        set_b = over braking hundred;
      }
      else lockdown e

  unfoldable pub turn : F → Pre F → Pre F
  unfolding lockdown
  turn rate e =
      if le (absolute rate) hundred then record e { set_t = over rate hundred } else lockdown e

  -- What follows `verb` in a drive command.
  unfoldable pub obey : (Bytes → F) → Bytes → Bytes → Pre F → Pre F
  unfolding drive brake turn
  obey read_val verb rest e =
      if same_bytes verb (codes "power")
      then drive (read_val rest) e
      else if same_bytes verb (codes "brake")
      then brake (read_val rest) e
      else if same_bytes verb (codes "turn")
      then turn (read_val rest) e
      else e

  unfoldable pub status : (F → Bytes) → Bytes → Bytes → Pre F → Bytes
  status show sys verb e =
      sys
      ++ (codes " "
          ++ (verb
              ++ (codes " "
                  ++ (show e.set_p
                      ++ (codes " " ++ (show e.set_b ++ (codes " " ++ show e.set_t)))))))

  unfoldable pub drive_cmd :
      (F → Bytes) → (Bytes → F) → Bytes → Bytes → Bytes → Pre F → Bytes × Pre F
  unfolding obey lockdown status is_nil
  drive_cmd show read_val cmd verb rest e =
      if same_bytes verb (codes "status")
      then (status show (codes "drive") verb e, e)
      else if not (is_nil rest)
      then ([], obey read_val verb rest e)
      else (codes "bad_cmd \"" ++ (cmd ++ codes "\""), lockdown e)

  -- The response is emptied also for a command of another system.
  unfoldable pub command : (F → Bytes) → (Bytes → F) → Bytes → Pre F → Bool × Bytes × Pre F
  unfolding drive_cmd next_word
  command show read_val cmd e =
      let (sys, tokens) = next_word cmd in
      let (verb, rest) = next_word tokens in
      let (response, e') = drive_cmd show read_val cmd verb rest e in
      if same_bytes sys (codes "drive") then (true, response, e') else (false, [], e)

  -- In contact with the ground.
  unfoldable pub is_grounded : Body F → Bool
  is_grounded o = lt (minus o.location.z o.bounding_sphere.radius) (decimal 5 1)

  -- Half of `tick`: the turn rate.
  unfoldable pub steer : Pre F → Body F → Body F
  steer e o =
      let rot = record (Rotatable.angles o.rotation) { z = times e.set_t e.max_t } in
      record o { rotation = Rotatable.set rot o.rotation }

  -- The braking force, not more than what stops the object within the quanta.
  unfoldable pub brake_force : Pre F → F → Body F → F
  brake_force e quanta o =
      let p = times e.set_p e.max_p in
      let b = times e.set_b e.max_b in
      let speed = Triad.magnatude (record o.velocity { z = nought }) in
      let bspeed = times speed (over one quanta) in
      let ke = plus (times (times o.mass bspeed) bspeed) p in if lt ke b then ke else b

  unfoldable pub pre_tick : Pre F → Body F → F → Bool × Body F
  unfolding is_grounded steer brake_force
  pre_tick e o quanta =
      let o1 = steer e o in
      let (cosines, a1) = Rotatable.get_cos o1.attitude in
      let (sines, a2) = Rotatable.get_sin a1 in
      let vec = triad cosines.z sines.z nought in
      let pushed = Triad.add_assign o1.force (Triad.mul_scalar vec (times e.set_p e.max_p)) in
      let held = Triad.sub_assign pushed (Triad.mul_scalar vec (brake_force e quanta o1)) in
      (false, if is_grounded o then record o1 { attitude = a2; force = held } else o)

  -- The ground speed and direction; the skid is taken out of a slide.
  unfoldable pub snap : F → Triad F → Body F → Triad F × Body F
  snap delta gnd_vec o =
      let gnd1 = record gnd_vec { y = (Rotatable.angles o.attitude).z } in
      let factor = minus one (power (times delta (over gnd1.x (decimal 10000 0))) (decimal 3 0)) in
      let gnd2 = record gnd1 { x = times gnd1.x factor } in
      let dot = Triad.to_cartesian gnd2 in
      (gnd2, record o { velocity = record o.velocity { x = dot.x; y = dot.y } })

  unfoldable pub halt : Triad F × Body F → F × Body F
  halt (gnd_vec, o) =
      if lt gnd_vec.x (decimal 1 3)
      then (nought, record o { velocity = record o.velocity { x = nought; y = nought } })
      else (gnd_vec.x, o)

  -- Rolling friction.
  unfoldable pub drag : F × Body F → Body F
  drag (speed, o) =
      let q = minus one (power (over speed (decimal 10000 0)) two) in
      let drag_q = if lt one q then one else q in
      record o { velocity = Triad.mul o.velocity (triad drag_q drag_q one) }

  -- Ground speed and direction, the direction not negative.
  unfoldable pub ground_vec : Body F → Triad F
  ground_vec o =
      let gnd = Triad.to_polar (record o.velocity { z = nought }) in
      if lt gnd.y nought then record gnd { y = plus gnd.y (times two (decimal 314159 5)) } else gnd

  -- A slide is one that is fast enough, and off the heading.
  unfoldable pub slide : Body F → Triad F × Body F
  unfolding ground_vec snap
  slide o =
      let gnd_vec = ground_vec o in
      let delta = absolute (minus gnd_vec.y (Rotatable.angles o.attitude).z) in
      if lt (decimal 1 4) gnd_vec.x && lt (decimal 5 3) delta
      then snap delta gnd_vec o
      else (gnd_vec, o)

  unfoldable pub post_tick : Body F → F → Bool × Body F
  unfolding is_grounded slide halt drag
  post_tick o time = (false, if is_grounded o then drag (halt (slide o)) else o)
