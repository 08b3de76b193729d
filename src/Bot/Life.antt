-- ===== src/Bot/Life.antt =====
-- The bot in the simulation: the overrides of base_object, which end a bot that is not alive, and the
-- destructor.
use nrtb_redo.Common.{Bool, true, false, if◌then◌else◌}
use nrtb_redo.Floats.{Floats}
use nrtb_redo.Object.{Body, Object, EffectorClass}
use nrtb_redo.Object
use nrtb_redo.Object.Collision
use nrtb_redo.Queue
use nrtb_redo.Bot.{Bot}

module _ {F E : Type 0} ⦃n : Floats F⦄ (c : EffectorClass F E) where
  unfoldable pub tick : F → Bot F E → Bool × Bot F E
  tick duration b =
      let (kill, o) = Object.tick c duration b.object in
      if b.im_alive then (kill, record b { object = o }) else (true, b)

  unfoldable pub apply : F → Bot F E → Bool × Bot F E
  apply quanta b =
      let (kill, o) = Object.apply c quanta b.object in
      if b.im_alive then (kill, record b { object = o }) else (true, b)

  unfoldable pub check_collision : Bot F E → Body F → F → Bool
  check_collision b o duration =
      if b.im_alive then Collision.check_collision b.object.body o duration else true

  -- The destructor, up to the wait for the threads.
  unfoldable pub destroy : Bot F E → Bot F E
  destroy b = record b {
    im_alive = false;
    to_bcp = Queue.shutdown b.to_bcp;
    from_bcp = Queue.shutdown b.from_bcp;
  }
