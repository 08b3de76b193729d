-- ===== src/Object.antt =====
-- cpp/sim_engine/base_object/base_object.h and base_object.cpp. Effectors are a parameter: a class of
-- values with the virtual methods of `abs_effector`. An object's three attribute maps hold pointers;
-- here they hold the effectors' ids, in the order of the ids, and `effectors` is what they point to,
-- so that one effector in two maps has one state.
pub mod Collision
pub mod Attribs
pub mod Calls
pub mod Whole
mod Tests
use nrtb_redo.Common.{
  ℕ, ◌≡◌, refl, Bool, true, false, ◌||◌, List, [], ◌∷◌, ◌++◌, Option, none, some, if◌then◌else◌,
  ltb, ◌==◌, arith,
}
use nrtb_redo.Common.Bytes.{Bytes}
use nrtb_redo.Floats.{Floats}
use nrtb_redo.Triad.{Triad, triad}
use nrtb_redo.Triad
use nrtb_redo.Rotatable.{Rotatable, zero_triad}
use nrtb_redo.Rotatable

pub record Sphere (F : Type 0) : Type 0 where
  pub center : Triad F
  pub radius : F

-- The members that the simulation works on.
pub record Body (F : Type 0) : Type 0 where
  pub alive : Bool
  pub id : ℕ
  pub object_type : ℕ
  pub location : Triad F
  pub attitude : Rotatable F
  pub velocity : Triad F
  pub rotation : Rotatable F
  pub mass : F
  pub bounding_sphere : Sphere F
  pub force : Triad F
  pub torque : Rotatable F
  pub accel_mod : Triad F
  pub rotation_mod : Rotatable F
  pub mass_mod : F

-- `abs_effector`: `tick` may change the object and the effector, and says whether the object dies;
-- `command` says whether it knew the command, and gives its response.
pub record EffectorClass (F E : Type 0) : Type 0 where
  pub tick : E → Body F → F → Bool × Body F × E
  pub command : E → Bytes → Bytes → Bool × Bytes × E
  pub commandable : E → Bool

-- `effector_list`: the ids in the map, in rising order.
abbrev pub EffectorList : Type 0
EffectorList = List ℕ

-- `insert` leaves the map as it is when the key is there.
unfoldable pub insert_id : ℕ → EffectorList → EffectorList
insert_id i [] = i ∷ []
insert_id i (j ∷ js) = if i == j then j ∷ js else if ltb i j then i ∷ j ∷ js else j ∷ insert_id i js

-- `erase(key)`
unfoldable pub remove_id : ℕ → EffectorList → EffectorList
remove_id i [] = []
remove_id i (j ∷ js) = if i == j then js else j ∷ remove_id i js

pub record Object (F E : Type 0) : Type 0 where
  pub body : Body F
  pub effectors : ℕ → E
  pub cmd_attribs : EffectorList
  pub pre_attribs : EffectorList
  pub post_attribs : EffectorList
  pub dropped_attribs : List ℕ

abbrev pub update : {E : Type 0} → (ℕ → E) → ℕ → E → ℕ → E
update store i e j = if j == i then e else store j

module _ {F E : Type 0} ⦃n : Floats F⦄ (c : EffectorClass F E) where
  open n use {nought, two, plus, le}
  open c use {commandable}

  -- The effector that `e->id` names is already in the store.
  unfoldable pub add_pre : ℕ → Object F E → Object F E
  unfolding insert_id
  add_pre i o =
      let o1 = record o { pre_attribs = insert_id i o.pre_attribs } in
      if commandable (o1.effectors i)
      then record o1 { cmd_attribs = insert_id i o1.cmd_attribs }
      else o1

  unfoldable pub add_post : ℕ → Object F E → Object F E
  unfolding insert_id
  add_post i o =
      let o1 = record o { post_attribs = insert_id i o.post_attribs } in
      if commandable (o1.effectors i)
      then record o1 { cmd_attribs = insert_id i o1.cmd_attribs }
      else o1

  unfoldable pub drop_attrib : ℕ → Object F E → Object F E
  drop_attrib i o = record o { dropped_attribs = o.dropped_attribs ++ (i ∷ []) }

  -- `base_object::command`: the first effector that knows the command answers it.
  unfoldable pub ask : EffectorList → Bytes → Bytes → (ℕ → E) → Bool × Bytes × (ℕ → E)
  ask [] cmd response store = (false, response, store)
  ask (i ∷ is) cmd response store =
      let (found, answer, e) = c.command (store i) cmd response in
      let store' = update store i e in
      let rest = ask is cmd answer store' in if found then (true, answer, store') else rest

  unfoldable pub command : Bytes → Bytes → Object F E → Bool × Bytes × Object F E
  unfolding ask
  command cmd response o =
      let (found, answer, store) = ask o.cmd_attribs cmd response o.effectors in
      (found, answer, record o { effectors = store })

  unfoldable pub drop_one : ℕ → Object F E → Object F E
  unfolding remove_id
  drop_one i o = record o {
    pre_attribs = remove_id i o.pre_attribs;
    post_attribs = remove_id i o.post_attribs;
    cmd_attribs = remove_id i o.cmd_attribs;
  }

  unfoldable pub drop_all : List ℕ → Object F E → Object F E
  unfolding drop_one
  drop_all [] o = o
  drop_all (i ∷ is) o = drop_all is (drop_one i o)

  -- `for (auto e : …) if (e.second->tick(*this, quanta)) killme = true;`
  unfoldable pub tick_list : EffectorList → F → Bool → Body F → (ℕ → E) → Bool × Body F × (ℕ → E)
  tick_list [] quanta killme b store = (killme, b, store)
  tick_list (i ∷ is) quanta killme b store =
      let (kill, b', e) = c.tick (store i) b quanta in
      tick_list is quanta (if kill then true else killme) b' (update store i e)

  unfoldable pub clean : Body F → Body F
  clean b = record b {
    accel_mod = zero_triad;
    rotation_mod = Rotatable.set zero_triad b.rotation_mod;
    force = zero_triad;
    torque = Rotatable.set zero_triad b.torque;
    mass_mod = nought;
  }

  -- Forces applied to the velocity and the rotation, when some mass is left.
  unfoldable pub accelerate : F → Body F → Body F
  accelerate quanta b =
      let a = Triad.div_scalar b.force b.mass in
      let ev =
        Triad.add b.velocity
          (Triad.mul_scalar (Triad.div_scalar (Triad.add a b.accel_mod) two) quanta) in
      let velocity' =
        Triad.add_assign b.velocity (Triad.mul_scalar (Triad.add a b.accel_mod) quanta) in
      let rbase = Rotatable.copy b.rotation in
      let turned =
        Rotatable.add (Triad.mul_scalar (Rotatable.angles b.rotation_mod) quanta) b.rotation in
      let rotation' =
        Rotatable.apply_force b.mass b.bounding_sphere.radius (Rotatable.angles b.torque) quanta
          turned in
      record b {
        velocity = velocity';
        rotation = rotation';
        rotation_mod =
            Rotatable.set
              (Triad.div_scalar (Triad.add (Rotatable.angles rotation') (Rotatable.angles rbase))
                two)
              b.rotation_mod;
      }

  -- The cleaning up before the effectors run.
  unfoldable pub settle : Object F E → Object F E
  settle o =
      let o1 = record o { body = clean o.body } in
      record (drop_all o1.dropped_attribs o1) { dropped_attribs = [] }

  -- What follows the effectors. `alive != killme;` compares and changes nothing.
  unfoldable pub finish : F → Object F E → Bool × Body F × (ℕ → E) → Bool × Object F E
  finish quanta o (killme, b, store) =
      let b' = record b { mass = plus b.mass b.mass_mod } in
      if le b'.mass nought
      then (true, record o { body = b'; effectors = store })
      else (killme, record o { body = accelerate quanta b'; effectors = store })

  unfoldable pub tick : F → Object F E → Bool × Object F E
  tick quanta o =
      let o2 = settle o in
      finish quanta o2 (tick_list o2.pre_attribs quanta false o2.body o2.effectors)

  unfoldable pub move : F → Body F → Body F
  move quanta b = record b {
    location = Triad.add_assign b.location (Triad.mul_scalar b.velocity quanta);
    attitude =
        Rotatable.trim
          (Rotatable.add (Triad.mul_scalar (Rotatable.angles b.rotation_mod) quanta) b.attitude);
  }

  unfoldable pub apply : F → Object F E → Bool × Object F E
  apply quanta o =
      let (killme, b, store) =
        tick_list o.post_attribs quanta false (move quanta o.body) o.effectors in
      (killme, record o { body = b; effectors = store })
