-- ===== src/Sim/Objects.antt =====
-- Base objects, cpp/sim_engine/base_object, in the simulation of cpp/sim_engine/sim_core.
use nrtb_redo.Common.{
  ℕ, ◌≡◌, refl, ap, ◌∙◌, Bool, true, false, not, List, [], ◌∷◌, if◌then◌else◌, ◌==◌,
}
use nrtb_redo.Common.Bytes.{Bytes}
use nrtb_redo.Floats.{Floats}
use nrtb_redo.Object.{Object, Body, EffectorClass, remove_id, drop_one, drop_all, tick_list}
use nrtb_redo.Object
use nrtb_redo.Object.Collision.{check_collision}
use nrtb_redo.Object.Attribs.{tick_maps}
use nrtb_redo.Sim.{ObjectClass, go, Sim, refs}
use nrtb_redo.Sim.Init.{is_alive, set_alive}
use nrtb_redo.Sim.Packets.{copies}
use nrtb_redo.Sim.Workers.{do_tick, do_apply}
use nrtb_redo.Sim.Run.{Surroundings, tick}
use nrtb_redo.Sim.Run.Ticks.{IsFairTurn, IsSteady, tick_lem}

module _ {F E : Type 0} ⦃n : Floats F⦄ (c : EffectorClass F E)
    (apply_collision : Object F E → Object F E → F → Bool × Object F E × Object F E)
    (as_str : Object F E → Bytes) where
  -- The methods of `base_object`; `apply_collision` is pure virtual there.
  unfoldable pub base_class : ObjectClass F (Object F E)
  base_class = record {
    body = λ o. o.body;
    with_body = λ b o. record o { body = b };
    tick = Object.tick c;
    apply = Object.apply c;
    check_collision = λ a b q. check_collision a.body b.body q;
    apply_collision = apply_collision;
    as_str = as_str;
    clone = λ o. o;
  }

  drop_all_none :
      (is : List ℕ) (o : Object F E) → o.post_attribs ≡ [] → (drop_all c is o).post_attribs ≡ []
  unfolding drop_all drop_one remove_id
  drop_all_none [] o e = e
  drop_all_none (i ∷ is) o e = drop_all_none is (drop_one c i o) (ap (remove_id i) e)

  apply_none : (q : F) (o : Object F E) → o.post_attribs ≡ [] → (Object.apply c q o).0 ≡ false
  unfolding Object.apply tick_list
  apply_none q o e = rw e refl

  -- An object without post-effectors is alive after `do_tick` and `do_apply`, whatever its `tick` says.
  revived :
      (q : F) (o : Object F E)
      → o.post_attribs ≡ []
      → is_alive base_class (do_apply base_class q (do_tick base_class q o)) ≡ true
  unfolding do_apply do_tick base_class
  revived q o e =
      let (_, e', _, _) = tick_maps c q o in
      ap not (
        apply_none q (set_alive base_class _ (Object.tick c q o).1)
          (e' ∙ drop_all_none o.dropped_attribs o e))

  one_copy : {A : Type 0} (k : ℕ) (x y : A) → k ≡ 1 → (if k == 1 then x else y) ≡ x
  one_copy k x y e = rw e refl

  -- In a steady simulation of base objects, whatever fair orders the workers take, the tick of a
  -- turn leaves every object that is in the list and has no post-effector alive, even one whose
  -- own `tick` reported its end, as it does for a mass that is used up.
  pub tick-revives :
      (ticks_of : F → ℕ) (w : Surroundings F) (s : Sim F (Object F E)) (r : ℕ)
      → IsFairTurn w
      → IsSteady s
      → copies r (refs s.all_objects) ≡ 1
      → (s.store r).post_attribs ≡ []
      → (t : Sim F (Object F E)) × (tick base_class ticks_of w s ≡ go t)
        × ((t.store r).body.alive ≡ true)
  tick-revives ticks_of w s r fair v one none =
      let (t, e, _, _, _, stores) = tick_lem base_class ticks_of w s fair v in
      let worked =
        stores r
        ∙ one_copy (copies r (refs s.all_objects))
            (do_apply base_class s.quanta_duration
              (do_tick base_class s.quanta_duration (s.store r)))
            (s.store r) one in
      (
        t,
        e,
        ap (λ o. o.body.alive) worked
            ∙ unfold base_class in revived s.quanta_duration (s.store r) none,
      )
