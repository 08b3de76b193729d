-- ===== src/Sim/Run/Found.antt =====
-- cpp/sim_engine/sim_core/sim_core.cpp, `collision_check`: which collisions a turn finds.
use nrtb_redo.Common.{ℕ, ◌+◌, ◌≡◌, ◌≢◌, ◌&&◌, List, [], ◌∷◌, if◌then◌else◌, leb, ==_iff, arith}
use nrtb_redo.Floats.{Floats}
use nrtb_redo.Sim.{ObjectClass, Clash, Sim, refs}
use nrtb_redo.Sim.Packets.{deal, pairs, count, copies, is_clash, deal-pairs}
use nrtb_redo.Sim.Workers.{do_collision_check}
use nrtb_redo.Sim.Run.{Surroundings}
use nrtb_redo.Sim.Run.Ticks.{IsFairTurn, IsSteady, ticked, found}

module _ {F O : Type 0} ⦃n : Floats F⦄ (c : ObjectClass F O) (ticks_of : F → ℕ) where
  count-do_collision_check :
      (q : F) (store : ℕ → O) (i j : ℕ) (cs : List Clash)
      → count (is_clash i j) (do_collision_check c q store cs)
        ≡ (if c.check_collision (store i) (store j) q then count (is_clash i j) cs else 0)
  unfolding do_collision_check
  count-do_collision_check q store i j [] = ground arith
  count-do_collision_check q store i j (k ∷ cs) =
      ground (arith, count-do_collision_check q store i j cs, ==_iff k.a i, ==_iff k.b j)

  -- In a steady simulation, whatever fair orders the workers take, for two different objects on which
  -- `check_collision` is symmetric: the turn finds their collision exactly once if the list holds both
  -- and `check_collision` reports it for their state after `tick`, and otherwise not at all; and no
  -- object is found to collide with itself.
  pub found_lem :
      (w : Surroundings F) (s : Sim F O) (i j : ℕ)
      → IsFairTurn w
      → IsSteady s
      → i ≢ j
      → c.check_collision (ticked c ticks_of w s i) (ticked c ticks_of w s j) s.quanta_duration
        ≡ c.check_collision (ticked c ticks_of w s j) (ticked c ticks_of w s i) s.quanta_duration
      → (count (is_clash i j) (found c ticks_of w s) + count (is_clash j i) (found c ticks_of w s)
          ≡ (if leb 1 (copies i (refs s.all_objects))
                && leb 1 (copies j (refs s.all_objects))
                && c.check_collision
                    (ticked c ticks_of w s i)
                    (ticked c ticks_of w s j)
                    s.quanta_duration
              then 1
              else 0))
        × (count (is_clash i i) (found c ticks_of w s) ≡ 0)
  found_lem w s i j fair v ne symmetric =
      let packets = deal s.worker_count (pairs (refs s.all_objects)) in
      let cs = w.check_order packets in
      let counted = λ (a : ℕ) (b : ℕ).
        count-do_collision_check s.quanta_duration (ticked c ticks_of w s) a b cs in
      let (once, never) =
        deal-pairs s.worker_count i j (refs s.all_objects) v.workers ne (v.once i) (v.once j) in
      let same = λ (a : ℕ) (b : ℕ). fair.checks_fair packets (is_clash a b) in
      ground (
        arith,
        counted i j,
        counted j i,
        counted i i,
        same i j,
        same j i,
        same i i,
        once,
        never,
        symmetric,
      )
