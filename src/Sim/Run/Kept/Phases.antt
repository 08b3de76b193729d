-- ===== src/Sim/Run/Kept/Phases.antt =====
-- The phases of a turn behind `turn_init`, and the messages that arrive before it.
use nrtb_redo.Common.{ℕ, zero, suc, Bool, true, false, ◌&&◌, not, List, [], ◌∷◌, ◌==◌}
use nrtb_redo.Floats.{Floats}
use nrtb_redo.Queue.{Queue, Attempt, push, pop}
use nrtb_redo.Queue
use nrtb_redo.Sim.{
  ObjectClass, Message, Flow, go, undefined, ◌>>>◌, Clash, Sim, refs, add_contact, start_new,
  done_adding,
}
use nrtb_redo.Sim.Packets.{deal, pairs}
use nrtb_redo.Sim.Workers.{do_tick, do_apply, do_collision_check, each, push_all, run_through}
use nrtb_redo.Sim.Run.{
  strike, Surroundings, worked, recorded, is_nil, tick_phase, collision_check, apply_phase, tick,
  remove_if, resolve_one, resolve_loop, add_contacts, publish, arrive,
}
use nrtb_redo.Sim.Run.Kept.{Same, Keeps, Leads-either, Same-then, remove_obj-Keeps}

module _ {F O : Type 0} ⦃n : Floats F⦄ (c : ObjectClass F O) (ticks_of : F → ℕ) where
  module _ (s0 : Sim F O) where
    worked-Keeps :
        {A : Type 0} (s : Sim F O) (a : Attempt A) (f : A → Flow (Sim F O))
        → Same s0 s
        → ((x : A) → Keeps c s0 (f x))
        → Keeps c s0 (worked c ticks_of s a f)
    worked-Keeps s (Queue.returns x) f h k = k x
    worked-Keeps s Queue.waits f h k = h
    worked-Keeps s Queue.queue_not_ready f h k = h
    worked-Keeps s Queue.undefined f h k = tt

    recorded-Keeps :
        (s : Sim F O) (a : Attempt (Queue Clash)) → Same s0 s → Keeps c s0 (recorded c ticks_of s a)
    recorded-Keeps s (Queue.returns q) h = h
    recorded-Keeps s Queue.waits h = h
    recorded-Keeps s Queue.queue_not_ready h = h
    recorded-Keeps s Queue.undefined h = h

    tick_phase-Keeps :
        (w : Surroundings F) (s : Sim F O) → Same s0 s → Keeps c s0 (tick_phase c ticks_of w s)
    unfolding tick_phase
    tick_phase-Keeps w s h =
        let packets = deal s.worker_count (refs s.all_objects) in
        worked-Keeps s (run_through packets s.ticklist)
          (λ q. go (record s {
            ticklist = q;
            store = each (do_tick c s.quanta_duration) (w.tick_order packets) s.store;
          }))
          h (λ q. h)

    collision_check-Keeps :
        (w : Surroundings F) (s : Sim F O) → Same s0 s → Keeps c s0 (collision_check c ticks_of w s)
    unfolding collision_check
    collision_check-Keeps w s h =
        let packets = deal s.worker_count (pairs (refs s.all_objects)) in
        let hits = do_collision_check c s.quanta_duration s.store (w.check_order packets) in
        worked-Keeps s (run_through packets s.clsn_work_list)
          (λ q. recorded c ticks_of (record s { clsn_work_list = q }) (push_all hits s.collisions))
          h (λ q. recorded-Keeps (record s { clsn_work_list = q }) (push_all hits s.collisions) h)

    apply_phase-Keeps :
        (w : Surroundings F) (s : Sim F O) → Same s0 s → Keeps c s0 (apply_phase c ticks_of w s)
    unfolding apply_phase
    apply_phase-Keeps w s h =
        let packets = deal s.worker_count (refs s.all_objects) in
        worked-Keeps s (run_through packets s.applylist)
          (λ q. go (record s {
            applylist = q;
            store = each (do_apply c s.quanta_duration) (w.apply_order packets) s.store;
          }))
          h (λ q. h)

    pub tick-Keeps :
        (w : Surroundings F) (s : Sim F O) → Same s0 s → Keeps c s0 (tick c ticks_of w s)
    unfolding tick
    tick-Keeps w s h =
        let two_phases = tick_phase c ticks_of w s >>> collision_check c ticks_of w in
        Leads-either (Same s0) ((s.worker_count == 0) && not (is_nil s.all_objects)) undefined
          (two_phases >>> apply_phase c ticks_of w) tt
          (Same-then s0 two_phases (apply_phase c ticks_of w)
            (Same-then s0 (tick_phase c ticks_of w s) (collision_check c ticks_of w)
              (tick_phase-Keeps w s h) (λ s1 h1. collision_check-Keeps w s1 h1))
            (λ s2 h2. apply_phase-Keeps w s2 h2))

    remove_if-Keeps :
        (kill : Bool) (r : ℕ) (s : Sim F O) → Same s0 s → Keeps c s0 (remove_if c ticks_of kill r s)
    remove_if-Keeps true r s h = remove_obj-Keeps c s0 (c.body (s.store r)).id s h
    remove_if-Keeps false r s h = h

    resolve_one-Keeps :
        (r : Clash) (s : Sim F O) → Same s0 s → Keeps c s0 (resolve_one c ticks_of r s)
    unfolding resolve_one
    resolve_one-Keeps r s h =
        let (killa, killb, store') = strike c ticks_of r s.quanta_duration s.store in
        Same-then s0 (remove_if c ticks_of killa r.a (record s { store = store' }))
          (remove_if c ticks_of killb r.b)
          (remove_if-Keeps killa r.a (record s { store = store' }) h)
          (λ s1 h1. remove_if-Keeps killb r.b s1 h1)

    pub resolve_loop-Keeps :
        (fuel : ℕ) (s : Sim F O) → Same s0 s → Keeps c s0 (resolve_loop c ticks_of fuel s)
    unfolding resolve_loop
    resolve_loop-Keeps zero s h = h
    resolve_loop-Keeps (suc fuel) s h =
        Leads-either (Same s0) (Queue.size s.collisions == 0) _ _ h (
          worked-Keeps s (pop s.collisions) _ h (λ r.
            Same-then s0 (resolve_one c ticks_of r.0 (record s { collisions = r.1 }))
              (resolve_loop c ticks_of fuel)
              (resolve_one-Keeps r.0 (record s { collisions = r.1 }) h)
              (λ s1 h1. resolve_loop-Keeps fuel s1 h1)))

    add_contacts-Keeps :
        (rs : List ℕ) (s : Sim F O) → Same s0 s → Same s0 (add_contacts c ticks_of rs s)
    unfolding add_contacts add_contact
    add_contacts-Keeps [] s h = h
    add_contacts-Keeps (r ∷ rs) s h = add_contacts-Keeps rs (add_contact c (s.store r) s) h

    pub publish-Keeps : (s : Sim F O) → Same s0 s → Same s0 (publish c ticks_of s)
    unfolding publish start_new done_adding
    publish-Keeps s h = add_contacts-Keeps (refs s.all_objects) (start_new c s) h

    pub arrive-Keeps :
        (ms : List Message) (s : Sim F O) → Same s0 s → Same s0 (arrive c ticks_of ms s)
    unfolding arrive
    arrive-Keeps [] s h = h
    arrive-Keeps (m ∷ ms) s h =
        elim (push m s.messages)
          as (λ a. Same s0 (elim a [
            | Queue.returns q ↦ arrive c ticks_of ms (record s { messages = q })
            | _ ↦ arrive c ticks_of ms s
          ])) [
            | Queue.returns q ↦ arrive-Keeps ms (record s { messages = q }) h
            | Queue.waits ↦ arrive-Keeps ms s h
            | Queue.queue_not_ready ↦ arrive-Keeps ms s h
            | Queue.undefined ↦ arrive-Keeps ms s h
          ]
