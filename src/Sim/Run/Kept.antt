-- ===== src/Sim/Run/Kept.antt =====
-- cpp/sim_engine/sim_core/sim_core.cpp: what a turn keeps up to its report, the reports that were put out
-- and the number of the turn.
pub mod Phases
use nrtb_redo.Common.{
  ℕ, zero, suc, ◌≡◌, Bool, true, false, ◌&&◌, not, List, [], ◌∷◌, Option, none, some, if◌then◌else◌,
  ◌==◌,
}
use nrtb_redo.Floats.{Floats}
use nrtb_redo.Queue.{Queue, Attempt, push, pop}
use nrtb_redo.Queue
use nrtb_redo.Sim.{
  ObjectClass, Message, Payload, an_object, an_id, no_data, SimError, Flow, go, throws, waits,
  terminates, undefined, ◌>>>◌, Clash, Report, Sim, refs, find_key, remove_obj, put_message, pushed,
  add_contact, start_new, done_adding, get_report,
}
use nrtb_redo.Sim
use nrtb_redo.Sim.Init.{
  mark, verb_add, verb_rm, object_noun, control_noun, handle, process, sweep, clean_up, turn_init,
  is_alive,
}
use nrtb_redo.Sim.Packets.{deal, pairs}
use nrtb_redo.Sim.Workers.{do_tick, do_apply, do_collision_check, each, push_all, run_through}
use nrtb_redo.Sim.Run.{
  strike, Surroundings, worked, recorded, is_nil, tick_phase, collision_check, apply_phase, tick,
  remove_if, resolve_one, resolve_loop, add_contacts, publish, arrive,
}

module _ {F O : Type 0} where
  -- Of the state where the code got to, if it is a state at all.
  abbrev pub Leads : (Sim F O → Type 0) → Flow (Sim F O) → Type 0
  Leads P (go s) = P s
  Leads P (throws e s) = P s
  Leads P (waits s) = P s
  Leads P terminates = Unit
  Leads P undefined = Unit

  -- The same reports, and the same number of the turn.
  abbrev pub Same : Sim F O → Sim F O → Type 0
  Same s0 s = (s.output ≡ s0.output) × (s.quanta ≡ s0.quanta)

  pub Leads-either :
      (P : Sim F O → Type 0) (b : Bool) (f g : Flow (Sim F O))
      → Leads P f
      → Leads P g
      → Leads P (if b then f else g)
  Leads-either P true f g h k = h
  Leads-either P false f g h k = k

  Leads-then :
      (P Q : Sim F O → Type 0) (f : Flow (Sim F O)) (next : Sim F O → Flow (Sim F O))
      → Leads P f
      → ((s : Sim F O) → P s → Q s)
      → ((s : Sim F O) → P s → Leads Q (next s))
      → Leads Q (f >>> next)
  Leads-then P Q (go s) next h weak k = k s h
  Leads-then P Q (throws e s) next h weak k = weak s h
  Leads-then P Q (waits s) next h weak k = weak s h
  Leads-then P Q terminates next h weak k = tt
  Leads-then P Q undefined next h weak k = tt

  pub Leads-then_both :
      (P Q : Sim F O → Type 0) (f : Flow (Sim F O)) (mid next : Sim F O → Flow (Sim F O))
      → Leads P f
      → ((s : Sim F O) → P s → Q s)
      → ((s : Sim F O) → P s → Leads Q (mid s >>> next))
      → Leads Q (f >>> mid >>> next)
  Leads-then_both P Q (go s) mid next h weak k = k s h
  Leads-then_both P Q (throws e s) mid next h weak k = weak s h
  Leads-then_both P Q (waits s) mid next h weak k = weak s h
  Leads-then_both P Q terminates mid next h weak k = tt
  Leads-then_both P Q undefined mid next h weak k = tt

  -- Two steps that keep the reports.
  pub Same-then :
      (s0 : Sim F O) (f : Flow (Sim F O)) (next : Sim F O → Flow (Sim F O))
      → Leads (Same s0) f
      → ((s : Sim F O) → Same s0 s → Leads (Same s0) (next s))
      → Leads (Same s0) (f >>> next)
  Same-then s0 f next h k = Leads-then (Same s0) (Same s0) f next h (λ s same. same) k

module _ {F O : Type 0} (c : ObjectClass F O) (s0 : Sim F O) where
  abbrev pub Keeps : Flow (Sim F O) → Type 0
  Keeps f = Leads (Same s0) f

  mark-Keeps : (found : Option ℕ) (s : Sim F O) → Same s0 s → Keeps (mark c found s)
  unfolding mark
  mark-Keeps none s h = tt
  mark-Keeps (some r) s h = h

  verb_add-Keeps : (p : Payload) (s : Sim F O) → Same s0 s → Keeps (verb_add c p s)
  unfolding verb_add
  verb_add-Keeps (an_object r) s h = h
  verb_add-Keeps (an_id i) s h = tt
  verb_add-Keeps no_data s h = h

  verb_rm-Keeps : (p : Payload) (s : Sim F O) → Same s0 s → Keeps (verb_rm c p s)
  unfolding verb_rm
  verb_rm-Keeps (an_object r) s h = tt
  verb_rm-Keeps (an_id i) s h = mark-Keeps (find_key i s.all_objects) s h
  verb_rm-Keeps no_data s h = h

  handle-Keeps : (m : Message) (s : Sim F O) → Same s0 s → Keeps (handle c m s)
  unfolding handle object_noun control_noun
  handle-Keeps m s h =
      let either = Leads-either (Same s0) in
      either (m.msg_type == 0) _ _
        (either (m.noun == 1) _ _
          (either (m.verb == 1) _ _ (verb_add-Keeps m.data_packet s h)
            (either (m.verb == 2) _ _ (verb_rm-Keeps m.data_packet s h) h))
          (either (m.noun == 2) _ _
            (Same-then s0 _ (throws Sim.bad_noun) (either (m.verb == 1) _ _ h h) (λ s1 h1. h1)) h))
        h

  process-Keeps : (i : ℕ) (s : Sim F O) → Same s0 s → Keeps (process c i s)
  unfolding process
  process-Keeps zero s h = h
  process-Keeps (suc i) s h =
      elim (pop s.messages)
        as (λ a. Keeps (elim a [
          | Queue.returns (m, q) ↦ handle c m (record s { messages = q }) >>> process c i
          | Queue.waits ↦ waits s
          | Queue.queue_not_ready ↦ throws Sim.queue_not_ready s
          | Queue.undefined ↦ undefined
        ])) [
          | Queue.returns (m, q) ↦
              Same-then s0 (handle c m (record s { messages = q })) (process c i)
                (handle-Keeps m (record s { messages = q }) h) (λ s1 h1. process-Keeps i s1 h1)
          | Queue.waits ↦ h
          | Queue.queue_not_ready ↦ h
          | Queue.undefined ↦ tt
        ]

  sweep-Keeps : (l : List (ℕ × ℕ)) (s : Sim F O) → Same s0 s → Keeps (sweep c l s)
  unfolding sweep
  sweep-Keeps [] s h = h
  sweep-Keeps ((k, r) ∷ rest) s h =
      Leads-either (Same s0) (is_alive c (s.store r)) _ _ (sweep-Keeps rest s h) tt

  pub turn_init-Keeps : (s : Sim F O) → Same s0 s → Keeps (turn_init c s)
  unfolding turn_init clean_up
  turn_init-Keeps s h =
      Same-then s0 (process c (Queue.size s.messages) s) (clean_up c)
        (process-Keeps (Queue.size s.messages) s h)
        (λ s1 h1.
          Same-then s0
            (sweep c s1.all_objects (record s1 { collisions = Queue.clear s1.collisions })) _
            (sweep-Keeps s1.all_objects (record s1 { collisions = Queue.clear s1.collisions }) h1)
            (λ s2 h2. h2))

  pushed-Keeps : (s : Sim F O) (a : Attempt (Queue Message)) → Same s0 s → Keeps (pushed c s a)
  pushed-Keeps s (Queue.returns q) h = h
  pushed-Keeps s Queue.waits h = h
  pushed-Keeps s Queue.queue_not_ready h = h
  pushed-Keeps s Queue.undefined h = tt

  pub remove_obj-Keeps : (i : ℕ) (s : Sim F O) → Same s0 s → Keeps (remove_obj c i s)
  unfolding remove_obj put_message
  remove_obj-Keeps i s h =
      Leads-either (Same s0) s.is_running _ _
        (pushed-Keeps s (push (Sim.order 2 (an_id i)) s.messages) h) h
