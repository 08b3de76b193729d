-- ===== src/Sim/Run.antt =====
-- cpp/sim_engine/sim_core/sim_core.cpp, `tick`, `collision_check`, `resolve_collisions` and `run_sim`.
-- What other threads and the machine do in a turn is an argument, `Surroundings`.
pub mod Ticks
pub mod Found
pub mod Resolved
pub mod Contacts
pub mod Ends
pub mod Kept
pub mod Reports
use nrtb_redo.Common.{
  ℕ, zero, suc, ◌+◌, ◌%◌, ◌≡◌, refl, Bool, true, false, ◌&&◌, ◌||◌, not, List, [], ◌∷◌, ◌++◌,
  if◌then◌else◌, leb, ◌==◌, length,
}
use nrtb_redo.Common.Words.{u32_mod, add64, sub64}
use nrtb_redo.Floats.{Floats}
use nrtb_redo.Triad.{Triad}
use nrtb_redo.Triad
use nrtb_redo.Object.{Body}
use nrtb_redo.Queue.{Queue, Attempt, push, pop, shutdown}
use nrtb_redo.Queue
use nrtb_redo.Sim.{
  ObjectClass, Message, SimError, Flow, go, throws, waits, terminates, undefined, ◌>>>◌, Clash,
  Report, Sim, refs, put, remove_obj, add_contact, start_new, done_adding, get_report, Engine,
  ended,
}
use nrtb_redo.Sim
use nrtb_redo.Sim.Packets.{deal, pairs}
use nrtb_redo.Sim.Init.{turn_init}
use nrtb_redo.Sim.Workers.{do_tick, do_apply, do_collision_check, each, push_all, run_through}

-- For one turn: the messages that arrive and whether `stop_sim` is called before it, the orders in which
-- the workers get through the packets, and what the two clocks show.
pub record Surroundings (F : Type 0) : Type 0 where
  pub arrivals : List Message
  pub stops : Bool
  pub tick_order : List (List ℕ) → List ℕ
  pub check_order : List (List Clash) → List Clash
  pub apply_order : List (List ℕ) → List ℕ
  pub elapsed : ℕ
  pub wall_usec : ℕ
  pub wall : F

abbrev pub is_nil : {A : Type 0} → List A → Bool
is_nil [] = true
is_nil (x ∷ xs) = false

module _ {F O : Type 0} ⦃n : Floats F⦄ (c : ObjectClass F O) (ticks_of : F → ℕ) where
  open n use {nought, two, plus, minus, times, over, lt}

  -- The answer of a work queue.
  abbrev pub worked : {A : Type 0} → Sim F O → Attempt A → (A → Flow (Sim F O)) → Flow (Sim F O)
  worked s (Queue.returns q) f = f q
  worked s Queue.waits f = waits s
  worked s Queue.queue_not_ready f = throws Sim.queue_not_ready s
  worked s Queue.undefined f = undefined

  -- A collision that cannot be pushed ends its worker, and `join` never returns.
  abbrev pub recorded : Sim F O → Attempt (Queue Clash) → Flow (Sim F O)
  recorded s (Queue.returns q) = go (record s { collisions = q })
  recorded s _ = waits s

  unfoldable pub tick_phase : Surroundings F → Sim F O → Flow (Sim F O)
  tick_phase w s =
      let packets = deal s.worker_count (refs s.all_objects) in
      worked s (run_through packets s.ticklist) (λ q. go (record s {
        ticklist = q;
        store = each (do_tick c s.quanta_duration) (w.tick_order packets) s.store;
      }))

  unfoldable pub collision_check : Surroundings F → Sim F O → Flow (Sim F O)
  collision_check w s =
      let packets = deal s.worker_count (pairs (refs s.all_objects)) in
      let hits = do_collision_check c s.quanta_duration s.store (w.check_order packets) in
      worked s (run_through packets s.clsn_work_list)
        (λ q. recorded (record s { clsn_work_list = q }) (push_all hits s.collisions))

  unfoldable pub apply_phase : Surroundings F → Sim F O → Flow (Sim F O)
  apply_phase w s =
      let packets = deal s.worker_count (refs s.all_objects) in
      worked s (run_through packets s.applylist) (λ q. go (record s {
        applylist = q;
        store = each (do_apply c s.quanta_duration) (w.apply_order packets) s.store;
      }))

  -- With no worker, `current % worker_count` divides by zero.
  unfoldable pub tick : Surroundings F → Sim F O → Flow (Sim F O)
  unfolding tick_phase collision_check apply_phase
  tick w s =
      if (s.worker_count == 0) && not (is_nil s.all_objects)
      then undefined
      else tick_phase w s >>> collision_check w >>> apply_phase w

  -- Both objects are moved out of each other's way.
  unfoldable pub part_bodies : Body F → Body F → Body F × Body F
  part_bodies a b =
      let min_dist = plus a.bounding_sphere.radius b.bounding_sphere.radius in
      let adj = minus min_dist (Triad.range a.location b.location) in
      let half = over adj two in
      let vec = Triad.normalize (Triad.sub a.location b.location) in
      if lt nought adj
      then (
        record a { location = Triad.add_assign a.location (Triad.mul_scalar vec half) },
        record b { location = Triad.sub_assign b.location (Triad.mul_scalar vec half) },
      )
      else (a, b)

  unfoldable pub move_apart : Clash → (ℕ → O) → ℕ → O
  unfolding part_bodies
  move_apart r store =
      let (a', b') = part_bodies (c.body (store r.a)) (c.body (store r.b)) in
      let store' = put r.a (c.with_body a' (store r.a)) store in
      put r.b (c.with_body b' (store' r.b)) store'

  -- Both objects' collision routines, and the move, if both live on.
  unfoldable pub strike : Clash → F → (ℕ → O) → Bool × Bool × (ℕ → O)
  unfolding move_apart
  strike r quanta store =
      let (killa, a1, b1) = c.apply_collision (store r.a) (store r.b) quanta in
      let store1 = put r.b b1 (put r.a a1 store) in
      let (killb, b2, a2) = c.apply_collision (store1 r.b) (store1 r.a) quanta in
      let store2 = put r.a a2 (put r.b b2 store1) in
      (killa, killb, if killa || killb then store2 else move_apart r store2)

  abbrev pub remove_if : Bool → ℕ → Sim F O → Flow (Sim F O)
  remove_if kill r s = if kill then remove_obj c (c.body (s.store r)).id s else go s

  unfoldable pub resolve_one : Clash → Sim F O → Flow (Sim F O)
  unfolding strike
  resolve_one r s =
      let (killa, killb, store') = strike r s.quanta_duration s.store in
      remove_if killa r.a (record s { store = store' }) >>> remove_if killb r.b

  -- `while (collisions.size())`, for at most as many rounds as the fuel says.
  unfoldable pub resolve_loop : ℕ → Sim F O → Flow (Sim F O)
  unfolding resolve_one
  resolve_loop zero s = go s
  resolve_loop (suc fuel) s =
      if Queue.size s.collisions == 0
      then go s
      else worked s (pop s.collisions)
          (λ r. resolve_one r.0 (record s { collisions = r.1 }) >>> resolve_loop fuel)

  -- Resolving a collision records none, so the size is fuel enough.
  unfoldable pub resolve_collisions : Sim F O → Flow (Sim F O)
  unfolding resolve_loop
  resolve_collisions s = resolve_loop (Queue.size s.collisions) s

  unfoldable pub add_contacts : List ℕ → Sim F O → Sim F O
  add_contacts [] s = s
  add_contacts (r ∷ rs) s = add_contacts rs (add_contact c (s.store r) s)

  unfoldable pub publish : Sim F O → Sim F O
  unfolding add_contacts
  publish s = let s1 = start_new c s in done_adding c (add_contacts (refs s1.all_objects) s1)

  unfoldable pub report : ℕ → F → Sim F O → Sim F O
  report usec wt s = record s { output = s.output ++ (get_report c usec wt s ∷ []) }

  -- `tosleep` is an `unsigned long long`, the argument of `usleep` has 32 bits.
  unfoldable pub sleep : ℕ → ℕ → Sim F O → Sim F O
  sleep nexttime wall_usec s = record s { last_sleep = sub64 nexttime wall_usec % u32_mod }

  -- The end of a turn: contacts, report, the check for an overrun, and the sleep.
  unfoldable pub turn_end : Surroundings F → ℕ → ℕ → Sim F O → Flow (Sim F O)
  unfolding publish report sleep
  turn_end w ticks nexttime s1 =
      let s2 = report w.elapsed w.wall (publish s1) in
      if leb ticks w.elapsed then throws Sim.overrun s2 else go (sleep nexttime w.wall_usec s2)

  -- The body of the loop.
  unfoldable pub turn : Surroundings F → ℕ → ℕ → Sim F O → Flow (Sim F O)
  unfolding turn_end
  turn w ticks nexttime s =
      turn_init c (record s { quanta = add64 s.quanta 1 })
      >>> tick w
      >>> resolve_collisions
      >>> turn_end w ticks nexttime

  -- What the other threads do before the turn.
  unfoldable pub arrive : List Message → Sim F O → Sim F O
  arrive [] s = s
  arrive (m ∷ ms) s = elim (push m s.messages) [
    | Queue.returns q ↦ arrive ms (record s { messages = q })
    | _ ↦ arrive ms s
  ]

  -- Without surroundings for a further turn, the loop still runs.
  unfoldable pub loop : List (Surroundings F) → ℕ → ℕ → Sim F O → Flow (Sim F O)
  unfolding turn arrive
  loop [] ticks nexttime s = waits s
  loop (w ∷ ws) ticks nexttime s =
      let s1 = arrive w.arrivals (record s { end_run = s.end_run || w.stops }) in
      let turned = turn w ticks nexttime s1 >>> loop ws ticks (add64 nexttime ticks) in
      if s1.end_run then go s1 else turned

  -- The end of `run_sim`, which the thread reaches on every exception too.
  unfoldable pub close_out : Sim F O → Sim F O
  close_out s = record s {
    applylist = shutdown s.applylist;
    ticklist = shutdown s.ticklist;
    clsn_work_list = shutdown s.clsn_work_list;
    collisions = shutdown s.collisions;
    is_running = false;
    engine = ended;
  }

  abbrev pub caught : Flow (Sim F O) → Flow (Sim F O)
  caught (go s) = go (close_out s)
  caught (throws e s) = go (close_out s)
  caught (waits s) = waits s
  caught terminates = terminates
  caught undefined = undefined

  unfoldable pub run_sim : List (Surroundings F) → Sim F O → Flow (Sim F O)
  unfolding loop close_out
  run_sim ws s =
      let s1 = report 0 nought (record s { is_running = true }) in
      let ticks = ticks_of s1.quanta_duration in
      caught (loop ws ticks ticks (record s1 { quanta = 0 }))
