-- ===== src/Sim/Tests.antt =====
-- The theorems about the simulation, over whole numbers in place of floats.
use nrtb_redo.Common.{
  ℕ, ◌+◌, ◌*◌, ◌≤◌, ◌≡◌, ◌≢◌, refl, Bool, true, false, ◌&&◌, [], ◌∷◌, ◌++◌, map, if◌then◌else◌, leb,
  ◌==◌, arith,
}
use nrtb_redo.Common.Int.{ℤ, pos}
use nrtb_redo.Floats.{int_floats}
use nrtb_redo.Object.{Object, EffectorClass}
use nrtb_redo.Object.Whole.{ball}
use nrtb_redo.Queue.{clear}
use nrtb_redo.Queue
use nrtb_redo.Sim.{
  ObjectClass, Payload, no_data, an_object, an_id, Message, Flow, go, throws, terminates, undefined,
  ◌>>>◌, Clash, Sim, Report, refs, contact, set_key, order, running, start_sim, stop_sim,
  add_object, remove_obj, start_new, contact_list, get_report, ended,
}
use nrtb_redo.Sim
use nrtb_redo.Sim.Packets.{deal, pairs, concat, count, copies, is_clash, deal-pairs}
use nrtb_redo.Sim.Init.{turn_init, popped, queued, remove_obj-turn_init, add_object-turn_init}
use nrtb_redo.Sim.Workers.{IsIdle, run_through, run_through-IsIdle, do_tick, do_apply}
use nrtb_redo.Sim.Run.{Surroundings, tick, run_sim, resolve_collisions}
use nrtb_redo.Sim.Run.Ticks.{IsFairTurn, IsSteady, found, tick_lem}
use nrtb_redo.Sim.Run.Found.{found_lem}
use nrtb_redo.Sim.Run.Resolved.{IsTaking, resolve_collisions_returns}
use nrtb_redo.Sim.Run.Kept.{Leads}
use nrtb_redo.Sim.Run.Reports.{quantas, IsNumbered, run_sim-IsNumbered}
use nrtb_redo.Sim.Run.Ends.{IsClosed, restart, run_sim_stop_message}
use nrtb_redo.Bot.Server.{processor, processor_running}
use nrtb_redo.Sim.Objects.{base_class, tick-revives}

-- An effector is a mark: true for one whose `tick` ends its object.
abbrev marks : EffectorClass ℤ Bool
marks = record {
  tick = λ e b q. (e, b, e);
  command = λ e cmd response. (e, response, e);
  commandable = λ e. e;
}

-- Objects of the base class whose collisions end neither.
abbrev objects : ObjectClass ℤ (Object ℤ Bool)
objects = base_class marks (λ a b q. (false, a, b)) (λ o. [])

-- An object with one deadly pre-effector.
abbrev doomed : ℕ → Object ℤ Bool
doomed r = record {
  body = ball (pos (1000 * r)) (pos 0) (pos 0);
  effectors = λ i. true;
  cmd_attribs = 1 ∷ [];
  pre_attribs = 1 ∷ [];
  post_attribs = [];
  dropped_attribs = [];
}

abbrev two_objects : Sim ℤ (Object ℤ Bool)
two_objects = record {
  messages = Queue.empty;
  end_run = false;
  is_running = true;
  quanta = 0;
  quanta_duration = pos 1;
  engine = Sim.active;
  all_objects = (1, 1) ∷ (2, 2) ∷ [];
  store = doomed;
  deletions = [];
  c_list = [];
  t_list = [];
  worker_count = 2;
  ticklist = Queue.empty;
  applylist = Queue.empty;
  clsn_work_list = Queue.empty;
  collisions = Queue.empty;
  output = [];
  last_sleep = 0;
}

abbrev in_order : Surroundings ℤ
in_order = record {
  arrivals = [];
  stops = false;
  tick_order = concat;
  check_order = concat;
  apply_order = concat;
  elapsed = 10;
  wall_usec = 20;
  wall = pos 0;
}

abbrev usec : ℤ → ℕ
usec q = 20000

in_order-IsFairTurn : IsFairTurn in_order
in_order-IsFairTurn = record {
  ticks_fair = λ ps p. refl;
  checks_fair = λ ps p. refl;
  applies_fair = λ ps p. refl;
}

empty-IsIdle : {A : Type 0} → IsIdle (Queue.empty {A = A})
unfolding Queue.empty
empty-IsIdle = record { is_open = refl; not_held = refl; no_packets = refl; all_done = refl }

two_objects-once : (r : ℕ) → copies r (1 ∷ 2 ∷ []) ≤ 1
two_objects-once r = ground arith

two_objects-IsSteady : IsSteady two_objects
unfolding Queue.empty
two_objects-IsSteady = record {
  workers = omega arith;
  ticks_idle = empty-IsIdle;
  checks_idle = empty-IsIdle;
  applies_idle = empty-IsIdle;
  collisions_open = refl;
  once = two_objects-once;
}

two_differ : ◌≢◌ {A = ℕ} 1 2
two_differ e = omega (arith, e)

deal-pairs_example :
    (count (is_clash 1 2) (concat (deal 2 (pairs (1 ∷ 2 ∷ []))))
        + count (is_clash 2 1) (concat (deal 2 (pairs (1 ∷ 2 ∷ []))))
      ≡ (if leb 1 (copies 1 (1 ∷ 2 ∷ [])) && leb 1 (copies 2 (1 ∷ 2 ∷ [])) then 1 else 0))
    × (count (is_clash 1 1) (concat (deal 2 (pairs (1 ∷ 2 ∷ [])))) ≡ 0)
deal-pairs_example =
    deal-pairs 2 1 2 (1 ∷ 2 ∷ []) (omega arith) two_differ (two_objects-once 1) (two_objects-once 2)

-- The stop message, in front of an order to remove.
abbrev stop_message : Message
stop_message = record { msg_type = 0; noun = 2; verb = 1; data_packet = no_data }

abbrev stopping : Sim ℤ (Object ℤ Bool)
stopping = record two_objects {
  messages = record Queue.empty { buffer = stop_message ∷ order 2 (an_id 1) ∷ [] };
}

remove_obj-turn_init_example : (remove_obj objects 2 two_objects >>> turn_init objects) ≡ undefined
unfolding Queue.empty base_class
remove_obj-turn_init_example =
    remove_obj-turn_init objects 2 two_objects refl (refl, refl, refl) (λ o. refl)

add_object-turn_init_example :
    ((add_object objects 1 two_objects >>> turn_init objects)
      ≡ go (record two_objects {
        messages = popped objects [] (queued objects (order 1 (an_object 1)) two_objects).messages;
        all_objects = set_key (objects.body (two_objects.store 1)).id 1 two_objects.all_objects;
        collisions = clear two_objects.collisions;
        deletions = [];
      }))
    × (add_object objects 1 (record two_objects { is_running = false })
        ≡ go (record two_objects {
          is_running = false;
          all_objects = set_key (objects.body (two_objects.store 1)).id 1 two_objects.all_objects;
        }))
unfolding Queue.empty base_class set_key
add_object-turn_init_example =
    add_object-turn_init objects 1 two_objects refl (refl, refl, refl) (refl, (refl, tt))

run_through-IsIdle_example :
    (r : _) × (run_through ((1 ∷ []) ∷ (2 ∷ []) ∷ []) two_objects.ticklist ≡ Queue.returns r)
    × IsIdle r
run_through-IsIdle_example =
    run_through-IsIdle ((1 ∷ []) ∷ (2 ∷ []) ∷ []) two_objects.ticklist empty-IsIdle

tick_lem_example :
    (t : Sim ℤ (Object ℤ Bool)) × (tick objects usec in_order two_objects ≡ go t)
    × IsSteady t
    × (t.all_objects ≡ two_objects.all_objects)
    × (t.collisions.buffer
        ≡ two_objects.collisions.buffer ++ found objects usec in_order two_objects)
    × ((r : ℕ)
        → t.store r ≡ (
            if copies r (1 ∷ 2 ∷ []) == 1
            then do_apply objects (pos 1) (do_tick objects (pos 1) (doomed r))
            else doomed r))
tick_lem_example =
    tick_lem objects usec in_order two_objects in_order-IsFairTurn two_objects-IsSteady

tick-revives_example :
    (t : Sim ℤ (Object ℤ Bool)) × (tick objects usec in_order two_objects ≡ go t)
    × ((t.store 2).body.alive ≡ true)
tick-revives_example =
    tick-revives marks (λ a b q. (false, a, b)) (λ o. []) usec in_order two_objects 2
      in_order-IsFairTurn two_objects-IsSteady refl refl

abbrev bumping : ObjectClass ℤ (Object ℤ Bool)
bumping = record objects { check_collision = λ a b q. true }

found_lem_example :
    (count (is_clash 1 2) (found bumping usec in_order two_objects)
        + count (is_clash 2 1) (found bumping usec in_order two_objects)
      ≡ (if leb 1 (copies 1 (1 ∷ 2 ∷ [])) && leb 1 (copies 2 (1 ∷ 2 ∷ [])) && true then 1 else 0))
    × (count (is_clash 1 1) (found bumping usec in_order two_objects) ≡ 0)
found_lem_example =
    found_lem bumping usec in_order two_objects 1 2 in_order-IsFairTurn two_objects-IsSteady
      two_differ refl

abbrev bumped : Sim ℤ (Object ℤ Bool)
bumped = record two_objects {
  collisions = record Queue.empty {
    buffer = record { a = 1; b = 2 } ∷ record { a = 2; b = 1 } ∷ [];
  };
}

resolve_collisions_returns_example :
    (t : Sim ℤ (Object ℤ Bool)) × (resolve_collisions objects usec bumped ≡ go t)
    × (t.collisions.buffer ≡ [])
    × (t.all_objects ≡ bumped.all_objects)
    × IsTaking t
unfolding Queue.empty
resolve_collisions_returns_example =
    resolve_collisions_returns objects usec bumped record { runs = refl; messages_open = refl } refl
      refl

abbrev closed : Sim ℤ (Object ℤ Bool)
closed = record two_objects {
  is_running = false;
  engine = ended;
  ticklist = record Queue.empty { ready = false };
  applylist = record Queue.empty { ready = false };
  clsn_work_list = record Queue.empty { ready = false };
  collisions = record Queue.empty { ready = false };
}

closed-IsClosed : IsClosed closed
unfolding Queue.empty
closed-IsClosed = record {
  flag_off = refl;
  ticks_shut = (refl, refl);
  applies_shut = (refl, refl);
  checks_shut = (refl, refl);
  collisions_shut = (refl, refl);
  joinable = refl;
}

restart_example :
    (running objects closed ≡ true)
    × (start_sim objects 2 closed ≡ terminates)
    × ((s' : Sim ℤ (Object ℤ Bool)) × (t : Sim ℤ (Object ℤ Bool)) × ((stop_sim objects closed
            >>> start_sim objects 2)
          ≡ go s')
        × (run_sim objects usec (in_order ∷ []) s' ≡ go t)
        × IsClosed t
        × (t.quanta ≡ 0)
        × (t.all_objects ≡ closed.all_objects)
        × (t.store ≡ closed.store)
        × (t.output ≡ closed.output ++ (get_report objects 0 (pos 0) closed ∷ [])))
restart_example = restart objects usec closed 2 in_order [] closed-IsClosed refl

run_sim_stop_message_example :
    (t : Sim ℤ (Object ℤ Bool)) × (run_sim objects usec (in_order ∷ in_order ∷ []) stopping ≡ go t)
    × IsClosed t
    × (t.end_run ≡ true)
    × (t.quanta ≡ 1)
    × (t.messages.buffer ≡ order 2 (an_id 1) ∷ [])
    × (t.all_objects ≡ stopping.all_objects)
    × (t.store ≡ stopping.store)
    × (t.output ≡ stopping.output ++ (get_report objects 0 (pos 0) stopping ∷ []))
unfolding Queue.empty
run_sim_stop_message_example =
    run_sim_stop_message objects usec stopping no_data (order 2 (an_id 1) ∷ []) in_order
      (in_order ∷ []) refl refl refl refl refl refl

run_sim-IsNumbered_example :
    Leads
      (IsNumbered (quantas two_objects.output ++ (two_objects.quanta ∷ [])))
      (run_sim objects usec (in_order ∷ in_order ∷ []) two_objects)
run_sim-IsNumbered_example = run_sim-IsNumbered objects usec (in_order ∷ in_order ∷ []) two_objects

-- One place is free, and three connections come in one turn.
processor_running_example :
    (t : Sim ℤ (Object ℤ Bool)) × (processor objects 3 (5 ∷ 6 ∷ 7 ∷ []) two_objects 0
      ≡ record { sim = go t; rejected = 0 })
    × (t.messages.buffer
        ≡ two_objects.messages.buffer ++ map (λ r. order 1 (an_object r)) (5 ∷ 6 ∷ 7 ∷ []))
unfolding Queue.empty Sim.size
processor_running_example =
    processor_running objects 3 (5 ∷ 6 ∷ 7 ∷ []) two_objects 0 refl refl (omega arith)
