-- ===== src/Sim.antt =====
-- cpp/sim_engine/sim_core/sim_core.h and sim_core.cpp, with the messages of cpp/sim_engine/messages:
-- the state of the simulation, the calls that other threads make, and the list of contacts.
-- Objects are a parameter, `ObjectClass`. An `object_p` is a reference into `store`, so that the object
-- list, the work packets and the collisions share one object.
pub mod Packets
pub mod Init
pub mod Workers
pub mod Run
pub mod Objects
mod Tests
use nrtb_redo.Common.{
  ℕ, ◌≡◌, Bool, true, false, ◌&&◌, not, List, [], ◌∷◌, ◌++◌, Option, none, some, if◌then◌else◌, ltb,
  ◌==◌, map, length,
}
use nrtb_redo.Common.Bytes.{Bytes}
use nrtb_redo.Triad.{Triad}
use nrtb_redo.Object.{Body}
use nrtb_redo.Queue.{Queue, Attempt, push}
use nrtb_redo.Queue

-- The virtual methods of `base_object` that the simulation calls.
pub record ObjectClass (F O : Type 0) : Type 0 where
  pub body : O → Body F
  pub with_body : Body F → O → O
  pub tick : F → O → Bool × O
  pub apply : F → O → Bool × O
  pub check_collision : O → O → F → Bool
  pub apply_collision : O → O → F → Bool × O × O
  pub as_str : O → Bytes
  pub clone : O → O

-- What a message's `void_p` points to; `data<T>()` at another type is undefined.
pub data Payload : Type 0 where
  an_object : ℕ → Payload
  an_id : ℕ → Payload
  no_data : Payload

-- `gp_sim_message`, without the return address, which the simulation does not read. The three `int`s
-- are kept as bit patterns.
pub record Message : Type 0 where
  pub msg_type : ℕ
  pub noun : ℕ
  pub verb : ℕ
  pub data_packet : Payload

pub data SimError : Type 0 where
  invalid_set_quanta already_running queue_not_ready null_data : SimError
  bad_msg bad_object_verb bad_control_verb bad_noun overrun : SimError

-- The end of a method: it returns, throws, blocks, or ends the program.
pub data Flow (S : Type 0) : Type 0 where
  go : S → Flow S
  throws : SimError → S → Flow S
  waits : S → Flow S
  terminates : Flow S
  undefined : Flow S

infixl 5 ◌>>>◌
abbrev pub ◌>>>◌ : {S : Type 0} → Flow S → (S → Flow S) → Flow S
go s >>> f = f s
throws e s >>> f = throws e s
waits s >>> f = waits s
terminates >>> f = terminates
undefined >>> f = undefined

-- `sensor_rec`
pub record Contact (F : Type 0) : Type 0 where
  pub type_ : ℕ
  pub id : ℕ
  pub location : Triad F
  pub velocity : Triad F
  pub radius : F

-- `clsn_rec`
pub record Clash : Type 0 where
  pub a : ℕ
  pub b : ℕ

pub record Report (F : Type 0) : Type 0 where
  pub quanta : ℕ
  pub duration : ℕ
  pub wallclock : F
  pub objects : List Bytes

-- The engine's `std::thread`: none, one that runs, one that ended and is not joined.
pub data Engine : Type 0 where
  no_thread active ended : Engine

pub record Sim (F O : Type 0) : Type 0 where
  pub messages : Queue Message
  pub end_run : Bool
  pub is_running : Bool
  pub quanta : ℕ
  pub quanta_duration : F
  pub engine : Engine
  pub all_objects : List (ℕ × ℕ)
  pub store : ℕ → O
  pub deletions : List ℕ
  pub c_list : List (Contact F)
  pub t_list : List (Contact F)
  pub worker_count : ℕ
  pub ticklist : Queue (List ℕ)
  pub applylist : Queue (List ℕ)
  pub clsn_work_list : Queue (List Clash)
  pub collisions : Queue Clash
  pub output : List (Report F)
  pub last_sleep : ℕ

-- `all_objects[id] = obj`, in the order of the ids.
unfoldable pub set_key : ℕ → ℕ → List (ℕ × ℕ) → List (ℕ × ℕ)
set_key k r [] = (k, r) ∷ []
set_key k r ((j, s) ∷ rest) =
    if k == j
    then (k, r) ∷ rest
    else if ltb k j
    then (k, r) ∷ (j, s) ∷ rest
    else (j, s) ∷ set_key k r rest

unfoldable pub find_key : ℕ → List (ℕ × ℕ) → Option ℕ
find_key k [] = none
find_key k ((j, r) ∷ rest) = if k == j then some r else find_key k rest

unfoldable pub erase_key : ℕ → List (ℕ × ℕ) → List (ℕ × ℕ)
erase_key k [] = []
erase_key k ((j, r) ∷ rest) = if k == j then rest else (j, r) ∷ erase_key k rest

abbrev pub refs : List (ℕ × ℕ) → List ℕ
refs [] = []
refs ((k, r) ∷ rest) = r ∷ refs rest

abbrev pub put : {O : Type 0} → ℕ → O → (ℕ → O) → ℕ → O
put r o store x = if x == r then o else store x

-- The message that `add_object` and `remove_obj` assemble.
abbrev pub order : ℕ → Payload → Message
order verb p = record { msg_type = 0; noun = 1; verb = verb; data_packet = p }

module _ {F O : Type 0} (c : ObjectClass F O) where
  unfoldable pub construct : F → (ℕ → O) → Sim F O
  construct time_slice store = record {
    messages = Queue.empty;
    end_run = false;
    is_running = false;
    quanta = 0;
    quanta_duration = time_slice;
    engine = no_thread;
    all_objects = [];
    store = store;
    deletions = [];
    c_list = [];
    t_list = [];
    worker_count = 2;
    ticklist = Queue.empty;
    applylist = Queue.empty;
    clsn_work_list = Queue.empty;
    collisions = Queue.empty;
    output = [];
    last_sleep = 0;
  }

  unfoldable pub size : Sim F O → ℕ
  size s = length s.all_objects

  unfoldable pub set_quanta : F → Sim F O → Flow (Sim F O)
  set_quanta time_slice s =
      if not s.is_running && (s.quanta == 0)
      then go (record s { quanta_duration = time_slice })
      else throws invalid_set_quanta s

  -- The queue's answer to a push, put back.
  abbrev pub pushed : Sim F O → Attempt (Queue Message) → Flow (Sim F O)
  pushed s (Queue.returns q) = go (record s { messages = q })
  pushed s Queue.waits = waits s
  pushed s Queue.queue_not_ready = throws queue_not_ready s
  pushed s Queue.undefined = undefined

  unfoldable pub put_message : Message → Sim F O → Flow (Sim F O)
  put_message m s = pushed s (push m s.messages)

  unfoldable pub add_object : ℕ → Sim F O → Flow (Sim F O)
  unfolding set_key put_message
  add_object r s =
      if s.is_running
      then put_message (order 1 (an_object r)) s
      else go (record s { all_objects = set_key (c.body (s.store r)).id r s.all_objects })

  unfoldable pub remove_obj : ℕ → Sim F O → Flow (Sim F O)
  unfolding erase_key put_message
  remove_obj oid s =
      if s.is_running
      then put_message (order 2 (an_id oid)) s
      else go (record s { all_objects = erase_key oid s.all_objects })

  -- Joining a thread that runs blocks.
  unfoldable pub stop_sim : Sim F O → Flow (Sim F O)
  stop_sim s = elim s.engine [
    | no_thread ↦ go (record s { end_run = true })
    | active ↦ waits (record s { end_run = true })
    | ended ↦ go (record s { end_run = true; engine = no_thread })
  ]

  -- Assigning to a `std::thread` that is joinable ends the program.
  unfoldable pub start_sim : ℕ → Sim F O → Flow (Sim F O)
  start_sim threads s = if s.is_running then throws already_running s else elim s.engine [
    | no_thread ↦ go (record s { worker_count = threads; engine = active })
    | _ ↦ terminates
  ]

  unfoldable pub running : Sim F O → Bool
  running s = elim s.engine [ no_thread ↦ false | _ ↦ true ]

  unfoldable pub obj_status : Sim F O → List Bytes
  obj_status s = map (λ r. c.as_str (s.store r)) (refs s.all_objects)

  unfoldable pub get_obj_copies : Sim F O → List (ℕ × O)
  get_obj_copies s = map (λ kr. (kr.0, c.clone (s.store kr.1))) s.all_objects

  unfoldable pub get_report : ℕ → F → Sim F O → Report F
  unfolding obj_status
  get_report ticks wt s = record {
    quanta = s.quanta;
    duration = ticks;
    wallclock = wt;
    objects = obj_status s;
  }

  -- `panopticon`: the contacts that callers get, and those being collected.
  unfoldable pub start_new : Sim F O → Sim F O
  start_new s = record s { t_list = [] }

  abbrev pub contact : O → Contact F
  contact o = record {
    type_ = (c.body o).object_type;
    id = (c.body o).id;
    location = (c.body o).location;
    velocity = (c.body o).velocity;
    radius = (c.body o).bounding_sphere.radius;
  }

  unfoldable pub add_contact : O → Sim F O → Sim F O
  add_contact o s = record s { t_list = s.t_list ++ (contact o ∷ []) }

  unfoldable pub done_adding : Sim F O → Sim F O
  done_adding s = record s { c_list = s.t_list }

  unfoldable pub contact_list : Sim F O → List (Contact F)
  contact_list s = s.c_list
