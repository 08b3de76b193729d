-- ===== src/Sim/Init.antt =====
-- cpp/sim_engine/sim_core/sim_core.cpp, `turn_init`: the messages of a turn and the sweep of the dead.
use nrtb_redo.Common.{
  ℕ, zero, suc, ◌+◌, ◌≡◌, refl, ap, ◌∙◌, Bool, true, false, List, [], ◌∷◌, ◌++◌, Option, none, some,
  if◌then◌else◌, ◌==◌, Bool-cases, Option-cases, inl, inr, length, All, arith,
}
use nrtb_redo.Queue.{Queue, push, pop, clear}
use nrtb_redo.Queue
use nrtb_redo.Sim.{
  ObjectClass, Payload, an_object, an_id, no_data, Message, SimError, Flow, go, throws, waits,
  terminates, undefined, ◌>>>◌, Sim, set_key, find_key, put, order, put_message, add_object,
  remove_obj,
}
use nrtb_redo.Sim

module _ {F O : Type 0} (c : ObjectClass F O) where
  abbrev pub is_alive : O → Bool
  is_alive o = (c.body o).alive

  -- `o->alive = b`
  abbrev pub set_alive : Bool → O → O
  set_alive b o = c.with_body (record (c.body o) { alive = b }) o

  -- `all_objects[did]->alive = false`: a missing id gives a null pointer.
  unfoldable pub mark : Option ℕ → Sim F O → Flow (Sim F O)
  mark none s = undefined
  mark (some r) s = go (record s { store = put r (set_alive false (s.store r)) s.store })

  unfoldable pub verb_add : Payload → Sim F O → Flow (Sim F O)
  verb_add (an_object r) s =
      go (record s { all_objects = set_key (c.body (s.store r)).id r s.all_objects })
  verb_add (an_id i) s = undefined
  verb_add no_data s = throws Sim.null_data s

  unfoldable pub verb_rm : Payload → Sim F O → Flow (Sim F O)
  unfolding mark
  verb_rm (an_object r) s = undefined
  verb_rm (an_id did) s = mark (find_key did s.all_objects) s
  verb_rm no_data s = throws Sim.null_data s

  unfoldable pub object_noun : Message → Sim F O → Flow (Sim F O)
  unfolding verb_add verb_rm
  object_noun m s =
      if m.verb == 1
      then verb_add m.data_packet s
      else if m.verb == 2
      then verb_rm m.data_packet s
      else throws Sim.bad_object_verb s

  unfoldable pub control_noun : Message → Sim F O → Flow (Sim F O)
  control_noun m s =
      if m.verb == 1 then go (record s { end_run = true }) else throws Sim.bad_control_verb s

  -- The case of the control noun has no `break`, so the default case follows it.
  unfoldable pub handle : Message → Sim F O → Flow (Sim F O)
  unfolding object_noun control_noun
  handle m s =
      if m.msg_type == 0
      then if m.noun == 1
        then object_noun m s
        else if m.noun == 2
        then control_noun m s >>> throws Sim.bad_noun
        else throws Sim.bad_noun s
      else throws Sim.bad_msg s

  unfoldable pub process : ℕ → Sim F O → Flow (Sim F O)
  unfolding handle
  process zero s = go s
  process (suc i) s = elim (pop s.messages) [
    | Queue.returns (m, q) ↦ handle m (record s { messages = q }) >>> process i
    | Queue.waits ↦ waits s
    | Queue.queue_not_ready ↦ throws Sim.queue_not_ready s
    | Queue.undefined ↦ undefined
  ]

  -- `erase` inside the range loop leaves the loop's iterator dangling.
  unfoldable pub sweep : List (ℕ × ℕ) → Sim F O → Flow (Sim F O)
  sweep [] s = go s
  sweep ((k, r) ∷ rest) s =
      let rest_swept = sweep rest s in if is_alive (s.store r) then rest_swept else undefined

  -- What follows the messages.
  unfoldable pub clean_up : Sim F O → Flow (Sim F O)
  unfolding sweep
  clean_up s1 =
      sweep s1.all_objects (record s1 { collisions = clear s1.collisions })
      >>> (λ s2. go (record s2 { deletions = [] }))

  unfoldable pub turn_init : Sim F O → Flow (Sim F O)
  unfolding process clean_up
  turn_init s = process (Queue.size s.messages) s >>> clean_up

  -- The messages are open and hold exactly these.
  abbrev pub Holds : List Message → Sim F O → Type 0
  Holds ms s = (s.messages.ready ≡ true) × (s.messages.blocked ≡ false) × (s.messages.buffer ≡ ms)

  -- The queue without its oldest message.
  abbrev pub popped : List Message → Queue Message → Queue Message
  popped ms q = record q { buffer = ms; out_count = Queue.wrap (q.out_count + 1) }

  pop_head :
      (m : Message) (ms : List Message) (s : Sim F O)
      → Holds (m ∷ ms) s
      → pop s.messages ≡ Queue.returns (m, popped ms s.messages)
  unfolding pop
  pop_head m ms s (a, b, d) = rw (a, b, d) refl

  -- `turn_init` deals with the oldest message, and goes on with the rest.
  turn_init_head :
      (m : Message) (ms : List Message) (s : Sim F O)
      → Holds (m ∷ ms) s
      → turn_init s ≡ (
          handle m (record s { messages = popped ms s.messages })
          >>> process (length ms)
          >>> clean_up)
  unfolding turn_init process Queue.size
  turn_init_head m ms s v =
      ap (λ n. process n s >>> clean_up) (ap length v.2) ∙ rw (pop_head m ms s v, ◌>>>◌) refl

  -- On a queue of messages that is open, not held, and has a control message (type 0, noun 2) in front,
  -- `turn_init` always throws: for a stop (verb 1), which is handled first, that the noun is bad, and
  -- for any other verb, that the verb is.
  pub turn_init_control :
      (m : Message) (ms : List Message) (s : Sim F O)
      → Holds (m ∷ ms) s
      → m.msg_type ≡ 0
      → m.noun ≡ 2
      → turn_init s ≡ (
          if m.verb == 1
          then throws Sim.bad_noun (record s { messages = popped ms s.messages; end_run = true })
          else throws Sim.bad_control_verb (record s { messages = popped ms s.messages }))
  unfolding handle control_noun
  turn_init_control m ms s v e f =
      turn_init_head m ms s v
      ∙ rw (e, f) elim (Bool-cases (m.verb == 1)) [ inl g ↦ rw g refl | inr g ↦ rw g refl ]

  sweep_dead :
      (k r : ℕ) (l : List (ℕ × ℕ)) (s : Sim F O)
      → find_key k l ≡ some r
      → is_alive (s.store r) ≡ false
      → sweep l s ≡ undefined
  unfolding find_key sweep
  sweep_dead k r [] s e f = absurd (ground arith)
  sweep_dead k r ((j, x) ∷ rest) s e f = ground (arith, sweep_dead k r rest s)

  sweep_alive :
      (l : List (ℕ × ℕ)) (s : Sim F O)
      → All (λ (kr : ℕ × ℕ). is_alive (s.store kr.1) ≡ true) l
      → sweep l s ≡ go s
  unfolding sweep
  sweep_alive [] s v = refl
  sweep_alive ((j, x) ∷ rest) s (v, vs) = rw (v, sweep_alive rest s vs) refl

  abbrev pub queued : Message → Sim F O → Sim F O
  queued m s = record s {
    messages = record s.messages {
      buffer = s.messages.buffer ++ (m ∷ []);
      in_count = Queue.wrap (s.messages.in_count + 1);
    };
  }

  pub put_message_open :
      (m : Message) (s : Sim F O) → s.messages.ready ≡ true → put_message c m s ≡ go (queued m s)
  unfolding put_message push Queue.store Queue.count_in
  put_message_open m s e = rw e refl

  after_process : (f : Flow (Sim F O)) → (f >>> process zero) ≡ f
  unfolding process
  after_process (go s) = refl
  after_process (throws e s) = refl
  after_process (waits s) = refl
  after_process terminates = refl
  after_process undefined = refl

  turn_init_one :
      (m : Message) (s : Sim F O)
      → Holds [] s
      → turn_init (queued m s)
        ≡ (handle m (record s { messages = popped [] (queued m s).messages }) >>> clean_up)
  turn_init_one m s v =
      turn_init_head m [] (queued m s) (v.0, v.1, ap (λ b. b ++ (m ∷ [])) v.2)
      ∙ ap (λ f. f >>> clean_up)
          (after_process (handle m (record s { messages = popped [] (queued m s).messages })))

  pub then_branch : {A : Type 0} (b : Bool) (x y : A) → b ≡ true → (if b then x else y) ≡ x
  then_branch b x y e = rw e refl

  pub remove_obj_running :
      (i : ℕ) (s : Sim F O)
      → s.is_running ≡ true
      → s.messages.ready ≡ true
      → remove_obj c i s ≡ go (queued (order 2 (an_id i)) s)
  unfolding remove_obj
  remove_obj_running i s run e =
      then_branch s.is_running (put_message c (order 2 (an_id i)) s) _ run
      ∙ put_message_open (order 2 (an_id i)) s e

  pub add_object_running :
      (r : ℕ) (s : Sim F O)
      → s.is_running ≡ true
      → s.messages.ready ≡ true
      → add_object c r s ≡ go (queued (order 1 (an_object r)) s)
  unfolding add_object
  add_object_running r s run e =
      then_branch s.is_running (put_message c (order 1 (an_object r)) s) _ run
      ∙ put_message_open (order 1 (an_object r)) s e

  mark-clean_up :
      (i : ℕ) (s : Sim F O)
      → ((o : O) → is_alive (set_alive false o) ≡ false)
      → (mark (find_key i s.all_objects) s >>> clean_up) ≡ undefined
  unfolding mark clean_up
  mark-clean_up i s law = elim (Option-cases (find_key i s.all_objects)) [
    | inl e ↦ rw e refl
    | inr (r, e) ↦
        ap (λ found. mark found s >>> clean_up) e
        ∙ ap (λ f. f >>> (λ s2. go (record s2 { deletions = [] })))
            (sweep_dead i r s.all_objects _ e (ground (arith, law (s.store r))))
  ]

  -- While the simulation runs, its messages are open, not held and empty, and clearing an
  -- object's alive flag leaves it cleared: when `turn_init` follows `remove_obj`, the program's
  -- behaviour is undefined, whatever the id. An id in the list leaves a dead object, which the
  -- sweep erases under its own iterator; for another id a null pointer is followed.
  pub remove_obj-turn_init :
      (i : ℕ) (s : Sim F O)
      → s.is_running ≡ true
      → Holds [] s
      → ((o : O) → is_alive (set_alive false o) ≡ false)
      → (remove_obj c i s >>> turn_init) ≡ undefined
  remove_obj-turn_init i s run v law =
      ap (λ f. f >>> turn_init) (remove_obj_running i s run v.0)
      ∙ turn_init_one (order 2 (an_id i)) s v
      ∙ unfold handle object_noun verb_rm in mark-clean_up i _ law

  -- While the simulation runs, its messages are open, not held and empty, and every object is
  -- alive, the new one too: the list of objects after `add_object` and `turn_init` is the one
  -- that `add_object` makes at once on a simulation that does not run, the collisions are gone,
  -- and nothing else of the state is different but the message counters and the deletions.
  pub add_object-turn_init :
      (r : ℕ) (s : Sim F O)
      → s.is_running ≡ true
      → Holds [] s
      → All
          (λ (kr : ℕ × ℕ). is_alive (s.store kr.1) ≡ true)
          (set_key (c.body (s.store r)).id r s.all_objects)
      → ((add_object c r s >>> turn_init)
          ≡ go (record s {
            messages = popped [] (queued (order 1 (an_object r)) s).messages;
            all_objects = set_key (c.body (s.store r)).id r s.all_objects;
            collisions = clear s.collisions;
            deletions = [];
          }))
        × (add_object c r (record s { is_running = false })
            ≡ go (record s {
              is_running = false;
              all_objects = set_key (c.body (s.store r)).id r s.all_objects;
            }))
  add_object-turn_init r s run v alive = (
    ap (λ f. f >>> turn_init) (add_object_running r s run v.0)
        ∙ turn_init_one (order 1 (an_object r)) s v
        ∙ unfold handle object_noun verb_add clean_up in
          ap (λ f. f >>> (λ s2. go (record s2 { deletions = [] })))
            (sweep_alive (set_key (c.body (s.store r)).id r s.all_objects) _ alive),
    unfold add_object in refl,
  )
