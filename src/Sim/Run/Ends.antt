-- ===== src/Sim/Run/Ends.antt =====
-- cpp/sim_engine/sim_core/sim_core.cpp: how `run_sim` ends, what is left, and the sleep of a turn.
use nrtb_redo.Common.{
  ℕ, ◌+◌, ◌-◌, ◌<◌, ◌≡◌, refl, ap, ◌∙◌, Bool, true, false, ◌||◌, List, [], ◌∷◌, ◌++◌, if◌then◌else◌,
  leb, ◌%◌, arith,
}
use nrtb_redo.Common.Words.{u32_mod, u64_mod, add64}
use nrtb_redo.Floats.{Floats}
use nrtb_redo.Queue.{shutdown, drain-eq-nil}
use nrtb_redo.Sim.{
  ObjectClass, Message, Payload, SimError, Flow, go, throws, waits, terminates, undefined, ◌>>>◌,
  Sim, running, start_sim, stop_sim, Report, Engine, no_thread, active, ended, get_report,
}
use nrtb_redo.Sim
use nrtb_redo.Sim.Init.{turn_init, turn_init_control, popped}
use nrtb_redo.Sim.Run.{
  Surroundings, run_sim, close_out, caught, loop, arrive, report, sleep, turn, turn_end, tick,
  resolve_collisions,
}

-- After a run: the flag is off, the four work queues are shut down and empty, and yet the thread waits
-- to be joined, so that `running()` says true.
pub record IsClosed {F O : Type 0} (s : Sim F O) : Type 0 where
  pub flag_off : s.is_running ≡ false
  pub ticks_shut : (s.ticklist.ready ≡ false) × (s.ticklist.buffer ≡ [])
  pub applies_shut : (s.applylist.ready ≡ false) × (s.applylist.buffer ≡ [])
  pub checks_shut : (s.clsn_work_list.ready ≡ false) × (s.clsn_work_list.buffer ≡ [])
  pub collisions_shut : (s.collisions.ready ≡ false) × (s.collisions.buffer ≡ [])
  pub joinable : s.engine ≡ ended

module _ {F O : Type 0} ⦃n : Floats F⦄ (c : ObjectClass F O) (ticks_of : F → ℕ) where
  close_out-IsClosed : (s : Sim F O) → IsClosed (close_out c ticks_of s)
  unfolding close_out shutdown
  close_out-IsClosed s = record {
    flag_off = refl;
    ticks_shut = (refl, drain-eq-nil s.ticklist.buffer);
    applies_shut = (refl, drain-eq-nil s.applylist.buffer);
    checks_shut = (refl, drain-eq-nil s.clsn_work_list.buffer);
    collisions_shut = (refl, drain-eq-nil s.collisions.buffer);
    joinable = refl;
  }

  -- The state in which the loop starts.
  abbrev begun : Sim F O → Sim F O
  begun s = record (report c ticks_of 0 n.nought (record s { is_running = true })) { quanta = 0 }

  then_branch : {A : Type 0} (b : Bool) (x y : A) → b ≡ true → (if b then x else y) ≡ x
  then_branch b x y e = rw e refl

  -- The test at the head of the loop, after the other threads.
  abbrev head : Surroundings F → List (Surroundings F) → ℕ → ℕ → Sim F O → Flow (Sim F O)
  head w ws ticks nexttime s1 =
      if s1.end_run
      then go s1
      else (turn c ticks_of w ticks nexttime s1 >>> loop c ticks_of ws ticks (add64 nexttime ticks))

  loop_quiet :
      (w : Surroundings F) (ws : List (Surroundings F)) (ticks nexttime : ℕ) (b : Bool)
      (s : Sim F O)
      → s.end_run ≡ b
      → w.arrivals ≡ []
      → loop c ticks_of (w ∷ ws) ticks nexttime s
        ≡ head w ws ticks nexttime (record s { end_run = b || w.stops })
  unfolding loop arrive
  loop_quiet w ws ticks nexttime b s e quiet =
      ap
        (λ ms.
          head w ws ticks nexttime
            (arrive c ticks_of ms (record s { end_run = s.end_run || w.stops })))
        quiet
      ∙ ap (λ a. head w ws ticks nexttime (record s { end_run = a || w.stops })) e

  loop_stopped :
      (w : Surroundings F) (ws : List (Surroundings F)) (ticks nexttime : ℕ) (s : Sim F O)
      → s.end_run ≡ true
      → w.arrivals ≡ []
      → loop c ticks_of (w ∷ ws) ticks nexttime s ≡ go (record s { end_run = true })
  loop_stopped w ws ticks nexttime s e quiet = loop_quiet w ws ticks nexttime true s e quiet

  -- A simulation that a run has closed, with a thread still to be joined: another `start_sim`
  -- ends the program. After `stop_sim`, `start_sim` starts a thread, but `end_run` is still set
  -- and nothing clears it: if no message arrives, the new run ends before its first turn, closed
  -- again, with the quanta at 0, the objects as they were, and just the initial report put out.
  pub restart :
      (s : Sim F O) (threads : ℕ) (w : Surroundings F) (ws : List (Surroundings F))
      → IsClosed s
      → w.arrivals ≡ []
      → (running c s ≡ true)
        × (start_sim c threads s ≡ terminates)
        × ((s' : Sim F O) × (t : Sim F O) × ((stop_sim c s >>> start_sim c threads) ≡ go s')
            × (run_sim c ticks_of (w ∷ ws) s' ≡ go t)
            × IsClosed t
            × (t.quanta ≡ 0)
            × (t.all_objects ≡ s.all_objects)
            × (t.store ≡ s.store)
            × (t.output ≡ s.output ++ (get_report c 0 n.nought s ∷ [])))
  unfolding report
  restart s threads w ws v quiet =
      let s' = record s { end_run = true; engine = active; worker_count = threads } in
      let stopped =
        loop_stopped w ws (ticks_of s.quanta_duration) (ticks_of s.quanta_duration) (begun s') refl
          quiet in
      (
        unfold running in rw v.joinable refl,
        unfold start_sim in rw (v.flag_off, v.joinable) refl,
        (
          s',
          close_out c ticks_of (begun s'),
          unfold stop_sim start_sim in rw (v.joinable, v.flag_off) refl,
          unfold run_sim in ap (caught c ticks_of) stopped,
          close_out-IsClosed (begun s'),
          unfold close_out in refl,
          unfold close_out report in refl,
          unfold close_out report in refl,
          unfold close_out report get_report in refl,
        ),
      )

  turn_throws :
      (w : Surroundings F) (ticks nexttime : ℕ) (s t : Sim F O) (e : SimError)
      → turn_init c (record s { quanta = add64 s.quanta 1 }) ≡ throws e t
      → turn c ticks_of w ticks nexttime s ≡ throws e t
  unfolding turn
  turn_throws w ticks nexttime s t e thrown =
      ap
        (λ f.
          f
          >>> tick c ticks_of w
          >>> resolve_collisions c ticks_of
          >>> turn_end c ticks_of w ticks nexttime)
        thrown

  -- A run that no other thread stops or sends to, whose messages are open, not held, and begin
  -- with the stop message (type 0, noun 2, verb 1): it ends, closed, in its first turn, by the
  -- exception of `turn_init`. No object is worked on, the turn is counted but not reported, and
  -- `end_run` is set.
  pub run_sim_stop_message :
      (s : Sim F O) (p : Payload) (ms : List Message) (w : Surroundings F)
      (ws : List (Surroundings F))
      → s.end_run ≡ false
      → w.stops ≡ false
      → w.arrivals ≡ []
      → s.messages.ready ≡ true
      → s.messages.blocked ≡ false
      → s.messages.buffer ≡ record { msg_type = 0; noun = 2; verb = 1; data_packet = p } ∷ ms
      → (t : Sim F O) × (run_sim c ticks_of (w ∷ ws) s ≡ go t)
        × IsClosed t
        × (t.end_run ≡ true)
        × (t.quanta ≡ 1)
        × (t.messages.buffer ≡ ms)
        × (t.all_objects ≡ s.all_objects)
        × (t.store ≡ s.store)
        × (t.output ≡ s.output ++ (get_report c 0 n.nought s ∷ []))
  unfolding report
  run_sim_stop_message s p ms w ws e no_stop quiet opened free front =
      let ticks = ticks_of s.quanta_duration in
      let first = record (begun s) { end_run = false; quanta = 1 } in
      let stop : Message = record { msg_type = 0; noun = 2; verb = 1; data_packet = p } in
      let t = record first { messages = popped c ms s.messages; end_run = true } in
      let thrown = turn_init_control c stop ms first (opened, free, front) refl refl in
      let run =
        loop_quiet w ws ticks ticks false (begun s) e quiet
        ∙ ap (λ b. head w ws ticks ticks (record (begun s) { end_run = b })) no_stop
        ∙ ap (λ f. f >>> loop c ticks_of ws ticks (add64 ticks ticks))
            (turn_throws w ticks ticks (record (begun s) { end_run = false }) t Sim.bad_noun
              thrown) in
      (
        close_out c ticks_of t,
        unfold run_sim in ap (caught c ticks_of) run,
        close_out-IsClosed t,
        unfold close_out in refl,
        unfold close_out in refl,
        unfold close_out in refl,
        unfold close_out in refl,
        unfold close_out in refl,
        unfold close_out get_report in refl,
      )

  -- The sleep at the end of a turn, for 64-bit times of which the clock's is not 2 ^ 32 microseconds past
  -- the other: on time, what is left until the next turn, in 32 bits; late, 2 ^ 32 less the delay.
  pub sleep_lem :
      (nexttime wall : ℕ) (s : Sim F O)
      → nexttime < u64_mod
      → wall < u64_mod
      → wall < nexttime + u32_mod
      → (sleep c ticks_of nexttime wall s).last_sleep
        ≡ (if leb wall nexttime then (nexttime - wall) % u32_mod else u32_mod - (wall - nexttime))
  unfolding sleep
  sleep_lem nexttime wall s h k near = ground arith
