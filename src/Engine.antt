-- ===== src/Engine.antt =====
-- cpp/sim_engine/main/simengine.cpp: the number of a run, the thread that writes the reports to the
-- database, and the health check loop of `main` with the shutdown behind it.
pub mod Run
pub mod Due
pub mod Reports
pub mod Hangs
mod Tests
use nrtb_redo.Common.{
  ℕ, suc, ◌+◌, ◌*◌, ◌%◌, ◌^◌, Bool, true, false, not, ◌&&◌, ◌||◌, List, [], ◌∷◌, ◌++◌, Option, none,
  some, if◌then◌else◌, length, ltb, leb, ◌==◌,
}
use nrtb_redo.Common.Bytes.{Bytes}
use nrtb_redo.Common.Decimal.{show_nat}
use nrtb_redo.Common.Int
use nrtb_redo.Common.Int.{ℤ, pos}
use nrtb_redo.Common.Words.{u32_mod, u64_mod}
use nrtb_redo.Queue.{Queue, Attempt}
use nrtb_redo.Queue
use nrtb_redo.Sim.{Report}

-- The members of `std::tm` that `mk_run_id` reads; the year counts from 1900.
pub record Tm : Type 0 where
  pub tm_year : ℕ
  pub tm_yday : ℕ
  pub tm_hour : ℕ
  pub tm_min : ℕ
  pub tm_sec : ℕ

-- The seconds of the day.
abbrev pub secs : Tm → ℕ
secs now = now.tm_hour * 3600 + now.tm_min * 60 + now.tm_sec

unfoldable pub run_number : Tm → ℕ
run_number now = (now.tm_year * 31557600 + now.tm_yday * 24 * 3600 + secs now) % u64_mod

unfoldable pub mk_run_id : Tm → Bytes
unfolding run_number show_nat
mk_run_id now = show_nat (run_number now)

-- The conversion to `unsigned`.
abbrev pub unsigned : ℕ → ℕ
unsigned k = k % u32_mod

-- What is inserted for a report; the objects only if they are wanted.
pub record Document (F : Type 0) : Type 0 where
  pub quanta : ℕ
  pub obj_count : ℕ
  pub ticks : ℕ
  pub run_sec : F
  pub objects : Option (List Bytes)

-- The database as far as the writer changes it, and the queue of the reports.
pub record Writer (F : Type 0) : Type 0 where
  pub soq : Queue (Report F)
  pub documents : List (Document F)
  pub last_checkpoint : Option ℕ

-- The thread waits for a report, or it has ended.
pub data Writing (F : Type 0) : Type 0 where
  waiting ended : Writer F → Writing F

-- Whether the database takes an insertion and an update.
pub record Answer : Type 0 where
  pub inserted : Bool
  pub updated : Bool

-- `narrow` is the conversion of a double to a float.
module _ {F : Type 0} (narrow : F → F) (write_zeros write_bots : Bool) where
  unfoldable pub document : Report F → Document F
  document rep = record {
    quanta = unsigned rep.quanta;
    obj_count = unsigned (length rep.objects);
    ticks = unsigned rep.duration;
    run_sec = narrow rep.wallclock;
    objects = if write_bots then some rep.objects else none;
  }

  abbrev pub is_wanted : Report F → Bool
  is_wanted rep = write_zeros || not (length rep.objects == 0)

  abbrev pub is_checkpoint : Report F → Bool
  is_checkpoint rep = (rep.quanta % 50) == 0

  -- The database calls for a report, `none` if one of them throws.
  unfoldable pub insert : Answer → Report F → Writer F → Option (Writer F)
  unfolding document
  insert a rep w =
      if is_wanted rep
      then (if a.inserted
          then some (record w { documents = w.documents ++ (document rep ∷ []) })
          else none)
      else some w

  unfoldable pub checkpoint : Answer → Report F → Writer F → Option (Writer F)
  checkpoint a rep w =
      if is_checkpoint rep
      then (if a.updated
          then some (record w { last_checkpoint = some (unsigned rep.quanta) })
          else none)
      else some w

  abbrev pub and_checkpoint : Answer → Report F → Option (Writer F) → Option (Writer F)
  and_checkpoint a rep none = none
  and_checkpoint a rep (some w) = checkpoint a rep w

  -- `soq.task_done()`, and the next round.
  abbrev pub after_report : Writer F → Option (Writer F) → (Writer F → Writing F) → Writing F
  after_report v none next = ended v
  after_report v (some w) next = next (record w { soq = Queue.task_done w.soq })

  abbrev pub popped :
      Answer → Writer F → Attempt (Report F × Queue (Report F)) → (Writer F → Writing F) → Writing F
  popped a w Queue.waits next = waiting w
  popped a w Queue.queue_not_ready next = ended w
  popped a w Queue.undefined next = ended w
  popped a w (Queue.returns (rep, q)) next =
      let v : Writer F = record w { soq = q } in
      after_report v (and_checkpoint a rep (insert a rep v)) next

  -- One answer of the database for each report.
  unfoldable pub write_loop : List Answer → Writer F → Writing F
  unfolding insert checkpoint Queue.pop Queue.task_done
  write_loop [] w = waiting w
  write_loop (a ∷ answers) w = popped a w (Queue.pop w.soq) (write_loop answers)

  -- The thread, from the attempt to connect.
  unfoldable pub output_writer : Bool → List Answer → Writer F → Writing F
  unfolding write_loop
  output_writer connected answers w = if connected then write_loop answers w else ended w

-- What the health check sees after a tenth of a second. A thread that has ended and was not joined is
-- `joinable` all the same.
pub record Tock : Type 0 where
  pub user_exit_request : Bool
  pub sim_running : Bool
  pub listening : Bool
  pub writer_joinable : Bool

abbrev pub is_healthy : Tock → Bool
is_healthy k = k.sim_running && (k.listening && k.writer_joinable)

-- The number of rounds after which the loop has ended, if it has.
unfoldable pub health_loop : ℤ → ℕ → List Tock → Option ℕ
health_loop run_time tocks [] = none
health_loop run_time tocks (k ∷ ks) =
    let tocks1 : ℕ = tocks + 1 in
    let timed_out = Int.lt (pos 0) run_time && Int.le (Int.times run_time (pos 10)) (pos tocks1) in
    let rest = health_loop run_time tocks1 ks in
    if k.user_exit_request || (timed_out || not (is_healthy k)) then some tocks1 else rest

-- What `main` does with the queue of the reports at its end: it waits for the writer to finish them.
abbrev pub then_shut : {F : Type 0} → Attempt (Queue (Report F)) → Attempt (Queue (Report F))
then_shut (Queue.returns q) = Queue.returns (Queue.shutdown q)
then_shut Queue.waits = Queue.waits
then_shut Queue.queue_not_ready = Queue.queue_not_ready
then_shut Queue.undefined = Queue.undefined

unfoldable pub drain_output : {F : Type 0} → Queue (Report F) → Attempt (Queue (Report F))
unfolding Queue.join Queue.shutdown
drain_output soq = then_shut (Queue.join soq)
