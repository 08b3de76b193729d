-- ===== src/Engine/Tests.antt =====
-- The theorems about the main program, at a few reports and two times.
use nrtb_redo.Common.{ℕ, ◌+◌, ◌≡◌, refl, true, false, [], ◌∷◌, ◌++◌, none, inl, arith}
use nrtb_redo.Common.Int.{ℤ, pos}
use nrtb_redo.Queue
use nrtb_redo.Queue.{Queue}
use nrtb_redo.Sim.{Report}
use nrtb_redo.Engine.{
  Tm, secs, mk_run_id, Writer, Answer, ended, output_writer, write_loop, drain_output,
}
use nrtb_redo.Engine.Run.{IsTime, mk_run_id_lem}
use nrtb_redo.Engine.Reports.{IsSettled, IsWritten, output_writer-IsWritten}
use nrtb_redo.Engine.Hangs.{write_loop-hangs}
use nrtb_redo.Sim.Workers.{push_all}

-- The last day of the year 2024, and the first of the next.
abbrev last_day : Tm
last_day = record { tm_year = 124; tm_yday = 365; tm_hour = 7; tm_min = 30; tm_sec = 0 }

abbrev first_day : Tm
first_day = record { tm_year = 125; tm_yday = 0; tm_hour = 1; tm_min = 30; tm_sec = 0 }

last_day-IsTime : IsTime last_day
last_day-IsTime = record {
  year = omega arith;
  day = omega arith;
  hour = omega arith;
  minute = omega arith;
  second = omega arith;
}

first_day-IsTime : IsTime first_day
first_day-IsTime = record {
  year = omega arith;
  day = omega arith;
  hour = omega arith;
  minute = omega arith;
  second = omega arith;
}

mk_run_id_lem_example :
    (last_day.tm_year ≡ first_day.tm_year
      → mk_run_id last_day ≡ mk_run_id first_day
      → (last_day.tm_yday ≡ first_day.tm_yday) × (secs last_day ≡ secs first_day))
    × (last_day.tm_yday ≡ 365
        → first_day.tm_year ≡ last_day.tm_year + 1
        → first_day.tm_yday ≡ 0
        → secs last_day ≡ secs first_day + 21600
        → mk_run_id last_day ≡ mk_run_id first_day)
mk_run_id_lem_example = mk_run_id_lem last_day first_day last_day-IsTime first_day-IsTime

abbrev report : ℕ → Report ℤ
report k = record { quanta = k; duration = 20; wallclock = pos 1; objects = [] }

-- Two reports wait, and both were counted.
abbrev writer : Writer ℤ
writer = record {
  soq = record {
    buffer = report 50 ∷ report 51 ∷ [];
    in_count = 2;
    out_count = 0;
    completed = 0;
    ready = true;
    blocked = false;
  };
  documents = [];
  last_checkpoint = none;
}

writer-IsSettled : IsSettled writer.soq
writer-IsSettled = record { open_queue = refl; free = refl; counted = refl; small = omega arith }

abbrev good : Answer
good = record { inserted = true; updated = true }

abbrev refused : Answer
refused = record { inserted = false; updated = true }

output_writer-IsWritten_example :
    IsWritten
      (λ a. a)
      true
      true
      writer
      (report 50 ∷ report 51 ∷ [])
      (output_writer (λ a. a) true true true (good ∷ good ∷ []) writer)
output_writer-IsWritten_example =
    output_writer-IsWritten (λ a. a) true true (report 50 ∷ report 51 ∷ []) (good ∷ good ∷ [])
      writer refl writer-IsSettled ((refl, refl), ((refl, refl), tt)) (omega arith)

write_loop-hangs_example :
    (out : Writer ℤ) × (write_loop (λ a. a) true true ((good ∷ []) ++ (refused ∷ [])) writer
      ≡ ended out)
    × ((q : Queue (Report ℤ)) × (push_all (report 52 ∷ []) out.soq ≡ Queue.returns q)
        × (drain_output q ≡ Queue.waits))
write_loop-hangs_example =
    write_loop-hangs (λ a. a) true true (report 50 ∷ []) [] (report 52 ∷ []) (report 51) (good ∷ [])
      refused [] writer refl writer-IsSettled ((refl, refl), tt) refl (inl (inl refl, refl))
      (omega arith)
