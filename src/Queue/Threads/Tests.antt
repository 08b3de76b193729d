-- ===== src/Queue/Threads/Tests.antt =====
-- Runs of a few threads around one queue, and the theorems at them.
use nrtb_redo.Common.{ℕ, ◌≡◌, refl, ◌↔◌, true, false, [], ◌∷◌, arith}
use nrtb_redo.Queue.{waits, is_joined, count_in, store, pop, join, empty, clear, task_done}
use nrtb_redo.Queue.Threads.{
  Threads, Run, here, next, start, admit, count, put, take, finish, clear_queue, drops, delivered,
  dropped,
}
use nrtb_redo.Queue.Threads.Account.{join_iff, join_never}
use nrtb_redo.Queue.Threads.Order.{IsFifo, start-Run-IsFifo}

abbrev stored_7 : Threads ℕ
stored_7 = record {
  queue = record {
    buffer = 7 ∷ [];
    in_count = 1;
    out_count = 0;
    completed = 0;
    ready = true;
    blocked = false;
  };
  admitted = [];
  counted = [];
  working = [];
  stored = 7 ∷ [];
  gone = [];
  finished = 0;
}

abbrev served_7 : Threads ℕ
served_7 = record {
  queue = record {
    buffer = [];
    in_count = 1;
    out_count = 1;
    completed = 1;
    ready = true;
    blocked = false;
  };
  admitted = [];
  counted = [];
  working = [];
  stored = 7 ∷ [];
  gone = delivered 7 ∷ [];
  finished = 1;
}

abbrev cleared_7 : Threads ℕ
cleared_7 = record stored_7 {
  queue = record {
    buffer = [];
    in_count = 1;
    out_count = 0;
    completed = 0;
    ready = true;
    blocked = false;
  };
  gone = dropped 7 ∷ [];
}

Run-stored_7 : Run start stored_7
unfolding start empty count_in store
Run-stored_7 = next (next (next here (admit 7 refl)) (count [] 7 [] refl)) (put [] 7 [] refl)

Run-served_7 : Run start served_7
unfolding start empty count_in store pop task_done
Run-served_7 = next (next Run-stored_7 (take 7 _ refl)) (finish [] 7 [] refl)

Run-cleared_7 : Run start cleared_7
unfolding clear
Run-cleared_7 = next Run-stored_7 clear_queue

join_iff_example : (is_joined served_7.queue ≡ true) ↔ (
    (served_7.counted ≡ [])
    × (served_7.queue.buffer ≡ [])
    × (drops served_7.gone ≡ [])
    × (served_7.working ≡ []))
join_iff_example = join_iff Run-served_7 (omega arith)

join_never_example : join cleared_7.queue ≡ waits
join_never_example = join_never Run-cleared_7 (omega arith) here (omega arith)

start-Run-IsFifo_example : IsFifo served_7
start-Run-IsFifo_example = start-Run-IsFifo Run-served_7
