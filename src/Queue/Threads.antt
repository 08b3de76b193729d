-- ===== src/Queue/Threads.antt =====
-- The producers and workers around one queue, one step for each action on an atomic or under the
-- mutex of cpp/common/abs_queue/abs_queue.h. `push` is three steps: it reads `ready`, then counts,
-- then stores under the lock, so a `shutdown` or a `clear` may come in between.
pub mod Account
pub mod Order
mod Tests
use nrtb_redo.Common.{
  ℕ, suc, ◌+◌, ◌≡◌, refl, Bool, true, false, List, [], ◌∷◌, ◌++◌, map, length, arith,
}
use nrtb_redo.Queue.{
  Queue, Attempt, returns, queue_not_ready, empty, count_in, store, pop, hold, release, shutdown,
  clear, task_done,
}

-- What became of an item that was stored.
pub data Fate {ℓ} (A : Type ℓ) : Type ℓ where
  delivered : A → Fate A
  dropped : A → Fate A

-- `admitted` and `counted` hold the items of the producers behind `if (ready)` and behind
-- `in_count++`; `working` those of the workers between `pop` and `task_done`.
-- `stored`, `gone` and `finished` record the history and steer nothing.
pub record Threads {ℓ} (A : Type ℓ) : Type ℓ where
  pub queue : Queue A
  pub admitted : List A
  pub counted : List A
  pub working : List A
  pub stored : List A
  pub gone : List (Fate A)
  pub finished : ℕ

module _ {ℓ} {A : Type ℓ} where
  abbrev pub item : Fate A → A
  item (delivered a) = a
  item (dropped a) = a

  abbrev pub deliveries : List (Fate A) → List A
  deliveries [] = []
  deliveries (delivered a ∷ fs) = a ∷ deliveries fs
  deliveries (dropped a ∷ fs) = deliveries fs

  abbrev pub drops : List (Fate A) → List A
  drops [] = []
  drops (delivered a ∷ fs) = drops fs
  drops (dropped a ∷ fs) = a ∷ drops fs

  pub start : Threads A
  start = record {
    queue = empty;
    admitted = [];
    counted = [];
    working = [];
    stored = [];
    gone = [];
    finished = 0;
  }

  pub data Step (s : Threads A) : Threads A → Type ℓ where
    admit : (a : A) → s.queue.ready ≡ true → Step s (record s { admitted = a ∷ s.admitted })
    refuse : (a : A) → s.queue.ready ≡ false → Step s s
    count :
        (pre : List A) (a : A) (post : List A)
        → s.admitted ≡ pre ++ (a ∷ post)
        → Step s
            (record s { queue = count_in s.queue; admitted = pre ++ post; counted = a ∷ s.counted })
    put :
        (pre : List A) (a : A) (post : List A)
        → s.counted ≡ pre ++ (a ∷ post)
        → Step s (record s {
          queue = store a s.queue;
          counted = pre ++ post;
          stored = s.stored ++ (a ∷ []);
        })
    take :
        (a : A) (q : Queue A)
        → pop s.queue ≡ returns (a, q)
        → Step s
            (record s { queue = q; working = a ∷ s.working; gone = s.gone ++ (delivered a ∷ []) })
    turned_away : pop s.queue ≡ queue_not_ready → Step s s
    finish :
        (pre : List A) (a : A) (post : List A)
        → s.working ≡ pre ++ (a ∷ post)
        → Step s (record s {
          queue = task_done s.queue;
          working = pre ++ post;
          finished = s.finished + 1;
        })
    hold_queue : Step s (record s { queue = hold s.queue })
    release_queue : Step s (record s { queue = release s.queue })
    clear_queue :
        Step s (record s { queue = clear s.queue; gone = s.gone ++ map dropped s.queue.buffer })
    shut_down :
        Step s (record s { queue = shutdown s.queue; gone = s.gone ++ map dropped s.queue.buffer })

  pub data Run (s : Threads A) : Threads A → Type ℓ where
    here : Run s s
    next : {t u : Threads A} → Run s t → Step t u → Run s u
