-- ===== src/Queue/Threads/Order.antt =====
-- The order in which items leave the queue, and what `shutdown` stops for good.
use nrtb_redo.Common.{
  ◌≡◌, refl, ap, ◌∙◌, false, List, [], ◌∷◌, ◌++◌, append_assoc, append-nil, map, arith,
}
use nrtb_redo.Queue.{
  Queue, queue_not_ready, count_in, store, pop, pop-returns, push, hold, release, shutdown, clear,
  drain-eq-nil, task_done, empty,
}
use nrtb_redo.Queue.Threads.{
  Fate, delivered, dropped, Threads, item, deliveries, start, Step, admit, refuse, count, put, take,
  turned_away, finish, hold_queue, release_queue, clear_queue, shut_down, Run, here, next,
}

module _ {ℓ} {A : Type ℓ} where
  map-item-append : (fs gs : List (Fate A)) → map item (fs ++ gs) ≡ map item fs ++ map item gs
  map-item-append [] gs = refl
  map-item-append (f ∷ fs) gs = ap (◌∷◌ (item f)) (map-item-append fs gs)

  map-item-dropped : (xs : List A) → map item (map dropped xs) ≡ xs
  map-item-dropped [] = refl
  map-item-dropped (x ∷ xs) = ap (◌∷◌ x) (map-item-dropped xs)

  -- What was stored is what left, in that order, followed by what is buffered.
  abbrev pub IsFifo : Threads A → Type ℓ
  IsFifo s = s.stored ≡ map item s.gone ++ s.queue.buffer

  start-IsFifo : IsFifo start
  unfolding start empty
  start-IsFifo = refl

  emptied :
      (s : Threads A) → IsFifo s → s.stored ≡ map item (s.gone ++ map dropped s.queue.buffer) ++ []
  emptied s v = rw (append-nil, map-item-append, map-item-dropped) v

  Step-IsFifo : {s t : Threads A} → Step s t → IsFifo s → IsFifo t
  unfolding count_in store hold release shutdown clear task_done
  Step-IsFifo (admit a h) v = v
  Step-IsFifo (refuse a h) v = v
  Step-IsFifo (count pre a post e) v = v
  Step-IsFifo {s} (put pre a post e) v =
      ap (λ xs. xs ++ (a ∷ [])) v ∙ append_assoc (map item s.gone) s.queue.buffer (a ∷ [])
  Step-IsFifo {s} (take a q e) v =
      rw (map-item-append, append_assoc)
        (v ∙ ap (◌++◌ (map item s.gone)) (pop-returns s.queue a q e).2)
  Step-IsFifo (turned_away e) v = v
  Step-IsFifo (finish pre a post e) v = v
  Step-IsFifo hold_queue v = v
  Step-IsFifo release_queue v = v
  Step-IsFifo {s} clear_queue v = rw drain-eq-nil (emptied s v)
  Step-IsFifo {s} shut_down v = rw drain-eq-nil (emptied s v)

  Run-IsFifo : {s t : Threads A} → Run s t → IsFifo s → IsFifo t
  Run-IsFifo here v = v
  Run-IsFifo (next r st) v = Step-IsFifo st (Run-IsFifo r v)

  -- In every run from the new queue the items leave in the order in which they were stored, each
  -- once, whether a worker got it or `clear` or `shutdown` dropped it; the rest is the buffer.
  pub start-Run-IsFifo : {t : Threads A} → Run start t → IsFifo t
  start-Run-IsFifo r = Run-IsFifo r start-IsFifo

  pub record IsShut (d : List A) (s : Threads A) : Type ℓ where
    pub closed : s.queue.ready ≡ false
    pub frozen : deliveries s.gone ≡ d

  deliveries-append-dropped :
      (fs : List (Fate A)) (xs : List A) → deliveries (fs ++ map dropped xs) ≡ deliveries fs
  deliveries-append-dropped [] [] = refl
  deliveries-append-dropped [] (x ∷ xs) = deliveries-append-dropped [] xs
  deliveries-append-dropped (delivered a ∷ fs) xs = ap (◌∷◌ a) (deliveries-append-dropped fs xs)
  deliveries-append-dropped (dropped a ∷ fs) xs = deliveries-append-dropped fs xs

  Step-IsShut : {s t : Threads A} (d : List A) → Step s t → IsShut d s → IsShut d t
  unfolding count_in store hold release shutdown clear task_done
  Step-IsShut d (admit a h) v = record { closed = v.closed; frozen = v.frozen }
  Step-IsShut d (refuse a h) v = v
  Step-IsShut d (count pre a post e) v = record { closed = v.closed; frozen = v.frozen }
  Step-IsShut d (put pre a post e) v = record { closed = v.closed; frozen = v.frozen }
  Step-IsShut {s} d (take a q e) v = cc ((pop-returns s.queue a q e).0, v.closed)
  Step-IsShut d (turned_away e) v = v
  Step-IsShut d (finish pre a post e) v = record { closed = v.closed; frozen = v.frozen }
  Step-IsShut d hold_queue v = record { closed = v.closed; frozen = v.frozen }
  Step-IsShut d release_queue v = record { closed = v.closed; frozen = v.frozen }
  Step-IsShut {s} d clear_queue v = record {
    closed = v.closed;
    frozen = deliveries-append-dropped s.gone s.queue.buffer ∙ v.frozen;
  }
  Step-IsShut {s} d shut_down v = record {
    closed = refl;
    frozen = deliveries-append-dropped s.gone s.queue.buffer ∙ v.frozen;
  }

  Run-IsShut : {s t : Threads A} (d : List A) → Run s t → IsShut d s → IsShut d t
  Run-IsShut d here v = v
  Run-IsShut d (next r st) v = Step-IsShut d st (Run-IsShut d r v)

  pop_closed : (q : Queue A) → q.ready ≡ false → pop q ≡ queue_not_ready
  unfolding pop
  pop_closed q e = ground arith

  push_closed : (a : A) (q : Queue A) → q.ready ≡ false → push a q ≡ queue_not_ready
  unfolding push
  push_closed a q e = ground arith

  -- Once a queue is shut down, then whatever its threads do, no further item is ever delivered, and
  -- every `pop` and every new `push` throws.
  pub Run-after_shutdown :
      (s : Threads A) {t u : Threads A} (a : A)
      → t ≡ record s { queue = shutdown s.queue; gone = s.gone ++ map dropped s.queue.buffer }
      → Run t u
      → (deliveries u.gone ≡ deliveries s.gone)
        × (pop u.queue ≡ queue_not_ready)
        × (push a u.queue ≡ queue_not_ready)
  unfolding shutdown
  Run-after_shutdown s {t} {u} a e r =
      let shut : IsShut (deliveries s.gone) t =
        rw e (record { closed = refl; frozen = deliveries-append-dropped s.gone s.queue.buffer }) in
      let v = Run-IsShut (deliveries s.gone) r shut in
      (v.frozen, pop_closed u.queue v.closed, push_closed a u.queue v.closed)
