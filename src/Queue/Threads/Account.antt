-- ===== src/Queue/Threads/Account.antt =====
-- The counters of the queue against the history of all threads, and what `join` can rely on.
use nrtb_redo.Common.{
  Bool-cases, inl, inr, false, ◌≤◌, ==_iff, ◌-◌, ◌%◌, ◌↔◌, ℕ, ◌+◌, ◌<◌, ◌≡◌, refl, ap, true, List,
  [], ◌∷◌, ◌++◌, map, length, length-append, arith,
}
use nrtb_redo.Common.Words.{u32_mod}
use nrtb_redo.Queue.{
  join, waits, size, Queue, wrap, is_joined, count_in, store, take_front, pop, pop-returns, hold,
  release, shutdown, clear, drain-eq-nil, task_done, empty,
}
use nrtb_redo.Queue.Threads.{
  Fate, delivered, dropped, Threads, deliveries, drops, start, Step, admit, refuse, count, put,
  take, turned_away, finish, hold_queue, release_queue, clear_queue, shut_down, Run, here, next,
}

module _ {ℓ} {A : Type ℓ} where
  length-mid :
      (pre : List A) (a : A) (post : List A) → length (pre ++ (a ∷ post)) ≡ length (pre ++ post) + 1
  length-mid pre a post = omega (arith, length-append pre (a ∷ post), length-append pre post)

  deliveries-append :
      (fs gs : List (Fate A)) → deliveries (fs ++ gs) ≡ deliveries fs ++ deliveries gs
  deliveries-append [] gs = refl
  deliveries-append (delivered a ∷ fs) gs = ap (◌∷◌ a) (deliveries-append fs gs)
  deliveries-append (dropped a ∷ fs) gs = deliveries-append fs gs

  drops-append : (fs gs : List (Fate A)) → drops (fs ++ gs) ≡ drops fs ++ drops gs
  drops-append [] gs = refl
  drops-append (delivered a ∷ fs) gs = drops-append fs gs
  drops-append (dropped a ∷ fs) gs = ap (◌∷◌ a) (drops-append fs gs)

  deliveries-map-dropped : (xs : List A) → deliveries (map dropped xs) ≡ []
  deliveries-map-dropped [] = refl
  deliveries-map-dropped (x ∷ xs) = deliveries-map-dropped xs

  drops-map-dropped : (xs : List A) → drops (map dropped xs) ≡ xs
  drops-map-dropped [] = refl
  drops-map-dropped (x ∷ xs) = ap (◌∷◌ x) (drops-map-dropped xs)

  kept-deliveries :
      (fs : List (Fate A)) (xs : List A)
      → length (deliveries (fs ++ map dropped xs)) ≡ length (deliveries fs)
  kept-deliveries fs xs =
      rw (deliveries-append, deliveries-map-dropped)
        (omega (arith, length-append (deliveries fs) []))

  lost-drops :
      (fs : List (Fate A)) (xs : List A)
      → length (drops (fs ++ map dropped xs)) ≡ length (drops fs) + length xs
  lost-drops fs xs = rw (drops-append, drops-map-dropped) (length-append (drops fs) xs)

  -- The items that were counted in and that no worker has reported done.
  abbrev pub outstanding : Threads A → ℕ
  outstanding s =
      length s.counted + length s.queue.buffer + length (drops s.gone) + length s.working

  pub record IsCounted (s : Threads A) : Type 0 where
    pub ins :
        s.queue.in_count
        ≡ wrap (
            length s.counted
            + length s.queue.buffer
            + length (drops s.gone)
            + length (deliveries s.gone))
    pub outs : s.queue.out_count ≡ wrap (length (deliveries s.gone))
    pub done : s.queue.completed ≡ wrap s.finished
    pub worked : length (deliveries s.gone) ≡ length s.working + s.finished

  start-IsCounted : IsCounted start
  unfolding start empty
  start-IsCounted = record { ins = refl; outs = refl; done = refl; worked = refl }

  Step-IsCounted : {s t : Threads A} → Step s t → IsCounted s → IsCounted t
  unfolding count_in store pop take_front hold release shutdown clear task_done
  Step-IsCounted (admit a h) v = record {
    ins = v.ins;
    outs = v.outs;
    done = v.done;
    worked = v.worked;
  }
  Step-IsCounted (refuse a h) v = v
  Step-IsCounted {s} (count pre a post e) v = record {
    ins = omega (arith, v.ins);
    outs = v.outs;
    done = v.done;
    worked = v.worked;
  }
  Step-IsCounted {s} (put pre a post e) v = record {
    ins =
        omega
          (arith, v.ins, ap length e, length-mid pre a post, length-append s.queue.buffer (a ∷ []));
    outs = v.outs;
    done = v.done;
    worked = v.worked;
  }
  Step-IsCounted {s} (take a q e) v =
      let (open_now, free, front, rest) = pop-returns s.queue a q e in
      let ds = ap length (deliveries-append s.gone (delivered a ∷ [])) in
      let split = length-append (deliveries s.gone) (a ∷ []) in
      let same = ap length (drops-append s.gone (delivered a ∷ [])) in
      let none_lost = length-append (drops s.gone) [] in
      record {
        ins = omega (
          arith,
          v.ins,
          ap length front,
          ds,
          split,
          same,
          none_lost,
          ap (λ (r : Queue A). r.in_count) rest,
        );
        outs = omega (arith, v.outs, ds, split, ap (λ (r : Queue A). r.out_count) rest);
        done = omega (arith, v.done, ap (λ (r : Queue A). r.completed) rest);
        worked = omega (arith, v.worked, ds, split);
      }
  Step-IsCounted (turned_away e) v = v
  Step-IsCounted {s} (finish pre a post e) v = record {
    ins = v.ins;
    outs = v.outs;
    done = omega (arith, v.done);
    worked = omega (arith, v.worked, ap length e, length-mid pre a post);
  }
  Step-IsCounted hold_queue v = record {
    ins = v.ins;
    outs = v.outs;
    done = v.done;
    worked = v.worked;
  }
  Step-IsCounted release_queue v = record {
    ins = v.ins;
    outs = v.outs;
    done = v.done;
    worked = v.worked;
  }
  Step-IsCounted {s} clear_queue v =
      let kept = kept-deliveries s.gone s.queue.buffer in
      let lost = lost-drops s.gone s.queue.buffer in
      let gone = ap length (drain-eq-nil s.queue.buffer) in
      record {
        ins = omega (arith, v.ins, kept, lost, gone);
        outs = omega (arith, v.outs, kept);
        done = v.done;
        worked = omega (arith, v.worked, kept);
      }
  Step-IsCounted {s} shut_down v =
      let kept = kept-deliveries s.gone s.queue.buffer in
      let lost = lost-drops s.gone s.queue.buffer in
      let gone = ap length (drain-eq-nil s.queue.buffer) in
      record {
        ins = omega (arith, v.ins, kept, lost, gone);
        outs = omega (arith, v.outs, kept);
        done = v.done;
        worked = omega (arith, v.worked, kept);
      }

  -- Whatever the threads do, the three counters keep step with the history.
  pub Run-IsCounted : {s t : Threads A} → Run s t → IsCounted s → IsCounted t
  Run-IsCounted here v = v
  Run-IsCounted (next r st) v = Step-IsCounted st (Run-IsCounted r v)

  -- `discarded()` of a client: in_count - out_count - size(), as an `int`.
  unfoldable pub discarded : Queue A → ℕ
  unfolding size
  discarded q = (q.in_count + (u32_mod - q.out_count) + (u32_mod - wrap (size q))) % u32_mod

  length-nil : (xs : List A) → length xs ≡ 0 → xs ≡ []
  length-nil [] e = refl
  length-nil (x ∷ xs) e = absurd (omega arith)

  -- When every thread starts from the new queue, and fewer than 2 ^ 32 items are outstanding, `join`
  -- returns exactly when nothing is buffered, nothing is between the count and the store, no worker
  -- still holds an item, and no counted item was dropped by `clear` or `shutdown`.
  pub join_iff :
      {t : Threads A}
      → Run start t
      → outstanding t < u32_mod
      → (is_joined t.queue ≡ true)
        ↔ ((t.counted ≡ []) × (t.queue.buffer ≡ []) × (drops t.gone ≡ []) × (t.working ≡ []))
  join_iff {t} r small =
      let v = Run-IsCounted r start-IsCounted in
      (
        (λ e.
            let same = (==_iff t.queue.completed t.queue.in_count).0 e in
            let none_left : outstanding t ≡ 0 = omega (arith, v.ins, v.done, v.worked, same) in
            (
              length-nil t.counted (omega arith),
              length-nil t.queue.buffer (omega arith),
              length-nil (drops t.gone) (omega arith),
              length-nil t.working (omega arith),
            )),
        λ (c, b, d, w). (==_iff t.queue.completed t.queue.in_count).1 (
            omega
              (arith, v.ins, v.done, v.worked, ap length c, ap length b, ap length d, ap length w)),
      )

  -- In every run from the new queue, `discarded()` counts, modulo 2 ^ 32, the dropped items and
  -- those of producers that have counted and not stored.
  pub discarded_lem :
      {t : Threads A}
      → Run start t
      → discarded t.queue ≡ wrap (length (drops t.gone) + length t.counted)
  unfolding discarded
  discarded_lem {t} r = let v = Run-IsCounted r start-IsCounted in omega (arith, v.ins, v.outs)

  Run-trans : {s t u : Threads A} → Run s t → Run t u → Run s u
  Run-trans r here = r
  Run-trans r (next q st) = next (Run-trans r q) st

  Step-drops : {s t : Threads A} → Step s t → length (drops s.gone) ≤ length (drops t.gone)
  Step-drops {s} (take a q e) =
      omega
        (arith, ap length (drops-append s.gone (delivered a ∷ [])), length-append (drops s.gone) [])
  Step-drops {s} clear_queue = omega (arith, lost-drops s.gone s.queue.buffer)
  Step-drops {s} shut_down = omega (arith, lost-drops s.gone s.queue.buffer)
  Step-drops (admit a h) = omega arith
  Step-drops (refuse a h) = omega arith
  Step-drops (count pre a post e) = omega arith
  Step-drops (put pre a post e) = omega arith
  Step-drops (turned_away e) = omega arith
  Step-drops (finish pre a post e) = omega arith
  Step-drops hold_queue = omega arith
  Step-drops release_queue = omega arith

  Run-drops : {s t : Threads A} → Run s t → length (drops s.gone) ≤ length (drops t.gone)
  Run-drops here = omega arith
  Run-drops (next r st) = omega (arith, Run-drops r, Step-drops st)

  -- Once `clear` or `shutdown` has dropped an item, no later state with fewer than 2 ^ 32 items
  -- outstanding lets `join` return, though every worker reports all of its work done.
  pub join_never :
      {t u : Threads A}
      → Run start t
      → 0 < length (drops t.gone)
      → Run t u
      → outstanding u < u32_mod
      → join u.queue ≡ waits
  unfolding join
  join_never {t} {u} r lost q small =
      let open_item : is_joined u.queue ≡ false = elim (Bool-cases (is_joined u.queue)) [
        | inl e ↦
            absurd (omega (arith, Run-drops q, ap length ((join_iff (Run-trans r q) small).0 e).2))
        | inr e ↦ e
      ] in
      rw open_item
