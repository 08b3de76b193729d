-- ===== src/Logger/Written.antt =====
-- What becomes of the records of a log.
use nrtb_redo.Common.{
  ℕ, ◌≡◌, refl, sym, ap, ◌∙◌, Bool, true, false, List, [], ◌∷◌, ◌++◌, append_assoc, append-nil,
  if◌then◌else◌, inl, inr, ◌⊎◌, ◌+◌, subst, arith,
}
use nrtb_redo.Common.Bytes.{Bytes}
use nrtb_redo.Queue.{Queue, Attempt, wrap}
use nrtb_redo.Queue
use nrtb_redo.Logger.{
  LogRecord, log_record, log, Log, Event, logs, writes, shuts, LocalTime, line, popped, write_round,
  step, run, must_drain,
}

module _ (localtime : ℕ → LocalTime) where
  abbrev pub lines : List LogRecord → List Bytes
  lines [] = []
  lines (r ∷ rs) = line localtime r ∷ lines rs

  lines-append : (rs ss : List LogRecord) → lines (rs ++ ss) ≡ lines rs ++ lines ss
  lines-append [] ss = refl
  lines-append (r ∷ rs) ss = ap (◌∷◌ (line localtime r)) (lines-append rs ss)

  -- The records that the queue takes while nothing shuts it.
  abbrev pub taken : List Event → List LogRecord
  taken [] = []
  taken (logs now sev msg r ∷ es) = log_record now sev r.component msg ∷ taken es
  taken (writes ∷ es) = taken es
  taken (shuts ∷ es) = []

  -- Everything up to a first `shuts`.
  abbrev pub IsOpen : List Event → Type 0
  IsOpen [] = Unit
  IsOpen (logs now sev msg r ∷ es) = IsOpen es
  IsOpen (writes ∷ es) = IsOpen es
  IsOpen (shuts ∷ es) = ◌≡◌ {A = Bool} true false

  -- The lines in the file and the records in the queue are together what was there and what came.
  pub record IsWriting (s : Log) (new : List LogRecord) (t : Log) : Type 0 where
    pub open_queue : t.queue.ready ≡ true
    pub going : t.done ≡ false
    pub kept : t.file ++ lines t.queue.buffer ≡ (s.file ++ lines s.queue.buffer) ++ lines new

  record IsSame (s t : Log) : Type 0 where
    open_queue : t.queue.ready ≡ true
    going : t.done ≡ false
    kept : t.file ++ lines t.queue.buffer ≡ s.file ++ lines s.queue.buffer

  write_round-popped :
      (s : Log) (a : Attempt (LogRecord × Queue LogRecord))
      → s.done ≡ false
      → Queue.pop s.queue ≡ a
      → write_round localtime s ≡ popped localtime s a
  unfolding write_round
  write_round-popped s a d e =
      ap (λ b. if b then s else popped localtime s (Queue.pop s.queue)) d
      ∙ ap (popped localtime s) e

  pop_open :
      (q : Queue LogRecord) (b : List LogRecord) (held : Bool)
      → q.buffer ≡ b
      → q.blocked ≡ held
      → q.ready ≡ true
      → (Queue.pop q ≡ Queue.waits)
        ⊎ ((x : LogRecord) × (xs : List LogRecord) × (q.buffer ≡ x ∷ xs)
            × (Queue.pop q
                ≡ Queue.returns (x, record q { buffer = xs; out_count = wrap (q.out_count + 1) })))
  unfolding Queue.pop
  pop_open q [] held e f r = inl (rw (e, r) refl)
  pop_open q (x ∷ xs) true e f r = inl (rw (e, f, r) refl)
  pop_open q (x ∷ xs) false e f r = inr (x, xs, e, rw (e, f, r) refl)

  write_round-IsSame :
      (s : Log) → s.queue.ready ≡ true → s.done ≡ false → IsSame s (write_round localtime s)
  write_round-IsSame s r d = elim (pop_open s.queue s.queue.buffer s.queue.blocked refl refl r) [
    | inl e ↦
        subst (IsSame s) (sym (write_round-popped s Queue.waits d e))
          record { open_queue = r; going = d; kept = refl }
    | inr (x, xs, b, e) ↦ subst (IsSame s) (sym (write_round-popped s _ d e)) record {
      open_queue = r;
      going = d;
      kept =
          append_assoc s.file (line localtime x ∷ []) (lines xs)
          ∙ ap (λ l. s.file ++ lines l) (sym b);
    }
  ]

  abbrev stored : LogRecord → Log → Log
  stored x s = record s { queue = Queue.store x (Queue.count_in s.queue) }

  stored-lines :
      (x : LogRecord) (s : Log)
      → (stored x s).file ++ lines (stored x s).queue.buffer
        ≡ (s.file ++ lines s.queue.buffer) ++ (line localtime x ∷ [])
  unfolding Queue.store Queue.count_in
  stored-lines x s =
      ap (◌++◌ s.file) (lines-append s.queue.buffer (x ∷ []))
      ∙ sym (append_assoc s.file (lines s.queue.buffer) (line localtime x ∷ []))

  stored_ready : (x : LogRecord) (s : Log) → s.queue.ready ≡ true → (stored x s).queue.ready ≡ true
  unfolding Queue.store Queue.count_in
  stored_ready x s r = r

  run-IsWriting :
      (es : List Event) (s : Log)
      → IsOpen es
      → s.queue.ready ≡ true
      → s.done ≡ false
      → IsWriting s (taken es) (run localtime es s)
  unfolding run step
  run-IsWriting [] s o r d = record { open_queue = r; going = d; kept = sym (append-nil _) }
  run-IsWriting (logs now sev msg k ∷ es) s o r d =
      let x = log_record now sev k.component msg in
      let pushes : log now sev msg k s.queue ≡ Queue.returns (stored x s).queue =
        unfold log Queue.push in
        ap (λ b. if b then Queue.returns (stored x s).queue else Queue.queue_not_ready) r in
      let h = run-IsWriting es (stored x s) o (stored_ready x s r) d in
      rw pushes record {
        open_queue = h.open_queue;
        going = h.going;
        kept =
            h.kept
            ∙ ap (λ l. l ++ lines (taken es)) (stored-lines x s)
            ∙ append_assoc (s.file ++ lines s.queue.buffer) (line localtime x ∷ [])
                (lines (taken es));
      }
  run-IsWriting (writes ∷ es) s o r d =
      let same = write_round-IsSame s r d in
      let h = run-IsWriting es (write_round localtime s) o same.open_queue same.going in
      record {
        open_queue = h.open_queue;
        going = h.going;
        kept = h.kept ∙ ap (λ l. l ++ lines (taken es)) same.kept;
      }
  run-IsWriting (shuts ∷ es) s o r d = absurd (true-ne-false o)
    where
      true-ne-false : ◌≡◌ {A = Bool} true false → ⊥
      true-ne-false e = cc

  drained : (t : Log) → must_drain t ≡ false → t.queue.buffer ≡ []
  unfolding must_drain Queue.size
  drained t e = none_left t.queue.buffer refl
    where
      none_left : (b : List LogRecord) → t.queue.buffer ≡ b → t.queue.buffer ≡ []
      none_left [] f = f
      none_left (x ∷ xs) f = absurd (ground (arith, e, f))

  pop_shut :
      (q : Queue LogRecord) (held : Bool)
      → q.blocked ≡ held
      → Queue.pop (Queue.shutdown q) ≡ Queue.queue_not_ready
  unfolding Queue.pop Queue.shutdown
  pop_shut q true e = rw (e, Queue.drain-eq-nil q.buffer) refl
  pop_shut q false e = rw (e, Queue.drain-eq-nil q.buffer) refl

  last_round :
      (t : Log)
      → t.done ≡ false
      → step localtime writes (step localtime shuts t)
        ≡ record (step localtime shuts t) { done = true }
  unfolding step
  last_round t d =
      write_round-popped (record t { queue = Queue.shutdown t.queue }) Queue.queue_not_ready d
        (pop_shut t.queue t.queue.blocked refl)

  -- While nothing shuts the queue of an open log, whose writer runs: the lines of the records go to the
  -- file in the order in which they were logged, and what is not written yet is in the queue. When `close`
  -- finds nothing to drain, the file has the line of every record that was logged, and if the queue is shut
  -- down before another record comes, the next round of the writer is its last and writes nothing.
  pub run_lem :
      (es : List Event) (s : Log)
      → IsOpen es
      → s.queue.ready ≡ true
      → s.done ≡ false
      → IsWriting s (taken es) (run localtime es s)
        × (must_drain (run localtime es s) ≡ false
            → ((run localtime es s).file ≡ (s.file ++ lines s.queue.buffer) ++ lines (taken es))
              × (step localtime writes (step localtime shuts (run localtime es s))
                  ≡ record (step localtime shuts (run localtime es s)) { done = true }))
  run_lem es s o r d =
      let t = run localtime es s in
      let h = run-IsWriting es s o r d in
      (
        h,
        λ e. (
          sym (append-nil t.file) ∙ ap (λ b. t.file ++ lines b) (sym (drained t e)) ∙ h.kept,
          last_round t h.going,
        ),
      )
