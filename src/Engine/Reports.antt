-- ===== src/Engine/Reports.antt =====
-- What the writer makes of the reports, and what `main` waits for at its end.
use nrtb_redo.Common.{
  ℕ, ◌+◌, ◌^◌, ◌≤◌, ◌<◌, ◌≡◌, refl, sym, ap, ◌∙◌, Bool, true, false, List, [], ◌∷◌, ◌++◌,
  append_assoc, append-nil, ◌%◌, subst, Option, some, if◌then◌else◌, length, ◌==◌, ==_iff, arith,
  Bool-cases, inl, inr, All,
}
use nrtb_redo.Queue.{Queue, Attempt, wrap}
use nrtb_redo.Queue
use nrtb_redo.Sim.{Report}
use nrtb_redo.Engine.{
  Document, Writer, Writing, waiting, Answer, document, is_wanted, is_checkpoint, insert,
  checkpoint, and_checkpoint, after_report, popped, write_loop, output_writer, drain_output,
}
use nrtb_redo.Engine.Due.{
  Recorded, nothing, put, leave, Checkpointed, unchanged, moved, kept, document-IsDocument,
  is_wanted_iff, is_checkpoint_iff,
}

-- Every report that was stored was counted, and those that were popped are done.
pub record IsSettled {A : Type 0} (q : Queue A) : Type 0 where
  pub open_queue : q.ready ≡ true
  pub free : q.blocked ≡ false
  pub counted : q.completed + length q.buffer ≡ q.in_count
  pub small : q.in_count < 2 ^ 32

abbrev pub Takes : Answer → Type 0
Takes a = (a.inserted ≡ true) × (a.updated ≡ true)

module _ {F : Type 0} (narrow : F → F) (write_zeros write_bots : Bool) where
  -- The report is taken off the queue, and done.
  abbrev pub taken : List (Report F) → Queue (Report F) → Queue (Report F)
  taken reps q = record q {
    buffer = reps;
    out_count = wrap (q.out_count + 1);
    completed = wrap (q.completed + 1);
  }

  pub taken-IsSettled :
      (rep : Report F) (reps : List (Report F)) (q : Queue (Report F))
      → q.buffer ≡ rep ∷ reps
      → IsSettled q
      → IsSettled (taken reps q)
  taken-IsSettled rep reps q e h = record {
    open_queue = h.open_queue;
    free = h.free;
    counted = omega (arith, h.counted, h.small, ap (λ xs. length xs) e);
    small = h.small;
  }

  pub pop_front :
      (rep : Report F) (reps : List (Report F)) (q : Queue (Report F))
      → q.buffer ≡ rep ∷ reps
      → IsSettled q
      → Queue.pop q
        ≡ Queue.returns (rep, record q { buffer = reps; out_count = wrap (q.out_count + 1) })
  unfolding Queue.pop
  pop_front rep reps q e h = rw (e, h.open_queue, h.free) refl

  pop_nothing : (q : Queue (Report F)) → q.buffer ≡ [] → q.ready ≡ true → Queue.pop q ≡ Queue.waits
  unfolding Queue.pop
  pop_nothing q e h = rw (e, h) refl

  -- What one report adds.
  abbrev pub written : Report F → Writer F → Writer F
  written rep w = record w {
    documents =
        if is_wanted narrow write_zeros write_bots rep
        then w.documents ++ (document narrow write_zeros write_bots rep ∷ [])
        else w.documents;
    last_checkpoint =
        if is_checkpoint narrow write_zeros write_bots rep
        then some (rep.quanta % 2 ^ 32)
        else w.last_checkpoint;
  }

  insert_checkpoint :
      (a : Answer) (rep : Report F) (w : Writer F)
      → Takes a
      → and_checkpoint narrow write_zeros write_bots a rep
          (insert narrow write_zeros write_bots a rep w)
        ≡ some (written rep w)
  unfolding insert checkpoint
  insert_checkpoint a rep w (i, u) =
      elim (Bool-cases (is_wanted narrow write_zeros write_bots rep)) [
        | inl yes_ ↦ elim (Bool-cases (is_checkpoint narrow write_zeros write_bots rep)) [
          | inl due ↦ rw (yes_, i, due, u) refl
          | inr not_due ↦ rw (yes_, i, not_due) refl
        ]
        | inr no_ ↦ elim (Bool-cases (is_checkpoint narrow write_zeros write_bots rep)) [
          | inl due ↦ rw (no_, due, u) refl
          | inr not_due ↦ rw (no_, not_due) refl
        ]
      ]

  abbrev pub next_writer : Report F → List (Report F) → Writer F → Writer F
  next_writer rep reps w = record (written rep w) { soq = taken reps w.soq }

  pub write_loop-cons :
      (a : Answer) (answers : List Answer) (w : Writer F) (rep : Report F) (reps : List (Report F))
      → w.soq.buffer ≡ rep ∷ reps
      → IsSettled w.soq
      → Takes a
      → write_loop narrow write_zeros write_bots (a ∷ answers) w
        ≡ write_loop narrow write_zeros write_bots answers (next_writer rep reps w)
  unfolding write_loop Queue.task_done
  write_loop-cons a answers w rep reps e h t =
      let q = record w.soq { buffer = reps; out_count = wrap (w.soq.out_count + 1) } in
      let v : Writer F = record w { soq = q } in
      ap
        (λ p.
          popped narrow write_zeros write_bots a w p
            (write_loop narrow write_zeros write_bots answers))
        (pop_front rep reps w.soq e h)
      ∙ ap
          (λ o.
            after_report narrow write_zeros write_bots v o
              (write_loop narrow write_zeros write_bots answers))
          (insert_checkpoint a rep v t)

  drain_settled :
      (q : Queue (Report F))
      → q.buffer ≡ []
      → IsSettled q
      → drain_output q ≡ Queue.returns (Queue.shutdown q)
  unfolding drain_output Queue.join
  drain_settled q e h =
      let done : (q.completed == q.in_count) ≡ true =
        (==_iff q.completed q.in_count).1 (omega (arith, h.counted, ap (λ xs. length xs) e)) in
      rw done refl

  -- All that the reports call for is in the database, the last checkpoint is set, and the wait of
  -- `main` at its end returns.
  pub record IsWritten (w : Writer F) (reps : List (Report F)) (out : Writing F) : Type 0 where
    pub last : Writer F
    pub docs : List (Document F)
    pub is_waiting : out ≡ waiting last
    pub all_documents : last.documents ≡ w.documents ++ docs
    pub recorded : Recorded narrow write_zeros write_bots reps docs
    pub checkpointed :
        Checkpointed narrow write_zeros write_bots reps w.last_checkpoint last.last_checkpoint
    pub drains : drain_output last.soq ≡ Queue.returns (Queue.shutdown last.soq)

  -- Nothing more to write.
  rests :
      (w : Writer F) (out : Writing F)
      → w.soq.buffer ≡ []
      → IsSettled w.soq
      → out ≡ waiting w
      → IsWritten w [] out
  rests w out e h is_waiting = record {
    last = w;
    docs = [];
    is_waiting = is_waiting;
    all_documents = sym (append-nil w.documents);
    recorded = nothing;
    checkpointed = unchanged w.last_checkpoint;
    drains = drain_settled w.soq e h;
  }

  grown_documents :
      (rep : Report F) (reps : List (Report F)) (w : Writer F) (docs : List (Document F))
      → Recorded narrow write_zeros write_bots reps docs
      → (all : List (Document F)) × ((written rep w).documents ++ docs ≡ w.documents ++ all)
        × Recorded narrow write_zeros write_bots (rep ∷ reps) all
  grown_documents rep reps w docs r = elim (is_wanted_iff narrow write_zeros write_bots rep) [
    | inl (yes_, wanted) ↦
        let d = document narrow write_zeros write_bots rep in
        (
          d ∷ docs,
          rw yes_ (append_assoc w.documents (d ∷ []) docs),
          put rep d reps docs wanted (document-IsDocument narrow write_zeros write_bots rep) r,
        )
    | inr (no_, few, empty) ↦ (docs, rw no_ refl, leave rep reps docs few empty r)
  ]

  grown_checkpoint :
      (rep : Report F) (reps : List (Report F)) (w : Writer F) (out : Option ℕ)
      → Checkpointed narrow write_zeros write_bots reps (written rep w).last_checkpoint out
      → Checkpointed narrow write_zeros write_bots (rep ∷ reps) w.last_checkpoint out
  grown_checkpoint rep reps w out k = elim (is_checkpoint_iff narrow write_zeros write_bots rep) [
    | inl (due, is) ↦ moved rep reps w.last_checkpoint out is (
        subst
          (λ b.
            Checkpointed narrow write_zeros write_bots reps
              (if b then some (rep.quanta % 2 ^ 32) else w.last_checkpoint) out)
          due k)
    | inr (not_due, is_not) ↦ kept rep reps w.last_checkpoint out is_not (
        subst
          (λ b.
            Checkpointed narrow write_zeros write_bots reps
              (if b then some (rep.quanta % 2 ^ 32) else w.last_checkpoint) out)
          not_due k)
  ]

  write_loop-IsWritten :
      (reps : List (Report F)) (answers : List Answer) (w : Writer F)
      → w.soq.buffer ≡ reps
      → IsSettled w.soq
      → All Takes answers
      → length reps ≤ length answers
      → IsWritten w reps (write_loop narrow write_zeros write_bots answers w)
  unfolding write_loop
  write_loop-IsWritten [] [] w e h t few = rests w (waiting w) e h refl
  write_loop-IsWritten [] (a ∷ answers) w e h t few = rests w _ e h (
      ap
        (λ p.
          popped narrow write_zeros write_bots a w p
            (write_loop narrow write_zeros write_bots answers))
        (pop_nothing w.soq e h.open_queue))
  write_loop-IsWritten (rep ∷ reps) [] w e h t few = absurd (omega (arith, few))
  write_loop-IsWritten (rep ∷ reps) (a ∷ answers) w e h (t, ts) few =
      let k =
        write_loop-IsWritten reps answers (next_writer rep reps w) refl
          (taken-IsSettled rep reps w.soq e h) ts (omega (arith, few)) in
      let (docs, grown, recorded) = grown_documents rep reps w k.docs k.recorded in
      record {
        last = k.last;
        docs = docs;
        is_waiting = write_loop-cons a answers w rep reps e h t ∙ k.is_waiting;
        all_documents = k.all_documents ∙ grown;
        recorded = recorded;
        checkpointed = grown_checkpoint rep reps w k.last.last_checkpoint k.checkpointed;
        drains = k.drains;
      }

  -- From a queue of counted reports, while the database takes everything: the writer puts a document there
  -- for each report, in order, leaving out those without objects unless `write_zeros` is set, its numbers
  -- cut to 32 bits and the objects in it only if `write_bots` is set; the checkpoint becomes the number,
  -- cut to 32 bits, of the last report whose number fifty divides; then the writer waits for more, and the
  -- wait of `main` for the queue returns.
  pub output_writer-IsWritten :
      (reps : List (Report F)) (answers : List Answer) (w : Writer F)
      → w.soq.buffer ≡ reps
      → IsSettled w.soq
      → All Takes answers
      → length reps ≤ length answers
      → IsWritten w reps (output_writer narrow write_zeros write_bots true answers w)
  unfolding output_writer
  output_writer-IsWritten reps answers w e h t few = write_loop-IsWritten reps answers w e h t few
