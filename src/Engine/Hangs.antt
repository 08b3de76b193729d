-- ===== src/Engine/Hangs.antt =====
-- What becomes of the end of `main` when the database fails for a report.
use nrtb_redo.Common.{
  ℕ, zero, suc, ◌+◌, ◌^◌, ◌<◌, ◌≡◌, refl, ap, ◌∙◌, Bool, true, false, List, [], ◌∷◌, ◌++◌, none,
  length, ◌==◌, ==_iff, arith, Bool-cases, inl, inr, ◌⊎◌, All,
}
use nrtb_redo.Queue.{Queue, Attempt, wrap}
use nrtb_redo.Queue
use nrtb_redo.Sim.{Report}
use nrtb_redo.Engine.{
  Writer, ended, Answer, is_wanted, is_checkpoint, insert, checkpoint, and_checkpoint, after_report,
  popped, write_loop, drain_output,
}
use nrtb_redo.Sim.Workers.{push_all, push_all_open, bump}
use nrtb_redo.Engine.Due.{Wanted, IsFiftieth, is_wanted_iff, is_checkpoint_iff}
use nrtb_redo.Engine.Reports.{
  IsSettled, Takes, next_writer, taken-IsSettled, pop_front, write_loop-cons,
}

module _ {F : Type 0} (narrow : F → F) (write_zeros write_bots : Bool) where
  -- The database throws for a report: at the insertion, or at the checkpoint.
  abbrev pub Fails : Answer → Report F → Type 0
  Fails a rep =
      (Wanted narrow write_zeros write_bots rep × (a.inserted ≡ false))
      ⊎ (IsFiftieth narrow write_zeros write_bots rep × (a.updated ≡ false))

  due_now :
      (rep : Report F)
      → IsFiftieth narrow write_zeros write_bots rep
      → is_checkpoint narrow write_zeros write_bots rep ≡ true
  due_now rep is = elim (is_checkpoint_iff narrow write_zeros write_bots rep) [
    | inl (due, _) ↦ due
    | inr (_, is_not) ↦ absurd (is_not is)
  ]

  is_wanted_now :
      (rep : Report F)
      → Wanted narrow write_zeros write_bots rep
      → is_wanted narrow write_zeros write_bots rep ≡ true
  is_wanted_now rep wanted = elim (is_wanted_iff narrow write_zeros write_bots rep) [
    | inl (yes_, _) ↦ yes_
    | inr (_, few, empty) ↦ elim wanted [ inl all_ ↦ cc | inr some_ ↦ absurd (some_ empty) ]
  ]

  failed :
      (a : Answer) (rep : Report F) (w : Writer F)
      → Fails a rep
      → and_checkpoint narrow write_zeros write_bots a rep
          (insert narrow write_zeros write_bots a rep w)
        ≡ none
  unfolding insert checkpoint
  failed a rep w (inl (wanted, no_)) = rw (is_wanted_now rep wanted, no_) refl
  failed a rep w (inr (due, no_)) =
      elim (Bool-cases (is_wanted narrow write_zeros write_bots rep)) [
        | inr unwanted ↦ rw (unwanted, due_now rep due, no_) refl
        | inl wanted ↦ elim (Bool-cases a.inserted) [
          | inl in_ ↦ rw (wanted, in_, due_now rep due, no_) refl
          | inr out_ ↦ rw (wanted, out_) refl
        ]
      ]

  bump_small : (n k : ℕ) → k + n < 2 ^ 32 → bump n k ≡ k + n
  bump_small zero k h = omega arith
  bump_small (suc n) k h =
      let step : wrap (k + 1) ≡ k + 1 = omega (arith, h) in
      ap (bump n) step ∙ bump_small n (k + 1) (omega (arith, h)) ∙ omega arith

  -- With a report popped that is not done, whatever reports are pushed behind it.
  hangs :
      (rep : Report F) (reps late : List (Report F)) (q : Queue (Report F))
      → q.buffer ≡ rep ∷ reps
      → IsSettled q
      → q.in_count + length late < 2 ^ 32
      → (q' : Queue (Report F)) × (push_all late
            (record q { buffer = reps; out_count = wrap (q.out_count + 1) })
          ≡ Queue.returns q')
        × (drain_output q' ≡ Queue.waits)
  unfolding drain_output Queue.join
  hangs rep reps late q e h few =
      let left = record q { buffer = reps; out_count = wrap (q.out_count + 1) } in
      let size : length q.buffer ≡ suc (length reps) = ap (λ xs. length xs) e in
      let count = bump_small (length late) q.in_count few in
      let open_ : (q.completed == bump (length late) q.in_count) ≡ false =
        elim (Bool-cases (q.completed == bump (length late) q.in_count)) [
          | inl same ↦ absurd (
              omega (
                arith,
                (==_iff q.completed (bump (length late) q.in_count)).0 same,
                count,
                h.counted,
                size,
              ))
          | inr differ ↦ differ
        ] in
      (
        record left { buffer = reps ++ late; in_count = bump (length late) q.in_count },
        push_all_open late left h.open_queue,
        rw open_ refl,
      )

  -- As soon as the database throws for a report that was counted, at its insertion or at a checkpoint, the
  -- writer ends with that report not done. Then the wait of `main` for the queue does not return, in the
  -- state that the writer leaves and after any reports that the simulation pushes later, as long as fewer
  -- than 2 ^ 32 were pushed in all.
  pub write_loop-hangs :
      (reps more late : List (Report F)) (rep : Report F) (goods : List Answer) (a : Answer)
      (answers : List Answer) (w : Writer F)
      → w.soq.buffer ≡ reps ++ (rep ∷ more)
      → IsSettled w.soq
      → All Takes goods
      → length goods ≡ length reps
      → Fails a rep
      → w.soq.in_count + length late < 2 ^ 32
      → (out : Writer F) × (write_loop narrow write_zeros write_bots (goods ++ (a ∷ answers)) w
          ≡ ended out)
        × ((q : Queue (Report F)) × (push_all late out.soq ≡ Queue.returns q)
            × (drain_output q ≡ Queue.waits))
  unfolding write_loop
  write_loop-hangs [] more late rep [] a answers w e h t same f few =
      let q = record w.soq { buffer = more; out_count = wrap (w.soq.out_count + 1) } in
      let v : Writer F = record w { soq = q } in
      let rest = write_loop narrow write_zeros write_bots answers in
      (
        v,
        ap (λ p. popped narrow write_zeros write_bots a w p rest)
              (pop_front narrow write_zeros write_bots rep more w.soq e h)
            ∙ ap (λ o. after_report narrow write_zeros write_bots v o rest) (failed a rep v f),
        hangs rep more late w.soq e h few,
      )
  write_loop-hangs [] more late rep (g ∷ goods) a answers w e h t same f few =
      absurd (omega (arith, same))
  write_loop-hangs (r ∷ reps) more late rep [] a answers w e h t same f few =
      absurd (omega (arith, same))
  write_loop-hangs (r ∷ reps) more late rep (g ∷ goods) a answers w e h (t, ts) same f few =
      let (out, runs, hang) =
        write_loop-hangs reps more late rep goods a answers
          (next_writer narrow write_zeros write_bots r (reps ++ (rep ∷ more)) w) refl
          (taken-IsSettled narrow write_zeros write_bots r (reps ++ (rep ∷ more)) w.soq e h) ts
          (omega (arith, same)) f few in
      (
        out,
        write_loop-cons narrow write_zeros write_bots g (goods ++ (a ∷ answers)) w r
              (reps ++ (rep ∷ more)) e h t
            ∙ runs,
        hang,
      )
