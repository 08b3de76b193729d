-- ===== src/Engine/Due.antt =====
-- What the reports call for in the database.
use nrtb_redo.Common.{
  ℕ, ◌^◌, ◌≡◌, refl, Bool, true, false, List, [], ◌∷◌, ◌≢◌, ◌*◌, ◌/◌, ◌%◌, Option, none, some,
  length, ◌==◌, ==_iff, arith, Bool-cases, inl, inr, ◌⊎◌,
}
use nrtb_redo.Common.Bytes.{Bytes}
use nrtb_redo.Sim.{Report}
use nrtb_redo.Engine.{Document, document, is_wanted, is_checkpoint}

module _ {F : Type 0} (narrow : F → F) (write_zeros write_bots : Bool) where
  -- The document that a report calls for.
  pub record IsDocument (rep : Report F) (d : Document F) : Type 0 where
    pub quanta : d.quanta ≡ rep.quanta % 2 ^ 32
    pub obj_count : d.obj_count ≡ length rep.objects % 2 ^ 32
    pub ticks : d.ticks ≡ rep.duration % 2 ^ 32
    pub run_sec : d.run_sec ≡ narrow rep.wallclock
    pub with_bots : write_bots ≡ true → d.objects ≡ some rep.objects
    pub without_bots : write_bots ≡ false → d.objects ≡ none

  abbrev pub Wanted : Report F → Type 0
  Wanted rep = (write_zeros ≡ true) ⊎ (rep.objects ≢ [])

  -- The documents for a list of reports.
  pub data Recorded : List (Report F) → List (Document F) → Type 0 where
    nothing : Recorded [] []
    put :
        (rep : Report F) (d : Document F) (reps : List (Report F)) (docs : List (Document F))
        → Wanted rep
        → IsDocument rep d
        → Recorded reps docs
        → Recorded (rep ∷ reps) (d ∷ docs)
    leave :
        (rep : Report F) (reps : List (Report F)) (docs : List (Document F))
        → write_zeros ≡ false
        → rep.objects ≡ []
        → Recorded reps docs
        → Recorded (rep ∷ reps) docs

  -- Fifty divides the number of the turn.
  abbrev pub IsFiftieth : Report F → Type 0
  IsFiftieth rep = (k : ℕ) × (rep.quanta ≡ 50 * k)

  -- The checkpoint is that of the last such report, and `last` if there is none.
  pub data Checkpointed : List (Report F) → Option ℕ → Option ℕ → Type 0 where
    unchanged : (last : Option ℕ) → Checkpointed [] last last
    moved :
        (rep : Report F) (reps : List (Report F)) (last out : Option ℕ)
        → IsFiftieth rep
        → Checkpointed reps (some (rep.quanta % 2 ^ 32)) out
        → Checkpointed (rep ∷ reps) last out
    kept :
        (rep : Report F) (reps : List (Report F)) (last out : Option ℕ)
        → ¬ IsFiftieth rep
        → Checkpointed reps last out
        → Checkpointed (rep ∷ reps) last out

  pub document-IsDocument :
      (rep : Report F) → IsDocument rep (document narrow write_zeros write_bots rep)
  unfolding document
  document-IsDocument rep = record {
    quanta = refl;
    obj_count = refl;
    ticks = refl;
    run_sec = refl;
    with_bots = λ e. rw e refl;
    without_bots = λ e. rw e refl;
  }

  pub is_wanted_iff :
      (rep : Report F)
      → ((is_wanted narrow write_zeros write_bots rep ≡ true) × Wanted rep)
        ⊎ ((is_wanted narrow write_zeros write_bots rep ≡ false)
            × (write_zeros ≡ false)
            × (rep.objects ≡ []))
  is_wanted_iff rep = elim (Bool-cases write_zeros) [
    | inl yes_ ↦ inl (rw yes_ refl, inl yes_)
    | inr no_ ↦ objects_of rep.objects refl no_
  ]
    where
      objects_of :
          (os : List Bytes)
          → rep.objects ≡ os
          → write_zeros ≡ false
          → ((is_wanted narrow write_zeros write_bots rep ≡ true) × Wanted rep)
            ⊎ ((is_wanted narrow write_zeros write_bots rep ≡ false)
                × (write_zeros ≡ false)
                × (rep.objects ≡ []))
      objects_of [] e no_ = inr (rw (no_, e) refl, no_, e)
      objects_of (o ∷ os) e no_ = inl (rw (no_, e) (ground arith), inr (λ k. cc))

  pub is_checkpoint_iff :
      (rep : Report F)
      → ((is_checkpoint narrow write_zeros write_bots rep ≡ true) × IsFiftieth rep)
        ⊎ ((is_checkpoint narrow write_zeros write_bots rep ≡ false) × (¬ IsFiftieth rep))
  is_checkpoint_iff rep = elim (Bool-cases ((rep.quanta % 50) == 0)) [
    | inl due ↦ inl (due, (rep.quanta / 50, omega (arith, (==_iff (rep.quanta % 50) 0).0 due)))
    | inr not_due ↦ inr (not_due, λ (k, e). absurd (ground (arith, not_due, e)))
  ]
