-- ===== src/Singleton/Deletes.antt =====
-- A thread that deletes the instance while another one is about to use it.
use nrtb_redo.Common.{
  ℕ, ◌-◌, ◌≡◌, ◌≢◌, refl, ◌∙◌, true, false, Option, none, some, ◌==◌, ==_iff, inl, inr, Bool-cases,
}
use nrtb_redo.Singleton.{
  Pc, returning, got, deleting, deleted, forgotten, Shared, update, move, lock_delete, delete,
  delete_none, forget, Run, next,
}
use nrtb_redo.Singleton.Instances.{updated}

update_other : (pc : ℕ → Pc) (i j : ℕ) (p : Pc) → i ≢ j → update pc j p i ≡ pc i
update_other pc i j p n =
    let miss : (i == j) ≡ false = elim (Bool-cases (i == j)) [
      | inl e ↦ absurd (n ((==_iff i j).0 e))
      | inr e ↦ e
    ] in
    rw miss refl

-- Behind the lock, `delete_me` runs to the end whatever it finds in `__me`.
deleted-Run :
    (s : Shared) (j : ℕ) (me : Option ℕ)
    → s.me ≡ me
    → s.pc j ≡ deleting
    → Run true s
    → (live : ℕ) × Run true (record (move j deleted s) { live = live })
deleted-Run s j none e at r = (s.live, next r (delete_none j at e))
deleted-Run s j (some a) e at r = (s.live - 1, next r (delete j a at e))

-- Where instances are deleted, a thread can be left before `return *__me` with no instance: any thread
-- that stands there while another one with a reference finds the lock free.
pub Run-null :
    (s : Shared) (i j a : ℕ)
    → Run true s
    → i ≢ j
    → s.pc i ≡ returning
    → s.pc j ≡ got a
    → s.owner ≡ none
    → (t : Shared) × Run true t × (t.pc i ≡ returning) × (t.me ≡ none)
Run-null s i j a r n at has free =
    let s1 = record (move j deleting s) { owner = some j } in
    let (live, r2) =
      deleted-Run s1 j s1.me refl (updated s.pc j deleting)
        (next r (lock_delete j a refl has free)) in
    let s2 = record (move j deleted s1) { live = live } in
    let s3 = record (move j forgotten s2) { me = none } in
    (
      s3,
      next r2 (forget j (updated s1.pc j deleted)),
      update_other s2.pc i j forgotten n
          ∙ update_other s1.pc i j deleted n
          ∙ update_other s.pc i j deleting n
          ∙ at,
      refl,
    )
