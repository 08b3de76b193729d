-- ===== src/Singleton.antt =====
-- cpp/common/singleton/singleton.h: threads that call `get_reference` and `delete_me` of one singleton, a
-- shared access at a time. Reads and writes of `__me` take effect in the order of the steps.
pub mod Instances
pub mod Deletes
mod Tests
use nrtb_redo.Common.{
  ℕ, suc, ◌+◌, ◌-◌, ◌≤◌, ◌≡◌, refl, Bool, true, false, ◌||◌, Option, none, some, if◌then◌else◌,
  ◌==◌, ==_iff, arith,
}

-- Where a thread stands.
pub data Pc : Type 0 where
  -- outside, before the first test, behind it, behind the lock, behind the second test
  idle entered waiting locked making : Pc
  -- before the unlock, before `return *__me`
  leaving returning : Pc
  -- with the reference that it got
  got : ℕ → Pc
  -- in `delete_me`: behind the lock, behind `delete __me`, and before the unlock
  deleting deleted forgotten : Pc

-- `__me` and `__mylock`, the number of instances made so far, which names them, and of those that live.
pub record Shared : Type 0 where
  pub me : Option ℕ
  pub owner : Option ℕ
  pub made : ℕ
  pub live : ℕ
  pub pc : ℕ → Pc

abbrev pub start : Shared
start = record { me = none; owner = none; made = 0; live = 0; pc = λ i. idle }

abbrev pub update : (ℕ → Pc) → ℕ → Pc → ℕ → Pc
update pc i p j = if j == i then p else pc j

abbrev pub move : ℕ → Pc → Shared → Shared
move i p s = record s { pc = update s.pc i p }

-- `deletes` says whether threads may call `delete_me`.
pub data Step (deletes : Bool) (s : Shared) : Shared → Type 0 where
  call : (i : ℕ) → s.pc i ≡ idle → Step deletes s (move i entered s)
  see_none : (i : ℕ) → s.pc i ≡ entered → s.me ≡ none → Step deletes s (move i waiting s)
  see_some : (i a : ℕ) → s.pc i ≡ entered → s.me ≡ some a → Step deletes s (move i returning s)
  lock :
      (i : ℕ)
      → s.pc i ≡ waiting
      → s.owner ≡ none
      → Step deletes s (record (move i locked s) { owner = some i })
  still_none : (i : ℕ) → s.pc i ≡ locked → s.me ≡ none → Step deletes s (move i making s)
  now_some : (i a : ℕ) → s.pc i ≡ locked → s.me ≡ some a → Step deletes s (move i leaving s)
  make :
      (i : ℕ)
      → s.pc i ≡ making
      → Step deletes s
          (record (move i leaving s) { me = some s.made; made = s.made + 1; live = s.live + 1 })
  unlock :
      (i : ℕ) → s.pc i ≡ leaving → Step deletes s (record (move i returning s) { owner = none })
  give : (i a : ℕ) → s.pc i ≡ returning → s.me ≡ some a → Step deletes s (move i (got a) s)
  lock_delete :
      (i a : ℕ)
      → deletes ≡ true
      → s.pc i ≡ got a
      → s.owner ≡ none
      → Step deletes s (record (move i deleting s) { owner = some i })
  delete :
      (i a : ℕ)
      → s.pc i ≡ deleting
      → s.me ≡ some a
      → Step deletes s (record (move i deleted s) { live = s.live - 1 })
  delete_none : (i : ℕ) → s.pc i ≡ deleting → s.me ≡ none → Step deletes s (move i deleted s)
  forget : (i : ℕ) → s.pc i ≡ deleted → Step deletes s (record (move i forgotten s) { me = none })
  unlock_delete :
      (i : ℕ) → s.pc i ≡ forgotten → Step deletes s (record (move i idle s) { owner = none })

pub data Run (deletes : Bool) : Shared → Type 0 where
  here : Run deletes start
  next : {s t : Shared} → Run deletes s → Step deletes s t → Run deletes t
