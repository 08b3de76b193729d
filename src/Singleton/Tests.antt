-- ===== src/Singleton/Tests.antt =====
-- The theorem about the instances of a singleton, after a run of two threads.
use nrtb_redo.Common.{ℕ, ◌≤◌, ◌≡◌, refl, none, false, some}
use nrtb_redo.Singleton.{
  returning, got, Shared, start, move, making, leaving, locked, waiting, entered, call, see_none,
  lock, still_none, make, unlock, give, Run, here, next,
}
use nrtb_redo.Singleton.Instances.{Run-live}

-- Both threads find no instance; the first takes the lock and makes one.
abbrev seen : Shared
seen = move 2 waiting (move 1 waiting (move 2 entered (move 1 entered start)))

abbrev under_lock : Shared
under_lock = move 1 making (record (move 1 locked seen) { owner = some 1 })

abbrev made : Shared
made = record (move 1 leaving under_lock) { me = some 0; made = 1; live = 1 }

abbrev finished : Shared
finished = move 1 (got 0) (record (move 1 returning made) { owner = none })

Run-seen : Run false seen
Run-seen =
    next (next (next (next here (call 1 refl)) (call 2 refl)) (see_none 1 refl refl))
      (see_none 2 refl refl)

Run-finished : Run false finished
Run-finished =
    next
      (next (next (next (next Run-seen (lock 1 refl refl)) (still_none 1 refl refl)) (make 1 refl))
        (unlock 1 refl))
      (give 1 0 refl refl)

Run-live_example :
    (finished.live ≤ 1)
    × (false ≡ false
        → ((i : ℕ) → finished.pc i ≡ returning → (a : ℕ) × (finished.me ≡ some a))
          × ((i j a b : ℕ)
              → finished.pc i ≡ got a
              → finished.pc j ≡ got b
              → (a ≡ b) × (finished.me ≡ some a)))
Run-live_example = Run-live Run-finished
