-- ===== src/Timer/Bounds.antt =====
-- What a timer shows while it is started and stopped, against the clock.
use nrtb_redo.Common.{ℕ, ◌+◌, ◌-◌, ◌<◌, ◌≤◌, ◌≡◌, List, [], ◌∷◌, if◌then◌else◌, arith}
use nrtb_redo.Common.Words.{u64_mod}
use nrtb_redo.Timer.{Timer, start, stop_timer, interval_as_usec, interval_time}

pub data TimerCall : Type 0 where
  starts stops : ℕ → TimerCall

unfoldable pub call : TimerCall → Timer → Timer
call (starts now) t = start 0 now t
call (stops now) t = stop_timer now t

unfoldable pub calls : List TimerCall → Timer → Timer
unfolding call
calls [] t = t
calls (c ∷ cs) t = calls cs (call c t)

abbrev pub time_of : TimerCall → ℕ
time_of (starts now) = now
time_of (stops now) = now

-- The clock does not go back, and fits in 64 bits.
abbrev pub Rises : ℕ → List TimerCall → ℕ → Type 0
Rises last [] now = (last ≤ now) × (now < u64_mod)
Rises last (c ∷ cs) now = (last ≤ time_of c) × (time_of c < u64_mod) × Rises (time_of c) cs now

-- The timer was started in the past, and has not run for longer than the clock.
abbrev pub IsTimed : ℕ → Timer → Type 0
IsTimed last t =
    (last < u64_mod)
    × (if t.running then (t.starttime ≤ last) × (t.elapsed ≤ t.starttime) else (t.elapsed ≤ last))

-- One call, at a time not before the last.
call-IsTimed :
    (last : ℕ) (c : TimerCall) (t : Timer)
    → IsTimed last t
    → last ≤ time_of c
    → time_of c < u64_mod
    → IsTimed (time_of c) (call c t)
      × (interval_time (time_of c) (call c t) ≡ interval_time (time_of c) t)
unfolding call start stop_timer interval_time
call-IsTimed last (starts now) t v h k = ground arith
call-IsTimed last (stops now) t v h k = ground arith

Rises-le : (last : ℕ) (cs : List TimerCall) (now : ℕ) → Rises last cs now → last ≤ now
Rises-le last [] now r = r.0
Rises-le last (c ∷ cs) now (h, k, r) = omega (arith, h, Rises-le (time_of c) cs now r)

-- Without a call, the timer moves with the clock or not at all.
waits-bounds :
    (last now : ℕ) (t : Timer)
    → IsTimed last t
    → last ≤ now
    → now < u64_mod
    → (interval_time last t ≤ interval_time now t)
      × (interval_time now t ≤ interval_time last t + (now - last))
unfolding interval_time
waits-bounds last now t v h k = ground arith

-- Between two times of a clock that does not go back and stays below 2 ^ 64, whatever calls of `start`
-- without an initial value and of the stop methods a timer gets, provided that it was started in the
-- past and has run no longer than the clock: what it shows does not shrink, and grows by no more than
-- the clock does.
pub interval-calls :
    (last : ℕ) (cs : List TimerCall) (now : ℕ) (t : Timer)
    → IsTimed last t
    → Rises last cs now
    → (interval_as_usec last t ≤ interval_as_usec now (calls cs t))
      × (interval_as_usec now (calls cs t) ≤ interval_as_usec last t + (now - last))
unfolding calls interval_as_usec
interval-calls last [] now t v (h, k) = waits-bounds last now t v h k
interval-calls last (c ∷ cs) now t v (h, k, r) =
    let (timed, same) = call-IsTimed last c t v h k in
    let (low, high) = waits-bounds last (time_of c) t v h k in
    let (low', high') = interval-calls (time_of c) cs now (call c t) timed r in
    let later = Rises-le (time_of c) cs now r in
    (omega (arith, low, low', same), omega (arith, high, high', same, later, h))
