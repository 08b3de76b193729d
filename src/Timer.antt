-- ===== src/Timer.antt =====
-- cpp/common/timer/hires_timer.h and hires_timer.cpp: the stop watch, in microseconds. The clock is a
-- parameter: `now` is what `gettimeofday` shows in the call. `double_to_ll(init)` is the argument `init`.
pub mod Bounds
use nrtb_redo.Common.{ℕ, ◌+◌, ◌*◌, ◌/◌, ◌%◌, ◌^◌, Bool, true, false, if◌then◌else◌, ltb}
use nrtb_redo.Common.Words.{u64_mod, add64, sub64}

pub record Timer : Type 0 where
  pub starttime : ℕ
  pub elapsed : ℕ
  pub running : Bool

-- `timeval`
pub record TimeVal : Type 0 where
  pub tv_sec : ℕ
  pub tv_usec : ℕ

unfoldable pub tv_to_ll : TimeVal → ℕ
tv_to_ll tv = add64 ((tv.tv_sec * 1000000) % u64_mod) tv.tv_usec

unfoldable pub ll_to_tv : ℕ → TimeVal
ll_to_tv ll = record { tv_sec = ll / 1000000; tv_usec = ll % 1000000 }

unfoldable pub reset : Timer → Timer
reset t = record { starttime = 0; elapsed = 0; running = false }

unfoldable pub start : ℕ → ℕ → Timer → Timer
start init now t =
    if t.running
    then record t { running = true }
    else record t { starttime = if ltb 0 init then sub64 now init else now; running = true }

unfoldable pub start_at : TimeVal → Timer → Timer
unfolding tv_to_ll
start_at init t = record t { starttime = tv_to_ll init; running = true }

unfoldable pub construct : ℕ → ℕ → Timer
unfolding reset start
construct init now = start init now (reset (record { starttime = 0; elapsed = 0; running = false }))

unfoldable pub stop_timer : ℕ → Timer → Timer
stop_timer now t =
    if t.running
    then record t { elapsed = add64 t.elapsed (sub64 now t.starttime); running = false }
    else record t { running = false }

unfoldable pub stop_as_usec : ℕ → Timer → ℕ × Timer
unfolding stop_timer
stop_as_usec now t = let t' = stop_timer now t in (t'.elapsed, t')

unfoldable pub interval_time : ℕ → Timer → ℕ
interval_time now t = if t.running then add64 t.elapsed (sub64 now t.starttime) else t.elapsed

unfoldable pub interval_as_usec : ℕ → Timer → ℕ
unfolding interval_time
interval_as_usec now t = interval_time now t
