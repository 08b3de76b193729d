-- ===== src/Socket/Listen/Started.antt =====
-- `start_listen`: the start of the listening thread, and the wait until it listens.
use nrtb_redo.Common.{
  ℕ, zero, suc, ◌+◌, ◌<◌, ◌≡◌, refl, sym, ap, ◌∙◌, Bool, true, false, ◌||◌, if◌then◌else◌, arith,
  Bool-cases, inl, inr,
}
use nrtb_redo.Socket.Listen.{Listener}

pub data Started : Type 0 where
  started already_running_exception bind_failure_exception : Started

-- `while (!listening() and countdown)`: `polls i` is what the call number `i` of `listening` gives. The
-- result is the countdown behind the loop.
unfoldable pub poll_loop : (ℕ → Bool) → ℕ → ℕ → ℕ
poll_loop polls i zero = 0
poll_loop polls i (suc countdown) = elim (polls i) [
  | true ↦ suc countdown
  | false ↦ poll_loop polls (suc i) countdown
]

abbrev pub outcome : ℕ → Started
outcome zero = bind_failure_exception
outcome (suc countdown) = started

-- The thread runs from the assignment on, also when the wait for it fails.
unfoldable pub start_listen : (ℕ → Bool) → Listener → Started × Listener
unfolding poll_loop
start_listen polls l =
    if l.in_run_method || l.joinable
    then (already_running_exception, l)
    else (outcome (poll_loop polls 0 99), record l { joinable = true })

poll_loop_now :
    (polls : ℕ → Bool) (i countdown : ℕ)
    → polls i ≡ true
    → poll_loop polls i (suc countdown) ≡ suc countdown
unfolding poll_loop
poll_loop_now polls i countdown h = rw (h, poll_loop) refl

poll_loop_later :
    (polls : ℕ → Bool) (i countdown : ℕ)
    → polls i ≡ false
    → poll_loop polls i (suc countdown) ≡ poll_loop polls (suc i) countdown
unfolding poll_loop
poll_loop_later polls i countdown h = rw (h, poll_loop) refl

poll_loop-hit :
    (polls : ℕ → Bool) (i countdown k : ℕ)
    → k < countdown
    → polls (i + k) ≡ true
    → (r : ℕ) × (poll_loop polls i countdown ≡ suc r)
poll_loop-hit polls i zero k h hit = absurd (omega arith)
poll_loop-hit polls i (suc countdown) zero h hit =
    let same : i ≡ i + 0 = omega arith in
    (countdown, poll_loop_now polls i countdown (ap polls same ∙ hit))
poll_loop-hit polls i (suc countdown) (suc k) h hit = elim (Bool-cases (polls i)) [
  | inl now ↦ (countdown, poll_loop_now polls i countdown now)
  | inr not_yet ↦
      let same : suc i + k ≡ i + suc k = omega arith in
      let (r, e) =
        poll_loop-hit polls (suc i) countdown k (omega (arith, h)) (ap polls same ∙ hit) in
      (r, poll_loop_later polls i countdown not_yet ∙ e)
]

poll_loop-miss :
    (polls : ℕ → Bool) (i countdown : ℕ)
    → ((k : ℕ) → k < countdown → polls (i + k) ≡ false)
    → poll_loop polls i countdown ≡ 0
unfolding poll_loop
poll_loop-miss polls i zero h = refl
poll_loop-miss polls i (suc countdown) h =
    let first : i ≡ i + 0 = omega arith in
    poll_loop_later polls i countdown (ap polls first ∙ h 0 (omega arith))
    ∙ poll_loop-miss polls (suc i) countdown (λ k few.
      let same : suc i + k ≡ i + suc k = omega arith in
      ap polls same ∙ h (suc k) (omega (arith, few)))

-- On a listener that is not running: the start succeeds if one of the first 99 looks at the thread finds
-- it listening; if none of them does, it fails, also when the thread listens at the last look, the
-- hundredth; and either way the thread has been started, so that another start is refused.
pub start_listen_lem :
    (polls : ℕ → Bool) (l : Listener)
    → l.in_run_method ≡ false
    → l.joinable ≡ false
    → ((k : ℕ) → k < 99 → polls k ≡ true → (start_listen polls l).0 ≡ started)
      × (((k : ℕ) → k < 99 → polls k ≡ false) → (start_listen polls l).0 ≡ bind_failure_exception)
      × ((again : ℕ → Bool)
          → (start_listen again (start_listen polls l).1).0 ≡ already_running_exception)
unfolding start_listen
start_listen_lem polls l idle none_yet =
    rw (idle, none_yet)
      (
        (λ k few hit.
            let same : k ≡ 0 + k = omega arith in
            let (r, e) = poll_loop-hit polls 0 99 k few (ap polls (sym same) ∙ hit) in
            ap outcome e),
        (λ h. ap outcome (
            poll_loop-miss polls 0 99
              (λ k few. let same : k ≡ 0 + k = omega arith in ap polls (sym same) ∙ h k few))),
        (λ again. refl),
      )
