-- ===== src/Engine/Run.antt =====
-- The numbers of the runs, and the end of the health check loop.
use nrtb_redo.Common.{
  ℕ, zero, suc, ◌+◌, ◌*◌, ◌≤◌, ◌<◌, ◌≡◌, refl, sym, ap, ◌∙◌, Bool, true, false, not, ◌||◌, ◌++◌,
  List, [], ◌∷◌, none, some, length, take, arith, Bool-cases, inl, inr, ◌⊎◌, All, ◌==◌, ==_iff,
}
use nrtb_redo.Common.Bytes.{Bytes}
use nrtb_redo.Common.Int.{pos}
use nrtb_redo.Common.Decimal.{show_nat, take_digits, take_digits-show_nat}
use nrtb_redo.Engine.{Tm, secs, run_number, mk_run_id, Tock, is_healthy, health_loop}

-- A time of the calendar, with no leap second, before the year 10000.
pub record IsTime (t : Tm) : Type 0 where
  pub year : t.tm_year < 8100
  pub day : t.tm_yday < 366
  pub hour : t.tm_hour < 24
  pub minute : t.tm_min < 60
  pub second : t.tm_sec < 60

number_eq : (t : Tm) → IsTime t → run_number t ≡ t.tm_year * 31557600 + t.tm_yday * 86400 + secs t
unfolding run_number
number_eq t h = omega (arith, h.year, h.day, h.hour, h.minute, h.second)

show_nat_eq : (a b : ℕ) → show_nat a ≡ show_nat b → a ≡ b
show_nat_eq a b e = number_of (
    sym_read a ∙ ap (λ s. take_digits (s ++ (b' ' ∷ [])) 0) e ∙ take_digits-show_nat b b' ' [] refl)
  where
    sym_read : (k : ℕ) → (k, b' ' ∷ []) ≡ take_digits (show_nat k ++ (b' ' ∷ [])) 0
    sym_read k = sym (take_digits-show_nat k b' ' [] refl)

    number_of : {s : Bytes} → ◌≡◌ {A = ℕ × Bytes} (a, s) (b, s) → a ≡ b
    number_of p = ap (λ x. x.0) p

-- Two times of one year have the same id only if they are the same second of the same day. From six
-- o'clock on the last day of a leap year on, the id is that of the first day of
-- the next year at a time six hours earlier.
pub mk_run_id_lem :
    (t u : Tm)
    → IsTime t
    → IsTime u
    → (t.tm_year ≡ u.tm_year
        → mk_run_id t ≡ mk_run_id u
        → (t.tm_yday ≡ u.tm_yday) × (secs t ≡ secs u))
      × (t.tm_yday ≡ 365
          → u.tm_year ≡ t.tm_year + 1
          → u.tm_yday ≡ 0
          → secs t ≡ secs u + 21600
          → mk_run_id t ≡ mk_run_id u)
unfolding mk_run_id
mk_run_id_lem t u ht hu =
    let et = number_eq t ht in
    let eu = number_eq u hu in
    (
      (λ year e.
          let same : run_number t ≡ run_number u = show_nat_eq (run_number t) (run_number u) e in
          (
            omega (
              arith, et, eu, same, year, ht.hour, ht.minute, ht.second, hu.hour, hu.minute,
              hu.second,
            ),
            omega (
              arith, et, eu, same, year, ht.hour, ht.minute, ht.second, hu.hour, hu.minute,
              hu.second,
            ),
          )),
      λ last year first clock.
          let same : run_number t ≡ run_number u =
            omega (arith, et, eu, last, year, first, clock) in
          ap show_nat same,
    )

-- A round that ends the loop, whatever the time.
abbrev pub is_last : Tock → Bool
is_last k = k.user_exit_request || not (is_healthy k)

abbrev pub is_last_at : List Tock → ℕ → Bool
is_last_at [] i = false
is_last_at (k ∷ ks) zero = is_last k
is_last_at (k ∷ ks) (suc i) = is_last_at ks i

-- The loop ends after `i` rounds more and the next one, by the clock or by what that one sees.
abbrev pub EndsAt : ℕ → ℕ → List Tock → ℕ → Type 0
EndsAt run_time tocks ks i =
    (health_loop (pos run_time) tocks ks ≡ some (tocks + i + 1))
    × (tocks + i + 1 ≤ run_time * 10)
    × All (λ k. is_last k ≡ false) (take i ks)
    × ((tocks + i + 1 ≡ run_time * 10) ⊎ (is_last_at ks i ≡ true))

health_loop_hit :
    (run_time tocks : ℕ) (k : Tock) (ks : List Tock)
    → tocks < run_time * 10
    → (is_last k ≡ true) ⊎ (tocks + 1 ≡ run_time * 10)
    → health_loop (pos run_time) tocks (k ∷ ks) ≡ some (tocks + 1)
unfolding health_loop
health_loop_hit run_time tocks k ks h why = ground arith

health_loop_miss :
    (run_time tocks : ℕ) (k : Tock) (ks : List Tock)
    → tocks + 1 < run_time * 10
    → is_last k ≡ false
    → health_loop (pos run_time) tocks (k ∷ ks) ≡ health_loop (pos run_time) (tocks + 1) ks
unfolding health_loop
health_loop_miss run_time tocks k ks h calm = ground arith

EndsAt-now :
    (run_time tocks : ℕ) (k : Tock) (ks : List Tock)
    → tocks < run_time * 10
    → (is_last k ≡ true) ⊎ (tocks + 1 ≡ run_time * 10)
    → EndsAt run_time tocks (k ∷ ks) 0
EndsAt-now run_time tocks k ks h why = (
  health_loop_hit run_time tocks k ks h why ∙ ap some zero_more,
  omega (arith, h),
  tt,
  reason why,
)
  where
    zero_more : tocks + 1 ≡ tocks + 0 + 1
    zero_more = omega arith

    reason :
        (is_last k ≡ true) ⊎ (tocks + 1 ≡ run_time * 10)
        → (tocks + 0 + 1 ≡ run_time * 10) ⊎ (is_last_at (k ∷ ks) 0 ≡ true)
    reason (inl last) = inr last
    reason (inr late) = inl (omega (arith, late))

EndsAt-later :
    (run_time tocks : ℕ) (k : Tock) (ks : List Tock) (i : ℕ)
    → tocks + 1 < run_time * 10
    → is_last k ≡ false
    → EndsAt run_time (tocks + 1) ks i
    → EndsAt run_time tocks (k ∷ ks) (suc i)
EndsAt-later run_time tocks k ks i h calm (e, few, calms, why) = (
  health_loop_miss run_time tocks k ks h calm ∙ e ∙ ap some shift,
  omega (arith, few),
  (calm, calms),
  reason why,
)
  where
    shift : tocks + 1 + i + 1 ≡ tocks + suc i + 1
    shift = omega arith

    reason :
        (tocks + 1 + i + 1 ≡ run_time * 10) ⊎ (is_last_at ks i ≡ true)
        → (tocks + suc i + 1 ≡ run_time * 10) ⊎ (is_last_at ks i ≡ true)
    reason (inl late) = inl (omega (arith, late))
    reason (inr last) = inr last

health_loop-EndsAt :
    (run_time tocks : ℕ) (ks : List Tock)
    → tocks < run_time * 10
    → run_time * 10 ≤ tocks + length ks
    → (i : ℕ) × EndsAt run_time tocks ks i
health_loop-EndsAt run_time tocks [] h long = absurd (omega arith)
health_loop-EndsAt run_time tocks (k ∷ ks) h long = elim (Bool-cases (is_last k)) [
  | inl last ↦ (0, EndsAt-now run_time tocks k ks h (inl last))
  | inr calm ↦ elim (Bool-cases (tocks + 1 == run_time * 10)) [
    | inl late ↦
        (0, EndsAt-now run_time tocks k ks h (inr ((==_iff (tocks + 1) (run_time * 10)).0 late)))
    | inr early ↦
        let more : tocks + 1 < run_time * 10 = ground (arith, h, early) in
        let (i, later) = health_loop-EndsAt run_time (tocks + 1) ks more (omega (arith, long)) in
        (suc i, EndsAt-later run_time tocks k ks i more calm later)
  ]
]

health_loop-unlimited :
    (tocks : ℕ) (ks : List Tock)
    → All (λ k. is_last k ≡ false) ks
    → health_loop (pos 0) tocks ks ≡ none
unfolding health_loop
health_loop-unlimited tocks [] h = refl
health_loop-unlimited tocks (k ∷ ks) (calm, h) =
    ground (arith, calm, health_loop-unlimited (tocks + 1) ks h)

-- With a run time of some seconds the loop ends: after the first round with a request to exit or with a
-- part that is down, and at the latest after ten rounds for each second; no round before that is of this
-- kind. With the run time 0 it goes on as long as there is no such round.
pub health_loop_lem :
    (run_time : ℕ) (ks : List Tock)
    → (0 < run_time → run_time * 10 ≤ length ks → (i : ℕ) × EndsAt run_time 0 ks i)
      × (All (λ k. is_last k ≡ false) ks → health_loop (pos 0) 0 ks ≡ none)
health_loop_lem run_time ks = (
  (λ some_time long.
      health_loop-EndsAt run_time 0 ks (omega (arith, some_time)) (omega (arith, long))),
  λ calm. health_loop-unlimited 0 ks calm,
)
