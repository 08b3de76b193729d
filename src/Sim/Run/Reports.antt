-- ===== src/Sim/Run/Reports.antt =====
-- cpp/sim_engine/sim_core/sim_core.cpp: the reports that a run puts out, by their numbers.
use nrtb_redo.Common.{
  ℕ, zero, suc, ◌%◌, ◌≡◌, refl, sym, ap, ◌∙◌, true, ◌||◌, List, [], ◌∷◌, ◌++◌, append_assoc,
  append-nil, leb, ◌⊎◌, inl, inr, Bool-cases, arith,
}
use nrtb_redo.Common.Words.{u64_mod, add64}
use nrtb_redo.Floats.{Floats}
use nrtb_redo.Queue.{Queue, Attempt, push, pop}
use nrtb_redo.Queue
use nrtb_redo.Sim.{
  ObjectClass, Flow, go, throws, waits, terminates, undefined, ◌>>>◌, Report, Sim, get_report,
}
use nrtb_redo.Sim.Init.{turn_init}
use nrtb_redo.Sim.Run.{
  Surroundings, tick, resolve_collisions, publish, report, sleep, turn_end, turn, arrive, loop,
  close_out, caught, run_sim,
}
use nrtb_redo.Sim.Run.Kept.{Leads, Same, Leads-either, Leads-then_both, Same-then, turn_init-Keeps}
use nrtb_redo.Sim.Run.Kept.Phases.{tick-Keeps, resolve_loop-Keeps, publish-Keeps, arrive-Keeps}

-- 1, 2, 3 and so on, as a counter of 64 bits shows them.
abbrev pub numbers : ℕ → List ℕ
numbers zero = []
numbers (suc k) = numbers k ++ (suc k % u64_mod ∷ [])

next_number : (k : ℕ) → add64 (k % u64_mod) 1 ≡ suc k % u64_mod
next_number k = omega arith

module _ {F : Type 0} where
  abbrev pub quantas : List (Report F) → List ℕ
  quantas [] = []
  quantas (r ∷ rs) = r.quanta ∷ quantas rs

  quantas-append : (rs ss : List (Report F)) → quantas (rs ++ ss) ≡ quantas rs ++ quantas ss
  quantas-append [] ss = refl
  quantas-append (r ∷ rs) ss = ap (◌∷◌ r.quanta) (quantas-append rs ss)

module _ {F O : Type 0} where
  -- After `k` turns that were reported.
  abbrev AtTurn : List ℕ → ℕ → Sim F O → Type 0
  AtTurn base k s = (quantas s.output ≡ base ++ numbers k) × (s.quanta ≡ k % u64_mod)

  -- The reports behind `base` carry the numbers of `turns` turns; one more may have begun.
  pub record IsNumbered (base : List ℕ) (s : Sim F O) : Type 0 where
    pub turns : ℕ
    pub reported : quantas s.output ≡ base ++ numbers turns
    pub counted : (s.quanta ≡ turns % u64_mod) ⊎ (s.quanta ≡ suc turns % u64_mod)

  AtTurn-IsNumbered : (base : List ℕ) (k : ℕ) (s : Sim F O) → AtTurn base k s → IsNumbered base s
  AtTurn-IsNumbered base k s (reported, now) = record {
    turns = k;
    reported = reported;
    counted = inl now;
  }

module _ {F O : Type 0} ⦃n : Floats F⦄ (c : ObjectClass F O) (ticks_of : F → ℕ) where
  module _ (base : List ℕ) where
    -- A report with the number of the turn.
    report-AtTurn :
        (k usec : ℕ) (wt : F) (s : Sim F O)
        → quantas s.output ≡ base ++ numbers k
        → s.quanta ≡ suc k % u64_mod
        → AtTurn base (suc k) (report c ticks_of usec wt s)
    unfolding report get_report
    report-AtTurn k usec wt s reported now = (
      quantas-append s.output (get_report c usec wt s ∷ [])
          ∙ ap (λ x. quantas s.output ++ (x ∷ [])) now
          ∙ ap (λ l. l ++ (suc k % u64_mod ∷ [])) reported
          ∙ append_assoc base (numbers k) (suc k % u64_mod ∷ []),
      now,
    )

    turn_end-IsNumbered :
        (k : ℕ) (w : Surroundings F) (ticks nexttime : ℕ) (s1 : Sim F O)
        (next : Sim F O → Flow (Sim F O))
        → quantas s1.output ≡ base ++ numbers k
        → s1.quanta ≡ suc k % u64_mod
        → ((s : Sim F O) → AtTurn base (suc k) s → Leads (IsNumbered base) (next s))
        → Leads (IsNumbered base) (turn_end c ticks_of w ticks nexttime s1 >>> next)
    unfolding turn_end sleep
    turn_end-IsNumbered k w ticks nexttime s1 next reported now later =
        let s2 = publish c ticks_of s1 in
        let (same_out, same_now) = publish-Keeps c ticks_of s1 s1 (refl, refl) in
        let s3 = report c ticks_of w.elapsed w.wall s2 in
        let at =
          report-AtTurn k w.elapsed w.wall s2 (ap (λ o. quantas o) same_out ∙ reported)
            (same_now ∙ now) in
        elim (Bool-cases (leb ticks w.elapsed)) [
          | inl late ↦ rw late (AtTurn-IsNumbered base (suc k) s3 at)
          | inr early ↦ rw early (later (sleep c ticks_of nexttime w.wall_usec s3) at)
        ]

    turn-IsNumbered :
        (k : ℕ) (w : Surroundings F) (ticks nexttime : ℕ) (s : Sim F O)
        (next : Sim F O → Flow (Sim F O))
        → AtTurn base k s
        → ((t : Sim F O) → AtTurn base (suc k) t → Leads (IsNumbered base) (next t))
        → Leads (IsNumbered base) (turn c ticks_of w ticks nexttime s >>> next)
    unfolding turn
    turn-IsNumbered k w ticks nexttime s next (reported, now) later =
        let s0 = record s { quanta = add64 s.quanta 1 } in
        let now0 : s0.quanta ≡ suc k % u64_mod = ap (λ q. add64 q 1) now ∙ next_number k in
        Leads-then_both (Same s0) (IsNumbered base)
          (turn_init c s0 >>> tick c ticks_of w >>> resolve_collisions c ticks_of)
          (turn_end c ticks_of w ticks nexttime) next
          (Same-then s0 (turn_init c s0 >>> tick c ticks_of w) (resolve_collisions c ticks_of)
            (Same-then s0 (turn_init c s0) (tick c ticks_of w)
              (turn_init-Keeps c s0 s0 (refl, refl)) (λ s1 h1. tick-Keeps c ticks_of s0 w s1 h1))
            (λ s2 h2.
              unfold resolve_collisions in
              resolve_loop-Keeps c ticks_of s0 (Queue.size s2.collisions) s2 h2))
          (λ s3 h3. record {
            turns = k;
            reported = ap (λ o. quantas o) h3.0 ∙ reported;
            counted = inr (h3.1 ∙ now0);
          })
          (λ s3 h3.
            turn_end-IsNumbered k w ticks nexttime s3 next (ap (λ o. quantas o) h3.0 ∙ reported)
              (h3.1 ∙ now0) later)

    loop-IsNumbered :
        (ws : List (Surroundings F)) (ticks nexttime k : ℕ) (s : Sim F O)
        → AtTurn base k s
        → Leads (IsNumbered base) (loop c ticks_of ws ticks nexttime s)
    unfolding loop
    loop-IsNumbered [] ticks nexttime k s h = AtTurn-IsNumbered base k s h
    loop-IsNumbered (w ∷ ws) ticks nexttime k s (reported, now) =
        let s0 = record s { end_run = s.end_run || w.stops } in
        let s1 = arrive c ticks_of w.arrivals s0 in
        let (same_out, same_now) = arrive-Keeps c ticks_of s0 w.arrivals s0 (refl, refl) in
        let at : AtTurn base k s1 = (ap (λ o. quantas o) same_out ∙ reported, same_now ∙ now) in
        Leads-either (IsNumbered base) s1.end_run (go s1)
          (turn c ticks_of w ticks nexttime s1 >>> loop c ticks_of ws ticks (add64 nexttime ticks))
          (AtTurn-IsNumbered base k s1 at)
          (turn-IsNumbered k w ticks nexttime s1 (loop c ticks_of ws ticks (add64 nexttime ticks))
            at (λ t h. loop-IsNumbered ws ticks (add64 nexttime ticks) (suc k) t h))

    caught-IsNumbered :
        (f : Flow (Sim F O))
        → Leads (IsNumbered base) f
        → Leads (IsNumbered base) (caught c ticks_of f)
    unfolding close_out
    caught-IsNumbered (go s) h = record {
      turns = h.turns;
      reported = h.reported;
      counted = h.counted;
    }
    caught-IsNumbered (throws e s) h = record {
      turns = h.turns;
      reported = h.reported;
      counted = h.counted;
    }
    caught-IsNumbered (waits s) h = h
    caught-IsNumbered terminates h = tt
    caught-IsNumbered undefined h = tt

  -- Whatever arrives, and whether the run stops, throws, waits or goes on where it got to: it has put out
  -- one report with the number that was left from before, and then one for each of its turns, numbered 1,
  -- 2, 3 and so on, in this order and none left out, except for a last turn that began and did not get as
  -- far as its report. Nothing is said of a run that ends the program or is undefined.
  pub run_sim-IsNumbered :
      (ws : List (Surroundings F)) (s : Sim F O)
      → Leads (IsNumbered (quantas s.output ++ (s.quanta ∷ []))) (run_sim c ticks_of ws s)
  unfolding run_sim report get_report
  run_sim-IsNumbered ws s =
      let base = quantas s.output ++ (s.quanta ∷ []) in
      let s0 = record s { is_running = true } in
      let s1 = record (report c ticks_of 0 n.nought s0) { quanta = 0 } in
      let ticks = ticks_of s.quanta_duration in
      caught-IsNumbered base (loop c ticks_of ws ticks ticks s1) (
        loop-IsNumbered base ws ticks ticks 0 s1
          (quantas-append s.output (get_report c 0 n.nought s0 ∷ []) ∙ sym (append-nil base), refl))
