-- ===== src/Sim/Run/Ticks.antt =====
-- cpp/sim_engine/sim_core/sim_core.cpp, `tick`: what the workers leave, in whatever order they work.

use nrtb_redo.Common.{
  ℕ, ◌<◌, ◌≤◌, ◌≡◌, refl, sym, ap, ◌∙◌, subst, Bool, true, false, ◌&&◌, not, List, ◌++◌,
  if◌then◌else◌, ◌==◌, Bool-cases, inl, inr, length, arith,
}
use nrtb_redo.Floats.{Floats}
use nrtb_redo.Queue.{Queue}
use nrtb_redo.Queue
use nrtb_redo.Sim.{ObjectClass, Clash, Flow, go, undefined, ◌>>>◌, Sim, refs}
use nrtb_redo.Sim.Packets.{deal, pairs, concat, copies, SameItems, deal-SameItems}
use nrtb_redo.Sim.Workers.{
  do_tick, do_apply, do_collision_check, each, each_once, IsIdle, run_through, run_through-IsIdle,
  push_all, push_all_open, bump,
}
use nrtb_redo.Sim.Run.{
  Surroundings, tick, tick_phase, collision_check, apply_phase, worked, recorded, is_nil,
}

-- A worker order that gets to every item of the packets, each as often as it stands in them.
abbrev pub IsFair : {A : Type 0} → (List (List A) → List A) → Type 0
IsFair order = (ps : _) → SameItems (order ps) (concat ps)

pub record IsFairTurn {F : Type 0} (w : Surroundings F) : Type 0 where
  pub ticks_fair : IsFair w.tick_order
  pub checks_fair : IsFair w.check_order
  pub applies_fair : IsFair w.apply_order

-- A simulation between two turns: workers, idle work queues, and every object once in the list.
pub record IsSteady {F O : Type 0} (s : Sim F O) : Type 0 where
  pub workers : 0 < s.worker_count
  pub ticks_idle : IsIdle s.ticklist
  pub checks_idle : IsIdle s.clsn_work_list
  pub applies_idle : IsIdle s.applylist
  pub collisions_open : s.collisions.ready ≡ true
  pub once : (r : ℕ) → copies r (refs s.all_objects) ≤ 1

module _ {F O : Type 0} ⦃n : Floats F⦄ (c : ObjectClass F O) (ticks_of : F → ℕ) where
  -- Any fair order gives the same store.
  each_fair :
      (f : O → O) (order : List (List ℕ) → List ℕ) (workers : ℕ) (rs : List ℕ) (store : ℕ → O)
      (r : ℕ)
      → 0 < workers
      → IsFair order
      → copies r rs ≤ 1
      → each f (order (deal workers rs)) store r
        ≡ (if copies r rs == 1 then f (store r) else store r)
  each_fair f order workers rs store r h fair once =
      let same =
        fair (deal workers rs) (λ x. x == r) ∙ (deal-SameItems workers rs h).1 (λ x. x == r) in
      each_once f (order (deal workers rs)) store r (subst (λ k. k ≤ 1) (sym same) once)
      ∙ ap (λ k. if k == 1 then f (store r) else store r) same

  -- The store after the `tick` calls of a turn.
  abbrev pub ticked : Surroundings F → Sim F O → ℕ → O
  ticked w s =
      each (do_tick c s.quanta_duration) (w.tick_order (deal s.worker_count (refs s.all_objects)))
        s.store

  abbrev applied : Surroundings F → Sim F O → ℕ → O
  applied w s =
      each (do_apply c s.quanta_duration) (w.apply_order (deal s.worker_count (refs s.all_objects)))
        s.store

  abbrev hits : Surroundings F → Sim F O → List Clash
  hits w s =
      do_collision_check c s.quanta_duration s.store
        (w.check_order (deal s.worker_count (pairs (refs s.all_objects))))

  -- The collisions that the workers find in a turn.
  abbrev pub found : Surroundings F → Sim F O → List Clash
  found w s =
      do_collision_check c s.quanta_duration (ticked w s)
        (w.check_order (deal s.worker_count (pairs (refs s.all_objects))))

  only_once :
      (k : ℕ) (f g : O → O) (o x : O)
      → x ≡ (if k == 1 then g o else o)
      → (if k == 1 then f x else x) ≡ (if k == 1 then f (g o) else o)
  only_once k f g o x e = elim (Bool-cases (k == 1)) [
    | inl b ↦ rw b (ap f (e ∙ rw b refl))
    | inr b ↦ rw b (e ∙ rw b refl)
  ]

  tick_phase_lem :
      (w : Surroundings F) (s : Sim F O) (q : Queue (List ℕ))
      → run_through (deal s.worker_count (refs s.all_objects)) s.ticklist ≡ Queue.returns q
      → tick_phase c ticks_of w s ≡ go (record s { ticklist = q; store = ticked w s })
  unfolding tick_phase
  tick_phase_lem w s q e =
      ap (λ a. worked c ticks_of s a (λ q. go (record s { ticklist = q; store = ticked w s }))) e

  apply_phase_lem :
      (w : Surroundings F) (s : Sim F O) (q : Queue (List ℕ))
      → run_through (deal s.worker_count (refs s.all_objects)) s.applylist ≡ Queue.returns q
      → apply_phase c ticks_of w s ≡ go (record s { applylist = q; store = applied w s })
  unfolding apply_phase
  apply_phase_lem w s q e =
      ap (λ a. worked c ticks_of s a (λ q. go (record s { applylist = q; store = applied w s }))) e

  collision_check_lem :
      (w : Surroundings F) (s : Sim F O) (q : Queue (List Clash)) (p : Queue Clash)
      → run_through (deal s.worker_count (pairs (refs s.all_objects))) s.clsn_work_list
        ≡ Queue.returns q
      → push_all (hits w s) s.collisions ≡ Queue.returns p
      → collision_check c ticks_of w s ≡ go (record s { clsn_work_list = q; collisions = p })
  unfolding collision_check
  collision_check_lem w s q p e f =
      ap
        (λ a. worked c ticks_of s a (λ q.
          recorded c ticks_of (record s { clsn_work_list = q }) (push_all (hits w s) s.collisions)))
        e
      ∙ ap (recorded c ticks_of (record s { clsn_work_list = q })) f

  some_workers : (k : ℕ) (b : Bool) → 0 < k → ((k == 0) && b) ≡ false
  some_workers k b h = ground arith

  tick_phases :
      (w : Surroundings F) (s s1 s2 : Sim F O) (f : Flow (Sim F O))
      → 0 < s.worker_count
      → tick_phase c ticks_of w s ≡ go s1
      → collision_check c ticks_of w s1 ≡ go s2
      → apply_phase c ticks_of w s2 ≡ f
      → tick c ticks_of w s ≡ f
  unfolding tick
  tick_phases w s s1 s2 f h e e' e'' =
      ap
        (λ b.
          if b
          then undefined
          else (tick_phase c ticks_of w s
              >>> collision_check c ticks_of w
              >>> apply_phase c ticks_of w))
        (some_workers s.worker_count (not (is_nil s.all_objects)) h)
      ∙ ap (λ g. g >>> collision_check c ticks_of w >>> apply_phase c ticks_of w) e
      ∙ ap (λ g. g >>> apply_phase c ticks_of w) e'
      ∙ e''

  -- In a steady simulation, whatever fair orders the workers take, the tick of a turn returns: the work
  -- queues are idle again, every object of the list has had its `tick` and then its `apply`, from its own
  -- state, no other object is touched, and the collisions found are added to those waiting.
  pub tick_lem :
      (w : Surroundings F) (s : Sim F O)
      → IsFairTurn w
      → IsSteady s
      → (t : Sim F O) × (tick c ticks_of w s ≡ go t)
        × IsSteady t
        × (t.all_objects ≡ s.all_objects)
        × (t.collisions.buffer ≡ s.collisions.buffer ++ found w s)
        × ((r : ℕ)
            → t.store r ≡ (
                if copies r (refs s.all_objects) == 1
                then do_apply c s.quanta_duration (do_tick c s.quanta_duration (s.store r))
                else s.store r))
  tick_lem w s fair v =
      let n_workers = s.worker_count in
      let rs = refs s.all_objects in
      let (q1, e1, idle1) = run_through-IsIdle (deal n_workers rs) s.ticklist v.ticks_idle in
      let (q2, e2, idle2) =
        run_through-IsIdle (deal n_workers (pairs rs)) s.clsn_work_list v.checks_idle in
      let (q3, e3, idle3) = run_through-IsIdle (deal n_workers rs) s.applylist v.applies_idle in
      let s1 = record s { ticklist = q1; store = ticked w s } in
      let filled = record s.collisions {
        buffer = s.collisions.buffer ++ found w s;
        in_count = bump (length (found w s)) s.collisions.in_count;
      } in
      let s2 = record s1 { clsn_work_list = q2; collisions = filled } in
      let s3 = record s2 { applylist = q3; store = applied w s2 } in
      (
        s3,
        tick_phases w s s1 s2 (go s3) v.workers (tick_phase_lem w s q1 e1)
            (collision_check_lem w s1 q2 filled e2
              (push_all_open (found w s) s.collisions v.collisions_open))
            (apply_phase_lem w s2 q3 e3),
        record {
          workers = v.workers;
          ticks_idle = idle1;
          checks_idle = idle2;
          applies_idle = idle3;
          collisions_open = v.collisions_open;
          once = v.once;
        },
        refl,
        refl,
        λ r.
            each_fair (do_apply c s.quanta_duration) w.apply_order n_workers rs (ticked w s) r
              v.workers fair.applies_fair (v.once r)
            ∙ only_once (copies r rs) (do_apply c s.quanta_duration) (do_tick c s.quanta_duration)
                (s.store r) (ticked w s r)
                (each_fair (do_tick c s.quanta_duration) w.tick_order n_workers rs s.store r
                  v.workers fair.ticks_fair (v.once r)),
      )
