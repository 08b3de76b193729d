-- ===== src/Sim/Workers.antt =====
-- cpp/sim_engine/sim_core/sim_core.cpp, the worker threads `do_tick`, `do_apply` and
-- `do_collision_check`, and the packets' way through a work queue. An object is worked on by one worker,
-- and a worker changes no other object, so the workers' progress is the order in which they reach the
-- objects: any order that holds every object once.
use nrtb_redo.Common.{
  ℕ, zero, suc, ◌+◌, ◌≤◌, ◌≡◌, refl, sym, ap, ◌∙◌, true, false, not, List, [], ◌∷◌, ◌++◌,
  append_assoc, append-nil, if◌then◌else◌, ◌==◌, ==_iff, length, arith,
}
use nrtb_redo.Queue.{Queue, Attempt, push, pop, task_done, join}
use nrtb_redo.Queue
use nrtb_redo.Sim.{ObjectClass, Clash, put}
use nrtb_redo.Sim.Init.{set_alive}
use nrtb_redo.Sim.Packets.{copies}

module _ {F O : Type 0} (c : ObjectClass F O) (quanta_duration : F) where
  -- `o->alive = !o->tick(quanta_duration)`
  unfoldable pub do_tick : O → O
  do_tick o = let (kill, o') = c.tick quanta_duration o in set_alive c (not kill) o'

  unfoldable pub do_apply : O → O
  do_apply o = let (kill, o') = c.apply quanta_duration o in set_alive c (not kill) o'

  -- The pairs that collide, in the order in which the workers reach them.
  unfoldable pub do_collision_check : (ℕ → O) → List Clash → List Clash
  do_collision_check store [] = []
  do_collision_check store (r ∷ rs) =
      let rest = do_collision_check store rs in
      if c.check_collision (store r.a) (store r.b) quanta_duration then r ∷ rest else rest

-- Each object of a list is worked on, one after the other.
unfoldable pub each : {O : Type 0} → (O → O) → List ℕ → (ℕ → O) → ℕ → O
each f [] store = store
each f (r ∷ rs) store = each f rs (put r (f (store r)) store)

each_absent :
    {O : Type 0} (f : O → O) (rs : List ℕ) (store : ℕ → O) (r : ℕ)
    → copies r rs ≡ 0
    → each f rs store r ≡ store r
unfolding each
each_absent f [] store r e = refl
each_absent f (x ∷ rs) store r e =
    ground (arith, each_absent f rs (put x (f (store x)) store) r, ==_iff x r, ==_iff r x)

-- An object that the list holds once is worked on once, from its own state.
pub each_once :
    {O : Type 0} (f : O → O) (rs : List ℕ) (store : ℕ → O) (r : ℕ)
    → copies r rs ≤ 1
    → each f rs store r ≡ (if copies r rs == 1 then f (store r) else store r)
unfolding each
each_once f [] store r h = refl
each_once f (x ∷ rs) store r h = ground (
  arith,
  each_once f rs (put x (f (store x)) store) r,
  each_absent f rs (put x (f (store x)) store) r,
  ==_iff x r,
  ==_iff r x,
)

abbrev pub bump : ℕ → ℕ → ℕ
bump zero k = k
bump (suc n) k = bump n (Queue.wrap (k + 1))

-- One method after the other.
abbrev chain : {A B : Type 0} → Attempt A → (A → Attempt B) → Attempt B
chain (Queue.returns a) f = f a
chain Queue.waits f = Queue.waits
chain Queue.queue_not_ready f = Queue.queue_not_ready
chain Queue.undefined f = Queue.undefined

module _ {A : Type 0} where
  -- The packets are pushed, then workers pop each and report it done, then `join`.
  unfoldable pub push_all : List A → Queue A → Attempt (Queue A)
  push_all [] q = Queue.returns q
  push_all (p ∷ ps) q = chain (push p q) (push_all ps)

  unfoldable pub serve : ℕ → Queue A → Attempt (Queue A)
  serve zero q = join q
  serve (suc n) q = chain (pop q) (λ r. serve n (task_done r.1))

  unfoldable pub run_through : List A → Queue A → Attempt (Queue A)
  unfolding push_all serve
  run_through ps q = chain (push_all ps q) (serve (length ps))

  -- A work queue between two rounds.
  pub record IsIdle (q : Queue A) : Type 0 where
    pub is_open : q.ready ≡ true
    pub not_held : q.blocked ≡ false
    pub no_packets : q.buffer ≡ []
    pub all_done : q.completed ≡ q.in_count

  push_open :
      (p : A) (q : Queue A)
      → q.ready ≡ true
      → push p q
        ≡ Queue.returns
            (record q { buffer = q.buffer ++ (p ∷ []); in_count = Queue.wrap (q.in_count + 1) })
  unfolding push Queue.store Queue.count_in
  push_open p q e = rw e refl

  pub push_all_open :
      (ps : List A) (q : Queue A)
      → q.ready ≡ true
      → push_all ps q
        ≡ Queue.returns
            (record q { buffer = q.buffer ++ ps; in_count = bump (length ps) q.in_count })
  unfolding push_all
  push_all_open [] q e =
      ap (λ b. Queue.returns (record q { buffer = b })) (sym (append-nil q.buffer))
  push_all_open (p ∷ ps) q e =
      ap (λ a. chain a (push_all ps)) (push_open p q e)
      ∙ push_all_open ps _ e
      ∙ ap
          (λ b.
            Queue.returns (record q { buffer = b; in_count = bump (suc (length ps)) q.in_count }))
          (append_assoc q.buffer (p ∷ []) ps)

  pub pop_open :
      (p : A) (ps : List A) (q : Queue A)
      → q.ready ≡ true
      → q.blocked ≡ false
      → q.buffer ≡ p ∷ ps
      → pop q
        ≡ Queue.returns (p, record q { buffer = ps; out_count = Queue.wrap (q.out_count + 1) })
  unfolding pop
  pop_open p ps q e f g = rw (e, f, g) refl

  serve_open :
      (ps : List A) (q : Queue A)
      → q.ready ≡ true
      → q.blocked ≡ false
      → q.buffer ≡ ps
      → bump (length ps) q.completed ≡ q.in_count
      → (r : Queue A) × (serve (length ps) q ≡ Queue.returns r) × IsIdle r
  unfolding serve join task_done
  serve_open [] q e f g h = (
    q,
    ap (λ b. if b then Queue.returns q else Queue.waits) ((==_iff q.completed q.in_count).1 h),
    record { is_open = e; not_held = f; no_packets = g; all_done = h },
  )
  serve_open (p ∷ ps) q e f g h =
      let (r, result, idle) = serve_open ps _ e f refl h in
      (
        r,
        ap (λ a. chain a (λ r. serve (length ps) (task_done r.1))) (pop_open p ps q e f g) ∙ result,
        idle,
      )

  -- An idle work queue takes any packets: the pushes, the workers' rounds and `join` all return, and the
  -- queue is idle again.
  pub run_through-IsIdle :
      (ps : List A) (q : Queue A)
      → IsIdle q
      → (r : Queue A) × (run_through ps q ≡ Queue.returns r) × IsIdle r
  unfolding run_through
  run_through-IsIdle ps q v =
      let loaded = record q { buffer = q.buffer ++ ps; in_count = bump (length ps) q.in_count } in
      let (r, result, idle) =
        serve_open ps loaded v.is_open v.not_held (ap (λ b. b ++ ps) v.no_packets)
          (ap (bump (length ps)) v.all_done) in
      (r, ap (λ a. chain a (serve (length ps))) (push_all_open ps q v.is_open) ∙ result, idle)
