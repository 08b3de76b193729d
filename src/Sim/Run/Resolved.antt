-- ===== src/Sim/Run/Resolved.antt =====
-- cpp/sim_engine/sim_core/sim_core.cpp: `resolve_collisions` comes to its end.
use nrtb_redo.Common.{
  ℕ, suc, ◌+◌, ◌≡◌, refl, ap, ◌∙◌, Bool, true, false, List, [], ◌∷◌, if◌then◌else◌, ◌==◌, length,
  arith,
}
use nrtb_redo.Floats.{Floats}
use nrtb_redo.Queue.{Queue, pop}
use nrtb_redo.Queue
use nrtb_redo.Sim.{ObjectClass, go, ◌>>>◌, Clash, Sim, order, an_id}
use nrtb_redo.Sim.Init.{queued, remove_obj_running}
use nrtb_redo.Sim.Workers.{pop_open}
use nrtb_redo.Sim.Run.{resolve_one, resolve_loop, resolve_collisions, worked, remove_if, strike}

-- The run is on, and takes messages.
pub record IsTaking {F O : Type 0} (s : Sim F O) : Type 0 where
  pub runs : s.is_running ≡ true
  pub messages_open : s.messages.ready ≡ true

module _ {F O : Type 0} ⦃n : Floats F⦄ (c : ObjectClass F O) (ticks_of : F → ℕ) where
  -- What resolving one collision leaves alone.
  record IsKept (s t : Sim F O) : Type 0 where
    same_collisions : t.collisions ≡ s.collisions
    same_objects : t.all_objects ≡ s.all_objects
    taking : IsTaking t

  remove_if_returns :
      (kill : Bool) (r : ℕ) (s : Sim F O)
      → IsTaking s
      → (t : Sim F O) × (remove_if c ticks_of kill r s ≡ go t) × IsKept s t
  remove_if_returns true r s v = (
    queued c (order 2 (an_id (c.body (s.store r)).id)) s,
    remove_obj_running c (c.body (s.store r)).id s v.runs v.messages_open,
    record {
      same_collisions = refl;
      same_objects = refl;
      taking = record { runs = v.runs; messages_open = v.messages_open };
    },
  )
  remove_if_returns false r s v =
      (s, refl, record { same_collisions = refl; same_objects = refl; taking = v })

  resolve_one_returns :
      (r : Clash) (s : Sim F O)
      → IsTaking s
      → (t : Sim F O) × (resolve_one c ticks_of r s ≡ go t) × IsKept s t
  unfolding resolve_one
  resolve_one_returns r s v =
      let (killa, killb, store') = strike c ticks_of r s.quanta_duration s.store in
      let (t, e, k) =
        remove_if_returns killa r.a (record s { store = store' })
          record { runs = v.runs; messages_open = v.messages_open } in
      let (u, e', k') = remove_if_returns killb r.b t k.taking in
      (
        u,
        ap (λ f. f >>> remove_if c ticks_of killb r.b) e ∙ e',
        record {
          same_collisions = k'.same_collisions ∙ k.same_collisions;
          same_objects = k'.same_objects ∙ k.same_objects;
          taking = k'.taking;
        },
      )

  else_branch : {A : Type 0} (x y : A) (k : ℕ) → (if suc k == 0 then x else y) ≡ y
  else_branch x y k = ground arith

  resolve_loop_returns :
      (rs : List Clash) (s : Sim F O)
      → IsTaking s
      → s.collisions.ready ≡ true
      → s.collisions.blocked ≡ false
      → s.collisions.buffer ≡ rs
      → (t : Sim F O) × (resolve_loop c ticks_of (length rs) s ≡ go t)
        × (t.collisions.buffer ≡ [])
        × (t.all_objects ≡ s.all_objects)
        × IsTaking t
  unfolding resolve_loop Queue.size
  resolve_loop_returns [] s v e f g = (s, refl, g, refl, v)
  resolve_loop_returns (r ∷ rs) s v e f g =
      let q = record s.collisions {
        buffer = rs;
        out_count = Queue.wrap (s.collisions.out_count + 1);
      } in
      let (t, one, k) =
        resolve_one_returns r (record s { collisions = q })
          record { runs = v.runs; messages_open = v.messages_open } in
      let (u, rest, none, same, taking) =
        resolve_loop_returns rs t k.taking (ap (λ x. x.ready) k.same_collisions ∙ e)
          (ap (λ x. x.blocked) k.same_collisions ∙ f) (ap (λ x. x.buffer) k.same_collisions) in
      (
        u,
        ap
              (λ b.
                if length b == 0
                then go s
                else worked c ticks_of s (pop s.collisions) (λ r.
                  resolve_one c ticks_of r.0 (record s { collisions = r.1 })
                  >>> resolve_loop c ticks_of (length rs)))
              g
            ∙ else_branch (go s) _ (length rs)
            ∙ ap
                (λ a. worked c ticks_of s a (λ r.
                  resolve_one c ticks_of r.0 (record s { collisions = r.1 })
                  >>> resolve_loop c ticks_of (length rs)))
                (pop_open r rs s.collisions e f g)
            ∙ ap (λ x. x >>> resolve_loop c ticks_of (length rs)) one
            ∙ rest,
        none,
        same ∙ k.same_objects,
        taking,
      )

  -- While the simulation runs, with the messages and the collisions open and not held: resolving the
  -- collisions returns, with no collision left, whatever the objects' own routines do. The list of objects
  -- is as before, since the removals are only messages to the next turn.
  pub resolve_collisions_returns :
      (s : Sim F O)
      → IsTaking s
      → s.collisions.ready ≡ true
      → s.collisions.blocked ≡ false
      → (t : Sim F O) × (resolve_collisions c ticks_of s ≡ go t)
        × (t.collisions.buffer ≡ [])
        × (t.all_objects ≡ s.all_objects)
        × IsTaking t
  unfolding resolve_collisions Queue.size
  resolve_collisions_returns s v e f = resolve_loop_returns s.collisions.buffer s v e f refl
