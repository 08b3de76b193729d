-- ===== src/Steer/Spares.antt =====
-- What a tick does to an object that has these effectors.
use nrtb_redo.Common.{
  ℕ, ◌≡◌, refl, ap, ◌∙◌, Bool, true, false, ◌&&◌, List, [], ◌∷◌, if◌then◌else◌, Bool-cases, inl,
  inr,
}
use nrtb_redo.Common.Bytes.{Bytes}
use nrtb_redo.Floats.{Floats}
use nrtb_redo.Triad.{Triad}
use nrtb_redo.Rotatable
use nrtb_redo.Object.{
  Body, Object, update, tick, tick_list, settle, finish, clean, drop_all, drop_one,
}
use nrtb_redo.Steer.Kit.{
  Kit, steer_pre, steer_post, hover, norm_gravity, hover_tick, gravity_tick, kit_tick, kit,
}
use nrtb_redo.Steer.{
  steer, slide, ground_vec, snap, halt, drag, Pre, pre_tick, post_tick, is_grounded,
}

module _ {F : Type 0} ⦃n : Floats F⦄ where
  open n use {nought, plus, le, lt}

  abbrev SameMass : Body F → Body F → Type 0
  SameMass o p = (p.mass ≡ o.mass) × (p.mass_mod ≡ o.mass_mod)

  -- No effector of these kills, or changes the mass.
  abbrev Spares : Body F → Bool × Body F → Type 0
  Spares o (kill, p) = (kill ≡ false) × SameMass o p

  pre_tick-Spares : (e : Pre F) (o : Body F) (quanta : F) → Spares o (pre_tick e o quanta)
  unfolding pre_tick steer
  pre_tick-Spares e o quanta = elim (Bool-cases (is_grounded o)) [
    | inl g ↦ rw g (refl, (refl, refl))
    | inr g ↦ rw g (refl, (refl, refl))
  ]

  slide-SameMass : (o : Body F) → SameMass o (slide o).1
  unfolding slide snap
  slide-SameMass o =
      let v = ground_vec o in
      elim (Bool-cases (
        lt (n.decimal 1 4) v.x
        && lt (n.decimal 5 3) (n.absolute (n.minus v.y (Rotatable.angles o.attitude).z)))) [
          | inl g ↦ rw g (refl, refl)
          | inr g ↦ rw g (refl, refl)
        ]

  halt-SameMass : (o : Body F) (p : Triad F × Body F) → SameMass o p.1 → SameMass o (halt p).1
  unfolding halt
  halt-SameMass o (v, p) h = elim (Bool-cases (lt v.x (n.decimal 1 3))) [
    | inl g ↦ rw g h
    | inr g ↦ rw g h
  ]

  drag-SameMass : (o : Body F) (p : F × Body F) → SameMass o p.1 → SameMass o (drag p)
  unfolding drag
  drag-SameMass o (speed, p) h = h

  -- A test picks one of two bodies with the same mass.
  either_mass :
      (b : Bool) (o p q : Body F) → SameMass o p → SameMass o q → SameMass o (if b then p else q)
  either_mass true o p q h k = h
  either_mass false o p q h k = k

  post_tick-Spares : (o : Body F) (time : F) → Spares o (post_tick o time)
  unfolding post_tick
  post_tick-Spares o time = (
    refl,
    either_mass (is_grounded o) o (drag (halt (slide o))) o
        (drag-SameMass o (halt (slide o)) (halt-SameMass o (slide o) (slide-SameMass o)))
        (refl, refl),
  )

  kit_tick-Spares : (e : Kit F) (o : Body F) (quanta : F) → Spares o (kit_tick e o quanta)
  unfolding kit_tick hover_tick gravity_tick
  kit_tick-Spares (steer_pre e) o quanta = pre_tick-Spares e o quanta
  kit_tick-Spares (steer_post e) o quanta = post_tick-Spares o quanta
  kit_tick-Spares (hover h) o quanta = (refl, (refl, refl))
  kit_tick-Spares (norm_gravity gn) o quanta = (refl, (refl, refl))

  module _ (show : F → Bytes) (read_val : Bytes → F) where
    -- After a list of effectors: no kill, and the mass as before.
    abbrev Ran : Body F → Bool × Body F × (ℕ → Kit F) → Type 0
    Ran o (kill, p, store) = Spares o (kill, p)

    tick_list-Ran :
        (is : List ℕ) (quanta : F) (o p : Body F) (store : ℕ → Kit F) (kill : Bool)
        → kill ≡ false
        → SameMass o p
        → Ran o (tick_list (kit show read_val) is quanta kill p store)
    unfolding tick_list kit
    tick_list-Ran [] quanta o p store kill k h = (k, h)
    tick_list-Ran (i ∷ is) quanta o p store kill k h =
        let t = kit_tick (store i) p quanta in
        let (none, (mass, change)) = kit_tick-Spares (store i) p quanta in
        tick_list-Ran is quanta o t.1 (update store i (store i)) (if t.0 then true else kill)
          (rw (none, k) refl) (mass ∙ h.0, change ∙ h.1)

    drop_all-body :
        (is : List ℕ) (o : Object F (Kit F)) → (drop_all (kit show read_val) is o).body ≡ o.body
    unfolding drop_all drop_one
    drop_all-body [] o = refl
    drop_all-body (i ∷ is) o = drop_all-body is (drop_one (kit show read_val) i o)

    settle-body :
        (o : Object F (Kit F))
        → SameMass (clean (kit show read_val) o.body) (settle (kit show read_val) o).body
    unfolding settle
    settle-body o =
        let e =
          drop_all-body o.dropped_attribs (record o { body = clean (kit show read_val) o.body }) in
        (ap (λ b. b.mass) e, ap (λ b. b.mass_mod) e)

    picks :
        {O : Type 0} (x y : O) (c kill : Bool)
        → kill ≡ false
        → (if◌then◌else◌ {A = Bool × O} c (true, x) (kill, y)).0 ≡ c
    picks x y true kill k = refl
    picks x y false kill k = k

    finish-Ran :
        (quanta : F) (o : Object F (Kit F)) (b : Body F) (ran : Bool × Body F × (ℕ → Kit F))
        → Ran b ran
        → (finish (kit show read_val) quanta o ran).0 ≡ le (plus b.mass b.mass_mod) nought
    unfolding finish
    finish-Ran quanta o b (kill, p, store) (k, (m, d)) =
        picks _ _ (le (plus p.mass p.mass_mod) nought) kill k
        ∙ ap (λ x. le (plus x p.mass_mod) nought) m
        ∙ ap (λ x. le (plus b.mass x) nought) d

    -- An object with these effectors dies of a tick exactly when it has no mass, whatever effectors
    -- it has, in whatever state, and whatever is to be dropped.
    pub tick-mass :
        (quanta : F) (o : Object F (Kit F))
        → (tick (kit show read_val) quanta o).0 ≡ le (plus o.body.mass nought) nought
    unfolding tick clean
    tick-mass quanta o =
        let o2 = settle (kit show read_val) o in
        let (mass, change) = settle-body o in
        finish-Ran quanta o2 o2.body
          (tick_list (kit show read_val) o2.pre_attribs quanta false o2.body o2.effectors)
          (tick_list-Ran o2.pre_attribs quanta o2.body o2.body o2.effectors false refl (refl, refl))
        ∙ ap (λ x. le (plus x o2.body.mass_mod) nought) mass
        ∙ ap (λ x. le (plus o.body.mass x) nought) change
