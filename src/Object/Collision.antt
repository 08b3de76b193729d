-- ===== src/Object/Collision.antt =====
-- `base_object::check_collision`.
use nrtb_redo.Common.{◌≡◌, Bool, true, false, ◌&&◌, inl, inr, if◌then◌else◌, Bool-cases}
use nrtb_redo.Floats.{Floats}
use nrtb_redo.Triad.{Triad}
use nrtb_redo.Triad
use nrtb_redo.Object.{Body}

module _ {F : Type 0} ⦃n : Floats F⦄ where
  open n use {nought, two, plus, minus, times, over, le, lt}

  -- The squared distance less the squared contact distance.
  unfoldable pub clearance : Triad F → F → F
  clearance rel_pos r =
      minus
        (plus (plus (times rel_pos.x rel_pos.x) (times rel_pos.y rel_pos.y))
          (times rel_pos.z rel_pos.z))
        (times r r)

  unfoldable pub dot : Triad F → Triad F → F
  dot a b = plus (plus (times a.x b.x) (times a.y b.y)) (times a.z b.z)

  -- The tests on `pp`, `pv` and `vv`, in the order of the early returns.
  unfoldable pub collides : F → F → F → Bool
  collides pp pv vv =
      if le pp nought
      then true
      else if le nought pv
      then false
      else if le (plus pv vv) nought && le nought (plus (plus vv (times two pv)) pp)
      then false
      else lt nought (plus pp (times pv (over pv vv)))

  unfoldable pub check_collision : Body F → Body F → F → Bool
  unfolding clearance dot collides
  check_collision me o quanta =
      let rel_pos = Triad.sub o.location me.location in
      let rel_vel = Triad.mul_assign_scalar (Triad.sub o.velocity me.velocity) quanta in
      let r = plus me.bounding_sphere.radius o.bounding_sphere.radius in
      collides (clearance rel_pos r) (dot rel_pos rel_vel) (dot rel_vel rel_vel)

  abbrev pub rel_position : Body F → Body F → Triad F
  rel_position me o = Triad.sub o.location me.location

  abbrev pub rel_velocity : Body F → Body F → F → Triad F
  rel_velocity me o quanta = Triad.mul_assign_scalar (Triad.sub o.velocity me.velocity) quanta

  abbrev pub reach : Body F → Body F → F
  reach me o = plus me.bounding_sphere.radius o.bounding_sphere.radius

-- A value that is not NaN compares equal to itself.
abbrev pub IsNumber : {F : Type 0} ⦃n : Floats F⦄ → F → Type 0
IsNumber ⦃n = n⦄ a = n.eq a a ≡ true

-- What IEEE 754 says of the signs of sums, products and quotients, where the result is not NaN.
pub record IsSigned (F : Type 0) ⦃n : Floats F⦄ : Type 0 where
  pub lt_of_not_le : (a : F) → IsNumber a → n.le a n.nought ≡ false → n.lt n.nought a ≡ true
  pub not_le_of_lt : (a : F) → n.lt a n.nought ≡ true → n.le n.nought a ≡ false
  pub over_neg :
      (a b : F)
      → n.lt a n.nought ≡ true
      → n.lt n.nought b ≡ true
      → IsNumber (n.over a b)
      → n.le (n.over a b) n.nought ≡ true
  pub times_neg :
      (a b : F)
      → n.lt a n.nought ≡ true
      → n.le b n.nought ≡ true
      → IsNumber (n.times a b)
      → n.le n.nought (n.times a b) ≡ true
  pub plus_pos :
      (a b : F)
      → n.lt n.nought a ≡ true
      → n.le n.nought b ≡ true
      → n.lt n.nought (n.plus a b) ≡ true

module _ {F : Type 0} ⦃n : Floats F⦄ where
  open n use {nought, plus, times, over, le, lt}

  abbrev pub pp_of : Body F → Body F → F
  pp_of me o = clearance (rel_position me o) (reach me o)

  abbrev pub pv_of : Body F → Body F → F → F
  pv_of me o quanta = dot (rel_position me o) (rel_velocity me o quanta)

  abbrev pub vv_of : Body F → Body F → F → F
  vv_of me o quanta = dot (rel_velocity me o quanta) (rel_velocity me o quanta)

  -- For floats with the signs of IEEE 754: two objects that approach each other (pv < 0), have a relative
  -- velocity (0 < vv) and come closest before the quantum ends (not pv + vv <= 0), always collide, at
  -- whatever distance they pass, if the squared clearance pp, the time pv / vv and its product with pv
  -- are no NaN.
  pub check_collision_passing :
      (laws : IsSigned F) (me o : Body F) (quanta : F)
      → lt (pv_of me o quanta) nought ≡ true
      → lt nought (vv_of me o quanta) ≡ true
      → le (plus (pv_of me o quanta) (vv_of me o quanta)) nought ≡ false
      → IsNumber (pp_of me o)
      → IsNumber (over (pv_of me o quanta) (vv_of me o quanta))
      → IsNumber (times (pv_of me o quanta) (over (pv_of me o quanta) (vv_of me o quanta)))
      → check_collision me o quanta ≡ true
  unfolding check_collision collides
  check_collision_passing laws me o quanta approach moving soon clear time product =
      passing (pp_of me o) (pv_of me o quanta) (vv_of me o quanta) approach moving soon clear time
        product
    where
      passing :
          (pp pv vv : F)
          → lt pv nought ≡ true
          → lt nought vv ≡ true
          → le (plus pv vv) nought ≡ false
          → IsNumber pp
          → IsNumber (over pv vv)
          → IsNumber (times pv (over pv vv))
          → collides pp pv vv ≡ true
      passing pp pv vv approach moving soon clear time product = elim (Bool-cases (le pp nought)) [
        | inl now ↦ rw now
        | inr apart ↦
            rw (apart, laws.not_le_of_lt pv approach, soon)
              (laws.plus_pos pp (times pv (over pv vv)) (laws.lt_of_not_le pp clear apart) (
                laws.times_neg pv (over pv vv) approach (laws.over_neg pv vv approach moving time)
                  product))
      ]
