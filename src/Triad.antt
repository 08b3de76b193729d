-- ===== src/Triad.antt =====
-- cpp/common/point/triad.h: the vector template. An assignment operator returns the new value of
-- the object that it changes.
pub mod Text
use nrtb_redo.Common.{◌≡◌, refl, if◌then◌else◌, Bool, not, ◌&&◌}
use nrtb_redo.Floats.{Floats}

pub record Triad (F : Type 0) : Type 0 where
  pub x : F
  pub y : F
  pub z : F

module _ {F : Type 0} where
  abbrev pub triad : F → F → F → Triad F
  triad a b c = record { x = a; y = b; z = c }

-- Multiplication of floats commutes, and the square of a difference has no sign.
pub record IsSquaring (F : Type 0) ⦃n : Floats F⦄ : Type 0 where
  pub times_comm : (a b : F) → n.times a b ≡ n.times b a
  pub square_swap :
      (a b : F) → n.times (n.minus a b) (n.minus a b) ≡ n.times (n.minus b a) (n.minus b a)

module _ {F : Type 0} ⦃n : Floats F⦄ where
  open n use {
    nought, decimal, plus, minus, times, over, root, power, cosine, sine, absolute, atan2, lt, eq,
  }

  unfoldable pub add : Triad F → Triad F → Triad F
  add a b = triad (plus a.x b.x) (plus a.y b.y) (plus a.z b.z)

  unfoldable pub sub : Triad F → Triad F → Triad F
  sub a b = triad (minus a.x b.x) (minus a.y b.y) (minus a.z b.z)

  unfoldable pub mul : Triad F → Triad F → Triad F
  mul a b = triad (times a.x b.x) (times a.y b.y) (times a.z b.z)

  unfoldable pub div : Triad F → Triad F → Triad F
  div a b = triad (over a.x b.x) (over a.y b.y) (over a.z b.z)

  unfoldable pub add_assign : Triad F → Triad F → Triad F
  add_assign a b =
      let a1 = record a { x = plus a.x b.x } in
      let a2 = record a1 { y = plus a1.y b.y } in record a2 { z = plus a2.z b.z }

  unfoldable pub sub_assign : Triad F → Triad F → Triad F
  sub_assign a b =
      let a1 = record a { x = minus a.x b.x } in
      let a2 = record a1 { y = minus a1.y b.y } in record a2 { z = minus a2.z b.z }

  unfoldable pub mul_assign : Triad F → Triad F → Triad F
  mul_assign a b =
      let a1 = record a { x = times a.x b.x } in
      let a2 = record a1 { y = times a1.y b.y } in record a2 { z = times a2.z b.z }

  unfoldable pub div_assign : Triad F → Triad F → Triad F
  div_assign a b =
      let a1 = record a { x = over a.x b.x } in
      let a2 = record a1 { y = over a1.y b.y } in record a2 { z = over a2.z b.z }

  unfoldable pub add_assign_scalar : Triad F → F → Triad F
  add_assign_scalar a s =
      let a1 = record a { x = plus a.x s } in
      let a2 = record a1 { y = plus a1.y s } in record a2 { z = plus a2.z s }

  unfoldable pub sub_assign_scalar : Triad F → F → Triad F
  sub_assign_scalar a s =
      let a1 = record a { x = minus a.x s } in
      let a2 = record a1 { y = minus a1.y s } in record a2 { z = minus a2.z s }

  unfoldable pub mul_assign_scalar : Triad F → F → Triad F
  mul_assign_scalar a s =
      let a1 = record a { x = times a.x s } in
      let a2 = record a1 { y = times a1.y s } in record a2 { z = times a2.z s }

  unfoldable pub div_assign_scalar : Triad F → F → Triad F
  div_assign_scalar a s =
      let a1 = record a { x = over a.x s } in
      let a2 = record a1 { y = over a1.y s } in record a2 { z = over a2.z s }

  unfoldable pub pow : Triad F → Triad F → Triad F
  pow a b = triad (power a.x b.x) (power a.y b.y) (power a.z b.z)

  unfoldable pub add_scalar : Triad F → F → Triad F
  add_scalar a s = triad (plus a.x s) (plus a.y s) (plus a.z s)

  unfoldable pub sub_scalar : Triad F → F → Triad F
  sub_scalar a s = triad (minus a.x s) (minus a.y s) (minus a.z s)

  unfoldable pub mul_scalar : Triad F → F → Triad F
  mul_scalar a s = triad (times a.x s) (times a.y s) (times a.z s)

  unfoldable pub div_scalar : Triad F → F → Triad F
  div_scalar a s = triad (over a.x s) (over a.y s) (over a.z s)

  unfoldable pub pow_scalar : Triad F → F → Triad F
  pow_scalar a s = triad (power a.x s) (power a.y s) (power a.z s)

  unfoldable pub magnatude : Triad F → F
  magnatude a = root (plus (plus (times a.x a.x) (times a.y a.y)) (times a.z a.z))

  unfoldable pub normalize : Triad F → Triad F
  unfolding magnatude div_scalar
  normalize a = div_scalar a (magnatude a)

  unfoldable pub range : Triad F → Triad F → F
  unfolding sub mul_assign
  range a b =
      let offset = sub a b in
      let squares = mul_assign offset offset in root (plus (plus squares.x squares.y) squares.z)

  unfoldable pub dot_product : Triad F → Triad F → F
  dot_product a b = plus (plus (times a.x b.x) (times a.y b.y)) (times a.z b.z)

  -- Length, direction in the plane, and angle from the vertical.
  unfoldable pub to_polar : Triad F → Triad F
  unfolding magnatude
  to_polar a =
      triad (magnatude a) (atan2 a.y a.x) (atan2 (root (plus (times a.x a.x) (times a.y a.y))) a.z)

  -- `fabs(v) > 1e-10 ? v : 0.0`
  abbrev pub cleaned : F → F
  cleaned v = if lt (decimal 1 10) (absolute v) then v else nought

  unfoldable pub to_cartesian : Triad F → Triad F
  to_cartesian a =
      triad (cleaned (times (times (sine a.z) (cosine a.y)) a.x))
        (cleaned (times (times (sine a.z) (sine a.y)) a.x)) (cleaned (times (cosine a.z) a.x))

  unfoldable pub vector_product : Triad F → Triad F → Triad F
  vector_product a b =
      triad (minus (times a.y b.z) (times a.z b.y)) (minus (times a.z b.x) (times a.x b.z))
        (minus (times a.x b.y) (times a.y b.x))

  unfoldable pub equals : Triad F → Triad F → Bool
  equals a b = eq a.x b.x && (eq a.y b.y && eq a.z b.z)

  unfoldable pub differs : Triad F → Triad F → Bool
  unfolding equals
  differs a b = not (equals a b)

  -- For floats whose products do not depend on the order, and whose differences have the same
  -- square when they are turned round: the distance is the same from both ends, it is the
  -- magnitude of the difference, and the scalar product does not depend on the order.
  pub range_comm :
      (laws : IsSquaring F) (a b : Triad F)
      → (range a b ≡ range b a)
        × (range a b ≡ magnatude (sub a b))
        × (dot_product a b ≡ dot_product b a)
  unfolding range magnatude sub dot_product
  range_comm laws a b = (
    cc (laws.square_swap a.x b.x, laws.square_swap a.y b.y, laws.square_swap a.z b.z),
    refl,
    cc (laws.times_comm a.x b.x, laws.times_comm a.y b.y, laws.times_comm a.z b.z),
  )

  -- Each assignment operator leaves in its object what the plain operator returns, also when the
  -- object is its own argument, as in `offset *= offset`.
  pub assign_lem :
      (a b : Triad F)
      → (add_assign a b ≡ add a b)
        × (sub_assign a b ≡ sub a b)
        × (mul_assign a b ≡ mul a b)
        × (div_assign a b ≡ div a b)
        × (mul_assign a a ≡ mul a a)
  unfolding add_assign add sub_assign sub mul_assign mul div_assign div
  assign_lem a b = (refl, refl, refl, refl, refl)
