-- ===== src/Object/Calls.antt =====
-- Whatever calls add, drop and run effectors, the attribute maps of an object stay in step.
use nrtb_redo.Common.{ℕ, ◌≡◌, refl, ap, ◌∙◌, ◌&&◌, not, List, [], ◌∷◌, Bool-cases, inl, inr, arith}
use nrtb_redo.Floats.{Floats}
use nrtb_redo.Object.{
  Object, EffectorClass, add_pre, add_post, drop_attrib, drop_one, drop_all, tick, apply,
}
use nrtb_redo.Object.Attribs.{
  has, IsWired, IsWired-same, IsRising-insert_id, has-insert_id, has-remove_id, dropped,
  drop_one-IsWired, drop_all-IsWired, tick_maps,
}

pub data AttribCall (F : Type 0) : Type 0 where
  adds_pre adds_post drops : ℕ → AttribCall F
  ticks applies : F → AttribCall F

module _ {F E : Type 0} ⦃n : Floats F⦄ (c : EffectorClass F E) where
  unfoldable pub call : AttribCall F → Object F E → Object F E
  call (adds_pre i) o = add_pre c i o
  call (adds_post i) o = add_post c i o
  call (drops i) o = drop_attrib c i o
  call (ticks q) o = (tick c q o).1
  call (applies q) o = (apply c q o).1

  unfoldable pub calls : List (AttribCall F) → Object F E → Object F E
  unfolding call
  calls [] o = o
  calls (k ∷ ks) o = calls ks (call k o)

  add_pre-IsWired : (i : ℕ) (o : Object F E) → IsWired o → IsWired (add_pre c i o)
  unfolding add_pre
  add_pre-IsWired i o v = elim (Bool-cases (c.commandable (o.effectors i))) [
    | inl e ↦ rw e record {
      pre_rises = IsRising-insert_id i o.pre_attribs v.pre_rises;
      post_rises = v.post_rises;
      cmd_rises = IsRising-insert_id i o.cmd_attribs v.cmd_rises;
      wired = λ j.
          ground
            (arith, v.wired j, has-insert_id i j o.pre_attribs, has-insert_id i j o.cmd_attribs);
    }
    | inr e ↦ rw e record {
      pre_rises = IsRising-insert_id i o.pre_attribs v.pre_rises;
      post_rises = v.post_rises;
      cmd_rises = v.cmd_rises;
      wired = λ j. ground (arith, v.wired j, has-insert_id i j o.pre_attribs);
    }
  ]

  add_post-IsWired : (i : ℕ) (o : Object F E) → IsWired o → IsWired (add_post c i o)
  unfolding add_post
  add_post-IsWired i o v = elim (Bool-cases (c.commandable (o.effectors i))) [
    | inl e ↦ rw e record {
      pre_rises = v.pre_rises;
      post_rises = IsRising-insert_id i o.post_attribs v.post_rises;
      cmd_rises = IsRising-insert_id i o.cmd_attribs v.cmd_rises;
      wired = λ j.
          ground
            (arith, v.wired j, has-insert_id i j o.post_attribs, has-insert_id i j o.cmd_attribs);
    }
    | inr e ↦ rw e record {
      pre_rises = v.pre_rises;
      post_rises = IsRising-insert_id i o.post_attribs v.post_rises;
      cmd_rises = v.cmd_rises;
      wired = λ j. ground (arith, v.wired j, has-insert_id i j o.post_attribs);
    }
  ]

  tick-IsWired : (q : F) (o : Object F E) → IsWired o → IsWired (tick c q o).1
  tick-IsWired q o v =
      let (e, f, g, _) = tick_maps c q o in
      IsWired-same c (dropped c o) (tick c q o).1 e f g (drop_all-IsWired c o.dropped_attribs o v)

  apply-IsWired : (q : F) (o : Object F E) → IsWired o → IsWired (apply c q o).1
  unfolding apply
  apply-IsWired q o v = IsWired-same c o (apply c q o).1 refl refl refl v

  call-IsWired : (k : AttribCall F) (o : Object F E) → IsWired o → IsWired (call k o)
  unfolding call drop_attrib
  call-IsWired (adds_pre i) o v = add_pre-IsWired i o v
  call-IsWired (adds_post i) o v = add_post-IsWired i o v
  call-IsWired (drops i) o v = IsWired-same c o (drop_attrib c i o) refl refl refl v
  call-IsWired (ticks q) o v = tick-IsWired q o v
  call-IsWired (applies q) o v = apply-IsWired q o v

  -- Whatever sequence of `add_pre`, `add_post`, `drop_attrib`, `tick` and `apply` calls an object with
  -- wired maps gets, its maps are wired afterwards: their ids are in rising order, and each effector in
  -- the command map is in the pre- or the post-effector map.
  pub calls-IsWired : (ks : List (AttribCall F)) (o : Object F E) → IsWired o → IsWired (calls ks o)
  unfolding calls
  calls-IsWired [] o v = v
  calls-IsWired (k ∷ ks) o v = calls-IsWired ks (call k o) (call-IsWired k o v)

  has-drop_all :
      (j : ℕ) (is : List ℕ) (o : Object F E)
      → IsWired o
      → (has j (drop_all c is o).pre_attribs ≡ (has j o.pre_attribs && not (has j is)))
        × (has j (drop_all c is o).post_attribs ≡ (has j o.post_attribs && not (has j is)))
        × (has j (drop_all c is o).cmd_attribs ≡ (has j o.cmd_attribs && not (has j is)))
  unfolding drop_all
  has-drop_all j [] o v = ground arith
  has-drop_all j (i ∷ is) o v =
      unfold drop_one in
      ground (
        arith,
        has-drop_all j is (drop_one c i o) (drop_one-IsWired c i o v),
        has-remove_id i j o.pre_attribs v.pre_rises,
        has-remove_id i j o.post_attribs v.post_rises,
        has-remove_id i j o.cmd_attribs v.cmd_rises,
      )

  -- On an object with wired maps, `tick` takes exactly the ids that `drop_attrib` collected out of each
  -- of the three maps, whatever the effectors do meanwhile, and empties the collection.
  pub tick_drops :
      (q : F) (o : Object F E) (j : ℕ)
      → IsWired o
      → (has j (tick c q o).1.pre_attribs ≡ (has j o.pre_attribs && not (has j o.dropped_attribs)))
        × (has j (tick c q o).1.post_attribs
            ≡ (has j o.post_attribs && not (has j o.dropped_attribs)))
        × (has j (tick c q o).1.cmd_attribs
            ≡ (has j o.cmd_attribs && not (has j o.dropped_attribs)))
        × ((tick c q o).1.dropped_attribs ≡ [])
  tick_drops q o j v =
      let (e, f, g, h) = tick_maps c q o in
      let (a, b, d) = has-drop_all j o.dropped_attribs o v in
      (ap (has j) e ∙ a, ap (has j) f ∙ b, ap (has j) g ∙ d, h)
