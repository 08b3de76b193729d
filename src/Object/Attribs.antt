-- ===== src/Object/Attribs.antt =====
-- The attribute maps of an object: their order, and that the command map holds no stray effector.
use nrtb_redo.Common.{
  ℕ, ◌<◌, ◌≡◌, refl, ap, ◌∙◌, Bool, true, false, ◌||◌, ◌&&◌, not, List, [], ◌∷◌, if◌then◌else◌,
  ◌==◌, arith,
}
use nrtb_redo.Floats.{Floats}
use nrtb_redo.Object.{
  Object, Body, EffectorClass, EffectorList, insert_id, remove_id, drop_one, drop_all, tick_list,
  tick, settle, finish, clean,
}

abbrev pub has : ℕ → EffectorList → Bool
has i [] = false
has i (j ∷ js) = if i == j then true else has i js

-- The ids rise, and lie above the bound.
abbrev pub Above : ℕ → EffectorList → Type 0
Above b [] = Unit {0}
Above b (j ∷ js) = (b < j) × Above j js

abbrev pub IsRising : EffectorList → Type 0
IsRising [] = Unit {0}
IsRising (j ∷ js) = Above j js

Above-weaken : (a b : ℕ) (l : EffectorList) → a < b → Above b l → Above a l
Above-weaken a b [] h v = tt
Above-weaken a b (j ∷ js) h v = (omega arith, v.1)

has-Above : (i b : ℕ) (l : EffectorList) → i < b → Above b l → has i l ≡ false
has-Above i b [] h v = refl
has-Above i b (j ∷ js) h v = ground (arith, has-Above i j js)

has_self : (i : ℕ) (l : EffectorList) → Above i l → has i l ≡ false
has_self i [] v = refl
has_self i (j ∷ js) v = ground (arith, has-Above i j js)

pub has-insert_id :
    (i j : ℕ) (l : EffectorList) → has j (insert_id i l) ≡ (if j == i then true else has j l)
unfolding insert_id
has-insert_id i j [] = refl
has-insert_id i j (k ∷ ks) = ground (arith, has-insert_id i j ks)

pub Above-insert_id : (b i : ℕ) (l : EffectorList) → b < i → Above b l → Above b (insert_id i l)
unfolding insert_id
Above-insert_id b i [] h v = (h, tt)
Above-insert_id b i (k ∷ ks) h v = ground (arith, Above-insert_id k i ks)

pub IsRising-insert_id : (i : ℕ) (l : EffectorList) → IsRising l → IsRising (insert_id i l)
unfolding insert_id
IsRising-insert_id i [] v = tt
IsRising-insert_id i (k ∷ ks) v = ground (arith, Above-insert_id k i ks)

Above-remove_id : (b i : ℕ) (l : EffectorList) → Above b l → Above b (remove_id i l)
unfolding remove_id
Above-remove_id b i [] v = tt
Above-remove_id b i (k ∷ ks) v = ground (arith, Above-remove_id k i ks, Above-weaken b k ks)

IsRising-Above : (b : ℕ) (l : EffectorList) → Above b l → IsRising l
IsRising-Above b [] v = tt
IsRising-Above b (j ∷ js) v = v.1

IsRising-remove_id : (i : ℕ) (l : EffectorList) → IsRising l → IsRising (remove_id i l)
unfolding remove_id
IsRising-remove_id i [] v = tt
IsRising-remove_id i (k ∷ ks) v = ground (arith, Above-remove_id k i ks, IsRising-Above k ks)

has-remove-Above :
    (i j b : ℕ) (l : EffectorList)
    → Above b l
    → has j (remove_id i l) ≡ (if j == i then false else has j l)
unfolding remove_id
has-remove-Above i j b [] v = ground arith
has-remove-Above i j b (k ∷ ks) v = ground (arith, has-remove-Above i j k ks, has_self k ks)

pub has-remove_id :
    (i j : ℕ) (l : EffectorList)
    → IsRising l
    → has j (remove_id i l) ≡ (if j == i then false else has j l)
unfolding remove_id
has-remove_id i j [] v = ground arith
has-remove_id i j (k ∷ ks) v = ground (arith, has-remove-Above i j k ks, has_self k ks)

-- The three maps are in order, and every command effector is a pre- or a post-effector too.
pub record IsWired {F E : Type 0} (o : Object F E) : Type 0 where
  pub pre_rises : IsRising o.pre_attribs
  pub post_rises : IsRising o.post_attribs
  pub cmd_rises : IsRising o.cmd_attribs
  pub wired :
      (i : ℕ) → (has i o.cmd_attribs && not (has i o.pre_attribs || has i o.post_attribs)) ≡ false

module _ {F E : Type 0} ⦃n : Floats F⦄ (c : EffectorClass F E) where
  pub drop_one-IsWired : (i : ℕ) (o : Object F E) → IsWired o → IsWired (drop_one c i o)
  unfolding drop_one
  drop_one-IsWired i o v = record {
    pre_rises = IsRising-remove_id i o.pre_attribs v.pre_rises;
    post_rises = IsRising-remove_id i o.post_attribs v.post_rises;
    cmd_rises = IsRising-remove_id i o.cmd_attribs v.cmd_rises;
    wired = λ j. ground (
      arith,
      v.wired j,
      has-remove_id i j o.pre_attribs v.pre_rises,
      has-remove_id i j o.post_attribs v.post_rises,
      has-remove_id i j o.cmd_attribs v.cmd_rises,
    );
  }

  pub drop_all-IsWired : (is : List ℕ) (o : Object F E) → IsWired o → IsWired (drop_all c is o)
  unfolding drop_all
  drop_all-IsWired [] o v = v
  drop_all-IsWired (i ∷ is) o v = drop_all-IsWired is (drop_one c i o) (drop_one-IsWired i o v)

  -- The three maps are all that the property reads.
  pub IsWired-same :
      (o p : Object F E)
      → p.pre_attribs ≡ o.pre_attribs
      → p.post_attribs ≡ o.post_attribs
      → p.cmd_attribs ≡ o.cmd_attribs
      → IsWired o
      → IsWired p
  IsWired-same o p e f g v = record {
    pre_rises = rw e v.pre_rises;
    post_rises = rw f v.post_rises;
    cmd_rises = rw g v.cmd_rises;
    wired = λ i. rw (e, f, g) (v.wired i);
  }

  abbrev pub dropped : Object F E → Object F E
  dropped o = drop_all c o.dropped_attribs o

  -- Dropping reads nothing but the maps.
  drop_all_maps :
      (is : List ℕ) (o p : Object F E)
      → p.pre_attribs ≡ o.pre_attribs
      → p.post_attribs ≡ o.post_attribs
      → p.cmd_attribs ≡ o.cmd_attribs
      → ((drop_all c is p).pre_attribs ≡ (drop_all c is o).pre_attribs)
        × ((drop_all c is p).post_attribs ≡ (drop_all c is o).post_attribs)
        × ((drop_all c is p).cmd_attribs ≡ (drop_all c is o).cmd_attribs)
  unfolding drop_all drop_one
  drop_all_maps [] o p e f g = (e, f, g)
  drop_all_maps (i ∷ is) o p e f g =
      drop_all_maps is (drop_one c i o) (drop_one c i p) (ap (remove_id i) e) (ap (remove_id i) f)
        (ap (remove_id i) g)

  pub finish_maps :
      (q : F) (o : Object F E) (r : Bool × Body F × (ℕ → E))
      → ((finish c q o r).1.pre_attribs ≡ o.pre_attribs)
        × ((finish c q o r).1.post_attribs ≡ o.post_attribs)
        × ((finish c q o r).1.cmd_attribs ≡ o.cmd_attribs)
        × ((finish c q o r).1.dropped_attribs ≡ o.dropped_attribs)
  unfolding finish
  finish_maps q o (killme, b, store) = ground arith

  pub tick_maps :
      (q : F) (o : Object F E)
      → ((tick c q o).1.pre_attribs ≡ (dropped o).pre_attribs)
        × ((tick c q o).1.post_attribs ≡ (dropped o).post_attribs)
        × ((tick c q o).1.cmd_attribs ≡ (dropped o).cmd_attribs)
        × ((tick c q o).1.dropped_attribs ≡ [])
  unfolding tick
  tick_maps q o =
      let o1 = record o { body = clean c o.body } in
      let o2 = settle c o in
      let (e, f, g) = drop_all_maps o.dropped_attribs o o1 refl refl refl in
      let (e', f', g', h') =
        finish_maps q o2 (tick_list c o2.pre_attribs q false o2.body o2.effectors) in
      (
        e' ∙ unfold settle in e,
        f' ∙ unfold settle in f,
        g' ∙ unfold settle in g,
        h' ∙ unfold settle in refl,
      )
