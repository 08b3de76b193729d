-- ===== src/Rotatable.antt =====
-- `rotatable` of cpp/sim_engine/base_object/base_object.{h,cpp}: three angles with a cache of their
-- cosines and sines. A method returns the new value of its object.
use nrtb_redo.Common.{◌≡◌, refl, ◌⊎◌, inl, List, [], ◌∷◌, Bool, true, false, if◌then◌else◌, arith}
use nrtb_redo.Floats.{Floats}
use nrtb_redo.Triad.{Triad, triad}
use nrtb_redo.Triad

pub record Rotatable (F : Type 0) : Type 0 where
  pub dirty : Bool
  pub axis : Triad F
  pub cos : Triad F
  pub sin : Triad F

-- Every way to change a rotatable.
pub data Change (F : Type 0) : Type 0 where
  trims copies reads_cos reads_sin : Change F
  forces : F → F → Triad F → F → Change F
  scales adds sets : Triad F → Change F

module _ {F : Type 0} ⦃n : Floats F⦄ where
  open n use {nought, two, decimal, plus, times, over, fmod, cosine, sine}

  abbrev pub zero_triad : Triad F
  zero_triad = triad nought nought nought

  -- The cache of a new value is (0,0,0), which `dirty` marks as stale.
  unfoldable pub construct : Triad F → Rotatable F
  construct s = record { dirty = true; axis = s; cos = zero_triad; sin = zero_triad }

  -- const float pi=3.14159; const float period = 2.0 * pi;
  abbrev pub period : F
  period = times two (decimal 314159 5)

  unfoldable pub angles : Rotatable F → Triad F
  angles r = r.axis

  unfoldable pub copy : Rotatable F → Rotatable F
  unfolding angles construct
  copy a = construct (angles a)

  unfoldable pub trim : Rotatable F → Rotatable F
  trim r = record r {
    dirty = true;
    axis = triad (fmod r.axis.x period) (fmod r.axis.y period) (fmod r.axis.z period);
  }

  unfoldable pub apply_force : F → F → Triad F → F → Rotatable F → Rotatable F
  apply_force mass arm vec t r =
      let inertia = over (times (times arm arm) mass) two in
      record r {
        dirty = true;
        axis =
            triad (plus r.axis.x (times (over vec.x inertia) t))
              (plus r.axis.y (times (over vec.y inertia) t))
              (plus r.axis.z (times (over vec.z inertia) t));
      }

  unfoldable pub scale : Triad F → Rotatable F → Rotatable F
  scale factor r = record r { dirty = true; axis = Triad.mul_assign r.axis factor }

  unfoldable pub add : Triad F → Rotatable F → Rotatable F
  add value r = record r { dirty = true; axis = Triad.add_assign r.axis value }

  unfoldable pub set : Triad F → Rotatable F → Rotatable F
  set a r = record r { dirty = true; axis = a }

  unfoldable pub recalc : Rotatable F → Rotatable F
  recalc r = record r {
    cos = triad (cosine r.axis.x) (cosine r.axis.y) (cosine r.axis.z);
    sin = triad (sine r.axis.x) (sine r.axis.y) (sine r.axis.z);
    dirty = false;
  }

  unfoldable pub get_cos : Rotatable F → Triad F × Rotatable F
  unfolding recalc
  get_cos r = let r' = if r.dirty then recalc r else r in (r'.cos, r')

  unfoldable pub get_sin : Rotatable F → Triad F × Rotatable F
  unfolding recalc
  get_sin r = let r' = if r.dirty then recalc r else r in (r'.sin, r')

  abbrev pub cosines : Triad F → Triad F
  cosines a = triad (cosine a.x) (cosine a.y) (cosine a.z)

  abbrev pub sines : Triad F → Triad F
  sines a = triad (sine a.x) (sine a.y) (sine a.z)

  -- The cache is marked stale, or it belongs to the angles.
  abbrev pub IsFresh : Rotatable F → Type 0
  IsFresh r = (r.dirty ≡ true) ⊎ ((r.cos ≡ cosines r.axis) × (r.sin ≡ sines r.axis))

  pub change : Change F → Rotatable F → Rotatable F
  change trims r = trim r
  change copies r = copy r
  change reads_cos r = (get_cos r).1
  change reads_sin r = (get_sin r).1
  change (forces m a v t) r = apply_force m a v t r
  change (scales f) r = scale f r
  change (adds v) r = add v r
  change (sets v) r = set v r

  pub change_all : List (Change F) → Rotatable F → Rotatable F
  change_all [] r = r
  change_all (c ∷ cs) r = change_all cs (change c r)

  change-IsFresh : (c : Change F) (r : Rotatable F) → IsFresh r → IsFresh (change c r)
  unfolding change trim copy get_cos get_sin apply_force scale add set
  change-IsFresh trims r v = inl refl
  change-IsFresh copies r v = inl refl
  change-IsFresh reads_cos r v = ground arith
  change-IsFresh reads_sin r v = ground arith
  change-IsFresh (forces m a u t) r v = inl refl
  change-IsFresh (scales f) r v = inl refl
  change-IsFresh (adds u) r v = inl refl
  change-IsFresh (sets u) r v = inl refl

  change_all-IsFresh :
      (cs : List (Change F)) (r : Rotatable F) → IsFresh r → IsFresh (change_all cs r)
  unfolding change_all
  change_all-IsFresh [] r v = v
  change_all-IsFresh (c ∷ cs) r v = change_all-IsFresh cs (change c r) (change-IsFresh c r v)

  fresh_reads :
      (r : Rotatable F)
      → IsFresh r
      → ((get_cos r).0 ≡ cosines (angles r)) × ((get_sin r).0 ≡ sines (angles r))
  unfolding get_cos get_sin angles
  fresh_reads r v = ground arith

  -- After any calls on a new rotatable, `get_cos` and `get_sin` give the cosines and the sines of the
  -- angles that it has then, whatever was cached before.
  pub get_cos_lem :
      (s : Triad F) (cs : List (Change F))
      → let r = change_all cs (construct s) in
        ((get_cos r).0 ≡ cosines (angles r)) × ((get_sin r).0 ≡ sines (angles r))
  unfolding construct
  get_cos_lem s cs =
      fresh_reads (change_all cs (construct s)) (change_all-IsFresh cs (construct s) (inl refl))
