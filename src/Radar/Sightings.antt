-- ===== src/Radar/Sightings.antt =====
-- The contacts that a radar reports.
use native.Mathlib.Nat.{zero-add}
use nrtb_redo.Common.{
  ℕ, ◌+◌, ◌%◌, ◌<◌, ◌^◌, ltb, ◌≡◌, ◌≢◌, refl, sym, ap, ◌∙◌, true, false, List, [], ◌∷◌, ◌++◌,
  append_assoc, append-nil, if◌then◌else◌, ◌==◌, ==_iff, length, arith, Bool-cases, inl, inr, subst,
}
use nrtb_redo.Common.Bytes.{Bytes, codes}
use nrtb_redo.Common.Decimal.{show_nat}
use nrtb_redo.Common.Int.{pos}
use nrtb_redo.Floats.{Floats}
use nrtb_redo.Triad.{Triad}
use nrtb_redo.Triad
use nrtb_redo.Triad.Text.{FloatText, six, show_triad}
use nrtb_redo.Object.{Body}
use nrtb_redo.Sim.{Contact}
use nrtb_redo.Radar.{
  Radar, Sighting, to_int, to_unsigned, own_id, tick, blur, in_range, sight, show_sighting, look,
  look_loop, announced, get_contacts,
}

module _ {F : Type 0} ⦃n : Floats F⦄ (r : Radar F) where
  -- The contacts of others that are in range, as they are seen.
  abbrev pub sightings : List (Contact F) → List (Sighting F)
  sightings [] = []
  sightings (c ∷ cs) =
      let rest = sightings cs in
      if c.id == own_id r then rest else if in_range r (sight r c) then sight r c ∷ rest else rest

  -- Range and angles of a contact from the bot.
  abbrev pub offset_of : Contact F → Triad F
  offset_of c = Triad.to_polar (Triad.sub c.location r.parent_location)

  abbrev pub excess : Contact F → F
  excess c = n.minus (offset_of c).x r.dist_return_limit

  -- The excess over the limit, times its fraction less a half, is added to a range behind the limit.
  abbrev pub blurred : Contact F → F
  blurred c = n.plus (offset_of c).x (
      n.times (excess c)
        (n.minus (n.minus (excess c) (n.times (n.floor (excess c)) n.one)) (n.decimal 5 1)))

  pub record IsSightingOf (c : Contact F) (s : Sighting F) : Type 0 where
    pub angles : (s.offset.y ≡ (offset_of c).y) × (s.offset.z ≡ (offset_of c).z)
    pub near :
        n.lt r.dist_return_limit (offset_of c).x ≡ false
        → (s.offset.x ≡ (offset_of c).x) × (s.velocity ≡ Triad.sub c.velocity r.parent_velocity)
    pub far :
        n.lt r.dist_return_limit (offset_of c).x ≡ true
        → (s.offset.x ≡ blurred c) × (s.velocity ≡ Triad.sub r.parent_velocity r.parent_velocity)
    pub typed : n.lt r.type_return_limit s.offset.x ≡ false → s.type_ ≡ c.type_
    pub untyped : n.lt r.type_return_limit s.offset.x ≡ true → s.type_ ≡ 0

  -- Within five times the limit of the range.
  abbrev pub IsClose : Sighting F → Type 0
  IsClose s = n.lt s.offset.x (n.times r.dist_return_limit (n.decimal 5 0)) ≡ true

  -- What is reported for a list of contacts, by a radar on the bot `own`.
  pub data Reported (own : ℕ) : List (Contact F) → List (Sighting F) → Type 0 where
    nothing : Reported own [] []
    self :
        (c : Contact F) (cs : List (Contact F)) (ss : List (Sighting F))
        → c.id ≡ own
        → Reported own cs ss
        → Reported own (c ∷ cs) ss
    seen :
        (c : Contact F) (s : Sighting F) (cs : List (Contact F)) (ss : List (Sighting F))
        → c.id ≢ own
        → IsSightingOf c s
        → IsClose s
        → Reported own cs ss
        → Reported own (c ∷ cs) (s ∷ ss)
    beyond :
        (c : Contact F) (s : Sighting F) (cs : List (Contact F)) (ss : List (Sighting F))
        → c.id ≢ own
        → IsSightingOf c s
        → ¬ IsClose s
        → Reported own cs ss
        → Reported own (c ∷ cs) ss

  sight-IsSightingOf : (c : Contact F) → IsSightingOf c (sight r c)
  unfolding sight blur
  sight-IsSightingOf c = record {
    angles = elim (Bool-cases (n.lt r.dist_return_limit (offset_of c).x)) [
      | inl h ↦ (rw h refl, rw h refl)
      | inr h ↦ (rw h refl, rw h refl)
    ];
    near = λ h. (rw h refl, rw h refl);
    far = λ h. (rw h refl, rw h refl);
    typed = λ h. rw h refl;
    untyped = λ h. rw h refl;
  }

  sightings-Reported : (cs : List (Contact F)) → Reported (own_id r) cs (sightings cs)
  sightings-Reported [] = nothing
  sightings-Reported (c ∷ cs) =
      let rest = sightings-Reported cs in
      elim (Bool-cases (c.id == own_id r)) [
        | inl own ↦ rw own (self c cs (sightings cs) ((==_iff c.id (own_id r)).0 own) rest)
        | inr other ↦
            let is_other : c.id ≢ own_id r = λ e. cc (other, (==_iff c.id (own_id r)).1 e) in
            elim (Bool-cases (in_range r (sight r c))) [
              | inl close ↦
                  rw (other, close)
                    (seen c (sight r c) cs (sightings cs) is_other (sight-IsSightingOf c) close
                      rest)
              | inr away ↦
                  rw (other, away)
                    (beyond c (sight r c) cs (sightings cs) is_other (sight-IsSightingOf c)
                      (λ close. cc (close, away)) rest)
            ]
      ]

  module _ (t : FloatText F) where
    -- One group after the other: type, range and angles, and velocity, each behind a space.
    abbrev pub show_all : List (Sighting F) → Bytes
    show_all [] = []
    show_all (s ∷ ss) =
        codes " "
        ++ (show_nat s.type_
            ++ (codes " "
                ++ (show_triad t six s.offset
                    ++ (codes " " ++ (show_triad t six s.velocity ++ show_all ss)))))

    show_all-cons :
        (s : Sighting F) (ss : List (Sighting F))
        → show_sighting t s ++ show_all ss ≡ show_all (s ∷ ss)
    unfolding show_sighting
    show_all-cons s ss = simp append_assoc

    look_loop-sightings :
        (cs : List (Contact F)) (k : ℕ) (out : Bytes)
        → look_loop t r cs (k, out) ≡ (k + length (sightings cs), out ++ show_all (sightings cs))
    unfolding look_loop look
    look_loop-sightings [] k out =
        let same : k ≡ k + 0 = omega arith in
        ap (λ m. (m, out)) same ∙ ap (λ o. (k + 0, o)) (sym (append-nil out))
    look_loop-sightings (c ∷ cs) k out = elim (Bool-cases (c.id == own_id r)) [
      | inl own ↦ rw own (look_loop-sightings cs k out)
      | inr other ↦ elim (Bool-cases (in_range r (sight r c))) [
        | inr away ↦ rw (other, away) (look_loop-sightings cs k out)
        | inl close ↦
            rw (other, close)
              (look_loop-sightings cs (k + 1) (out ++ show_sighting t (sight r c))
                ∙ ap (λ o. (k + 1 + length (sightings cs), o))
                    (append_assoc out (show_sighting t (sight r c)) (show_all (sightings cs))
                      ∙ ap (◌++◌ out) (show_all-cons (sight r c) (sightings cs)))
                ∙ ap (λ m. (m, out ++ show_all (sight r c ∷ sightings cs))) (omega arith))
      ]
    ]

    pub get_contacts-sightings :
        (cs : List (Contact F))
        → get_contacts t r cs
          ≡ codes "radar contacts " ++ (show_nat (length (sightings cs)) ++ show_all (sightings cs))
    unfolding get_contacts
    get_contacts-sightings [] =
        ap (λ s. codes "radar contacts " ++ s) (sym (append-nil (show_nat 0)))
    get_contacts-sightings (c ∷ cs) =
        ap (announced t) (look_loop-sightings (c ∷ cs) 0 [])
        ∙ ap (λ m. codes "radar contacts " ++ (show_nat m ++ show_all (sightings (c ∷ cs))))
            (zero-add (length (sightings (c ∷ cs))))

to_int_small : (k : ℕ) → k < 2 ^ 31 → to_int k ≡ pos k
to_int_small k h =
    let low : k % 2 ^ 32 ≡ k = omega (arith, h) in
    let below : ltb k (2 ^ 31) ≡ true = ground (arith, h) in rw (low, below) refl

module _ {F : Type 0} ⦃n : Floats F⦄ where
  ticked-own_id : (r : Radar F) (o : Body F) → o.id < 2 ^ 31 → own_id (tick r o).1 ≡ o.id
  unfolding tick
  ticked-own_id r o small = ap to_unsigned (to_int_small o.id small)

  -- The response of a radar, after a tick of its bot whose id is below 2 ^ 31, announces the number of
  -- groups that follow; the groups are the sightings in the order of the list of contacts: one of each
  -- contact but the bot itself whose range, as it is shown, is within five times the limit of the range,
  -- and no others. A sighting shows the contact's angles; up to the limit also its range and relative
  -- velocity, and behind it a blurred range and no relative motion; the type is shown up to the limit of
  -- the type, and as zero behind it.
  pub get_contacts_lem :
      (t : FloatText F) (r : Radar F) (o : Body F) (cs : List (Contact F))
      → o.id < 2 ^ 31
      → (ss : List (Sighting F)) × (get_contacts t (tick r o).1 cs
          ≡ codes "radar contacts " ++ (show_nat (length ss) ++ show_all (tick r o).1 t ss))
        × Reported (tick r o).1 o.id cs ss
  get_contacts_lem t r o cs small =
      let ticked = (tick r o).1 in
      (
        sightings ticked cs,
        get_contacts-sightings ticked t cs,
        subst (λ own. Reported ticked own cs (sightings ticked cs)) (ticked-own_id r o small)
            (sightings-Reported ticked cs),
      )
