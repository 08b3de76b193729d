-- ===== src/Bcp/Target/Course.antt =====
-- The orders of the control program against its state, in the bot that takes them.
use nrtb_redo.Common.{
  ◌≡◌, refl, sym, ap, ◌∙◌, subst, Bool, true, false, List, [], ◌∷◌, ◌++◌, if◌then◌else◌, some,
  Bool-cases, inl, inr, ◌⊎◌,
}
use nrtb_redo.Common.Bytes.{Bytes, codes}
use nrtb_redo.Common.Stream.{skip_spaces}
use nrtb_redo.Floats.{Floats}
use nrtb_redo.Object.{EffectorClass}
use nrtb_redo.Triad.{Triad}
use nrtb_redo.Triad
use nrtb_redo.Triad.Text.{FloatText, six, read_float}
use nrtb_redo.Bot.{Bot, route}
use nrtb_redo.Bcp.{BotState}
use nrtb_redo.Bcp.Lvar.{printing_of}
use nrtb_redo.Bcp.Orders.{
  Autopilot, bot_of, autopilot_of, obeyed, obeyed-append, on-autopilot, turn_rate-autopilot,
  speed-autopilot, heading-autopilot,
}
use nrtb_redo.Bcp.Target.{
  Phase, cruise, orient, turning, tofar, returning, Settings, Pilot, again, set_out, way_home,
  heading_order, cruising, outside, orienting, is_turned, turn, go_home, distance, check, round,
  fly,
}

module _ {F : Type 0} ⦃n : Floats F⦄ (t : FloatText F) where
  -- The two speeds are read from their texts; an azimuth is not less than -pi.
  pub record IsPiloting : Type 0 where
    pub ten : t.number (codes "10") ≡ (n.decimal 10 0, some [])
    pub hundred : t.number (codes "100") ≡ (n.decimal 100 0, some [])
    pub nought_lt : n.lt n.nought n.nought ≡ false
    pub azimuth :
        (a : Triad F)
        → n.lt (n.plus (n.plus (Triad.to_polar a).y n.one) (n.decimal 6283185 6)) n.nought ≡ false

  -- Slow while it looks for its heading.
  abbrev pub speed_of : Phase → F
  speed_of cruise = n.decimal 100 0
  speed_of tofar = n.decimal 100 0
  speed_of orient = n.decimal 10 0
  speed_of turning = n.decimal 10 0
  speed_of returning = n.decimal 100 0

  -- The heading that was read from a text.
  abbrev pub HeadingFrom : Bytes → F → Type 0
  HeadingFrom text heading =
      (old : F) × (heading
        ≡ n.fmod ((printing_of t).read_into (codes " " ++ text) old)
            (n.times (n.decimal 314159 5) n.two))

  -- The heading that was read from the text of `wayhome`.
  abbrev pub IsHeading : F → F → Type 0
  IsHeading way heading = HeadingFrom (t.show six way) heading

  -- The heading of the start, before any order to turn, or that of the last order.
  abbrev pub IsSteered : F → F → Type 0
  IsSteered way heading =
      ((way ≡ n.nought) × HeadingFrom (codes "0") heading) ⊎ IsHeading way heading

  abbrev pub HeadingIn : Phase → F → F → Type 0
  HeadingIn turning way heading = IsHeading way heading
  HeadingIn returning way heading = IsHeading way heading
  HeadingIn cruise way heading = IsSteered way heading
  HeadingIn tofar way heading = IsSteered way heading
  HeadingIn orient way heading = IsSteered way heading

  pub record IsOnCourse (p : Pilot F) (a : Autopilot F) : Type 0 where
    pub engaged : a.0 ≡ true
    pub speed : a.1 ≡ speed_of p.state
    pub heading : HeadingIn p.state p.wayhome a.2
    pub home : n.lt p.wayhome n.nought ≡ false

  module _ {E : Type 0} (c : EffectorClass F E) (b0 : Bot F E) (laws : IsPiloting) where
    abbrev pub flown : Pilot F → Autopilot F
    flown p = autopilot_of (obeyed (printing_of t) c p.orders b0)

    -- One more order for the bot.
    ordered :
        (msg : Bytes) (orders : List Bytes)
        → autopilot_of (obeyed (printing_of t) c (orders ++ (msg ∷ [])) b0)
          ≡ autopilot_of (bot_of (route (printing_of t) c msg (obeyed (printing_of t) c orders b0)))
    ordered msg orders =
        ap (λ b. autopilot_of b) (obeyed-append (printing_of t) c orders (msg ∷ []) b0)

    read_ten : (old : F) → (printing_of t).read_into (codes " 10") old ≡ n.decimal 10 0
    unfolding read_float skip_spaces
    read_ten old = ap (λ r. r.0) laws.ten

    read_hundred : (old : F) → (printing_of t).read_into (codes " 100") old ≡ n.decimal 100 0
    unfolding read_float skip_spaces
    read_hundred old = ap (λ r. r.0) laws.hundred

    outside-IsOnCourse :
        (conf : Settings F) (p : Pilot F)
        → p.state ≡ tofar
        → IsOnCourse p (flown p)
        → IsOnCourse (outside t conf p) (flown (outside t conf p))
    unfolding outside
    outside-IsOnCourse conf p at_tofar h =
        let b = obeyed (printing_of t) c p.orders b0 in
        let e =
          ordered (codes "bot autopilot speed 10") p.orders
          ∙ speed-autopilot (printing_of t) c b (codes "10") in
        record {
          engaged = ap (λ a. a.0) e ∙ h.engaged;
          speed = ap (λ a. a.1) e ∙ read_ten b.set_speed;
          heading =
              subst (IsSteered p.wayhome) (sym (ap (λ a. a.2) e))
                (subst (λ s. HeadingIn s p.wayhome b.set_heading) at_tofar h.heading);
          home = h.home;
        }

    module _ (conf : Settings F) where
      -- A test picks one of two states of the loop.
      either_pilot :
          (b : Bool) (p q : Pilot F)
          → IsOnCourse p (flown p)
          → IsOnCourse q (flown q)
          → IsOnCourse (if b then p else q) (flown (if b then p else q))
      either_pilot true p q h k = h
      either_pilot false p q h k = k

      way_home-nonnegative :
          (current : BotState F) → n.lt (way_home t conf current) n.nought ≡ false
      unfolding way_home
      way_home-nonnegative current =
          let way = n.plus (Triad.to_polar (Triad.sub conf.center current.location)).y n.one in
          elim (Bool-cases (n.lt way n.nought)) [
            | inl below ↦ rw below (laws.azimuth (Triad.sub conf.center current.location))
            | inr above ↦ rw above above
          ]

      orienting-IsOnCourse :
          (current : BotState F) (p : Pilot F)
          → p.state ≡ orient
          → IsOnCourse p (flown p)
          → IsOnCourse (orienting t conf current p) (flown (orienting t conf current p))
      unfolding orienting
      orienting-IsOnCourse current p at_orient h =
          let b = obeyed (printing_of t) c p.orders b0 in
          let way = way_home t conf current in
          let e =
            ordered (heading_order t conf way) p.orders
            ∙ heading-autopilot (printing_of t) c b (t.show six way) in
          record {
            engaged = ap (λ a. a.0) e ∙ h.engaged;
            speed = ap (λ a. a.1) e ∙ h.speed ∙ ap speed_of at_orient;
            heading = (b.set_heading, ap (λ a. a.2) e);
            home = way_home-nonnegative current;
          }

      turn-IsOnCourse :
          (current : BotState F) (p : Pilot F)
          → p.state ≡ turning
          → IsOnCourse p (flown p)
          → IsOnCourse (turn t conf current p) (flown (turn t conf current p))
      unfolding turn
      turn-IsOnCourse current p at_turning h =
          let b = obeyed (printing_of t) c p.orders b0 in
          let e =
            ordered (codes "bot autopilot speed 100") p.orders
            ∙ speed-autopilot (printing_of t) c b (codes "100") in
          let kept : IsHeading p.wayhome b.set_heading =
            subst (λ s. HeadingIn s p.wayhome b.set_heading) at_turning h.heading in
          elim (Bool-cases (is_turned t conf current p)) [
            | inr not_yet ↦ rw not_yet h
            | inl there ↦ rw there record {
              engaged = ap (λ a. a.0) e ∙ h.engaged;
              speed = ap (λ a. a.1) e ∙ read_hundred b.set_speed;
              heading = (kept.0, ap (λ a. a.2) e ∙ kept.1);
              home = h.home;
            }
          ]

      -- A change of the state alone, between states of the same speed.
      moved :
          (p : Pilot F) (s : Phase) (dist : F)
          → speed_of p.state ≡ speed_of s
          → HeadingIn s p.wayhome (flown p).2
          → IsOnCourse p (flown p)
          → IsOnCourse (record p { state = s; tohome = dist }) (flown p)
      moved p s dist same heading h = record {
        engaged = h.engaged;
        speed = h.speed ∙ same;
        heading = heading;
        home = h.home;
      }

      go_home-IsOnCourse :
          (current : BotState F) (p : Pilot F)
          → p.state ≡ returning
          → IsOnCourse p (flown p)
          → IsOnCourse (go_home t conf current p) (flown p)
      unfolding go_home
      go_home-IsOnCourse current p at_returning h =
          let dist = distance t conf current in
          let kept : IsHeading p.wayhome (flown p).2 =
            subst (λ s. HeadingIn s p.wayhome (flown p).2) at_returning h.heading in
          let fast : speed_of p.state ≡ n.decimal 100 0 = ap speed_of at_returning in
          elim (Bool-cases (n.lt dist conf.zone)) [
            | inl inside ↦ rw inside (moved p cruise dist fast (inr kept) h)
            | inr away ↦ elim (Bool-cases (n.lt p.tohome dist)) [
              | inl farther ↦ rw (away, farther) (moved p tofar dist fast (inr kept) h)
              | inr nearer ↦ rw (away, nearer) (moved p returning dist fast kept h)
            ]
          ]

      cruising-IsOnCourse :
          (current : BotState F) (p : Pilot F)
          → p.state ≡ cruise
          → IsOnCourse p (flown p)
          → IsOnCourse (cruising t conf current p) (flown (cruising t conf current p))
      unfolding cruising
      cruising-IsOnCourse current p at_cruise h =
          let kept : IsSteered p.wayhome (flown p).2 =
            subst (λ s. HeadingIn s p.wayhome (flown p).2) at_cruise h.heading in
          either_pilot (n.lt conf.zone (distance t conf current)) (record p { state = tofar }) p
            (moved p tofar p.tohome (ap speed_of at_cruise) kept h) h

      check-IsOnCourse :
          (current : BotState F) (s : Phase) (p : Pilot F)
          → p.state ≡ s
          → IsOnCourse p (flown p)
          → IsOnCourse (check t conf current s p) (flown (check t conf current s p))
      unfolding check go_home
      check-IsOnCourse current cruise p e h = cruising-IsOnCourse current p e h
      check-IsOnCourse current tofar p e h = outside-IsOnCourse conf p e h
      check-IsOnCourse current orient p e h = orienting-IsOnCourse current p e h
      check-IsOnCourse current turning p e h = turn-IsOnCourse current p e h
      check-IsOnCourse current returning p e h = go_home-IsOnCourse current p e h

      fly-IsOnCourse_from :
          (seen : List (BotState F)) (p : Pilot F)
          → IsOnCourse p (flown p)
          → (q : Pilot F) × (fly t conf seen p ≡ again q) × IsOnCourse q (flown q)
      unfolding fly round
      fly-IsOnCourse_from [] p h = (p, refl, h)
      fly-IsOnCourse_from (current ∷ seen) p h =
          let p1 = check t conf current p.state p in
          let (q, e, k) = fly-IsOnCourse_from seen p1 (check-IsOnCourse current p.state p refl h) in
          (q, rw (h.home, fly) e, k)

      set_out-IsOnCourse : (junk : F) → IsOnCourse (set_out junk) (flown (set_out junk))
      unfolding set_out
      set_out-IsOnCourse junk =
          let p = printing_of t in
          let told = λ (msg : Bytes) (b : Bot F E). bot_of (route p c msg b) in
          let b2 = told (codes "bot autopilot power 50") (told (codes "drive brake 0") b0) in
          let b3 = told (codes "bot autopilot heading 0") b2 in
          let b4 = told (codes "bot autopilot speed 100") b3 in
          let b5 = told (codes "bot autopilot turn_rate 10") b4 in
          record {
            engaged = ap (λ a. a.0) (on-autopilot p c b5);
            speed =
                ap (λ a. a.1) (on-autopilot p c b5)
                ∙ ap (λ a. a.1)
                    (turn_rate-autopilot p c b4 (codes "10") ∙ speed-autopilot p c b3 (codes "100"))
                ∙ read_hundred b3.set_speed;
            heading = inl (
              refl,
              (
                b2.set_heading,
                ap (λ a. a.2) (on-autopilot p c b5)
                    ∙ ap (λ a. a.2)
                        (turn_rate-autopilot p c b4 (codes "10")
                          ∙ speed-autopilot p c b3 (codes "100"))
                    ∙ ap (λ a. a.2) (heading-autopilot p c b2 (codes "0")),
              ),
            );
            home = laws.nought_lt;
          }

      -- Whatever the bot reports, round after round: the control program never leaves its loop by
      -- `exit(1)`. A bot that has taken its orders has the autopilot on; the speed is 10 while the program
      -- looks for its heading and 100 in every other state; and in every state the heading is the way home
      -- that the program keeps, as it was read from the order, or still that of the first order, 0; the
      -- latter only while the program has not computed a way home and is neither turning nor returning.
      pub fly-IsOnCourse :
          (junk : F) (seen : List (BotState F))
          → (q : Pilot F) × (fly t conf seen (set_out junk) ≡ again q) × IsOnCourse q (flown q)
      fly-IsOnCourse junk seen = fly-IsOnCourse_from seen (set_out junk) (set_out-IsOnCourse junk)
