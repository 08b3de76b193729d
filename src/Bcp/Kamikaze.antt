-- ===== src/Bcp/Kamikaze.antt =====
-- cpp/BCPs/kamikaze/kamikaze.cpp, `main`: the rounds of the control program that chases the first
-- contact of its radar, and its orders in the bot that takes them.
use nrtb_redo.Common.{
  ◌≡◌, ◌≢◌, refl, sym, ap, ◌∙◌, subst, Bool, true, false, not, List, [], ◌∷◌, ◌++◌, if◌then◌else◌,
  Bool-cases, inl, inr,
}
use nrtb_redo.Common.Bytes.{Bytes, codes}
use nrtb_redo.Floats.{Floats}
use nrtb_redo.Object.{EffectorClass}
use nrtb_redo.Triad.Text.{FloatText, six}
use nrtb_redo.Bot.{Bot, route}
use nrtb_redo.Bcp.{BotState}
use nrtb_redo.Bcp.Lvar.{printing_of}
use nrtb_redo.Bcp.Orders.{
  bot_of, autopilot_of, obeyed, obeyed-append, drive-autopilot, on-autopilot, off-autopilot,
  power-autopilot, turn_rate-autopilot, speed-autopilot, heading-autopilot,
}

-- The values of `state`.
pub data Mood : Type 0 where
  new searching tracking : Mood

pub record Hunter : Type 0 where
  pub state : Mood
  pub orders : List Bytes

abbrev pub setup_orders : List Bytes
setup_orders =
    codes "bot autopilot power 100"
    ∷ codes "bot autopilot turn_rate 5"
    ∷ codes "bot autopilot speed 300"
    ∷ codes "drive brake 100"
    ∷ []

unfoldable pub set_up : Hunter
set_up = record { state = new; orders = setup_orders }

abbrev pub halt_orders : List Bytes
halt_orders = codes "bot autopilot off" ∷ codes "drive brake 100" ∷ codes "drive turn 0" ∷ []

abbrev pub chase_orders : List Bytes
chase_orders = codes "drive brake 0" ∷ codes "bot autopilot on" ∷ []

abbrev pub enter : Mood → List Bytes → Hunter → Hunter
enter s msgs h = record { state = s; orders = h.orders ++ msgs }

-- `if (state != "searching")`
unfoldable pub search_mood : Hunter → Mood → Hunter
search_mood h new = enter searching halt_orders h
search_mood h searching = h
search_mood h tracking = enter searching halt_orders h

-- `if (state != "tracking")`
unfoldable pub track_mood : Hunter → Mood → Hunter
track_mood h new = enter tracking chase_orders h
track_mood h searching = enter tracking chase_orders h
track_mood h tracking = h

module _ {F : Type 0} ⦃n : Floats F⦄ (t : FloatText F) where
  open n use {nought, one, minus, eq}

  abbrev pub heading_order : F → Bytes
  heading_order azimuth = codes "bot autopilot heading " ++ t.show six azimuth

  abbrev pub is_lost : BotState F → Bool
  is_lost target = eq target.location.x (minus nought one)

  -- One round, for the target that was read.
  unfoldable pub round : BotState F → Hunter → Hunter
  unfolding search_mood track_mood
  round target h =
      let g = track_mood h h.state in
      if is_lost target
      then search_mood h h.state
      else record g { orders = g.orders ++ (heading_order target.location.y ∷ []) }

  unfoldable pub hunt : List (BotState F) → Hunter → Hunter
  unfolding round
  hunt [] h = h
  hunt (target ∷ targets) h = hunt targets (round target h)

  abbrev pub is_tracking : Mood → Bool
  is_tracking new = false
  is_tracking searching = false
  is_tracking tracking = true

  module _ {E : Type 0} (c : EffectorClass F E) (b0 : Bot F E) where
    abbrev pub driven : Hunter → Bot F E
    driven h = obeyed (printing_of t) c h.orders b0

    -- More orders for the bot.
    ordered :
        (msgs orders : List Bytes)
        → (obeyed (printing_of t) c (orders ++ msgs) b0).auto_on
          ≡ (obeyed (printing_of t) c msgs (obeyed (printing_of t) c orders b0)).auto_on
    ordered msgs orders = ap (λ b. b.auto_on) (obeyed-append (printing_of t) c orders msgs b0)

    abbrev told : Bytes → Bot F E → Bot F E
    told msg b = bot_of (route (printing_of t) c msg b)

    set_up-auto_on : b0.auto_on ≡ false → (driven set_up).auto_on ≡ false
    unfolding set_up
    set_up-auto_on off =
        let p = printing_of t in
        let b1 = told (codes "bot autopilot power 100") b0 in
        let b2 = told (codes "bot autopilot turn_rate 5") b1 in
        let b3 = told (codes "bot autopilot speed 300") b2 in
        ap (λ a. a.0)
          (drive-autopilot p c (codes "brake 100") b3 ∙ speed-autopilot p c b2 (codes "300"))
        ∙ ap (λ a. a.0)
            (turn_rate-autopilot p c b1 (codes "5") ∙ power-autopilot p c b0 (codes "100"))
        ∙ off

    halted : (b : Bot F E) → (obeyed (printing_of t) c halt_orders b).auto_on ≡ false
    halted b =
        let p = printing_of t in
        let b1 = told (codes "bot autopilot off") b in
        let b2 = told (codes "drive brake 100") b1 in
        ap (λ a. a.0)
          (drive-autopilot p c (codes "turn 0") b2
            ∙ drive-autopilot p c (codes "brake 100") b1
            ∙ off-autopilot p c b)

    chased : (b : Bot F E) → (obeyed (printing_of t) c chase_orders b).auto_on ≡ true
    chased b = ap (λ a. a.0) (on-autopilot (printing_of t) c (told (codes "drive brake 0") b))

    -- The autopilot is on exactly while the program has a target.
    abbrev pub IsInMood : Hunter → Type 0
    IsInMood h = (driven h).auto_on ≡ is_tracking h.state

    search_mood-IsInMood :
        (h : Hunter) (s : Mood) → h.state ≡ s → IsInMood h → IsInMood (search_mood h s)
    unfolding search_mood
    search_mood-IsInMood h new e k = ordered halt_orders h.orders ∙ halted (driven h)
    search_mood-IsInMood h searching e k = k
    search_mood-IsInMood h tracking e k = ordered halt_orders h.orders ∙ halted (driven h)

    track_mood-on :
        (h : Hunter) (s : Mood)
        → h.state ≡ s
        → IsInMood h
        → ((track_mood h s).state ≡ tracking) × ((driven (track_mood h s)).auto_on ≡ true)
    unfolding track_mood
    track_mood-on h new e k = (refl, ordered chase_orders h.orders ∙ chased (driven h))
    track_mood-on h searching e k = (refl, ordered chase_orders h.orders ∙ chased (driven h))
    track_mood-on h tracking e k = (e, k ∙ ap is_tracking e)

    round-IsInMood : (target : BotState F) (h : Hunter) → IsInMood h → IsInMood (round target h)
    unfolding round
    round-IsInMood target h k = elim (Bool-cases (is_lost target)) [
      | inl lost ↦ rw lost (search_mood-IsInMood h h.state refl k)
      | inr seen ↦
          let g = track_mood h h.state in
          let on = track_mood-on h h.state refl k in
          let heading = heading_order target.location.y in
          rw seen (
            ordered (heading ∷ []) g.orders
            ∙ ap (λ a. a.0)
                (heading-autopilot (printing_of t) c (driven g) (t.show six target.location.y))
            ∙ on.1
            ∙ sym (ap is_tracking on.0))
    ]

    hunt-IsInMood_from :
        (targets : List (BotState F)) (h : Hunter) → IsInMood h → IsInMood (hunt targets h)
    unfolding hunt
    hunt-IsInMood_from [] h k = k
    hunt-IsInMood_from (target ∷ targets) h k =
        hunt-IsInMood_from targets (round target h) (round-IsInMood target h k)

    hunt-append : (xs ys : List (BotState F)) (h : Hunter) → hunt (xs ++ ys) h ≡ hunt ys (hunt xs h)
    unfolding hunt
    hunt-append [] ys h = refl
    hunt-append (x ∷ xs) ys h = hunt-append xs ys (round x h)

    -- What the bot does about the last target.
    pub record IsFollowing (target : BotState F) (b : Bot F E) : Type 0 where
      pub chasing : b.auto_on ≡ not (is_lost target)
      pub heading :
          is_lost target ≡ false
          → (old : F) × (b.set_heading
              ≡ n.fmod
                  ((printing_of t).read_into (codes " " ++ t.show six target.location.y) old)
                  (n.times (n.decimal 314159 5) n.two))

    round-IsFollowing :
        (target : BotState F) (h : Hunter)
        → IsInMood h
        → IsFollowing target (driven (round target h))
    unfolding round search_mood
    round-IsFollowing target h k = elim (Bool-cases (is_lost target)) [
      | inl lost ↦ rw lost record {
        chasing = after_search h.state refl ∙ sym (ap not lost);
        heading = λ e. absurd (true-ne-false (sym lost ∙ e));
      }
      | inr seen ↦
          let g = track_mood h h.state in
          let heading = heading_order target.location.y in
          let e =
            ap (λ b. autopilot_of b) (obeyed-append (printing_of t) c g.orders (heading ∷ []) b0)
            ∙ heading-autopilot (printing_of t) c (driven g) (t.show six target.location.y) in
          rw seen record {
            chasing = ap (λ a. a.0) e ∙ (track_mood-on h h.state refl k).1 ∙ sym (ap not seen);
            heading = λ _. ((driven g).set_heading, ap (λ a. a.2) e);
          }
    ]
      where
        true-ne-false : true ≢ false
        true-ne-false e = cc

        after_search : (s : Mood) → h.state ≡ s → (driven (search_mood h s)).auto_on ≡ false
        after_search new e = ordered halt_orders h.orders ∙ halted (driven h)
        after_search searching e = k ∙ ap is_tracking e
        after_search tracking e = ordered halt_orders h.orders ∙ halted (driven h)

    -- Whatever the radar has shown in the rounds before: in a bot that started with the autopilot off and
    -- has taken the orders of the program, the autopilot is on exactly if the last round had a target, and
    -- then it keeps the heading of that target's azimuth.
    pub hunt-IsFollowing :
        (targets : List (BotState F)) (target : BotState F)
        → b0.auto_on ≡ false
        → IsFollowing target (driven (hunt (targets ++ (target ∷ [])) set_up))
    unfolding set_up
    hunt-IsFollowing targets target off =
        subst (λ h. IsFollowing target (driven h)) (sym (hunt-append targets (target ∷ []) set_up))
          (unfold hunt in
            round-IsFollowing target (hunt targets set_up)
              (hunt-IsInMood_from targets set_up (set_up-auto_on off)))
