-- ===== src/Bcp/Target.antt =====
-- cpp/BCPs/target/target.cpp, `main`: the rounds of the control program that keeps its bot in a zone.
pub mod Course
use nrtb_redo.Common.{ℕ, ◌+◌, Bool, true, false, List, [], ◌∷◌, ◌++◌, if◌then◌else◌, ◌||◌}
use nrtb_redo.Common.Bytes.{Bytes, codes}
use nrtb_redo.Floats.{Floats}
use nrtb_redo.Triad.{Triad}
use nrtb_redo.Triad
use nrtb_redo.Triad.Text.{FloatText, six}
use nrtb_redo.Bcp.{BotState}

-- The constants `run` to `returning`.
pub data Phase : Type 0 where
  cruise orient turning tofar returning : Phase

pub record Settings (F : Type 0) : Type 0 where
  pub center : Triad F
  pub zone : F
  pub turnslop : F

-- The variables of `main` in the loop, and the orders that were put so far.
pub record Pilot (F : Type 0) : Type 0 where
  pub state : Phase
  pub wayhome : F
  pub tohome : F
  pub orders : List Bytes

-- A round goes on to the next, or calls `exit(1)`.
pub data Round (F : Type 0) : Type 0 where
  again exits : Pilot F → Round F

unfoldable pub state_map : Phase → Bytes
state_map cruise = codes "cruse"
state_map orient = codes "orientation"
state_map turning = codes "turning"
state_map tofar = codes "zone exception"
state_map returning = codes "seeking zone"

-- What is put before the loop; `bot lvar` asks for the state and orders nothing.
abbrev pub first_orders : List Bytes
first_orders =
    codes "drive brake 0"
    ∷ codes "bot autopilot power 50"
    ∷ codes "bot autopilot heading 0"
    ∷ codes "bot autopilot speed 100"
    ∷ codes "bot autopilot turn_rate 10"
    ∷ codes "bot autopilot on"
    ∷ []

module _ {F : Type 0} ⦃n : Floats F⦄ where
  open n use {nought, one, decimal, plus, minus, absolute, lt}

  abbrev pub order : Bytes → Pilot F → Pilot F
  order msg p = record p { orders = p.orders ++ (msg ∷ []) }

  unfoldable pub set_out : F → Pilot F
  set_out junk = record { state = cruise; wayhome = nought; tohome = junk; orders = first_orders }

  -- A negative `seek.z` asks for the place of the landing.
  unfoldable pub center_of : Triad F → Triad F → Triad F
  center_of seek landed = if lt seek.z nought then landed else seek

  module _ (t : FloatText F) (conf : Settings F) where
    abbrev pub distance : BotState F → F
    distance current = Triad.range current.location conf.center

    -- The azimuth of the way to the center and one radian, not negative.
    unfoldable pub way_home : BotState F → F
    way_home current =
        let way = plus (Triad.to_polar (Triad.sub conf.center current.location)).y one in
        if lt way nought then plus way (decimal 6283185 6) else way

    abbrev pub heading_order : F → Bytes
    heading_order way = codes "bot autopilot heading " ++ t.show six way

    unfoldable pub cruising : BotState F → Pilot F → Pilot F
    cruising current p = if lt conf.zone (distance current) then record p { state = tofar } else p

    unfoldable pub outside : Pilot F → Pilot F
    outside p = record (order (codes "bot autopilot speed 10") p) { state = orient }

    unfoldable pub orienting : BotState F → Pilot F → Pilot F
    unfolding way_home
    orienting current p =
        let way = way_home current in
        record (order (heading_order way) (record p { wayhome = way })) { state = turning }

    unfoldable pub is_turned : BotState F → Pilot F → Bool
    is_turned current p = lt (absolute (minus current.attitude.z p.wayhome)) conf.turnslop

    unfoldable pub turn : BotState F → Pilot F → Pilot F
    unfolding is_turned
    turn current p =
        if is_turned current p
        then record (order (codes "bot autopilot speed 100") p) {
          state = returning;
          tohome = distance current;
        }
        else p

    unfoldable pub go_home : BotState F → Pilot F → Pilot F
    go_home current p =
        let dist = distance current in
        let state =
          if lt dist conf.zone then cruise else if lt p.tohome dist then tofar else returning in
        record p { state = state; tohome = dist }

    unfoldable pub check : BotState F → Phase → Pilot F → Pilot F
    unfolding cruising outside orienting turn go_home
    check current cruise p = cruising current p
    check current tofar p = outside p
    check current orient p = orienting current p
    check current turning p = turn current p
    check current returning p = go_home current p

    -- One round, for the state that was read.
    unfoldable pub round : BotState F → Pilot F → Round F
    unfolding check
    round current p = if lt p.wayhome nought then exits p else again (check current p.state p)

    unfoldable pub fly : List (BotState F) → Pilot F → Round F
    unfolding round
    fly [] p = again p
    fly (current ∷ rest) p = elim (round current p) [ again q ↦ fly rest q | exits q ↦ exits q ]
