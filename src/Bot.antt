-- ===== src/Bot.antt =====
-- cpp/sim_engine/bot_mk1/bot_mk1.h and bot_mk1.cpp: a bot between the simulation and its control program
-- (the BCP). Writing and reading floats is a parameter; so is the class of the effectors.
pub mod Answers
pub mod Life
pub mod Received
pub mod Sent
pub mod Server
mod Tests
use nrtb_redo.Common.{ℕ, Bool, true, false, List, [], ◌∷◌, ◌++◌, if◌then◌else◌, ◌&&◌, ◌||◌}
use nrtb_redo.Common.Bytes.{Bytes, codes, same_bytes}
use nrtb_redo.Common.Stream.{next_word}
use nrtb_redo.Floats.{Floats}
use nrtb_redo.Triad.{Triad}
use nrtb_redo.Triad
use nrtb_redo.Rotatable
use nrtb_redo.Queue.{Queue, Attempt, returns, waits, queue_not_ready, undefined}
use nrtb_redo.Queue
use nrtb_redo.Object.{Body, Object, EffectorClass}
use nrtb_redo.Object

-- `<<` of a float and of a triplet, and what `>>` makes of a variable.
pub record Printing (F : Type 0) : Type 0 where
  pub show : F → Bytes
  pub show_triad : Triad F → Bytes
  pub read_into : Bytes → F → F

pub record Bot (F E : Type 0) : Type 0 where
  pub object : Object F E
  pub im_alive : Bool
  pub to_bcp : Queue Bytes
  pub from_bcp : Queue Bytes
  pub auto_on : Bool
  pub set_speed : F
  pub set_heading : F
  pub power_limit : F
  pub turn_limit : F

-- A call that returns or throws, with the bot that it leaves.
pub data Ran (F E : Type 0) : Type 0 where
  done : Bot F E → Ran F E
  threw : Bot F E → Ran F E

abbrev pub sent_to : {F E : Type 0} → Bot F E → Attempt (Queue Bytes) → Ran F E
sent_to b (returns q) = done (record b { to_bcp = q })
sent_to b waits = threw b
sent_to b queue_not_ready = threw b
sent_to b undefined = threw b

abbrev pub came_from : {F E : Type 0} → Bot F E → Attempt (Queue Bytes) → Ran F E
came_from b (returns q) = done (record b { from_bcp = q })
came_from b waits = threw b
came_from b queue_not_ready = threw b
came_from b undefined = threw b

abbrev pub and_then : {F E : Type 0} → Ran F E → (Bot F E → Ran F E) → Ran F E
and_then (done b) f = f b
and_then (threw b) f = threw b

abbrev pub bit : Bool → Bytes
bit true = codes "1"
bit false = codes "0"

module _ {F E : Type 0} where
  -- `to_BCP.push(msg)` and `from_BCP.push(cmd)`
  unfoldable pub send_to_bcp : Bytes → Bot F E → Ran F E
  send_to_bcp msg b = sent_to b (Queue.push msg b.to_bcp)

  unfoldable pub bot_cmd : Bytes → Bot F E → Ran F E
  bot_cmd cmd b = came_from b (Queue.push cmd b.from_bcp)

  unfoldable pub lock : Bot F E → Bot F E
  lock b = record b { from_bcp = Queue.hold b.from_bcp }

  unfoldable pub unlock : Bot F E → Ran F E
  unfolding bot_cmd
  unlock b = bot_cmd (codes "tick") (record b { from_bcp = Queue.release b.from_bcp })

  unfoldable pub health : Bot F E → Ran F E
  unfolding send_to_bcp
  health b = send_to_bcp (codes "bot health 100") b

module _ {F E : Type 0} ⦃n : Floats F⦄ (p : Printing F) where
  open n use {nought, two, decimal, minus, times, negate, fmod, lt, le}

  unfoldable pub lvar : Bot F E → Ran F E
  unfolding send_to_bcp
  lvar b =
      let o = b.object.body in
      send_to_bcp
        (codes "bot lvar "
          ++ (p.show_triad o.location
              ++ (codes " "
                  ++ (p.show_triad o.velocity
                      ++ (codes " "
                          ++ (p.show_triad (Rotatable.angles o.attitude)
                              ++ (codes " " ++ p.show_triad (Rotatable.angles o.rotation))))))))
        b

  unfoldable pub power_cmd : Bot F E → Bytes
  power_cmd b =
      let delta =
        minus (Triad.magnatude (record b.object.body.velocity { z = nought })) b.set_speed in
      codes "drive power "
      ++ (if lt (decimal 1 1) delta
          then p.show (negate b.power_limit)
          else if le nought delta
          then codes "0"
          else p.show b.power_limit)

  unfoldable pub turn_cmd : Bot F E → Bytes
  turn_cmd b =
      let delta = minus (Rotatable.angles b.object.body.attitude).z b.set_heading in
      codes "drive turn "
      ++ (if lt delta nought || lt (decimal 314159 5) delta
          then p.show b.turn_limit
          else p.show (negate b.turn_limit))

  -- The autopilot's work at a tick.
  unfoldable pub gonculate : Bot F E → Ran F E
  unfolding bot_cmd power_cmd turn_cmd
  gonculate b =
      if b.auto_on then and_then (bot_cmd (power_cmd b) b) (λ c. bot_cmd (turn_cmd c) c) else done b

  unfoldable pub autopilot_status : Bot F E → Bytes
  autopilot_status b =
      codes "bot autopilot "
      ++ (bit b.auto_on
          ++ (codes " "
              ++ (p.show b.set_heading
                  ++ (codes " "
                      ++ (p.show b.set_speed
                          ++ (codes " "
                              ++ (p.show b.turn_limit ++ (codes " " ++ p.show b.power_limit))))))))

  -- The inner `catch (...)` of `autopilot`.
  unfoldable pub wtf_autopilot : Ran F E → Ran F E
  unfolding send_to_bcp
  wtf_autopilot (done b) = done b
  wtf_autopilot (threw b) = send_to_bcp (codes "bot autopilot WTF?") b

  unfoldable pub autopilot_verb : Bytes → Bytes → Bot F E → Ran F E
  unfolding send_to_bcp autopilot_status
  autopilot_verb verb s b =
      if same_bytes verb (codes "on")
      then done (record b { auto_on = true })
      else if same_bytes verb (codes "off")
      then done (record b { auto_on = false })
      else if same_bytes verb (codes "power")
      then done (record b { power_limit = p.read_into s b.power_limit })
      else if same_bytes verb (codes "speed")
      then done (record b { set_speed = p.read_into s b.set_speed })
      else if same_bytes verb (codes "turn_rate")
      then done (record b { turn_limit = p.read_into s b.turn_limit })
      else if same_bytes verb (codes "heading")
      then done (record b {
        set_heading = fmod (p.read_into s b.set_heading) (times (decimal 314159 5) two);
      })
      else if same_bytes verb (codes "status")
      then send_to_bcp (autopilot_status b) b
      else send_to_bcp (codes "bot autopilot bad_cmd") b

  unfoldable pub autopilot : Bytes → Bot F E → Ran F E
  unfolding wtf_autopilot autopilot_verb next_word
  autopilot tokens b = let (verb, s) = next_word tokens in wtf_autopilot (autopilot_verb verb s b)

  unfoldable pub bot_verb : Bytes → Bytes → Bytes → Bot F E → Ran F E
  unfolding lvar health send_to_bcp autopilot
  bot_verb s verb tokens b =
      if same_bytes verb (codes "lvar")
      then lvar b
      else if same_bytes verb (codes "health")
      then health b
      else if same_bytes verb (codes "ping")
      then send_to_bcp (codes "READY") b
      else if same_bytes verb (codes "autopilot")
      then autopilot tokens b
      else send_to_bcp (codes "bad_cmd \"" ++ (s ++ codes "\"")) b

  -- What an effector answered.
  unfoldable pub answer : Bytes → Bot F E → Ran F E
  unfolding send_to_bcp
  answer [] b = done b
  answer (c ∷ response) b = send_to_bcp (c ∷ response) b

  module _ (c : EffectorClass F E) where
    unfoldable pub effector_cmd : Bytes → Bot F E → Ran F E
    unfolding answer send_to_bcp
    effector_cmd s b =
        let (found, returnme, o) = Object.command c s [] b.object in
        let d = record b { object = o } in
        if found then answer returnme d else send_to_bcp (codes "bad_sys \"" ++ (s ++ codes "\"")) d

    -- The body of the inner `try` of `msg_router`.
    unfoldable pub handle : Bytes → Bot F E → Ran F E
    unfolding gonculate bot_verb effector_cmd next_word
    handle s b =
        let (sys, rest) = next_word s in
        let (verb, tokens) = next_word rest in
        if same_bytes s (codes "tick")
        then gonculate b
        else if same_bytes sys (codes "bot")
        then bot_verb s verb tokens b
        else effector_cmd s b

    unfoldable pub wtf : Bytes → Ran F E → Ran F E
    unfolding send_to_bcp
    wtf s (done b) = done b
    wtf s (threw b) = send_to_bcp (codes "WTF? \"" ++ (s ++ codes "\"")) b

    -- One message; `threw` leaves the thread with an exception, which ends the program.
    unfoldable pub route : Bytes → Bot F E → Ran F E
    unfolding handle wtf
    route s b = wtf s (handle s b)
