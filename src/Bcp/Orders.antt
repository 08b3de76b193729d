-- ===== src/Bcp/Orders.antt =====
-- What the orders of a control program do to the autopilot of the bot that takes them.
use nrtb_redo.Common.{◌≡◌, refl, ◌∙◌, Bool, true, false, List, [], ◌∷◌, ◌++◌, if◌then◌else◌}
use nrtb_redo.Common.Bytes.{Bytes, codes, same_bytes}
use nrtb_redo.Common.Stream.{skip_spaces, read_word, next_word}
use nrtb_redo.Floats.{Floats}
use nrtb_redo.Queue.{Queue, Attempt, returns, waits, queue_not_ready, undefined}
use nrtb_redo.Queue
use nrtb_redo.Object.{EffectorClass}
use nrtb_redo.Object
use nrtb_redo.Bot.{
  Bot, Ran, done, threw, Printing, sent_to, send_to_bcp, answer, effector_cmd, wtf_autopilot,
  autopilot_verb, autopilot, bot_verb, handle, wtf, route,
}

-- Whether it is on, and the speed and the heading that it keeps.
abbrev pub Autopilot : Type 0 → Type 0
Autopilot F = Bool × F × F

module _ {F E : Type 0} where
  abbrev pub bot_of : Ran F E → Bot F E
  bot_of (done b) = b
  bot_of (threw b) = b

  abbrev pub autopilot_of : Bot F E → Autopilot F
  autopilot_of b = (b.auto_on, b.set_speed, b.set_heading)

  sent_to-autopilot :
      (b : Bot F E) (a : Attempt (Queue Bytes))
      → autopilot_of (bot_of (sent_to b a)) ≡ autopilot_of b
  sent_to-autopilot b (returns q) = refl
  sent_to-autopilot b waits = refl
  sent_to-autopilot b queue_not_ready = refl
  sent_to-autopilot b undefined = refl

  send_to_bcp-autopilot :
      (msg : Bytes) (b : Bot F E) → autopilot_of (bot_of (send_to_bcp msg b)) ≡ autopilot_of b
  unfolding send_to_bcp
  send_to_bcp-autopilot msg b = sent_to-autopilot b (Queue.push msg b.to_bcp)

  either_bot :
      (t : Bool) (x y : Ran F E) {a : Autopilot F}
      → autopilot_of (bot_of x) ≡ a
      → autopilot_of (bot_of y) ≡ a
      → autopilot_of (bot_of (if t then x else y)) ≡ a
  either_bot true x y h k = h
  either_bot false x y h k = k

  module _ ⦃n : Floats F⦄ (p : Printing F) (c : EffectorClass F E) where
    answer-autopilot :
        (msg : Bytes) (b : Bot F E) → autopilot_of (bot_of (answer p msg b)) ≡ autopilot_of b
    unfolding answer
    answer-autopilot [] b = refl
    answer-autopilot (x ∷ msg) b = send_to_bcp-autopilot (x ∷ msg) b

    wtf-autopilot :
        (s : Bytes) (r : Ran F E) → autopilot_of (bot_of (wtf p c s r)) ≡ autopilot_of (bot_of r)
    unfolding wtf
    wtf-autopilot s (done b) = refl
    wtf-autopilot s (threw b) = send_to_bcp-autopilot (codes "WTF? \"" ++ (s ++ codes "\"")) b

    effector_cmd-autopilot :
        (s : Bytes) (b : Bot F E) → autopilot_of (bot_of (effector_cmd p c s b)) ≡ autopilot_of b
    unfolding effector_cmd
    effector_cmd-autopilot s b =
        let (found, returnme, o) = Object.command c s [] b.object in
        let d = record b { object = o } in
        either_bot found (answer p returnme d)
          (send_to_bcp (codes "bad_sys \"" ++ (s ++ codes "\"")) d) (answer-autopilot returnme d)
          (send_to_bcp-autopilot (codes "bad_sys \"" ++ (s ++ codes "\"")) d)

    -- The router takes the messages one after the other.
    abbrev pub obeyed : List Bytes → Bot F E → Bot F E
    obeyed [] b = b
    obeyed (msg ∷ msgs) b = obeyed msgs (bot_of (route p c msg b))

    pub obeyed-append :
        (xs ys : List Bytes) (b : Bot F E) → obeyed (xs ++ ys) b ≡ obeyed ys (obeyed xs b)
    obeyed-append [] ys b = refl
    obeyed-append (x ∷ xs) ys b = obeyed-append xs ys (bot_of (route p c x b))

    -- A command of the drive leaves the autopilot alone.
    pub drive-autopilot :
        (s : Bytes) (b : Bot F E)
        → autopilot_of (bot_of (route p c (codes "drive " ++ s) b)) ≡ autopilot_of b
    unfolding route handle next_word skip_spaces read_word same_bytes
    drive-autopilot s b =
        wtf-autopilot (codes "drive " ++ s) (effector_cmd p c (codes "drive " ++ s) b)
        ∙ effector_cmd-autopilot (codes "drive " ++ s) b

    module _ (b : Bot F E) where
      pub on-autopilot :
          autopilot_of (bot_of (route p c (codes "bot autopilot on") b))
          ≡ (true, b.set_speed, b.set_heading)
      unfolding route handle next_word skip_spaces read_word same_bytes bot_verb autopilot
          autopilot_verb wtf_autopilot wtf
      on-autopilot = refl

      pub off-autopilot :
          autopilot_of (bot_of (route p c (codes "bot autopilot off") b))
          ≡ (false, b.set_speed, b.set_heading)
      unfolding route handle next_word skip_spaces read_word same_bytes bot_verb autopilot
          autopilot_verb wtf_autopilot wtf
      off-autopilot = refl

      pub power-autopilot :
          (s : Bytes)
          → autopilot_of (bot_of (route p c (codes "bot autopilot power " ++ s) b)) ≡ autopilot_of b
      unfolding route handle next_word skip_spaces read_word same_bytes bot_verb autopilot
          autopilot_verb wtf_autopilot wtf
      power-autopilot s = refl

      pub turn_rate-autopilot :
          (s : Bytes)
          → autopilot_of (bot_of (route p c (codes "bot autopilot turn_rate " ++ s) b))
            ≡ autopilot_of b
      unfolding route handle next_word skip_spaces read_word same_bytes bot_verb autopilot
          autopilot_verb wtf_autopilot wtf
      turn_rate-autopilot s = refl

      pub speed-autopilot :
          (s : Bytes)
          → autopilot_of (bot_of (route p c (codes "bot autopilot speed " ++ s) b))
            ≡ (b.auto_on, p.read_into (codes " " ++ s) b.set_speed, b.set_heading)
      unfolding route handle next_word skip_spaces read_word same_bytes bot_verb autopilot
          autopilot_verb wtf_autopilot wtf
      speed-autopilot s = refl

      -- Twice pi, as `autopilot` writes it.
      abbrev pub full_turn : F
      full_turn = n.times (n.decimal 314159 5) n.two

      pub heading-autopilot :
          (s : Bytes)
          → autopilot_of (bot_of (route p c (codes "bot autopilot heading " ++ s) b)) ≡ (
            b.auto_on,
            b.set_speed,
            n.fmod (p.read_into (codes " " ++ s) b.set_heading) full_turn,
          )
      unfolding route handle next_word skip_spaces read_word same_bytes bot_verb autopilot
          autopilot_verb wtf_autopilot wtf
      heading-autopilot s = refl
