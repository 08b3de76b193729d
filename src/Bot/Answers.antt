-- ===== src/Bot/Answers.antt =====
-- The answers to the messages that the router takes from the queue.
use nrtb_redo.Common.{
  ◌≤◌, ◌≡◌, refl, sym, ap, ◌∙◌, Bool, true, false, List, [], ◌∷◌, ◌++◌, if◌then◌else◌, length,
  arith, append-nil,
}
use nrtb_redo.Common.Bytes.{Bytes, codes, same_bytes}
use nrtb_redo.Common.Stream.{next_word, skip_spaces, read_word}
use nrtb_redo.Floats.{Floats}
use nrtb_redo.Queue.{Queue, Attempt, returns}
use nrtb_redo.Queue
use nrtb_redo.Object.{EffectorClass}
use nrtb_redo.Object
use nrtb_redo.Bot.{
  Bot, Ran, done, threw, Printing, came_from, and_then, send_to_bcp, bot_cmd, health, lvar,
  power_cmd, turn_cmd, gonculate, wtf_autopilot, autopilot_verb, autopilot_status, autopilot,
  bot_verb, answer, effector_cmd, handle, wtf, route,
}

-- Up to one message was added for the control program, by a call that returns.
abbrev pub Answered : Queue Bytes → Queue Bytes → Type 0
Answered q r =
    (ms : List Bytes) × (r.buffer ≡ q.buffer ++ ms) × (length ms ≤ 1) × (r.ready ≡ q.ready)

Answered-refl : (q r : Queue Bytes) → r ≡ q → Answered q r
Answered-refl q r e =
    ([], ap (λ x. x.buffer) e ∙ sym (append-nil q.buffer), omega arith, ap (λ x. x.ready) e)

push_ready :
    (msg : Bytes) (q : Queue Bytes)
    → q.ready ≡ true
    → Queue.push msg q ≡ returns (Queue.store msg (Queue.count_in q))
unfolding Queue.push
push_ready msg q h = rw h

stored :
    (msg : Bytes) (r : Queue Bytes) {q : Queue Bytes}
    → r ≡ q
    → Answered q (Queue.store msg (Queue.count_in r))
unfolding Queue.store Queue.count_in
stored msg r e = (msg ∷ [], ap (λ x. x.buffer ++ (msg ∷ [])) e, omega arith, ap (λ x. x.ready) e)

module _ {F E : Type 0} where
  -- A call that throws has added none.
  abbrev Handled : Queue Bytes → Ran F E → Type 0
  Handled q (done b) = Answered q b.to_bcp
  Handled q (threw b) = b.to_bcp ≡ q

  send_to_bcp-Handled :
      (msg : Bytes) (b : Bot F E) (q : Queue Bytes)
      → q.ready ≡ true
      → b.to_bcp ≡ q
      → Handled q (send_to_bcp msg b)
  unfolding send_to_bcp
  send_to_bcp-Handled msg b q h e =
      rw (push_ready msg b.to_bcp (ap (λ x. x.ready) e ∙ h)) (stored msg b.to_bcp e)

  came_from-Handled :
      (b : Bot F E) (q : Queue Bytes) (a : Attempt (Queue Bytes))
      → b.to_bcp ≡ q
      → Handled q (came_from b a)
  came_from-Handled b q (returns r) e = Answered-refl q b.to_bcp e
  came_from-Handled b q Attempt.waits e = e
  came_from-Handled b q Attempt.queue_not_ready e = e
  came_from-Handled b q Attempt.undefined e = e

  sent :
      (msg : Bytes) (b : Bot F E)
      → b.to_bcp.ready ≡ true
      → send_to_bcp msg b ≡ done (record b { to_bcp = Queue.store msg (Queue.count_in b.to_bcp) })
  unfolding send_to_bcp
  sent msg b h = rw (push_ready msg b.to_bcp h) refl

  -- A test picks one of two calls.
  either_call :
      (c : Bool) (q : Queue Bytes) (x y : Ran F E)
      → Handled q x
      → Handled q y
      → Handled q (if c then x else y)
  either_call true q x y h k = h
  either_call false q x y h k = k

  -- The queue to the control program is not touched.
  abbrev SameTo : Queue Bytes → Ran F E → Type 0
  SameTo q (done b) = b.to_bcp ≡ q
  SameTo q (threw b) = b.to_bcp ≡ q

  came_from-SameTo :
      (b : Bot F E) (q : Queue Bytes) (a : Attempt (Queue Bytes))
      → b.to_bcp ≡ q
      → SameTo q (came_from b a)
  came_from-SameTo b q (returns r) e = e
  came_from-SameTo b q Attempt.waits e = e
  came_from-SameTo b q Attempt.queue_not_ready e = e
  came_from-SameTo b q Attempt.undefined e = e

  bot_cmd-SameTo :
      (cmd : Bytes) (b : Bot F E) (q : Queue Bytes) → b.to_bcp ≡ q → SameTo q (bot_cmd cmd b)
  unfolding bot_cmd
  bot_cmd-SameTo cmd b q e = came_from-SameTo b q (Queue.push cmd b.from_bcp) e

  bot_cmd-Handled :
      (cmd : Bytes) (b : Bot F E) (q : Queue Bytes) → b.to_bcp ≡ q → Handled q (bot_cmd cmd b)
  unfolding bot_cmd
  bot_cmd-Handled cmd b q e = came_from-Handled b q (Queue.push cmd b.from_bcp) e

  -- A second command for the bot itself.
  then-bot_cmd :
      (q : Queue Bytes) (x : Ran F E) (f : Bot F E → Bytes)
      → SameTo q x
      → Handled q (and_then x (λ c. bot_cmd (f c) c))
  then-bot_cmd q (done b) f h = bot_cmd-Handled (f b) b q h
  then-bot_cmd q (threw b) f h = h

  module _ ⦃n : Floats F⦄ (p : Printing F) (q : Queue Bytes) (open_queue : q.ready ≡ true) where
    gonculate-Handled : (b : Bot F E) → b.to_bcp ≡ q → Handled q (gonculate p b)
    unfolding gonculate
    gonculate-Handled b e =
        either_call b.auto_on q
          (and_then (bot_cmd (power_cmd p b) b) (λ c. bot_cmd (turn_cmd p c) c)) (done b)
          (then-bot_cmd q (bot_cmd (power_cmd p b) b) (turn_cmd p)
            (bot_cmd-SameTo (power_cmd p b) b q e))
          (Answered-refl q b.to_bcp e)

    send : (msg : Bytes) (b : Bot F E) → b.to_bcp ≡ q → Handled q (send_to_bcp msg b)
    send msg b e = send_to_bcp-Handled msg b q open_queue e

    autopilot_verb-Handled :
        (verb s : Bytes) (b : Bot F E) → b.to_bcp ≡ q → Handled q (autopilot_verb p verb s b)
    unfolding autopilot_verb
    autopilot_verb-Handled verb s b e =
        let same = Answered-refl q b.to_bcp e in
        either_call (same_bytes verb (codes "on")) q _ _ same (
          either_call (same_bytes verb (codes "off")) q _ _ same (
            either_call (same_bytes verb (codes "power")) q _ _ same (
              either_call (same_bytes verb (codes "speed")) q _ _ same (
                either_call (same_bytes verb (codes "turn_rate")) q _ _ same (
                  either_call (same_bytes verb (codes "heading")) q _ _ same (
                    either_call (same_bytes verb (codes "status")) q _ _
                      (send (autopilot_status p b) b e)
                      (send (codes "bot autopilot bad_cmd") b e)))))))

    wtf_autopilot-Handled : (x : Ran F E) → Handled q x → Handled q (wtf_autopilot p x)
    unfolding wtf_autopilot
    wtf_autopilot-Handled (done b) h = h
    wtf_autopilot-Handled (threw b) h = send (codes "bot autopilot WTF?") b h

    autopilot-Handled :
        (tokens : Bytes) (b : Bot F E) → b.to_bcp ≡ q → Handled q (autopilot p tokens b)
    unfolding autopilot
    autopilot-Handled tokens b e =
        let w = next_word tokens in
        wtf_autopilot-Handled (autopilot_verb p w.0 w.1 b) (autopilot_verb-Handled w.0 w.1 b e)

    bot_verb-Handled :
        (s verb tokens : Bytes) (b : Bot F E)
        → b.to_bcp ≡ q
        → Handled q (bot_verb p s verb tokens b)
    unfolding bot_verb lvar health
    bot_verb-Handled s verb tokens b e =
        either_call (same_bytes verb (codes "lvar")) q _ _ (send _ b e) (
          either_call (same_bytes verb (codes "health")) q _ _ (send _ b e) (
            either_call (same_bytes verb (codes "ping")) q _ _ (send _ b e) (
              either_call (same_bytes verb (codes "autopilot")) q _ _ (autopilot-Handled tokens b e)
                (send _ b e))))

    answer-Handled :
        (response : Bytes) (b : Bot F E) → b.to_bcp ≡ q → Handled q (answer p response b)
    unfolding answer
    answer-Handled [] b e = Answered-refl q b.to_bcp e
    answer-Handled (c ∷ response) b e = send (c ∷ response) b e

    module _ (c : EffectorClass F E) where
      effector_cmd-Handled :
          (s : Bytes) (b : Bot F E) → b.to_bcp ≡ q → Handled q (effector_cmd p c s b)
      unfolding effector_cmd
      effector_cmd-Handled s b e =
          let r = Object.command c s [] b.object in
          let d = record b { object = r.2 } in
          either_call r.0 q (answer p r.1 d)
            (send_to_bcp (codes "bad_sys \"" ++ (s ++ codes "\"")) d) (answer-Handled r.1 d e)
            (send (codes "bad_sys \"" ++ (s ++ codes "\"")) d e)

      handle-Handled : (s : Bytes) (b : Bot F E) → b.to_bcp ≡ q → Handled q (handle p c s b)
      unfolding handle
      handle-Handled s b e =
          let w = next_word s in
          let v = next_word w.1 in
          either_call (same_bytes s (codes "tick")) q (gonculate p b) _ (gonculate-Handled b e) (
            either_call (same_bytes w.0 (codes "bot")) q (bot_verb p s v.0 v.1 b)
              (effector_cmd p c s b) (bot_verb-Handled s v.0 v.1 b e) (effector_cmd-Handled s b e))

      wtf-done :
          (s : Bytes) (x : Ran F E)
          → Handled q x
          → (d : Bot F E) × (wtf p c s x ≡ done d) × Answered q d.to_bcp
      unfolding wtf
      wtf-done s (done b) h = (b, refl, h)
      wtf-done s (threw b) h =
          let msg = codes "WTF? \"" ++ (s ++ codes "\"") in
          let q' = Queue.store msg (Queue.count_in b.to_bcp) in
          (
            record b { to_bcp = q' },
            sent msg b (ap (λ x. x.ready) h ∙ open_queue),
            stored msg b.to_bcp h,
          )

      -- While the queue to the control program is open, the router goes on after every message,
      -- whatever it says and whatever the effectors do about it, and has answered it at most once.
      pub route_lem :
          (s : Bytes) (b : Bot F E)
          → b.to_bcp ≡ q
          → (d : Bot F E) × (route p c s b ≡ done d) × Answered q d.to_bcp
      unfolding route
      route_lem s b e = wtf-done s (handle p c s b) (handle-Handled s b e)

send_shut :
    {F E : Type 0} (msg : Bytes) (b : Bot F E)
    → b.to_bcp.ready ≡ false
    → send_to_bcp msg b ≡ threw b
unfolding send_to_bcp Queue.push
send_shut msg b h = rw h

-- Once that queue is shut, a ping ends the thread by an exception which nothing catches: the message
-- about the error goes to the same queue as the answer.
pub route_shut :
    {F E : Type 0} ⦃n : Floats F⦄ (p : Printing F) (c : EffectorClass F E) (b : Bot F E)
    → b.to_bcp.ready ≡ false
    → route p c (codes "bot ping") b ≡ threw b
unfolding route handle wtf bot_verb next_word skip_spaces read_word same_bytes
route_shut p c b h =
    ap (wtf p c (codes "bot ping")) (send_shut (codes "READY") b h)
    ∙ send_shut (codes "WTF? \"bot ping\"") b h
