-- ===== src/Bot/Received.antt =====
-- One round of the thread that reads from the socket: a line without its ends, for the router.
use nrtb_redo.Common.{
  ℕ, ◌≡◌, ◌≢◌, refl, ap, ◌∙◌, false, ◌||◌, [], ◌∷◌, ◌++◌, if◌then◌else◌, ◌==◌, append-nil,
  Bool-cases, inl, inr,
}
use nrtb_redo.Common.Bytes.{Bytes, codes}
use nrtb_redo.Common.Outcome.{Outcome, ◌>>=◌}
use nrtb_redo.Socket
use nrtb_redo.Socket.{Call}
use nrtb_redo.Text.Gsub.{TextError, gsub, gsub_byte, expand, expand-append, swap_byte}
use nrtb_redo.Bot.{Bot, Ran, done, threw, bot_cmd}

-- `gsub(gsub(s,"\n",""),"\r","")`
abbrev pub strip : Bytes → Outcome TextError Bytes
strip s = gsub s (codes "\n") [] >>= (λ t. gsub t (codes "\r") [])

module _ {F E : Type 0} where
  -- The `catch (...)` behind the loop.
  abbrev pub dead : Bot F E → Bot F E
  dead b = record b { im_alive = false }

  abbrev pub caught : Ran F E → Bot F E
  caught (done b) = b
  caught (threw b) = dead b

  -- `if (s.length() > 0) from_BCP.push(s);`
  unfoldable pub hand_on : Bytes → Bot F E → Bot F E
  unfolding bot_cmd
  hand_on [] b = b
  hand_on (c ∷ s) b = caught (bot_cmd (c ∷ s) b)

  unfoldable pub stripped_to : Outcome TextError Bytes → Bot F E → Bot F E
  unfolding hand_on
  stripped_to (Outcome.returns s) b = hand_on s b
  stripped_to (Outcome.throws e) b = dead b
  stripped_to Outcome.undefined b = dead b

  -- What `getln` came to.
  unfoldable pub receive : Call Bytes → Bot F E → Bot F E
  unfolding stripped_to gsub
  receive (Socket.returns s) b = stripped_to (strip s) b
  receive (Socket.throws e s) b = dead b
  receive (Socket.waits s) b = b

-- What is left of a line.
pub kept : Bytes → Bytes
kept [] = []
kept (c ∷ s) = if b'\n' == c || b'\r' == c then kept s else c ∷ kept s

gsub_nonempty :
    (s : Bytes) (b : ℕ) (putme : Bytes)
    → s ≢ []
    → gsub s (b ∷ []) putme ≡ Outcome.returns (expand (swap_byte b putme) s)
gsub_nonempty [] b putme h = absurd (h refl)
gsub_nonempty (c ∷ s) b putme h = gsub_byte c s b putme

without : ℕ → Bytes → Bytes
without b s = expand (swap_byte b []) s

without-kept : (s : Bytes) → without b'\r' (without b'\n' s) ≡ kept s
unfolding without kept
without-kept [] = refl
without-kept (c ∷ s) = elim (Bool-cases (b'\n' == c)) [
  | inl e ↦ rw e (without-kept s)
  | inr e ↦ rw e (elim (Bool-cases (b'\r' == c)) [
    | inl d ↦ rw d (without-kept s)
    | inr d ↦ rw d (ap (◌∷◌ c) (without-kept s))
  ])
]

append_nonempty : (s : Bytes) (c : ℕ) → s ++ (c ∷ []) ≢ []
append_nonempty [] c e = cc
append_nonempty (d ∷ s) c e = cc

strip_line : (pre : Bytes) → strip (pre ++ codes "\r") ≡ Outcome.returns (kept pre)
unfolding without
strip_line pre =
    ap (λ o. o >>= (λ t. gsub t (codes "\r") []))
      (gsub_nonempty (pre ++ codes "\r") b'\n' [] (append_nonempty pre b'\r'))
    ∙ ap (λ t. gsub t (codes "\r") []) (expand-append (swap_byte b'\n' []) pre (codes "\r"))
    ∙ gsub_nonempty (expand (swap_byte b'\n' []) pre ++ codes "\r") b'\r' []
        (append_nonempty (expand (swap_byte b'\n' []) pre) b'\r')
    ∙ ap Outcome.returns (
        expand-append (swap_byte b'\r' []) (expand (swap_byte b'\n' []) pre) (codes "\r")
        ∙ append-nil (without b'\r' (without b'\n' pre))
        ∙ without-kept pre)

-- A line that `getln` returns with its carriage return is handed on without its line ends, wherever
-- they stand, and an empty one is not; `gsub` never gets the empty text, for which it would throw.
pub receive_lem :
    {F E : Type 0} (pre : Bytes) (b : Bot F E)
    → receive (Socket.returns (pre ++ codes "\r")) b ≡ hand_on (kept pre) b
unfolding receive stripped_to
receive_lem pre b = ap (λ o. stripped_to o b) (strip_line pre)
