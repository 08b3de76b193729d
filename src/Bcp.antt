-- ===== src/Bcp.antt =====
-- cpp/BCPs/target/target.cpp and cpp/BCPs/kamikaze/kamikaze.cpp: what the two bot control programs
-- share, the state of the bot as they read it and the thread that reads from the connection.
pub mod Lvar
pub mod Worker
pub mod Orders
pub mod Target
pub mod Kamikaze
mod Tests
use nrtb_redo.Common.{ℕ, Bool, true, false, List, [], ◌∷◌, ◌++◌, Option, none, some, if◌then◌else◌}
use nrtb_redo.Common.Bytes.{Bytes, codes}
use nrtb_redo.Common.Int
use nrtb_redo.Common.Int.{ℤ, pos}
use nrtb_redo.Common.Decimal.{read_int}
use nrtb_redo.Common.Outcome.{Outcome}
use nrtb_redo.Common.Stream.{skip_spaces, next_word}
use nrtb_redo.Floats.{Floats}
use nrtb_redo.Queue.{Queue, Attempt}
use nrtb_redo.Queue
use nrtb_redo.Socket
use nrtb_redo.Socket.{Call, timeout_exception}
use nrtb_redo.Text.Gsub.{TextError, gsub}
use nrtb_redo.Triad.{Triad, triad}
use nrtb_redo.Triad
use nrtb_redo.Triad.Text.{FloatText, read_triad}

-- `struct lvar`
pub record BotState (F : Type 0) : Type 0 where
  pub location : Triad F
  pub velocity : Triad F
  pub attitude : Triad F
  pub rotation : Triad F

module _ {F : Type 0} ⦃n : Floats F⦄ where
  open n use {nought, one, minus, eq}

  abbrev pub origin : Triad F
  origin = triad nought nought nought

  unfoldable pub new_state : BotState F
  new_state = record { location = origin; velocity = origin; attitude = origin; rotation = origin }

  module _ (t : FloatText F) where
    -- The two words in front are thrown away.
    unfoldable pub load : Bytes → BotState F → BotState F
    load text b =
        let s2 = (next_word (next_word text).1).1 in
        let (location, s3) = read_triad t b.location s2 in
        let (velocity, s4) = read_triad t b.velocity s3 in
        let (attitude, s5) = read_triad t b.attitude s4 in
        let (rotation, s6) = read_triad t b.rotation s5 in
        record {
          location = location;
          velocity = velocity;
          attitude = attitude;
          rotation = rotation;
        }

    -- What `get_my_state` makes of the answer.
    unfoldable pub my_state : Bytes → BotState F
    unfolding load new_state
    my_state text = load text new_state

    -- `contacts >> count`; at the end of the stream `count` keeps no value at all.
    abbrev pub count_from : Bytes → Option (ℤ × Option Bytes)
    count_from [] = none
    count_from (c ∷ s) = some (read_int (c ∷ s))

    abbrev pub left_of : Option Bytes → Bytes
    left_of none = []
    left_of (some s) = s

    unfoldable pub first_contact : Bytes → BotState F
    unfolding new_state
    first_contact s =
        let s4 = (next_word s).1 in
        let (location, s5) = read_triad t origin s4 in
        let (velocity, s6) = read_triad t origin s5 in
        record new_state { location = location; velocity = velocity }

    unfoldable pub no_contact : BotState F
    unfolding new_state
    no_contact = record new_state { location = record origin { x = minus nought one } }

    abbrev pub counted : Option (ℤ × Option Bytes) → Option (BotState F)
    counted none = none
    counted (some (count, rest)) =
        some (if Int.lt (pos 0) count then first_contact (left_of rest) else no_contact)

    -- What `get_target` makes of the answer; `none` where `count` is read without a value.
    unfoldable pub target_of : Bytes → Option (BotState F)
    target_of text = counted (count_from (skip_spaces (next_word (next_word text).1).1))

-- `async_com_handler`, without its socket.
pub record ComHandler : Type 0 where
  pub inbound : Queue Bytes
  pub active : Bool

-- One round of the thread: what it reads in `active`, and what `getln` comes to.
pub record Round : Type 0 where
  pub active : Bool
  pub line : Call Bytes

-- The thread is in its loop, or it has ended.
pub data Thread : Type 0 where
  looping ended : ComHandler → Thread

abbrev pub handler : Thread → ComHandler
handler (looping h) = h
handler (ended h) = h

abbrev pub done : ComHandler → Thread
done h = ended (record h { active = false })

abbrev pub pushed : ComHandler → Attempt (Queue Bytes) → (ComHandler → Thread) → Thread
pushed h (Queue.returns q) next = next (record h { inbound = q })
pushed h Queue.waits next = done h
pushed h Queue.queue_not_ready next = done h
pushed h Queue.undefined next = done h

abbrev pub stripped : Outcome TextError Bytes → ComHandler → (ComHandler → Thread) → Thread
stripped (Outcome.returns s) h next = pushed h (Queue.push s h.inbound) next
stripped (Outcome.throws e) h next = done h
stripped Outcome.undefined h next = done h

-- A timeout is caught inside the loop, every other exception behind it.
unfoldable pub take_line : Call Bytes → ComHandler → (ComHandler → Thread) → Thread
unfolding gsub
take_line (Socket.returns s) h next = stripped (gsub s (codes "\r") []) h next
take_line (Socket.throws timeout_exception s) h next = next h
take_line (Socket.throws e s) h next = done h
take_line (Socket.waits s) h next = looping h

unfoldable pub read_loop : List Round → ComHandler → Thread
unfolding take_line
read_loop [] h = looping h
read_loop (r ∷ rounds) h = elim r.active [
  | false ↦ done h
  | true ↦ take_line r.line h (read_loop rounds)
]

-- The thread, from the attempt to connect.
unfoldable pub worker : Bool → List Round → ComHandler → Thread
unfolding read_loop
worker connected rounds h =
    if connected then read_loop rounds (record h { active = true }) else done h

unfoldable pub get : ComHandler → Attempt (Bytes × Queue Bytes)
unfolding Queue.pop
get h = Queue.pop h.inbound

unfoldable pub put_text : Bytes → Bytes
put_text msg = msg ++ codes "\r"
