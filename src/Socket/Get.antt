-- ===== src/Socket/Get.antt =====
-- `get`. An answer of `recv` for n bytes is cut down to the room that the call leaves; no bytes at
-- all, also for want of room, is what a closed connection looks like. The reading of the clock that only
-- sets the time limit of the descriptor is left out.
pub mod Kept
use nrtb_redo.Common.{
  ℕ, zero, suc, ◌+◌, ◌-◌, ◌≤◌, ◌≡◌, ◌≢◌, refl, sym, ap, ◌∙◌, Bool, true, false, not, ◌&&◌, ◌||◌,
  List, [], ◌∷◌, ◌++◌, if◌then◌else◌, length, take, drop, ◌==◌, ==_iff, ltb, leb, arith,
  append_assoc, append-nil, take-append-drop, Bool-cases, inl, inr, length-append,
}
use nrtb_redo.Common.Int
use nrtb_redo.Common.Int.{ℤ, pos}
use nrtb_redo.Common.Bytes.{Bytes}
use nrtb_redo.Text.Gsub.{is_nil}
use nrtb_redo.Socket.{
  Status, sock_close, Errno, ebadf, enotsock, enotconn, enobufs, enomem, eintr, eagain, no_error,
  other, SocketError, general_exception, not_open_exception, timeout_exception, Call, returns,
  throws, waits, Conn, is_positive, is_zero, tick, end_of,
}

pub data RecvAnswer : Type 0 where
  ready : ℕ → RecvAnswer
  recv_failed : Errno → RecvAnswer

-- `receive`: the text, or nothing.
pub data Received : Type 0 where
  got : Bytes → Received
  closed : Received
  failed : Errno → Received

abbrev pub as_received : Bytes → Received
as_received [] = closed
as_received (b ∷ s) = got (b ∷ s)

abbrev pub smaller : ℕ → ℕ → ℕ
smaller a b = if leb a b then a else b

unfoldable pub receive : ℕ → RecvAnswer → Conn → Received × Conn
receive limit (recv_failed e) c = (failed e, c)
receive limit (ready n) c = (
  as_received (take (smaller n limit) c.incoming),
  record c { incoming = drop (smaller n limit) c.incoming },
)

-- After the switch: an exception, or the text so far and whether the loop is done.
pub data Switched : Type 0 where
  fails : SocketError → Conn → Switched
  goes : Bool → Bytes → Conn → Switched

-- An error with text in hand ends the loop; without, it is thrown.
abbrev pub stop_or_throw : SocketError → Bytes → Conn → Switched
stop_or_throw e [] c = fails e c
stop_or_throw e (b ∷ s) c = goes true (b ∷ s) c

unfoldable pub recv_error : ℤ → Errno → Bytes → Conn → Switched
recv_error timeout ebadf s c =
    stop_or_throw not_open_exception s (record c { last_error = ebadf; status = sock_close })
recv_error timeout enotconn s c =
    stop_or_throw not_open_exception s (record c { last_error = enotconn; status = sock_close })
recv_error timeout enotsock s c =
    stop_or_throw not_open_exception s (record c { last_error = enotsock; status = sock_close })
recv_error timeout eagain s c = goes (is_zero timeout) s c
recv_error timeout eintr s c = goes (is_zero timeout) s c
recv_error timeout no_error s c =
    stop_or_throw general_exception s (record c { last_error = no_error })
recv_error timeout enobufs s c =
    stop_or_throw general_exception s (record c { last_error = enobufs })
recv_error timeout enomem s c = stop_or_throw general_exception s (record c { last_error = enomem })
recv_error timeout (other n) s c =
    stop_or_throw general_exception s (record c { last_error = other n })

unfoldable pub switch : ℤ → Received → Bytes → Conn → Switched
unfolding recv_error
switch timeout closed s c = stop_or_throw not_open_exception s c
switch timeout (failed e) s c = recv_error timeout e s c
switch timeout (got t) s c = goes false (s ++ t) c

-- What a call gives, the answers that are left, and the socket.
abbrev pub Got : Type 0
Got = Call Bytes × List RecvAnswer × Conn

module _ (clock : ℕ → ℕ) (maxlen : ℕ) (timeout endtime : ℤ) where
  unfoldable pub is_past : Conn → Bool
  is_past c = is_positive timeout && Int.lt endtime (pos (clock c.ticks))

  abbrev pub looked : Conn → Conn
  looked c = if is_positive timeout then tick c else c

  -- After the loop the clock is read once more.
  unfoldable pub get_end : List RecvAnswer → Bytes → Conn → Got
  unfolding is_past
  get_end answers s c =
      (if is_past c then throws timeout_exception s else returns s, answers, looked c)

  unfoldable pub at_bounds : Bool → Bytes → Conn → Bool
  unfolding is_past
  at_bounds stop s c =
      stop || (ltb 0 maxlen && leb maxlen (length s)) || is_past c || is_zero timeout

  unfoldable pub get_round : Bool → List RecvAnswer → Bytes → Conn → (Bytes → Conn → Got) → Got
  unfolding get_end
  get_round true answers s c next = get_end answers s (looked c)
  get_round false answers s c next = next s (looked c)

  unfoldable pub get_switched : Switched → List RecvAnswer → (Bytes → Conn → Got) → Bytes → Got
  unfolding get_round at_bounds
  get_switched (fails e c) answers next s = (throws e s, answers, c)
  get_switched (goes stop t c) answers next s = get_round (at_bounds stop t c) answers t c next

  unfoldable pub get_loop : List RecvAnswer → Bytes → Conn → Got
  unfolding receive switch get_switched
  get_loop [] s c = (waits s, [], c)
  get_loop (a ∷ answers) s c =
      let r : Received × Conn = receive (maxlen - length s) a c in
      get_switched (switch timeout r.0 s r.1) answers (get_loop answers) s

unfoldable pub get : (ℕ → ℕ) → List RecvAnswer → ℕ → ℤ → Conn → Got
unfolding get_loop
get clock answers maxlen timeout c =
    get_loop clock maxlen timeout (end_of clock timeout c) answers [] (tick c)

-- The text of an outcome.
abbrev pub text_of : Call Bytes → Bytes
text_of (returns s) = s
text_of (throws e s) = s
text_of (waits s) = s
