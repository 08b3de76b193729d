-- ===== src/Socket/Put.antt =====
-- `put`.
pub mod Accounted
use nrtb_redo.Common.{
  ℕ, zero, suc, ◌+◌, ◌-◌, ◌≤◌, ◌≡◌, ◌≢◌, refl, sym, ap, ◌∙◌, Bool, true, false, not, ◌&&◌, ◌||◌,
  List, [], ◌∷◌, ◌++◌, if◌then◌else◌, length, take, drop, length-drop, ◌==◌, ==_iff, ltb, leb,
  arith, append_assoc, append-nil, take-append-drop, Bool-cases, inl, inr,
}
use nrtb_redo.Common.Int
use nrtb_redo.Common.Int.{ℤ, pos}
use nrtb_redo.Common.Bytes.{Bytes}
use nrtb_redo.Text.Gsub.{is_nil}
use nrtb_redo.Socket.{
  Status, sock_close, Errno, ebadf, enotsock, enotconn, enobufs, enomem, eintr, eagain, no_error,
  other, SocketError, general_exception, not_open_exception, buffer_full_exception,
  timeout_exception, Call, returns, throws, waits, Conn, is_positive, tick, end_of,
}

-- An answer of `send`: it took that many bytes, or it failed.
pub data SendAnswer : Type 0 where
  took : ℕ → SendAnswer
  send_failed : Errno → SendAnswer

-- `transmit`; what is left of the text.
unfoldable pub transmit : ℕ → Bytes → Conn → Conn
transmit n s c = record c { sent = c.sent ++ take n s }

-- What the switch does about an error: an exception, or another attempt.
pub data Verdict : Type 0 where
  again : Verdict
  fails : SocketError → Conn → Verdict

unfoldable pub put_error : Errno → Conn → Verdict
put_error ebadf c = fails not_open_exception (record c { last_error = ebadf; status = sock_close })
put_error enotsock c =
    fails not_open_exception (record c { last_error = enotsock; status = sock_close })
put_error enobufs c = fails buffer_full_exception (record c { last_error = enobufs })
put_error enomem c = fails buffer_full_exception (record c { last_error = enomem })
put_error eintr c = again
put_error eagain c = again
put_error no_error c = fails general_exception (record c { last_error = no_error })
put_error enotconn c = fails general_exception (record c { last_error = enotconn })
put_error (other n) c = fails general_exception (record c { last_error = other n })

-- The number of bytes that went, or the timeout.
unfoldable pub put_end : ℕ → Bytes → Call ℕ
put_end orig_len s =
    if (orig_len - length s) == orig_len
    then returns (orig_len - length s)
    else throws timeout_exception s

module _ (clock : ℕ → ℕ) (timeout endtime : ℤ) (orig_len : ℕ) where
  -- The test for the timeout; the clock is read when there is one.
  unfoldable pub is_late : Conn → Bool
  is_late c = is_positive timeout && Int.le endtime (pos (clock c.ticks))

  abbrev pub looked : Conn → Conn
  looked c = if is_positive timeout then tick c else c

  -- The end of a round: `done`, or the next attempt.
  unfoldable pub put_round : Bool → Bytes → Conn → (Bytes → Conn → Call ℕ × Conn) → Call ℕ × Conn
  unfolding put_end
  put_round true s c next = (put_end orig_len s, looked c)
  put_round false s c next = next s (looked c)

  unfoldable pub put_failed :
      Verdict → Bytes → Conn → (Bytes → Conn → Call ℕ × Conn) → Call ℕ × Conn
  unfolding put_round is_late
  put_failed (fails x d) s c next = (throws x s, d)
  put_failed again s c next = put_round (is_late c) s c next

  unfoldable pub put_loop : List SendAnswer → Bytes → Conn → Call ℕ × Conn
  unfolding transmit put_error put_failed put_round is_late is_nil
  put_loop [] s c = (waits s, c)
  put_loop (took n ∷ answers) s c =
      let d : Conn = transmit n s c in
      put_round ((not (n == 0) && is_nil (drop n s)) || is_late d) (drop n s) d (put_loop answers)
  put_loop (send_failed e ∷ answers) s c = put_failed (put_error e c) s c (put_loop answers)

unfoldable pub put : (ℕ → ℕ) → List SendAnswer → Bytes → ℤ → Conn → Call ℕ × Conn
unfolding put_loop
put clock answers s timeout c =
    put_loop clock timeout (end_of clock timeout c) (length s) answers s (tick c)

-- What `put` still had in hand.
abbrev pub unsent : Call ℕ → Bytes
unsent (returns n) = []
unsent (throws e s) = s
unsent (waits s) = s
