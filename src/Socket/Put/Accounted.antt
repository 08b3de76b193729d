-- ===== src/Socket/Put/Accounted.antt =====
-- What `put` makes of the bytes of its text.
use nrtb_redo.Common.{
  ℕ, zero, suc, ◌-◌, ◌≤◌, ◌≡◌, refl, sym, ap, ◌∙◌, Bool, true, false, not, ◌&&◌, ◌||◌, List, [],
  ◌∷◌, ◌++◌, length, take, drop, length-drop, ◌==◌, ==_iff, arith, append_assoc, take-append-drop,
  Bool-cases, inl, inr,
}
use nrtb_redo.Common.Int.{ℤ}
use nrtb_redo.Common.Bytes.{Bytes}
use nrtb_redo.Text.Gsub.{is_nil}
use nrtb_redo.Socket.{
  Errno, ebadf, enotsock, enotconn, enobufs, enomem, eintr, eagain, no_error, other, Call, returns,
  throws, waits, Conn, is_positive, tick, end_of,
}
use nrtb_redo.Socket.Put.{
  SendAnswer, took, send_failed, transmit, Verdict, again, fails, put_error, put_end, is_late,
  looked, put_round, put_failed, put_loop, put, unsent,
}

abbrev IsWhole : ℕ → Call ℕ → Type 0
IsWhole n (returns m) = m ≡ n
IsWhole n (throws e s) = Unit
IsWhole n (waits s) = Unit

-- Every byte of the text was handed over in its order or is still in hand, and a return is for all.
abbrev pub Accounted : ℕ → Bytes → Call ℕ × Conn → Type 0
Accounted n all_bytes (out, d) = (d.sent ++ unsent out ≡ all_bytes) × IsWhole n out

nil_of_length : (s : Bytes) → length s ≡ 0 → s ≡ []
nil_of_length [] h = refl
nil_of_length (c ∷ s) h = absurd (omega arith)

put_end-Accounted :
    (n : ℕ) (s all_bytes : Bytes) (c : Conn)
    → length s ≤ n
    → c.sent ++ s ≡ all_bytes
    → Accounted n all_bytes (put_end n s, c)
unfolding put_end
put_end-Accounted n s all_bytes c k h = elim (Bool-cases ((n - length s) == n)) [
  | inl e ↦ rw e (
    ap (◌++◌ c.sent) (sym (nil_of_length s (ground (arith, e)))) ∙ h,
    (==_iff (n - length s) n).0 e,
  )
  | inr e ↦ rw e (h, tt)
]

-- An exception is thrown with nothing more handed over.
abbrev SameSent : Conn → Verdict → Type 0
SameSent c (fails x d) = d.sent ≡ c.sent
SameSent c again = Unit

put_error-SameSent : (e : Errno) (c : Conn) → SameSent c (put_error e c)
unfolding put_error
put_error-SameSent ebadf c = refl
put_error-SameSent enotsock c = refl
put_error-SameSent enobufs c = refl
put_error-SameSent enomem c = refl
put_error-SameSent eintr c = tt
put_error-SameSent eagain c = tt
put_error-SameSent no_error c = refl
put_error-SameSent enotconn c = refl
put_error-SameSent (other n) c = refl

length-drop_le : (m : ℕ) (s : Bytes) → length (drop m s) ≤ length s
length-drop_le m s = omega (arith, length-drop m s)

transmit-sent : (m : ℕ) (s : Bytes) (c : Conn) → (transmit m s c).sent ++ drop m s ≡ c.sent ++ s
unfolding transmit
transmit-sent m s c =
    append_assoc c.sent (take m s) (drop m s) ∙ ap (◌++◌ c.sent) (take-append-drop m s)

module _ (clock : ℕ → ℕ) (timeout endtime : ℤ) (n : ℕ) (all_bytes : Bytes) where
  -- What the next attempt has to keep.
  abbrev Continues : (Bytes → Conn → Call ℕ × Conn) → Type 0
  Continues next =
      (s : Bytes) (c : Conn)
      → length s ≤ n
      → c.sent ++ s ≡ all_bytes
      → Accounted n all_bytes (next s c)

  looked-sent : (c : Conn) → (looked clock timeout endtime n c).sent ≡ c.sent
  looked-sent c = elim (Bool-cases (is_positive timeout)) [ inl e ↦ rw e | inr e ↦ rw e ]

  put_round-Accounted :
      (stop : Bool) (s : Bytes) (c : Conn) (next : Bytes → Conn → Call ℕ × Conn)
      → Continues next
      → length s ≤ n
      → c.sent ++ s ≡ all_bytes
      → Accounted n all_bytes (put_round clock timeout endtime n stop s c next)
  unfolding put_round
  put_round-Accounted true s c next later k h =
      put_end-Accounted n s all_bytes (looked clock timeout endtime n c) k
        (ap (λ xs. xs ++ s) (looked-sent c) ∙ h)
  put_round-Accounted false s c next later k h =
      later s (looked clock timeout endtime n c) k (ap (λ xs. xs ++ s) (looked-sent c) ∙ h)

  put_failed-Accounted :
      (v : Verdict) (s : Bytes) (c : Conn) (next : Bytes → Conn → Call ℕ × Conn)
      → SameSent c v
      → Continues next
      → length s ≤ n
      → c.sent ++ s ≡ all_bytes
      → Accounted n all_bytes (put_failed clock timeout endtime n v s c next)
  unfolding put_failed
  put_failed-Accounted (fails x d) s c next same later k h = (ap (λ xs. xs ++ s) same ∙ h, tt)
  put_failed-Accounted again s c next same later k h =
      put_round-Accounted (is_late clock timeout endtime n c) s c next later k h

  put_loop-Accounted :
      (answers : List SendAnswer) → Continues (put_loop clock timeout endtime n answers)
  unfolding put_loop
  put_loop-Accounted [] s c k h = (h, tt)
  put_loop-Accounted (took m ∷ answers) s c k h =
      put_round-Accounted
        ((not (m == 0) && is_nil (drop m s)) || is_late clock timeout endtime n (transmit m s c))
        (drop m s) (transmit m s c) (put_loop clock timeout endtime n answers)
        (put_loop-Accounted answers) (omega (arith, length-drop_le m s)) (transmit-sent m s c ∙ h)
  put_loop-Accounted (send_failed e ∷ answers) s c k h =
      put_failed-Accounted (put_error e c) s c (put_loop clock timeout endtime n answers)
        (put_error-SameSent e c) (put_loop-Accounted answers) k h

-- However the sends go, in pieces, with retries, errors or a timeout: the bytes handed over during
-- the call and those that it returns, throws or waits with, put together, are the text; and when
-- `put` returns, it returns the length of the text and everything was handed over.
pub put_lem :
    (clock : ℕ → ℕ) (answers : List SendAnswer) (s : Bytes) (timeout : ℤ) (c : Conn)
    → Accounted (length s) (c.sent ++ s) (put clock answers s timeout c)
unfolding put
put_lem clock answers s timeout c =
    put_loop-Accounted clock timeout (end_of clock timeout c) (length s) (c.sent ++ s) answers s
      (tick c) (omega arith) refl

-- `send` for no bytes takes none, each time.
abbrev pub nothing_taken : ℕ → List SendAnswer
nothing_taken zero = []
nothing_taken (suc n) = took 0 ∷ nothing_taken n

put_loop_nil :
    (clock : ℕ → ℕ) (timeout endtime : ℤ) (n : ℕ) (c : Conn)
    → is_positive timeout ≡ false
    → (put_loop clock timeout endtime 0 (nothing_taken n) [] c).0 ≡ waits []
unfolding put_loop
put_loop_nil clock timeout endtime zero c h = refl
put_loop_nil clock timeout endtime (suc n) c h =
    let d : Conn = transmit 0 [] c in
    let on_time : is_late clock timeout endtime 0 d ≡ false = unfold is_late in rw h refl in
    ap
      (λ b.
        (put_round clock timeout endtime 0 b [] d
          (put_loop clock timeout endtime 0 (nothing_taken n))).0)
      on_time
    ∙ unfold put_round in put_loop_nil clock timeout endtime n (looked clock timeout endtime 0 d) h

-- Without a timeout, `put` of the empty text does not return: it tries again after every `send`,
-- however often that takes nothing.
pub put_nil :
    (clock : ℕ → ℕ) (n : ℕ) (timeout : ℤ) (c : Conn)
    → is_positive timeout ≡ false
    → (put clock (nothing_taken n) [] timeout c).0 ≡ waits []
unfolding put
put_nil clock n timeout c h = put_loop_nil clock timeout (end_of clock timeout c) n (tick c) h
