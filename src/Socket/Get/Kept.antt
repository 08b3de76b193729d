-- ===== src/Socket/Get/Kept.antt =====
-- What `get` makes of the bytes that come.
use nrtb_redo.Common.{
  ℕ, zero, suc, ◌-◌, ◌≤◌, ◌≡◌, refl, ap, ◌∙◌, Bool, true, false, List, [], ◌∷◌, ◌++◌, length, take,
  drop, arith, append_assoc, take-append-drop, Bool-cases, inl, inr, length-append,
}
use nrtb_redo.Common.Int.{ℤ}
use nrtb_redo.Common.Bytes.{Bytes}
use nrtb_redo.Socket.{
  sock_close, Errno, ebadf, enotsock, enotconn, enobufs, enomem, eintr, eagain, no_error, other,
  SocketError, general_exception, not_open_exception, throws, Conn, is_positive, tick, end_of,
}
use nrtb_redo.Socket.Get.{
  RecvAnswer, ready, recv_failed, Received, got, closed, failed, as_received, smaller, receive,
  Switched, fails, goes, stop_or_throw, recv_error, switch, Got, is_past, looked, get_end,
  at_bounds, get_round, get_switched, get_loop, get, text_of,
}

-- What `receive` hands out comes off the front of what the peer sends, and fits.
abbrev TakenOff : ℕ → Bytes → Received × Conn → Type 0
TakenOff limit all_bytes (got t, d) = (t ++ d.incoming ≡ all_bytes) × (length t ≤ limit)
TakenOff limit all_bytes (closed, d) = d.incoming ≡ all_bytes
TakenOff limit all_bytes (failed e, d) = d.incoming ≡ all_bytes

length-take_le : (n : ℕ) (s : Bytes) → length (take n s) ≤ n
length-take_le zero s = omega arith
length-take_le (suc n) [] = omega arith
length-take_le (suc n) (b ∷ s) = omega (arith, length-take_le n s)

smaller_le : (a b : ℕ) → smaller a b ≤ b
smaller_le a b = ground arith

as_received-TakenOff :
    (limit : ℕ) (t rest all_bytes : Bytes) (c : Conn)
    → t ++ rest ≡ all_bytes
    → length t ≤ limit
    → TakenOff limit all_bytes (as_received t, record c { incoming = rest })
as_received-TakenOff limit [] rest all_bytes c h k = h
as_received-TakenOff limit (b ∷ t) rest all_bytes c h k = (h, k)

receive-TakenOff :
    (limit : ℕ) (a : RecvAnswer) (c : Conn) → TakenOff limit c.incoming (receive limit a c)
unfolding receive
receive-TakenOff limit (recv_failed e) c = refl
receive-TakenOff limit (ready n) c =
    as_received-TakenOff limit (take (smaller n limit) c.incoming)
      (drop (smaller n limit) c.incoming) c.incoming c
      (take-append-drop (smaller n limit) c.incoming)
      (omega (arith, length-take_le (smaller n limit) c.incoming, smaller_le n limit))

-- The text in hand and what is still to come are all that came; the text is within the limit.
abbrev pub Kept : ℕ → Bytes → Bytes → Conn → Type 0
Kept maxlen all_bytes s c = (s ++ c.incoming ≡ all_bytes) × (length s ≤ maxlen)

abbrev KeptBy : ℕ → Bytes → Bytes → Switched → Type 0
KeptBy maxlen all_bytes s (fails e d) = Kept maxlen all_bytes s d
KeptBy maxlen all_bytes s (goes stop t d) = Kept maxlen all_bytes t d

stop_or_throw-KeptBy :
    (maxlen : ℕ) (all_bytes : Bytes) (e : SocketError) (s : Bytes) (c : Conn)
    → Kept maxlen all_bytes s c
    → KeptBy maxlen all_bytes s (stop_or_throw e s c)
stop_or_throw-KeptBy maxlen all_bytes e [] c h = h
stop_or_throw-KeptBy maxlen all_bytes e (b ∷ s) c h = h

recv_error-KeptBy :
    (maxlen : ℕ) (all_bytes : Bytes) (timeout : ℤ) (e : Errno) (s : Bytes) (c : Conn)
    → Kept maxlen all_bytes s c
    → KeptBy maxlen all_bytes s (recv_error timeout e s c)
unfolding recv_error
recv_error-KeptBy maxlen all_bytes timeout ebadf s c h =
    stop_or_throw-KeptBy maxlen all_bytes not_open_exception s
      (record c { last_error = ebadf; status = sock_close }) h
recv_error-KeptBy maxlen all_bytes timeout enotconn s c h =
    stop_or_throw-KeptBy maxlen all_bytes not_open_exception s
      (record c { last_error = enotconn; status = sock_close }) h
recv_error-KeptBy maxlen all_bytes timeout enotsock s c h =
    stop_or_throw-KeptBy maxlen all_bytes not_open_exception s
      (record c { last_error = enotsock; status = sock_close }) h
recv_error-KeptBy maxlen all_bytes timeout eagain s c h = h
recv_error-KeptBy maxlen all_bytes timeout eintr s c h = h
recv_error-KeptBy maxlen all_bytes timeout no_error s c h =
    stop_or_throw-KeptBy maxlen all_bytes general_exception s (record c { last_error = no_error }) h
recv_error-KeptBy maxlen all_bytes timeout enobufs s c h =
    stop_or_throw-KeptBy maxlen all_bytes general_exception s (record c { last_error = enobufs }) h
recv_error-KeptBy maxlen all_bytes timeout enomem s c h =
    stop_or_throw-KeptBy maxlen all_bytes general_exception s (record c { last_error = enomem }) h
recv_error-KeptBy maxlen all_bytes timeout (other n) s c h =
    stop_or_throw-KeptBy maxlen all_bytes general_exception s (record c { last_error = other n }) h

switch-KeptBy :
    (maxlen : ℕ) (all_bytes : Bytes) (timeout : ℤ) (r : Received × Conn) (s coming : Bytes)
    → TakenOff (maxlen - length s) coming r
    → s ++ coming ≡ all_bytes
    → length s ≤ maxlen
    → KeptBy maxlen all_bytes s (switch timeout r.0 s r.1)
unfolding switch
switch-KeptBy maxlen all_bytes timeout (got t, d) s coming (h, k) e l =
    (append_assoc s t d.incoming ∙ ap (◌++◌ s) h ∙ e, omega (arith, length-append s t))
switch-KeptBy maxlen all_bytes timeout (closed, d) s coming h e l =
    stop_or_throw-KeptBy maxlen all_bytes not_open_exception s d (ap (◌++◌ s) h ∙ e, l)
switch-KeptBy maxlen all_bytes timeout (failed x, d) s coming h e l =
    recv_error-KeptBy maxlen all_bytes timeout x s d (ap (◌++◌ s) h ∙ e, l)

abbrev pub KeptIn : ℕ → Bytes → Got → Type 0
KeptIn maxlen all_bytes (out, answers, d) = Kept maxlen all_bytes (text_of out) d

module _ (clock : ℕ → ℕ) (maxlen : ℕ) (timeout endtime : ℤ) (all_bytes : Bytes) where
  abbrev Continues : (Bytes → Conn → Got) → Type 0
  Continues next =
      (s : Bytes) (c : Conn) → Kept maxlen all_bytes s c → KeptIn maxlen all_bytes (next s c)

  looked-incoming : (c : Conn) → (looked clock maxlen timeout endtime c).incoming ≡ c.incoming
  looked-incoming c = elim (Bool-cases (is_positive timeout)) [ inl e ↦ rw e | inr e ↦ rw e ]

  looked-Kept :
      (s : Bytes) (c : Conn)
      → Kept maxlen all_bytes s c
      → Kept maxlen all_bytes s (looked clock maxlen timeout endtime c)
  looked-Kept s c (h, l) = (ap (◌++◌ s) (looked-incoming c) ∙ h, l)

  get_end-KeptIn :
      (answers : List RecvAnswer) (s : Bytes) (c : Conn)
      → Kept maxlen all_bytes s c
      → KeptIn maxlen all_bytes (get_end clock maxlen timeout endtime answers s c)
  unfolding get_end
  get_end-KeptIn answers s c h = elim (Bool-cases (is_past clock maxlen timeout endtime c)) [
    | inl e ↦ rw e (looked-Kept s c h)
    | inr e ↦ rw e (looked-Kept s c h)
  ]

  get_round-KeptIn :
      (stop : Bool) (answers : List RecvAnswer) (s : Bytes) (c : Conn) (next : Bytes → Conn → Got)
      → Continues next
      → Kept maxlen all_bytes s c
      → KeptIn maxlen all_bytes (get_round clock maxlen timeout endtime stop answers s c next)
  unfolding get_round
  get_round-KeptIn true answers s c next later h =
      get_end-KeptIn answers s (looked clock maxlen timeout endtime c) (looked-Kept s c h)
  get_round-KeptIn false answers s c next later h =
      later s (looked clock maxlen timeout endtime c) (looked-Kept s c h)

  get_switched-KeptIn :
      (w : Switched) (answers : List RecvAnswer) (s : Bytes) (next : Bytes → Conn → Got)
      → Continues next
      → KeptBy maxlen all_bytes s w
      → KeptIn maxlen all_bytes (get_switched clock maxlen timeout endtime w answers next s)
  unfolding get_switched
  get_switched-KeptIn (fails e d) answers s next later h = h
  get_switched-KeptIn (goes stop t d) answers s next later h =
      get_round-KeptIn (at_bounds clock maxlen timeout endtime stop t d) answers t d next later h

  get_loop-KeptIn :
      (answers : List RecvAnswer) → Continues (get_loop clock maxlen timeout endtime answers)
  unfolding get_loop
  get_loop-KeptIn [] s c h = h
  get_loop-KeptIn (a ∷ answers) s c (h, l) =
      let r : Received × Conn = receive (maxlen - length s) a c in
      get_switched-KeptIn (switch timeout r.0 s r.1) answers s
        (get_loop clock maxlen timeout endtime answers) (get_loop-KeptIn answers)
        (switch-KeptBy maxlen all_bytes timeout r s c.incoming
          (receive-TakenOff (maxlen - length s) a c) h l)

-- Whatever `recv` answers: the text that `get` returns, throws or waits with is what the peer sent
-- next, nothing lost and nothing twice, and is never longer than `maxlen`.
pub get_lem :
    (clock : ℕ → ℕ) (answers : List RecvAnswer) (maxlen : ℕ) (timeout : ℤ) (c : Conn)
    → KeptIn maxlen c.incoming (get clock answers maxlen timeout c)
unfolding get
get_lem clock answers maxlen timeout c =
    get_loop-KeptIn clock maxlen timeout (end_of clock timeout c) c.incoming answers [] (tick c)
      (refl, omega arith)

smaller_zero : (n : ℕ) → smaller n 0 ≡ 0
smaller_zero n = ground arith

receive_zero : (n : ℕ) (c : Conn) → receive 0 (ready n) c ≡ (closed, c)
unfolding receive
receive_zero n c = rw (smaller_zero n) refl

-- With no room `get` always throws, as if the peer had closed, whatever is there to be read.
pub get_zero :
    (clock : ℕ → ℕ) (n : ℕ) (answers : List RecvAnswer) (timeout : ℤ) (c : Conn)
    → (get clock (ready n ∷ answers) 0 timeout c).0 ≡ throws not_open_exception []
unfolding get get_loop switch get_switched
get_zero clock n answers timeout c =
    ap
      (λ r.
        (get_switched clock 0 timeout (end_of clock timeout c) (switch timeout r.0 [] r.1) answers
          (get_loop clock 0 timeout (end_of clock timeout c) answers) []).0)
      (receive_zero n (tick c))
