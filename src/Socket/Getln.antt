-- ===== src/Socket/Getln.antt =====
-- `getln`. A timeout of one of its reads is caught, and what that read had received is lost.
pub mod Line
pub mod Loop
pub mod Whole
use nrtb_redo.Common.{
  ℕ, zero, suc, ◌+◌, ◌-◌, Bool, true, false, not, ◌&&◌, ◌||◌, List, [], ◌∷◌, ◌++◌, Option, none,
  some, if◌then◌else◌, length, drop, ltb, leb,
}
use nrtb_redo.Common.Int
use nrtb_redo.Common.Int.{ℤ, pos}
use nrtb_redo.Common.Bytes.{Bytes, find_byte, find_text}
use nrtb_redo.Socket.{
  SocketError, timeout_exception, overrun_exception, bad_args_exception, Call, returns, throws,
  waits, Conn, is_positive, tick, end_of,
}
use nrtb_redo.Socket.Get.{RecvAnswer, Got, get}

abbrev pub is_found : Option ℕ → Bool
is_found none = false
is_found (some i) = true

-- Whether the text ends with the token.
unfoldable pub succeeds : Bytes → Bytes → Bool
unfolding find_text
succeeds eol s =
    leb (length eol) (length s) && is_found (find_text eol (drop (length s - length eol) s))

-- `returnme.find(eol[0], returnme.length() - searchlen)`; the position wraps round when it is negative.
abbrev token_near : Bytes → ℕ → Bytes → Bool
token_near [] searchlen s = false
token_near (e ∷ eol) searchlen s =
    leb searchlen (length s) && is_found (find_byte e (drop (length s - searchlen) s))

unfoldable pub getlen_of : Bytes → Bytes → ℕ
getlen_of eol s =
    let searchlen : ℕ = length eol - 1 in
    if ltb 1 searchlen && not (token_near eol searchlen s) then searchlen else 1

abbrev pub nonnegative : ℤ → ℤ
nonnegative t = if is_positive t then t else pos 0

module _ (clock : ℕ → ℕ) (eol : Bytes) (maxlen : ℕ) (timeout endtime : ℤ) where
  abbrev pub is_full : Bytes → Bool
  is_full s = ltb 0 maxlen && leb maxlen (length s)

  unfoldable pub getln_fails : Bytes → Call Bytes
  getln_fails s = if is_full s then throws overrun_exception s else throws timeout_exception s

  -- The end of a round of the loop.
  unfoldable pub getln_round :
      Bool → Bytes → List RecvAnswer → Conn → (List RecvAnswer → Bytes → Conn → Got) → Got
  unfolding succeeds getln_fails
  getln_round stop s answers c next = elim (succeeds eol s) [
    | true ↦ (returns s, answers, c)
    | false ↦ elim (stop || is_full s) [
      | true ↦ (getln_fails s, answers, c)
      | false ↦ next answers s c
    ]
  ]

  abbrev pub timeout_stops : Bool
  timeout_stops = not (Int.lt timeout (pos 0))

  unfoldable pub getln_chunk : Got → Bytes → (List RecvAnswer → Bytes → Conn → Got) → Got
  unfolding getln_round
  getln_chunk (returns t, answers, c) s next = getln_round false (s ++ t) answers c next
  getln_chunk (throws timeout_exception t, answers, c) s next =
      getln_round timeout_stops s answers c next
  getln_chunk (throws e t, answers, c) s next = (throws e t, answers, c)
  getln_chunk (waits t, answers, c) s next = (waits (s ++ t), answers, c)

  -- The fuel bounds the number of reads; each takes an answer.
  unfoldable pub getln_loop : ℕ → List RecvAnswer → Bytes → Conn → Got
  unfolding getlen_of get getln_chunk
  getln_loop zero answers s c = (waits s, answers, c)
  getln_loop (suc fuel) answers s c =
      let timeleft : ℤ = nonnegative (Int.minus endtime (pos (clock c.ticks))) in
      getln_chunk (get clock answers (getlen_of eol s) timeleft (tick c)) s (getln_loop fuel)

  -- The first read is for as many bytes as the token has.
  unfoldable pub getln_first : Got → (List RecvAnswer → Bytes → Conn → Got) → Got
  unfolding succeeds getln_fails
  getln_first (returns s, answers, c) next = elim (succeeds eol s) [
    | true ↦ (returns s, answers, c)
    | false ↦ next answers s c
  ]
  getln_first (throws timeout_exception s, answers, c) next = elim timeout_stops [
    | true ↦ (getln_fails s, answers, c)
    | false ↦ elim (succeeds eol s) [ true ↦ (returns s, answers, c) | false ↦ next answers s c ]
  ]
  getln_first (throws e s, answers, c) next = (throws e s, answers, c)
  getln_first (waits s, answers, c) next = (waits s, answers, c)

unfoldable pub getln : (ℕ → ℕ) → List RecvAnswer → Bytes → ℕ → ℤ → Conn → Got
unfolding getln_first getln_loop
getln clock answers [] maxlen timeout c = (throws bad_args_exception [], answers, c)
getln clock answers (e ∷ eol) maxlen timeout c =
    let endtime : ℤ = end_of clock timeout c in
    getln_first clock (e ∷ eol) maxlen timeout endtime
      (get clock answers (length (e ∷ eol)) (nonnegative timeout) (tick c))
      (getln_loop clock (e ∷ eol) maxlen timeout endtime (length answers + 1))
