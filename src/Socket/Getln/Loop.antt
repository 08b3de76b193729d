-- ===== src/Socket/Getln/Loop.antt =====
-- The loop of `getln` for a token of one byte, up to the token or the end of the stream.
use nrtb_redo.Common.{
  ℕ, zero, suc, ◌<◌, ◌≤◌, ◌≡◌, ◌≢◌, refl, sym, ap, ◌∙◌, false, List, [], ◌∷◌, ◌++◌, length, ◌==◌,
  ==_iff, arith, append_assoc, Bool-cases, inl, inr,
}
use nrtb_redo.Common.Int
use nrtb_redo.Common.Int.{ℤ, pos, negsuc}
use nrtb_redo.Common.Bytes.{Bytes, Lacks}
use nrtb_redo.Socket.{not_open_exception, returns, throws, Conn, tick}
use nrtb_redo.Socket.Get.{RecvAnswer, ready, Got}
use nrtb_redo.Socket.Getln.{getlen_of, nonnegative, getln_round, getln_chunk, getln_loop}
use nrtb_redo.Socket.Getln.Line.{arrivals, still, get_one, get_none, succeeds_last}

module _ (now e : ℕ) (timeout endtime : ℤ) where
  abbrev Next : Type 0
  Next = List RecvAnswer → Bytes → Conn → Got

  round_hit :
      (s : Bytes) (answers : List RecvAnswer) (c : Conn) (next : Next)
      → getln_round (still now) (e ∷ []) 0 timeout endtime false (s ++ (e ∷ [])) answers c next
        ≡ (returns (s ++ (e ∷ [])), answers, c)
  unfolding getln_round
  round_hit s answers c next = rw (succeeds_last e e s, getln_round, (==_iff e e).1 refl)

  round_miss :
      (s : Bytes) (b : ℕ) (answers : List RecvAnswer) (c : Conn) (next : Next)
      → b ≢ e
      → getln_round (still now) (e ∷ []) 0 timeout endtime false (s ++ (b ∷ [])) answers c next
        ≡ next answers (s ++ (b ∷ [])) c
  unfolding getln_round
  round_miss s b answers c next k = rw (succeeds_last e b s, getln_round, other)
    where
      other : (e == b) ≡ false
      other = elim (Bool-cases (e == b)) [ inl h ↦ absurd (k (sym ((==_iff e b).0 h))) | inr h ↦ h ]

  loop_read :
      (fuel n b : ℕ) (rest : Bytes) (answers : List RecvAnswer) (s : Bytes) (c : Conn)
      → c.incoming ≡ b ∷ rest
      → (d : Conn) × (getln_loop
            (still now)
            (e ∷ [])
            0
            timeout
            endtime
            (suc fuel)
            (ready (suc n) ∷ answers)
            s
            c
          ≡ getln_round
              (still now)
              (e ∷ [])
              0
              timeout
              endtime
              false
              (s ++ (b ∷ []))
              answers
              d
              (getln_loop (still now) (e ∷ []) 0 timeout endtime fuel))
        × (d.incoming ≡ rest)
  unfolding getln_loop getlen_of getln_chunk
  loop_read fuel n b rest answers s c h =
      let (d, same, left) =
        get_one now n b rest answers (nonnegative (Int.minus endtime (pos now))) (tick c) h in
      (
        d,
        ap
            (λ g.
              getln_chunk (still now) (e ∷ []) 0 timeout endtime g s
                (getln_loop (still now) (e ∷ []) 0 timeout endtime fuel))
            same,
        left,
      )

  -- The loop reads on to the token.
  pub loop_line :
      (pre rest s : Bytes) (ns : List ℕ) (fuel : ℕ) (c : Conn)
      → Lacks e pre
      → c.incoming ≡ pre ++ (e ∷ rest)
      → length pre < length ns
      → length ns ≤ fuel
      → (d : Conn) × (answers : List RecvAnswer) × (getln_loop
            (still now)
            (e ∷ [])
            0
            timeout
            endtime
            fuel
            (arrivals ns)
            s
            c
          ≡ (returns (s ++ (pre ++ (e ∷ []))), answers, d))
        × (d.incoming ≡ rest)
  loop_line pre rest s [] fuel c l h k m = absurd (omega arith)
  loop_line pre rest s (n ∷ ns) zero c l h k m = absurd (omega arith)
  loop_line [] rest s (n ∷ ns) (suc fuel) c l h k m =
      let (d, step, left) = loop_read fuel n e rest (arrivals ns) s c h in
      (
        d,
        arrivals ns,
        step ∙ round_hit s (arrivals ns) d (getln_loop (still now) (e ∷ []) 0 timeout endtime fuel),
        left,
      )
  loop_line (b ∷ pre) rest s (n ∷ ns) (suc fuel) c (b_other, l) h k m =
      let (d, step, left) = loop_read fuel n b (pre ++ (e ∷ rest)) (arrivals ns) s c h in
      let (d', answers, read, left') =
        loop_line pre rest (s ++ (b ∷ [])) ns fuel d l left (omega arith) (omega arith) in
      (
        d',
        answers,
        step
            ∙ round_miss s b (arrivals ns) d
                (getln_loop (still now) (e ∷ []) 0 timeout endtime fuel) b_other
            ∙ read
            ∙ ap (λ t. (returns t, answers, d')) (append_assoc s (b ∷ []) (pre ++ (e ∷ []))),
        left',
      )

  loop_closed_now :
      (fuel n : ℕ) (answers : List RecvAnswer) (s : Bytes) (c : Conn)
      → c.incoming ≡ []
      → (getln_loop
          (still now)
          (e ∷ [])
          0
          timeout
          endtime
          (suc fuel)
          (ready (suc n) ∷ answers)
          s
          c).0
        ≡ throws not_open_exception []
  unfolding getln_loop getlen_of getln_chunk
  loop_closed_now fuel n answers s c h =
      ap
        (λ g.
          (getln_chunk (still now) (e ∷ []) 0 timeout endtime g s
            (getln_loop (still now) (e ∷ []) 0 timeout endtime fuel)).0)
        (get_none now n answers (nonnegative (Int.minus endtime (pos now))) (tick c) h).1

  -- The loop meets the end of the stream.
  pub loop_closed :
      (pre s : Bytes) (ns : List ℕ) (fuel : ℕ) (c : Conn)
      → Lacks e pre
      → c.incoming ≡ pre
      → length pre < length ns
      → length ns ≤ fuel
      → (getln_loop (still now) (e ∷ []) 0 timeout endtime fuel (arrivals ns) s c).0
        ≡ throws not_open_exception []
  loop_closed pre s [] fuel c l h k m = absurd (omega arith)
  loop_closed pre s (n ∷ ns) zero c l h k m = absurd (omega arith)
  loop_closed [] s (n ∷ ns) (suc fuel) c l h k m = loop_closed_now fuel n (arrivals ns) s c h
  loop_closed (b ∷ pre) s (n ∷ ns) (suc fuel) c (b_other, l) h k m =
      let (d, step, left) = loop_read fuel n b pre (arrivals ns) s c h in
      ap (λ g. g.0)
        (step
          ∙ round_miss s b (arrivals ns) d (getln_loop (still now) (e ∷ []) 0 timeout endtime fuel)
              b_other)
      ∙ loop_closed pre (s ++ (b ∷ [])) ns fuel d l left (omega arith) (omega arith)
