-- ===== src/Socket/Getln/Whole.antt =====
-- Whole calls of `getln` for a token of one byte.
use nrtb_redo.Common.{
  ℕ, ◌+◌, ◌<◌, ◌≡◌, ◌≢◌, refl, sym, ap, ◌∙◌, false, List, [], ◌∷◌, ◌++◌, length, ◌==◌, ==_iff,
  arith, Bool-cases, inl, inr,
}
use nrtb_redo.Common.Int
use nrtb_redo.Common.Int.{ℤ, pos, negsuc}
use nrtb_redo.Common.Bytes.{Bytes, Lacks}
use nrtb_redo.Socket.{not_open_exception, returns, throws, Conn, tick}
use nrtb_redo.Socket.Get.{RecvAnswer, Got}
use nrtb_redo.Socket.Getln.{nonnegative, getln_loop, getln_first, getln}
use nrtb_redo.Socket.Getln.Line.{arrivals, still, get_one, get_none, succeeds_last}
use nrtb_redo.Socket.Getln.Loop.{loop_line, loop_closed}

length-arrivals : (ns : List ℕ) → length (arrivals ns) ≡ length ns
length-arrivals [] = refl
length-arrivals (n ∷ ns) = omega (arith, length-arrivals ns)

module _ (now e : ℕ) (timeout : ℤ) where
  abbrev looping : List ℕ → List RecvAnswer → Bytes → Conn → Got
  looping ns =
      getln_loop (still now) (e ∷ []) 0 timeout (Int.plus (pos now) timeout)
        (length (arrivals ns) + 1)

  first_read :
      (n b : ℕ) (ns : List ℕ) (rest : Bytes) (c : Conn)
      → c.incoming ≡ b ∷ rest
      → (d : Conn) × (getln (still now) (arrivals (n ∷ ns)) (e ∷ []) 0 timeout c
          ≡ getln_first
              (still now)
              (e ∷ [])
              0
              timeout
              (Int.plus (pos now) timeout)
              (returns (b ∷ []), arrivals ns, d)
              (looping (n ∷ ns)))
        × (d.incoming ≡ rest)
  unfolding getln
  first_read n b ns rest c h =
      let (d, same, left) = get_one now n b rest (arrivals ns) (nonnegative timeout) (tick c) h in
      (
        d,
        ap
            (λ g.
              getln_first (still now) (e ∷ []) 0 timeout (Int.plus (pos now) timeout) g
                (looping (n ∷ ns)))
            same,
        left,
      )

  first_hit :
      (ns : List ℕ) (answers : List RecvAnswer) (c : Conn)
      → getln_first
          (still now)
          (e ∷ [])
          0
          timeout
          (Int.plus (pos now) timeout)
          (returns (e ∷ []), answers, c)
          (looping ns)
        ≡ (returns (e ∷ []), answers, c)
  unfolding getln_first
  first_hit ns answers c = rw (succeeds_last e e [], getln_first, (==_iff e e).1 refl)

  first_miss :
      (b : ℕ) (ns : List ℕ) (answers : List RecvAnswer) (c : Conn)
      → b ≢ e
      → getln_first
          (still now)
          (e ∷ [])
          0
          timeout
          (Int.plus (pos now) timeout)
          (returns (b ∷ []), answers, c)
          (looping ns)
        ≡ looping ns answers (b ∷ []) c
  unfolding getln_first
  first_miss b ns answers c k = rw (succeeds_last e b [], getln_first, other)
    where
      other : (e == b) ≡ false
      other = elim (Bool-cases (e == b)) [ inl h ↦ absurd (k (sym ((==_iff e b).0 h))) | inr h ↦ h ]

  first_closed :
      (n : ℕ) (ns : List ℕ) (c : Conn)
      → c.incoming ≡ []
      → (getln (still now) (arrivals (n ∷ ns)) (e ∷ []) 0 timeout c).0
        ≡ throws not_open_exception []
  unfolding getln getln_first
  first_closed n ns c h =
      ap
        (λ g.
          (getln_first (still now) (e ∷ []) 0 timeout (Int.plus (pos now) timeout) g
            (looping (n ∷ ns))).0)
        (get_none now n (arrivals ns) (nonnegative timeout) (tick c) h).1

-- For a token of one byte, as `getln()` has it by default, with more reads than bytes before the token,
-- in pieces of any size, and no time going by: `getln` returns what the peer sends through the first
-- token, and leaves what follows to the next call, whatever the timeout.
pub getln_line :
    (now e : ℕ) (timeout : ℤ) (pre rest : Bytes) (ns : List ℕ) (c : Conn)
    → Lacks e pre
    → c.incoming ≡ pre ++ (e ∷ rest)
    → length pre < length ns
    → (d : Conn) × (answers : List RecvAnswer) × (getln
          (still now)
          (arrivals ns)
          (e ∷ [])
          0
          timeout
          c
        ≡ (returns (pre ++ (e ∷ [])), answers, d))
      × (d.incoming ≡ rest)
getln_line now e timeout pre rest [] c l h k = absurd (omega arith)
getln_line now e timeout [] rest (n ∷ ns) c l h k =
    let (d, step, left) = first_read now e timeout n e ns rest c h in
    (d, arrivals ns, step ∙ first_hit now e timeout (n ∷ ns) (arrivals ns) d, left)
getln_line now e timeout (b ∷ pre) rest (n ∷ ns) c (b_other, l) h k =
    let (d, step, left) = first_read now e timeout n b ns (pre ++ (e ∷ rest)) c h in
    let (d', answers, read, left') =
      loop_line now e timeout (Int.plus (pos now) timeout) pre rest (b ∷ []) ns
        (length (arrivals (n ∷ ns)) + 1) d l left (omega arith)
        (omega (arith, length-arrivals (n ∷ ns))) in
    (d', answers, step ∙ first_miss now e timeout b (n ∷ ns) (arrivals ns) d b_other ∙ read, left')

-- When the connection ends before the token, `getln` throws an exception without a text: the bytes that
-- it had received are in none of its results.
pub getln_closed :
    (now e : ℕ) (timeout : ℤ) (ns : List ℕ) (c : Conn)
    → Lacks e c.incoming
    → length c.incoming < length ns
    → (getln (still now) (arrivals ns) (e ∷ []) 0 timeout c).0 ≡ throws not_open_exception []
getln_closed now e timeout ns c l k = closed_at ns c.incoming c refl l k
  where
    closed_at :
        (ns : List ℕ) (pre : Bytes) (c : Conn)
        → c.incoming ≡ pre
        → Lacks e pre
        → length pre < length ns
        → (getln (still now) (arrivals ns) (e ∷ []) 0 timeout c).0 ≡ throws not_open_exception []
    closed_at [] pre c h l k = absurd (omega arith)
    closed_at (n ∷ ns) [] c h l k = first_closed now e timeout n ns c h
    closed_at (n ∷ ns) (b ∷ pre) c h (b_other, l) k =
        let (d, step, left) = first_read now e timeout n b ns pre c h in
        ap (λ g. g.0) (step ∙ first_miss now e timeout b (n ∷ ns) (arrivals ns) d b_other)
        ∙ loop_closed now e timeout (Int.plus (pos now) timeout) pre (b ∷ []) ns
            (length (arrivals (n ∷ ns)) + 1) d l left (omega arith)
            (omega (arith, length-arrivals (n ∷ ns)))
