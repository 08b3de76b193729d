-- ===== src/Socket/Getln/Line.antt =====
-- Reads of one byte, while they give bytes and no time goes by, and the test for a token of one byte.
use nrtb_redo.Common.{
  ℕ, suc, ◌-◌, ◌≡◌, refl, ap, ◌∙◌, true, false, ◌&&◌, List, [], ◌∷◌, ◌++◌, map, length, drop, leb,
  ◌==◌, arith, length-append, drop-length-append, Bool-cases, inl, inr,
}
use nrtb_redo.Common.Int
use nrtb_redo.Common.Int.{ℤ, pos, negsuc}
use nrtb_redo.Common.Bytes.{Bytes, find_text, starts_with}
use nrtb_redo.Socket.{not_open_exception, returns, throws, Conn, is_positive, tick}
use nrtb_redo.Socket.Get.{
  RecvAnswer, ready, got, closed, receive, smaller, switch, is_past, looked, get_end, at_bounds,
  get_round, get_switched, get_loop, get,
}
use nrtb_redo.Socket.Getln.{is_found, succeeds}

-- Reads that find at least one byte, or the end.
abbrev pub arrivals : List ℕ → List RecvAnswer
arrivals ns = map (λ n. ready (suc n)) ns

smaller_one : (n : ℕ) → smaller (suc n) 1 ≡ 1
smaller_one n = ground arith

receive_one :
    (n b : ℕ) (rest : Bytes) (c : Conn)
    → c.incoming ≡ b ∷ rest
    → receive 1 (ready (suc n)) c ≡ (got (b ∷ []), record c { incoming = rest })
unfolding receive
receive_one n b rest c h = rw (smaller_one n, h) refl

receive_none :
    (n : ℕ) (c : Conn)
    → c.incoming ≡ []
    → receive 1 (ready (suc n)) c ≡ (closed, record c { incoming = [] })
unfolding receive
receive_none n c h = rw (smaller_one n, h) refl

module _ (now : ℕ) where
  abbrev pub still : ℕ → ℕ
  still k = now

  pub not_past :
      (timeout : ℤ) → (is_positive timeout && Int.lt (Int.plus (pos now) timeout) (pos now)) ≡ false
  not_past timeout = ground arith

  get_end-still :
      (maxlen : ℕ) (timeout : ℤ) (answers : List RecvAnswer) (s : Bytes) (c : Conn)
      → get_end still maxlen timeout (Int.plus (pos now) timeout) answers s c
        ≡ (returns s, answers, looked still maxlen timeout (Int.plus (pos now) timeout) c)
  unfolding get_end is_past
  get_end-still maxlen timeout answers s c = rw (not_past timeout) refl

  -- A read of one byte gives the next one.
  pub get_one :
      (n b : ℕ) (rest : Bytes) (answers : List RecvAnswer) (timeout : ℤ) (c : Conn)
      → c.incoming ≡ b ∷ rest
      → (d : Conn) × (get still (ready (suc n) ∷ answers) 1 timeout c
          ≡ (returns (b ∷ []), answers, d))
        × (d.incoming ≡ rest)
  unfolding get get_loop switch get_switched at_bounds get_round
  get_one n b rest answers timeout c h =
      let endtime : ℤ = Int.plus (pos now) timeout in
      let d : Conn = record (tick c) { incoming = rest } in
      let e : Conn = looked still 1 timeout endtime d in
      (
        looked still 1 timeout endtime e,
        ap
              (λ r.
                get_switched still 1 timeout endtime (switch timeout r.0 [] r.1) answers
                  (get_loop still 1 timeout endtime answers) [])
              (receive_one n b rest (tick c) h)
            ∙ get_end-still 1 timeout answers (b ∷ []) e,
        looked-incoming e ∙ looked-incoming d,
      )
    where
      looked-incoming :
          (c : Conn) → (looked still 1 timeout (Int.plus (pos now) timeout) c).incoming ≡ c.incoming
      looked-incoming c = elim (Bool-cases (is_positive timeout)) [ inl e ↦ rw e | inr e ↦ rw e ]

  -- A read of one byte when there is none.
  pub get_none :
      (n : ℕ) (answers : List RecvAnswer) (timeout : ℤ) (c : Conn)
      → c.incoming ≡ []
      → (d : Conn) × (get still (ready (suc n) ∷ answers) 1 timeout c
          ≡ (throws not_open_exception [], answers, d))
  unfolding get get_loop switch get_switched
  get_none n answers timeout c h =
      let endtime : ℤ = Int.plus (pos now) timeout in
      (
        record (tick c) { incoming = [] },
        ap
            (λ r.
              get_switched still 1 timeout endtime (switch timeout r.0 [] r.1) answers
                (get_loop still 1 timeout endtime answers) [])
            (receive_none n (tick c) h),
      )

found_one : (e b : ℕ) → is_found (find_text (e ∷ []) (b ∷ [])) ≡ (e == b)
unfolding find_text starts_with
found_one e b = elim (Bool-cases (e == b)) [ inl h ↦ rw h | inr h ↦ rw h ]

pub succeeds_last : (e b : ℕ) (s : Bytes) → succeeds (e ∷ []) (s ++ (b ∷ [])) ≡ (e == b)
unfolding succeeds
succeeds_last e b s =
    let shorter : length (s ++ (b ∷ [])) - 1 ≡ length s = omega (arith, length-append s (b ∷ [])) in
    let long : leb 1 (length (s ++ (b ∷ []))) ≡ true = ground (arith, length-append s (b ∷ [])) in
    let cut : drop (length (s ++ (b ∷ [])) - 1) (s ++ (b ∷ [])) ≡ b ∷ [] =
      ap (λ n. drop n (s ++ (b ∷ []))) shorter ∙ drop-length-append s (b ∷ []) in
    ap (λ x. x && is_found (find_text (e ∷ []) (drop (length (s ++ (b ∷ [])) - 1) (s ++ (b ∷ [])))))
      long
    ∙ ap (λ t. is_found (find_text (e ∷ []) t)) cut
    ∙ found_one e b
