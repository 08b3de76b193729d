-- ===== src/Text/Trim/Solid.antt =====
-- Texts that `trim` leaves alone, and what it makes of blanks in front of them.
use nrtb_redo.Common.{
  ℕ, suc, ◌+◌, ◌≡◌, ◌≢◌, refl, ap, ◌∙◌, true, false, none, some, [], ◌∷◌, arith, length, take, drop,
}
use nrtb_redo.Common.Bytes.{Bytes, one_of, first_not_of, last_not_of}
use nrtb_redo.Text.Trim.{
  ws, trim, trim_front, trim_back, AreBlank, trim_stages, trim_front_blank, trim_back_blank,
}

-- The first and the last byte of a text, `p` for the empty one.
abbrev pub first_of : ℕ → Bytes → ℕ
first_of p [] = p
first_of p (c ∷ s) = c

abbrev pub last_of : ℕ → Bytes → ℕ
last_of p [] = p
last_of p (c ∷ s) = last_of c s

-- Neither starts nor ends with a blank, and is not empty.
abbrev pub IsSolid : Bytes → Type 0
IsSolid s = (one_of ws (first_of b' ' s) ≡ false) × (one_of ws (last_of b' ' s) ≡ false)

last_not_of_dark :
    (c : ℕ) (s : Bytes) → one_of ws (last_of c s) ≡ false → last_not_of ws (c ∷ s) ≡ some (length s)
unfolding last_not_of
last_not_of_dark c [] h = rw h
last_not_of_dark c (d ∷ s) h = rw (last_not_of_dark d s h, last_not_of)

take_all : (s : Bytes) → take (length s) s ≡ s
take_all [] = refl
take_all (c ∷ s) = ap (◌∷◌ c) (take_all s)

trim_back-IsSolid : (s : Bytes) → IsSolid s → trim_back s ≡ s
unfolding trim_back
trim_back-IsSolid [] h = unfold trim_back last_not_of in refl
trim_back-IsSolid (c ∷ s) (f, l) =
    rw (last_not_of_dark c s l, trim_back, length_succ) (take_all (c ∷ s))
  where
    length_succ : length s + 1 ≡ suc (length s)
    length_succ = omega arith

first_not_of_dark : (c : ℕ) (s : Bytes) → one_of ws c ≡ false → first_not_of ws (c ∷ s) ≡ some 0
unfolding first_not_of
first_not_of_dark c s h = rw h

trim_front-some : (s : Bytes) (n : ℕ) → first_not_of ws s ≡ some n → trim_front s ≡ drop n s
unfolding trim_front
trim_front-some s n e = rw (e, trim_front)

trim_front-IsSolid : (s : Bytes) → IsSolid s → trim_front s ≡ s
trim_front-IsSolid [] h = unfold trim_front first_not_of in refl
trim_front-IsSolid (c ∷ s) (f, l) = trim_front-some (c ∷ s) 0 (first_not_of_dark c s f)

pub trim-IsSolid : (s : Bytes) → IsSolid s → trim s ≡ s
trim-IsSolid s h = trim_stages s ∙ ap trim_back (trim_front-IsSolid s h) ∙ trim_back-IsSolid s h

first_not_of_past :
    (b c : ℕ) (s : Bytes)
    → one_of ws b ≡ true
    → one_of ws c ≡ false
    → first_not_of ws (b ∷ c ∷ s) ≡ some 1
unfolding first_not_of
first_not_of_past b c s h k = rw (h, k)

not_nil : one_of ws (first_of b' ' []) ≢ false
unfolding one_of
not_nil e = cc

trim_front_past : (b : ℕ) (s : Bytes) → one_of ws b ≡ true → IsSolid s → trim_front (b ∷ s) ≡ s
trim_front_past b [] h (f, l) = absurd (not_nil f)
trim_front_past b (c ∷ s) h (f, l) = trim_front-some (b ∷ c ∷ s) 1 (first_not_of_past b c s h f)

-- One blank in front goes.
pub trim_past : (b : ℕ) (s : Bytes) → one_of ws b ≡ true → IsSolid s → trim (b ∷ s) ≡ s
trim_past b s h k =
    trim_stages (b ∷ s) ∙ ap trim_back (trim_front_past b s h k) ∙ trim_back-IsSolid s k

first_not_of_blank : (s : Bytes) → AreBlank s → first_not_of ws s ≡ none
unfolding first_not_of
first_not_of_blank [] l = refl
first_not_of_blank (c ∷ s) (b, l) = rw (b, first_not_of_blank s l)

-- Nothing but blanks is left as it is.
pub trim-AreBlank : (s : Bytes) → AreBlank s → trim s ≡ s
trim-AreBlank s l =
    trim_stages s ∙ ap trim_back (trim_front_blank s (first_not_of_blank s l)) ∙ trim_back_blank s l
