-- ===== src/Triad/Text/RoundTrip.antt =====
-- A triad that was written to a stream is read back from it.
use mathlib.Core.List.{cons-ne-nil}
use nrtb_redo.Common.{
  ℕ, ◌≡◌, ◌≢◌, refl, ap, ◌∙◌, true, false, ◌||◌, [], ◌∷◌, ◌++◌, some, ◌==◌, All, All-append,
  append_assoc, arith,
}
use nrtb_redo.Common.Bytes.{Bytes, codes, Lacks}
use nrtb_redo.Common.Stream.{is_space, skip_spaces}
use nrtb_redo.Common.Stream.Reading.{
  AllSolid, IsBreak, skip_spaces_solid, next_word-append, next_word-space,
}
use nrtb_redo.Floats.{Floats}
use nrtb_redo.Text.Split.{split, split-join}
use nrtb_redo.Triad.{Triad, triad}
use nrtb_redo.Triad.Text.{
  FloatText, six, show_triad, number_or, read_float, read_numbers, load_fields, read_triad,
}

abbrev pub IsPlain : ℕ → Type 0
IsPlain c = (is_space c ≡ false) × (c ≢ b',')

-- What a float looks like in a stream: not empty, with no space and no comma.
pub record IsWriting {F : Type 0} (t : FloatText F) : Type 0 where
  pub shown_plain : (k : ℕ) (a : F) → All IsPlain (t.show k a)
  pub shown_some : (k : ℕ) (a : F) → t.show k a ≢ []

module _ {F : Type 0} (t : FloatText F) (rounded : F → F) where
  -- `>>` reads what `<<` wrote for this value, as the value rounded, and stops at a space or a `)`.
  abbrev pub Reads : F → Type 0
  Reads a =
      (c : ℕ) (rest : Bytes)
      → (c == b' ' || c == b')') ≡ true
      → t.number (t.show six a ++ (c ∷ rest)) ≡ (rounded a, some (c ∷ rest))

  abbrev pub AllRead : Triad F → Type 0
  AllRead a = Reads a.x × Reads a.y × Reads a.z

  abbrev pub rounded_triad : Triad F → Triad F
  rounded_triad a = triad (rounded a.x) (rounded a.y) (rounded a.z)

plain-AllSolid : (s : Bytes) → All IsPlain s → AllSolid s
plain-AllSolid [] h = tt
plain-AllSolid (c ∷ s) ((a, b), h) = (a, plain-AllSolid s h)

plain-Lacks : (s : Bytes) → All IsPlain s → Lacks b',' s
plain-Lacks [] h = tt
plain-Lacks (c ∷ s) ((a, b), h) = (b, plain-Lacks s h)

append-ne-nil : (s t : Bytes) → s ≢ [] → s ++ t ≢ []
append-ne-nil [] t h = absurd (h refl)
append-ne-nil (c ∷ s) t h = cons-ne-nil c (s ++ t)

module _ {F : Type 0} ⦃n : Floats F⦄ (t : FloatText F) (w : IsWriting t) where
  number_or-append :
      (old : F) (s rest : Bytes) → s ≢ [] → number_or t old (s ++ rest) ≡ t.number (s ++ rest)
  number_or-append old [] rest h = absurd (h refl)
  number_or-append old (c ∷ s) rest h = refl

  pub show_triad-AllSolid : (k : ℕ) (a : Triad F) → AllSolid (show_triad t k a)
  unfolding show_triad
  show_triad-AllSolid k a =
      let solid = λ (v : F). plain-AllSolid (t.show k v) (w.shown_plain k v) in
      (
        refl,
        All-append (λ c. is_space c ≡ false) (t.show k a.x)
            (codes "," ++ (t.show k a.y ++ (codes "," ++ (t.show k a.z ++ codes ")")))) (solid a.x)
            (
              refl,
              All-append (λ c. is_space c ≡ false) (t.show k a.y)
                  (codes "," ++ (t.show k a.z ++ codes ")")) (solid a.y)
                  (
                    refl,
                    All-append (λ c. is_space c ≡ false) (t.show k a.z) (codes ")") (solid a.z)
                        (refl, tt),
                  ),
            ),
      )

  -- The fields that `split` finds.
  split-show_triad :
      (k : ℕ) (a : Triad F)
      → split (show_triad t k a) b','
        ≡ (b'(' ∷ t.show k a.x) ∷ t.show k a.y ∷ (t.show k a.z ++ codes ")") ∷ []
  unfolding show_triad
  split-show_triad k a =
      let plain = λ (v : F). plain-Lacks (t.show k v) (w.shown_plain k v) in
      split-join b',' ((b'(' ∷ t.show k a.x) ∷ t.show k a.y ∷ (t.show k a.z ++ codes ")") ∷ [])
        (cons-ne-nil b'('
          (t.show k a.x ++ (b',' ∷ (t.show k a.y ++ (b',' ∷ (t.show k a.z ++ codes ")"))))))
        (
          ((λ e. absurd (omega (arith, e))), plain a.x),
          (
            plain a.y,
            (
              All-append (λ c. c ≢ b',') (t.show k a.z) (codes ")") (plain a.z)
                  ((λ e. absurd (omega (arith, e))), tt),
              tt,
            ),
          ),
        )

  module _ (rounded : F → F) where
    read_float-show :
        (old a : F) (c : ℕ) (rest : Bytes)
        → Reads t rounded a
        → (c == b' ' || c == b')') ≡ true
        → read_float t old (some (t.show six a ++ (c ∷ rest))) ≡ (rounded a, some (c ∷ rest))
    unfolding read_float
    read_float-show old a c rest r h =
        ap (number_or t old) (
          skip_spaces_solid (t.show six a) (c ∷ rest)
            (plain-AllSolid (t.show six a) (w.shown_plain six a)) (w.shown_some six a))
        ∙ number_or-append old (t.show six a) (c ∷ rest) (w.shown_some six a)
        ∙ r c rest h

    read_float-space :
        (old : F) (s : Bytes) → read_float t old (some (b' ' ∷ s)) ≡ read_float t old (some s)
    unfolding read_float skip_spaces
    read_float-space old s = refl

    load_fields-shown :
        (old a : Triad F)
        → AllRead t rounded a
        → load_fields t old
            ((b'(' ∷ t.show six a.x) ∷ t.show six a.y ∷ (t.show six a.z ++ codes ")") ∷ [])
          ≡ rounded_triad t rounded a
    unfolding load_fields read_numbers
    load_fields-shown old a (rx, ry, rz) =
        let third = append_assoc (t.show six a.z) (codes ")") (codes " ") in
        rw
          (
            third,
            read_float-show old.x a.x b' '
                (t.show six a.y ++ (codes " " ++ (t.show six a.z ++ codes ") "))) rx refl,
            read_float-space old.y
                (t.show six a.y ++ (codes " " ++ (t.show six a.z ++ codes ") "))),
            read_float-show old.y a.y b' ' (t.show six a.z ++ codes ") ") ry refl,
            read_float-space old.z (t.show six a.z ++ codes ") "),
            read_float-show old.z a.z b')' (codes " ") rz refl,
          )
          refl

    -- A triad written with the precision of a new stream is read back with its coordinates rounded,
    -- and what follows it is left.
    pub read_triad-show_triad :
        (old a : Triad F) (rest : Bytes)
        → AllRead t rounded a
        → IsBreak rest
        → read_triad t old (show_triad t six a ++ rest) ≡ (rounded_triad t rounded a, rest)
    unfolding read_triad
    read_triad-show_triad old a rest r b =
        ap (λ p. (load_fields t old (split p.0 b','), p.1))
          (next_word-append (show_triad t six a) rest (show_triad-AllSolid six a)
            (unfold show_triad in
              cons-ne-nil b'(' (
                t.show six a.x
                ++ (b',' ∷ (t.show six a.y ++ (b',' ∷ (t.show six a.z ++ codes ")"))))))
            b)
        ∙ ap (λ ps. (load_fields t old ps, rest)) (split-show_triad six a)
        ∙ ap (λ v. (v, rest)) (load_fields-shown old a r)

    pub read_triad-space :
        (old : Triad F) (s : Bytes) → read_triad t old (b' ' ∷ s) ≡ read_triad t old s
    unfolding read_triad
    read_triad-space old s = ap (λ p. (load_fields t old (split p.0 b','), p.1)) (next_word-space s)
