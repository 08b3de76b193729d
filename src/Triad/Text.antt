-- ===== src/Triad/Text.antt =====
-- cpp/common/point/triad.h: triads as text. `<<` and `>>` of a float are a parameter.
pub mod RoundTrip
pub mod Whole
use nrtb_redo.Common.{
  ℕ, ◌≡◌, ◌≢◌, refl, sym, ap, ◌∙◌, Bool, true, false, List, [], ◌∷◌, ◌++◌, Option, none, some,
  if◌then◌else◌, ◌==◌, All, append_assoc, arith,
}
use mathlib.Core.List.{cons-ne-nil}
use nrtb_redo.Common.Bytes.{Bytes, codes, Lacks}
use nrtb_redo.Common.Stream.{is_space, skip_spaces, next_word}
use nrtb_redo.Common.Stream.Reading.{
  AllSolid, IsBreak, skip_spaces_solid, next_word-append, next_word-space,
}
use nrtb_redo.Floats.{Floats}
use nrtb_redo.Text.Split.{split, join, split-join}
use nrtb_redo.Triad.{Triad, triad}

-- `show` writes with a precision. `number` reads from a text that starts with no space: the value
-- that the variable gets, also when nothing can be read, and the rest, `none` of a stream that fails.
pub record FloatText (F : Type 0) : Type 0 where
  pub show : ℕ → F → Bytes
  pub number : Bytes → F × Option Bytes

-- The precision of a new stream.
abbrev pub six : ℕ
six = 6

module _ {F : Type 0} ⦃n : Floats F⦄ (t : FloatText F) where
  abbrev pub coordinates : ℕ → Triad F → List Bytes
  coordinates precision a = t.show precision a.x ∷ t.show precision a.y ∷ t.show precision a.z ∷ []

  unfoldable pub show_triad : ℕ → Triad F → Bytes
  show_triad precision a =
      codes "("
      ++ (t.show precision a.x
          ++ (codes ","
              ++ (t.show precision a.y ++ (codes "," ++ (t.show precision a.z ++ codes ")")))))

  abbrev pub number_or : F → Bytes → F × Option Bytes
  number_or old [] = (old, none)
  number_or old (c ∷ s) = t.number (c ∷ s)

  -- `>>` of a float variable with the value `old`, which stays when the stream has failed or is at
  -- its end.
  unfoldable pub read_float : F → Option Bytes → F × Option Bytes
  read_float old none = (old, none)
  read_float old (some s) = number_or old (skip_spaces s)

  -- `if (t[0][0] == '(') t[0].erase(0,1)`
  abbrev pub opened : Bytes → Bytes
  opened [] = []
  opened (c ∷ s) = if c == b'(' then s else c ∷ s

  unfoldable pub read_numbers : Triad F → Bytes → Triad F
  unfolding read_float
  read_numbers old s =
      let (a, s1) = read_float old.x (some s) in
      let (b, s2) = read_float old.y s1 in let (c, s3) = read_float old.z s2 in triad a b c

  -- Anything but three fields gives zeros.
  unfoldable pub load_fields : Triad F → List Bytes → Triad F
  unfolding read_numbers
  load_fields old [] = triad n.nought n.nought n.nought
  load_fields old (p ∷ []) = triad n.nought n.nought n.nought
  load_fields old (p ∷ q ∷ []) = triad n.nought n.nought n.nought
  load_fields old (p ∷ q ∷ r ∷ []) =
      read_numbers old (opened p ++ (codes " " ++ (q ++ (codes " " ++ (r ++ codes " ")))))
  load_fields old (p ∷ q ∷ r ∷ u ∷ us) = triad n.nought n.nought n.nought

  -- `stream >> a`, and what is left of the stream.
  unfoldable pub read_triad : Triad F → Bytes → Triad F × Bytes
  unfolding load_fields split next_word
  read_triad old s =
      let (element, rest) = next_word s in (load_fields old (split element b','), rest)

  unfoldable pub from_str : Triad F → Bytes → Triad F
  unfolding read_triad
  from_str old s = (read_triad old s).0

  -- The text up to its first space.
  unfoldable pub to_str : ℕ → Triad F → Bytes
  unfolding show_triad next_word
  to_str precision a = (next_word (show_triad precision a)).0
