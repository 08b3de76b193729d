-- ===== src/Config/Blank.antt =====
-- Lines that hold a blank and no name: `trim` leaves them as they are, the first blank is taken for the
-- end of the name, and `gsub` throws on the empty name.
use nrtb_redo.Common.{
  ℕ, ◌≡◌, refl, ap, ◌∙◌, true, false, [], ◌∷◌, ◌++◌, Option, none, some, ◌==◌, arith, All,
  append-nil,
}
use nrtb_redo.Common.Bytes.{Bytes, codes, one_of, first_of_set, Lacks}
use nrtb_redo.Common.Outcome.{throws, returns, ◌>>=◌}
use nrtb_redo.Text.Gsub.{gsub_exception, gsub, gsub_lem}
use nrtb_redo.Text.Trim.{trim, AreBlank}
use nrtb_redo.Text.Trim.Solid.{last_of, trim-AreBlank}
use nrtb_redo.Config.Line.{
  hash, backslash, split_set, uncommented, uncommented_past, cut_comment, cut_comment_lem,
  parse_text, parse_line,
}

-- Tabs and spaces.
abbrev pub AreSpaces : Bytes → Type 0
AreSpaces = All (λ c. one_of split_set c ≡ true)

-- Nothing, or a comment.
abbrev pub comment_of : Option Bytes → Bytes
comment_of none = []
comment_of (some text) = hash ∷ text

AreSpaces-AreBlank : (s : Bytes) → AreSpaces s → AreBlank s
unfolding one_of
AreSpaces-AreBlank [] l = tt
AreSpaces-AreBlank (c ∷ s) (h, l) = (ground (arith, h), AreSpaces-AreBlank s l)

AreSpaces-Lacks : (s : Bytes) → AreSpaces s → Lacks hash s
unfolding one_of
AreSpaces-Lacks [] l = tt
AreSpaces-Lacks (c ∷ s) (h, l) = ((λ e. ground (arith, h, e)), AreSpaces-Lacks s l)

space_dark : (c : ℕ) → one_of split_set c ≡ true → (c == backslash) ≡ false
unfolding one_of
space_dark c h = ground (arith, h)

last_space :
    (p : ℕ) (s : Bytes)
    → (p == backslash) ≡ false
    → AreSpaces s
    → (last_of p s == backslash) ≡ false
last_space p [] k l = k
last_space p (c ∷ s) k (h, l) = last_space c s (space_dark c h) l

uncommented-comment_of :
    (p : ℕ) (comment : Option Bytes)
    → (p == backslash) ≡ false
    → uncommented p (comment_of comment) ≡ []
unfolding uncommented
uncommented-comment_of p none k = refl
uncommented-comment_of p (some text) k = rw k

found_at_once :
    (b : ℕ) (blanks : Bytes)
    → one_of split_set b ≡ true
    → first_of_set split_set (b ∷ blanks) ≡ some 0
unfolding first_of_set
found_at_once b blanks h = rw h

cut_comment_blank :
    (b : ℕ) (blanks : Bytes) (comment : Option Bytes)
    → AreSpaces (b ∷ blanks)
    → cut_comment ((b ∷ blanks) ++ comment_of comment) ≡ returns (b ∷ blanks)
cut_comment_blank b blanks comment (h, l) =
    (cut_comment_lem ((b ∷ blanks) ++ comment_of comment)).0 (AreSpaces-Lacks (b ∷ blanks) (h, l)).0
    ∙ ap returns (
        uncommented_past 0 (b ∷ blanks) (comment_of comment) (AreSpaces-Lacks (b ∷ blanks) (h, l))
        ∙ ap (◌++◌ (b ∷ blanks)) (
            uncommented-comment_of (last_of b blanks) comment
              (last_space 0 (b ∷ blanks) refl (h, l)))
        ∙ append-nil (b ∷ blanks))

nothing : gsub (trim []) (codes "\\#") (codes "#") ≡ throws gsub_exception
nothing =
    ap (λ s. gsub s (codes "\\#") (codes "#")) (trim-AreBlank [] tt)
    ∙ gsub_lem [] (codes "\\#") (codes "#")

parse_nameless :
    (text : Bytes) → first_of_set split_set text ≡ some 0 → parse_text text ≡ throws gsub_exception
unfolding parse_text
parse_nameless text f = rw (f, parse_text, nothing) refl

pub parse_line-blank :
    (b : ℕ) (blanks : Bytes) (comment : Option Bytes)
    → AreSpaces (b ∷ blanks)
    → parse_line ((b ∷ blanks) ++ comment_of comment) ≡ throws gsub_exception
unfolding parse_line
parse_line-blank b blanks comment (h, l) =
    ap (λ o. o >>= (λ in_text. parse_text (trim in_text)))
      (cut_comment_blank b blanks comment (h, l))
    ∙ parse_nameless (trim (b ∷ blanks)) (
        ap (first_of_set split_set)
          (trim-AreBlank (b ∷ blanks) (AreSpaces-AreBlank (b ∷ blanks) (h, l)))
        ∙ found_at_once b blanks h)

parse_none : (text : Bytes) → first_of_set split_set text ≡ none → parse_text text ≡ returns none
unfolding parse_text
parse_none text f = rw (f, parse_text)

nothing_left : first_of_set split_set [] ≡ none
unfolding first_of_set
nothing_left = refl

-- The empty text holds nothing.
pub parse_line_nil : parse_line [] ≡ returns none
unfolding parse_line
parse_line_nil =
    let empty : cut_comment [] ≡ returns [] =
      (cut_comment_lem []).0 tt ∙ unfold uncommented in refl in
    ap (λ o. o >>= (λ in_text. parse_text (trim in_text))) empty
    ∙ parse_none (trim []) (ap (first_of_set split_set) (trim-AreBlank [] tt) ∙ nothing_left)
