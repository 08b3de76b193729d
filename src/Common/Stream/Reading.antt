-- ===== src/Common/Stream/Reading.antt =====
-- Words that stand in a stream one after the other.
use nrtb_redo.Common.{◌≡◌, ◌≢◌, refl, ap, ◌∙◌, true, false, [], ◌∷◌, ◌++◌, All}
use nrtb_redo.Common.Bytes.{Bytes}
use nrtb_redo.Common.Stream.{is_space, skip_spaces, read_word, next_word}

abbrev pub AllSolid : Bytes → Type 0
AllSolid = All (λ c. is_space c ≡ false)

-- The text ends here, or a blank follows.
abbrev pub IsBreak : Bytes → Type 0
IsBreak [] = Unit
IsBreak (c ∷ s) = is_space c ≡ true

read_word-break : (rest : Bytes) → IsBreak rest → read_word rest ≡ ([], rest)
unfolding read_word
read_word-break [] h = refl
read_word-break (c ∷ s) h = rw h refl

read_word-append : (w rest : Bytes) → AllSolid w → IsBreak rest → read_word (w ++ rest) ≡ (w, rest)
unfolding read_word
read_word-append [] rest h b = read_word-break rest b
read_word-append (c ∷ w) rest (h, hs) b = rw (h, read_word-append w rest hs b) refl

pub skip_spaces_solid : (w rest : Bytes) → AllSolid w → w ≢ [] → skip_spaces (w ++ rest) ≡ w ++ rest
unfolding skip_spaces
skip_spaces_solid [] rest a h = absurd (h refl)
skip_spaces_solid (c ∷ w) rest (a, as_) h = rw a refl

pub next_word-append :
    (w rest : Bytes) → AllSolid w → w ≢ [] → IsBreak rest → next_word (w ++ rest) ≡ (w, rest)
unfolding next_word
next_word-append w rest a h b =
    ap read_word (skip_spaces_solid w rest a h) ∙ read_word-append w rest a b

pub next_word-space : (s : Bytes) → next_word (b' ' ∷ s) ≡ next_word s
unfolding next_word skip_spaces
next_word-space s = refl
