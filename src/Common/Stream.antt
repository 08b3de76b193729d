-- ===== src/Common/Stream.antt =====
-- Reading words from a std::stringstream.
pub mod Reading
use nrtb_redo.Common.{ℕ, Bool, ◌&&◌, ◌||◌, [], ◌∷◌, if◌then◌else◌, leb, ◌==◌}
use nrtb_redo.Common.Bytes.{Bytes}

-- `isspace`
abbrev pub is_space : ℕ → Bool
is_space c = (c == b' ') || (leb 9 c && leb c 13)

unfoldable pub skip_spaces : Bytes → Bytes
skip_spaces [] = []
skip_spaces (c ∷ s) = if is_space c then skip_spaces s else c ∷ s

unfoldable pub read_word : Bytes → Bytes × Bytes
read_word [] = ([], [])
read_word (c ∷ s) =
    let (word, rest) = read_word s in if is_space c then ([], c ∷ s) else (c ∷ word, rest)

-- `stream >> word`: the word and what is left; nothing is left at the end of the stream.
unfoldable pub next_word : Bytes → Bytes × Bytes
unfolding skip_spaces read_word
next_word s = read_word (skip_spaces s)
