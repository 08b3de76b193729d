-- ===== src/Config/File.antt =====
-- `conf_reader::read` of a file, with the files that it includes. `fs` is what opening a file gives,
-- `none` when it cannot be opened. `getline` of an istream ends a line at a newline, at the end of the
-- file, or when the buffer is full; then the stream fails, and the loop ends after that line.
use nrtb_redo.Common.{
  ℕ, zero, suc, ◌+◌, Bool, true, false, List, [], ◌∷◌, Option, none, some, if◌then◌else◌, length,
  ◌==◌,
}
use nrtb_redo.Common.Bytes.{Bytes, codes, same_bytes}
use nrtb_redo.Common.Outcome.{returns, throws, undefined}
use nrtb_redo.Config.{Config, insert_value, clear}
use nrtb_redo.Config.Line.{parse_line}

abbrev pub newline : ℕ
newline = 10

-- A line, and what is left of the file while the stream is good.
abbrev pub Taken : Type 0
Taken = Bytes × Option Bytes

abbrev pub with_byte : ℕ → Taken → Taken
with_byte c (line, rest) = (c ∷ line, rest)

abbrev pub at_limit : Bytes → Taken
at_limit [] = ([], some [])
at_limit (c ∷ s) = if c == newline then ([], some s) else ([], none)

unfoldable pub take_line : ℕ → Bytes → Taken
take_line zero s = at_limit s
take_line (suc room) [] = ([], some [])
take_line (suc room) (c ∷ s) = if c == newline then ([], some s) else with_byte c (take_line room s)

-- `inbuff` has 16 * 1024 bytes, one of them for the end of the text.
abbrev pub room : ℕ
room = 16383

unfoldable pub getline : Bytes → Taken
unfolding take_line
getline [] = ([], none)
getline (c ∷ s) = take_line room (c ∷ s)

-- `string in = inbuff` ends at the first zero byte.
unfoldable pub c_text : Bytes → Bytes
c_text [] = []
c_text (c ∷ s) = if c == 0 then [] else c ∷ c_text s

-- One round of the loop, and what `next` does with the rest of a stream that is still good.
unfoldable pub after_line : (Bytes → List Bytes) → Taken → List Bytes
unfolding c_text
after_line next (line, none) = c_text line ∷ []
after_line next (line, some rest) = c_text line ∷ next rest

-- The texts that the loop sees; each round but the last takes at least one byte off the file.
unfoldable pub lines_loop : ℕ → Bytes → List Bytes
unfolding getline after_line
lines_loop zero s = []
lines_loop (suc fuel) s = after_line (lines_loop fuel) (getline s)

unfoldable pub file_lines : Bytes → List Bytes
unfolding lines_loop
file_lines s = lines_loop (length s + 1) s

abbrev pub include_name : Bytes
include_name = codes "*INCLUDE"

unfoldable pub warn : Config → Config
warn c = record c { warnings = c.filename ∷ c.warnings }

unfoldable pub store : Bytes → Bytes → Config → Config
unfolding insert_value
store [] value c = c
store (n ∷ name) value c = record c { values = insert_value (n ∷ name) value c.values }

abbrev pub name_or : Bytes → Bytes → Bytes
name_or [] old = old
name_or (n ∷ name) old = n ∷ name

module _ (fs : Bytes → Option Bytes) where
  -- The loop over the lines; `include` is the call of `read` for another file.
  unfoldable pub read_lines : (Bytes → Config → Option Config) → List Bytes → Config → Option Config
  unfolding parse_line store warn
  read_lines include [] c = some c
  read_lines include (line ∷ lines) c = elim (parse_line line) [
    | throws e ↦ some (warn c)
    | undefined ↦ none
    | returns none ↦ read_lines include lines c
    | returns (some (name, value)) ↦ elim (same_bytes name include_name) [
      | false ↦ read_lines include lines (store name value c)
      | true ↦ elim (include value c) [ none ↦ none | some d ↦ read_lines include lines d ]
    ]
  ]

  -- The member `filename` is set; an empty one does nothing.
  unfoldable pub read_named :
      (Bytes → Config → Option Config) → Bytes → Bool → Config → Option Config
  unfolding read_lines file_lines warn clear
  read_named include [] wipe c = some c
  read_named include (n ∷ name) wipe c = elim (fs (n ∷ name)) [
    | none ↦ some (warn c)
    | some text ↦ read_lines include (file_lines text) (if wipe then clear c else c)
  ]

  -- The fuel bounds the depth of the includes; `none` when they are nested deeper.
  unfoldable pub read : ℕ → Bytes → Bool → Config → Option Config
  unfolding read_named
  read zero name wipe c = none
  read (suc depth) name wipe c =
      read_named (λ file d. read depth file false d) (name_or name c.filename) wipe
        (record c { filename = name_or name c.filename })
