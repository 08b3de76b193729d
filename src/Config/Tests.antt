-- ===== src/Config/Tests.antt =====
-- The theorems about configurations, at short files.
use nrtb_redo.Common.{
  ℕ, ◌≡◌, refl, Bool, true, false, not, ◌&&◌, List, [], ◌∷◌, ◌++◌, Option, some, ◌==◌, leb, arith,
  All, length,
}
use nrtb_redo.Common.Bytes.{
  Bytes, codes, Lacks, one_of, same_bytes, find_byte, first_of_set, last_not_of, first_not_of,
  find_text,
}
use nrtb_redo.Text.Trim.{trim}
use nrtb_redo.Text.Gsub.{gsub}
use nrtb_redo.Config.{Values, Config, all, clear}
use nrtb_redo.Config.Order.{matching}
use nrtb_redo.Config.File.{newline, read, warn, room}
use nrtb_redo.Config.Lines.{IsLine}
use nrtb_redo.Config.Print.{print_line}
use nrtb_redo.Config.Blank.{AreSpaces, comment_of}
use nrtb_redo.Config.Loaded.{
  print_file, insert_all, IsPrintable, opened, loaded, read-print_file, read_blank_line,
}
use nrtb_redo.Config.Override.{overridden}
use nrtb_redo.Config.Args.{take_args, named_exec, read_args}
use nrtb_redo.Config.CommandLine.{arg_list, chosen_file, read_args_lem}

abbrev others : ℕ → Bytes → Bool
others b [] = true
others b (c ∷ s) = not (c == b) && others b s

others-Lacks : (b : ℕ) (s : Bytes) → others b s ≡ true → Lacks b s
others-Lacks b [] h = tt
others-Lacks b (c ∷ s) h = ((λ e. ground (arith, h, e)), others-Lacks b s (ground (arith, h)))

text-IsLine :
    (s : Bytes) → (others newline s && (others 0 s && leb (length s) room)) ≡ true → IsLine s
text-IsLine s h = (
  others-Lacks newline s (ground (arith, h)),
  others-Lacks 0 s (ground (arith, h)),
  ground (arith, h),
)

-- Two values of one name, one of them with a comment character.
abbrev entries : Values
entries = (codes "a", codes "b#") ∷ (codes "a", codes "c d") ∷ []

entries-IsPrintable : All IsPrintable entries
unfolding one_of print_line same_bytes
entries-IsPrintable = (
  (((refl, tt), (refl, refl), (refl, refl)), text-IsLine (codes "a b\\#") refl, refl),
  ((((refl, tt), (refl, refl), (refl, refl)), text-IsLine (codes "a c d") refl, refl), tt),
)

abbrev nothing : Config
nothing = record { values = []; filename = []; warnings = [] }

abbrev conf : Bytes
conf = codes "x.conf"

abbrev files : Bytes → Bytes → Option Bytes
files text name = some text

read-print_file_example :
    (read (files (print_file entries)) 2 conf true nothing
      ≡ some (loaded entries (opened conf nothing)))
    × ((k : Bytes) → all k (insert_all entries []) ≡ matching k entries)
read-print_file_example =
    read-print_file (files (print_file entries)) 1 b'x' (codes ".conf") nothing entries refl
      entries-IsPrintable

abbrev spoilt : Bytes
spoilt =
    print_file entries ++ ((codes "  " ++ comment_of (some (codes "z"))) ++ (newline ∷ codes "e f"))

two_spaces : AreSpaces (codes "  ")
unfolding one_of
two_spaces = (refl, (refl, tt))

-- An indented comment.
read_blank_line_example :
    read (files spoilt) 2 conf true nothing ≡ some (warn (loaded entries (opened conf nothing)))
read_blank_line_example =
    read_blank_line (files spoilt) 1 b'x' (codes ".conf") nothing entries b' ' (codes " ")
      (some (codes "z")) (codes "e f") refl entries-IsPrintable two_spaces
      (text-IsLine (codes "  #z") refl)

abbrev file_values : Values
file_values = (codes "a", codes "b") ∷ (codes "a", codes "c") ∷ []

-- Two values for one name on the command line, over a file with two.
abbrev argv : List Bytes
argv = codes "prog" ∷ codes "a=1" ∷ codes "a=2" ∷ codes "configfile=x.conf" ∷ []

file_read :
    read
      (files (codes "a b\na c"))
      1
      (chosen_file argv [])
      false
      (record (clear nothing) { filename = chosen_file argv [] })
    ≡ some (record { values = file_values; filename = conf; warnings = [] })
unfolding read take_args clear find_byte same_bytes first_of_set trim last_not_of first_not_of gsub
    find_text
file_read = refl

read_args_lem_example :
    (e : Config) × (read_args (files (codes "a b\na c")) 1 argv [] nothing ≡ some e)
    × ((k : Bytes)
        → all k e.values ≡ overridden (matching k (arg_list (named_exec argv))) (all k file_values))
read_args_lem_example =
    read_args_lem (files (codes "a b\na c")) 1 argv [] nothing
      (record { values = file_values; filename = conf; warnings = [] }) file_read
