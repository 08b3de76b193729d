-- ===== src/Config/Loaded.antt =====
-- What `read` stores of a file of printed lines, up to its end or to a line that makes it give up.
use nrtb_redo.Common.{
  ℕ, suc, ◌≡◌, refl, sym, ap, ◌∙◌, true, false, List, [], ◌∷◌, ◌++◌, map, Option, none, some,
  append-nil, All, append_assoc, Bool-cases, inl, inr,
}
use nrtb_redo.Common.Bytes.{Bytes, same_bytes}
use nrtb_redo.Common.Outcome.{returns, throws}
use nrtb_redo.Text.Gsub.{TextError, gsub_exception}
use nrtb_redo.Config.{Values, Config, insert_value, clear, all}
use nrtb_redo.Config.Order.{
  IsSorted, insert_value-IsSorted, matching, matching-insert_value, all-matching,
}
use nrtb_redo.Config.Line.{parse_line}
use nrtb_redo.Config.File.{
  newline, file_lines, warn, store, read_lines, read_named, read, include_name, lines_loop, getline,
  c_text, after_line,
}
use nrtb_redo.Config.Lines.{IsLine, file_lines-append}
use nrtb_redo.Config.Print.{not-IsSolid, IsEntry, print_line, parse_line-print_line}
use nrtb_redo.Config.Blank.{AreSpaces, comment_of, parse_line-blank, parse_line_nil}

-- One line for each entry.
pub print_file : Values → Bytes
print_file [] = []
print_file (e ∷ es) = print_line e ++ (newline ∷ print_file es)

abbrev pub insert_all : Values → Values → Values
insert_all [] vs = vs
insert_all ((name, value) ∷ es) vs = insert_all es (insert_value name value vs)

-- An entry that can be written as a line of its own and is not a directive.
abbrev pub IsPrintable : Bytes × Bytes → Type 0
IsPrintable e = IsEntry e × IsLine (print_line e) × (same_bytes e.0 include_name ≡ false)

file_lines-print_file :
    (es : Values) (rest : Bytes)
    → All IsPrintable es
    → file_lines (print_file es ++ rest) ≡ map print_line es ++ file_lines rest
unfolding print_file
file_lines-print_file [] rest h = refl
file_lines-print_file (e ∷ es) rest ((_, l, _), h) =
    ap file_lines (append_assoc (print_line e) (newline ∷ print_file es) rest)
    ∙ file_lines-append (print_line e) (print_file es ++ rest) l
    ∙ ap (◌∷◌ (print_line e)) (file_lines-print_file es rest h)

insert_all-IsSorted : (es vs : Values) → IsSorted vs → IsSorted (insert_all es vs)
insert_all-IsSorted [] vs s = s
insert_all-IsSorted ((k, w) ∷ es) vs s =
    insert_all-IsSorted es (insert_value k w vs) (insert_value-IsSorted k w vs s)

pub matching-cons :
    (k : Bytes) (e : Bytes × Bytes) (es : Values)
    → matching k (e ∷ []) ++ matching k es ≡ matching k (e ∷ es)
matching-cons k (j, w) es = elim (Bool-cases (same_bytes j k)) [ inl e ↦ rw e | inr e ↦ rw e ]

matching-insert_all :
    (k : Bytes) (es vs : Values)
    → IsSorted vs
    → matching k (insert_all es vs) ≡ matching k vs ++ matching k es
matching-insert_all k [] vs s = sym (append-nil (matching k vs))
matching-insert_all k ((j, w) ∷ es) vs s =
    matching-insert_all k es (insert_value j w vs) (insert_value-IsSorted j w vs s)
    ∙ ap (λ xs. xs ++ matching k es) (matching-insert_value k j w vs s)
    ∙ append_assoc (matching k vs) (matching k ((j, w) ∷ [])) (matching k es)
    ∙ ap (◌++◌ (matching k vs)) (matching-cons k (j, w) es)

all-insert_all : (k : Bytes) (es : Values) → all k (insert_all es []) ≡ matching k es
all-insert_all k es =
    all-matching k (insert_all es []) (insert_all-IsSorted es [] tt)
    ∙ matching-insert_all k es [] tt

-- Before the first line is read.
abbrev pub opened : Bytes → Config → Config
opened name c = record { values = []; filename = name; warnings = c.warnings }

abbrev pub loaded : Values → Config → Config
loaded es c = record c { values = insert_all es c.values }

store-cons :
    (n : ℕ) (name value : Bytes) (c : Config)
    → store (n ∷ name) value c ≡ record c { values = insert_value (n ∷ name) value c.values }
unfolding store
store-cons n name value c = refl

module _ (fs : Bytes → Option Bytes) (include : Bytes → Config → Option Config) where
  pub read_lines_entry :
      (line : Bytes) (lines : List Bytes) (c : Config) (name value : Bytes)
      → parse_line line ≡ returns (some (name, value))
      → same_bytes name include_name ≡ false
      → read_lines fs include (line ∷ lines) c ≡ read_lines fs include lines (store name value c)
  unfolding read_lines
  read_lines_entry line lines c name value p i = rw (p, read_lines, i)

  pub read_lines_skip :
      (line : Bytes) (lines : List Bytes) (c : Config)
      → parse_line line ≡ returns none
      → read_lines fs include (line ∷ lines) c ≡ read_lines fs include lines c
  unfolding read_lines
  read_lines_skip line lines c p = rw (p, read_lines)

  pub read_lines_throws :
      (line : Bytes) (lines : List Bytes) (c : Config) (e : TextError)
      → parse_line line ≡ throws e
      → read_lines fs include (line ∷ lines) c ≡ some (warn c)
  unfolding read_lines
  read_lines_throws line lines c e p = rw (p, read_lines)

  read_lines-print_line :
      (es : Values) (lines : List Bytes) (c : Config)
      → All IsPrintable es
      → read_lines fs include (map print_line es ++ lines) c
        ≡ read_lines fs include lines (loaded es c)
  read_lines-print_line [] lines c h = refl
  read_lines-print_line (([], value) ∷ es) lines c (((_, s, _), _, _), h) = absurd (not-IsSolid s)
  read_lines-print_line ((n ∷ name, value) ∷ es) lines c ((entry, _, i), h) =
      read_lines_entry (print_line (n ∷ name, value)) (map print_line es ++ lines) c (n ∷ name)
        value (parse_line-print_line (n ∷ name, value) entry) i
      ∙ ap (read_lines fs include (map print_line es ++ lines)) (store-cons n name value c)
      ∙ read_lines-print_line es lines
          (record c { values = insert_value (n ∷ name) value c.values }) h

module _ (fs : Bytes → Option Bytes) (depth n : ℕ) (name : Bytes) (c : Config) where
  read-opened :
      (text : Bytes)
      → fs (n ∷ name) ≡ some text
      → read fs (suc depth) (n ∷ name) true c
        ≡ read_lines fs
            (λ file d. read fs depth file false d)
            (file_lines text)
            (opened (n ∷ name) c)
  unfolding read read_named clear
  read-opened text f = rw f

  file_lines_end : file_lines [] ≡ [] ∷ []
  unfolding file_lines lines_loop getline after_line c_text
  file_lines_end = refl

  read_lines_end :
      (include : Bytes → Config → Option Config) (d : Config)
      → read_lines fs include (file_lines []) d ≡ some d
  read_lines_end include d =
      ap (λ ls. read_lines fs include ls d) file_lines_end
      ∙ read_lines_skip fs include [] [] d (parse_line_nil)
      ∙ unfold read_lines in refl

  read_printed :
      (es : Values) (rest : Bytes)
      → fs (n ∷ name) ≡ some (print_file es ++ rest)
      → All IsPrintable es
      → read fs (suc depth) (n ∷ name) true c
        ≡ read_lines fs
            (λ file d. read fs depth file false d)
            (file_lines rest)
            (loaded es (opened (n ∷ name) c))
  read_printed es rest f h =
      read-opened (print_file es ++ rest) f
      ∙ ap (λ ls. read_lines fs (λ file d. read fs depth file false d) ls (opened (n ∷ name) c))
          (file_lines-print_file es rest h)
      ∙ read_lines-print_line fs (λ file d. read fs depth file false d) es (file_lines rest)
          (opened (n ∷ name) c) h

module _ (fs : Bytes → Option Bytes) where
  -- A file of one line for each entry, every `#` escaped: `read` takes in just these entries, without
  -- a warning, and then `all` gives the values of a name in the order in which they stand in the file.
  -- An entry has a name without blanks that is not the include directive, a value that neither starts
  -- nor ends with a blank, and a line without newlines and zero bytes that fits in the buffer.
  pub read-print_file :
      (depth n : ℕ) (name : Bytes) (c : Config) (es : Values)
      → fs (n ∷ name) ≡ some (print_file es)
      → All IsPrintable es
      → (read fs (suc depth) (n ∷ name) true c ≡ some (loaded es (opened (n ∷ name) c)))
        × ((k : Bytes) → all k (insert_all es []) ≡ matching k es)
  read-print_file depth n name c es f h = (
    read_printed fs depth n name c es [] (f ∙ ap some (sym (append-nil (print_file es)))) h
        ∙ read_lines_end fs depth n name c (λ file d. read fs depth file false d)
            (loaded es (opened (n ∷ name) c)),
    (λ k. all-insert_all k es),
  )

  -- A line of blanks, also when a comment follows them, ends the reading of the file with a warning:
  -- the entries in front of it are stored and nothing of the rest is, whatever it holds.
  pub read_blank_line :
      (depth n : ℕ) (name : Bytes) (c : Config) (es : Values) (b : ℕ) (blanks : Bytes)
      (comment : Option Bytes) (rest : Bytes)
      → fs (n ∷ name)
        ≡ some (print_file es ++ (((b ∷ blanks) ++ comment_of comment) ++ (newline ∷ rest)))
      → All IsPrintable es
      → AreSpaces (b ∷ blanks)
      → IsLine ((b ∷ blanks) ++ comment_of comment)
      → read fs (suc depth) (n ∷ name) true c ≡ some (warn (loaded es (opened (n ∷ name) c)))
  read_blank_line depth n name c es b blanks comment rest f h s l =
      let line : Bytes = (b ∷ blanks) ++ comment_of comment in
      let include : Bytes → Config → Option Config = λ file d. read fs depth file false d in
      let got : Config = loaded es (opened (n ∷ name) c) in
      read_printed fs depth n name c es (line ++ (newline ∷ rest)) f h
      ∙ ap (λ ls. read_lines fs include ls got) (file_lines-append line rest l)
      ∙ read_lines_throws fs include line (file_lines rest) got gsub_exception
          (parse_line-blank b blanks comment s)
