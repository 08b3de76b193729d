-- ===== src/Config/Sorted.antt =====
-- The order of the values through whole runs of `read`.
use nrtb_redo.Common.{
  ℕ, zero, suc, ◌≡◌, refl, sym, subst, Bool, true, false, if◌then◌else◌, List, [], ◌∷◌, Option,
  none, some, Bool-cases, Option-cases, inl, inr,
}
use nrtb_redo.Common.Bytes.{Bytes, same_bytes}
use nrtb_redo.Common.Outcome.{Outcome, returns, throws, undefined}
use nrtb_redo.Text.Gsub.{TextError}
use nrtb_redo.Config.{Config, clear}
use nrtb_redo.Config.Order.{IsSorted, insert_value-IsSorted}
use nrtb_redo.Config.Line.{parse_line}
use nrtb_redo.Config.File.{
  file_lines, warn, store, read_lines, read_named, read, include_name, name_or,
}
use nrtb_redo.Config.Loaded.{read_lines_entry, read_lines_throws, read_lines_skip}

-- Nothing, or values in order.
abbrev pub Ordered : Option Config → Type 0
Ordered none = Unit
Ordered (some d) = IsSorted d.values

store-IsSorted :
    (name value : Bytes) (c : Config) → IsSorted c.values → IsSorted (store name value c).values
unfolding store
store-IsSorted [] value c s = s
store-IsSorted (n ∷ name) value c s = insert_value-IsSorted (n ∷ name) value c.values s

module _ (fs : Bytes → Option Bytes) where
  module _ (include : Bytes → Config → Option Config) (line : Bytes) (lines : List Bytes)
      (c : Config) where
    read_lines_undefined :
        parse_line line ≡ undefined → read_lines fs include (line ∷ lines) c ≡ none
    unfolding read_lines
    read_lines_undefined p = rw (p, read_lines)

    read_lines_include :
        (name value : Bytes) (o : Option Config)
        → parse_line line ≡ returns (some (name, value))
        → same_bytes name include_name ≡ true
        → include value c ≡ o
        → read_lines fs include (line ∷ lines) c
          ≡ (elim o [ none ↦ none | some d ↦ read_lines fs include lines d ])
    unfolding read_lines
    read_lines_include name value o p i q = rw (p, read_lines, i, q)

    -- One line, when includes and the lines behind it keep the order.
    line-Ordered :
        (o : Outcome TextError (Option (Bytes × Bytes)))
        → parse_line line ≡ o
        → ((file : Bytes) (d : Config) → IsSorted d.values → Ordered (include file d))
        → ((d : Config) → IsSorted d.values → Ordered (read_lines fs include lines d))
        → IsSorted c.values
        → Ordered (read_lines fs include (line ∷ lines) c)
    line-Ordered undefined p keeps later s = subst Ordered (sym (read_lines_undefined p)) tt
    line-Ordered (throws e) p keeps later s =
        subst Ordered (sym (read_lines_throws fs include line lines c e p)) (unfold warn in s)
    line-Ordered (returns none) p keeps later s =
        subst Ordered (sym (read_lines_skip fs include line lines c p)) (later c s)
    line-Ordered (returns (some (name, value))) p keeps later s =
        elim (Bool-cases (same_bytes name include_name)) [
          | inr i ↦
              subst Ordered (sym (read_lines_entry fs include line lines c name value p i))
                (later (store name value c) (store-IsSorted name value c s))
          | inl i ↦ elim (Option-cases (include value c)) [
            | inl q ↦ subst Ordered (sym (read_lines_include name value none p i q)) tt
            | inr (d, q) ↦
                subst Ordered (sym (read_lines_include name value (some d) p i q))
                  (later d (subst Ordered q (keeps value c s)))
          ]
        ]

  read_lines-Ordered :
      (include : Bytes → Config → Option Config) (lines : List Bytes) (c : Config)
      → ((file : Bytes) (d : Config) → IsSorted d.values → Ordered (include file d))
      → IsSorted c.values
      → Ordered (read_lines fs include lines c)
  read_lines-Ordered include [] c keeps s = unfold read_lines in s
  read_lines-Ordered include (line ∷ lines) c keeps s =
      line-Ordered include line lines c (parse_line line) refl keeps
        (λ d t. read_lines-Ordered include lines d keeps t) s

  start :
      (wipe : Bool) (c : Config) → IsSorted c.values → IsSorted (if wipe then clear c else c).values
  unfolding clear
  start true c s = tt
  start false c s = s

  module _ (include : Bytes → Config → Option Config) (n : ℕ) (name : Bytes) (wipe : Bool)
      (c : Config) where
    read_named-none : fs (n ∷ name) ≡ none → read_named fs include (n ∷ name) wipe c ≡ some (warn c)
    unfolding read_named
    read_named-none f = rw (f, read_named)

    read_named-some :
        (text : Bytes)
        → fs (n ∷ name) ≡ some text
        → read_named fs include (n ∷ name) wipe c
          ≡ read_lines fs include (file_lines text) (if wipe then clear c else c)
    unfolding read_named
    read_named-some text f = rw (f, read_named)

  read_named-Ordered :
      (include : Bytes → Config → Option Config) (name : Bytes) (wipe : Bool) (c : Config)
      → ((file : Bytes) (d : Config) → IsSorted d.values → Ordered (include file d))
      → IsSorted c.values
      → Ordered (read_named fs include name wipe c)
  read_named-Ordered include [] wipe c keeps s = unfold read_named in s
  read_named-Ordered include (n ∷ name) wipe c keeps s = elim (Option-cases (fs (n ∷ name))) [
    | inl f ↦ subst Ordered (sym (read_named-none include n name wipe c f)) (unfold warn in s)
    | inr (text, f) ↦ subst Ordered (sym (read_named-some include n name wipe c text f)) (
        read_lines-Ordered include (file_lines text) (if wipe then clear c else c) keeps
          (start wipe c s))
  ]

  read_as_named :
      (depth : ℕ) (name : Bytes) (wipe : Bool) (c : Config)
      → Ordered (
          read_named fs
            (λ file d. read fs depth file false d)
            (name_or name c.filename)
            wipe
            (record c { filename = name_or name c.filename }))
      → Ordered (read fs (suc depth) name wipe c)
  unfolding read
  read_as_named depth name wipe c h = h

  -- Whatever a file holds and includes, `read` keeps the values in the order of their names.
  pub read-IsSorted :
      (depth : ℕ) (name : Bytes) (wipe : Bool) (c : Config)
      → IsSorted c.values
      → Ordered (read fs depth name wipe c)
  read-IsSorted zero name wipe c s = unfold read in tt
  read-IsSorted (suc depth) name wipe c s = read_as_named depth name wipe c (
      read_named-Ordered (λ file d. read fs depth file false d) (name_or name c.filename) wipe
        (record c { filename = name_or name c.filename })
        (λ file d t. read-IsSorted depth file false d t) s)
