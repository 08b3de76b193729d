-- ===== src/Config/Line.antt =====
-- One line of a configuration file: the comment is cut off, the rest is split in name and value.
use nrtb_redo.Common.{
  ℕ, zero, suc, ◌+◌, ◌≤◌, ◌≡◌, ◌≢◌, subst, refl, sym, ap, ◌∙◌, Bool, true, false, ◌&&◌, not, [],
  ◌∷◌, ◌++◌, Option, none, some, if◌then◌else◌, length, take, drop, get_elem?, ◌==◌, ==_iff,
  Bool-cases, inl, inr, arith, length-append, drop-length-append, take-length-append, append_assoc,
  append-nil,
}
use nrtb_redo.Common.Bytes.{Bytes, codes, find_byte, first_of_set, Lacks}
use nrtb_redo.Common.Outcome.{Outcome, returns, undefined, ◌>>=◌}
use nrtb_redo.Text.Gsub.{TextError, gsub}
use nrtb_redo.Text.Trim.{trim}
use nrtb_redo.Text.Trim.Solid.{last_of}
use nrtb_redo.Text.Split.{find_byte-Found}

abbrev pub hash : ℕ
hash = b'#'

abbrev pub backslash : ℕ
backslash = b'\\'

-- What ends a name.
abbrev pub split_set : Bytes
split_set = codes "\t "

-- Up to the first comment character that does not follow a backslash; `prev` is the byte in front.
unfoldable pub uncommented : ℕ → Bytes → Bytes
uncommented prev [] = []
uncommented prev (c ∷ s) = if c == hash && not (prev == backslash) then [] else c ∷ uncommented c s

uncommented-Lacks : (p : ℕ) (s : Bytes) → Lacks hash s → uncommented p s ≡ s
unfolding uncommented
uncommented-Lacks p [] l = refl
uncommented-Lacks p (c ∷ s) (h, l) = rw (uncommented-Lacks c s l) (ground (arith, ==_iff c hash))

pub uncommented_past :
    (p : ℕ) (pre s : Bytes)
    → Lacks hash pre
    → uncommented p (pre ++ s) ≡ pre ++ uncommented (last_of p pre) s
unfolding uncommented
uncommented_past p [] s l = refl
uncommented_past p (c ∷ pre) s (h, l) =
    rw (uncommented_past c pre s l) (ground (arith, ==_iff c hash))

pub last_of-append : (p : ℕ) (xs ys : Bytes) → last_of p (xs ++ ys) ≡ last_of (last_of p xs) ys
last_of-append p [] ys = refl
last_of-append p (x ∷ xs) ys = last_of-append x xs ys

-- `in[where-1]`, out of range for a comment character that is the first byte.
abbrev pub preceding : Bytes → ℕ → Option ℕ
preceding in_text zero = none
preceding in_text (suc k) = get_elem? in_text k

-- The fuel is the length of the line; each round goes past a comment character.
unfoldable pub comment_loop : ℕ → ℕ → Bytes → Outcome TextError Bytes
comment_loop zero from in_text = returns in_text
comment_loop (suc fuel) from in_text = elim (find_byte hash (drop from in_text)) [
  | none ↦ returns in_text
  | some loc ↦ elim (preceding in_text (from + loc)) [
    | none ↦ undefined
    | some c ↦ elim (c == backslash) [
      | true ↦ comment_loop fuel (from + loc + 1) in_text
      | false ↦ returns (take (from + loc) in_text)
    ]
  ]
]

unfoldable pub cut_comment : Bytes → Outcome TextError Bytes
unfolding comment_loop
cut_comment in_text = comment_loop (length in_text) 0 in_text

-- What is left of the line, split; `none` for a line without a value.
unfoldable pub parse_text : Bytes → Outcome TextError (Option (Bytes × Bytes))
parse_text in_text = elim (first_of_set split_set in_text) [
  | none ↦ returns none
  | some split_point ↦ do
    name ← gsub (trim (take split_point in_text)) (codes "\\#") (codes "#")
    value ← gsub (trim (drop split_point in_text)) (codes "\\#") (codes "#")
    returns (some (name, value))
]

unfoldable pub parse_line : Bytes → Outcome TextError (Option (Bytes × Bytes))
unfolding cut_comment parse_text
parse_line line = cut_comment line >>= (λ in_text. parse_text (trim in_text))

-- The first byte is no comment character.
abbrev pub IsLed : Bytes → Type 0
IsLed [] = Unit
IsLed (c ∷ s) = c ≢ hash

preceding_end :
    (front ys : Bytes)
    → front ≢ []
    → preceding (front ++ ys) (length front) ≡ some (last_of 0 front)
preceding_end [] ys h = absurd (h refl)
preceding_end (x ∷ xs) ys h = at_end x xs
  where
    at_end : (x : ℕ) (xs : Bytes) → get_elem? (x ∷ xs ++ ys) (length xs) ≡ some (last_of x xs)
    at_end x [] = refl
    at_end x (y ∷ xs) = at_end y xs

IsLed-nonempty : (front post : Bytes) → IsLed (front ++ (hash ∷ post)) → front ≢ []
IsLed-nonempty [] post led e = led refl
IsLed-nonempty (c ∷ front) post led e = cc

comment_loop-none :
    (fuel : ℕ) (from : ℕ) (in_text : Bytes)
    → find_byte hash (drop from in_text) ≡ none
    → comment_loop (suc fuel) from in_text ≡ returns in_text
unfolding comment_loop
comment_loop-none fuel from in_text e = rw (e, comment_loop)

comment_loop-some :
    (fuel : ℕ) (from loc c : ℕ) (in_text : Bytes) (b : Bool)
    → find_byte hash (drop from in_text) ≡ some loc
    → preceding in_text (from + loc) ≡ some c
    → (c == backslash) ≡ b
    → comment_loop (suc fuel) from in_text ≡ (
        if b
        then comment_loop fuel (from + loc + 1) in_text
        else returns (take (from + loc) in_text))
unfolding comment_loop
comment_loop-some fuel from loc c in_text true e f t = rw (e, comment_loop, f, t)
comment_loop-some fuel from loc c in_text false e f t = rw (e, comment_loop, f, t)

-- At a comment character, when what follows is dealt with.
at_hash :
    (fuel from loc : ℕ) (front post : Bytes)
    → front ≢ []
    → from + loc ≡ length front
    → find_byte hash (drop from (front ++ (hash ∷ post))) ≡ some loc
    → comment_loop fuel (length (front ++ (hash ∷ []))) ((front ++ (hash ∷ [])) ++ post)
      ≡ returns ((front ++ (hash ∷ [])) ++ uncommented hash post)
    → comment_loop (suc fuel) from (front ++ (hash ∷ post))
      ≡ returns (front ++ uncommented (last_of 0 front) (hash ∷ post))
unfolding uncommented
at_hash fuel from loc front post some_ at e later =
    let in_front : preceding (front ++ (hash ∷ post)) (from + loc) ≡ some (last_of 0 front) =
      ap (preceding (front ++ (hash ∷ post))) at ∙ preceding_end front (hash ∷ post) some_ in
    elim (Bool-cases (last_of 0 front == backslash)) [
      | inl escaped ↦
          comment_loop-some fuel from loc (last_of 0 front) (front ++ (hash ∷ post)) true e in_front
            escaped
          ∙ rw escaped (
              ap (λ n. comment_loop fuel n (front ++ (hash ∷ post)))
                (omega (arith, at, length-append front (hash ∷ [])))
              ∙ ap (comment_loop fuel (length (front ++ (hash ∷ []))))
                  (sym (append_assoc front (hash ∷ []) post))
              ∙ later
              ∙ ap returns (append_assoc front (hash ∷ []) (uncommented hash post)))
      | inr plain ↦
          comment_loop-some fuel from loc (last_of 0 front) (front ++ (hash ∷ post)) false e
            in_front plain
          ∙ rw (plain, at)
              (ap returns (take-length-append front (hash ∷ post) ∙ sym (append-nil front)))
    ]

comment_loop-uncommented :
    (fuel : ℕ) (pre rest : Bytes)
    → length rest ≤ fuel
    → IsLed (pre ++ rest)
    → comment_loop fuel (length pre) (pre ++ rest)
      ≡ returns (pre ++ uncommented (last_of 0 pre) rest)
comment_loop-uncommented zero pre [] k led = unfold comment_loop uncommented in refl
comment_loop-uncommented zero pre (c ∷ rest) k led = absurd (omega arith)
comment_loop-uncommented (suc fuel) pre rest k led = elim (find_byte-Found hash rest) [
  | inl (e, l) ↦
      comment_loop-none fuel (length pre) (pre ++ rest) (rw (drop-length-append pre rest) e)
      ∙ ap (λ u. returns (pre ++ u)) (sym (uncommented-Lacks (last_of 0 pre) rest l))
  | inr (front, post, e, h, l) ↦
      let upto = pre ++ front in
      let there : pre ++ rest ≡ upto ++ (hash ∷ post) =
        ap (◌++◌ pre) h ∙ sym (append_assoc pre front (hash ∷ post)) in
      let found : find_byte hash (drop (length pre) (upto ++ (hash ∷ post))) ≡ some (length front) =
        rw (sym there) (rw (drop-length-append pre rest) e) in
      let shorter : length post ≤ fuel =
        omega (arith, ap length h, length-append front (hash ∷ post)) in
      let led_there : IsLed (upto ++ (hash ∷ post)) = subst IsLed there led in
      let later =
        comment_loop-uncommented fuel (upto ++ (hash ∷ [])) post shorter
          (subst IsLed (sym (append_assoc upto (hash ∷ []) post)) led_there) in
      let ends : last_of 0 (upto ++ (hash ∷ [])) ≡ hash = last_of-append 0 upto (hash ∷ []) in
      ap (comment_loop (suc fuel) (length pre)) there
      ∙ at_hash fuel (length pre) (length front) upto post (IsLed-nonempty upto post led_there)
          (sym (length-append pre front)) found (later ∙ rw ends refl)
      ∙ rw (last_of-append 0 pre front, append_assoc)
          (ap (λ u. returns (pre ++ u))
            (sym (uncommented_past (last_of 0 pre) front (hash ∷ post) l)
              ∙ ap (uncommented (last_of 0 pre)) (sym h)))
]

-- On a line that does not start with `#`, the search from comment character to comment character cuts
-- where the recursion with the byte in front ends: at the first `#` that no backslash precedes. On a line
-- that starts with `#` it reads out of range.
pub cut_comment_lem :
    (s : Bytes)
    → (IsLed s → cut_comment s ≡ returns (uncommented 0 s)) × (cut_comment (hash ∷ s) ≡ undefined)
unfolding cut_comment find_byte
cut_comment_lem s = (
  (λ led. comment_loop-uncommented (length s) [] s (omega arith) led),
  unfold comment_loop in refl,
)
