-- ===== src/Config/Print.antt =====
-- Lines written for the reader: a `#` is escaped, a blank stands between name and value.
use nrtb_redo.Common.{
  ℕ, ◌≡◌, ◌≢◌, refl, sym, ap, ◌∙◌, subst, false, [], ◌∷◌, ◌++◌, some, length, ◌==◌, ◌&&◌, ◌&&◌,
  ==_iff, Bool-cases, inl, inr, arith, All, take-length-append, drop-length-append, append-nil,
}
use nrtb_redo.Common.Bytes.{Bytes, codes, one_of, first_of_set, starts_with}
use nrtb_redo.Common.Outcome.{returns, ◌>>=◌}
use nrtb_redo.Text.Gsub.{gsub, gsub_lem, replace, expand, swap_byte}
use nrtb_redo.Text.Trim.{ws, trim}
use nrtb_redo.Text.Trim.Solid.{first_of, last_of, IsSolid, trim-IsSolid, trim_past}
use nrtb_redo.Config.Line.{
  split_set, hash, backslash, uncommented, last_of-append, cut_comment, cut_comment_lem, parse_text,
  parse_line, IsLed,
}

abbrev pub escape : Bytes → Bytes
escape = expand (swap_byte hash (codes "\\#"))

-- An escaped text does not start with `#`.
escape_dark : (s : Bytes) → starts_with (hash ∷ []) (escape s) ≡ false
unfolding starts_with
escape_dark [] = refl
escape_dark (c ∷ s) = ground (arith, ==_iff hash c)

replace-escape : (s : Bytes) → replace backslash (hash ∷ []) (codes "#") 0 (escape s) ≡ s
unfolding replace starts_with
replace-escape [] = refl
replace-escape (c ∷ s) = elim (Bool-cases (hash == c)) [
  | inl e ↦ rw (e, replace-escape s) (ap (λ d. d ∷ s) ((==_iff hash c).0 e))
  | inr e ↦ rw (e, plain) (ap (◌∷◌ c) (replace-escape s))
]
  where
    plain : (backslash == c && starts_with (hash ∷ []) (escape s)) ≡ false
    plain = rw (escape_dark s) (ground arith)

uncommented-escape :
    (p : ℕ) (s t : Bytes) → uncommented p (escape s ++ t) ≡ escape s ++ uncommented (last_of p s) t
unfolding uncommented
uncommented-escape p [] t = refl
uncommented-escape p (c ∷ s) t = elim (Bool-cases (hash == c)) [
  | inl e ↦ rw (e, (==_iff hash c).0 e, uncommented-escape c s t)
  | inr e ↦ rw (e, uncommented-escape c s t) (ground (arith, e))
]

first_of-escape : (p : ℕ) (s : Bytes) → one_of ws (first_of p (escape s)) ≡ one_of ws (first_of p s)
first_of-escape p [] = refl
first_of-escape p (c ∷ s) = elim (Bool-cases (hash == c)) [
  | inl e ↦ rw (e, sym ((==_iff hash c).0 e)) (unfold one_of in refl)
  | inr e ↦ rw e
]

last_of-escape : (p : ℕ) (s : Bytes) → last_of p (escape s) ≡ last_of p s
last_of-escape p [] = refl
last_of-escape p (c ∷ s) = elim (Bool-cases (hash == c)) [
  | inl e ↦ rw (e, sym ((==_iff hash c).0 e)) (last_of-escape hash s)
  | inr e ↦ rw e (last_of-escape c s)
]

escape-IsSolid : (s : Bytes) → IsSolid s → IsSolid (escape s)
escape-IsSolid s (f, l) = (first_of-escape b' ' s ∙ f, ap (one_of ws) (last_of-escape b' ' s) ∙ l)

abbrev pub AreDark : Bytes → Type 0
AreDark = All (λ c. one_of ws c ≡ false)

AreDark-IsSolid : (c : ℕ) (s : Bytes) → AreDark (c ∷ s) → IsSolid (c ∷ s)
AreDark-IsSolid c [] (h, l) = (h, h)
AreDark-IsSolid c (d ∷ s) (h, l) = (h, (AreDark-IsSolid d s l).1)

escape-AreDark : (s : Bytes) → AreDark s → AreDark (escape s)
escape-AreDark [] l = tt
escape-AreDark (c ∷ s) (h, l) = elim (Bool-cases (hash == c)) [
  | inl e ↦ rw e (unfold one_of in refl, (unfold one_of in refl, escape-AreDark s l))
  | inr e ↦ rw e (h, escape-AreDark s l)
]

first_of_set-AreDark :
    (s t : Bytes) → AreDark s → first_of_set split_set (s ++ (b' ' ∷ t)) ≡ some (length s)
unfolding first_of_set one_of
first_of_set-AreDark [] t l = refl
first_of_set-AreDark (c ∷ s) t (h, l) = rw (first_of_set-AreDark s t l, dark) refl
  where
    dark : one_of split_set c ≡ false
    dark = ground (arith, h)

gsub-cons :
    (s : Bytes) (h : ℕ) (t putme : Bytes)
    → s ≢ []
    → gsub s (h ∷ t) putme ≡ returns (replace h t putme 0 s)
gsub-cons [] h t putme k = absurd (k refl)
gsub-cons (c ∷ s) h t putme k = gsub_lem (c ∷ s) (h ∷ t) putme

escape_cons : (c : ℕ) (s : Bytes) → escape (c ∷ s) ≢ []
escape_cons c s = elim (Bool-cases (hash == c)) [ inl e ↦ rw e (λ k. cc) | inr e ↦ rw e (λ k. cc) ]

gsub-escape : (s : Bytes) → s ≢ [] → gsub (escape s) (codes "\\#") (codes "#") ≡ returns s
gsub-escape [] k = absurd (k refl)
gsub-escape (c ∷ s) k =
    gsub-cons (escape (c ∷ s)) backslash (hash ∷ []) (codes "#") (escape_cons c s)
    ∙ ap returns (replace-escape (c ∷ s))

pub not-IsSolid : ¬ IsSolid []
unfolding one_of
not-IsSolid (f, l) = cc

IsSolid-nonempty : (s : Bytes) → IsSolid s → s ≢ []
IsSolid-nonempty s h e = not-IsSolid (subst IsSolid e h)

-- A name of one word and a value that neither starts nor ends with a blank.
abbrev pub IsEntry : Bytes × Bytes → Type 0
IsEntry (name, value) = AreDark name × IsSolid name × IsSolid value

-- The text of one entry.
unfoldable pub print_line : Bytes × Bytes → Bytes
print_line (name, value) = escape name ++ (b' ' ∷ escape value)

uncommented_whole : (p : ℕ) (s : Bytes) → uncommented p (escape s) ≡ escape s
uncommented_whole p s =
    ap (uncommented p) (sym (append-nil (escape s)))
    ∙ uncommented-escape p s []
    ∙ unfold uncommented in append-nil (escape s)

uncommented_space : (p : ℕ) (s : Bytes) → uncommented p (b' ' ∷ s) ≡ b' ' ∷ uncommented b' ' s
unfolding uncommented
uncommented_space p s = refl

first_of-append : (s t : Bytes) → IsSolid s → first_of b' ' (s ++ t) ≡ first_of b' ' s
first_of-append [] t h = absurd (not-IsSolid h)
first_of-append (c ∷ s) t h = refl

append-IsSolid : (s t : Bytes) → IsSolid s → IsSolid t → IsSolid (s ++ (b' ' ∷ t))
append-IsSolid s t hs ht = (
  ap (one_of ws) (first_of-append s (b' ' ∷ t) hs) ∙ hs.0,
  ap (one_of ws) (last_of-append b' ' s (b' ' ∷ t)) ∙ ht.1,
)

-- A printed line does not start with `#`.
print_line-IsLed : (e : Bytes × Bytes) → IsLed (print_line e)
unfolding print_line
print_line-IsLed ([], value) = λ e. absurd (omega (arith, e))
print_line-IsLed (c ∷ name, value) = elim (Bool-cases (hash == c)) [
  | inl e ↦ rw e (λ k. absurd (omega (arith, k)))
  | inr e ↦ rw e (λ k. ground (arith, e, k))
]

cut_comment-print_line : (e : Bytes × Bytes) → cut_comment (print_line e) ≡ returns (print_line e)
unfolding print_line
cut_comment-print_line (name, value) =
    (cut_comment_lem (print_line (name, value))).0 (print_line-IsLed (name, value))
    ∙ ap returns (
        uncommented-escape 0 name (b' ' ∷ escape value)
        ∙ ap (◌++◌ (escape name)) (
            uncommented_space (last_of 0 name) (escape value)
            ∙ ap (◌∷◌ b' ') (uncommented_whole b' ' value)))

parse_fields :
    (text front back name value : Bytes)
    → text ≡ front ++ back
    → first_of_set split_set (front ++ back) ≡ some (length front)
    → gsub (trim front) (codes "\\#") (codes "#") ≡ returns name
    → gsub (trim back) (codes "\\#") (codes "#") ≡ returns value
    → parse_text text ≡ returns (some (name, value))
unfolding parse_text
parse_fields text front back name value t f n v =
    rw t (rw (f, parse_text, take-length-append front back, drop-length-append front back, n, v))

-- A line written from a name without blanks and a value that starts and ends with none, with every
-- `#` escaped, is parsed into that name and value, whatever else the two hold.
pub parse_line-print_line :
    (e : Bytes × Bytes) → IsEntry e → parse_line (print_line e) ≡ returns (some e)
unfolding parse_line print_line
parse_line-print_line (name, value) (dark, hn, hv) =
    let en = escape-IsSolid name hn in
    let ev = escape-IsSolid value hv in
    ap (λ o. o >>= (λ in_text. parse_text (trim in_text))) (cut_comment-print_line (name, value))
    ∙ parse_fields (trim (print_line (name, value))) (escape name) (b' ' ∷ escape value) name value
        (trim-IsSolid (print_line (name, value))
          (append-IsSolid (escape name) (escape value) en ev))
        (first_of_set-AreDark (escape name) (escape value) (escape-AreDark name dark))
        (ap (λ s. gsub s (codes "\\#") (codes "#")) (trim-IsSolid (escape name) en)
          ∙ gsub-escape name (IsSolid-nonempty name hn))
        (ap (λ s. gsub s (codes "\\#") (codes "#"))
            (trim_past b' ' (escape value) (unfold one_of in refl) ev)
          ∙ gsub-escape value (IsSolid-nonempty value hv))
