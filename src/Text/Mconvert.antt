-- ===== src/Text/Mconvert.antt =====
-- `mconvert`, which escapes a text for a query by four calls of `gsub`.
use nrtb_redo.Common.{
  ℕ, ◌≡◌, ◌≢◌, refl, ap, ◌∙◌, Bool, true, false, ◌||◌, Option, none, some, [], ◌∷◌, ◌++◌, arith,
  ◌==◌, if◌then◌else◌,
}
use nrtb_redo.Common.Bytes.{Bytes, codes}
use nrtb_redo.Common.Outcome.{Outcome, returns, ◌>>=◌}
use nrtb_redo.Text.Gsub.{TextError, gsub, gsub_byte, expand, expand-append, swap_byte}
use mathlib.Core.Option
use mathlib.Core.Path.{ap₂}
use mathlib.Core.List.{cons-ne-nil}

unfoldable pub mconvert : Bytes → Outcome TextError Bytes
mconvert [] = returns []
mconvert (c ∷ s) = do
  a ← gsub (c ∷ s) (codes "\\") (codes "\\\\")
  b ← gsub a (codes "'") (codes "\\'")
  d ← gsub b (codes "\"") (codes "\\\"")
  gsub d (0 ∷ []) (codes "\\0")

-- Backslash, quote, double quote and the byte 0 get a backslash before them; 0 becomes the digit 0.
abbrev pub escape_byte : ℕ → Bytes
escape_byte c =
    if c == b'\\'
    then codes "\\\\"
    else if c == b'\''
    then codes "\\'"
    else if c == b'"'
    then codes "\\\""
    else if c == 0
    then codes "\\0"
    else c ∷ []

passes : Bytes → Bytes
passes s = expand (swap_byte 0 (codes "\\0")) (
    expand (swap_byte b'"' (codes "\\\""))
      (expand (swap_byte b'\'' (codes "\\'")) (expand (swap_byte b'\\' (codes "\\\\")) s)))

passes-append : (s t : Bytes) → passes (s ++ t) ≡ passes s ++ passes t
unfolding passes
passes-append s t = simp expand-append

passes_byte : (c : ℕ) → passes (c ∷ []) ≡ escape_byte c
unfolding passes
passes_byte c = ground arith

passes-expand : (s : Bytes) → passes s ≡ expand escape_byte s
unfolding passes
passes-expand [] = refl
passes-expand (c ∷ s) =
    passes-append (c ∷ []) s ∙ ap₂ (λ (x y : Bytes). x ++ y) (passes_byte c) (passes-expand s)

expand-ne-nil : (b p : ℕ) (ps s : Bytes) → s ≢ [] → expand (swap_byte b (p ∷ ps)) s ≢ []
expand-ne-nil b p ps [] h = h
expand-ne-nil b p ps (c ∷ s) h = ground arith

gsub_byte_ne :
    (s : Bytes) (b : ℕ) (putme : Bytes)
    → s ≢ []
    → gsub s (b ∷ []) putme ≡ returns (expand (swap_byte b putme) s)
gsub_byte_ne [] b putme h = absurd (h refl)
gsub_byte_ne (c ∷ s) b putme h = gsub_byte c s b putme

mconvert-expand : (s : Bytes) → mconvert s ≡ returns (expand escape_byte s)
unfolding mconvert passes
mconvert-expand [] = refl
mconvert-expand (c ∷ s) =
    let a : Bytes = expand (swap_byte b'\\' (codes "\\\\")) (c ∷ s) in
    let b : Bytes = expand (swap_byte b'\'' (codes "\\'")) a in
    let d : Bytes = expand (swap_byte b'"' (codes "\\\"")) b in
    let a_ne : a ≢ [] = expand-ne-nil _ _ _ (c ∷ s) (cons-ne-nil c s) in
    let b_ne : b ≢ [] = expand-ne-nil _ _ _ a a_ne in
    let d_ne : d ≢ [] = expand-ne-nil _ _ _ b b_ne in
    rw
      (
        gsub_byte c s b'\\' (codes "\\\\"),
        gsub_byte_ne a b'\'' (codes "\\'") a_ne,
        gsub_byte_ne b b'"' (codes "\\\"") b_ne,
        gsub_byte_ne d 0 (codes "\\0") d_ne,
      )
      (ap returns (passes-expand (c ∷ s)))

-- A reader of escaped text: a backslash takes the next byte as it is, and the digit 0 for the byte 0;
-- a quote or a byte 0 that no backslash precedes is refused.
pub decode : Bool → Bytes → Option Bytes
decode true [] = none
decode false [] = some []
decode true (c ∷ s) = Option.map (◌∷◌ (if c == b'0' then 0 else c)) (decode false s)
decode false (c ∷ s) = elim (c == b'\\') [
  | true ↦ decode true s
  | false ↦
      if c == b'\'' || (c == b'"' || c == 0) then none else Option.map (◌∷◌ c) (decode false s)
]

decode-expand : (s : Bytes) → decode false (expand escape_byte s) ≡ some s
unfolding decode
decode-expand [] = refl
decode-expand (c ∷ s) = ground (arith, decode-expand s)

-- `mconvert` never throws, and what it returns is accepted by a reader of escaped text, which gives
-- the source back: no quote and no byte 0 is left without a backslash, and nothing is lost.
pub decode-mconvert :
    (s : Bytes) → (out : Bytes) × (mconvert s ≡ returns out) × (decode false out ≡ some s)
decode-mconvert s = (expand escape_byte s, mconvert-expand s, decode-expand s)
