-- ===== src/Text/Hex/Fuel.antt =====
-- `http_unhex` ends on every text, and what `http_hextochar` does with a short one.
use mathlib.Core.List.{cons-ne-nil}
use nrtb_redo.Common.{
  ℕ, zero, suc, ◌+◌, ◌*◌, ◌%◌, ◌^◌, ◌<◌, ◌≡◌, ◌≢◌, refl, ap, ◌∙◌, ◌⊎◌, some, [], ◌∷◌, ◌++◌, arith,
  length, length-append, take, drop, length-drop, inl, inr, take-length-append,
}
use nrtb_redo.Common.Bytes.{Bytes, find_byte}
use nrtb_redo.Common.Outcome.{Outcome, returns, throws, undefined, ◌>>=◌}
use nrtb_redo.Text.Gsub.{TextError}
use nrtb_redo.Text.Split.{find_byte-Found, drop_past}
use nrtb_redo.Text.Case.{upcase, changecase_lem, upper_byte}
use nrtb_redo.Text.Hex.{index, hexit_position, npos, http_hextochar, unhex_loop, http_unhex}

-- The cases of a call of `http_hextochar`.
abbrev Decodes : Bytes → Outcome TextError Bytes → Type 0
Decodes w o =
    ((c : ℕ) × (o ≡ returns (c ∷ [])) × (w ≢ []))
    ⊎ ((e : TextError) × (o ≡ throws e))
    ⊎ (o ≡ undefined)

pair-Decodes :
    (w : Bytes) (f : ℕ → ℕ → ℕ) (oa ob : Outcome TextError ℕ)
    → w ≢ []
    → Decodes w (oa >>= λ a. ob >>= λ b. returns (f a b ∷ []))
pair-Decodes w f (returns a) (returns b) h = inl (f a b, refl, h)
pair-Decodes w f (returns a) (throws e) h = inr (inl (e, refl))
pair-Decodes w f (returns a) undefined h = inr (inr refl)
pair-Decodes w f (throws e) ob h = inr (inl (e, refl))
pair-Decodes w f undefined ob h = inr (inr refl)

upcased-Decodes :
    (w : Bytes) (o : Outcome TextError Bytes) → upcase w ≡ o → w ≢ [] → Decodes w (http_hextochar w)
unfolding http_hextochar
upcased-Decodes w (returns u) e h =
    rw (e, http_hextochar)
      (pair-Decodes w (λ a b. ((16 * hexit_position a + hexit_position b) % 2 ^ 64) % 256)
        (index u 0) (index u 1) h)
upcased-Decodes w (throws x) e h = rw (e, http_hextochar) (inr (inl (x, refl)))
upcased-Decodes w undefined e h = rw (e, http_hextochar) (inr (inr refl))

http_hextochar-Decodes : (w : Bytes) → Decodes w (http_hextochar w)
http_hextochar-Decodes [] = unfold http_hextochar upcase in inr (inr refl)
http_hextochar-Decodes (c ∷ w) = upcased-Decodes (c ∷ w) (upcase (c ∷ w)) refl (cons-ne-nil c w)

-- One decoded group makes the text shorter.
shorter :
    (s pre post : Bytes) (b : ℕ)
    → s ≡ pre ++ (b ∷ post)
    → take 2 (drop (length pre + 1) s) ≢ []
    → (c : ℕ) → length (take (length pre) s ++ ((c ∷ []) ++ drop (length pre + 3) s)) < length s
shorter s pre [] b e h c =
    absurd (h (ap (λ x. take 2 (drop (length pre + 1) x)) e ∙ ap (take 2) (drop_past pre b [])))
shorter s pre (x ∷ post) b e h c =
    let front : take (length pre) s ≡ pre =
      ap (take (length pre)) e ∙ take-length-append pre (b ∷ x ∷ post) in
    omega (
      arith,
      length-append (take (length pre) s) (c ∷ drop (length pre + 3) s),
      ap length front,
      length-drop (length pre + 3) s,
      ap length e,
      length-append pre (b ∷ x ∷ post),
    )

unhex_loop_total :
    (fuel : ℕ) (s : Bytes)
    → length s < fuel
    → (o : Outcome TextError Bytes) × (unhex_loop fuel s ≡ some o)
unfolding unhex_loop
unhex_loop_total zero s k = absurd (omega arith)
unhex_loop_total (suc fuel) s k = elim (find_byte-Found b'%' s) [
  | inl (e, l) ↦ (returns s, rw (e, unhex_loop))
  | inr (pre, post, e, eq, l) ↦ elim (http_hextochar-Decodes (take 2 (drop (length pre + 1) s))) [
    | inl (c, d, ne) ↦
        rw (e, unhex_loop, d)
          (unhex_loop_total fuel _ (omega (arith, shorter s pre post b'%' eq ne c)))
    | inr (inl (x, d)) ↦ (throws x, rw (e, unhex_loop, d))
    | inr (inr d) ↦ (undefined, rw (e, unhex_loop, d))
  ]
]

-- `http_unhex` ends on every text, in a text, an exception or an access out of range: the rounds of
-- its loop are at most one more than the bytes.
pub http_unhex_total : (s : Bytes) → (o : Outcome TextError Bytes) × (http_unhex s ≡ some o)
unfolding http_unhex
http_unhex_total s = unhex_loop_total (length s + 1) s (omega arith)

-- `http_hextochar` throws nothing for fewer than two bytes: for none it is undefined, and one
-- byte is read with `npos` for its second hexit.
pub http_hextochar_short :
    (c : ℕ)
    → c < 256
    → (http_hextochar [] ≡ undefined)
      × (http_hextochar (c ∷ [])
          ≡ returns (((16 * hexit_position (upper_byte c) + npos) % 2 ^ 64 % 256) ∷ []))
unfolding http_hextochar index
http_hextochar_short c h =
    (unfold upcase in refl, rw ((changecase_lem (c ∷ []) (h, tt)).0, http_hextochar, hexit_zero))
  where
    hexit_zero : hexit_position 0 ≡ npos
    hexit_zero = unfold hexit_position find_byte in refl
