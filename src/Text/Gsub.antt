-- ===== src/Text/Gsub.antt =====
-- `gsub`. The text behind `okay_through` stands for the position; the fuel is the
-- length of the target, and each round consumes at least one byte.

use native.Mathlib.Nat.{zero-add}
use nrtb_redo.Common.{
  ℕ, zero, suc, ◌+◌, ◌≤◌, ◌≡◌, refl, ap, ◌∙◌, Bool, true, false, ◌||◌, none, some, [], ◌∷◌, ◌++◌,
  append_assoc, arith, length, length-append, take, drop, take-length-append, drop-length-append,
  inl, inr, Bool-cases, ==_iff, ◌⊎◌, ◌==◌, if◌then◌else◌,
}
use nrtb_redo.Common.Bytes.{Bytes, find_text, starts_with}
use nrtb_redo.Common.Outcome.{Outcome, returns, throws}

-- The exceptions of common.h.
pub data TextError : Type 0 where
  gsub_exception split_exception dateflip_exception : TextError
  translate_exception hextrans_exception rand_exception : TextError

unfoldable pub is_nil : Bytes → Bool
is_nil [] = true
is_nil (c ∷ s) = false

unfoldable pub gsub_loop : Bytes → Bytes → ℕ → Bytes → Bytes → Bytes
gsub_loop findme putme zero rest out = out ++ rest
gsub_loop findme putme (suc fuel) rest out = elim (find_text findme rest) [
  | none ↦ out ++ rest
  | some loc ↦
      gsub_loop findme putme fuel (drop (loc + length findme) rest)
        (out ++ (take loc rest ++ putme))
]

unfoldable pub gsub : Bytes → Bytes → Bytes → Outcome TextError Bytes
unfolding is_nil gsub_loop
gsub target findme putme =
    if is_nil findme || is_nil target
    then throws gsub_exception
    else returns (gsub_loop findme putme (length target) target [])

suc-add : (m n : ℕ) → suc m + n ≡ suc (m + n)
suc-add m n = omega arith

-- Leftmost replacement by recursion on the text; `skip` counts the bytes of a hit still to pass over.
module _ (h : ℕ) (t putme : Bytes) where
  unfoldable pub replace : ℕ → Bytes → Bytes
  replace skip [] = []
  replace (suc skip) (c ∷ s) = replace skip s
  replace zero (c ∷ s) =
      if starts_with (h ∷ t) (c ∷ s) then putme ++ replace (length t) s else c ∷ replace 0 s

  replace_past : (xs post : Bytes) → replace (length xs) (xs ++ post) ≡ replace 0 post
  unfolding replace
  replace_past [] post = refl
  replace_past (x ∷ xs) post = replace_past xs post

  starts_with-append : (p s : Bytes) → starts_with p s ≡ true → s ≡ p ++ drop (length p) s
  unfolding starts_with
  starts_with-append [] s e = refl
  starts_with-append (c ∷ p) [] e = cc
  starts_with-append (c ∷ p) (d ∷ s) e = ground (arith, ==_iff c d, starts_with-append p s)

  -- A search misses, and nothing is replaced, or it stops before the first replacement.
  abbrev Finds : Bytes → Type 0
  Finds s =
      ((find_text (h ∷ t) s ≡ none) × (replace 0 s ≡ s))
      ⊎ ((pre : Bytes) × (post : Bytes) × (find_text (h ∷ t) s ≡ some (length pre))
          × (s ≡ pre ++ ((h ∷ t) ++ post))
          × (replace 0 s ≡ pre ++ (putme ++ replace 0 post)))

  Finds-hit : (d : ℕ) (s : Bytes) → starts_with (h ∷ t) (d ∷ s) ≡ true → Finds (d ∷ s)
  unfolding find_text replace
  Finds-hit d s e =
      let whole = starts_with-append (h ∷ t) (d ∷ s) e in
      let tail_eq : s ≡ t ++ drop (length t) s = ap tail_of whole in
      inr (
        [],
        drop (length t) s,
        rw e,
        whole,
        rw e (
            ap (◌++◌ putme) (ap (replace (length t)) tail_eq ∙ replace_past t (drop (length t) s))),
      )
    where
      tail_of : Bytes → Bytes
      tail_of [] = []
      tail_of (x ∷ xs) = xs

  Finds-miss : (d : ℕ) (s : Bytes) → starts_with (h ∷ t) (d ∷ s) ≡ false → Finds s → Finds (d ∷ s)
  unfolding find_text replace
  Finds-miss d s e (inl (miss, same)) = inl (rw (e, miss), rw (e, same))
  Finds-miss d s e (inr (pre, post, hit, split, same)) =
      inr (d ∷ pre, post, rw (e, hit), ap (◌∷◌ d) split, rw (e, same))

  Finds-all : (s : Bytes) → Finds s
  unfolding find_text replace
  Finds-all [] = inl (refl, refl)
  Finds-all (d ∷ s) = elim (Bool-cases (starts_with (h ∷ t) (d ∷ s))) [
    | inl e ↦ Finds-hit d s e
    | inr e ↦ Finds-miss d s e (Finds-all s)
  ]

  drop_past : (pre xs post : Bytes) → drop (length pre + length xs) (pre ++ (xs ++ post)) ≡ post
  drop_past [] xs post = rw zero-add (drop-length-append xs post)
  drop_past (c ∷ pre) xs post = rw suc-add (drop_past pre xs post)

  gsub_loop-replace :
      (fuel : ℕ) (rest out : Bytes)
      → length rest ≤ fuel
      → gsub_loop (h ∷ t) putme fuel rest out ≡ out ++ replace 0 rest
  unfolding gsub_loop
  gsub_loop-replace zero [] out k = unfold replace in refl
  gsub_loop-replace zero (c ∷ rest) out k = absurd (omega arith)
  gsub_loop-replace (suc fuel) rest out k = elim (Finds-all rest) [
    | inl (miss, same) ↦ rw (miss, gsub_loop, same)
    | inr (pre, post, hit, split, same) ↦
        let cut : drop (length pre + length (h ∷ t)) rest ≡ post =
          rw split (drop_past pre (h ∷ t) post) in
        let front : take (length pre) rest ≡ pre =
          rw split (take-length-append pre ((h ∷ t) ++ post)) in
        let shorter : length post ≤ fuel = omega (
          arith,
          ap length split,
          length-append pre ((h ∷ t) ++ post),
          length-append (h ∷ t) post,
        ) in
        rw (hit, gsub_loop, cut, front, gsub_loop-replace fuel post (out ++ (pre ++ putme)) shorter)
          (simp (same, append_assoc))
  ]

abbrev pub gsub_result : Bytes → Bytes → Bytes → Outcome TextError Bytes
gsub_result target [] putme = throws gsub_exception
gsub_result [] (h ∷ t) putme = throws gsub_exception
gsub_result (c ∷ s) (h ∷ t) putme = returns (replace h t putme 0 (c ∷ s))

-- `gsub` throws exactly for an empty pattern and for an empty target, and else replaces every
-- occurrence from the left, without overlap, whatever the replacement holds.
pub gsub_lem :
    (target findme putme : Bytes) → gsub target findme putme ≡ gsub_result target findme putme
unfolding gsub
gsub_lem target [] putme = refl
gsub_lem [] (h ∷ t) putme = refl
gsub_lem (c ∷ s) (h ∷ t) putme =
    ap returns (gsub_loop-replace h t putme (length (c ∷ s)) (c ∷ s) [] (omega arith))

-- Each byte that is `b` becomes `putme`.
abbrev pub swap_byte : ℕ → Bytes → ℕ → Bytes
swap_byte b putme c = if b == c then putme else c ∷ []

abbrev pub expand : (ℕ → Bytes) → Bytes → Bytes
expand f [] = []
expand f (c ∷ s) = f c ++ expand f s

pub expand-append : (f : ℕ → Bytes) (s t : Bytes) → expand f (s ++ t) ≡ expand f s ++ expand f t
expand-append f [] t = refl
expand-append f (c ∷ s) t = simp (expand-append f s t, append_assoc)

replace-expand : (b : ℕ) (putme s : Bytes) → replace b [] putme 0 s ≡ expand (swap_byte b putme) s
unfolding replace starts_with
replace-expand b putme [] = refl
replace-expand b putme (c ∷ s) = ground (arith, replace-expand b putme s)

-- A pattern of one byte: the text is rewritten byte by byte.
pub gsub_byte :
    (c : ℕ) (s : Bytes) (b : ℕ) (putme : Bytes)
    → gsub (c ∷ s) (b ∷ []) putme ≡ returns (expand (swap_byte b putme) (c ∷ s))
gsub_byte c s b putme =
    gsub_lem (c ∷ s) (b ∷ []) putme ∙ ap returns (replace-expand b putme (c ∷ s))
