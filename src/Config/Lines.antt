-- ===== src/Config/Lines.antt =====
-- Whole files: how the loop of `read` takes them apart in lines.
use nrtb_redo.Common.{
  ℕ, zero, suc, ◌+◌, ◌<◌, ◌≤◌, ◌≡◌, refl, sym, ap, ◌∙◌, false, List, [], ◌∷◌, ◌++◌, Option, none,
  some, length, ◌==◌, Bool-cases, inl, inr, arith, length-append,
}
use nrtb_redo.Common.Bytes.{Bytes, Lacks}
use nrtb_redo.Config.File.{
  newline, Taken, at_limit, take_line, room, getline, c_text, after_line, lines_loop, file_lines,
}

abbrev AtMost : ℕ → Option Bytes → Type 0
AtMost n none = Unit
AtMost n (some rest) = length rest ≤ n

at_limit-AtMost : (s : Bytes) → AtMost (length s) (at_limit s).1
at_limit-AtMost [] = omega arith
at_limit-AtMost (c ∷ s) = elim (Bool-cases (c == newline)) [
  | inl e ↦ rw e (omega arith)
  | inr e ↦ rw e tt
]

AtMost-suc : (n : ℕ) (o : Option Bytes) → AtMost n o → AtMost (suc n) o
AtMost-suc n none h = tt
AtMost-suc n (some rest) h = omega arith

take_line-AtMost : (k : ℕ) (s : Bytes) → AtMost (length s) (take_line k s).1
unfolding take_line
take_line-AtMost zero s = at_limit-AtMost s
take_line-AtMost (suc k) [] = omega arith
take_line-AtMost (suc k) (c ∷ s) = elim (Bool-cases (c == newline)) [
  | inl e ↦ rw e (omega arith)
  | inr e ↦ rw e (AtMost-suc (length s) (take_line k s).1 (take_line-AtMost k s))
]

take_line-suc : (k c : ℕ) (s : Bytes) → AtMost (length s) (take_line (suc k) (c ∷ s)).1
unfolding take_line
take_line-suc k c s = elim (Bool-cases (c == newline)) [
  | inl e ↦ rw e (omega arith)
  | inr e ↦ rw e (take_line-AtMost k s)
]

-- A line takes at least one byte off the file.
getline-AtMost : (c : ℕ) (s : Bytes) → AtMost (length s) (getline (c ∷ s)).1
unfolding getline
getline-AtMost c s = take_line-suc 16382 c s

after_line-cong :
    (n : ℕ) (f g : Bytes → List Bytes) (t : Taken)
    → AtMost n t.1
    → ((rest : Bytes) → length rest ≤ n → f rest ≡ g rest)
    → after_line f t ≡ after_line g t
unfolding after_line
after_line-cong n f g (line, none) h same = refl
after_line-cong n f g (line, some rest) h same = ap (◌∷◌ (c_text line)) (same rest h)

lines_loop-suc :
    (fuel : ℕ) (s : Bytes) → lines_loop (suc fuel) s ≡ after_line (lines_loop fuel) (getline s)
unfolding lines_loop
lines_loop-suc fuel s = refl

-- More fuel than bytes gives the same lines.
lines_loop-fuel :
    (a b : ℕ) (s : Bytes) → length s < a → length s < b → lines_loop a s ≡ lines_loop b s
lines_loop-fuel zero b s h k = absurd (omega arith)
lines_loop-fuel (suc a) zero s h k = absurd (omega arith)
lines_loop-fuel (suc a) (suc b) [] h k = unfold lines_loop getline after_line in refl
lines_loop-fuel (suc a) (suc b) (c ∷ s) h k =
    lines_loop-suc a (c ∷ s)
    ∙ after_line-cong (length s) (lines_loop a) (lines_loop b) (getline (c ∷ s))
        (getline-AtMost c s) (λ rest m. lines_loop-fuel a b rest (omega arith) (omega arith))
    ∙ sym (lines_loop-suc b (c ∷ s))

-- A line that fits in the buffer and has no newline and no zero byte.
abbrev pub IsLine : Bytes → Type 0
IsLine line = Lacks newline line × Lacks 0 line × (length line ≤ room)

take_line-append :
    (k : ℕ) (line rest : Bytes)
    → Lacks newline line
    → length line ≤ k
    → take_line k (line ++ (newline ∷ rest)) ≡ (line, some rest)
unfolding take_line
take_line-append zero [] rest l h = refl
take_line-append zero (c ∷ line) rest l h = absurd (omega arith)
take_line-append (suc k) [] rest l h = refl
take_line-append (suc k) (c ∷ line) rest (n, l) h =
    rw (other, take_line-append k line rest l (omega arith)) refl
  where
    other : (c == newline) ≡ false
    other = ground (arith, n)

getline-cons : (c : ℕ) (s : Bytes) → getline (c ∷ s) ≡ take_line room (c ∷ s)
unfolding getline
getline-cons c s = refl

getline-append :
    (line rest : Bytes) → IsLine line → getline (line ++ (newline ∷ rest)) ≡ (line, some rest)
getline-append [] rest (l, z, h) = getline-cons newline rest ∙ take_line-append room [] rest l h
getline-append (c ∷ line) rest (l, z, h) =
    getline-cons c (line ++ (newline ∷ rest)) ∙ take_line-append room (c ∷ line) rest l h

c_text-Lacks : (s : Bytes) → Lacks 0 s → c_text s ≡ s
unfolding c_text
c_text-Lacks [] l = refl
c_text-Lacks (c ∷ s) (h, l) = ground (arith, h, c_text-Lacks s l)

after_line-some :
    (f : Bytes → List Bytes) (line rest : Bytes)
    → Lacks 0 line
    → after_line f (line, some rest) ≡ line ∷ f rest
unfolding after_line
after_line-some f line rest l = ap (λ x. x ∷ f rest) (c_text-Lacks line l)

-- A line at the start of a file is the first that the loop sees.
pub file_lines-append :
    (line rest : Bytes)
    → IsLine line
    → file_lines (line ++ (newline ∷ rest)) ≡ line ∷ file_lines rest
unfolding file_lines
file_lines-append line rest h =
    lines_loop-fuel (length (line ++ (newline ∷ rest)) + 1)
      (suc (length (line ++ (newline ∷ rest)))) (line ++ (newline ∷ rest)) (omega arith)
      (omega arith)
    ∙ lines_loop-suc (length (line ++ (newline ∷ rest))) (line ++ (newline ∷ rest))
    ∙ ap (after_line (lines_loop (length (line ++ (newline ∷ rest))))) (getline-append line rest h)
    ∙ after_line-some (lines_loop (length (line ++ (newline ∷ rest)))) line rest h.1
    ∙ ap (◌∷◌ line) (
        lines_loop-fuel (length (line ++ (newline ∷ rest))) (length rest + 1) rest
          (omega (arith, length-append line (newline ∷ rest))) (omega arith))
