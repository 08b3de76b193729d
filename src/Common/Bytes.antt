-- ===== src/Common/Bytes.antt =====
-- A std::string as the list of its bytes, with the members that the sources call. A position is an
-- offset into the list that is searched, and `none` is `npos`.
use Prim.Native.Char.{code}
use Prim.Native.String.{String}
use nrtb_redo.Common.{
  ℕ, suc, ◌<◌, ◌≢◌, Bool, true, false, ◌&&◌, Option, none, some, List, [], ◌∷◌, if◌then◌else◌, ◌==◌,
  All,
}
use mathlib.Core.Option

abbrev pub Bytes : Type 0
Bytes = List ℕ

-- The code points of a literal: its bytes when it is ASCII.
abbrev pub codes : String → Bytes
codes String.[] = []
codes (String.◌∷◌ c s) = code c ∷ codes s

abbrev pub Lacks : ℕ → Bytes → Type 0
Lacks b = All (λ c. c ≢ b)

abbrev pub IsBytes : Bytes → Type 0
IsBytes = All (λ c. c < 256)

unfoldable pub same_bytes : Bytes → Bytes → Bool
same_bytes [] [] = true
same_bytes [] (d ∷ t) = false
same_bytes (c ∷ s) [] = false
same_bytes (c ∷ s) (d ∷ t) = c == d && same_bytes s t

-- `s.find(c)`
unfoldable pub find_byte : ℕ → Bytes → Option ℕ
find_byte c [] = none
find_byte c (d ∷ s) = if d == c then some 0 else Option.map suc (find_byte c s)

unfoldable pub starts_with : Bytes → Bytes → Bool
starts_with [] s = true
starts_with (c ∷ p) [] = false
starts_with (c ∷ p) (d ∷ s) = c == d && starts_with p s

-- `s.find(p)`
unfoldable pub find_text : Bytes → Bytes → Option ℕ
unfolding starts_with
find_text p [] = if starts_with p [] then some 0 else none
find_text p (d ∷ s) = if starts_with p (d ∷ s) then some 0 else Option.map suc (find_text p s)

unfoldable pub one_of : Bytes → ℕ → Bool
one_of [] c = false
one_of (d ∷ ds) c = if c == d then true else one_of ds c

-- `s.find_first_of(set)`, `s.find_first_not_of(set)` and `s.find_last_not_of(set)`
unfoldable pub first_of_set : Bytes → Bytes → Option ℕ
unfolding one_of
first_of_set ds [] = none
first_of_set ds (c ∷ s) = if one_of ds c then some 0 else Option.map suc (first_of_set ds s)

unfoldable pub first_not_of : Bytes → Bytes → Option ℕ
unfolding one_of
first_not_of ds [] = none
first_not_of ds (c ∷ s) = if one_of ds c then Option.map suc (first_not_of ds s) else some 0

unfoldable pub last_not_of : Bytes → Bytes → Option ℕ
unfolding one_of
last_not_of ds [] = none
last_not_of ds (c ∷ s) = elim (last_not_of ds s) [
  | some i ↦ some (suc i)
  | none ↦ if one_of ds c then none else some 0
]
