-- ===== src/Text/Date.antt =====
-- `dateflip`.
use nrtb_redo.Common.{
  ℕ, ◌<◌, ◌≡◌, ◌≢◌, refl, ap, some, none, List, [], ◌∷◌, ◌++◌, append_assoc, arith, length,
  get_elem?,
}
use nrtb_redo.Common.Bytes.{Bytes, Lacks}
use nrtb_redo.Common.Outcome.{Outcome, returns, undefined, ◌>>=◌}
use nrtb_redo.Text.Gsub.{TextError}
use nrtb_redo.Text.Split.{split, split_lem, split-join, join, occurs, part_count}

-- `temp[i]` on a std::vector: out of range it is undefined.
part : List Bytes → ℕ → Outcome TextError Bytes
part parts i = elim (get_elem? parts i) [ some p ↦ returns p | none ↦ undefined ]

arrange : List Bytes → Bytes → Outcome TextError Bytes
unfolding part
arrange temp sep = do
  a ← part temp 1
  b ← part temp 2
  c ← part temp 0
  returns ((((a ++ sep) ++ b) ++ sep) ++ c)

unfoldable pub dateflip : Bytes → Bytes → Outcome TextError Bytes
unfolding arrange
dateflip date sep = arrange (split date b'-') sep

-- A date of three parts without dashes comes back with the year last, between the given separators.
pub dateflip_lem :
    (year month day sep : Bytes)
    → Lacks b'-' year
    → Lacks b'-' month
    → Lacks b'-' day
    → dateflip (join b'-' (year ∷ month ∷ day ∷ [])) sep
      ≡ returns (month ++ (sep ++ (day ++ (sep ++ year))))
unfolding dateflip
dateflip_lem year month day sep hy hm hd =
    rw (split-join b'-' (year ∷ month ∷ day ∷ []) (not_nil year) (hy, (hm, (hd, tt))))
      (ap returns (simp append_assoc))
  where
    not_nil : (y : Bytes) → y ++ (b'-' ∷ (month ++ (b'-' ∷ day))) ≢ []
    not_nil [] e = cc
    not_nil (c ∷ y) e = cc

arrange_short : (temp : List Bytes) (sep : Bytes) → length temp < 3 → arrange temp sep ≡ undefined
unfolding arrange
arrange_short [] sep h = refl
arrange_short (a ∷ []) sep h = refl
arrange_short (a ∷ b ∷ []) sep h = refl
arrange_short (a ∷ b ∷ c ∷ r) sep h = absurd (omega arith)

few_parts : (date : Bytes) → occurs b'-' date < 2 → part_count b'-' date < 3
few_parts [] h = omega arith
few_parts (c ∷ s) h = omega arith

-- A date with fewer than two dashes is read out of range: no exception is thrown.
pub dateflip_short : (date sep : Bytes) → occurs b'-' date < 2 → dateflip date sep ≡ undefined
unfolding dateflip
dateflip_short date sep h =
    arrange_short (split date b'-') sep (omega (arith, (split_lem date b'-').2, few_parts date h))
