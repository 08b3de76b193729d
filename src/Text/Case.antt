-- ===== src/Text/Case.antt =====
-- `changecase`, `upcase` and `downcase`.

use nrtb_redo.Common.{
  ℕ, ◌+◌, ◌-◌, ◌<◌, ◌≡◌, refl, ap, Bool, true, false, ◌&&◌, none, some, [], ◌∷◌, ◌++◌, append_assoc,
  append-nil, ◌==◌, leb, if◌then◌else◌, map, get_elem?, ==_iff, holds_below, holds_below_at,
}
use nrtb_redo.Common.Bytes.{Bytes, codes, find_byte, IsBytes}
use nrtb_redo.Common.Outcome.{Outcome, returns, throws, undefined, ◌>>=◌}
use nrtb_redo.Text.Gsub.{TextError}

abbrev pub ricks_handy_upper : Bytes
ricks_handy_upper = codes "ABCDEFGHIJKLMNOPQRSTUVWXYZ"

abbrev pub ricks_handy_lower : Bytes
ricks_handy_lower = codes "abcdefghijklmnopqrstuvwxyz"

-- The byte that a round of the loop appends; `upper[loc]` beyond the end of `upper` is undefined.
change_byte : Bytes → Bytes → ℕ → Outcome TextError ℕ
change_byte upper lower c = elim (find_byte c lower) [
  | none ↦ returns c
  | some loc ↦ elim (get_elem? upper loc) [ some u ↦ returns u | none ↦ undefined ]
]

change_loop : Bytes → Bytes → Bytes → Bytes → Outcome TextError Bytes
unfolding change_byte
change_loop upper lower [] out = returns out
change_loop upper lower (c ∷ s) out = do
  u ← change_byte upper lower c
  change_loop upper lower s (out ++ (u ∷ []))

unfoldable pub changecase : Bytes → Bytes → Bytes → Outcome TextError Bytes
unfolding change_loop
changecase s upper lower = change_loop upper lower s []

unfoldable pub upcase : Bytes → Outcome TextError Bytes
unfolding changecase
upcase s = changecase s ricks_handy_upper ricks_handy_lower

unfoldable pub downcase : Bytes → Outcome TextError Bytes
unfolding changecase
downcase s = changecase s ricks_handy_lower ricks_handy_upper

-- The 26 letters move by 32; every other byte stays.
abbrev pub upper_byte : ℕ → ℕ
upper_byte c = if leb b'a' c && leb c b'z' then c - 32 else c

abbrev pub lower_byte : ℕ → ℕ
lower_byte c = if leb b'A' c && leb c b'Z' then c + 32 else c

gives : Outcome TextError ℕ → ℕ → Bool
gives (returns a) b = a == b
gives (throws e) b = false
gives undefined b = false

gives→returns : (o : Outcome TextError ℕ) (b : ℕ) → gives o b ≡ true → o ≡ returns b
unfolding gives
gives→returns (returns a) b h = ap returns ((==_iff a b).0 h)
gives→returns (throws e) b h = cc
gives→returns undefined b h = cc

abbrev up_byte : ℕ → Outcome TextError ℕ
up_byte = change_byte ricks_handy_upper ricks_handy_lower

abbrev down_byte : ℕ → Outcome TextError ℕ
down_byte = change_byte ricks_handy_lower ricks_handy_upper

up_table : holds_below 256 (λ c. gives (up_byte c) (upper_byte c)) ≡ true
unfolding holds_below gives change_byte find_byte
up_table = refl

down_table : holds_below 256 (λ c. gives (down_byte c) (lower_byte c)) ≡ true
unfolding holds_below gives change_byte find_byte
down_table = refl

module _ (upper lower : Bytes) (f : ℕ → ℕ)
    (byte : (c : ℕ) → c < 256 → change_byte upper lower c ≡ returns (f c)) where
  change_loop-map :
      (s out : Bytes) → IsBytes s → change_loop upper lower s out ≡ returns (out ++ map f s)
  unfolding change_loop
  change_loop-map [] out h = rw append-nil
  change_loop-map (c ∷ s) out (h, hs) =
      rw (byte c h, change_loop-map s (out ++ (f c ∷ [])) hs, append_assoc)

-- On bytes `upcase` and `downcase` never fail, move exactly the 26 letters of the other case, and
-- keep every other byte and the length.
pub changecase_lem :
    (s : Bytes)
    → IsBytes s
    → (upcase s ≡ returns (map upper_byte s)) × (downcase s ≡ returns (map lower_byte s))
unfolding upcase downcase changecase
changecase_lem s h = (
  change_loop-map ricks_handy_upper ricks_handy_lower upper_byte
      (λ c k. gives→returns (up_byte c) (upper_byte c) (holds_below_at 256 _ c k up_table)) s [] h,
  change_loop-map ricks_handy_lower ricks_handy_upper lower_byte
      (λ c k. gives→returns (down_byte c) (lower_byte c) (holds_below_at 256 _ c k down_table)) s []
      h,
)
