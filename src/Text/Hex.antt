-- ===== src/Text/Hex.antt =====
-- `http_hextochar`, `http_chartohex`, `http_enhex` and `http_unhex`.
pub mod RoundTrip
pub mod Fuel
use nrtb_redo.Common.{
  ℕ, zero, suc, ◌+◌, ◌-◌, ◌*◌, ◌/◌, ◌%◌, ◌^◌, ◌<◌, ◌≤◌, ◌≡◌, ◌≢◌, refl, sym, ap, ◌∙◌, Bool, true,
  false, Option, none, some, [], ◌∷◌, ◌++◌, append_assoc, append-nil, arith, ◌==◌, if◌then◌else◌,
  map, get_elem?, ltb, ==_iff, holds_below, holds_below_at, length, length-append, take, drop, inl,
  inr, take-length-append, drop-length-append, All, All-append,
}
use nrtb_redo.Common.Bytes.{Bytes, codes, find_byte, IsBytes, Lacks}
use nrtb_redo.Common.Outcome.{Outcome, returns, throws, undefined, ◌>>=◌}
use nrtb_redo.Text.Gsub.{TextError, expand}
use nrtb_redo.Text.Split.{Found, find_byte-Found}
use nrtb_redo.Text.Case.{upcase, changecase_lem, upper_byte}

abbrev pub ricks_handy_hexits : Bytes
ricks_handy_hexits = codes "0123456789ABCDEF"

-- `npos` of a 64-bit `size_t`.
abbrev pub npos : ℕ
npos = 2 ^ 64 - 1

-- `s[i]` on a std::string that is not const: the byte 0 stands behind the last, and no further.
pub index : Bytes → ℕ → Outcome TextError ℕ
index s i = elim (get_elem? s i) [
  | some c ↦ returns c
  | none ↦ if i == length s then returns 0 else undefined
]

pub hexit_position : ℕ → ℕ
hexit_position c = elim (find_byte c ricks_handy_hexits) [ some i ↦ i | none ↦ npos ]

unfoldable pub http_hextochar : Bytes → Outcome TextError Bytes
unfolding index hexit_position
http_hextochar s = do
  u ← upcase s
  a ← index u 0
  b ← index u 1
  returns ((((16 * hexit_position a + hexit_position b) % 2 ^ 64) % 256) ∷ [])

unfoldable pub chartohex_loop : Bytes → Bytes → Outcome TextError Bytes
unfolding index
chartohex_loop [] out = returns out
chartohex_loop (c ∷ s) out = do
  let v = c % 256
  quot ← index ricks_handy_hexits (v / 16)
  rem ← index ricks_handy_hexits (v % 16)
  chartohex_loop s ((out ++ (quot ∷ [])) ++ (rem ∷ []))

unfoldable pub http_chartohex : Bytes → Outcome TextError Bytes
unfolding chartohex_loop
http_chartohex s = chartohex_loop s []

unfoldable pub enhex_loop : Bytes → Bytes → Outcome TextError Bytes
unfolding index
enhex_loop [] out = returns out
enhex_loop (c ∷ s) out = do
  let v = c % 256
  quot ← index ricks_handy_hexits (v / 16)
  rem ← index ricks_handy_hexits (v % 16)
  enhex_loop s (((out ++ codes "%") ++ (quot ∷ [])) ++ (rem ∷ []))

unfoldable pub http_enhex : Bytes → Outcome TextError Bytes
unfolding enhex_loop
http_enhex s = enhex_loop s []

-- `none` means that the fuel ran out.
unfoldable pub unhex_loop : ℕ → Bytes → Option (Outcome TextError Bytes)
unhex_loop zero s = none
unhex_loop (suc fuel) s = elim (find_byte b'%' s) [
  | none ↦ some (returns s)
  | some loc ↦ elim (http_hextochar (take 2 (drop (loc + 1) s))) [
    | returns inserted ↦ unhex_loop fuel (take loc s ++ (inserted ++ drop (loc + 3) s))
    | throws e ↦ some (throws e)
    | undefined ↦ some undefined
  ]
]

unfoldable pub http_unhex : Bytes → Option (Outcome TextError Bytes)
unfolding unhex_loop
http_unhex s = unhex_loop (length s + 1) s

-- The two hexits of a byte.
abbrev pub hexit : ℕ → ℕ
hexit d = if ltb d 10 then b'0' + d else b'A' + (d - 10)

abbrev pub two_hexits : ℕ → Bytes
two_hexits c = hexit (c / 16) ∷ hexit (c % 16) ∷ []

abbrev pub percent : ℕ → Bytes
percent c = b'%' ∷ two_hexits c

runs : http_unhex (codes "a%20b") ≡ some (returns (codes "a b"))
unfolding http_unhex http_hextochar upcase find_byte
runs = refl
