-- ===== src/Text/Hex/RoundTrip.antt =====
-- Encoding and decoding: where `http_unhex` undoes `http_enhex`, and where it does not.
use native.Mathlib.Nat.{zero-add}
use nrtb_redo.Common.{
  ℕ, suc, ◌+◌, ◌*◌, ◌/◌, ◌%◌, ◌<◌, ◌≡◌, ◌≢◌, refl, sym, ap, ◌∙◌, Bool, true, false, some, none, [],
  ◌∷◌, ◌++◌, append_assoc, append-nil, arith, ◌==◌, ==_iff, holds_below, holds_below_at, length,
  length-append, take, drop, take-length-append, All-append,
}
use nrtb_redo.Common.Bytes.{Bytes, find_byte, IsBytes, Lacks}
use nrtb_redo.Common.Outcome.{Outcome, returns, throws, undefined}
use nrtb_redo.Text.Gsub.{TextError, expand, expand-append}
use nrtb_redo.Text.Case.{upcase}
use nrtb_redo.Text.Hex.{
  index, ricks_handy_hexits, http_hextochar, chartohex_loop, http_chartohex, enhex_loop, http_enhex,
  unhex_loop, http_unhex, hexit, two_hexits, percent,
}

gives_byte : Outcome TextError ℕ → ℕ → Bool
gives_byte (returns a) b = a == b
gives_byte (throws e) b = false
gives_byte undefined b = false

gives_byte→returns : (o : Outcome TextError ℕ) (b : ℕ) → gives_byte o b ≡ true → o ≡ returns b
unfolding gives_byte
gives_byte→returns (returns a) b h = ap returns ((==_iff a b).0 h)
gives_byte→returns (throws e) b h = cc
gives_byte→returns undefined b h = cc

hexit_table : holds_below 16 (λ d. gives_byte (index ricks_handy_hexits d) (hexit d)) ≡ true
unfolding holds_below gives_byte index
hexit_table = refl

index-hexit : (d : ℕ) → d < 16 → index ricks_handy_hexits d ≡ returns (hexit d)
index-hexit d h = gives_byte→returns _ (hexit d) (holds_below_at 16 _ d h hexit_table)

enhex_loop-expand :
    (s out : Bytes) → IsBytes s → enhex_loop s out ≡ returns (out ++ expand percent s)
unfolding enhex_loop
enhex_loop-expand [] out h = rw append-nil
enhex_loop-expand (c ∷ s) out (h, hs) =
    let e : c % 256 ≡ c = omega arith in
    rw (e, index-hexit (c / 16) (omega arith), index-hexit (c % 16) (omega arith))
      (enhex_loop-expand s _ hs ∙ ap returns (simp append_assoc))

chartohex_loop-expand :
    (s out : Bytes) → IsBytes s → chartohex_loop s out ≡ returns (out ++ expand two_hexits s)
unfolding chartohex_loop
chartohex_loop-expand [] out h = rw append-nil
chartohex_loop-expand (c ∷ s) out (h, hs) =
    let e : c % 256 ≡ c = omega arith in
    rw (e, index-hexit (c / 16) (omega arith), index-hexit (c % 16) (omega arith))
      (chartohex_loop-expand s _ hs ∙ ap returns (simp append_assoc))

decodes_to : Outcome TextError Bytes → ℕ → Bool
decodes_to (returns (a ∷ [])) c = a == c
decodes_to _ c = false

decodes_to→returns :
    (o : Outcome TextError Bytes) (c : ℕ) → decodes_to o c ≡ true → o ≡ returns (c ∷ [])
unfolding decodes_to
decodes_to→returns (returns []) c h = cc
decodes_to→returns (returns (a ∷ [])) c h = ap (λ x. returns (x ∷ [])) ((==_iff a c).0 h)
decodes_to→returns (returns (a ∷ b ∷ r)) c h = cc
decodes_to→returns (throws e) c h = cc
decodes_to→returns undefined c h = cc

decode_table : holds_below 256 (λ c. decodes_to (http_hextochar (two_hexits c)) c) ≡ true
unfolding holds_below decodes_to http_hextochar upcase find_byte
decode_table = refl

-- Every byte is read back from its two hexits.
pub http_hextochar-two_hexits : (c : ℕ) → c < 256 → http_hextochar (two_hexits c) ≡ returns (c ∷ [])
http_hextochar-two_hexits c h = decodes_to→returns _ c (holds_below_at 256 _ c h decode_table)

find_byte_past :
    (c : ℕ) (pre post : Bytes) → Lacks c pre → find_byte c (pre ++ (c ∷ post)) ≡ some (length pre)
unfolding find_byte
find_byte_past c [] post l = ground arith
find_byte_past c (d ∷ pre) post (h, l) = rw (find_byte_past c pre post l) (ground arith)

find_byte_miss : (c : ℕ) (s : Bytes) → Lacks c s → find_byte c s ≡ none
unfolding find_byte
find_byte_miss c [] l = refl
find_byte_miss c (d ∷ s) (h, l) = rw (find_byte_miss c s l) (ground arith)

suc-add : (m n : ℕ) → suc m + n ≡ suc (m + n)
suc-add m n = omega arith

drop_by : (k : ℕ) (pre rest : Bytes) → drop (length pre + k) (pre ++ rest) ≡ drop k rest
drop_by k [] rest = rw zero-add
drop_by k (c ∷ pre) rest = rw (suc-add (length pre) k) (drop_by k pre rest)

-- One round at the first percent sign, which a percent group `c` follows.
unhex_step :
    (fuel c : ℕ) (done rest : Bytes)
    → c < 256
    → Lacks b'%' done
    → unhex_loop (suc fuel) (done ++ (percent c ++ rest)) ≡ unhex_loop fuel (done ++ (c ∷ rest))
unfolding unhex_loop
unhex_step fuel c done rest h l =
    let hit = find_byte_past b'%' done (two_hexits c ++ rest) l in
    let pair : take 2 (drop (length done + 1) (done ++ (percent c ++ rest))) ≡ two_hexits c =
      ap (take 2) (drop_by 1 done (percent c ++ rest)) in
    let front = take-length-append done (percent c ++ rest) in
    let behind = drop_by 3 done (percent c ++ rest) in
    rw (hit, unhex_loop, pair, http_hextochar-two_hexits c h, front, behind)

unhex_prefix :
    (fuel : ℕ) (s done rest : Bytes)
    → IsBytes s
    → Lacks b'%' s
    → Lacks b'%' done
    → unhex_loop (length s + fuel) (done ++ (expand percent s ++ rest))
      ≡ unhex_loop fuel (done ++ (s ++ rest))
unhex_prefix fuel [] done rest h l k = ap (λ n. unhex_loop n (done ++ rest)) (zero-add fuel)
unhex_prefix fuel (c ∷ s) done rest (h, hs) (l, ls) k =
    ap (λ n. unhex_loop n (done ++ (percent c ++ (expand percent s ++ rest))))
      (suc-add (length s) fuel)
    ∙ unhex_step (length s + fuel) c done (expand percent s ++ rest) h k
    ∙ ap (unhex_loop (length s + fuel))
        (sym (append_assoc done (c ∷ []) (expand percent s ++ rest)))
    ∙ unhex_prefix fuel s (done ++ (c ∷ [])) rest hs ls
        (All-append (λ x. x ≢ b'%') done (c ∷ []) k (l, tt))
    ∙ ap (unhex_loop fuel) (append_assoc done (c ∷ []) (s ++ rest))

length-expand : (s : Bytes) → length (expand percent s) ≡ 3 * length s
length-expand [] = refl
length-expand (c ∷ s) = omega (arith, length-expand s)

unhex_loop-plain :
    (fuel : ℕ) (s : Bytes) → Lacks b'%' s → unhex_loop (suc fuel) s ≡ some (returns s)
unfolding unhex_loop
unhex_loop-plain fuel s l = rw (find_byte_miss b'%' s l, unhex_loop)

unhex-expand :
    (s : Bytes) → IsBytes s → Lacks b'%' s → http_unhex (expand percent s) ≡ some (returns s)
unfolding http_unhex
unhex-expand s h l =
    let whole : expand percent s ≡ expand percent s ++ [] = sym (append-nil _) in
    let fuel : length (expand percent s) + 1 ≡ length s + suc (2 * length s + 0) =
      omega (arith, length-expand s) in
    ap (λ n. unhex_loop n (expand percent s)) fuel
    ∙ ap (unhex_loop (length s + suc (2 * length s + 0))) whole
    ∙ unhex_prefix (suc (2 * length s + 0)) s [] [] h l tt
    ∙ ap (unhex_loop (suc (2 * length s + 0))) (append-nil s)
    ∙ unhex_loop-plain (2 * length s + 0) s l

-- `http_enhex` never fails on bytes without a percent sign, and `http_unhex` gives them back.
pub http_unhex-http_enhex :
    (s : Bytes)
    → IsBytes s
    → Lacks b'%' s
    → (out : Bytes) × (http_enhex s ≡ returns out) × (http_unhex out ≡ some (returns s))
unfolding http_enhex
http_unhex-http_enhex s h l = (expand percent s, enhex_loop-expand s [] h, unhex-expand s h l)

hextochar_nil : http_hextochar [] ≡ undefined
unfolding http_hextochar upcase
hextochar_nil = refl

unhex_loop-last :
    (fuel : ℕ) (s : Bytes)
    → Lacks b'%' s
    → unhex_loop (suc fuel) (s ++ (b'%' ∷ [])) ≡ some undefined
unfolding unhex_loop
unhex_loop-last fuel s l =
    let hit = find_byte_past b'%' s [] l in
    let none_left : take 2 (drop (length s + 1) (s ++ (b'%' ∷ []))) ≡ [] =
      ap (take 2) (drop_by 1 s (b'%' ∷ [])) in
    rw (hit, unhex_loop, none_left, hextochar_nil)

unhex-percent :
    (s : Bytes)
    → IsBytes s
    → Lacks b'%' s
    → http_unhex (expand percent (s ++ (b'%' ∷ []))) ≡ some undefined
unfolding http_unhex
unhex-percent s h l =
    let text = expand-append percent s (b'%' ∷ []) in
    let fuel : length (expand percent (s ++ (b'%' ∷ []))) + 1
        ≡ length s + suc (suc (2 * length s + 2)) =
      omega (arith, length-expand (s ++ (b'%' ∷ [])), length-append s (b'%' ∷ [])) in
    ap (λ n. unhex_loop n (expand percent (s ++ (b'%' ∷ [])))) fuel
    ∙ ap (unhex_loop (length s + suc (suc (2 * length s + 2)))) text
    ∙ unhex_prefix (suc (suc (2 * length s + 2))) s [] (percent b'%') h l tt
    ∙ unhex_step (suc (2 * length s + 2)) b'%' s [] (omega arith) l
    ∙ unhex_loop-last (2 * length s + 2) s l

-- A text that ends in its only percent sign is encoded without an error, and `http_unhex` of the
-- result reads behind the end of a string: the decoded sign is taken for another group.
pub http_unhex-percent :
    (s : Bytes)
    → IsBytes s
    → Lacks b'%' s
    → (out : Bytes) × (http_enhex (s ++ (b'%' ∷ [])) ≡ returns out)
      × (http_unhex out ≡ some undefined)
unfolding http_enhex
http_unhex-percent s h l = (
  expand percent (s ++ (b'%' ∷ [])),
  enhex_loop-expand (s ++ (b'%' ∷ [])) []
      (All-append (λ c. c < 256) s (b'%' ∷ []) h (omega arith, tt)),
  unhex-percent s h l,
)

-- On bytes, `http_chartohex` writes two hexits each, and `http_hextochar` reads the hexits of
-- every byte back.
pub http_chartohex_lem :
    (s : Bytes) (c : ℕ)
    → IsBytes s
    → c < 256
    → (http_chartohex s ≡ returns (expand two_hexits s))
      × (http_hextochar (two_hexits c) ≡ returns (c ∷ []))
unfolding http_chartohex
http_chartohex_lem s c h k = (chartohex_loop-expand s [] h, http_hextochar-two_hexits c k)
