-- ===== src/Text/Split.antt =====
-- `split`. The text behind `processed` stands for the position; the fuel is the length of the source,
-- and each round consumes at least the token.
use nrtb_redo.Common.{
  ℕ, zero, suc, ◌+◌, ◌≤◌, ◌≡◌, ◌≢◌, refl, sym, ap, ◌∙◌, none, some, List, [], ◌∷◌, ◌++◌,
  append_assoc, arith, length, length-append, take, drop, take-length-append, All, inl, inr,
  Bool-cases, ==_iff, ◌⊎◌, ◌==◌, if◌then◌else◌,
}
use mathlib.Core.List.{cons-ne-nil}
use nrtb_redo.Common.Bytes.{Bytes, find_byte, Lacks}

unfoldable pub split_loop : ℕ → ℕ → Bytes → List Bytes → List Bytes
split_loop token zero rest parts = parts ++ (rest ∷ [])
split_loop token (suc fuel) rest parts = elim (find_byte token rest) [
  | none ↦ parts ++ (rest ∷ [])
  | some loc ↦ split_loop token fuel (drop (loc + 1) rest) (parts ++ (take loc rest ∷ []))
]

unfoldable pub split : Bytes → ℕ → List Bytes
unfolding split_loop
split [] token = []
split (c ∷ s) token = split_loop token (length (c ∷ s)) (c ∷ s) []

-- The parts with the token between them.
abbrev pub join : ℕ → List Bytes → Bytes
join token [] = []
join token (p ∷ []) = p
join token (p ∷ q ∷ ps) = p ++ (token ∷ join token (q ∷ ps))

-- How often a byte occurs.
abbrev pub occurs : ℕ → Bytes → ℕ
occurs token [] = 0
occurs token (c ∷ s) = if c == token then suc (occurs token s) else occurs token s

abbrev pub part_count : ℕ → Bytes → ℕ
part_count token [] = 0
part_count token (c ∷ s) = occurs token (c ∷ s) + 1

-- A search misses, and the byte is not there, or it stops at the first one.
abbrev pub Found : ℕ → Bytes → Type 0
Found c s =
    ((find_byte c s ≡ none) × Lacks c s)
    ⊎ ((pre : Bytes) × (post : Bytes) × (find_byte c s ≡ some (length pre))
        × (s ≡ pre ++ (c ∷ post))
        × Lacks c pre)

find_byte-step : (c d : ℕ) (s : Bytes) → Found c s → Found c (d ∷ s)
unfolding find_byte
find_byte-step c d s f = elim (Bool-cases (d == c)) [
  | inl hit ↦ inr ([], s, rw hit, ap (λ x. x ∷ s) ((==_iff d c).0 hit), tt)
  | inr miss ↦ elim f [
    | inl (e, l) ↦ inl (rw (miss, e), (λ h. cc (miss, (==_iff d c).1 h), l))
    | inr (pre, post, e, h, l) ↦
        inr (d ∷ pre, post, rw (miss, e), ap (◌∷◌ d) h, (λ k. cc (miss, (==_iff d c).1 k), l))
  ]
]

pub find_byte-Found : (c : ℕ) (s : Bytes) → Found c s
unfolding find_byte
find_byte-Found c [] = inl (refl, tt)
find_byte-Found c (d ∷ s) = find_byte-step c d s (find_byte-Found c s)

pub drop_past :
    (pre : Bytes) (c : ℕ) (post : Bytes) → drop (length pre + 1) (pre ++ (c ∷ post)) ≡ post
drop_past [] c post = refl
drop_past (d ∷ pre) c post = rw succ_one (drop_past pre c post)
  where
    succ_one : suc (length pre) + 1 ≡ suc (length pre + 1)
    succ_one = omega arith

-- The same by recursion on the text.
abbrev pub extend_first : ℕ → List Bytes → List Bytes
extend_first c [] = (c ∷ []) ∷ []
extend_first c (p ∷ ps) = (c ∷ p) ∷ ps

pub pieces : ℕ → Bytes → List Bytes
pieces token [] = [] ∷ []
pieces token (c ∷ s) = if c == token then [] ∷ pieces token s else extend_first c (pieces token s)

pub pieces-Lacks : (token : ℕ) (s : Bytes) → Lacks token s → pieces token s ≡ s ∷ []
unfolding pieces
pieces-Lacks token [] l = refl
pieces-Lacks token (c ∷ s) (h, l) = rw (pieces-Lacks token s l) (ground arith)

pub pieces-hit :
    (token : ℕ) (pre post : Bytes)
    → Lacks token pre
    → pieces token (pre ++ (token ∷ post)) ≡ pre ∷ pieces token post
unfolding pieces
pieces-hit token [] post l = ground arith
pieces-hit token (c ∷ pre) post (h, l) = rw (pieces-hit token pre post l) (ground arith)

split_loop-pieces :
    (token fuel : ℕ) (rest : Bytes) (parts : List Bytes)
    → length rest ≤ fuel
    → split_loop token fuel rest parts ≡ parts ++ pieces token rest
unfolding split_loop
split_loop-pieces token zero [] parts h = unfold pieces in refl
split_loop-pieces token zero (c ∷ rest) parts h = absurd (omega arith)
split_loop-pieces token (suc fuel) rest parts h = elim (find_byte-Found token rest) [
  | inl (e, l) ↦ rw (e, split_loop, pieces-Lacks token rest l)
  | inr (pre, post, e, eq, l) ↦
      let cut : drop (length pre + 1) rest ≡ post = rw eq (drop_past pre token post) in
      let front : take (length pre) rest ≡ pre = rw eq (take-length-append pre (token ∷ post)) in
      let shorter : length post ≤ fuel =
        omega (arith, ap length eq, length-append pre (token ∷ post)) in
      rw
        (
          e,
          split_loop,
          cut,
          front,
          split_loop-pieces token fuel post (parts ++ (pre ∷ [])) shorter,
          append_assoc,
        )
        (ap (◌++◌ parts) (sym (ap (pieces token) eq ∙ pieces-hit token pre post l)))
]

pub split-pieces : (s : Bytes) (token : ℕ) → s ≢ [] → split s token ≡ pieces token s
unfolding split
split-pieces [] token h = absurd (h refl)
split-pieces (c ∷ s) token h = split_loop-pieces token (length (c ∷ s)) (c ∷ s) [] (omega arith)

join-extend_first :
    (token c : ℕ) (ps : List Bytes) → join token (extend_first c ps) ≡ c ∷ join token ps
join-extend_first token c [] = refl
join-extend_first token c (p ∷ []) = refl
join-extend_first token c (p ∷ q ∷ ps) = refl

join-nil-pieces :
    (token : ℕ) (s : Bytes) → join token ([] ∷ pieces token s) ≡ token ∷ join token (pieces token s)
unfolding pieces
join-nil-pieces token [] = refl
join-nil-pieces token (c ∷ s) = elim (Bool-cases (c == token)) [
  | inl e ↦ rw e
  | inr e ↦ rw e (ends (pieces token s))
]
  where
    ends :
        (ps : List Bytes)
        → join token ([] ∷ extend_first c ps) ≡ token ∷ join token (extend_first c ps)
    ends [] = refl
    ends (p ∷ ps) = refl

pub join-pieces : (token : ℕ) (s : Bytes) → join token (pieces token s) ≡ s
unfolding pieces
join-pieces token [] = refl
join-pieces token (c ∷ s) = elim (Bool-cases (c == token)) [
  | inl e ↦ rw e (
      join-nil-pieces token s
      ∙ ap (◌∷◌ token) (join-pieces token s)
      ∙ ap (λ x. x ∷ s) (sym ((==_iff c token).0 e)))
  | inr e ↦ rw (e, join-extend_first token c (pieces token s)) (ap (◌∷◌ c) (join-pieces token s))
]

All-extend_first :
    (token c : ℕ) (ps : List Bytes)
    → c ≢ token
    → All (Lacks token) ps
    → All (Lacks token) (extend_first c ps)
All-extend_first token c [] h l = ((h, tt), tt)
All-extend_first token c (p ∷ ps) h (lp, l) = ((h, lp), l)

pieces-All : (token : ℕ) (s : Bytes) → All (Lacks token) (pieces token s)
unfolding pieces
pieces-All token [] = (tt, tt)
pieces-All token (c ∷ s) = elim (Bool-cases (c == token)) [
  | inl e ↦ rw e (tt, pieces-All token s)
  | inr e ↦ rw e (
      All-extend_first token c (pieces token s) (λ k. cc (e, (==_iff c token).1 k))
        (pieces-All token s))
]

length-pieces : (token : ℕ) (s : Bytes) → length (pieces token s) ≡ occurs token s + 1
unfolding pieces
length-pieces token [] = omega arith
length-pieces token (c ∷ s) = elim (Bool-cases (c == token)) [
  | inl e ↦ rw e (omega (arith, length-pieces token s))
  | inr e ↦ rw e (grown (pieces token s) (length-pieces token s))
]
  where
    grown :
        (ps : List Bytes)
        → length ps ≡ occurs token s + 1
        → length (extend_first c ps) ≡ occurs token s + 1
    grown [] h = absurd (omega arith)
    grown (p ∷ ps) h = h

-- For a text that is not empty, the parts put together with the token between them are the text,
-- no part holds the token, and there is one part more than there are tokens; the empty text has none.
pub split_lem :
    (s : Bytes) (token : ℕ)
    → (join token (split s token) ≡ s)
      × All (Lacks token) (split s token)
      × (length (split s token) ≡ part_count token s)
split_lem [] token = unfold split in (refl, tt, refl)
split_lem (c ∷ s) token =
    let e = split-pieces (c ∷ s) token (cons-ne-nil c s) in
    rw e (join-pieces token (c ∷ s), pieces-All token (c ∷ s), length-pieces token (c ∷ s))

pieces-join :
    (token : ℕ) (p : Bytes) (ps : List Bytes)
    → Lacks token p
    → All (Lacks token) ps
    → pieces token (join token (p ∷ ps)) ≡ p ∷ ps
pieces-join token p [] l ls = pieces-Lacks token p l
pieces-join token p (q ∷ ps) l (lq, ls) =
    pieces-hit token p (join token (q ∷ ps)) l ∙ ap (◌∷◌ p) (pieces-join token q ps lq ls)

-- Splitting fields that were joined by a token which none of them holds gives the fields back,
-- unless the joined text is empty.
pub split-join :
    (token : ℕ) (ps : List Bytes)
    → join token ps ≢ []
    → All (Lacks token) ps
    → split (join token ps) token ≡ ps
split-join token [] h l = absurd (h refl)
split-join token (p ∷ ps) h (lp, l) =
    split-pieces (join token (p ∷ ps)) token h ∙ pieces-join token p ps lp l
