-- ===== src/Text/Trim.antt =====
-- `trim`. A position that a search found splits the text there.
pub mod Solid
use nrtb_redo.Common.{
  ℕ, suc, ◌+◌, ◌≡◌, refl, sym, ap, ◌∙◌, true, false, none, some, [], ◌∷◌, ◌++◌, append_assoc, arith,
  length, take, drop, drop-length-append, All, inl, inr, Bool-cases, ◌⊎◌, get_elem?, subst,
}
use nrtb_redo.Common.Bytes.{Bytes, codes, one_of, first_not_of, last_not_of}

abbrev pub ws : Bytes
ws = codes "\t\n "

unfoldable pub trim_front : Bytes → Bytes
trim_front s = elim (first_not_of ws s) [ none ↦ s | some loc ↦ drop loc s ]

unfoldable pub trim_back : Bytes → Bytes
trim_back s = elim (last_not_of ws s) [ none ↦ s | some loc ↦ take (loc + 1) s ]

unfoldable pub trim : Bytes → Bytes
unfolding trim_front trim_back
trim s = trim_back (trim_front s)

abbrev pub AreBlank : Bytes → Type 0
AreBlank = All (λ c. one_of ws c ≡ true)

abbrev FirstFound : Bytes → Type 0
FirstFound s =
    ((first_not_of ws s ≡ none) × AreBlank s)
    ⊎ ((pre : Bytes) × (c : ℕ) × (post : Bytes) × (first_not_of ws s ≡ some (length pre))
        × (s ≡ pre ++ (c ∷ post))
        × AreBlank pre
        × (one_of ws c ≡ false))

abbrev LastFound : Bytes → Type 0
LastFound s =
    ((last_not_of ws s ≡ none) × AreBlank s)
    ⊎ ((pre : Bytes) × (c : ℕ) × (post : Bytes) × (last_not_of ws s ≡ some (length pre))
        × (s ≡ pre ++ (c ∷ post))
        × AreBlank post
        × (one_of ws c ≡ false))

FirstFound-step : (d : ℕ) (s : Bytes) → FirstFound s → FirstFound (d ∷ s)
unfolding first_not_of
FirstFound-step d s f = elim (Bool-cases (one_of ws d)) [
  | inr dark ↦ inr ([], d, s, rw dark, refl, tt, dark)
  | inl blank ↦ elim f [
    | inl (e, l) ↦ inl (rw (blank, e), (blank, l))
    | inr (pre, c, post, e, h, l, k) ↦
        inr (d ∷ pre, c, post, rw (blank, e), ap (◌∷◌ d) h, (blank, l), k)
  ]
]

FirstFound-all : (s : Bytes) → FirstFound s
unfolding first_not_of
FirstFound-all [] = inl (refl, tt)
FirstFound-all (d ∷ s) = FirstFound-step d s (FirstFound-all s)

LastFound-step : (d : ℕ) (s : Bytes) → LastFound s → LastFound (d ∷ s)
unfolding last_not_of
LastFound-step d s (inr (pre, c, post, e, h, l, k)) =
    inr (d ∷ pre, c, post, rw (e, last_not_of), ap (◌∷◌ d) h, l, k)
LastFound-step d s (inl (e, l)) = elim (Bool-cases (one_of ws d)) [
  | inl blank ↦ inl (rw (e, last_not_of, blank), (blank, l))
  | inr dark ↦ inr ([], d, s, rw (e, last_not_of, dark), refl, l, dark)
]

LastFound-all : (s : Bytes) → LastFound s
unfolding last_not_of
LastFound-all [] = inl (refl, tt)
LastFound-all (d ∷ s) = LastFound-step d s (LastFound-all s)

-- The outcome of `trim`: all blank and unchanged, or cut down to what stands from the first to the
-- last byte that is not blank.
abbrev pub Trimmed : Bytes → Bytes → Type 0
Trimmed s out =
    (AreBlank s × (out ≡ s))
    ⊎ ((pre : Bytes) × (post : Bytes) × (first : ℕ) × (front : Bytes) × (last : ℕ) × (s
          ≡ pre ++ (out ++ post))
        × AreBlank pre
        × AreBlank post
        × (get_elem? out 0 ≡ some first)
        × (out ≡ front ++ (last ∷ []))
        × (one_of ws first ≡ false)
        × (one_of ws last ≡ false))

take_upto :
    (pre : Bytes) (c : ℕ) (post : Bytes)
    → take (length pre + 1) (pre ++ (c ∷ post)) ≡ pre ++ (c ∷ [])
take_upto [] c post = refl
take_upto (d ∷ pre) c post = rw (suc_add_one (length pre)) (ap (◌∷◌ d) (take_upto pre c post))
  where
    suc_add_one : (n : ℕ) → suc n + 1 ≡ suc (n + 1)
    suc_add_one n = omega arith

trim_front-Trimmed :
    (s pre : Bytes) (c : ℕ) (post : Bytes)
    → s ≡ pre ++ (c ∷ post)
    → AreBlank pre
    → one_of ws c ≡ false
    → Trimmed s (trim_back (c ∷ post))
unfolding trim_back
trim_front-Trimmed s pre c post h l k = elim (LastFound-all (c ∷ post)) [
  | inl (e, b) ↦ cc (b.0, k)
  | inr (front, d, blanks, e, h', l', k') ↦ inr (
    pre,
    blanks,
    c,
    front,
    d,
    h
        ∙ ap (◌++◌ pre) (
            h'
            ∙ sym (
                ap (λ xs. xs ++ blanks) (cut front blanks d e h')
                ∙ append_assoc front (d ∷ []) blanks)),
    l,
    l',
    ap (λ xs. get_elem? xs 0) (cut front blanks d e h') ∙ same_first front blanks d h',
    cut front blanks d e h',
    k,
    k',
  )
]
  where
    cut :
        (front blanks : Bytes) (d : ℕ)
        → last_not_of ws (c ∷ post) ≡ some (length front)
        → c ∷ post ≡ front ++ (d ∷ blanks)
        → trim_back (c ∷ post) ≡ front ++ (d ∷ [])
    cut front blanks d e h' = rw (e, trim_back, h') (take_upto front d blanks)

    same_first :
        (front blanks : Bytes) (d : ℕ)
        → c ∷ post ≡ front ++ (d ∷ blanks)
        → get_elem? (front ++ (d ∷ [])) 0 ≡ some c
    same_first [] blanks d h' = cc
    same_first (x ∷ xs) blanks d h' = cc

last_not_of_blank : (s : Bytes) → AreBlank s → last_not_of ws s ≡ none
unfolding last_not_of
last_not_of_blank [] l = refl
last_not_of_blank (c ∷ s) (b, l) = rw (last_not_of_blank s l, last_not_of, b)

pub trim_front_blank : (s : Bytes) → first_not_of ws s ≡ none → trim_front s ≡ s
unfolding trim_front
trim_front_blank s e = rw (e, trim_front)

pub trim_back_blank : (s : Bytes) → AreBlank s → trim_back s ≡ s
unfolding trim_back
trim_back_blank s l = rw (last_not_of_blank s l, trim_back)

pub trim_stages : (s : Bytes) → trim s ≡ trim_back (trim_front s)
unfolding trim
trim_stages s = refl

trim_front-cut :
    (s pre : Bytes) (c : ℕ) (post : Bytes)
    → first_not_of ws s ≡ some (length pre)
    → s ≡ pre ++ (c ∷ post)
    → trim_front s ≡ c ∷ post
unfolding trim_front
trim_front-cut s pre c post e h =
    rw (e, trim_front) (ap (drop (length pre)) h ∙ drop-length-append pre (c ∷ post))

-- `trim` takes the blanks off both ends of every text that holds something else, and off nothing:
-- a text of blanks only is returned as it is.
pub trim_lem : (s : Bytes) → Trimmed s (trim s)
unfolding trim
trim_lem s = elim (FirstFound-all s) [
  | inl (e, l) ↦ inl (l, trim_stages s ∙ ap trim_back (trim_front_blank s e) ∙ trim_back_blank s l)
  | inr (pre, c, post, e, h, l, k) ↦
      subst (λ x. Trimmed s (trim_back x)) (sym (trim_front-cut s pre c post e h))
        (trim_front-Trimmed s pre c post h l k)
]
