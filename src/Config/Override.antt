-- ===== src/Config/Override.antt =====
-- The command line over the values of the file.
use nrtb_redo.Common.{
  ℕ, ◌≡◌, ◌≢◌, refl, sym, ap, ◌∙◌, true, false, List, [], ◌∷◌, ◌++◌, some, Bool-cases, inl, inr,
  append-nil,
}
use nrtb_redo.Common.Bytes.{Bytes, same_bytes, Lacks}
use nrtb_redo.Text.Split.{split, join, pieces, pieces-hit, split-pieces, join-pieces}
use nrtb_redo.Config.{Values, exists, find_value, all}
use nrtb_redo.Config.Order.{
  same_bytes_eq, same_bytes_refl, IsSorted, NoneBelow, insert_value-IsSorted, matching,
  matching-insert_value, all-matching,
}
use nrtb_redo.Config.Args.{arg_pair, equal_sign, set_first, override_one, override}

append_nonempty : (c : ℕ) (xs ys : Bytes) → xs ++ (c ∷ ys) ≢ []
append_nonempty c [] ys e = cc
append_nonempty c (x ∷ xs) ys e = cc

arg_pair-cons :
    (instring name : Bytes) (parts : List Bytes)
    → split instring equal_sign ≡ name ∷ parts
    → arg_pair instring ≡ some (name, join equal_sign parts)
unfolding arg_pair
arg_pair-cons instring name parts e = rw (e, arg_pair)

-- An argument is taken apart at its first `=`; every later `=` is kept in the value.
pub arg_pair_lem :
    (name value : Bytes)
    → Lacks equal_sign name
    → arg_pair (name ++ (equal_sign ∷ value)) ≡ some (name, value)
arg_pair_lem name value l =
    arg_pair-cons (name ++ (equal_sign ∷ value)) name (pieces equal_sign value) (
      split-pieces (name ++ (equal_sign ∷ value)) equal_sign (append_nonempty equal_sign name value)
      ∙ pieces-hit equal_sign name value l)
    ∙ ap (λ v. some (name, v)) (join-pieces equal_sign value)

abbrev last_value : Bytes → List Bytes → Bytes
last_value v [] = v
last_value v (w ∷ vs) = last_value w vs

abbrev put_first : Bytes → List Bytes → List Bytes
put_first v [] = v ∷ []
put_first v (w ∷ ws) = v ∷ ws

-- The values of a name: the last one of the command line in the place of the first of the file.
abbrev pub overridden : List Bytes → List Bytes → List Bytes
overridden [] old = old
overridden (v ∷ vs) old = put_first (last_value v vs) old

overridden-cons :
    (v : Bytes) (vs old : List Bytes) → overridden vs (put_first v old) ≡ overridden (v ∷ vs) old
overridden-cons v [] old = refl
overridden-cons v (w ∷ vs) [] = refl
overridden-cons v (w ∷ vs) (o ∷ old) = refl

NoneBelow-set_first :
    (j k v : Bytes) (vs : Values) → NoneBelow j vs → NoneBelow j (set_first k v vs)
unfolding set_first
NoneBelow-set_first j k v [] h = tt
NoneBelow-set_first j k v ((i, w) ∷ vs) (b, h) = elim (Bool-cases (same_bytes i k)) [
  | inl e ↦ rw e (b, h)
  | inr e ↦ rw e (b, NoneBelow-set_first j k v vs h)
]

set_first-IsSorted : (k v : Bytes) (vs : Values) → IsSorted vs → IsSorted (set_first k v vs)
unfolding set_first
set_first-IsSorted k v [] s = tt
set_first-IsSorted k v ((i, w) ∷ vs) (b, s) = elim (Bool-cases (same_bytes i k)) [
  | inl e ↦ rw e (b, s)
  | inr e ↦ rw e (NoneBelow-set_first i k v vs b, set_first-IsSorted k v vs s)
]

override_one-IsSorted : (k v : Bytes) (vs : Values) → IsSorted vs → IsSorted (override_one k v vs)
unfolding override_one
override_one-IsSorted k v vs s = elim (Bool-cases (exists k vs)) [
  | inl e ↦ rw e (set_first-IsSorted k v vs s)
  | inr e ↦ rw e (insert_value-IsSorted k v vs s)
]

exists-cons :
    (k i w : Bytes) (vs : Values) → same_bytes i k ≡ false → exists k ((i, w) ∷ vs) ≡ exists k vs
unfolding exists find_value
exists-cons k i w vs e = rw e

exists_hit : (k i w : Bytes) (vs : Values) → same_bytes i k ≡ true → exists k ((i, w) ∷ vs) ≡ true
unfolding exists find_value
exists_hit k i w vs e = rw e

matching_none : (k : Bytes) (vs : Values) → exists k vs ≡ false → matching k vs ≡ []
matching_none k [] h = refl
matching_none k ((i, w) ∷ vs) h = elim (Bool-cases (same_bytes i k)) [
  | inl e ↦ cc (h, exists_hit k i w vs e)
  | inr e ↦ rw e (matching_none k vs (sym (exists-cons k i w vs e) ∙ h))
]

not_nil : (k : Bytes) → exists k [] ≢ true
unfolding exists find_value
not_nil k e = cc

matching-set_first :
    (k v : Bytes) (vs : Values)
    → exists k vs ≡ true
    → matching k (set_first k v vs) ≡ put_first v (matching k vs)
unfolding set_first
matching-set_first k v [] h = absurd (not_nil k h)
matching-set_first k v ((i, w) ∷ vs) h = elim (Bool-cases (same_bytes i k)) [
  | inl e ↦ rw e (rw e refl)
  | inr e ↦ rw e (rw e (matching-set_first k v vs (sym (exists-cons k i w vs e) ∙ h)))
]

matching-set_first_other :
    (j k v : Bytes) (vs : Values)
    → same_bytes k j ≡ false
    → matching j (set_first k v vs) ≡ matching j vs
unfolding set_first
matching-set_first_other j k v [] h = refl
matching-set_first_other j k v ((i, w) ∷ vs) h = elim (Bool-cases (same_bytes i k)) [
  | inl e ↦ rw (e, ap (λ n. same_bytes n j) (same_bytes_eq i k e) ∙ h)
  | inr e ↦ rw (e, matching-set_first_other j k v vs h)
]

matching-override_one :
    (k v : Bytes) (vs : Values)
    → IsSorted vs
    → matching k (override_one k v vs) ≡ put_first v (matching k vs)
unfolding override_one
matching-override_one k v vs s = elim (Bool-cases (exists k vs)) [
  | inl e ↦ rw e (matching-set_first k v vs e)
  | inr e ↦ rw (e, matching-insert_value k k v vs s, matching_none k vs e, same_bytes_refl k) refl
]

matching-override_one_other :
    (j k v : Bytes) (vs : Values)
    → IsSorted vs
    → same_bytes k j ≡ false
    → matching j (override_one k v vs) ≡ matching j vs
unfolding override_one
matching-override_one_other j k v vs s h = elim (Bool-cases (exists k vs)) [
  | inl e ↦ rw e (matching-set_first_other j k v vs h)
  | inr e ↦ rw (e, matching-insert_value j k v vs s, h) (append-nil (matching j vs))
]

override-IsSorted : (cvars vs : Values) → IsSorted vs → IsSorted (override cvars vs)
unfolding override
override-IsSorted [] vs s = s
override-IsSorted ((k, v) ∷ cvars) vs s =
    override-IsSorted cvars (override_one k v vs) (override_one-IsSorted k v vs s)

matching-override :
    (j : Bytes) (cvars vs : Values)
    → IsSorted vs
    → matching j (override cvars vs) ≡ overridden (matching j cvars) (matching j vs)
unfolding override
matching-override j [] vs s = refl
matching-override j ((k, v) ∷ cvars) vs s =
    matching-override j cvars (override_one k v vs) (override_one-IsSorted k v vs s)
    ∙ elim (Bool-cases (same_bytes k j)) [
      | inl e ↦ rw e (
          ap (overridden (matching j cvars))
            (rw (sym (same_bytes_eq k j e)) (matching-override_one k v vs s))
          ∙ overridden-cons v (matching j cvars) (matching j vs))
      | inr e ↦ rw e (ap (overridden (matching j cvars)) (matching-override_one_other j k v vs s e))
    ]

-- Over values in order, the override loop puts the last value of a name on the command line in the
-- place of the first of the file, keeps the others of the file, and leaves the other names alone.
pub all-override :
    (j : Bytes) (cvars vs : Values)
    → IsSorted vs
    → all j (override cvars vs) ≡ overridden (matching j cvars) (all j vs)
all-override j cvars vs s =
    all-matching j (override cvars vs) (override-IsSorted cvars vs s)
    ∙ matching-override j cvars vs s
    ∙ ap (overridden (matching j cvars)) (sym (all-matching j vs s))
