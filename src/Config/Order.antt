-- ===== src/Config/Order.antt =====
-- The values kept in the order of their names: insertion and lookup.
use nrtb_redo.Common.{
  ◌≡◌, refl, sym, ap, ◌∙◌, Bool, true, false, List, [], ◌∷◌, ◌++◌, if◌then◌else◌, ==_iff,
  Bool-cases, inl, inr, arith, All, subst, append-nil,
}
use nrtb_redo.Common.Bytes.{Bytes, same_bytes}
use nrtb_redo.Config.{Values, less, insert_value, find_value, equal_run, all}

pub same_bytes_eq : (s t : Bytes) → same_bytes s t ≡ true → s ≡ t
unfolding same_bytes
same_bytes_eq [] [] e = refl
same_bytes_eq [] (d ∷ t) e = cc
same_bytes_eq (c ∷ s) [] e = cc
same_bytes_eq (c ∷ s) (d ∷ t) e = ground (arith, ==_iff c d, same_bytes_eq s t)

pub same_bytes_refl : (s : Bytes) → same_bytes s s ≡ true
unfolding same_bytes
same_bytes_refl [] = refl
same_bytes_refl (c ∷ s) = ground (arith, ==_iff c c, same_bytes_refl s)

less_asym : (s t : Bytes) → less s t ≡ true → less t s ≡ false
unfolding less
less_asym [] [] e = refl
less_asym [] (d ∷ t) e = refl
less_asym (c ∷ s) [] e = cc
less_asym (c ∷ s) (d ∷ t) e = ground (arith, less_asym s t)

less_trans : (s t u : Bytes) → less s t ≡ true → less t u ≡ true → less s u ≡ true
unfolding less
less_trans [] [] [] e f = cc
less_trans (c ∷ s) [] [] e f = cc
less_trans [] (d ∷ t) [] e f = cc
less_trans (c ∷ s) (d ∷ t) [] e f = cc
less_trans [] [] (b ∷ u) e f = refl
less_trans [] (d ∷ t) (b ∷ u) e f = refl
less_trans (c ∷ s) [] (b ∷ u) e f = cc
less_trans (c ∷ s) (d ∷ t) (b ∷ u) e f = ground (arith, less_trans s t u)

less_antisym : (s t : Bytes) → less s t ≡ false → less t s ≡ false → same_bytes s t ≡ true
unfolding less same_bytes
less_antisym [] [] e f = refl
less_antisym [] (d ∷ t) e f = cc
less_antisym (c ∷ s) [] e f = cc
less_antisym (c ∷ s) (d ∷ t) e f = ground (arith, less_antisym s t)

-- No name of the list comes before `k`.
abbrev pub NoneBelow : Bytes → Values → Type 0
NoneBelow k = All (λ e. less e.0 k ≡ false)

abbrev pub IsSorted : Values → Type 0
IsSorted [] = Unit
IsSorted ((j, w) ∷ rest) = NoneBelow j rest × IsSorted rest

-- The values of one name, wherever they stand.
abbrev pub matching : Bytes → Values → List Bytes
matching k [] = []
matching k ((j, w) ∷ rest) = if same_bytes j k then w ∷ matching k rest else matching k rest

NoneBelow-less : (j k : Bytes) (vs : Values) → less j k ≡ true → NoneBelow k vs → NoneBelow j vs
NoneBelow-less j k [] h l = tt
NoneBelow-less j k ((i, w) ∷ vs) h (b, l) = (not_below, NoneBelow-less j k vs h l)
  where
    not_below : less i j ≡ false
    not_below = elim (Bool-cases (less i j)) [ inl e ↦ cc (b, less_trans i j k e h) | inr e ↦ e ]

NoneBelow-insert_value :
    (j k : Bytes) (w : Bytes) (vs : Values)
    → less k j ≡ false
    → NoneBelow j vs
    → NoneBelow j (insert_value k w vs)
unfolding insert_value
NoneBelow-insert_value j k w [] h l = (h, tt)
NoneBelow-insert_value j k w ((i, v) ∷ vs) h (b, l) = elim (Bool-cases (less k i)) [
  | inl e ↦ rw e (h, (b, l))
  | inr e ↦ rw e (b, NoneBelow-insert_value j k w vs h l)
]

pub insert_value-IsSorted :
    (k w : Bytes) (vs : Values) → IsSorted vs → IsSorted (insert_value k w vs)
unfolding insert_value
insert_value-IsSorted k w [] s = (tt, tt)
insert_value-IsSorted k w ((i, v) ∷ vs) (b, s) = elim (Bool-cases (less k i)) [
  | inl e ↦ rw e ((less_asym k i e, NoneBelow-less k i vs e b), (b, s))
  | inr e ↦ rw e (NoneBelow-insert_value i k w vs e b, insert_value-IsSorted k w vs s)
]

-- Above a name that comes after `k` there is no `k`.
matching_above : (k i : Bytes) (vs : Values) → less k i ≡ true → NoneBelow i vs → matching k vs ≡ []
matching_above k i [] h l = refl
matching_above k i ((j, w) ∷ vs) h (b, l) = elim (Bool-cases (same_bytes j k)) [
  | inl e ↦ cc (h, same_bytes_eq j k e, b)
  | inr e ↦ rw e (matching_above k i vs h l)
]

less_irrefl : (s : Bytes) → less s s ≡ false
less_irrefl s = elim (Bool-cases (less s s)) [ inl e ↦ less_asym s s e | inr e ↦ e ]

-- An entry in front of the first name above it comes after the entries of its own name.
matching_first :
    (k j w i v : Bytes) (vs : Values)
    → less j i ≡ true
    → NoneBelow i vs
    → matching k ((j, w) ∷ (i, v) ∷ vs) ≡ matching k ((i, v) ∷ vs) ++ matching k ((j, w) ∷ [])
matching_first k j w i v vs h b = elim (Bool-cases (same_bytes j k)) [
  | inl e ↦
      let none : matching k ((i, v) ∷ vs) ≡ [] =
        matching_above k i ((i, v) ∷ vs) (rw (sym (same_bytes_eq j k e)) h) (less_irrefl i, b) in
      rw e (ap (◌∷◌ w) none ∙ ap (λ ws. ws ++ (w ∷ [])) (sym none))
  | inr e ↦ rw e (sym (append-nil (matching k ((i, v) ∷ vs))))
]

pub matching-insert_value :
    (k j w : Bytes) (vs : Values)
    → IsSorted vs
    → matching k (insert_value j w vs) ≡ matching k vs ++ matching k ((j, w) ∷ [])
unfolding insert_value
matching-insert_value k j w [] s = refl
matching-insert_value k j w ((i, v) ∷ vs) (b, s) = elim (Bool-cases (less j i)) [
  | inl e ↦ rw e (matching_first k j w i v vs e b)
  | inr e ↦ rw (e, matching-insert_value k j w vs s) (split_if (same_bytes i k))
]
  where
    split_if :
        (c : Bool)
        → (if c
            then v ∷ (matching k vs ++ matching k ((j, w) ∷ []))
            else matching k vs ++ matching k ((j, w) ∷ []))
          ≡ (if c then v ∷ matching k vs else matching k vs) ++ matching k ((j, w) ∷ [])
    split_if true = refl
    split_if false = refl

equal_run-matching :
    (k : Bytes) (vs : Values) → IsSorted vs → NoneBelow k vs → equal_run k vs ≡ matching k vs
unfolding equal_run
equal_run-matching k [] s l = refl
equal_run-matching k ((j, w) ∷ vs) (b, s) (h, l) = elim (Bool-cases (same_bytes j k)) [
  | inl e ↦ rw e (ap (◌∷◌ w) (equal_run-matching k vs s l))
  | inr e ↦ rw e (sym (matching_above k j vs (above e) b))
]
  where
    above : same_bytes j k ≡ false → less k j ≡ true
    above e = elim (Bool-cases (less k j)) [ inl f ↦ f | inr f ↦ cc (less_antisym j k h f, e) ]

-- Among sorted values `all` passes over nothing of the name it looks for.
pub all-matching : (k : Bytes) (vs : Values) → IsSorted vs → all k vs ≡ matching k vs
unfolding all find_value
all-matching k [] s = unfold equal_run in refl
all-matching k ((j, w) ∷ vs) (b, s) = elim (Bool-cases (same_bytes j k)) [
  | inl e ↦
      ap (λ c. equal_run k (if c then (j, w) ∷ vs else find_value k vs)) e
      ∙ equal_run-matching k ((j, w) ∷ vs) (b, s)
          (subst (λ n. NoneBelow n ((j, w) ∷ vs)) (same_bytes_eq j k e) (less_irrefl j, b))
  | inr e ↦ rw e (all-matching k vs s)
]
